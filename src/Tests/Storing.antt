-- ===== src/Tests/Storing.antt =====
-- A mount, a node in it and its signed URL.
use genro_mail_proxy.Prelude.{ℕ, zero, suc, ◌≡◌, refl, ap, true, some, [], ◌∷◌, arith, leb}
use genro_mail_proxy.Prelude.Text.{Text, codes, text_eq}
use genro_mail_proxy.Storage.{
  Mounts, StorageNode, Config, Signing, get_mount_config, strip_slashes, parse_url, register,
  new_node, node, fullpath, token_of, verify_url_token,
}
use genro_mail_proxy.Storage.Names.{node-fullpath}
use genro_mail_proxy.Storage.Urls.{HasNoDash, IsLawful, verify_url_token-token_of}

text_eq_refl : (s : Text) → text_eq s s ≡ true
unfolding text_eq
text_eq_refl [] = refl
text_eq_refl (c ∷ s) = ground (arith, text_eq_refl s)

-- A number as so many ones.
ones : ℕ → Text
ones zero = []
ones (suc n) = b'1' ∷ ones n

count : Text → ℕ
count [] = zero
count (c ∷ s) = suc (count s)

count-ones : (n : ℕ) → count (ones n) ≡ n
unfolding ones count
count-ones zero = refl
count-ones (suc n) = ap suc (count-ones n)

ones-HasNoDash : (n : ℕ) → HasNoDash (ones n)
unfolding ones
ones-HasNoDash zero = tt
ones-HasNoDash (suc n) = (refl, ones-HasNoDash n)

abbrev signing : Signing
signing = record {
  hexdigest = λ key message. codes "0f";
  compare_digest = λ s t. some (text_eq s t);
  str_of = ones;
  int_of = λ s. some (count s);
}

signing-IsLawful : IsLawful signing
signing-IsLawful = record {
  int_of-str_of = λ n. ap (λ m. some m) (count-ones n);
  str_of-HasNoDash = ones-HasNoDash;
  hexdigest-HasNoDash = λ key message. (refl, (refl, tt));
  hexdigest-IsAscii = λ key message. (refl, (refl, tt));
  compare_digest-refl = λ s ascii. ap (λ b. some b) (text_eq_refl s);
}

abbrev bucket : Config
bucket = parse_url (codes "s3://mail/out")

abbrev report : StorageNode
report = new_node (codes "data") (codes "a/b.pdf") bucket

abbrev mounts : Mounts
mounts = register (codes "data") bucket []

node-fullpath_example : node (fullpath report) [] mounts ≡ some report
unfolding strip_slashes get_mount_config register text_eq parse_url
node-fullpath_example = node-fullpath report mounts (refl, (refl, (refl, (refl, tt)))) refl refl

verify_url_token-token_of_example :
    verify_url_token signing 4000001 (token_of signing report 4) report ≡ some (leb 4000001 4000000)
verify_url_token-token_of_example =
    verify_url_token-token_of signing report 4 4000001 signing-IsLawful
