-- ===== src/Storage/Urls.antt =====
-- How long a signature is valid.
use genro_mail_proxy.Prelude.{
  ℕ, ◌*◌, ◌≡◌, refl, ap, ◌∙◌, true, false, some, [], ◌∷◌, ◌++◌, ◌==◌, leb, ltb, arith, take, All,
  zero, suc,
}
use genro_mail_proxy.Prelude.Text.{Text, split}
use genro_mail_proxy.Storage.{
  StorageNode, Signing, signature_of, token_of, is_valid_at, of_token_parts, verify_url_token,
}

abbrev pub HasNoDash : Text → Type 0
HasNoDash = All (λ c. (c == b'-') ≡ false)

abbrev pub IsAscii : Text → Type 0
IsAscii = All (λ c. ltb c 128 ≡ true)

-- What the library promises: the decimals of a number are read back, neither they nor the digits of
-- a hash have a dash, and ASCII texts are compared.
pub record IsLawful (g : Signing) : Type 0 where
  pub int_of-str_of : (n : ℕ) → g.int_of (g.str_of n) ≡ some n
  pub str_of-HasNoDash : (n : ℕ) → HasNoDash (g.str_of n)
  pub hexdigest-HasNoDash : (key message : Text) → HasNoDash (g.hexdigest key message)
  pub hexdigest-IsAscii : (key message : Text) → IsAscii (g.hexdigest key message)
  pub compare_digest-refl : (s : Text) → IsAscii s → g.compare_digest s s ≡ some true

take-All : (P : ℕ → Type 0) (n : ℕ) (s : Text) → All P s → All P (take n s)
take-All P zero s every = tt
take-All P (suc n) [] every = tt
take-All P (suc n) (c ∷ s) (first, every) = (first, take-All P n s every)

split-plain : (s : Text) → HasNoDash s → split b'-' s ≡ s ∷ []
unfolding split
split-plain [] plain = refl
split-plain (c ∷ s) (other, plain) = rw (other, split-plain s plain) refl

split-append : (s t : Text) → HasNoDash s → HasNoDash t → split b'-' (s ++ b'-' ∷ t) ≡ s ∷ t ∷ []
unfolding split
split-append [] t plain plain' = rw (split-plain t plain') refl
split-append (c ∷ s) t (other, plain) plain' = rw (other, split-append s t plain plain') refl

-- The token of a signed URL is accepted for its node until it expires, and not after.
pub verify_url_token-token_of :
    (g : Signing) (n : StorageNode) (expires_at later : ℕ)
    → IsLawful g
    → verify_url_token g later (token_of g n expires_at) n ≡ some (leb later (expires_at * 1000000))
unfolding verify_url_token token_of
verify_url_token-token_of g n expires_at later lawful =
    ap (of_token_parts g later n) (
      split-append (g.str_of expires_at) (signature_of g n expires_at)
        (lawful.str_of-HasNoDash expires_at) (take-All _ 16 _ (lawful.hexdigest-HasNoDash _ _)))
    ∙ ap (is_valid_at g later n (signature_of g n expires_at)) (lawful.int_of-str_of expires_at)
    ∙ rw
        (lawful.compare_digest-refl (signature_of g n expires_at)
          (take-All _ 16 _ (lawful.hexdigest-IsAscii _ _)))
        (ground arith)
