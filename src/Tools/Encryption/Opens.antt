-- ===== src/Tools/Encryption/Opens.antt =====
-- What is encrypted can be decrypted.

use genro_mail_proxy.Prelude.{
  not, ◌+◌, ◌≤◌, String, ◌≡◌, refl, ap, sym, ◌∙◌, true, false, some, [], ◌∷◌, ◌++◌, ◌==◌, ltb,
  arith, length, take, length-append,
}
use genro_mail_proxy.Tools.Encryption.{
  is_nil, Bytes, drop, nonce_size, tag_size, key_size, Cipher, ok, append, after_prefix,
  encrypted_prefix, is_encrypted, of_plain, open_data, open_value, encrypt_value_with_key,
  decrypt_value_with_key,
}

after_prefix-append : (p t : String) → after_prefix p (append p t) ≡ some t
unfolding after_prefix append
after_prefix-append String.[] t = refl
after_prefix-append (String.◌∷◌ c p) t = ground (arith, after_prefix-append p t)

take-append : (xs ys : Bytes) → take (length xs) (xs ++ ys) ≡ xs
take-append [] ys = refl
take-append (x ∷ xs) ys = ap (λ s. x ∷ s) (take-append xs ys)

drop-append : (xs ys : Bytes) → drop (length xs) (xs ++ ys) ≡ ys
drop-append [] ys = refl
drop-append (x ∷ xs) ys = drop-append xs ys

-- What the packages promise: a text comes back from the cipher under the same key and nonce, the
-- cipher adds its tag, and base64 comes back.
pub record IsLawful (cipher : Cipher) : Type 0 where
  pub decrypt-encrypt :
      (key nonce : Bytes) (s : String)
      → cipher.decrypt key nonce (cipher.encrypt key nonce s) ≡ some s
  pub accepts_key : (key : Bytes) → length key ≡ key_size → cipher.accepts key ≡ true
  pub tagged : (key nonce : Bytes) (s : String) → tag_size ≤ length (cipher.encrypt key nonce s)
  pub b64decode-b64encode : (s : Bytes) → cipher.b64decode (cipher.b64encode s) ≡ some s

module _ (cipher : Cipher) (lawful : IsLawful cipher) where
  open_data-seal :
      (key nonce : Bytes) (s : String)
      → length key ≡ key_size
      → length nonce ≡ nonce_size
      → open_data cipher key (some (nonce ++ cipher.encrypt key nonce s)) ≡ ok s
  unfolding open_data
  open_data-seal key nonce s sized fresh =
      let body = cipher.encrypt key nonce s in
      let enough : ltb (length (nonce ++ body)) (nonce_size + tag_size) ≡ false =
        ground (arith, length-append nonce body, lawful.tagged key nonce s, fresh) in
      let first : take nonce_size (nonce ++ body) ≡ nonce =
        ap (λ n. take n (nonce ++ body)) (sym fresh) ∙ take-append nonce body in
      let rest : drop nonce_size (nonce ++ body) ≡ body =
        ap (λ n. drop n (nonce ++ body)) (sym fresh) ∙ drop-append nonce body in
      rw
        (
          enough,
          lawful.accepts_key key sized,
          first,
          rest,
          lawful.decrypt-encrypt key nonce s,
          of_plain,
        )
        refl

  -- With a key of 32 bytes and a nonce of 12, a plaintext that does not begin with the prefix is encrypted
  -- to a text that decrypts to it, that encrypting again leaves as it is, and that has the prefix exactly
  -- if the plaintext is not empty.
  pub decrypt-encrypt_value :
      (key nonce : Bytes) (plaintext : String)
      → length key ≡ key_size
      → length nonce ≡ nonce_size
      → is_encrypted plaintext ≡ false
      → (sealed : String) × (encrypt_value_with_key cipher nonce key plaintext ≡ ok sealed)
        × (decrypt_value_with_key cipher key sealed ≡ ok plaintext)
        × (encrypt_value_with_key cipher nonce key sealed ≡ ok sealed)
        × (is_encrypted sealed ≡ not (is_nil plaintext))
  unfolding encrypt_value_with_key decrypt_value_with_key
  decrypt-encrypt_value key nonce String.[] sized fresh plain = (String.[], refl, refl, refl, refl)
  decrypt-encrypt_value key nonce (String.◌∷◌ c s) sized fresh plain =
      let full : (length key == key_size) ≡ true = ground (arith, sized) in
      let data_bytes = nonce ++ cipher.encrypt key nonce (String.◌∷◌ c s) in
      (
        append encrypted_prefix (cipher.b64encode data_bytes),
        rw (plain, full, lawful.accepts_key key sized) refl,
        (unfold open_value in
            rw (full, lawful.b64decode-b64encode data_bytes)
              (open_data-seal key nonce (String.◌∷◌ c s) sized fresh)),
        refl,
        refl,
      )
