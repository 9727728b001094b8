-- ===== src/Sql/Fields/RoundTrip.antt =====
-- Values come back from their encoding.
use genro_mail_proxy.Prelude.{
  String, ◌≡◌, refl, sym, ap, ◌∙◌, Bool, true, false, Option, none, some, List, if◌then◌else◌,
  Bool-cases, inl, inr, not, is_some, length,
}
use genro_mail_proxy.Prelude.Json.{Json, null, str, bool, num, arr, obj}
use genro_mail_proxy.Tools.Encryption.{
  Bytes, nonce_size, key_size, Cipher, Result, ok, err, encrypted_prefix, after_prefix, is_nil,
  is_encrypted, open_value, decrypt_value_with_key,
}
use genro_mail_proxy.Tools.Encryption.Opens.{IsLawful, decrypt-encrypt_value}
use genro_mail_proxy.Sql.Fields.{
  Row, Codec, is_null, encode_value, decode_value, of_decrypted, encrypt_value, decrypt_value,
  with_key,
}
use genro_mail_proxy.Sql.Fields.Each.{
  step, Succeeds, IsChanged, AreDistinct, member, each_field-IsChanged,
}

-- What the cryptography package and the configuration promise.
pub record IsSound (k : Codec) : Type 0 where
  pub cipher_law : IsLawful k.cipher
  pub sized : (key : Bytes) → k.encryption_key ≡ some key → length key ≡ key_size
  pub fresh : (c : String) → length (k.nonce c) ≡ nonce_size

-- A value that an encrypted column can hold: no text that begins like an encrypted one.
abbrev pub IsPlain : Json → Type 0
IsPlain (str s) = is_encrypted s ≡ false
IsPlain v = Unit

abbrev pub keyed :
    (Bytes → String → Json → Option Json) → Option Bytes → String → Json → Option Json
keyed f none c v = some v
keyed f (some key) c v = f key c v

-- A value that a step of writing takes to one that a step of reading takes back.
abbrev pub ComesBack :
    (String → Json → Option Json) → (String → Json → Option Json) → String → Json → Type 0
ComesBack write read c v = (e : Json) × (step write c v ≡ some e) × (step read c e ≡ some v)

ok_injective : (s t : String) → ok s ≡ ok t → s ≡ t
ok_injective s t same = ap (λ r. elim r [ ok x ↦ x | err e ↦ s ]) same

plain_opens :
    (cipher : Cipher) (key : Bytes) (s : String) (o : Option String)
    → is_some o ≡ false
    → open_value cipher key s o ≡ ok s
unfolding open_value
plain_opens cipher key s none plain = refl
plain_opens cipher key s (some x) plain = cc plain

plain_decrypts :
    (cipher : Cipher) (key : Bytes) (s : String)
    → is_encrypted s ≡ false
    → decrypt_value_with_key cipher key s ≡ ok s
unfolding decrypt_value_with_key
plain_decrypts cipher key String.[] plain = refl
plain_decrypts cipher key (String.◌∷◌ c s) plain =
    plain_opens cipher key (String.◌∷◌ c s) (after_prefix encrypted_prefix (String.◌∷◌ c s)) plain

step-some : (c : String) (v : Json) → step (λ d w. some w) c v ≡ some v
step-some c v = elim (Bool-cases (is_null v)) [
  | inl absent ↦ rw absent refl
  | inr given ↦ rw given refl
]

unchanged :
    (cs : List String) (c : String) (v : Json) (b : Bool)
    → some v ≡ (if b then step (λ d w. some w) c v else some v)
unchanged cs c v true = sym (step-some c v)
unchanged cs c v false = refl

module _ (k : Codec) where
  pub json-ComesBack :
      (c : String) (v : Json)
      → k.loads (k.dumps v) ≡ some v
      → ComesBack (encode_value k) (decode_value k) c v
  json-ComesBack c v loaded = elim (Bool-cases (is_null v)) [
    | inl absent ↦ (v, rw absent refl, rw absent refl)
    | inr given ↦ (str (k.dumps v), rw given refl, loaded)
  ]

  pub encode-Succeeds : (cs : List String) (row : Row) → Succeeds (encode_value k) cs row
  encode-Succeeds cs row c v there found = elim (Bool-cases (is_null v)) [
    | inl absent ↦ (v, rw absent refl)
    | inr given ↦ (str (k.dumps v), rw given refl)
  ]

module _ (k : Codec) (sound : IsSound k) where
  text-ComesBack :
      (key : Bytes) (c : String) (s : String)
      → k.encryption_key ≡ some key
      → is_encrypted s ≡ false
      → ComesBack (encrypt_value k key) (decrypt_value k key) c (str s)
  unfolding encrypt_value decrypt_value
  text-ComesBack key c s configured plain =
      let (sealed, written, read, again, prefixed) =
        decrypt-encrypt_value k.cipher sound.cipher_law key (k.nonce c) s
          (sound.sized key configured) (sound.fresh c) plain in
      (
        str sealed,
        rw (plain, written) refl,
        elim (Bool-cases (is_encrypted sealed)) [
          | inl there ↦ rw (there, read) refl
          | inr absent ↦ rw absent (
              ap (λ x. some (str x))
                (ok_injective sealed s (sym (plain_decrypts k.cipher key sealed absent) ∙ read)))
        ],
      )

  pub encrypted-ComesBack :
      (o : Option Bytes) (c : String) (v : Json)
      → k.encryption_key ≡ o
      → IsPlain v
      → ComesBack (keyed (encrypt_value k) o) (keyed (decrypt_value k) o) c v
  unfolding encrypt_value decrypt_value
  encrypted-ComesBack none c v configured plain = (v, step-some c v, step-some c v)
  encrypted-ComesBack (some key) c null configured plain = (null, refl, refl)
  encrypted-ComesBack (some key) c (bool b) configured plain = (bool b, refl, refl)
  encrypted-ComesBack (some key) c (num n) configured plain = (num n, refl, refl)
  encrypted-ComesBack (some key) c (str s) configured plain =
      text-ComesBack key c s configured plain
  encrypted-ComesBack (some key) c (arr xs) configured plain = (arr xs, refl, refl)
  encrypted-ComesBack (some key) c (obj fs) configured plain = (obj fs, refl, refl)

  of_decrypted-some : (s : String) (r : Result String) → (w : Json) × (of_decrypted s r ≡ some w)
  of_decrypted-some s (ok t) = (str t, refl)
  of_decrypted-some s (err e) = (str s, refl)

  decrypt_some :
      (key : Bytes) (c : String) (v : Json) → (w : Json) × (step (decrypt_value k key) c v ≡ some w)
  unfolding decrypt_value
  decrypt_some key c null = (null, refl)
  decrypt_some key c (bool b) = (bool b, refl)
  decrypt_some key c (num n) = (num n, refl)
  decrypt_some key c (str s) = elim (Bool-cases (is_encrypted s)) [
    | inl there ↦ rw there (of_decrypted-some s (decrypt_value_with_key k.cipher key s))
    | inr absent ↦ (str s, rw absent refl)
  ]
  decrypt_some key c (arr xs) = (arr xs, refl)
  decrypt_some key c (obj fs) = (obj fs, refl)

  pub decrypt-Succeeds :
      (o : Option Bytes) (cs : List String) (row : Row)
      → Succeeds (keyed (decrypt_value k) o) cs row
  decrypt-Succeeds none cs row c v there found = (v, step-some c v)
  decrypt-Succeeds (some key) cs row c v there found = decrypt_some key c v

  -- A text that is not empty nor encrypted gets the prefix.
  pub encrypt_value_prefixed :
      (key : Bytes) (c : String) (s : String)
      → k.encryption_key ≡ some key
      → is_encrypted s ≡ false
      → is_nil s ≡ false
      → (sealed : String) × (step (encrypt_value k key) c (str s) ≡ some (str sealed))
        × (is_encrypted sealed ≡ true)
  unfolding encrypt_value
  encrypt_value_prefixed key c s configured plain filled =
      let (sealed, written, read, again, prefixed) =
        decrypt-encrypt_value k.cipher sound.cipher_law key (k.nonce c) s
          (sound.sized key configured) (sound.fresh c) plain in
      (sealed, rw (plain, written) refl, prefixed ∙ ap not filled)

  encrypt_some :
      (key : Bytes) (c : String) (v : Json)
      → k.encryption_key ≡ some key
      → (w : Json) × (step (encrypt_value k key) c v ≡ some w)
  unfolding encrypt_value
  encrypt_some key c null configured = (null, refl)
  encrypt_some key c (bool b) configured = (bool b, refl)
  encrypt_some key c (num n) configured = (num n, refl)
  encrypt_some key c (str s) configured = elim (Bool-cases (is_encrypted s)) [
    | inl there ↦ (str s, rw there refl)
    | inr absent ↦
        (let (e, written, read) = text-ComesBack key c s configured absent in (e, written))
  ]
  encrypt_some key c (arr xs) configured = (arr xs, refl)
  encrypt_some key c (obj fs) configured = (obj fs, refl)

  pub encrypt-Succeeds :
      (o : Option Bytes) (cs : List String) (row : Row)
      → k.encryption_key ≡ o
      → Succeeds (keyed (encrypt_value k) o) cs row
  encrypt-Succeeds none cs row configured c v there found = (v, step-some c v)
  encrypt-Succeeds (some key) cs row configured c v there found = encrypt_some key c v configured

pub with_key-IsChanged :
    (f : Bytes → String → Json → Option Json) (o : Option Bytes) (cs : List String) (row : Row)
    → AreDistinct cs
    → Succeeds (keyed f o) cs row
    → (row' : Row) × (with_key f o cs row ≡ some row') × IsChanged (keyed f o) cs row row'
with_key-IsChanged f none cs row distinct succeeds =
    (row, refl, λ c v found. found ∙ unchanged cs c v (member c cs))
with_key-IsChanged f (some key) cs row distinct succeeds =
    each_field-IsChanged (f key) cs row distinct succeeds
