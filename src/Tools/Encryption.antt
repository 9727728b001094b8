-- ===== src/Tools/Encryption.antt =====
-- src/tools/encryption.py: the key, and the encryption of single values. The cipher of the cryptography
-- package and base64 are parameters; so are the random nonces.
pub mod Opens
pub mod Keys
use Prim.Native.Char.{code}
use genro_mail_proxy.Prelude.{
  ℕ, zero, suc, ◌+◌, String, Bool, true, false, not, Option, none, some, List, [], ◌∷◌, ◌++◌, ◌==◌,
  ltb, if◌then◌else◌, is_some, length, take,
}

abbrev pub Bytes : Type 0
Bytes = List ℕ

-- `bytes[n:]`
abbrev pub drop : ℕ → Bytes → Bytes
drop zero s = s
drop (suc n) [] = []
drop (suc n) (c ∷ s) = drop n s

abbrev pub nonce_size : ℕ
nonce_size = 12

abbrev pub tag_size : ℕ
tag_size = 16

abbrev pub key_size : ℕ
key_size = 32

-- The messages of `EncryptionError` and the class below it; `refused` is the error of the cipher itself.
pub data EncryptionError : Type 0 where
  not_configured bad_key bad_environment bad_format too_short failed refused : EncryptionError

pub data Result {ℓ} (A : Type ℓ) : Type ℓ where
  ok : A → Result A
  err : EncryptionError → Result A

-- AES-GCM accepts keys of some lengths, and takes a key, a nonce and the text; base64 gives a text of
-- the bytes.
pub record Cipher : Type 0 where
  pub accepts : Bytes → Bool
  pub encrypt : Bytes → Bytes → String → Bytes
  pub decrypt : Bytes → Bytes → Bytes → Option String
  pub b64encode : Bytes → String
  pub b64decode : String → Option Bytes

unfoldable pub append : String → String → String
append String.[] t = t
append (String.◌∷◌ c s) t = String.◌∷◌ c (append s t)

-- What follows a prefix, if it is there: `startswith` and the slice behind it.
unfoldable pub after_prefix : String → String → Option String
after_prefix String.[] s = some s
after_prefix (String.◌∷◌ c p) String.[] = none
after_prefix (String.◌∷◌ c p) (String.◌∷◌ d s) =
    let rest = after_prefix p s in if code c == code d then rest else none

abbrev pub encrypted_prefix : String
encrypted_prefix = "ENC:"

abbrev pub is_encrypted : String → Bool
is_encrypted value = is_some (after_prefix encrypted_prefix value)

abbrev pub is_nil : String → Bool
is_nil String.[] = true
is_nil (String.◌∷◌ c s) = false

abbrev pub of_plain : Option String → Result String
of_plain none = err failed
of_plain (some plaintext) = ok plaintext

-- Where the global key comes from: the module's variable, the environment, which holds base64, and
-- the bytes of the secrets file without the white space around them.
unfoldable pub of_environment : Option Bytes → Result Bytes × Option Bytes
of_environment none = (err bad_environment, none)
of_environment (some key) =
    (if not (length key == key_size) then err bad_environment else ok key, some key)

unfoldable pub of_secrets : Option Bytes → Result Bytes × Option Bytes
of_secrets none = (err not_configured, none)
of_secrets (some key) = (if not (length key == key_size) then err bad_key else ok key, some key)

module _ (cipher : Cipher) where
  unfoldable pub seal : Bytes → Bytes → String → Result String
  unfolding append
  seal key nonce plaintext =
      if cipher.accepts key
      then ok
          (append encrypted_prefix (cipher.b64encode (nonce ++ cipher.encrypt key nonce plaintext)))
      else err refused

  unfoldable pub open_data : Bytes → Option Bytes → Result String
  open_data key none = err bad_format
  open_data key (some data_bytes) =
      if ltb (length data_bytes) (nonce_size + tag_size)
      then err too_short
      else if cipher.accepts key
      then of_plain (cipher.decrypt key (take nonce_size data_bytes) (drop nonce_size data_bytes))
      else err failed

  unfoldable pub encrypt_value_with_key : Bytes → Bytes → String → Result String
  unfolding seal after_prefix
  encrypt_value_with_key nonce key plaintext =
      if is_nil plaintext
      then ok plaintext
      else if is_encrypted plaintext
      then ok plaintext
      else if not (length key == key_size)
      then err bad_key
      else seal key nonce plaintext

  -- What is done with the text behind the prefix, which stands there or not.
  unfoldable pub open_value : Bytes → String → Option String → Result String
  unfolding open_data
  open_value key encrypted none = ok encrypted
  open_value key encrypted (some encoded) =
      if not (length key == key_size) then err bad_key else open_data key (cipher.b64decode encoded)

  unfoldable pub decrypt_value_with_key : Bytes → String → Result String
  unfolding open_value after_prefix
  decrypt_value_with_key key encrypted =
      if is_nil encrypted
      then ok encrypted
      else open_value key encrypted (after_prefix encrypted_prefix encrypted)

  abbrev pub of_sources : Option String → Option Bytes → Result Bytes × Option Bytes
  of_sources none secret = of_secrets secret
  of_sources (some key_b64) secret =
      if is_nil key_b64 then of_secrets secret else of_environment (cipher.b64decode key_b64)

  -- The key, and the variable afterwards.
  unfoldable pub get_key : Option String → Option Bytes → Option Bytes → Result Bytes × Option Bytes
  unfolding of_environment of_secrets
  get_key environment secret (some key) = (ok key, some key)
  get_key environment secret none = of_sources environment secret

  unfoldable pub seal_with : Bytes → String → Result Bytes → Result String
  unfolding seal
  seal_with nonce plaintext (err e) = err e
  seal_with nonce plaintext (ok key) = seal key nonce plaintext

  unfoldable pub open_with : String → Result Bytes → Result String
  unfolding open_data
  open_with encoded (err e) = err e
  open_with encoded (ok key) = open_data key (cipher.b64decode encoded)

  unfoldable pub encrypt_value :
      Option String → Option Bytes → Bytes → String → Option Bytes → Result String × Option Bytes
  unfolding get_key seal_with after_prefix
  encrypt_value environment secret nonce plaintext variable =
      if is_nil plaintext
      then (ok plaintext, variable)
      else if is_encrypted plaintext
      then (ok plaintext, variable)
      else (
        seal_with nonce plaintext (get_key environment secret variable).0,
        (get_key environment secret variable).1,
      )

  unfoldable pub decrypt_encoded :
      Option String
      → Option Bytes
      → String
      → Option String
      → Option Bytes
      → Result String × Option Bytes
  unfolding get_key open_with
  decrypt_encoded environment secret encrypted none variable = (ok encrypted, variable)
  decrypt_encoded environment secret encrypted (some encoded) variable = (
    open_with encoded (get_key environment secret variable).0,
    (get_key environment secret variable).1,
  )

  unfoldable pub decrypt_value :
      Option String → Option Bytes → String → Option Bytes → Result String × Option Bytes
  unfolding decrypt_encoded after_prefix
  decrypt_value environment secret encrypted variable =
      if is_nil encrypted
      then (ok encrypted, variable)
      else decrypt_encoded environment secret encrypted (after_prefix encrypted_prefix encrypted)
          variable
