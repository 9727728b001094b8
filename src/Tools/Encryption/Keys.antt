-- ===== src/Tools/Encryption/Keys.antt =====
-- Where the key comes from.
use genro_mail_proxy.Prelude.{
  String, ◌≡◌, ◌≢◌, refl, ap, false, Option, none, some, ◌==◌, arith, length, get_or,
}
use genro_mail_proxy.Tools.Encryption.{
  bad_environment, bad_key, not_configured, Bytes, key_size, Cipher, Result, ok, err,
  EncryptionError, of_environment, of_secrets, of_sources, get_key,
}

-- A call that refuses the key that it keeps.
abbrev pub IsRefused : Result Bytes × Option Bytes → Type 0
IsRefused r = (e : EncryptionError) × (r.0 ≡ err e)

module _ (key : Bytes) (short : length key ≢ key_size) where
  wrong_length : (other : Bytes) → some other ≡ some key → (length other == key_size) ≡ false
  wrong_length other same = ground (arith, ap (λ o. length (get_or o key)) same, short)

  environment-IsRefused :
      (o : Option Bytes) → (of_environment o).1 ≡ some key → IsRefused (of_environment o)
  unfolding of_environment
  environment-IsRefused none kept = (bad_environment, refl)
  environment-IsRefused (some other) kept = (bad_environment, rw (wrong_length other kept) refl)

  secrets-IsRefused : (o : Option Bytes) → (of_secrets o).1 ≡ some key → IsRefused (of_secrets o)
  unfolding of_secrets
  secrets-IsRefused none kept = (not_configured, refl)
  secrets-IsRefused (some other) kept = (bad_key, rw (wrong_length other kept) refl)

  sources-IsRefused :
      (cipher : Cipher) (environment : Option String) (secret : Option Bytes)
      → (of_sources cipher environment secret).1 ≡ some key
      → IsRefused (of_sources cipher environment secret)
  sources-IsRefused cipher none secret kept = secrets-IsRefused secret kept
  sources-IsRefused cipher (some String.[]) secret kept = secrets-IsRefused secret kept
  sources-IsRefused cipher (some (String.◌∷◌ c s)) secret kept =
      environment-IsRefused (cipher.b64decode (String.◌∷◌ c s)) kept

-- A key of the wrong length, from the environment or the secrets file, is refused by the first call and
-- returned by every later one, since the variable keeps it.
get_key_again :
    (cipher : Cipher) (environment : Option String) (secret : Option Bytes) (key : Bytes)
    → (get_key cipher environment secret none).1 ≡ some key
    → length key ≢ key_size
    → IsRefused (get_key cipher environment secret none)
      × (get_key cipher environment secret (get_key cipher environment secret none).1
          ≡ (ok key, some key))
unfolding get_key
get_key_again cipher environment secret key kept short = (
  sources-IsRefused key short cipher environment secret kept,
  ap (get_key cipher environment secret) kept,
)
