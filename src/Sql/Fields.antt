-- ===== src/Sql/Fields.antt =====
-- The encoding of a record of `Table` of src/sql/table.py: JSON columns, and columns with encrypted text.
-- The functions of the json package are parameters.
pub mod Each
pub mod RoundTrip
use genro_mail_proxy.Prelude.{
  String, Bool, true, false, Option, none, some, List, [], ◌∷◌, if◌then◌else◌,
}
use genro_mail_proxy.Prelude.Dict
use genro_mail_proxy.Prelude.Dict.{Dict}
use genro_mail_proxy.Prelude.Json.{Json, null, str}
use genro_mail_proxy.Tools.Encryption.{
  Bytes, Cipher, Result, ok, err, is_encrypted, encrypt_value_with_key, decrypt_value_with_key,
}

abbrev pub Row : Type 0
Row = Dict Json

-- What a table uses: `json.dumps` and `json.loads`, the cipher, the key of the database, and the nonce
-- that a column gets.
pub record Codec : Type 0 where
  pub dumps : Json → String
  pub loads : String → Option Json
  pub cipher : Cipher
  pub encryption_key : Option Bytes
  pub nonce : String → Bytes

abbrev pub is_null : Json → Bool
is_null null = true
is_null _ = false

abbrev pub put_field : String → Row → Option Json → Option Row
put_field col row none = none
put_field col row (some v) = some (Dict.insert col v row)

abbrev pub change_value : (Json → Option Json) → String → Row → Option Json → Option Row
change_value f col row none = some row
change_value f col row (some v) = if is_null v then some row else put_field col row (f v)

-- `for col in cols: if col in result and result[col] is not None: result[col] = f(result[col])`, where an
-- exception is none.
unfoldable pub each_field : (String → Json → Option Json) → List String → Row → Option Row
each_field f [] row = some row
each_field f (c ∷ cs) row = elim (change_value (f c) c row (Dict.lookup c row)) [
  | none ↦ none
  | some row' ↦ each_field f cs row'
]

abbrev pub of_encrypted : Result String → Option Json
of_encrypted (ok s) = some (str s)
of_encrypted (err e) = none

abbrev pub of_decrypted : String → Result String → Option Json
of_decrypted encrypted (ok s) = some (str s)
of_decrypted encrypted (err e) = some (str encrypted)

abbrev pub with_key :
    (Bytes → String → Json → Option Json) → Option Bytes → List String → Row → Option Row
with_key f none cols row = some row
with_key f (some key) cols row = each_field (f key) cols row

module _ (k : Codec) where
  abbrev pub encode_value : String → Json → Option Json
  encode_value c v = some (str (k.dumps v))

  -- `json.loads` takes no other value than a text.
  abbrev pub decode_value : String → Json → Option Json
  decode_value c (str s) = k.loads s
  decode_value c _ = none

  unfoldable pub encrypt_value : Bytes → String → Json → Option Json
  encrypt_value key c (str s) =
      if is_encrypted s
      then some (str s)
      else of_encrypted (encrypt_value_with_key k.cipher (k.nonce c) key s)
  encrypt_value key c v = some v

  unfoldable pub decrypt_value : Bytes → String → Json → Option Json
  decrypt_value key c (str s) =
      if is_encrypted s
      then of_decrypted s (decrypt_value_with_key k.cipher key s)
      else some (str s)
  decrypt_value key c v = some v

  unfoldable pub encode_json_fields : List String → Row → Option Row
  unfolding each_field
  encode_json_fields = each_field encode_value

  unfoldable pub decode_json_fields : List String → Row → Option Row
  unfolding each_field
  decode_json_fields = each_field decode_value

  unfoldable pub encrypt_fields : List String → Row → Option Row
  unfolding encrypt_value each_field
  encrypt_fields = with_key encrypt_value k.encryption_key

  unfoldable pub decrypt_fields : List String → Row → Option Row
  unfolding decrypt_value each_field
  decrypt_fields = with_key decrypt_value k.encryption_key
