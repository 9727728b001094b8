-- ===== src/Sql/Table/Unreadable.antt =====
-- A column that is both JSON and encrypted.
use genro_mail_proxy.Prelude.{
  String, ◌≡◌, refl, sym, ap, ◌∙◌, Bool, true, false, Option, none, some, List, [], ◌∷◌, ◌==ˢ◌,
  arith, eq_iff, if◌then◌else◌, Bool-cases, Option-cases, inl, inr, get_or,
}
use mathlib.Core.Path.{subst}
use genro_mail_proxy.Prelude.Dict
use genro_mail_proxy.Prelude.Json.{Json, str}
use genro_mail_proxy.Tools.Encryption.{Bytes, is_nil, is_encrypted}
use genro_mail_proxy.Sql.Fields.{
  Row, Codec, is_null, put_field, change_value, each_field, encode_value, decode_value,
  encrypt_value, encode_json_fields, decode_json_fields, encrypt_fields,
}
use genro_mail_proxy.Sql.Fields.Each.{
  step, member, AreDistinct, changed_in, changed_out, each_field-IsChanged,
}
use genro_mail_proxy.Sql.Fields.RoundTrip.{
  IsSound, keyed, encode-Succeeds, encrypt_value_prefixed, encrypt-Succeeds, with_key-IsChanged,
}
use genro_mail_proxy.Sql.Adapter.{Adapter, HasFields, IsLawful}
use genro_mail_proxy.Sql.Table.{Table, base_triggers, encode_record, decode_row, insert, select_one}
use genro_mail_proxy.Sql.Table.Stored.{of_pkey, insert_encoded_row, not_empty_row, has_key_of}

put_field_others :
    (c d : String) (row row' : Row) (o : Option Json)
    → c ==ˢ d ≡ false
    → put_field c row o ≡ some row'
    → Dict.lookup d row' ≡ Dict.lookup d row
put_field_others c d row row' none other put = cc put
put_field_others c d row row' (some w) other put =
    ap (λ o. Dict.lookup d (get_or o row)) (sym put) ∙ Dict.lookup-insert c d w row ∙ rw other refl

change_if_others :
    (c d : String) (row row' : Row) (v : Json) (b : Bool) (o : Option Json)
    → c ==ˢ d ≡ false
    → (if b then some row else put_field c row o) ≡ some row'
    → Dict.lookup d row' ≡ Dict.lookup d row
change_if_others c d row row' v true o other changed =
    ap (λ x. Dict.lookup d (get_or x row)) (sym changed)
change_if_others c d row row' v false o other changed =
    put_field_others c d row row' o other changed

change_value_others :
    (f : Json → Option Json) (c d : String) (row row' : Row) (o : Option Json)
    → c ==ˢ d ≡ false
    → change_value f c row o ≡ some row'
    → Dict.lookup d row' ≡ Dict.lookup d row
change_value_others f c d row row' none other changed =
    ap (λ o. Dict.lookup d (get_or o row)) (sym changed)
change_value_others f c d row row' (some v) other changed =
    change_if_others c d row row' v (is_null v) (f v) other changed

change_value_fails :
    (f : String → Json → Option Json) (c : String) (row : Row) (v : Json)
    → Dict.lookup c row ≡ some v
    → is_null v ≡ false
    → f c v ≡ none
    → change_value (f c) c row (Dict.lookup c row) ≡ none
change_value_fails f c row v found given refused =
    ap (change_value (f c) c row) found ∙ rw (given, refused) refl

-- A loop fails at a value that its function refuses.
each_field_fails :
    (f : String → Json → Option Json) (cs : List String) (row : Row) (c : String) (v : Json)
    → member c cs ≡ true
    → Dict.lookup c row ≡ some v
    → is_null v ≡ false
    → f c v ≡ none
    → each_field f cs row ≡ none
unfolding each_field
each_field_fails f [] row c v there found given refused = cc there
each_field_fails f (d ∷ cs) row c v there found given refused = elim (Bool-cases (d ==ˢ c)) [
  | inl same ↦
      (let fails =
          subst (λ e. change_value (f e) e row (Dict.lookup e row) ≡ none)
            (sym ((eq_iff d c).0 same)) (change_value_fails f c row v found given refused) in
        rw (fails, each_field) refl)
  | inr other ↦ elim (Option-cases (change_value (f d) d row (Dict.lookup d row))) [
    | inl fails ↦ rw (fails, each_field) refl
    | inr (row', result) ↦
        rw (result, each_field)
          (each_field_fails f cs row' c v (ground (arith, other, there))
            (change_value_others (f d) d c row row' (Dict.lookup d row) other result ∙ found) given
            refused)
  ]
]

-- `json.loads` takes no empty text, and none that begins like an encrypted one.
abbrev pub RejectsEncrypted : Codec → Type 0
RejectsEncrypted k = (k.loads "" ≡ none) × ((s : String) → is_encrypted s ≡ true → k.loads s ≡ none)

module _ (k : Codec) (sound : IsSound k) (rejects : RejectsEncrypted k) (key : Bytes)
    (configured : k.encryption_key ≡ some key) where
  dumps_plain : (v : Json) → k.loads (k.dumps v) ≡ some v → is_encrypted (k.dumps v) ≡ false
  dumps_plain v loaded = elim (Bool-cases (is_encrypted (k.dumps v))) [
    | inl there ↦ cc (rejects.1 (k.dumps v) there, loaded)
    | inr plain ↦ plain
  ]

  not_rejected : (s : String) (v : Json) → k.loads s ≡ some v → is_nil s ≡ false
  not_rejected String.[] v loaded = cc (rejects.0, loaded)
  not_rejected (String.◌∷◌ c s) v loaded = refl

  -- What both loops of writing make of a value.
  sealed_value :
      (c : String) (v : Json)
      → k.loads (k.dumps v) ≡ some v
      → (sealed : String) × (step (keyed (encrypt_value k) k.encryption_key) c (str (k.dumps v))
          ≡ some (str sealed))
        × (k.loads sealed ≡ none)
  sealed_value c v loaded =
      let (sealed, written, prefixed) =
        encrypt_value_prefixed k sound key c (k.dumps v) configured (dumps_plain v loaded)
          (not_rejected (k.dumps v) v loaded) in
      (
        sealed,
        ap (λ o. step (keyed (encrypt_value k) o) c (str (k.dumps v))) configured ∙ written,
        rejects.1 sealed prefixed,
      )

  -- A record with a value in a column that is JSON and encrypted.
  encoded_unreadable :
      (t : Table) (row : Row) (d : String) (v : Json)
      → AreDistinct t.json_columns
      → AreDistinct t.encrypted_columns
      → member d t.json_columns ≡ true
      → member d t.encrypted_columns ≡ true
      → Dict.lookup d row ≡ some v
      → is_null v ≡ false
      → k.loads (k.dumps v) ≡ some v
      → (row2 : Row) × (encode_record k t row ≡ some row2)
        × ((c : String) (w : Json)
            → member c t.json_columns ≡ false
            → member c t.encrypted_columns ≡ false
            → Dict.lookup c row ≡ some w
            → Dict.lookup c row2 ≡ some w)
        × ((row' : Row) → HasFields row2 row' → decode_row k t row' ≡ none)
  unfolding encode_record decode_row encode_json_fields decode_json_fields encrypt_fields
  encoded_unreadable t row d v json_distinct text_distinct json text found given loaded =
      let (row1, wrote, first) =
        each_field-IsChanged (encode_value k) t.json_columns row json_distinct
          (encode-Succeeds k t.json_columns row) in
      let (row2, encrypted, second) =
        with_key-IsChanged (encrypt_value k) k.encryption_key t.encrypted_columns row1 text_distinct
          (encrypt-Succeeds k sound k.encryption_key t.encrypted_columns row1 refl) in
      let (sealed, written, rejected) = sealed_value d v loaded in
      let in_row1 =
        changed_in (encode_value k) t.json_columns row row1 d v first json found ∙ rw given refl in
      let in_row2 =
        changed_in (keyed (encrypt_value k) k.encryption_key) t.encrypted_columns row1 row2 d
          (str (k.dumps v)) second text in_row1
        ∙ written in
      (
        row2,
        rw (wrote, encode_record) encrypted,
        λ c w no_json no_text known.
            changed_out (keyed (encrypt_value k) k.encryption_key) t.encrypted_columns row1 row2 c w
              second no_text
              (changed_out (encode_value k) t.json_columns row row1 c w first no_json known),
        λ row' has.
            rw
              (
                each_field_fails (decode_value k) t.json_columns row' d (str sealed) json
                    (has d (str sealed) in_row2) refl rejected,
                decode_row,
              )
              refl,
      )

-- Where a column is both JSON and encrypted, and the database has a key, a record with a value in it that
-- comes back from JSON is inserted, and reading it back by its key, right after the insertion, ends with
-- an exception: the row is decoded as JSON before it is decrypted.
pub select_one_unreadable :
    (k : Codec) (t : Table) (A : Adapter) (row : Row) (c v d : String) (w : Json) (key : Bytes)
    (s : A.State)
    → IsSound k
    → RejectsEncrypted k
    → IsLawful A
    → k.encryption_key ≡ some key
    → AreDistinct t.json_columns
    → AreDistinct t.encrypted_columns
    → member d t.json_columns ≡ true
    → member d t.encrypted_columns ≡ true
    → Dict.lookup d row ≡ some w
    → is_null w ≡ false
    → k.loads (k.dumps w) ≡ some w
    → t.pkey ≡ some c
    → member c t.json_columns ≡ false
    → member c t.encrypted_columns ≡ false
    → Dict.lookup c row ≡ some (str v)
    → A.select s ((c, str v) ∷ []) ≡ []
    → (s' : A.State) × (insert k t A (base_triggers A.State t) row s ≡ some (row, s'))
      × (select_one k t A (base_triggers A.State t) ((c, str v) ∷ []) s' ≡ none)
unfolding select_one
select_one_unreadable k t A row c v d w key s sound rejects lawful configured json_distinct
      text_distinct json text valued given loaded keyed_by no_json no_text found absent =
    let (encoded, wrote, kept, refused) =
      encoded_unreadable k sound rejects key configured t row d w json_distinct text_distinct json
        text valued given loaded in
    let stored = kept c (str v) no_json no_text found in
    let (row', selected, has) =
      lawful.select-insert s encoded ((c, str v) ∷ []) ((tt, stored), tt) absent in
    let pkeys =
      of_pkey t.pkey c t.new_pkey_value row keyed_by
        (has_key_of (Dict.lookup c row) (str v) found) in
    (
      A.insert s encoded,
      insert_encoded_row k t A row encoded s pkeys.0 pkeys.1 wrote,
      rw selected (rw (not_empty_row c (str v) row' (has c (str v) stored), refused row' has) refl),
    )
