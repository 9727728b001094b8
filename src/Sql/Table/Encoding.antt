-- ===== src/Sql/Table/Encoding.antt =====
-- What a record is once it was written and read.
use genro_mail_proxy.Prelude.{
  String, ◌≡◌, refl, sym, ap, ◌∙◌, true, false, Option, none, some, All, Bool-cases, inl, inr,
  get_or,
}
use mathlib.Core.Path.{subst}
use genro_mail_proxy.Prelude.Dict
use genro_mail_proxy.Prelude.Json.{Json}
use genro_mail_proxy.Sql.Fields.{
  Row, Codec, encode_value, decode_value, encrypt_value, decrypt_value, encode_json_fields,
  decode_json_fields, encrypt_fields, decrypt_fields,
}
use genro_mail_proxy.Sql.Fields.Each.{
  step, member, AreDistinct, Succeeds, IsChanged, All-member, changed_in, changed_out,
  each_field-IsChanged,
}
use genro_mail_proxy.Sql.Fields.RoundTrip.{
  encode-Succeeds, IsSound, IsPlain, keyed, json-ComesBack, encrypted-ComesBack, decrypt-Succeeds,
  encrypt-Succeeds, with_key-IsChanged,
}
use genro_mail_proxy.Sql.Adapter.{HasFields}
use genro_mail_proxy.Sql.Table.{Table, encode_record, decode_row}

abbrev pub IsPlainAt : Option Json → Type 0
IsPlainAt none = Unit
IsPlainAt (some v) = IsPlain v

-- A value that is there and comes back from its JSON.
abbrev pub IsLoaded : Codec → Option Json → Type 0
IsLoaded k none = ⊥
IsLoaded k (some v) = k.loads (k.dumps v) ≡ some v

-- A record names the JSON columns, of which none is encrypted, with values that come back from JSON, and
-- its texts for encrypted columns do not begin like encrypted ones.
pub record IsStorable (k : Codec) (t : Table) (row : Row) : Type 0 where
  pub json_distinct : AreDistinct t.json_columns
  pub encrypted_distinct : AreDistinct t.encrypted_columns
  pub loaded : All (λ c. IsLoaded k (Dict.lookup c row)) t.json_columns
  pub disjoint : All (λ c. member c t.encrypted_columns ≡ false) t.json_columns
  pub plain : All (λ c. IsPlainAt (Dict.lookup c row)) t.encrypted_columns

module _ (k : Codec) (sound : IsSound k) (t : Table) (row : Row)
    (storable : IsStorable k t row) where
  -- What the two loops of writing make of a value, and what the two loops of reading make of that.
  abbrev write_json : String → Json → Option Json
  write_json = encode_value k

  abbrev read_json : String → Json → Option Json
  read_json = decode_value k

  abbrev write_text : String → Json → Option Json
  write_text = keyed (encrypt_value k) k.encryption_key

  abbrev read_text : String → Json → Option Json
  read_text = keyed (decrypt_value k) k.encryption_key

  not_encrypted :
      (c : String) → member c t.json_columns ≡ true → member c t.encrypted_columns ≡ false
  not_encrypted c =
      All-member (λ d. member d t.encrypted_columns ≡ false) t.json_columns c storable.disjoint

  not_json : (c : String) → member c t.encrypted_columns ≡ true → member c t.json_columns ≡ false
  not_json c there = elim (Bool-cases (member c t.json_columns)) [
    | inl json ↦ cc (not_encrypted c json, there)
    | inr other ↦ other
  ]

  IsPlain-column :
      (c : String) (v : Json)
      → member c t.encrypted_columns ≡ true
      → Dict.lookup c row ≡ some v
      → IsPlain v
  IsPlain-column c v there found =
      subst IsPlainAt found
        (All-member (λ d. IsPlainAt (Dict.lookup d row)) t.encrypted_columns c storable.plain there)

  loaded_at :
      (c : String) (v : Json)
      → member c t.json_columns ≡ true
      → Dict.lookup c row ≡ some v
      → k.loads (k.dumps v) ≡ some v
  loaded_at c v there found =
      subst (IsLoaded k) found
        (All-member (λ d. IsLoaded k (Dict.lookup d row)) t.json_columns c storable.loaded there)

  -- A record as it is written, and the row that the database gives for it.
  abbrev IsWritten : Row → Type 0
  IsWritten row' =
      (row1 : Row) × (row2 : Row) × IsChanged write_json t.json_columns row row1
      × IsChanged write_text t.encrypted_columns row1 row2
      × HasFields row2 row'

  written_json :
      (row' : Row) (c : String) (v : Json)
      → IsWritten row'
      → member c t.json_columns ≡ true
      → Dict.lookup c row ≡ some v
      → (e : Json) × (Dict.lookup c row' ≡ some e) × (step read_json c e ≡ some v)
  written_json row' c v (row1, row2, first, second, has) there found =
      let (e, written, read) = json-ComesBack k c v (loaded_at c v there found) in
      let in_row1 = changed_in write_json t.json_columns row row1 c v first there found ∙ written in
      (
        e,
        has c e (
            changed_out write_text t.encrypted_columns row1 row2 c e second (not_encrypted c there)
              in_row1),
        read,
      )

  written_text :
      (row' : Row) (c : String) (v : Json)
      → IsWritten row'
      → member c t.encrypted_columns ≡ true
      → Dict.lookup c row ≡ some v
      → (e : Json) × (Dict.lookup c row' ≡ some e) × (step read_text c e ≡ some v)
  written_text row' c v (row1, row2, first, second, has) there found =
      let (e, written, read) =
        encrypted-ComesBack k sound k.encryption_key c v refl (IsPlain-column c v there found) in
      let in_row1 =
        changed_out write_json t.json_columns row row1 c v first (not_json c there) found in
      (
        e,
        has c e (
            changed_in write_text t.encrypted_columns row1 row2 c v second there in_row1 ∙ written),
        read,
      )

  written_as_is :
      (row' : Row) (c : String) (v : Json)
      → IsWritten row'
      → member c t.json_columns ≡ false
      → member c t.encrypted_columns ≡ false
      → Dict.lookup c row ≡ some v
      → Dict.lookup c row' ≡ some v
  written_as_is row' c v (row1, row2, first, second, has) no_json no_text found = has c v (
      changed_out write_text t.encrypted_columns row1 row2 c v second no_text
        (changed_out write_json t.json_columns row row1 c v first no_json found))

  plain_kept :
      (row1 row2 : Row)
      → IsChanged write_json t.json_columns row row1
      → IsChanged write_text t.encrypted_columns row1 row2
      → (c : String) (v : Json) → member c t.json_columns ≡ false
      → member c t.encrypted_columns ≡ false
      → Dict.lookup c row ≡ some v
      → Dict.lookup c row2 ≡ some v
  plain_kept row1 row2 first second c v =
      written_as_is row2 c v (row1, row2, first, second, λ d x known. known)

  some_loaded : (o : Option Json) → IsLoaded k o → (v : Json) × (o ≡ some v)
  some_loaded none loaded = absurd loaded
  some_loaded (some v) loaded = (v, refl)

  read-Succeeds : (row' : Row) → IsWritten row' → Succeeds read_json t.json_columns row'
  read-Succeeds row' written c x there found =
      let (v, known) =
        some_loaded (Dict.lookup c row) (
          All-member (λ d. IsLoaded k (Dict.lookup d row)) t.json_columns c storable.loaded
            there) in
      let (e, stored, read) = written_json row' c v written there known in
      (v, ap (λ o. step read_json c (get_or o e)) (sym found ∙ stored) ∙ read)

  read_back :
      (row' row3 row4 : Row)
      → IsWritten row'
      → IsChanged read_json t.json_columns row' row3
      → IsChanged read_text t.encrypted_columns row3 row4
      → HasFields row row4
  read_back row' row3 row4 written third fourth c v found =
      elim (Bool-cases (member c t.json_columns)) [
        | inl json ↦
            (let (e, stored, read) = written_json row' c v written json found in
              changed_out read_text t.encrypted_columns row3 row4 c v fourth (not_encrypted c json)
                (changed_in read_json t.json_columns row' row3 c e third json stored ∙ read))
        | inr no_json ↦ elim (Bool-cases (member c t.encrypted_columns)) [
          | inl text ↦
              (let (e, stored, read) = written_text row' c v written text found in
                changed_in read_text t.encrypted_columns row3 row4 c e fourth text
                  (changed_out read_json t.json_columns row' row3 c e third no_json stored)
                ∙ read)
          | inr no_text ↦ changed_out read_text t.encrypted_columns row3 row4 c v fourth no_text (
              changed_out read_json t.json_columns row' row3 c v third no_json
                (written_as_is row' c v written no_json no_text found))
        ]
      ]

  pub encode_record-decode_row :
      (row1 : Row) × (encode_record k t row ≡ some row1)
      × ((c : String) (v : Json)
          → member c t.json_columns ≡ false
          → member c t.encrypted_columns ≡ false
          → Dict.lookup c row ≡ some v
          → Dict.lookup c row1 ≡ some v)
      × ((row' : Row)
          → HasFields row1 row'
          → (r : Row) × (decode_row k t row' ≡ some r) × HasFields row r)
  unfolding encode_record decode_row encode_json_fields decode_json_fields encrypt_fields
      decrypt_fields
  encode_record-decode_row =
      let (row1, wrote, first) =
        each_field-IsChanged write_json t.json_columns row storable.json_distinct
          (encode-Succeeds k t.json_columns row) in
      let (row2, sealed, second) =
        with_key-IsChanged (encrypt_value k) k.encryption_key t.encrypted_columns row1
          storable.encrypted_distinct
          (encrypt-Succeeds k sound k.encryption_key t.encrypted_columns row1 refl) in
      (
        row2,
        rw (wrote, encode_record) sealed,
        plain_kept row1 row2 first second,
        λ row' has.
            let written : IsWritten row' = (row1, row2, first, second, has) in
            let (row3, loaded, third) =
              each_field-IsChanged read_json t.json_columns row' storable.json_distinct
                (read-Succeeds row' written) in
            let (row4, opened, fourth) =
              with_key-IsChanged (decrypt_value k) k.encryption_key t.encrypted_columns row3
                storable.encrypted_distinct
                (decrypt-Succeeds k sound k.encryption_key t.encrypted_columns row3) in
            (row4, rw (loaded, decode_row) opened, read_back row' row3 row4 written third fourth),
      )
