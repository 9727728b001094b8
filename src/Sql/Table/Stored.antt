-- ===== src/Sql/Table/Stored.antt =====
-- The key of a record that is inserted.
use genro_mail_proxy.Prelude.{
  String, ◌≡◌, refl, ap, ◌∙◌, true, false, Option, none, some, [], ◌∷◌, is_some, if◌then◌else◌,
}
use genro_mail_proxy.Prelude.Dict
use genro_mail_proxy.Prelude.Json.{Json}
use genro_mail_proxy.Sql.Fields.{Row, Codec}
use genro_mail_proxy.Sql.Adapter.{Adapter}
use genro_mail_proxy.Sql.Table.{
  Table, has_key, with_new_pkey, add_pkey, lacks_pkey, is_empty_row, insert_encoded, base_triggers,
  encode_record, insert,
}

with_new_pkey_same :
    (c : String) (o : Option Json) (row : Row) → has_key c row ≡ true → with_new_pkey c o row ≡ row
with_new_pkey_same c none row given = refl
with_new_pkey_same c (some v) row given = rw given refl

pub has_key_of : (o : Option Json) (v : Json) → o ≡ some v → is_some o ≡ true
has_key_of none v found = cc found
has_key_of (some w) v found = refl

pub of_pkey :
    (o : Option String) (c : String) (new : Option Json) (row : Row)
    → o ≡ some c
    → has_key c row ≡ true
    → (elim o [ none ↦ row | some d ↦ with_new_pkey d new row ] ≡ row)
      × (elim o [ none ↦ none | some d ↦ (if has_key d row then none else some d) ] ≡ none)
of_pkey o c new row keyed_by given = rw keyed_by (with_new_pkey_same c new row given, rw given refl)

pub not_empty_row :
    (c : String) (v : Json) (row : Row) → Dict.lookup c row ≡ some v → is_empty_row row ≡ false
unfolding Dict.lookup
not_empty_row c v [] found = cc found
not_empty_row c v (x ∷ row) found = refl

pub insert_encoded_row :
    (k : Codec) (t : Table) (A : Adapter) (row encoded : Row) (s : A.State)
    → add_pkey t row ≡ row
    → lacks_pkey t row ≡ none
    → encode_record k t row ≡ some encoded
    → insert k t A (base_triggers A.State t) row s ≡ some (row, A.insert s encoded)
unfolding insert
insert_encoded_row k t A row encoded s same lacks wrote =
    ap
      (λ r. elim (encode_record k t r) [
        | none ↦ none
        | some e ↦ some (insert_encoded k t A (base_triggers A.State t) r e (lacks_pkey t r) s)
      ])
      same
    ∙ rw (wrote, lacks) refl
