-- ===== src/Sql/Table.antt =====
-- The operations of `Table` and `RecordUpdater` of src/sql/table.py. An exception is none.
pub mod Many
pub mod Encoding
pub mod Stored
pub mod Upserted
pub mod Unreadable
pub mod Batch
use genro_mail_proxy.Prelude.{
  ℕ, zero, suc, ◌+◌, String, Bool, true, false, ◌&&◌, not, Option, none, some, List, [], ◌∷◌, ◌==ˢ◌,
  ◌==◌, if◌then◌else◌, is_some,
}
use genro_mail_proxy.Prelude.Int.{pos}
use genro_mail_proxy.Prelude.Dict
use genro_mail_proxy.Prelude.Json.{Json, str, num}
use genro_mail_proxy.Sql.Fields.{
  Row, Codec, encode_json_fields, decode_json_fields, encrypt_fields, decrypt_fields,
}
use genro_mail_proxy.Sql.Adapter.{Adapter}

-- The name of the key, the columns that are encoded, and the key that the next row without one gets,
-- which is none where the database counts.
pub record Table : Type 0 where
  pub pkey : Option String
  pub json_columns : List String
  pub encrypted_columns : List String
  pub new_pkey_value : Option Json

-- The hooks; the ones after a statement may use the database again.
pub record Triggers (State : Type 0) : Type 0 where
  pub on_inserting : Row → Row
  pub on_inserted : Row → State → State
  pub on_updating : Row → Row → Row
  pub on_updated : Row → Row → State → State
  pub on_deleting : Row → State → State
  pub on_deleted : Row → State → State

abbrev pub has_key : String → Row → Bool
has_key c row = is_some (Dict.lookup c row)

abbrev pub with_new_pkey : String → Option Json → Row → Row
with_new_pkey c none row = row
with_new_pkey c (some v) row = if has_key c row then row else Dict.insert c v row

abbrev pub add_pkey : Table → Row → Row
add_pkey t row = elim t.pkey [ none ↦ row | some c ↦ with_new_pkey c t.new_pkey_value row ]

-- The hooks of the base class.
abbrev pub base_triggers : (State : Type 0) → Table → Triggers State
base_triggers State t = record {
  on_inserting = add_pkey t;
  on_inserted = λ row s. s;
  on_updating = λ row old. row;
  on_updated = λ row old s. s;
  on_deleting = λ row s. s;
  on_deleted = λ row s. s;
}

abbrev pub is_empty_row : Row → Bool
is_empty_row [] = true
is_empty_row (x ∷ row) = false

-- The key of a record that lacks one: the database counts.
abbrev pub lacks_pkey : Table → Row → Option String
lacks_pkey t row = elim t.pkey [ none ↦ none | some c ↦ (if has_key c row then none else some c) ]

abbrev pub with_id : String → Option Json → Row → Row
with_id c none row = row
with_id c (some v) row = Dict.insert c v row

abbrev pub old_or_empty : Option Row → Row
old_or_empty none = []
old_or_empty (some old) = old

module _ (k : Codec) (t : Table) where
  unfoldable pub encode_record : Row → Option Row
  unfolding encode_json_fields encrypt_fields
  encode_record row = elim (encode_json_fields k t.json_columns row) [
    | none ↦ none
    | some row' ↦ encrypt_fields k t.encrypted_columns row'
  ]

  unfoldable pub decode_row : Row → Option Row
  unfolding decode_json_fields decrypt_fields
  decode_row row = elim (decode_json_fields k t.json_columns row) [
    | none ↦ none
    | some row' ↦ decrypt_fields k t.encrypted_columns row'
  ]

  unfoldable pub decode_all : List Row → Option (List Row)
  unfolding decode_row
  decode_all [] = some []
  decode_all (row ∷ rows) = elim (decode_row row) [
    | none ↦ none
    | some row' ↦ elim (decode_all rows) [ none ↦ none | some rows' ↦ some (row' ∷ rows') ]
  ]

  -- `if row`: a row without columns counts as none.
  abbrev pub decode_found : Row → Option (Option Row)
  decode_found row =
      if is_empty_row row
      then some none
      else elim (decode_row row) [ none ↦ none | some row' ↦ some (some row') ]

  abbrev pub first_row : List Row → Option (Option Row)
  first_row [] = some none
  first_row (row ∷ rows) = decode_found row

module _ (k : Codec) (t : Table) (A : Adapter) (triggers : Triggers A.State) where
  -- The statement, for a record and its encoding.
  abbrev pub insert_encoded : Row → Row → Option String → A.State → Row × A.State
  insert_encoded row encoded none s = (row, A.insert s encoded)
  insert_encoded row encoded (some c) s =
      (with_id c (A.insert_returning_id s encoded c).0 row, (A.insert_returning_id s encoded c).1)

  abbrev pub finish_insert : Row × A.State → Row × A.State
  finish_insert (row, s) = (row, triggers.on_inserted row s)

  -- The record with its key, and the database.
  unfoldable pub insert : Row → A.State → Option (Row × A.State)
  unfolding encode_record
  insert row s =
      let row' = triggers.on_inserting row in
      elim (encode_record k t row') [
        | none ↦ none
        | some encoded ↦ some (finish_insert (insert_encoded row' encoded (lacks_pkey t row') s))
      ]

  unfoldable pub select : Row → A.State → Option (List Row)
  unfolding decode_all
  select criteria s = decode_all k t (A.select s criteria)

  -- Also `select_for_update`, which locks the row.
  unfoldable pub select_one : Row → A.State → Option (Option Row)
  unfolding decode_row
  select_one criteria s = first_row k t (A.select s criteria)

  abbrev pub finish_update : Row → Option Row → ℕ × A.State → ℕ × A.State
  finish_update row none r = r
  finish_update row (some old) (zero, s) = (zero, s)
  finish_update row (some old) (suc n, s) = (suc n, triggers.on_updated row old s)

  abbrev pub update_found : Row → Row → Option Row → A.State → Option (ℕ × A.State)
  update_found values criteria old s =
      let row = triggers.on_updating values (old_or_empty old) in
      elim (encode_record k t row) [
        | none ↦ none
        | some encoded ↦ some (finish_update row old (A.update s encoded criteria))
      ]

  unfoldable pub update : Row → Row → A.State → Option (ℕ × A.State)
  unfolding select_one encode_record
  update values criteria s = elim (select_one criteria s) [
    | none ↦ none
    | some old ↦ update_found values criteria old s
  ]

  abbrev pub finish_delete : Row → ℕ × A.State → ℕ × A.State
  finish_delete row (zero, s) = (zero, s)
  finish_delete row (suc n, s) = (suc n, triggers.on_deleted row s)

  abbrev pub delete_found : Row → Option Row → A.State → ℕ × A.State
  delete_found criteria none s = A.delete s criteria
  delete_found criteria (some row) s =
      finish_delete row (A.delete (triggers.on_deleting row s) criteria)

  unfoldable pub delete : Row → A.State → Option (ℕ × A.State)
  unfolding select_one
  delete criteria s = elim (select_one criteria s) [
    | none ↦ none
    | some row ↦ some (delete_found criteria row s)
  ]

  -- The end of `async with table.record(...)`, with what the body made of the record it was given.
  abbrev pub save_new : Row → A.State → Option A.State
  save_new row s =
      if is_empty_row row then some s else elim (insert row s) [ none ↦ none | some r ↦ some r.1 ]

  abbrev pub save_old : Row → Row → A.State → Option A.State
  save_old criteria row s =
      if is_empty_row row
      then some s
      else elim (update row criteria s) [ none ↦ none | some r ↦ some r.1 ]

  abbrev pub exit_record : Bool → Row → Option Row → (Row → Option Row) → A.State → Option A.State
  exit_record insert_missing criteria (some old) body s = elim (body old) [
    | none ↦ none
    | some row ↦ save_old criteria row s
  ]
  exit_record true criteria none body s = elim (body criteria) [
    | none ↦ none
    | some row ↦ save_new row s
  ]
  exit_record false criteria none body s = elim (body []) [ none ↦ none | some row ↦ some s ]

  -- A body that raises is none.
  unfoldable pub update_record : Bool → Row → (Row → Option Row) → A.State → Option A.State
  unfolding select_one insert update
  update_record insert_missing criteria body s = elim (select_one criteria s) [
    | none ↦ none
    | some old ↦ exit_record insert_missing criteria old body s
  ]
