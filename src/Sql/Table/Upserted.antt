-- ===== src/Sql/Table/Upserted.antt =====
-- What is read after `async with table.record(..., insert_missing=True)`.
use genro_mail_proxy.Prelude.{
  ℕ, zero, suc, String, ◌≡◌, refl, ap, true, false, Option, none, some, [], ◌∷◌, All,
}
use genro_mail_proxy.Prelude.Dict
use genro_mail_proxy.Prelude.Json.{Json}
use genro_mail_proxy.Sql.Fields.{Row, Codec}
use genro_mail_proxy.Sql.Fields.Each.{member}
use genro_mail_proxy.Sql.Fields.RoundTrip.{IsSound}
use genro_mail_proxy.Sql.Adapter.{Adapter, HasFields, IsMatch, IsLawful}
use genro_mail_proxy.Sql.Table.{
  Table, has_key, is_empty_row, base_triggers, finish_update, update_found, encode_record,
  decode_row, insert, update, select_one, save_new, save_old,
}
use genro_mail_proxy.Sql.Table.Encoding.{IsStorable, encode_record-decode_row}
use genro_mail_proxy.Sql.Table.Stored.{of_pkey, not_empty_row, insert_encoded_row}

-- The columns of a query are neither JSON nor encrypted.
abbrev pub IsStoredAsIs : Table → Row → Type 0
IsStoredAsIs t = All (λ field.
    (member field.0 t.json_columns ≡ false) × (member field.0 t.encrypted_columns ≡ false))

-- The record that the body is given.
abbrev pub given_record : Row → Option Row → Row
given_record criteria none = criteria
given_record criteria (some old) = old

-- A query finds no row, or just one that can be read.
abbrev pub FindsAtMostOne :
    (k : Codec) → Table → (A : Adapter) → Row → A.State → Option Row → Type 0
FindsAtMostOne k t A criteria s none = A.select s criteria ≡ []
FindsAtMostOne k t A criteria s (some old) =
    (row : Row) × (A.select s criteria ≡ row ∷ [])
    × (is_empty_row row ≡ false)
    × (decode_row k t row ≡ some old)

IsMatch-kept :
    (t : Table) (row row' criteria : Row)
    → IsStoredAsIs t criteria
    → IsMatch criteria row
    → ((c : String) (v : Json)
        → member c t.json_columns ≡ false
        → member c t.encrypted_columns ≡ false
        → Dict.lookup c row ≡ some v
        → Dict.lookup c row' ≡ some v)
    → IsMatch criteria row'
IsMatch-kept t row row' [] as_is fits kept = tt
IsMatch-kept t row row' ((c, v) ∷ criteria) ((no_json, no_text), as_is) ((text, found), fits) kept =
    ((text, kept c v no_json no_text found), IsMatch-kept t row row' criteria as_is fits kept)

IsMatch-not_empty :
    (criteria row : Row)
    → is_empty_row criteria ≡ false
    → IsMatch criteria row
    → is_empty_row row ≡ false
IsMatch-not_empty [] row asks fits = cc asks
IsMatch-not_empty ((c, v) ∷ criteria) row asks ((text, found), fits) = not_empty_row c v row found

pub IsMatch-fields :
    (criteria row row' : Row) → IsMatch criteria row → HasFields row row' → IsMatch criteria row'
IsMatch-fields [] row row' fits has = tt
IsMatch-fields ((c, v) ∷ criteria) row row' ((text, found), fits) has =
    ((text, has c v found), IsMatch-fields criteria row row' fits has)

module _ (k : Codec) (t : Table) (A : Adapter) where
  pub select_one_found :
      (criteria : Row) (s : A.State) (o : Option Row)
      → FindsAtMostOne k t A criteria s o
      → select_one k t A (base_triggers A.State t) criteria s ≡ some o
  unfolding select_one
  select_one_found criteria s none found = rw found refl
  select_one_found criteria s (some old) (row, found, given, decoded) =
      rw found (rw (given, decoded) refl)

  pub finish_update_same :
      (row : Row) (old : Option Row) (r : ℕ × A.State)
      → finish_update k t A (base_triggers A.State t) row old r ≡ r
  finish_update_same row none r = refl
  finish_update_same row (some old) (zero, s) = refl
  finish_update_same row (some old) (suc n, s) = refl

  update_encoded :
      (row old encoded criteria : Row) (s : A.State)
      → encode_record k t row ≡ some encoded
      → select_one k t A (base_triggers A.State t) criteria s ≡ some (some old)
      → update k t A (base_triggers A.State t) row criteria s ≡ some (A.update s encoded criteria)
  unfolding update
  update_encoded row old encoded criteria s wrote found =
      rw (found, update)
        (rw (wrote, update_found)
          (ap (λ r. some r) (finish_update_same row (some old) (A.update s encoded criteria))))

  save_old_row :
      (criteria row : Row) (s s' : A.State) (n : ℕ)
      → is_empty_row row ≡ false
      → update k t A (base_triggers A.State t) row criteria s ≡ some (n, s')
      → save_old k t A (base_triggers A.State t) criteria row s ≡ some s'
  save_old_row criteria row s s' n given saved = rw given (rw saved refl)

  save_new_row :
      (row : Row) (s s' : A.State)
      → is_empty_row row ≡ false
      → insert k t A (base_triggers A.State t) row s ≡ some (row, s')
      → save_new k t A (base_triggers A.State t) row s ≡ some s'
  save_new_row row s s' given saved = rw given (rw saved refl)

  -- Saving leads to a state in which the query finds a row with what the record names.
  abbrev IsSaved : Row → Row → Option Row → A.State → Type 0
  IsSaved criteria row old s =
      (s' : A.State) × (r : Row) × (elim old [
        | none ↦ save_new k t A (base_triggers A.State t) row s
        | some o ↦ save_old k t A (base_triggers A.State t) criteria row s
      ]
        ≡ some s')
      × (select_one k t A (base_triggers A.State t) criteria s' ≡ some (some r))
      × HasFields row r

  module _ (sound : IsSound k) (lawful : IsLawful A) (criteria row : Row) (c : String)
      (keyed_by : t.pkey ≡ some c) (asks : is_empty_row criteria ≡ false)
      (as_is : IsStoredAsIs t criteria) (storable : IsStorable k t row)
      (fits : IsMatch criteria row) (has_pkey : has_key c row ≡ true) where
    saved :
        (s : A.State) (old : Option Row)
        → FindsAtMostOne k t A criteria s old
        → IsSaved criteria row old s
    saved s none absent =
        let (encoded, wrote, kept, decodes) = encode_record-decode_row k sound t row storable in
        let fits' = IsMatch-kept t row encoded criteria as_is fits kept in
        let (row', selected, has) = lawful.select-insert s encoded criteria fits' absent in
        let (r, decoded, fields) = decodes row' has in
        let pkeys = of_pkey t.pkey c t.new_pkey_value row keyed_by has_pkey in
        (
          A.insert s encoded,
          r,
          save_new_row row s (A.insert s encoded) (IsMatch-not_empty criteria row asks fits)
              (insert_encoded_row k t A row encoded s pkeys.0 pkeys.1 wrote),
          select_one_found criteria (A.insert s encoded) (some r) (
            row',
            selected,
            IsMatch-not_empty criteria row' asks (IsMatch-fields criteria encoded row' fits' has),
            decoded,
          ),
          fields,
        )
    saved s (some old) (before, found, given, read) =
        let (encoded, wrote, kept, decodes) = encode_record-decode_row k sound t row storable in
        let fits' = IsMatch-kept t row encoded criteria as_is fits kept in
        let (row', selected, has) = lawful.select-update s before encoded criteria fits' found in
        let (r, decoded, fields) = decodes row' has in
        let s' = A.update s encoded criteria in
        (
          s'.1,
          r,
          save_old_row criteria row s s'.1 s'.0 (IsMatch-not_empty criteria row asks fits) (
              update_encoded row old encoded criteria s wrote
                (select_one_found criteria s (some old) (before, found, given, read))),
          select_one_found criteria s'.1 (some r) (
            row',
            selected,
            IsMatch-not_empty criteria row' asks (IsMatch-fields criteria encoded row' fits' has),
            decoded,
          ),
          fields,
        )
