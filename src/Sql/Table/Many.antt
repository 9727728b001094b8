-- ===== src/Sql/Table/Many.antt =====
-- `update_batch` of src/sql/table.py: one change of many records.
use genro_mail_proxy.Prelude.{
  ℕ, zero, suc, ◌+◌, String, Bool, false, Option, none, some, List, [], ◌∷◌, ◌==ˢ◌, ◌==◌,
  if◌then◌else◌,
}
use genro_mail_proxy.Prelude.Int.{pos}
use genro_mail_proxy.Prelude.Dict
use genro_mail_proxy.Prelude.Json.{Json, str, num}
use genro_mail_proxy.Sql.Fields.{Row, Codec, encode_json_fields}
use genro_mail_proxy.Sql.Adapter.{Adapter}
use genro_mail_proxy.Sql.Table.{Table, Triggers, finish_update}

-- Keys are texts or numbers.
abbrev pub same_key : Json → Json → Bool
same_key (str s) (str t) = s ==ˢ t
same_key (num (pos m)) (num (pos n)) = m == n
same_key _ _ = false

abbrev pub count_updated : ℕ → ℕ
count_updated zero = 0
count_updated (suc n) = 1

-- `records_by_pk.get(...)`: of rows with one key the last.
unfoldable pub find_by_pk : String → Json → List Row → Option Row → Option Row
find_by_pk c v [] found = found
find_by_pk c v (row ∷ rows) found = elim (Dict.lookup c row) [
  | none ↦ find_by_pk c v rows found
  | some w ↦ find_by_pk c v rows (if same_key w v then some row else found)
]

unfoldable pub update_fields : Row → Row → Row
update_fields [] row = row
update_fields ((c, v) ∷ updater) row = update_fields updater (Dict.insert c v row)

module _ (k : Codec) (t : Table) (A : Adapter) (triggers : Triggers A.State) where
  abbrev pub write_one : String → Json → Row → Row → Row → A.State → Option (ℕ × A.State)
  write_one c v row old encoded s =
      some (finish_update k t A triggers row (some old) (A.update s encoded ((c, v) ∷ [])))

  -- One record of a batch: it is encoded as JSON only.
  unfoldable pub update_one : String → Json → Row → Option Row → A.State → Option (ℕ × A.State)
  unfolding update_fields encode_json_fields
  update_one c v updater none s = some (0, s)
  update_one c v updater (some []) s = some (0, s)
  update_one c v updater (some (x ∷ old)) s =
      let row = triggers.on_updating (update_fields updater (x ∷ old)) (x ∷ old) in
      elim (encode_json_fields k t.json_columns row) [
        | none ↦ none
        | some encoded ↦ write_one c v row (x ∷ old) encoded s
      ]

  unfoldable pub update_each :
      String → List Json → Row → List Row → ℕ → A.State → Option (ℕ × A.State)
  unfolding find_by_pk update_one
  update_each c [] updater rows updated s = some (updated, s)
  update_each c (v ∷ vs) updater rows updated s =
      elim (update_one c v updater (find_by_pk c v rows none) s) [
        | none ↦ none
        | some r ↦ update_each c vs updater rows (updated + count_updated r.0) r.1
      ]

  -- `update_batch`: the rows are read as they are stored.
  unfoldable pub update_batch : List Json → Row → A.State → Option (ℕ × A.State)
  unfolding update_each
  update_batch [] updater s = some (0, s)
  update_batch (v ∷ vs) updater s = elim t.pkey [
    | none ↦ none
    | some c ↦ update_each c (v ∷ vs) updater (A.select_in s c (v ∷ vs)) 0 s
  ]
