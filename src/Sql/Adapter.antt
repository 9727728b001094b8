-- ===== src/Sql/Adapter.antt =====
-- What src/sql/table.py asks of a database, by the queries of src/sql/adapters/base.py: the statements are
-- parameters over an unknown state.
use genro_mail_proxy.Prelude.{ℕ, String, ◌≡◌, Option, some, List, [], ◌∷◌, All}
use genro_mail_proxy.Prelude.Dict
use genro_mail_proxy.Prelude.Json.{Json, str}
use genro_mail_proxy.Sql.Fields.{Row}

-- One table: INSERT, also with the number that the database counts up, SELECT with equations, UPDATE,
-- DELETE, and SELECT with IN.
pub record Adapter : Type 1 where
  pub State : Type 0
  pub insert : State → Row → State
  pub insert_returning_id : State → Row → String → Option Json × State
  pub select : State → Row → List Row
  pub update : State → Row → Row → ℕ × State
  pub delete : State → Row → ℕ × State
  pub select_in : State → String → List Json → List Row

-- A row that has what a record names; a database may add the columns that the record leaves out.
abbrev pub HasFields : Row → Row → Type 0
HasFields row row' =
    (c : String) (v : Json) → Dict.lookup c row ≡ some v → Dict.lookup c row' ≡ some v

abbrev pub IsText : Json → Type 0
IsText (str s) = Unit
IsText v = ⊥

-- A row with the texts that a query asks for.
abbrev pub IsMatch : Row → Row → Type 0
IsMatch criteria row =
    All (λ field. IsText field.1 × (Dict.lookup field.0 row ≡ some field.1)) criteria

-- A row is found by the texts of columns if there was none with those texts before, and the only row
-- with those texts is found by them after it was given new values that keep them.
pub record IsLawful (A : Adapter) : Type 0 where
  pub select-insert :
      (s : A.State) (row criteria : Row)
      → IsMatch criteria row
      → A.select s criteria ≡ []
      → (row' : Row) × (A.select (A.insert s row) criteria ≡ row' ∷ []) × HasFields row row'
  pub select-update :
      (s : A.State) (old row criteria : Row)
      → IsMatch criteria row
      → A.select s criteria ≡ old ∷ []
      → (row' : Row) × (A.select (A.update s row criteria).1 criteria ≡ row' ∷ [])
        × HasFields row row'
