-- ===== src/Sql/Fields/Each.antt =====
-- What a loop over the columns of a record does to each of its values.
use genro_mail_proxy.Prelude.{
  String, ◌≡◌, refl, sym, ap, ◌∙◌, Bool, true, false, Option, none, some, List, [], ◌∷◌, ◌==ˢ◌,
  if◌then◌else◌, arith, eq_iff, eq_refl, get_or, Bool-cases, inl, inr, any, All,
}
use mathlib.Core.Path.{subst}
use genro_mail_proxy.Prelude.Dict
use genro_mail_proxy.Prelude.Json.{Json}
use genro_mail_proxy.Sql.Fields.{Row, is_null, change_value, each_field}

abbrev pub member : String → List String → Bool
member c = any (λ d. d ==ˢ c)

abbrev pub AreDistinct : List String → Type 0
AreDistinct [] = Unit
AreDistinct (c ∷ cs) = (member c cs ≡ false) × AreDistinct cs

-- What becomes of a value that is there.
abbrev pub step : (String → Json → Option Json) → String → Json → Option Json
step f c v = if is_null v then some v else f c v

abbrev pub Succeeds : (String → Json → Option Json) → List String → Row → Type 0
Succeeds f cs row =
    (c : String) (v : Json)
    → member c cs ≡ true
    → Dict.lookup c row ≡ some v
    → (w : Json) × (step f c v ≡ some w)

-- A record whose values in some columns went through a function.
abbrev pub IsChanged : (String → Json → Option Json) → List String → Row → Row → Type 0
IsChanged f cs row row' =
    (c : String) (v : Json)
    → Dict.lookup c row ≡ some v
    → Dict.lookup c row' ≡ (if member c cs then step f c v else some v)

-- One column went through the function, the others are as they were.
abbrev IsChangedAt : (String → Json → Option Json) → String → Row → Row → Type 0
IsChangedAt f c row row' =
    ((v : Json) → Dict.lookup c row ≡ some v → Dict.lookup c row' ≡ step f c v)
    × ((d : String) → c ==ˢ d ≡ false → Dict.lookup d row' ≡ Dict.lookup d row)

same_value : (o : Option Json) (v w : Json) → o ≡ some v → o ≡ some w → v ≡ w
same_value o v w first second = ap (λ x. get_or x v) (sym first ∙ second)

step_given :
    (f : String → Json → Option Json) (c : String) (v : Json)
    → is_null v ≡ false
    → step f c v ≡ f c v
step_given f c v given = rw given refl

step_null :
    (f : String → Json → Option Json) (c : String) (v : Json)
    → is_null v ≡ true
    → step f c v ≡ some v
step_null f c v absent = rw absent refl

change_value-put :
    (f : String → Json → Option Json) (c : String) (row : Row) (v w : Json)
    → is_null v ≡ false
    → Dict.lookup c row ≡ some v
    → f c v ≡ some w
    → IsChangedAt f c row (Dict.insert c w row)
change_value-put f c row v w given there result = (
  λ x found.
      Dict.lookup-insert c c w row
      ∙ rw (eq_refl c) (sym result)
      ∙ sym (step_given f c v given)
      ∙ ap (step f c) (same_value (Dict.lookup c row) v x there found),
  λ d other. Dict.lookup-insert c d w row ∙ rw other refl,
)

change_value-IsChangedAt :
    (f : String → Json → Option Json) (c : String) (row : Row) (o : Option Json)
    → Dict.lookup c row ≡ o
    → ((v : Json) → o ≡ some v → (w : Json) × (step f c v ≡ some w))
    → (row' : Row) × (change_value (f c) c row o ≡ some row') × IsChangedAt f c row row'
change_value-IsChangedAt f c row none there succeeds =
    (row, refl, ((λ v found. cc (there, found)), (λ d other. refl)))
change_value-IsChangedAt f c row (some v) there succeeds = elim (Bool-cases (is_null v)) [
  | inl absent ↦ (
    row,
    rw absent refl,
    (
      (λ x found.
          there
          ∙ sym (step_null f c v absent)
          ∙ ap (step f c) (same_value (Dict.lookup c row) v x there found)),
      (λ d other. refl),
    ),
  )
  | inr given ↦
      (let (w, result) = succeeds v refl in
        let result' = sym (step_given f c v given) ∙ result in
        (
          Dict.insert c w row,
          rw (given, result') refl,
          change_value-put f c row v w given there result',
        ))
]

other_column :
    (c d : String) (cs : List String) → member c cs ≡ false → member d cs ≡ true → c ==ˢ d ≡ false
other_column c d cs absent there = elim (Bool-cases (c ==ˢ d)) [
  | inl same ↦ cc (ap (λ x. member x cs) ((eq_iff c d).0 same), absent, there)
  | inr other ↦ other
]

first_member : (c : String) (cs : List String) → member c (c ∷ cs) ≡ true
first_member c cs = ground (arith, eq_refl c)

changed_first :
    (f : String → Json → Option Json) (c : String) (cs : List String) (row row1 row2 : Row)
    → member c cs ≡ false
    → IsChangedAt f c row row1
    → IsChanged f cs row1 row2
    → (v w : Json) → step f c v ≡ some w
    → Dict.lookup c row ≡ some v
    → Dict.lookup c row2 ≡ step f c v
changed_first f c cs row row1 row2 absent changed rest v w result found =
    rest c w (changed.0 v found ∙ result) ∙ rw absent (sym result)

IsChanged-rest :
    (f : String → Json → Option Json) (c : String) (cs : List String) (row row1 row2 : Row)
    → AreDistinct (c ∷ cs)
    → Succeeds f (c ∷ cs) row
    → IsChangedAt f c row row1
    → IsChanged f cs row1 row2
    → IsChanged f (c ∷ cs) row row2
IsChanged-rest f c cs row row1 row2 (absent, distinct) succeeds changed rest d v found =
    elim (Bool-cases (c ==ˢ d)) [
      | inl same ↦
          (let here : (x : Json) → Dict.lookup c row ≡ some x → Dict.lookup c row2 ≡ step f c x =
              λ x there.
                let (w, result) = succeeds c x (first_member c cs) there in
                changed_first f c cs row row1 row2 absent changed rest x w result there in
            rw (same, if◌then◌else◌)
              (subst
                (λ e. (x : Json) → Dict.lookup e row ≡ some x → Dict.lookup e row2 ≡ step f e x)
                ((eq_iff c d).0 same) here v found))
      | inr other ↦ rw (other, if◌then◌else◌) (rest d v (changed.1 d other ∙ found))
    ]

pub each_field-IsChanged :
    (f : String → Json → Option Json) (cs : List String) (row : Row)
    → AreDistinct cs
    → Succeeds f cs row
    → (row' : Row) × (each_field f cs row ≡ some row') × IsChanged f cs row row'
unfolding each_field
each_field-IsChanged f [] row distinct succeeds = (row, refl, λ c v found. found)
each_field-IsChanged f (c ∷ cs) row (absent, distinct) succeeds =
    let (row1, first, changed) =
      change_value-IsChangedAt f c row (Dict.lookup c row) refl
        (λ v found. succeeds c v (first_member c cs) found) in
    let (row2, rest, changed') = each_field-IsChanged f cs row1 distinct (λ d v there found.
      succeeds d v (ground (arith, there))
        (sym (changed.1 d (other_column c d cs absent there)) ∙ found)) in
    (
      row2,
      rw (first, each_field) rest,
      IsChanged-rest f c cs row row1 row2 (absent, distinct) succeeds changed changed',
    )

pub All-member :
    (P : String → Type 0) (cs : List String) (c : String) → All P cs → member c cs ≡ true → P c
All-member P [] c all there = cc there
All-member P (d ∷ cs) c (p, all) there = elim (Bool-cases (d ==ˢ c)) [
  | inl same ↦ subst P ((eq_iff d c).0 same) p
  | inr other ↦ All-member P cs c all (ground (arith, other, there))
]

-- A changed record in a column of the loop, and in another one.
pub changed_in :
    (f : String → Json → Option Json) (cs : List String) (row row' : Row) (c : String) (v : Json)
    → IsChanged f cs row row'
    → member c cs ≡ true
    → Dict.lookup c row ≡ some v
    → Dict.lookup c row' ≡ step f c v
changed_in f cs row row' c v changed there found = changed c v found ∙ rw there refl

pub changed_out :
    (f : String → Json → Option Json) (cs : List String) (row row' : Row) (c : String) (v : Json)
    → IsChanged f cs row row'
    → member c cs ≡ false
    → Dict.lookup c row ≡ some v
    → Dict.lookup c row' ≡ some v
changed_out f cs row row' c v changed absent found = changed c v found ∙ rw absent refl
