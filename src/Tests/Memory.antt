-- ===== src/Tests/Memory.antt =====
-- A database that keeps a list of rows, and a codec, for the tests.
use genro_mail_proxy.Prelude.{
  ◌≡◌, refl, ap, sym, ◌∙◌, get_or, Bool, true, false, ◌&&◌, Option, none, some, List, [], ◌∷◌, ◌++◌,
  ◌==ˢ◌, eq_refl, arith, length, filter, map, if◌then◌else◌, not, count, inl, inr, Bool-cases,
}
use genro_mail_proxy.Prelude.Dict
use genro_mail_proxy.Prelude.Json.{Json, null, bool, num, str, arr, obj, end}
use genro_mail_proxy.Tools.Encryption.{Bytes}
use genro_mail_proxy.Sql.Fields.{Row, Codec}
use genro_mail_proxy.Sql.Fields.RoundTrip.{IsSound}
use genro_mail_proxy.Sql.Adapter.{Adapter, HasFields, IsText, IsMatch, IsLawful}
use genro_mail_proxy.Sql.Table.Many.{same_key}
use genro_mail_proxy.Sql.Table.Upserted.{IsMatch-fields}
use genro_mail_proxy.Tests.Cipher.{cipher, cipher-IsLawful}

abbrev pub nonce : Bytes
nonce = 1 ∷ 2 ∷ 3 ∷ 4 ∷ 5 ∷ 6 ∷ 7 ∷ 8 ∷ 9 ∷ 10 ∷ 11 ∷ 12 ∷ []

abbrev pub key : Bytes
key = nonce ++ nonce ++ 1 ∷ 2 ∷ 3 ∷ 4 ∷ 5 ∷ 6 ∷ 7 ∷ 8 ∷ []

-- A database that keeps a list of rows.
abbrev pub has_value : Option Json → Json → Bool
has_value none v = false
has_value (some w) v = same_key w v

abbrev pub matches : Row → Row → Bool
matches [] row = true
matches ((c, v) ∷ criteria) row = has_value (Dict.lookup c row) v && matches criteria row

has_value_same : (o : Option Json) (v : Json) → IsText v → o ≡ some v → has_value o v ≡ true
has_value_same o (str v) text found = ap (λ x. has_value x (str v)) found ∙ eq_refl v
has_value_same o null text found = absurd text
has_value_same o (bool b) text found = absurd text
has_value_same o (num n) text found = absurd text
has_value_same o (arr xs) text found = absurd text
has_value_same o (obj fs) text found = absurd text

matches_fitting : (criteria row : Row) → IsMatch criteria row → matches criteria row ≡ true
matches_fitting [] row fits = refl
matches_fitting ((c, v) ∷ criteria) row ((text, found), fits) =
    rw (has_value_same (Dict.lookup c row) v text found) (matches_fitting criteria row fits)

-- The first value of a column counts.
pub merge : Row → Row → Row
merge [] row = row
merge ((c, v) ∷ values) row = Dict.insert c v (merge values row)

merge-HasFields : (values row : Row) → HasFields values (merge values row)
unfolding merge Dict.lookup
merge-HasFields [] row c v found = cc found
merge-HasFields ((d, w) ∷ values) row c v found =
    Dict.lookup-insert d c w (merge values row) ∙ elim (Bool-cases (d ==ˢ c)) [
      | inl same ↦ rw same (ground (arith, same, found))
      | inr other ↦ rw other (merge-HasFields values row c v (ground (arith, other, found)))
    ]

pub write : (Row → Bool) → (Row → Row) → List Row → List Row
write p f [] = []
write p f (row ∷ rows) = (if p row then f row else row) ∷ write p f rows

filter-write :
    (p : Row → Bool) (f : Row → Row) (rows : List Row)
    → ((row : Row) → p (f row) ≡ true)
    → filter p (write p f rows) ≡ map f (filter p rows)
unfolding write
filter-write p f [] kept = refl
filter-write p f (row ∷ rows) kept = elim (Bool-cases (p row)) [
  | inl here ↦ ground (arith, here, kept row, filter-write p f rows kept)
  | inr other ↦ ground (arith, other, filter-write p f rows kept)
]

abbrev pub memory : Adapter
memory = record {
  State = List Row;
  insert = λ s row. s ++ row ∷ [];
  insert_returning_id = λ s row c. (none, s ++ row ∷ []);
  select = λ s criteria. filter (matches criteria) s;
  update = λ s row criteria. (count (matches criteria) s, write (matches criteria) (merge row) s);
  delete = λ s criteria. (count (matches criteria) s, filter (λ row. not (matches criteria row)) s);
  select_in = λ s c vs. s;
}

filter_last :
    (p : Row → Bool) (rows : List Row) (row : Row)
    → filter p rows ≡ []
    → p row ≡ true
    → filter p (rows ++ row ∷ []) ≡ row ∷ []
filter_last p [] row absent there = ground (arith, there)
filter_last p (r ∷ rows) row absent there = elim (Bool-cases (p r)) [
  | inl first ↦ ground (arith, first, absent)
  | inr other ↦ ground (arith, other, absent, filter_last p rows row)
]

pub memory-IsLawful : IsLawful memory
memory-IsLawful = record {
  select-insert = λ s row criteria fits absent. (
    row,
    filter_last (matches criteria) s row absent (matches_fitting criteria row fits),
    λ d w there. there,
  );
  select-update = λ s old row criteria fits found. (
    merge row old,
    filter-write (matches criteria) (merge row) s (λ r.
          matches_fitting criteria (merge row r)
            (IsMatch-fields criteria row (merge row r) fits (merge-HasFields row r)))
        ∙ ap (map (merge row)) found,
    merge-HasFields row old,
  );
}

-- A JSON package that knows the empty object only.
abbrev pub json : Codec
json = record {
  dumps = λ v. "{}";
  loads = λ s. if s ==ˢ "{}" then some (obj end) else none;
  cipher = cipher;
  encryption_key = some key;
  nonce = λ c. nonce;
}

pub json-IsSound : IsSound json
json-IsSound = record {
  cipher_law = cipher-IsLawful;
  sized = λ other configured. ap (λ o. length (get_or o key)) (sym configured);
  fresh = λ c. refl;
}
