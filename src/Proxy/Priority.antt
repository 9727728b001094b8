-- ===== src/Proxy/Priority.antt =====
-- `_normalise_priority` of src/core/mail_proxy/proxy.py.
pub mod Range
use genro_mail_proxy.Prelude.{
  ℕ, zero, suc, ◌+◌, ◌-◌, ◌*◌, String, Bool, true, false, ◌&&◌, ◌||◌, Option, none, some, List, [],
  ◌∷◌, ◌==◌, leb, if◌then◌else◌, get_or,
}
use genro_mail_proxy.Prelude.Int.{ℤ, pos, negsuc}
use genro_mail_proxy.Prelude.Json.{Json, null, bool, num, str, arr, obj}
use genro_mail_proxy.Prelude.Text.{Text, codes, lower, strip, text_eq}

-- The value of a label that is in lower case.
unfoldable pub label_to_priority : Text → Option ℕ
unfolding text_eq
label_to_priority s =
    if text_eq s (codes "immediate")
    then some 0
    else if text_eq s (codes "high")
    then some 1
    else if text_eq s (codes "medium")
    then some 2
    else if text_eq s (codes "low")
    then some 3
    else none

unfoldable pub priority_label : ℕ → Text
priority_label n =
    if n == 0
    then codes "immediate"
    else if n == 1
    then codes "high"
    else if n == 2
    then codes "medium"
    else codes "low"

abbrev pub is_digit : ℕ → Bool
is_digit c = leb b'0' c && leb c b'9'

-- Decimal digits with single underscores between them, read from the left; the flag says whether the
-- last character was a digit.
unfoldable pub digits : Bool → ℕ → Text → Option ℕ
digits true n [] = some n
digits false n [] = none
digits after n (c ∷ s) = elim (is_digit c) [
  | true ↦ digits true (10 * n + (c - b'0')) s
  | false ↦ elim (after && c == b'_') [ true ↦ digits false n s | false ↦ none ]
]

unfoldable pub natural : Text → Option ℕ
unfolding digits
natural s = digits false 0 s

abbrev pub negate : ℕ → ℤ
negate zero = pos zero
negate (suc n) = negsuc n

-- `int(text)`; none is the ValueError. Digits are ASCII.
unfoldable pub parse_int : Text → Option ℤ
unfolding natural strip
parse_int s = elim (strip s) [
  | [] ↦ none
  | c ∷ t ↦
      if c == b'-'
      then elim (natural t) [ none ↦ none | some n ↦ some (negate n) ]
      else if c == b'+'
      then elim (natural t) [ none ↦ none | some n ↦ some (pos n) ]
      else elim (natural (c ∷ t)) [ none ↦ none | some n ↦ some (pos n) ]
]

-- `max(0, min(n, 3))`
unfoldable pub clamp : ℤ → ℕ
clamp (pos n) = if leb 3 n then 3 else n
clamp (negsuc n) = 0

abbrev pub of_bool : Bool → ℤ
of_bool true = pos 1
of_bool false = pos 0

unfoldable pub fallback_priority : Json → ℕ
unfolding clamp label_to_priority
fallback_priority (str s) = get_or (label_to_priority (lower (codes s))) 2
fallback_priority (num n) = clamp n
fallback_priority (bool b) = clamp (of_bool b)
fallback_priority _ = 2

-- The priority before it is clamped; a number of the model is an integer.
unfoldable pub priority_of : Json → ℕ → ℤ
unfolding label_to_priority parse_int
priority_of (str s) fallback = elim (label_to_priority (lower (codes s))) [
  | some n ↦ pos n
  | none ↦ get_or (parse_int (codes s)) (pos fallback)
]
priority_of (num n) fallback = n
priority_of (bool b) fallback = of_bool b
priority_of _ fallback = pos fallback

-- The number and its label.
unfoldable pub normalise_priority : Json → Json → ℕ × Text
unfolding fallback_priority priority_of
normalise_priority value default =
    let p = clamp (priority_of value (fallback_priority default)) in (p, priority_label p)
