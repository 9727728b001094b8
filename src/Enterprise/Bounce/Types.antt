-- ===== src/Enterprise/Bounce/Types.antt =====
-- How the type of a bounce agrees with its code.
use genro_mail_proxy.Prelude.{
  ℕ, ◌≡◌, refl, ap, ◌∙◌, Bool, true, false, ◌&&◌, not, Option, none, some, List, [], ◌∷◌, ◌==◌,
  arith, is_some, take, get_or, All, inl, inr, Bool-cases,
}
use genro_mail_proxy.Prelude.Text.{Text, codes, text_eq, lower, starts_with, strip, split}
use genro_mail_proxy.Enterprise.Bounce.{
  BounceType, hard, Dsn, is_class, ends_word, is_word, or_else, digits, last_part, middle_part,
  enhanced_at, search_enhanced, search_code, type_of, after_first, field_value, use_code,
  use_status, diagnostic, use_diagnostic, is_soft_action, use_action, use_recipient, has_name,
  read_line, read_lines, nothing, extract_dsn_info,
}

-- A code has the type of its first digit.
abbrev pub Agrees : Option Text → Option BounceType → Type 0
Agrees none kind = Unit
Agrees (some code) kind = kind ≡ some (type_of code)

-- The class of an enhanced code is one character.
abbrev HasClass : Option (Text × Text × Text) → Type 0
HasClass none = Unit
HasClass (some parts) = (c : ℕ) × (parts.0 ≡ c ∷ [])

last_part-HasClass :
    (c : ℕ) (subject : Text) (r : Text × Text) → HasClass (last_part (c ∷ []) subject r)
unfolding last_part
last_part-HasClass c subject ([], s) = tt
last_part-HasClass c subject (d ∷ ds, s) = elim (Bool-cases (ends_word s)) [
  | inl ends ↦ rw (ends, last_part) (c, refl)
  | inr goes_on ↦ rw (goes_on, last_part) tt
]

middle_part-HasClass : (c : ℕ) (r : Text × Text) → HasClass (middle_part (c ∷ []) r)
unfolding middle_part
middle_part-HasClass c ([], s) = tt
middle_part-HasClass c (d ∷ ds, []) = tt
middle_part-HasClass c (d ∷ ds, e ∷ s) = elim (Bool-cases (e == b'.')) [
  | inl dot ↦ rw (dot, middle_part) (last_part-HasClass c (d ∷ ds) (digits s))
  | inr other ↦ rw (other, middle_part) tt
]

enhanced_at-HasClass : (s : Text) → HasClass (enhanced_at s)
unfolding enhanced_at
enhanced_at-HasClass [] = tt
enhanced_at-HasClass (c ∷ []) = tt
enhanced_at-HasClass (c ∷ d ∷ s) = elim (Bool-cases (is_class c && d == b'.')) [
  | inl class ↦ rw (class, enhanced_at) (middle_part-HasClass c (digits s))
  | inr other ↦ rw (other, enhanced_at) tt
]

or_else-HasClass :
    (a b : Option (Text × Text × Text)) → HasClass a → HasClass b → HasClass (or_else a b)
or_else-HasClass none b ha hb = hb
or_else-HasClass (some x) b ha hb = ha

search_enhanced-HasClass : (inside : Bool) (s : Text) → HasClass (search_enhanced inside s)
unfolding search_enhanced
search_enhanced-HasClass inside [] = tt
search_enhanced-HasClass true (c ∷ s) = search_enhanced-HasClass (is_word c) s
search_enhanced-HasClass false (c ∷ s) =
    or_else-HasClass (enhanced_at (c ∷ s)) (search_enhanced (is_word c) s)
      (enhanced_at-HasClass (c ∷ s)) (search_enhanced-HasClass (is_word c) s)

use_code-Agrees :
    (o : Option Text) (r : Dsn)
    → Agrees r.bounce_code r.bounce_type
    → Agrees (use_code o r).bounce_code (use_code o r).bounce_type
unfolding use_code
use_code-Agrees none r h = h
use_code-Agrees (some code) r h = refl

use_status-Agrees :
    (o : Option (Text × Text × Text)) (status : Text) (r : Dsn)
    → HasClass o
    → Agrees r.bounce_code r.bounce_type
    → Agrees (use_status o status r).bounce_code (use_status o status r).bounce_type
unfolding use_status starts_with text_eq
use_status-Agrees none status r class h = use_code-Agrees (search_code false status) r h
use_status-Agrees (some ([], subject, detail)) status r (c, class) h = cc class
use_status-Agrees (some (d ∷ [], subject, detail)) status r (c, class) h = ground arith
use_status-Agrees (some (d ∷ e ∷ ds, subject, detail)) status r (c, class) h = cc class

use_diagnostic-Agrees :
    (diag : Text) (r : Dsn)
    → Agrees r.bounce_code r.bounce_type
    → Agrees (use_diagnostic diag r).bounce_code (use_diagnostic diag r).bounce_type
unfolding use_diagnostic
use_diagnostic-Agrees diag r h = elim (Bool-cases (is_some r.bounce_code)) [
  | inl there ↦ rw (there, use_diagnostic) h
  | inr absent ↦
      rw (absent, use_diagnostic)
        (use_code-Agrees (search_code false diag)
          (record r { bounce_reason = some (take 500 diag) }) h)
]

untyped-Agrees :
    (o : Option Text) (kind : Option BounceType)
    → not (is_some kind) ≡ true
    → Agrees o kind
    → Agrees o (some hard)
untyped-Agrees none kind untyped h = tt
untyped-Agrees (some code) none untyped h = cc
untyped-Agrees (some code) (some x) untyped h = cc

use_action-Agrees :
    (action : Text) (r : Dsn)
    → is_soft_action action ≡ false
    → Agrees r.bounce_code r.bounce_type
    → Agrees (use_action action r).bounce_code (use_action action r).bounce_type
unfolding use_action
use_action-Agrees action r plain h =
    elim (Bool-cases (text_eq action (codes "failed") && not (is_some r.bounce_type))) [
      | inl failed ↦
          rw (failed, use_action)
            (untyped-Agrees r.bounce_code r.bounce_type (ground (arith, failed)) h)
      | inr other ↦ rw (other, plain, use_action) h
    ]

-- A line that sets no soft type by its action.
abbrev pub is_plain : Text → Bool
is_plain s = not (has_name "action:" s && is_soft_action (lower (field_value s)))

use_recipient-Agrees :
    (o : Option Text) (r : Dsn)
    → Agrees r.bounce_code r.bounce_type
    → Agrees (use_recipient o r).bounce_code (use_recipient o r).bounce_type
use_recipient-Agrees none r h = h
use_recipient-Agrees (some rest) r h = h

read_line-Agrees :
    (s : Text) (r : Dsn)
    → is_plain s ≡ true
    → Agrees r.bounce_code r.bounce_type
    → Agrees (read_line s r).bounce_code (read_line s r).bounce_type
unfolding read_line
read_line-Agrees s r plain h = elim (Bool-cases (has_name "final-recipient:" s)) [
  | inl a ↦ rw (a, read_line) (use_recipient-Agrees (after_first b';' s) r h)
  | inr na ↦ elim (Bool-cases (has_name "status:" s)) [
    | inl b ↦
        rw (na, b, read_line)
          (use_status-Agrees (search_enhanced false (field_value s)) (field_value s) r
            (search_enhanced-HasClass false (field_value s)) h)
    | inr nb ↦ elim (Bool-cases (has_name "diagnostic-code:" s)) [
      | inl c ↦ rw (na, nb, c, read_line) (use_diagnostic-Agrees (diagnostic (field_value s)) r h)
      | inr nc ↦ elim (Bool-cases (has_name "action:" s)) [
        | inl d ↦
            rw (na, nb, nc, d, read_line)
              (use_action-Agrees (lower (field_value s)) r (ground (arith, plain, d)) h)
        | inr nd ↦ rw (na, nb, nc, nd, read_line) h
      ]
    ]
  ]
]

read_lines-Agrees :
    (ss : List Text) (r : Dsn)
    → All (λ s. is_plain (strip s) ≡ true) ss
    → Agrees r.bounce_code r.bounce_type
    → Agrees (read_lines ss r).bounce_code (read_lines ss r).bounce_type
unfolding read_lines
read_lines-Agrees [] r plain h = h
read_lines-Agrees (s ∷ ss) r plain h =
    read_lines-Agrees ss (read_line (strip s) r) plain.1 (read_line-Agrees (strip s) r plain.0 h)

-- A delivery status without an action line of a soft action ("delayed", "relayed", "expanded").
abbrev pub IsPlain : Text → Type 0
IsPlain status_text = All (λ s. is_plain (strip s) ≡ true) (split b'\n' status_text)

pub extract_dsn_info-Agrees :
    (status_text : Text)
    → IsPlain status_text
    → Agrees (extract_dsn_info status_text).bounce_code (extract_dsn_info status_text).bounce_type
unfolding extract_dsn_info
extract_dsn_info-Agrees status_text plain =
    read_lines-Agrees (split b'\n' status_text) nothing plain tt

pub code_type :
    (o : Option Text) (kind : Option BounceType) (code : Text)
    → Agrees o kind
    → o ≡ some code
    → kind ≡ some (type_of code)
code_type none kind code h found = cc
code_type (some x) kind code h found = h ∙ ap (λ o. some (type_of (get_or o x))) found
