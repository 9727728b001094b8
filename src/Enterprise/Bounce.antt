-- ===== src/Enterprise/Bounce.antt =====
-- `_extract_dsn_info` of src/enterprise/mail_proxy/bounce/parser.py: what a delivery status says of a
-- bounce. The two patterns for codes are modelled on ASCII.
pub mod Types
pub mod Report
pub mod Parts
use genro_mail_proxy.Prelude.{
  ℕ, String, Bool, true, false, ◌&&◌, ◌||◌, not, Option, none, some, List, [], ◌∷◌, ◌++◌, ◌==◌, leb,
  if◌then◌else◌, is_some, take,
}
use genro_mail_proxy.Prelude.Text.{Text, codes, text_eq, lower, starts_with, strip, split}

pub data BounceType : Type 0 where
  hard soft : BounceType

-- The four local variables.
pub record Dsn : Type 0 where
  pub recipient : Option Text
  pub bounce_code : Option Text
  pub bounce_type : Option BounceType
  pub bounce_reason : Option Text

abbrev pub is_digit : ℕ → Bool
is_digit c = leb b'0' c && leb c b'9'

-- `\w`
abbrev pub is_word : ℕ → Bool
is_word c = is_digit c || (leb b'a' c && leb c b'z') || (leb b'A' c && leb c b'Z') || c == b'_'

-- `\b` behind a word character.
abbrev pub ends_word : Text → Bool
ends_word [] = true
ends_word (c ∷ s) = not (is_word c)

-- `[45]`
abbrev pub is_class : ℕ → Bool
is_class c = c == b'4' || c == b'5'

-- `[45]\d{2}\b` at the beginning of a text.
unfoldable pub code_at : Text → Option Text
code_at [] = none
code_at (c ∷ []) = none
code_at (c ∷ d ∷ []) = none
code_at (c ∷ d ∷ e ∷ s) =
    if is_class c && (is_digit d && (is_digit e && ends_word s))
    then some (c ∷ d ∷ e ∷ [])
    else none

abbrev pub or_else {ℓ} : {A : Type ℓ} → Option A → Option A → Option A
or_else (some a) b = some a
or_else none b = b

-- `SMTP_CODE_PATTERN.search`, with whether the character before is one of a word.
unfoldable pub search_code : Bool → Text → Option Text
unfolding code_at
search_code inside [] = none
search_code inside (c ∷ s) =
    let rest = search_code (is_word c) s in if inside then rest else or_else (code_at (c ∷ s)) rest

-- `\d+`: the digits and the rest, which has no digit at its beginning.
unfoldable pub digits : Text → Text × Text
digits [] = ([], [])
digits (c ∷ s) = let r = digits s in if is_digit c then (c ∷ r.0, r.1) else ([], c ∷ s)

-- `(\d+)\b` after the second dot.
unfoldable pub last_part : Text → Text → Text × Text → Option (Text × Text × Text)
last_part class subject ([], s) = none
last_part class subject (d ∷ ds, s) = if ends_word s then some (class, subject, d ∷ ds) else none

-- `(\d+)\.` after the first dot.
unfoldable pub middle_part : Text → Text × Text → Option (Text × Text × Text)
unfolding digits last_part
middle_part class ([], s) = none
middle_part class (d ∷ ds, []) = none
middle_part class (d ∷ ds, c ∷ s) = if c == b'.' then last_part class (d ∷ ds) (digits s) else none

-- `([45])\.(\d+)\.(\d+)\b` at the beginning of a text.
unfoldable pub enhanced_at : Text → Option (Text × Text × Text)
unfolding digits middle_part
enhanced_at [] = none
enhanced_at (c ∷ []) = none
enhanced_at (c ∷ d ∷ s) = if is_class c && d == b'.' then middle_part (c ∷ []) (digits s) else none

-- `ENHANCED_CODE_PATTERN.search`
unfoldable pub search_enhanced : Bool → Text → Option (Text × Text × Text)
unfolding enhanced_at
search_enhanced inside [] = none
search_enhanced inside (c ∷ s) =
    let rest = search_enhanced (is_word c) s in
    if inside then rest else or_else (enhanced_at (c ∷ s)) rest

-- `"hard" if code.startswith("5") else "soft"`
abbrev pub type_of : Text → BounceType
type_of code = if starts_with (b'5' ∷ []) code then hard else soft

-- What follows the first separator: `s.split(sep, 1)[1]`, if there is one.
unfoldable pub after_first : ℕ → Text → Option Text
after_first sep [] = none
after_first sep (c ∷ s) = let rest = after_first sep s in if c == sep then some s else rest

-- The value of a field, behind its colon.
abbrev pub field_value : Text → Text
field_value s = elim (after_first b':' s) [ none ↦ [] | some rest ↦ strip rest ]

abbrev pub set_code : Text → Dsn → Dsn
set_code code r = record r { bounce_code = some code; bounce_type = some (type_of code) }

-- The simple code, if there is one.
unfoldable pub use_code : Option Text → Dsn → Dsn
use_code none r = r
use_code (some code) r = set_code code r

-- `Status`: the enhanced code, and else the simple one.
unfoldable pub use_status : Option (Text × Text × Text) → Text → Dsn → Dsn
unfolding use_code search_code
use_status (some (class, subject, detail)) status r = record r {
  bounce_code = some (class ++ subject ++ detail);
  bounce_type = some (if text_eq class (b'5' ∷ []) then hard else soft);
}
use_status none status r = use_code (search_code false status) r

-- `Diagnostic-Code`: what follows a semicolon, if there is one.
abbrev pub diagnostic : Text → Text
diagnostic diag = elim (after_first b';' diag) [ none ↦ diag | some rest ↦ strip rest ]

-- A code of the diagnostic is used if none was found yet.
unfoldable pub use_diagnostic : Text → Dsn → Dsn
unfolding use_code search_code
use_diagnostic diag r =
    let r' = record r { bounce_reason = some (take 500 diag) } in
    if is_some r.bounce_code then r' else use_code (search_code false diag) r'

abbrev pub is_soft_action : Text → Bool
is_soft_action action =
    text_eq action (codes "delayed")
    || text_eq action (codes "relayed")
    || text_eq action (codes "expanded")

unfoldable pub use_action : Text → Dsn → Dsn
use_action action r =
    if text_eq action (codes "failed") && not (is_some r.bounce_type)
    then record r { bounce_type = some hard }
    else if is_soft_action action
    then record r { bounce_type = some soft }
    else r

abbrev pub use_recipient : Option Text → Dsn → Dsn
use_recipient none r = r
use_recipient (some rest) r = record r { recipient = some (strip rest) }

abbrev pub has_name : String → Text → Bool
has_name name s = starts_with (codes name) (lower s)

-- One line, without white space around it.
unfoldable pub read_line : Text → Dsn → Dsn
unfolding after_first search_enhanced use_status use_diagnostic use_action
read_line s r =
    if has_name "final-recipient:" s
    then use_recipient (after_first b';' s) r
    else if has_name "status:" s
    then use_status (search_enhanced false (field_value s)) (field_value s) r
    else if has_name "diagnostic-code:" s
    then use_diagnostic (diagnostic (field_value s)) r
    else if has_name "action:" s
    then use_action (lower (field_value s)) r
    else r

unfoldable pub read_lines : List Text → Dsn → Dsn
unfolding read_line
read_lines [] r = r
read_lines (s ∷ ss) r = read_lines ss (read_line (strip s) r)

abbrev pub nothing : Dsn
nothing = record { recipient = none; bounce_code = none; bounce_type = none; bounce_reason = none }

unfoldable pub extract_dsn_info : Text → Dsn
unfolding read_lines
extract_dsn_info status_text = read_lines (split b'\n' status_text) nothing
