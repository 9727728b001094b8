-- ===== src/Enterprise/Pec.antt =====
-- `_detect_receipt_type` of src/enterprise/mail_proxy/pec/parser.py: the type of a receipt of certified
-- mail, by its headers `X-Ricevuta` and `Subject`.
pub mod Subjects
use genro_mail_proxy.Prelude.{
  ℕ, String, Bool, true, false, ◌&&◌, ◌||◌, Option, none, some, List, [], ◌∷◌, ◌==◌, if◌then◌else◌,
}
use genro_mail_proxy.Prelude.Text.{
  Text, codes, text_eq, lower, starts_with, contains, is_space, strip_left, strip,
}

pub data PecReceiptType : Type 0 where
  accettazione consegna mancata_consegna non_accettazione presa_in_carico : PecReceiptType

abbrev pub receipt_type_map : List (String × PecReceiptType)
receipt_type_map =
    ("accettazione", accettazione)
    ∷ ("avvenuta-consegna", consegna)
    ∷ ("consegna", consegna)
    ∷ ("mancata-consegna", mancata_consegna)
    ∷ ("errore-consegna", mancata_consegna)
    ∷ ("non-accettazione", non_accettazione)
    ∷ ("presa-in-carico", presa_in_carico)
    ∷ []

unfoldable pub of_map : Text → List (String × PecReceiptType) → Option PecReceiptType
of_map s [] = none
of_map s ((name, kind) ∷ rest) = if text_eq (codes name) s then some kind else of_map s rest

-- A pattern is a list of words in lower case, with `\s+` between them; a word does not begin with white
-- space.
abbrev pub receipt_subject_patterns : List (List String × PecReceiptType)
receipt_subject_patterns =
    ("accettazione:" ∷ [], accettazione)
    ∷ ("avvenuta" ∷ "consegna:" ∷ [], consegna)
    ∷ ("posta" ∷ "certificata:" ∷ "avvenuta" ∷ "consegna" ∷ [], consegna)
    ∷ ("mancata" ∷ "consegna:" ∷ [], mancata_consegna)
    ∷ ("errore" ∷ "consegna:" ∷ [], mancata_consegna)
    ∷ ("non" ∷ "accettazione:" ∷ [], non_accettazione)
    ∷ ("presa" ∷ "in" ∷ "carico:" ∷ [], presa_in_carico)
    ∷ []

-- What follows a word at the beginning of a text.
unfoldable pub after_word : Text → Text → Option Text
after_word [] s = some s
after_word (c ∷ w) [] = none
after_word (c ∷ w) (d ∷ s) = let rest = after_word w s in if c == d then rest else none

-- What follows `\s+`.
unfoldable pub after_spaces : Option Text → Option Text
after_spaces none = none
after_spaces (some []) = none
after_spaces (some (c ∷ s)) = if is_space c then some (strip_left s) else none

-- Whether the words match at the beginning of a text.
unfoldable pub match_words : List String → Option Text → Bool
unfolding after_word after_spaces
match_words ws none = false
match_words [] (some s) = true
match_words (w ∷ []) (some s) = starts_with (codes w) s
match_words (w ∷ v ∷ ws) (some s) = match_words (v ∷ ws) (after_spaces (after_word (codes w) s))

-- `pattern.search(subject)`, on a text in lower case for `re.I`.
unfoldable pub search : List String → Text → Bool
unfolding match_words
search ws [] = match_words ws (some [])
search ws (c ∷ s) = match_words ws (some (c ∷ s)) || search ws s

unfoldable pub of_subject : Text → List (List String × PecReceiptType) → Option PecReceiptType
unfolding search
of_subject s [] = none
of_subject s ((ws, kind) ∷ rest) = if search ws (lower s) then some kind else of_subject s rest

-- The subject decides where the header gave no type.
unfoldable pub or_subject : Option PecReceiptType → Text → Option PecReceiptType
unfolding of_subject
or_subject (some kind) subject = some kind
or_subject none subject = of_subject subject receipt_subject_patterns

-- A header that is missing is the empty text, which is no key of the map.
unfoldable pub detect_receipt_type : Text → Text → Option PecReceiptType
unfolding of_map or_subject
detect_receipt_type x_ricevuta subject =
    or_subject (of_map (strip (lower x_ricevuta)) receipt_type_map) subject
