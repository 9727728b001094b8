-- ===== src/Enterprise/Pec/Subjects.antt =====
-- What the subject of a receipt can say.
use genro_mail_proxy.Prelude.{
  ℕ, String, ◌≡◌, ◌≢◌, ◌↔◌, refl, sym, ap, ◌∙◌, true, false, Option, none, some, List, [], ◌∷◌,
  ◌==◌, arith, inl, inr, Bool-cases,
}
use genro_mail_proxy.Prelude.Text.{Text, codes, lower, is_space, strip_left, strip}
use genro_mail_proxy.Enterprise.Pec.{
  PecReceiptType, accettazione, non_accettazione, receipt_type_map, of_map,
  receipt_subject_patterns, after_word, after_spaces, match_words, search, of_subject, or_subject,
  detect_receipt_type,
}

-- A pattern that is found behind some spaces is found from their beginning.
search-strip_left :
    (ws : List String) (s : Text) → search ws (strip_left s) ≡ true → search ws s ≡ true
unfolding search strip_left
search-strip_left ws [] h = h
search-strip_left ws (c ∷ s) h = ground (arith, h, search-strip_left ws s)

search_first :
    (w : String) (s : Text) → match_words (w ∷ []) (some s) ≡ true → search (w ∷ []) s ≡ true
unfolding search
search_first w [] h = h
search_first w (c ∷ s) h = ground (arith, h)

search_later :
    (w : String) (c : ℕ) (s : Text) → search (w ∷ []) s ≡ true → search (w ∷ []) (c ∷ s) ≡ true
unfolding search
search_later w c s h = ground (arith, h)

behind_spaces :
    (w : String) (s : Text)
    → match_words (w ∷ []) (after_spaces (some s)) ≡ true
    → search (w ∷ []) s ≡ true
unfolding after_spaces match_words
behind_spaces w [] h = cc
behind_spaces w (c ∷ s) h = elim (Bool-cases (is_space c)) [
  | inl space ↦
      let here : match_words (w ∷ []) (after_spaces (some (c ∷ s)))
          ≡ match_words (w ∷ []) (some (strip_left s)) =
        rw space refl in
      search_later w c s
        (search-strip_left (w ∷ []) s (search_first w (strip_left s) (sym here ∙ h)))
  | inr other ↦
      let nowhere : match_words (w ∷ []) (after_spaces (some (c ∷ s))) ≡ false = rw other refl in cc
]

nowhere : (w : String) → match_words (w ∷ []) (after_spaces none) ≡ false
unfolding after_spaces match_words
nowhere w = refl

behind_word :
    (v : Text) (w : String) (s : Text)
    → match_words (w ∷ []) (after_spaces (after_word v s)) ≡ true
    → search (w ∷ []) s ≡ true
unfolding after_word
behind_word [] w s h = behind_spaces w s h
behind_word (c ∷ v) w [] h = cc (nowhere w, h)
behind_word (c ∷ v) w (d ∷ s) h = elim (Bool-cases (c == d)) [
  | inl same ↦
      let rest : after_word (c ∷ v) (d ∷ s) ≡ after_word v s = rw same refl in
      search_later w d s
        (behind_word v w s (sym (ap (λ o. match_words (w ∷ []) (after_spaces o)) rest) ∙ h))
  | inr other ↦
      let rest : after_word (c ∷ v) (d ∷ s) ≡ none = rw other refl in
      cc (nowhere w, ap (λ o. match_words (w ∷ []) (after_spaces o)) rest, h)
]

-- A pattern of two words is found only where the second one is.
search_second : (v w : String) (s : Text) → search (v ∷ w ∷ []) s ≡ true → search (w ∷ []) s ≡ true
unfolding search match_words
search_second v w [] h = behind_word (codes v) w [] h
search_second v w (c ∷ s) h = elim (Bool-cases (match_words (v ∷ w ∷ []) (some (c ∷ s)))) [
  | inl here ↦ behind_word (codes v) w (c ∷ s) here
  | inr later ↦ search_later w c s (search_second v w s (ground (arith, h, later)))
]

never_second :
    (s : Text)
    → search ("accettazione:" ∷ []) s ≡ false
    → search ("non" ∷ "accettazione:" ∷ []) s ≡ false
never_second s absent = elim (Bool-cases (search ("non" ∷ "accettazione:" ∷ []) s)) [
  | inl there ↦ cc (absent, search_second "non" "accettazione:" s there)
  | inr not_there ↦ not_there
]

subject_never : (s : Text) → of_subject s receipt_subject_patterns ≢ some non_accettazione
unfolding of_subject
subject_never s h = elim (Bool-cases (search ("accettazione:" ∷ []) (lower s))) [
  | inl first ↦
      let e : of_subject s receipt_subject_patterns ≡ some accettazione = rw first refl in cc (e, h)
  | inr absent ↦ ground (arith, absent, never_second (lower s) absent, h)
]

header_only :
    (subject : Text) (o : Option PecReceiptType)
    → (or_subject o subject ≡ some non_accettazione) ↔ (o ≡ some non_accettazione)
unfolding or_subject
header_only subject none = (λ h. absurd (subject_never subject h), λ h. cc)
header_only subject (some kind) = (λ h. h, λ h. h)

-- A receipt is taken for a refusal (`non_accettazione`) exactly if its header says so: the subject never
-- does, since a subject of a refusal is matched by the pattern for an acceptance first.
pub detect_refusal :
    (x_ricevuta subject : Text)
    → (detect_receipt_type x_ricevuta subject ≡ some non_accettazione)
      ↔ (of_map (strip (lower x_ricevuta)) receipt_type_map ≡ some non_accettazione)
unfolding detect_receipt_type
detect_refusal x_ricevuta subject =
    header_only subject (of_map (strip (lower x_ricevuta)) receipt_type_map)
