-- ===== src/Queue/Suspension/Codes.antt =====
-- Sets of batch codes as lists, and as texts with commas between them.
use genro_mail_proxy.Prelude.{
  ℕ, ◌≡◌, refl, ap, ◌∙◌, true, false, ◌&&◌, ◌||◌, not, inl, inr, List, [], ◌∷◌, ◌++◌, arith, ◌==◌,
  any, filter, All, Bool-cases,
}
use genro_mail_proxy.Prelude.Text.{Text, text_eq, extend_first, split, join}
use genro_mail_proxy.Queue.Suspension.{has_code, add_code, code_set, discard}
use genro_mail_proxy.Queue.Fetch.Sort.{leb_text}

pub text_eq_sound : (s t : Text) → text_eq s t ≡ true → s ≡ t
unfolding text_eq
text_eq_sound [] [] h = refl
text_eq_sound [] (d ∷ t) h = cc
text_eq_sound (c ∷ s) [] h = cc
text_eq_sound (c ∷ s) (d ∷ t) h = ground (arith, text_eq_sound s t)

pub text_eq_refl : (s : Text) → text_eq s s ≡ true
unfolding text_eq
text_eq_refl [] = refl
text_eq_refl (c ∷ s) = ground (arith, text_eq_refl s)

pub text_eq_sym : (s t : Text) → text_eq s t ≡ text_eq t s
unfolding text_eq
text_eq_sym [] [] = refl
text_eq_sym [] (d ∷ t) = refl
text_eq_sym (c ∷ s) [] = refl
text_eq_sym (c ∷ s) (d ∷ t) = ground (arith, text_eq_sym s t)

-- A text without a comma.
abbrev pub IsClean : Text → Type 0
IsClean s = any (λ c. c == b',') s ≡ false

split-clean : (p : Text) → IsClean p → split b',' p ≡ p ∷ []
unfolding split
split-clean [] h = refl
split-clean (c ∷ p) h = ground (arith, split-clean p, h)

split-append : (p s : Text) → IsClean p → split b',' (p ++ b',' ∷ s) ≡ p ∷ split b',' s
unfolding split
split-append [] s h = refl
split-append (c ∷ p) s h = ground (arith, split-append p s, h)

-- What was joined is split again.
pub split-join :
    (p : Text) (ps : List Text)
    → All IsClean (p ∷ ps)
    → split b',' (join (b',' ∷ []) (p ∷ ps)) ≡ p ∷ ps
unfolding join
split-join p [] h = split-clean p h.0
split-join p (q ∷ ps) h =
    split-append p (join (b',' ∷ []) (q ∷ ps)) h.0 ∙ ap (λ r. p ∷ r) (split-join q ps h.1)

extend_first-IsClean :
    (c : ℕ) (ps : List Text)
    → (c == b',') ≡ false
    → All IsClean ps
    → All IsClean (extend_first c ps)
extend_first-IsClean c [] h a = (ground (arith, h), tt)
extend_first-IsClean c (p ∷ ps) h a = (ground (arith, h, a.0), a.1)

pub split-IsClean : (s : Text) → All IsClean (split b',' s)
unfolding split
split-IsClean [] = (refl, tt)
split-IsClean (c ∷ s) = elim (Bool-cases (c == b',')) [
  | inl same ↦ rw same (refl, split-IsClean s)
  | inr other ↦ rw other (extend_first-IsClean c (split b',' s) other (split-IsClean s))
]

pub add_code-IsClean :
    (c : Text) (ps : List Text) → IsClean c → All IsClean ps → All IsClean (add_code c ps)
unfolding add_code
add_code-IsClean c [] h a = (h, tt)
add_code-IsClean c (p ∷ ps) h a = elim (Bool-cases (text_eq p c)) [
  | inl same ↦ rw same a
  | inr other ↦ elim (Bool-cases (leb_text c p)) [
    | inl first ↦ rw (other, first) (h, a)
    | inr later ↦ rw (other, later) (a.0, add_code-IsClean c ps h a.1)
  ]
]

pub code_set-IsClean : (ps : List Text) → All IsClean ps → All IsClean (code_set ps)
unfolding code_set
code_set-IsClean [] a = tt
code_set-IsClean (p ∷ ps) a = add_code-IsClean p (code_set ps) a.0 (code_set-IsClean ps a.1)

pub discard-IsClean : (c : Text) (ps : List Text) → All IsClean ps → All IsClean (discard c ps)
unfolding discard
discard-IsClean c [] a = tt
discard-IsClean c (p ∷ ps) a = elim (Bool-cases (not (text_eq p c))) [
  | inl kept ↦ rw (kept, filter) (a.0, discard-IsClean c ps a.1)
  | inr gone ↦ rw (gone, filter) (discard-IsClean c ps a.1)
]

module _ (x : Text) where
  pub has_code-add_code :
      (c : Text) (ps : List Text) → has_code x (add_code c ps) ≡ (text_eq c x || has_code x ps)
  unfolding has_code add_code
  has_code-add_code c [] = ground arith
  has_code-add_code c (p ∷ ps) = ground (arith, has_code-add_code c ps, text_eq_sound p c)

  has_code-cons :
      (p : Text) (ps qs : List Text)
      → has_code x ps ≡ has_code x qs
      → (text_eq p x || has_code x ps) ≡ has_code x (p ∷ qs)
  unfolding has_code
  has_code-cons p ps qs h = ground (arith, h)

  pub has_code-code_set : (ps : List Text) → has_code x (code_set ps) ≡ has_code x ps
  unfolding code_set
  has_code-code_set [] = refl
  has_code-code_set (p ∷ ps) =
      has_code-add_code p (code_set ps) ∙ has_code-cons p (code_set ps) ps (has_code-code_set ps)

  pub has_code-discard :
      (c : Text) (ps : List Text) → has_code x (discard c ps) ≡ (has_code x ps && not (text_eq c x))
  unfolding has_code discard
  has_code-discard c [] = refl
  has_code-discard c (p ∷ ps) = ground (
    arith,
    has_code-discard c ps,
    text_eq_sound p c,
    text_eq_sound p x,
    text_eq_sound c x,
    text_eq_refl c,
    text_eq_refl p,
  )
