-- ===== src/Queue/Suspension/Effect/Columns.antt =====
-- The column of suspended batches, by the set that it stores.
use mathlib.Core.Path.{subst}
use genro_mail_proxy.Prelude.{
  ℕ, ◌≡◌, refl, sym, ap, ◌∙◌, Bool, true, false, ◌||◌, inl, inr, Option, none, some, List, [], ◌∷◌,
  arith, if◌then◌else◌, All, Bool-cases,
}
use genro_mail_proxy.Prelude.Text.{Text, text_eq, is_star, split, join}
use genro_mail_proxy.Queue.Suspension.{
  has_code, add_code, code_set, stored_batches, is_batch_suspended, suspended_value,
}
use genro_mail_proxy.Queue.Fetch.Sort.{leb_text}
use genro_mail_proxy.Queue.Suspension.Codes.{
  text_eq_sound, text_eq_refl, text_eq_sym, IsClean, split-join, split-IsClean, code_set-IsClean,
  discard-IsClean, has_code-add_code, has_code-code_set, has_code-discard,
}

-- Every batch is suspended.
abbrev pub all_suspended : Option Text → Bool
all_suspended none = false
all_suspended (some s) = is_star s

pub stored_batches-IsClean : (o : Option Text) → All IsClean (stored_batches o)
unfolding stored_batches
stored_batches-IsClean none = tt
stored_batches-IsClean (some []) = tt
stored_batches-IsClean (some (c ∷ s)) =
    discard-IsClean [] (code_set (split b',' (c ∷ s)))
      (code_set-IsClean (split b',' (c ∷ s)) (split-IsClean (c ∷ s)))

pub split_joined :
    (ps : List Text) (p : Text) (qs : List Text)
    → ps ≡ p ∷ qs
    → All IsClean ps
    → split b',' (join (b',' ∷ []) ps) ≡ ps
split_joined ps p qs shape clean =
    subst (λ rs. All IsClean rs → split b',' (join (b',' ∷ []) rs) ≡ rs) (sym shape)
      (split-join p qs) clean

-- A joined column says `*` only if that is one of the codes.
pub joined_star :
    (ps : List Text) (p : Text) (qs : List Text)
    → ps ≡ p ∷ qs
    → All IsClean ps
    → is_star (join (b',' ∷ []) ps) ≡ true
    → ps ≡ (b'*' ∷ []) ∷ []
joined_star ps p qs shape clean star =
    sym (split_joined ps p qs shape clean)
    ∙ ap (split b',') (text_eq_sound (join (b',' ∷ []) ps) (b'*' ∷ []) star)
    ∙ (unfold split in refl)

pub add_code_shape :
    (c : Text) (ps : List Text) → (p : Text) × (qs : List Text) × (add_code c ps ≡ p ∷ qs)
unfolding add_code
add_code_shape c [] = (c, [], refl)
add_code_shape c (p ∷ ps) = elim (Bool-cases (text_eq p c)) [
  | inl same ↦ (p, ps, rw same refl)
  | inr other ↦ elim (Bool-cases (leb_text c p)) [
    | inl first ↦ (c, p ∷ ps, rw (other, first) refl)
    | inr later ↦ (p, add_code c ps, rw (other, later) refl)
  ]
]

pub alone : (c : Text) → has_code c ((b'*' ∷ []) ∷ []) ≡ is_star c
unfolding has_code
alone c = ground (arith, text_eq_sym (b'*' ∷ []) c)

-- The code that was added is no `*`, so the column says no `*`.
pub added_star :
    (c : Text) (ps : List Text)
    → is_star c ≡ false
    → All IsClean (add_code c ps)
    → is_star (join (b',' ∷ []) (add_code c ps)) ≡ false
added_star c ps plain clean = elim (Bool-cases (is_star (join (b',' ∷ []) (add_code c ps)))) [
  | inr plainly ↦ plainly
  | inl star ↦
      let shape = add_code_shape c ps in
      let only = joined_star (add_code c ps) shape.0 shape.1 shape.2 clean star in
      cc (only, has_code-add_code c c ps, text_eq_refl c, plain, alone c)
]

module _ (d : ℕ) (x : Text) where
  -- The column's test, for a code that is not empty, by the set that the column stores.
  pub suspended_iff_stored :
      (o : Option Text)
      → is_batch_suspended o (some (d ∷ x))
        ≡ (all_suspended o || has_code (d ∷ x) (stored_batches o))
  unfolding is_batch_suspended stored_batches
  suspended_iff_stored none = unfold has_code in refl
  suspended_iff_stored (some []) = unfold has_code text_eq in refl
  suspended_iff_stored (some (c ∷ s)) = ground (
    arith,
    has_code-discard (d ∷ x) [] (code_set (split b',' (c ∷ s))),
    has_code-code_set (d ∷ x) (split b',' (c ∷ s)),
    text_eq_sound [] (d ∷ x),
  )

  pub suspended_text :
      (s : Text)
      → is_batch_suspended (some s) (some (d ∷ x)) ≡ (is_star s || has_code (d ∷ x) (split b',' s))
  unfolding is_batch_suspended
  suspended_text [] = unfold has_code split text_eq in refl
  suspended_text (c ∷ s) = refl

  -- The test on a column that was joined of codes without commas.
  pub suspended_joined :
      (ps : List Text) (p : Text) (qs : List Text)
      → ps ≡ p ∷ qs
      → All IsClean ps
      → is_star (join (b',' ∷ []) ps) ≡ false
      → is_batch_suspended (some (join (b',' ∷ []) ps)) (some (d ∷ x)) ≡ has_code (d ∷ x) ps
  suspended_joined ps p qs shape clean star =
      suspended_text (join (b',' ∷ []) ps) ∙ cc (star, split_joined ps p qs shape clean)

pub or_true : (b : Bool) → (b || true) ≡ true
or_true b = ground arith

pub suspended_value-cases :
    (current : Option Text) (code : Text)
    → suspended_value current (some code) ≡ (
        if all_suspended current
        then current
        else some (join (b',' ∷ []) (add_code code (stored_batches current))))
unfolding suspended_value
suspended_value-cases none code = refl
suspended_value-cases (some s) code = refl
