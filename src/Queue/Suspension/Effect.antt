-- ===== src/Queue/Suspension/Effect.antt =====
-- What a suspension and an activation of one batch change.
mod Columns
pub use Columns.*
use mathlib.Core.Path.{subst}
use genro_mail_proxy.Prelude.{
  ℕ, ◌≡◌, refl, sym, ap, ◌∙◌, Bool, true, false, ◌&&◌, ◌||◌, not, inl, inr, Option, none, some,
  List, [], ◌∷◌, arith, if◌then◌else◌, All, Bool-cases,
}
use genro_mail_proxy.Prelude.Text.{Text, text_eq, is_star, split, join}
use genro_mail_proxy.Queue.Suspension.{
  has_code, add_code, code_set, discard, stored_batches, is_batch_suspended, suspended_value,
  activated_value, joined_or_none,
}
use genro_mail_proxy.Queue.Fetch.Sort.{leb_text}
use genro_mail_proxy.Queue.Suspension.Codes.{
  text_eq_sound, text_eq_refl, text_eq_sym, IsClean, split-join, split-IsClean, add_code-IsClean,
  code_set-IsClean, discard-IsClean, has_code-add_code, has_code-code_set, has_code-discard,
}

-- After a batch is suspended, its code is suspended and every other code is as it was. The code that
-- is suspended has no comma and is not `*`, and the code that is asked for is not empty.
pub suspended_value_lem :
    (current : Option Text) (code : Text) (d : ℕ) (x : Text)
    → IsClean code
    → is_star code ≡ false
    → is_batch_suspended (suspended_value current (some code)) (some (d ∷ x))
      ≡ (text_eq code (d ∷ x) || is_batch_suspended current (some (d ∷ x)))
suspended_value_lem current code d x clean plain = elim (Bool-cases (all_suspended current)) [
  | inl all ↦
      rw (suspended_value-cases current code, all)
        (cc (suspended_iff_stored d x current, all, or_true (text_eq code (d ∷ x))))
  | inr some_only ↦
      let shape = add_code_shape code (stored_batches current) in
      let fine =
        add_code-IsClean code (stored_batches current) clean (stored_batches-IsClean current) in
      rw (suspended_value-cases current code, some_only)
        (suspended_joined d x (add_code code (stored_batches current)) shape.0 shape.1 shape.2 fine
            (added_star code (stored_batches current) plain fine)
          ∙ cc (
            has_code-add_code (d ∷ x) code (stored_batches current),
            suspended_iff_stored d x current,
            some_only,
          ))
]

joined_or_none-cons :
    (ps : List Text) (p : Text) (qs : List Text)
    → ps ≡ p ∷ qs
    → joined_or_none ps ≡ some (join (b',' ∷ []) ps)
joined_or_none-cons ps p qs shape =
    subst (λ rs. joined_or_none rs ≡ some (join (b',' ∷ []) rs)) (sym shape) refl

activated_value-cases :
    (current : Option Text) (code : Text)
    → activated_value current (some code) ≡ (
        if all_suspended current
        then (false, current)
        else (true, joined_or_none (discard code (stored_batches current))))
unfolding activated_value
activated_value-cases none code = refl
activated_value-cases (some s) code = refl

rest_star :
    (p : Text) (ps : List Text)
    → All IsClean (p ∷ ps)
    → has_code (b'*' ∷ []) (p ∷ ps) ≡ false
    → is_star (join (b',' ∷ []) (p ∷ ps)) ≡ false
rest_star p ps clean absent = elim (Bool-cases (is_star (join (b',' ∷ []) (p ∷ ps)))) [
  | inr plainly ↦ plainly
  | inl star ↦ cc (
    joined_star (p ∷ ps) p ps refl clean star,
    absent,
    alone (b'*' ∷ []),
    text_eq_refl (b'*' ∷ []),
  )
]

module _ (d : ℕ) (x : Text) where
  suspended_rest :
      (ps : List Text)
      → All IsClean ps
      → has_code (b'*' ∷ []) ps ≡ false
      → is_batch_suspended (joined_or_none ps) (some (d ∷ x)) ≡ has_code (d ∷ x) ps
  suspended_rest [] clean star = unfold is_batch_suspended has_code in refl
  suspended_rest (p ∷ ps) clean star =
      suspended_joined d x (p ∷ ps) p ps refl clean (rest_star p ps clean star)

-- After a batch is activated, its code is not suspended and every other code is as it was, unless all
-- batches are suspended: then the call is refused and changes nothing. The column does not list `*`
-- beside other codes.
activated_value_lem :
    (current : Option Text) (code : Text) (d : ℕ) (x : Text)
    → has_code (b'*' ∷ []) (stored_batches current) ≡ all_suspended current
    → ((activated_value current (some code)).0 ≡ not (all_suspended current))
      × (is_batch_suspended (activated_value current (some code)).1 (some (d ∷ x)) ≡ (
          if all_suspended current
          then is_batch_suspended current (some (d ∷ x))
          else is_batch_suspended current (some (d ∷ x)) && not (text_eq code (d ∷ x))))
activated_value_lem current code d x star = elim (Bool-cases (all_suspended current)) [
  | inl all ↦ rw (activated_value-cases current code, all) (refl, refl)
  | inr some_only ↦
      let left = discard code (stored_batches current) in
      rw (activated_value-cases current code, some_only)
        (
          refl,
          suspended_rest d x left
                (discard-IsClean code (stored_batches current) (stored_batches-IsClean current))
                (cc (has_code-discard (b'*' ∷ []) code (stored_batches current), star, some_only))
              ∙ cc (
                has_code-discard (d ∷ x) code (stored_batches current),
                suspended_iff_stored d x current,
                some_only,
              ),
        )
]
