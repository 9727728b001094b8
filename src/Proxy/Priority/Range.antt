-- ===== src/Proxy/Priority/Range.antt =====
-- The range of a priority, and its two names.
use genro_mail_proxy.Prelude.{ℕ, ◌≤◌, ◌≡◌, refl, arith, zero, suc, some, ap}
use genro_mail_proxy.Prelude.Int.{ℤ, pos, negsuc}
use genro_mail_proxy.Prelude.Json.{Json, num}
use genro_mail_proxy.Prelude.Text.{text_eq}
use genro_mail_proxy.Proxy.Priority.{
  fallback_priority, clamp, priority_of, priority_label, label_to_priority, normalise_priority,
}

clamp_le : (n : ℤ) → clamp n ≤ 3
unfolding clamp
clamp_le (pos n) = ground arith
clamp_le (negsuc n) = omega arith

label_of : (p : ℕ) → p ≤ 3 → label_to_priority (priority_label p) ≡ some p
unfolding label_to_priority priority_label text_eq
label_of zero le = refl
label_of (suc zero) le = refl
label_of (suc (suc zero)) le = refl
label_of (suc (suc (suc zero))) le = refl
label_of (suc (suc (suc (suc p)))) le = absurd (omega arith)

clamp_same : (p : ℕ) → p ≤ 3 → clamp (pos p) ≡ p
unfolding clamp
clamp_same p le = ground arith

-- A normalised priority is one of the four, whatever the value and the default are; its label names the
-- same priority; and a priority that is normalised again stays as it is, with any default.
normalise_priority_lem :
    (value default other : Json)
    → ((normalise_priority value default).0 ≤ 3)
      × (label_to_priority (normalise_priority value default).1
          ≡ some (normalise_priority value default).0)
      × (normalise_priority (num (pos (normalise_priority value default).0)) other
          ≡ normalise_priority value default)
unfolding normalise_priority priority_of
normalise_priority_lem value default other =
    let n = priority_of value (fallback_priority default) in
    (
      clamp_le n,
      label_of (clamp n) (clamp_le n),
      ap (λ p. (p, priority_label p)) (clamp_same (clamp n) (clamp_le n)),
    )
