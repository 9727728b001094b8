-- ===== src/Smtp/RateLimiter/Window.antt =====
-- How the number of recent sends moves with time, with a send and with the clean-up.
use genro_mail_proxy.Prelude.{
  ℕ, ◌+◌, ◌≤◌, ◌≡◌, refl, List, [], ◌∷◌, ◌++◌, arith, ltb, count-append, count_mono,
}
use genro_mail_proxy.Smtp.RateLimiter.{recent, pop_old, window_day}

module _ (w : ℕ) where
  -- As time passes sends only leave the window.
  pub recent_mono : (t t' : ℕ) (h : List ℕ) → t ≤ t' → recent w t' h ≤ recent w t h
  recent_mono t t' h le =
      count_mono (λ ts. ltb t' (ts + w)) (λ ts. ltb t (ts + w)) (λ ts p. ground arith) h

  -- One send adds at most one.
  pub recent-snoc : (t now : ℕ) (h : List ℕ) → recent w t (h ++ now ∷ []) ≤ recent w t h + 1
  recent-snoc t now h = ground (arith, count-append (λ ts. ltb t (ts + w)) h (now ∷ []))

  -- The clean-up adds nothing.
  pub recent-pop_old-le : (t now : ℕ) (h : List ℕ) → recent w t (pop_old now h) ≤ recent w t h
  unfolding pop_old
  recent-pop_old-le t now [] = omega arith
  recent-pop_old-le t now (ts ∷ h) = ground (arith, recent-pop_old-le t now h)

  -- The clean-up takes nothing that a window of at most a day still sees.
  pub recent-pop_old :
      (t now : ℕ) (h : List ℕ)
      → w ≤ window_day
      → now ≤ t
      → recent w t (pop_old now h) ≡ recent w t h
  unfolding pop_old
  recent-pop_old t now [] short le = refl
  recent-pop_old t now (ts ∷ h) short le = ground (arith, recent-pop_old t now h short le)
