-- ===== src/Smtp/RateLimiter/Trace.antt =====
-- Every sequence of calls on the limiter keeps an account within its limits.
use genro_mail_proxy.Prelude.{
  ℕ, ◌≤◌, ◌<◌, String, ◌≡◌, sym, false, Option, none, some, arith, inl, inr, Bool-cases, eq_iff,
  ◌==ˢ◌,
}
use mathlib.Core.Path.{subst}
use genro_mail_proxy.Prelude.Dict
use genro_mail_proxy.Smtp.RateLimiter.{
  Account, RateLimiter, window_minute, window_hour, window_day, lim, exceeded, count_since, history,
  slots, init, plan, check_and_plan, release_slot, log_send, purge_for_account,
}
use genro_mail_proxy.Smtp.RateLimiter.Limits.{
  load, Under, Under-mono, load-release, load-log_send, load-purge, check_Under, load-check_ne,
  Granted_room,
}

-- One call, at a time that is not before the last one. The environment keeps the account's settings,
-- and logs a send of this account only if the send holds a slot.
pub data Step (acc : Account) (r : RateLimiter) (now : ℕ) : RateLimiter → ℕ → Type 0 where
  check :
      (c : Account) (t : ℕ)
      → now ≤ t
      → (c.id ≡ acc.id → c ≡ acc)
      → Step acc r now (check_and_plan r c t).1 t
  log :
      (a : String) (t : ℕ)
      → now ≤ t
      → (a ≡ acc.id → 0 < slots r a)
      → Step acc r now (log_send r a t) t
  release : (a : String) (t : ℕ) → now ≤ t → Step acc r now (release_slot r a) t
  purge : (a : String) (t : ℕ) → now ≤ t → Step acc r now (purge_for_account r a).1 t

pub data Reach (acc : Account) : RateLimiter → ℕ → Type 0 where
  start : (now : ℕ) → Reach acc init now
  next : {r s : RateLimiter} {now t : ℕ} → Reach acc r now → Step acc r now s t → Reach acc s t

-- The account's load in one window is at most its limit, now and at any later time.
abbrev InWindow : ℕ → Option ℕ → String → RateLimiter → ℕ → Type 0
InWindow w limit a r now = (t : ℕ) → now ≤ t → Under limit (load w r a t)

abbrev pub IsWithin : Account → RateLimiter → ℕ → Type 0
IsWithin acc r now =
    InWindow window_minute (lim acc.limit_per_minute) acc.id r now
    × InWindow window_hour (lim acc.limit_per_hour) acc.id r now
    × InWindow window_day (lim acc.limit_per_day) acc.id r now

-- A window whose limit every granted call of the account respects.
abbrev Guarded : ℕ → Option ℕ → Account → Type 0
Guarded w limit acc =
    (s : RateLimiter) (now : ℕ)
    → (plan s acc now).0.0 ≡ none
    → exceeded limit (count_since s acc.id w now) (slots s acc.id) ≡ false

Step-InWindow :
    (w : ℕ) (limit : Option ℕ) (acc : Account)
    → Guarded w limit acc
    → {r s : RateLimiter} {now t : ℕ} → InWindow w limit acc.id r now
    → Step acc r now s t
    → InWindow w limit acc.id s t
Step-InWindow w limit acc guarded {r} h (check c t later same) u le =
    elim (Bool-cases (c.id ==ˢ acc.id)) [
      | inl own ↦
          subst (λ k. Under limit (load w (check_and_plan r k t).1 acc.id u))
            (sym (same ((eq_iff c.id acc.id).0 own)))
            (check_Under w limit r acc t u le (λ s. guarded s t) (h u (omega arith)))
      | inr other ↦
          Under-mono limit (load w (check_and_plan r c t).1 acc.id u) (load w r acc.id u)
            (load-check_ne w r c acc.id u t (ground (arith, eq_iff c.id acc.id)))
            (h u (omega arith))
    ]
Step-InWindow w limit acc guarded {r} h (log a t later held) u le =
    Under-mono limit (load w (log_send r a t) acc.id u) (load w r acc.id u)
      (load-log_send w r a acc.id u t held) (h u (omega arith))
Step-InWindow w limit acc guarded {r} h (release a t later) u le =
    Under-mono limit (load w (release_slot r a) acc.id u) (load w r acc.id u)
      (load-release w r a acc.id u t) (h u (omega arith))
Step-InWindow w limit acc guarded {r} h (purge a t later) u le =
    Under-mono limit (load w (purge_for_account r a).1 acc.id u) (load w r acc.id u)
      (load-purge w r a acc.id u t) (h u (omega arith))

Step-IsWithin :
    (acc : Account) {r s : RateLimiter} {now t : ℕ}
    → IsWithin acc r now
    → Step acc r now s t
    → IsWithin acc s t
Step-IsWithin acc h step = (
  Step-InWindow window_minute (lim acc.limit_per_minute) acc
      (λ s now g. (Granted_room s acc now g).0) h.0 step,
  Step-InWindow window_hour (lim acc.limit_per_hour) acc (λ s now g. (Granted_room s acc now g).1)
      h.1 step,
  Step-InWindow window_day (lim acc.limit_per_day) acc (λ s now g. (Granted_room s acc now g).2) h.2
      step,
)

InWindow-init : (w : ℕ) (limit : Option ℕ) (a : String) (now : ℕ) → InWindow w limit a init now
unfolding history slots Dict.lookup
InWindow-init w none a now t le = tt
InWindow-init w (some l) a now t le = omega arith

-- After any calls, in any order and for any accounts, the sends of an account that a window of a
-- minute, an hour or a day holds, together with the slots reserved for its sends under way, are at
-- most the limit configured for that window: at the time of the last call and at every later time.
-- The calls come in the order of their times, the account's settings stay the same, and a send of
-- the account is logged only while a slot is reserved for it.
pub Reach-IsWithin :
    (acc : Account) {r : RateLimiter} {now : ℕ} → Reach acc r now → IsWithin acc r now
Reach-IsWithin acc (start now) = (
  InWindow-init window_minute (lim acc.limit_per_minute) acc.id now,
  InWindow-init window_hour (lim acc.limit_per_hour) acc.id now,
  InWindow-init window_day (lim acc.limit_per_day) acc.id now,
)
Reach-IsWithin acc (next reached step) = Step-IsWithin acc (Reach-IsWithin acc reached) step
