-- ===== src/Smtp/RateLimiter/Limits.antt =====
-- The limits hold over every window of time, whatever the order of the calls.
use genro_mail_proxy.Prelude.{
  ℕ, ◌+◌, ◌≤◌, ◌<◌, String, ◌≡◌, ap, false, Option, none, some, arith, eq_iff, eq_refl, leb, ◌≢◌,
  Bool-cases, inl, inr, Option-cases,
}
use genro_mail_proxy.Prelude.Dict
use genro_mail_proxy.Smtp.RateLimiter.{
  Account, RateLimiter, window_minute, window_hour, window_day, lim, history, slots, recent,
  count_since, exceeded, cleanup_old_entries, plan, check_and_plan, unlimited, release_slot,
  log_send, purge_for_account,
}
use genro_mail_proxy.Smtp.RateLimiter.Fields.{
  history-cleanup, slots-cleanup, slots-release, history-release, slots-log_send, history-log_send,
  slots-purge, history-purge,
}
use genro_mail_proxy.Smtp.RateLimiter.Window.{recent_mono, recent-snoc, recent-pop_old-le}

-- Sends of the window that ends at `t`, with the slots that are reserved for sends under way.
abbrev pub load : ℕ → RateLimiter → String → ℕ → ℕ
load w r a t = recent w t (history r a) + slots r a

abbrev pub Under : Option ℕ → ℕ → Type 0
Under none n = Unit
Under (some limit) n = n ≤ limit

pub Under-mono : (o : Option ℕ) (m n : ℕ) → m ≤ n → Under o n → Under o m
Under-mono none m n le h = tt
Under-mono (some l) m n le h = omega arith

module _ (w : ℕ) (r : RateLimiter) (a b : String) (t now : ℕ) where
  pub load-cleanup : load w (cleanup_old_entries r a now) b t ≤ load w r b t
  load-cleanup = ground (
    arith,
    history-cleanup r a b now,
    slots-cleanup r a b now,
    recent-pop_old-le w t now (history r b),
  )

  pub load-release : load w (release_slot r a) b t ≤ load w r b t
  load-release = ground (arith, history-release r a b now, slots-release r a b now)

  -- A send that had a slot moves from the slots to the history.
  pub load-log_send : (a ≡ b → 0 < slots r a) → load w (log_send r a now) b t ≤ load w r b t
  load-log_send held = ground (
    arith,
    history-log_send r a b now,
    slots-log_send r a b now,
    recent-snoc w t now (history r b),
    eq_iff a b,
    held,
  )

  pub load-purge : load w (purge_for_account r a).1 b t ≤ load w r b t
  load-purge = ground (arith, history-purge r a b now, slots-purge r a b now)

module _ (r : RateLimiter) (acc : Account) (b : String) (now : ℕ) where
  history-plan : history (plan r acc now).1 b ≡ history r b
  unfolding plan
  history-plan = ground arith

  slots-plan_ne : acc.id ≢ b → slots (plan r acc now).1 b ≡ slots r b
  unfolding plan
  slots-plan_ne ne =
      ground (arith, eq_iff acc.id b, Dict.lookup-insert acc.id b (slots r acc.id + 1) r.in_flight)

  slots-plan_le : slots (plan r acc now).1 acc.id ≤ slots r acc.id + 1
  unfolding plan
  slots-plan_le =
      ground
        (arith, eq_refl acc.id, Dict.lookup-insert acc.id acc.id (slots r acc.id + 1) r.in_flight)

  -- A call that is deferred reserves nothing.
  slots-plan_deferred :
      (d : ℕ) → (plan r acc now).0.0 ≡ some d → slots (plan r acc now).1 acc.id ≡ slots r acc.id
  unfolding plan
  slots-plan_deferred d e = ground arith

-- A call that is granted found room under every limit.
pub Granted_room :
    (r : RateLimiter) (acc : Account) (now : ℕ)
    → (plan r acc now).0.0 ≡ none
    → (exceeded (lim acc.limit_per_minute) (count_since r acc.id window_minute now) (slots r acc.id)
        ≡ false)
      × (exceeded (lim acc.limit_per_hour) (count_since r acc.id window_hour now) (slots r acc.id)
          ≡ false)
      × (exceeded (lim acc.limit_per_day) (count_since r acc.id window_day now) (slots r acc.id)
          ≡ false)
unfolding plan
Granted_room r acc now e = ground arith

under_of_room : (l n : ℕ) → leb l n ≡ false → n < l
under_of_room l n h = ground arith

-- A window within its limit stays so when a call for the account itself is granted or deferred.
plan-Under :
    (w : ℕ) (limit : Option ℕ) (r : RateLimiter) (acc : Account) (now t : ℕ)
    → now ≤ t
    → ((plan r acc now).0.0 ≡ none
        → exceeded limit (count_since r acc.id w now) (slots r acc.id) ≡ false)
    → Under limit (load w r acc.id t)
    → Under limit (load w (plan r acc now).1 acc.id t)
unfolding exceeded count_since
plan-Under w none r acc now t le room h = tt
plan-Under w (some l) r acc now t le room h = elim (Option-cases (plan r acc now).0.0) [
  | inl granted ↦ omega (
    arith,
    ap (recent w t) (history-plan r acc acc.id now),
    slots-plan_le r acc acc.id now,
    under_of_room l (recent w now (history r acc.id) + slots r acc.id) (room granted),
    recent_mono w now t (history r acc.id) le,
  )
  | inr deferred ↦ omega (
    arith,
    ap (recent w t) (history-plan r acc acc.id now),
    slots-plan_deferred r acc acc.id now deferred.0 deferred.1,
  )
]

-- The clean-up changes no count that a check reads, since it runs first.
pub check_Under :
    (w : ℕ) (limit : Option ℕ) (r : RateLimiter) (acc : Account) (now t : ℕ)
    → now ≤ t
    → ((s : RateLimiter)
        → (plan s acc now).0.0 ≡ none
        → exceeded limit (count_since s acc.id w now) (slots s acc.id) ≡ false)
    → Under limit (load w r acc.id t)
    → Under limit (load w (check_and_plan r acc now).1 acc.id t)
unfolding check_and_plan
check_Under w limit r acc now t le room h = elim (Bool-cases (unlimited acc)) [
  | inl free ↦ rw free h
  | inr limited ↦ rw limited (
      plan-Under w limit (cleanup_old_entries r acc.id now) acc now t le
        (room (cleanup_old_entries r acc.id now))
        (Under-mono limit (load w (cleanup_old_entries r acc.id now) acc.id t) (load w r acc.id t)
          (load-cleanup w r acc.id acc.id t now) h))
]

-- A call for another account adds nothing.
pub load-check_ne :
    (w : ℕ) (r : RateLimiter) (acc : Account) (b : String) (t now : ℕ)
    → acc.id ≢ b
    → load w (check_and_plan r acc now).1 b t ≤ load w r b t
unfolding check_and_plan
load-check_ne w r acc b t now ne = elim (Bool-cases (unlimited acc)) [
  | inl free ↦ rw free (omega arith)
  | inr limited ↦ rw limited (
      omega (
        arith,
        ap (recent w t) (history-plan (cleanup_old_entries r acc.id now) acc b now),
        slots-plan_ne (cleanup_old_entries r acc.id now) acc b now ne,
        load-cleanup w r acc.id b t now,
      ))
]
