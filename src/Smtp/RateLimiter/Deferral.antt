-- ===== src/Smtp/RateLimiter/Deferral.antt =====
-- What `check_and_plan` decides, and what its answer says.
use genro_mail_proxy.Prelude.{
  ℕ, ◌+◌, ◌≤◌, ◌<◌, String, ◌≡◌, ◌↔◌, ap, ◌∙◌, refl, true, false, Option, none, some, arith, inl,
  inr, Bool-cases, eq_iff, eq_refl, ◌==ˢ◌, get_or, if◌then◌else◌, not, ◌&&◌,
}
use genro_mail_proxy.Prelude.Dict
use genro_mail_proxy.Smtp.RateLimiter.{
  Account, RateLimiter, window_minute, window_hour, window_day, lim, history, slots, boundary,
  cleanup_old_entries, plan, check_and_plan, unlimited, release_slot,
}
use genro_mail_proxy.Smtp.RateLimiter.Fields.{history-cleanup, slots-cleanup, slots-release}
use genro_mail_proxy.Smtp.RateLimiter.Window.{recent-pop_old, recent_mono}
use genro_mail_proxy.Smtp.RateLimiter.Limits.{load}

-- There is room for one more send.
abbrev pub Room : Option ℕ → ℕ → Type 0
Room none n = Unit
Room (some limit) n = n < limit

-- Every configured window has room.
abbrev pub HasRoom : RateLimiter → Account → ℕ → Type 0
HasRoom r acc now =
    Room (lim acc.limit_per_minute) (load window_minute r acc.id now)
    × Room (lim acc.limit_per_hour) (load window_hour r acc.id now)
    × Room (lim acc.limit_per_day) (load window_day r acc.id now)

-- The clean-up leaves the load of every window as it is.
load-cleanup_self :
    (w : ℕ) (r : RateLimiter) (a : String) (now t : ℕ)
    → w ≤ window_day
    → now ≤ t
    → load w (cleanup_old_entries r a now) a t ≡ load w r a t
load-cleanup_self w r a now t short le = ground (
  arith,
  history-cleanup r a a now,
  slots-cleanup r a a now,
  eq_refl a,
  recent-pop_old w t now (history r a) short le,
)

plan_decision :
    (r : RateLimiter) (acc : Account) (now : ℕ) → ((plan r acc now).0.0 ≡ none) ↔ HasRoom r acc now
unfolding plan
plan_decision r acc now = (ground arith, ground arith)

HasRoom-cleanup :
    (r : RateLimiter) (acc : Account) (now : ℕ)
    → HasRoom (cleanup_old_entries r acc.id now) acc now ↔ HasRoom r acc now
HasRoom-cleanup r acc now =
    rw
      (
        load-cleanup_self window_minute r acc.id now now (omega arith) (omega arith),
        load-cleanup_self window_hour r acc.id now now (omega arith) (omega arith),
        load-cleanup_self window_day r acc.id now now (omega arith) (omega arith),
      )
      (λ h. h, λ h. h)

unlimited_room :
    (r : RateLimiter) (acc : Account) (now : ℕ) → unlimited acc ≡ true → HasRoom r acc now
unfolding unlimited
unlimited_room r acc now free = ground arith

-- A send is let through exactly when every configured limit exceeds the number of sends in its
-- window together with the reserved slots.
pub check_decision :
    (r : RateLimiter) (acc : Account) (now : ℕ)
    → ((check_and_plan r acc now).0.0 ≡ none) ↔ HasRoom r acc now
unfolding check_and_plan
check_decision r acc now = elim (Bool-cases (unlimited acc)) [
  | inl free ↦ rw free (λ _. unlimited_room r acc now free, λ _. refl)
  | inr limited ↦
      let d = plan_decision (cleanup_old_entries r acc.id now) acc now in
      rw limited
        (λ e. (HasRoom-cleanup r acc now).0 (d.0 e), λ h. d.1 ((HasRoom-cleanup r acc now).1 h))
]

-- An answer that defers names a time after now and at most a day away, it rejects exactly the
-- accounts that are set to "reject", and it reserves no slot for any account.
pub check_deferral :
    (r : RateLimiter) (acc : Account) (now : ℕ) {d : ℕ}
    → (check_and_plan r acc now).0.0 ≡ some d
    → (now < d)
      × (d ≤ now + window_day)
      × ((check_and_plan r acc now).0.1 ≡ (get_or acc.limit_behavior "defer" ==ˢ "reject"))
      × ((b : String) → slots (check_and_plan r acc now).1 b ≡ slots r b)
unfolding check_and_plan plan
check_deferral r acc now e =
    (ground arith, ground arith, ground arith, λ b. ground (arith, slots-cleanup r acc.id b now))

pub deferred_limited :
    (r : RateLimiter) (acc : Account) (now : ℕ) (d : ℕ)
    → (check_and_plan r acc now).0.0 ≡ some d
    → unlimited acc ≡ false
unfolding check_and_plan
deferred_limited r acc now d e = ground arith

slots-plan_granted :
    (r : RateLimiter) (acc : Account) (now : ℕ) (b : String)
    → (plan r acc now).0.0 ≡ none
    → slots (plan r acc now).1 b ≡ (if acc.id ==ˢ b then slots r b + 1 else slots r b)
unfolding plan
slots-plan_granted r acc now b granted =
    ground (arith, eq_iff acc.id b, Dict.lookup-insert acc.id b (slots r acc.id + 1) r.in_flight)

-- A granted call reserves one slot for its account, if the account has a limit.
pub slots-check :
    (r : RateLimiter) (acc : Account) (now : ℕ) (b : String)
    → (check_and_plan r acc now).0.0 ≡ none
    → slots (check_and_plan r acc now).1 b
      ≡ (if not (unlimited acc) && (acc.id ==ˢ b) then slots r b + 1 else slots r b)
unfolding check_and_plan
slots-check r acc now b granted = ground (
  arith,
  slots-plan_granted (cleanup_old_entries r acc.id now) acc now b,
  slots-cleanup r acc.id b now,
)

-- Releasing the slot that a granted call reserved brings back the slots of every account, where the
-- account has a limit.
pub release-check :
    (r : RateLimiter) (acc : Account) (now : ℕ) (b : String)
    → unlimited acc ≡ false
    → (check_and_plan r acc now).0.0 ≡ none
    → slots (release_slot (check_and_plan r acc now).1 acc.id) b ≡ slots r b
unfolding check_and_plan
release-check r acc now b limited granted = ground (
  arith,
  slots-plan_granted (cleanup_old_entries r acc.id now) acc now b,
  slots-release (plan (cleanup_old_entries r acc.id now) acc now).1 acc.id b now,
  slots-cleanup r acc.id b now,
)

-- An account whose minute is full is deferred to the next minute, and nothing but the clean-up happens.
check_full :
    (r : RateLimiter) (acc : Account) (now limit : ℕ)
    → lim acc.limit_per_minute ≡ some limit
    → limit ≤ load window_minute r acc.id now
    → ((check_and_plan r acc now).0.0 ≡ some (boundary window_minute now))
      × ((check_and_plan r acc now).1 ≡ cleanup_old_entries r acc.id now)
unfolding check_and_plan plan unlimited
check_full r acc now limit e full =
    let same = load-cleanup_self window_minute r acc.id now now (omega arith) (omega arith) in
    (ground (arith, same), ground (arith, same))

next_minute :
    (now : ℕ)
    → (now ≤ boundary window_minute now)
      × (boundary window_minute (boundary window_minute now) ≡ boundary window_minute now + 60)
next_minute now = (omega arith, omega arith)

-- The time that a deferral names may be too early: where the minute that follows it still sees as many
-- sends as the limit allows, the same account is deferred again at that very time.
deferral_too_early :
    (r : RateLimiter) (acc : Account) (now limit : ℕ)
    → lim acc.limit_per_minute ≡ some limit
    → limit ≤ load window_minute r acc.id (boundary window_minute now)
    → ((check_and_plan r acc now).0.0 ≡ some (boundary window_minute now))
      × ((check_and_plan (check_and_plan r acc now).1 acc (boundary window_minute now)).0.0
          ≡ some (boundary window_minute now + 60))
deferral_too_early r acc now limit e full =
    let later = next_minute now in
    let first = check_full r acc now limit e (
      omega (
        arith,
        later.0,
        recent_mono window_minute now (boundary window_minute now) (history r acc.id) later.0,
      )) in
    let again =
      check_full (cleanup_old_entries r acc.id now) acc (boundary window_minute now) limit e (
        rw
          (load-cleanup_self window_minute r acc.id now (boundary window_minute now) (omega arith)
            later.0)
          full) in
    (first.0, rw first.1 (again.0 ∙ ap some later.1))
