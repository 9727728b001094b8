-- ===== src/Smtp/RateLimiter.antt =====
-- src/core/mail_proxy/smtp/rate_limiter.py: the sliding-window limiter of each account.
-- A time is a number of seconds since the epoch. Python's integers go below 0 and the model's do
-- not, so `ts > now - w` is written `now < ts + w`. The lock makes each method one step. Log lines
-- are left out.
pub mod Fields
pub mod Window
pub mod Limits
pub mod Trace
pub mod Deferral
use genro_mail_proxy.Prelude.{
  ℕ, zero, suc, ◌+◌, ◌-◌, ◌*◌, ◌/◌, String, Bool, true, false, Option, none, some, List, [], ◌∷◌,
  ◌++◌, ltb, leb, ◌==ˢ◌, if◌then◌else◌, length, count, get_or,
}
use genro_mail_proxy.Prelude.Dict
use genro_mail_proxy.Prelude.Int.{ℤ, pos, negsuc}
use genro_mail_proxy.Prelude.Dict.{Dict}

abbrev pub window_minute : ℕ
window_minute = 60

abbrev pub window_hour : ℕ
window_hour = 3600

abbrev pub window_day : ℕ
window_day = 86400

-- The keys of the account's dict that the limiter reads.
pub record Account : Type 0 where
  pub id : String
  pub limit_per_minute : Option ℤ
  pub limit_per_hour : Option ℤ
  pub limit_per_day : Option ℤ
  pub limit_behavior : Option String

pub record RateLimiter : Type 0 where
  pub send_history : Dict (List ℕ)
  pub in_flight : Dict ℕ

abbrev pub init : RateLimiter
init = record { send_history = []; in_flight = [] }

-- `lim`: a limit that is missing or not positive is none.
unfoldable pub lim : Option ℤ → Option ℕ
lim none = none
lim (some (pos zero)) = none
lim (some (pos (suc n))) = some (suc n)
lim (some (negsuc n)) = none

-- The history of an account, empty if the account has none.
unfoldable pub history : RateLimiter → String → List ℕ
history r a = get_or (Dict.lookup a r.send_history) []

-- `self._in_flight.get(account_id, 0)`
unfoldable pub slots : RateLimiter → String → ℕ
slots r a = get_or (Dict.lookup a r.in_flight) 0

-- The sends of a history in the last `window` seconds before `now`.
abbrev pub recent : ℕ → ℕ → List ℕ → ℕ
recent window now = count (λ ts. ltb now (ts + window))

unfoldable pub count_since : RateLimiter → String → ℕ → ℕ → ℕ
unfolding history
count_since r a window now = recent window now (history r a)

-- `while history and history[0] <= cutoff: history.popleft()`
unfoldable pub pop_old : ℕ → List ℕ → List ℕ
pop_old now [] = []
pop_old now (ts ∷ rest) =
    let popped = pop_old now rest in if leb (ts + window_day) now then popped else ts ∷ rest

-- An account that has no history is left without one.
unfoldable pub cleanup_old_entries : RateLimiter → String → ℕ → RateLimiter
unfolding pop_old
cleanup_old_entries r a now = elim (Dict.lookup a r.send_history) [
  | none ↦ r
  | some h ↦ record r { send_history = Dict.insert a (pop_old now h) r.send_history }
]

-- The first multiple of the window after `now`.
abbrev pub boundary : ℕ → ℕ → ℕ
boundary window now = (now / window + 1) * window

-- `c + in_flight >= limit`, for a limit that is configured.
unfoldable pub exceeded : Option ℕ → ℕ → ℕ → Bool
exceeded none sent reserved = false
exceeded (some limit) sent reserved = leb limit (sent + reserved)

-- The part of `check_and_plan` under the lock, after the clean-up.
unfoldable pub plan : RateLimiter → Account → ℕ → (Option ℕ × Bool) × RateLimiter
unfolding exceeded count_since slots
plan r acc now =
    let a = acc.id in
    let reserved = slots r a in
    let reject = get_or acc.limit_behavior "defer" ==ˢ "reject" in
    if exceeded (lim acc.limit_per_minute) (count_since r a window_minute now) reserved
    then ((some (boundary window_minute now), reject), r)
    else if exceeded (lim acc.limit_per_hour) (count_since r a window_hour now) reserved
    then ((some (boundary window_hour now), reject), r)
    else if exceeded (lim acc.limit_per_day) (count_since r a window_day now) reserved
    then ((some (boundary window_day now), reject), r)
    else ((none, false), record r { in_flight = Dict.insert a (reserved + 1) r.in_flight })

-- `per_min is None and per_hour is None and per_day is None`
unfoldable pub unlimited : Account → Bool
unfolding lim
unlimited acc = elim (lim acc.limit_per_minute) [
  | some m ↦ false
  | none ↦ elim (lim acc.limit_per_hour) [
    | some h ↦ false
    | none ↦ elim (lim acc.limit_per_day) [ some d ↦ false | none ↦ true ]
  ]
]

-- The answer is `(deferred_until, should_reject)`.
unfoldable pub check_and_plan : RateLimiter → Account → ℕ → (Option ℕ × Bool) × RateLimiter
unfolding plan unlimited cleanup_old_entries
check_and_plan r acc now =
    if unlimited acc then ((none, false), r) else plan (cleanup_old_entries r acc.id now) acc now

-- `if account_id in self._in_flight and self._in_flight[account_id] > 0: ... -= 1`
unfoldable pub release_slot : RateLimiter → String → RateLimiter
release_slot r a = elim (Dict.lookup a r.in_flight) [
  | none ↦ r
  | some n ↦ if ltb 0 n then record r { in_flight = Dict.insert a (n - 1) r.in_flight } else r
]

unfoldable pub log_send : RateLimiter → String → ℕ → RateLimiter
unfolding release_slot history
log_send r a now =
    let r' = release_slot r a in
    record r' { send_history = Dict.insert a (history r a ++ now ∷ []) r'.send_history }

-- The number of entries that are dropped, and the state without the account.
unfoldable pub purge_for_account : RateLimiter → String → ℕ × RateLimiter
unfolding history
purge_for_account r a = (
  length (history r a),
  record r { send_history = Dict.erase a r.send_history; in_flight = Dict.erase a r.in_flight },
)

unfoldable pub clear : RateLimiter → RateLimiter
clear r = init
