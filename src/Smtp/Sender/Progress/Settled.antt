-- ===== src/Smtp/Sender/Progress/Settled.antt =====
-- When a message is settled, and what recording an event does to that.

use genro_mail_proxy.Prelude.{
  ℕ, ◌≤◌, ◌<◌, String, ◌≡◌, ◌≢◌, refl, Bool, true, false, ◌||◌, not, Option, none, some, List, [],
  ◌∷◌, arith, eq_refl, ◌==ˢ◌, ◌==◌, Bool-cases, inl, inr, is_some, is_empty, All, any,
}
use genro_mail_proxy.Prelude.Json
use genro_mail_proxy.Prelude.Json.{Json, lookup_field}
use genro_mail_proxy.Prelude.Text.{Text}
use genro_mail_proxy.Queue.{Message}
use genro_mail_proxy.Queue.Messages.{get_by_pk}
use genro_mail_proxy.Queue.Events.{event_deferral, stored_metadata}
use genro_mail_proxy.Queue.Fetch.{Entry, is_due}
use genro_mail_proxy.Queue.Rows.{map_row, effect, get_by_pk-add_event}
use genro_mail_proxy.Smtp.Retry.{RetryStrategy, calculate_delay}
use genro_mail_proxy.Smtp.Retry.Schedule.{calculate_delay_schedule}
use genro_mail_proxy.Smtp.Sender.{Times, World, record_event}
use genro_mail_proxy.Smtp.Sender.Attempt.{retry_metadata, limit_metadata}

-- A message that was processed, or that waits for a time after `now`.
abbrev pub settled : ℕ → Option Message → Bool
settled now none = true
settled now (some m) = is_some m.smtp_ts || not (is_due now m.deferred_ts)

pub settled-effect :
    (now ts : ℕ) (type : String) (metadata : Option Json) (o : Option Message)
    → ((type ==ˢ "sent") || (type ==ˢ "error")) ≡ true
    → settled now (map_row (effect type ts metadata) o) ≡ true
settled-effect now ts type metadata none h = refl
settled-effect now ts type metadata (some m) h = ground arith

pub settled_deferral :
    (now ts until : ℕ) (metadata : Option Json) (o : Option Message)
    → event_deferral (stored_metadata metadata) ts ≡ some until
    → now < until
    → settled now (map_row (effect "deferred" ts metadata) o) ≡ true
settled_deferral now ts until metadata none e h = refl
settled_deferral now ts until metadata (some m) e h = rw e (unfold is_due in ground arith)

module _ (now : ℕ) (pk : String) (ts : ℕ) (w : World) (named : is_empty pk ≡ false)
    (timed : 0 < ts) where
  pub record_event_end :
      (type : String) (d : Option Text) (metadata : Option Json)
      → ((type ==ˢ "sent") || (type ==ˢ "error")) ≡ true
      → settled now (get_by_pk pk (record_event pk type ts d metadata w).db) ≡ true
  unfolding record_event
  record_event_end type d metadata h =
      rw (named, get_by_pk-add_event pk pk type ts d metadata w.db named (ground arith), eq_refl pk)
        (settled-effect now ts type metadata (get_by_pk pk w.db) h)

  pub record_event_later :
      (until : ℕ) (d : Option Text) (metadata : Option Json)
      → event_deferral (stored_metadata metadata) ts ≡ some until
      → now < until
      → settled now (get_by_pk pk (record_event pk "deferred" ts d metadata w).db) ≡ true
  unfolding record_event
  record_event_later until d metadata e h =
      rw
        (
          named,
          get_by_pk-add_event pk pk "deferred" ts d metadata w.db named (ground arith),
          eq_refl pk,
        )
        (settled_deferral now ts until metadata (get_by_pk pk w.db) e h)

pub any_positive : (ds : List ℕ) (d : ℕ) → All (λ x. 0 < x) ds → any (λ x. x == d) ds ≡ true → 0 < d
any_positive [] d h found = cc
any_positive (x ∷ xs) d h found = elim (Bool-cases (x == d)) [
  | inl same ↦ ground arith
  | inr other ↦ any_positive xs d h.1 (ground arith)
]

-- The settings give every retry a delay, and no delay is zero.
pub record HasDelays (r : RetryStrategy) : Type 0 where
  pub some_delay : r.delays ≢ []
  pub positive : All (λ d. 0 < d) r.delays

pub delay_positive :
    (r : RetryStrategy) (n : ℕ) → HasDelays r → (d : ℕ) × (calculate_delay r n ≡ some d) × (0 < d)
delay_positive r n h =
    let (d, found, listed, _) = calculate_delay_schedule r n h.some_delay in
    (d, found, any_positive r.delays d h.positive listed)

-- The clock runs forward during an attempt.
pub record IsOrdered (t : Times) : Type 0 where
  pub started : 0 < t.cycle
  pub checked : t.cycle ≤ t.check
  pub finished : t.check ≤ t.done

pub retry_until :
    (until n ts : ℕ)
    → event_deferral (stored_metadata (some (retry_metadata until n))) ts ≡ some until
unfolding event_deferral Json.lookup lookup_field
retry_until until n ts = refl

pub limit_until :
    (until ts : ℕ) → event_deferral (stored_metadata (some (limit_metadata until))) ts ≡ some until
unfolding event_deferral Json.lookup lookup_field
limit_until until ts = refl

pub not_zero : (n : ℕ) → 0 < n → (n == 0) ≡ false
not_zero n h = ground arith

-- The row of the entry after an attempt.
abbrev pub row : Entry → World → Option Message
row e w = get_by_pk e.pk w.db
