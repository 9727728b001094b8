-- ===== src/Smtp/Sender/SecondAttempt.antt =====
-- What becomes of a message that a temporary failure puts back into the queue.
use genro_mail_proxy.Prelude.{
  ℕ, ◌+◌, ◌<◌, String, ◌≡◌, refl, ◌∙◌, ap, Bool, true, false, Option, none, some, arith, eq_refl,
  is_empty, get_or,
}
use genro_mail_proxy.Prelude.Json
use genro_mail_proxy.Prelude.Json.{Json, opt_str, lookup_field}
use genro_mail_proxy.Prelude.Text.{codes}
use genro_mail_proxy.Queue.{Message, Database}
use genro_mail_proxy.Queue.Messages.{get_by_pk, clear_deferred, update_payload}
use genro_mail_proxy.Queue.Events.{event_deferral}
use genro_mail_proxy.Queue.Fetch.{Entry, decode}
use genro_mail_proxy.Queue.Rows.{map_row, effect, get_by_pk-update, get_by_pk-add_event}
use genro_mail_proxy.Smtp.RateLimiter.{check_and_plan, release_slot}
use genro_mail_proxy.Smtp.Retry.{Error, should_retry, calculate_delay}
use genro_mail_proxy.Smtp.Email.{Email, built, build_email}
use genro_mail_proxy.Smtp.Sender.{
  Settings, DeliveryEvent, World, record_event, publish, resolve_account, Route, route, entry_json,
  error_event, resolved_account_id,
}
use genro_mail_proxy.Smtp.Sender.Attempt.{
  Outside, error_info, retry_metadata, defer_retry, on_failure, deliver, follow_plan, attempt,
  with_route, send_with_limits, reject_payload, with_email, payload_of, publish_result,
  dispatch_message,
}

-- The row that is left for the next attempt.
abbrev pub requeued : Entry → ℕ → ℕ → Message → Message
requeued e until retries m = record m {
  payload = entry_json e retries;
  deferred_ts = some until;
  smtp_ts = none;
}

requeue_effect :
    (e : Entry) (until retries ts : ℕ) (o : Option Message)
    → map_row
        (effect "deferred" ts (some (retry_metadata until retries)))
        (map_row (λ m. record m { payload = entry_json e retries }) o)
      ≡ map_row (requeued e until retries) o
unfolding event_deferral Json.lookup lookup_field
requeue_effect e until retries ts none = refl
requeue_effect e until retries ts (some m) = refl

payload_row :
    (pk : String) (payload : Json) (db : Database)
    → get_by_pk pk (update_payload pk payload db)
      ≡ map_row (λ m. record m { payload = payload }) (get_by_pk pk db)
unfolding update_payload
payload_row pk payload db =
    get_by_pk-update pk pk (λ m. record m { payload = payload }) db (λ m. refl) ∙ rw (eq_refl pk)

cleared_row :
    (pk : String) (db : Database)
    → get_by_pk pk (clear_deferred pk db)
      ≡ map_row (λ m. record m { deferred_ts = none }) (get_by_pk pk db)
unfolding clear_deferred
cleared_row pk db =
    get_by_pk-update pk pk (λ m. record m { deferred_ts = none }) db (λ m. refl) ∙ rw (eq_refl pk)

defer_retry_row :
    (o : Outside) (e : Entry) (name : String) (err : Error) (delay retries : ℕ) (w : World)
    → is_empty e.pk ≡ false
    → 0 < o.times.done
    → get_by_pk e.pk (defer_retry o e name err delay retries w).1.db
      ≡ map_row (requeued e (o.times.done + delay) (retries + 1)) (get_by_pk e.pk w.db)
unfolding defer_retry record_event
defer_retry_row o e name err delay retries w named timed =
    rw
      (
        named,
        get_by_pk-add_event e.pk e.pk "deferred" o.times.done (some (error_info o err))
            (some (retry_metadata (o.times.done + delay) (retries + 1)))
            (update_payload e.pk (entry_json e (retries + 1)) w.db) named (ground arith),
        eq_refl e.pk,
        payload_row e.pk (entry_json e (retries + 1)) w.db,
      )
      (requeue_effect e (o.times.done + delay) (retries + 1) o.times.done (get_by_pk e.pk w.db))

-- The dict of an entry has no key "from", so no email can be built of it.
wrapped_dispatch :
    (s : Settings) (o : Outside) (e : Entry) (until retries : ℕ) (m : Message) (w : World)
    → is_empty m.pk ≡ false
    → dispatch_message s o (decode (requeued e until retries m)) w
      ≡ publish (error_event m.id (codes "missing 'from'") (opt_str e.account_id)) (
          record_event m.pk "error" o.times.cycle
            (some (codes "missing 'from'"))
            none
            (record w { db = clear_deferred m.pk w.db }))
unfolding dispatch_message with_email reject_payload build_email decode entry_json Json.lookup
    lookup_field
wrapped_dispatch s o e until retries m w named = rw named refl

-- The first attempt: the message `m` of the queue, as the query returns it, fails with a temporary error
-- that is retried.
pub record FailsOnce (s : Settings) (o : Outside) (m : Message) (w : World) (delay : ℕ)
    : Type 0 where
  pub named : is_empty m.pk ≡ false
  pub timed : 0 < o.times.done
  pub stored : get_by_pk m.pk w.db ≡ some m
  pub email : Email
  pub sender : Json
  pub builds : build_email o.builder (payload_of (decode m)) ≡ built email sender
  pub error : Error
  pub fails : o.answer ≡ some error
  pub path : Route
  pub routed : resolve_account s (clear_deferred m.pk w.db) m.tenant_id m.account_id ≡ route path
  pub allowed : (check_and_plan w.limiter path.account o.times.check).0.0 ≡ none
  pub retried : should_retry s.retry 0 error ≡ true
  pub waits : calculate_delay s.retry 0 ≡ some delay

failed_plan :
    (s : Settings) (o : Outside) (e : Entry) (name : String) (verdict : Option ℕ × Bool)
    (err : Error) (answer : Option Error) (w : World)
    → verdict.0 ≡ none
    → answer ≡ some err
    → o.answer ≡ answer
    → follow_plan s o e name verdict w ≡ on_failure s o e name err w
unfolding follow_plan deliver
failed_plan s o e name (none, b) err none w free fails same = cc
failed_plan s o e name (none, b) err (some err') w free fails same =
    ap (λ a. deliver s o e name a w) (same ∙ fails)
failed_plan s o e name (some d, b) err answer w free fails same = cc

publish_db : (r : Option DeliveryEvent × World) → (publish_result r).db ≡ r.1.db
unfolding publish
publish_db (none, w) = refl
publish_db (some e, w) = refl

retried_failure :
    (s : Settings) (o : Outside) (e : Entry) (name : String) (err : Error) (delay : ℕ) (w : World)
    → should_retry s.retry (get_or e.retry_count 0) err ≡ true
    → calculate_delay s.retry (get_or e.retry_count 0) ≡ some delay
    → on_failure s o e name err w
      ≡ defer_retry o e name err delay
          (get_or e.retry_count 0)
          (record w { limiter = release_slot w.limiter name })
unfolding on_failure
retried_failure s o e name err delay w again waits = rw (again, waits)

module _ (s : Settings) (o : Outside) (m : Message) (w : World) (delay : ℕ)
    (first : FailsOnce s o m w delay) where
  abbrev cleared : World
  cleared = record w { db = clear_deferred m.pk w.db }

  abbrev planned : World
  planned = record cleared {
    limiter = (check_and_plan w.limiter first.path.account o.times.check).1;
  }

  abbrev name : String
  name = resolved_account_id m.account_id first.path.account

  first_dispatch :
      dispatch_message s o (decode m) w ≡ publish_result (send_with_limits s o (decode m) cleared)
  unfolding dispatch_message with_email decode
  first_dispatch = rw (first.builds, first.named)

  first_send :
      send_with_limits s o (decode m) cleared
      ≡ defer_retry o
          (decode m)
          name
          first.error
          delay
          0
          (record planned { limiter = release_slot planned.limiter name })
  unfolding send_with_limits with_route attempt decode
  first_send =
      ap (λ r. with_route s o (decode m) r cleared) first.routed
      ∙ failed_plan s o (decode m) name
          (check_and_plan w.limiter first.path.account o.times.check).0 first.error
          (some first.error) planned first.allowed refl first.fails
      ∙ retried_failure s o (decode m) name first.error delay planned first.retried first.waits

  first_attempt :
      get_by_pk m.pk (dispatch_message s o (decode m) w).db
      ≡ some (requeued (decode m) (o.times.done + delay) 1 m)
  unfolding decode
  first_attempt =
      ap (λ v. get_by_pk m.pk v.db) first_dispatch
      ∙ ap (get_by_pk m.pk) (publish_db (send_with_limits s o (decode m) cleared))
      ∙ ap (λ r. get_by_pk m.pk r.1.db) first_send
      ∙ defer_retry_row o (decode m) name first.error delay 0
          (record planned { limiter = release_slot planned.limiter name }) first.named first.timed
      ∙ ap (map_row (requeued (decode m) (o.times.done + delay) (0 + 1)))
          (cleared_row m.pk w.db ∙ ap (map_row (λ n. record n { deferred_ts = none })) first.stored)

-- A message of the queue that fails once with a temporary error, and is to be retried, is put back with
-- the delay, but with the dict of the queue's entry as its payload. Its next attempt, whatever the
-- network would answer and whatever the state of the rest, sends nothing: the message is cleared of its
-- delay, an "error" event with the text "missing 'from'" is recorded for it, and that error is
-- published.
pub retry_loses_message :
    (s : Settings) (o : Outside) (m : Message) (w : World) (delay : ℕ)
    → FailsOnce s o m w delay
    → (n : Message) × (get_by_pk m.pk (dispatch_message s o (decode m) w).db ≡ some n)
      × (n.pk ≡ m.pk)
      × (n.smtp_ts ≡ none)
      × (n.deferred_ts ≡ some (o.times.done + delay))
      × ((o' : Outside) (w' : World)
          → dispatch_message s o' (decode n) w'
            ≡ publish (error_event m.id (codes "missing 'from'") (opt_str m.account_id)) (
                record_event m.pk "error" o'.times.cycle
                  (some (codes "missing 'from'"))
                  none
                  (record w' { db = clear_deferred m.pk w'.db })))
unfolding decode
retry_loses_message s o m w delay first = (
  requeued (decode m) (o.times.done + delay) 1 m,
  first_attempt s o m w delay first,
  refl,
  refl,
  refl,
  λ o' w'. wrapped_dispatch s o' (decode m) (o.times.done + delay) 1 m w' first.named,
)
