-- ===== src/Smtp/Sender/Progress.antt =====
-- An attempt settles its message: the same cycle finds it no longer ready.
mod Settled
pub use Settled.*
use mathlib.Core.Path.{subst}
use genro_mail_proxy.Prelude.{
  ℕ, ◌+◌, ◌≤◌, ◌<◌, String, ◌≡◌, ◌≢◌, refl, Bool, true, false, ◌||◌, not, Option, none, some, List,
  [], ◌∷◌, arith, eq_refl, ◌==ˢ◌, ◌==◌, if◌then◌else◌, Bool-cases, ◌⊎◌, ◌∙◌, ap, inl, inr, is_some,
  is_empty, All, any, get_or,
}
use genro_mail_proxy.Prelude.Json
use genro_mail_proxy.Prelude.Json.{Json, lookup_field}
use genro_mail_proxy.Prelude.Text.{Text}
use genro_mail_proxy.Queue.{Message, Database}
use genro_mail_proxy.Queue.Messages.{get_by_pk, clear_deferred}
use genro_mail_proxy.Queue.Events.{event_deferral, stored_metadata}
use genro_mail_proxy.Queue.Fetch.{Entry, is_ready, is_due}
use genro_mail_proxy.Queue.Rows.{map_row, effect, get_by_pk-add_event}
use genro_mail_proxy.Smtp.RateLimiter.{Account, check_and_plan, release_slot}
use genro_mail_proxy.Smtp.RateLimiter.Deferral.{check_deferral}
use genro_mail_proxy.Smtp.Retry.{RetryStrategy, Error, should_retry, calculate_delay}
use genro_mail_proxy.Smtp.Retry.Schedule.{calculate_delay_schedule}
use genro_mail_proxy.Smtp.Email.{build_email, Built, built, failed, key_error, value_error, raised}
use genro_mail_proxy.Smtp.Sender.{
  Settings, Times, DeliveryEvent, World, record_event, publish, resolve_account, Resolved, route,
  misconfigured, resolved_account_id,
}
use genro_mail_proxy.Smtp.Sender.Attempt.{
  Outside, retry_metadata, limit_metadata, defer_retry, give_up, on_failure, on_success, on_limit,
  deliver, attempt, send_with_limits, reject_payload, dispatch_message, follow_plan, with_route,
  with_email, publish_result, payload_of,
}

module _ (s : Settings) (o : Outside) (e : Entry) (named : is_empty e.pk ≡ false)
    (clock : IsOrdered o.times) where
  defer_retry-settled :
      (name : String) (err : Error) (delay retries : ℕ) (w : World)
      → 0 < delay
      → settled o.times.cycle (row e (defer_retry o e name err delay retries w).1) ≡ true
  unfolding defer_retry
  defer_retry-settled name err delay retries w long =
      record_event_later o.times.cycle e.pk o.times.done _ named (omega arith)
        (o.times.done + delay) _ (some (retry_metadata (o.times.done + delay) (retries + 1)))
        (retry_until (o.times.done + delay) (retries + 1) o.times.done) (omega arith)

  give_up-settled :
      (name : String) (err : Error) (retries : ℕ) (w : World)
      → settled o.times.cycle (row e (give_up s o e name err retries w).1) ≡ true
  unfolding give_up
  give_up-settled name err retries w =
      record_event_end o.times.cycle e.pk o.times.done w named (omega arith) "error" _ _ refl

  on_success-settled :
      (name : String) (w : World) → settled o.times.cycle (row e (on_success o e name w).1) ≡ true
  unfolding on_success
  on_success-settled name w =
      record_event_end o.times.cycle e.pk o.times.done w named (omega arith) "sent" _ _ refl

  on_limit-settled :
      (name : String) (until : ℕ) (reject : Bool) (w : World)
      → o.times.cycle < until
      → settled o.times.cycle (row e (on_limit o e name until reject w).1) ≡ true
  unfolding on_limit
  on_limit-settled name until true w later =
      record_event_end o.times.cycle e.pk o.times.check _ named (omega arith) "error" _ none refl
  on_limit-settled name until false w later =
      record_event_later o.times.cycle e.pk o.times.check _ named (omega arith) until _
        (some (limit_metadata until)) (limit_until until o.times.check) later

  on_failure-settled :
      (name : String) (err : Error) (w : World)
      → HasDelays s.retry
      → settled o.times.cycle (row e (on_failure s o e name err w).1) ≡ true
  unfolding on_failure
  on_failure-settled name err w delays =
      let w' = record w { limiter = release_slot w.limiter name } in
      let retries = get_or e.retry_count 0 in
      elim (Bool-cases (should_retry s.retry retries err)) [
        | inr final ↦ rw final (give_up-settled name err retries w')
        | inl again ↦
            let (delay, found, long) = delay_positive s.retry retries delays in
            rw (again, found) (defer_retry-settled name err delay retries w' long)
      ]

  deliver-settled :
      (name : String) (answer : Option Error) (w : World)
      → HasDelays s.retry
      → settled o.times.cycle (row e (deliver s o e name answer w).1) ≡ true
  unfolding deliver
  deliver-settled name none w delays = on_success-settled name w
  deliver-settled name (some err) w delays = on_failure-settled name err w delays

  follow_plan-settled :
      (name : String) (verdict : Option ℕ × Bool) (w : World)
      → HasDelays s.retry
      → ((d : ℕ) → verdict.0 ≡ some d → o.times.cycle < d)
      → settled o.times.cycle (row e (follow_plan s o e name verdict w).1) ≡ true
  unfolding follow_plan
  follow_plan-settled name (none, reject) w delays later = deliver-settled name o.answer w delays
  follow_plan-settled name (some until, reject) w delays later =
      rw (not_zero until (omega (arith, later until refl)))
        (on_limit-settled name until reject w (later until refl))

  attempt-settled :
      (acc : Account) (w : World)
      → HasDelays s.retry
      → settled o.times.cycle (row e (attempt s o e acc w).1) ≡ true
  unfolding attempt
  attempt-settled acc w delays =
      follow_plan-settled (resolved_account_id e.account_id acc)
        (check_and_plan w.limiter acc o.times.check).0 _ delays
        (λ d limited. omega (arith, (check_deferral w.limiter acc o.times.check limited).0))

  with_route-settled :
      (r : Resolved) (w : World)
      → HasDelays s.retry
      → settled o.times.cycle (row e (with_route s o e r w).1) ≡ true
  unfolding with_route
  with_route-settled (misconfigured reason) w delays =
      record_event_end o.times.cycle e.pk o.times.done w named (omega arith) "error" _ none refl
  with_route-settled (route r) w delays = attempt-settled r.account w delays

  publish_result-settled :
      (now : ℕ) (r : Option DeliveryEvent × World)
      → settled now (row e r.1) ≡ true
      → settled now (row e (publish_result r)) ≡ true
  unfolding publish
  publish_result-settled now (none, w) h = h
  publish_result-settled now (some d, w) h = h

  reject_payload-settled :
      (payload : Json) (reason : Text) (w : World)
      → settled o.times.cycle (row e (reject_payload o e payload reason w)) ≡ true
  unfolding reject_payload
  reject_payload-settled payload reason w =
      record_event_end o.times.cycle e.pk o.times.cycle w named clock.started "error" _ none refl

  with_email-settled :
      (payload : Json) (b : Built) (w : World)
      → HasDelays s.retry
      → b ≢ failed raised
      → settled o.times.cycle (row e (with_email s o e payload b w)) ≡ true
  unfolding with_email
  with_email-settled payload (failed (key_error key)) w delays caught =
      reject_payload-settled payload _ w
  with_email-settled payload (failed (value_error reason)) w delays caught =
      reject_payload-settled payload reason w
  with_email-settled payload (failed raised) w delays caught = absurd (caught refl)
  with_email-settled payload (built email sender) w delays caught =
      publish_result-settled o.times.cycle (send_with_limits s o e w) (
        unfold send_with_limits in
        with_route-settled (resolve_account s w.db e.tenant_id e.account_id) w delays)

settled_not_ready :
    (db : Database) (now : ℕ) (priority least : Option ℕ) (m : Message)
    → settled now (some m) ≡ true
    → is_ready db now priority least m ≡ false
unfolding is_ready
settled_not_ready db now priority least m h = ground arith

escape-cases : (b : Built) → (b ≡ failed raised) ⊎ (b ≢ failed raised)
escape-cases (built email sender) = inr (λ e. cc e)
escape-cases (failed (key_error key)) = inr (λ e. cc e)
escape-cases (failed (value_error reason)) = inr (λ e. cc e)
escape-cases (failed raised) = inl refl

-- After an attempt its message is not selected again in the same cycle: the row is processed or waits for
-- a later time. The one other outcome is that building the email raises an exception that is neither a
-- KeyError nor a ValueError: then the attempt takes away the deferral and records nothing. The entry has a
-- key, the clock runs forward, and the retry settings have at least one delay and none of zero seconds.
pub dispatch_message_progress :
    (s : Settings) (o : Outside) (e : Entry) (w : World) (m : Message) (priority least : Option ℕ)
    → is_empty e.pk ≡ false
    → IsOrdered o.times
    → HasDelays s.retry
    → get_by_pk e.pk (dispatch_message s o e w).db ≡ some m
    → (is_ready (dispatch_message s o e w).db o.times.cycle priority least m ≡ false)
      ⊎ ((build_email o.builder (payload_of e) ≡ failed raised)
          × (dispatch_message s o e w ≡ record w { db = clear_deferred e.pk w.db }))
unfolding dispatch_message with_email
dispatch_message_progress s o e w m priority least named clock delays found =
    let start = if is_empty e.pk then w else record w { db = clear_deferred e.pk w.db } in
    let mail = build_email o.builder (payload_of e) in
    elim (escape-cases mail) [
      | inl stops ↦
          inr (stops, ap (λ b. with_email s o e (payload_of e) b start) stops ∙ rw named refl)
      | inr caught ↦ inl (
          settled_not_ready (dispatch_message s o e w).db o.times.cycle priority least m (
            subst (λ r. settled o.times.cycle r ≡ true) found
              (with_email-settled s o e named clock (payload_of e) mail start delays caught)))
    ]
