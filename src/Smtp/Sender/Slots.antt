-- ===== src/Smtp/Sender/Slots.antt =====
-- The limiter's slots across an attempt.
use genro_mail_proxy.Prelude.{
  ℕ, ◌-◌, ◌<◌, String, ◌≡◌, refl, ap, ◌∙◌, Bool, ◌&&◌, Option, none, some, arith, eq_iff, ◌==ˢ◌,
  if◌then◌else◌, get_or, find?_sound, Option-cases, inl, inr,
}
use genro_mail_proxy.Prelude.Text.{Text}
use genro_mail_proxy.Prelude.Json.{Json}
use genro_mail_proxy.Queue.{SmtpAccount, Database, get_account}
use genro_mail_proxy.Queue.Fetch.{Entry}
use genro_mail_proxy.Smtp.RateLimiter.{check_and_plan, unlimited, slots, release_slot, log_send}
use genro_mail_proxy.Smtp.RateLimiter.Fields.{slots-release, slots-log_send}
use genro_mail_proxy.Smtp.RateLimiter.Deferral.{check_deferral, deferred_limited, slots-check}
use genro_mail_proxy.Smtp.Retry.{Error}
use genro_mail_proxy.Smtp.Sender.{
  Settings, World, record_event, Route, route, resolve_account, resolved_account_id,
}
use genro_mail_proxy.Smtp.Sender.Attempt.{
  Outside, defer_retry, give_up, on_failure, on_success, on_limit, deliver, follow_plan, attempt,
  with_route, send_with_limits,
}

pub limiter-record_event :
    (pk type : String) (ts : ℕ) (d : Option Text) (m : Option Json) (w : World)
    → (record_event pk type ts d m w).limiter ≡ w.limiter
unfolding record_event
limiter-record_event pk type ts d m w = ground arith

module _ (s : Settings) (o : Outside) (e : Entry) (name : String) where
  -- A failure releases the slot and does nothing else to the limiter.
  pub limiter-on_failure :
      (err : Error) (w : World)
      → (on_failure s o e name err w).1.limiter ≡ release_slot w.limiter name
  unfolding on_failure defer_retry give_up record_event
  limiter-on_failure err w = ground arith

  pub limiter-on_success :
      (w : World) → (on_success o e name w).1.limiter ≡ log_send w.limiter name o.times.done
  unfolding on_success
  limiter-on_success w =
      ap (λ l. log_send l name o.times.done)
        (limiter-record_event e.pk "sent" o.times.done none none w)

  pub limiter-on_limit :
      (until : ℕ) (reject : Bool) (w : World)
      → (on_limit o e name until reject w).1.limiter ≡ w.limiter
  unfolding on_limit record_event
  limiter-on_limit until reject w = ground arith

  slots-deliver :
      (answer : Option Error) (b : String) (w : World)
      → slots (deliver s o e name answer w).1.limiter b
        ≡ (if name ==ˢ b then slots w.limiter b - 1 else slots w.limiter b)
  unfolding deliver
  slots-deliver none b w = rw (limiter-on_success w) (slots-log_send w.limiter name b o.times.done)
  slots-deliver (some err) b w =
      rw (limiter-on_failure err w) (slots-release w.limiter name b o.times.done)

  follow_granted :
      (verdict : Option ℕ × Bool) (w : World)
      → verdict.0 ≡ none
      → follow_plan s o e name verdict w ≡ deliver s o e name o.answer w
  unfolding follow_plan
  follow_granted (none, b) w free = refl
  follow_granted (some d, b) w free = cc

  follow_deferred :
      (verdict : Option ℕ × Bool) (d : ℕ) (w : World)
      → verdict.0 ≡ some d
      → 0 < d
      → (follow_plan s o e name verdict w).1.limiter ≡ w.limiter
  unfolding follow_plan
  follow_deferred (none, b) d w limited pos = cc
  follow_deferred (some until, b) d w limited pos = ground (arith, limiter-on_limit until b w)

found_id :
    (db : Database) (tenant name : String) (a : SmtpAccount)
    → get_account db tenant name ≡ some a
    → a.id ≡ name
unfolding get_account
found_id db tenant name a e = ground (
  arith,
  find?_sound (λ c. (c.tenant_id ==ˢ tenant) && (c.id ==ˢ name)) db.accounts a e,
  eq_iff a.id name,
)

-- The account that is resolved is the one whose slots are released.
pub resolved_id :
    (s : Settings) (db : Database) (tenant : String) (account : Option String) (r : Route)
    → resolve_account s db tenant account ≡ route r
    → resolved_account_id account r.account ≡ r.account.id
unfolding resolve_account resolved_account_id
resolved_id s db tenant account r e =
    elim (Option-cases (get_account db tenant (get_or account ""))) [
      | inl missing ↦ ground arith
      | inr found ↦ ground (arith, found_id db tenant (get_or account "") found.0 found.1)
    ]

-- An attempt over a limited account leaves the reserved slots of every account as they were, whatever the
-- limiter and the network answer: it takes no slot away from another send, and leaks none. An attempt
-- over an account without limits takes one slot from the sends that are counted under the same
-- account id, if there is one.
pub slots-attempt :
    (s : Settings) (o : Outside) (e : Entry) (w : World) (r : Route) (b : String)
    → resolve_account s w.db e.tenant_id e.account_id ≡ route r
    → slots (send_with_limits s o e w).1.limiter b ≡ (
        if unlimited r.account && (r.account.id ==ˢ b)
        then slots w.limiter b - 1
        else slots w.limiter b)
unfolding send_with_limits with_route attempt
slots-attempt s o e w r b routed =
    let verdict = (check_and_plan w.limiter r.account o.times.check).0 in
    let planned = record w { limiter = (check_and_plan w.limiter r.account o.times.check).1 } in
    let name = resolved_account_id e.account_id r.account in
    ap (λ x. slots (with_route s o e x w).1.limiter b) routed ∙ elim (Option-cases verdict.0) [
      | inl free ↦
          ap (λ x. slots x.1.limiter b) (follow_granted s o e name verdict planned free)
          ∙ slots-deliver s o e name o.answer b planned
          ∙ rw (resolved_id s w.db e.tenant_id e.account_id r routed) (
              ground (
                arith,
                slots-check w.limiter r.account o.times.check b free,
                eq_iff r.account.id b,
              ))
      | inr limited ↦
          let deferral = check_deferral w.limiter r.account o.times.check limited.1 in
          ap (λ l. slots l b)
            (follow_deferred s o e name verdict limited.0 planned limited.1 (omega arith))
          ∙ deferral.3 b
          ∙ rw (deferred_limited w.limiter r.account o.times.check limited.0 limited.1)
    ]
