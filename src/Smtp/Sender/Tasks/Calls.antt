-- ===== src/Smtp/Sender/Tasks/Calls.antt =====
-- What the two parts of an attempt do to the limiter.
use genro_mail_proxy.Prelude.{
  ℕ, ◌<◌, String, ◌≡◌, refl, ◌∙◌, Bool, Option, none, some, ◌==◌, is_empty, arith, inl, inr, ◌⊎◌,
  Bool-cases,
}
use mathlib.Core.Path.{subst}
use genro_mail_proxy.Prelude.Text.{Text}
use genro_mail_proxy.Prelude.Json.{Json}
use genro_mail_proxy.Queue.{Database, get_account}
use genro_mail_proxy.Queue.Messages.{update, clear_deferred}
use genro_mail_proxy.Queue.Fetch.{Entry}
use genro_mail_proxy.Smtp.RateLimiter.{RateLimiter, check_and_plan, log_send, release_slot}
use genro_mail_proxy.Smtp.RateLimiter.Deferral.{check_deferral}
use genro_mail_proxy.Smtp.Email.{Built, built, failed, key_error, value_error, raised, build_email}
use genro_mail_proxy.Smtp.Retry.{Error}
use genro_mail_proxy.Smtp.Sender.{
  Settings, World, DeliveryEvent, publish, Route, Resolved, route, misconfigured, resolve_account,
  resolved_account_id,
}
use genro_mail_proxy.Smtp.Sender.Attempt.{
  Outside, on_limit, deliver, with_route, publish_result, with_email, payload_of, reject_payload,
}
use genro_mail_proxy.Smtp.Sender.Slots.{
  limiter-record_event, limiter-on_failure, limiter-on_success, limiter-on_limit, resolved_id,
}
use genro_mail_proxy.Smtp.Sender.Tasks.{
  Task, begin_plan, begin_account, begin_route, begin_email, begin,
}

pub limiter-publish : (r : Option DeliveryEvent × World) → (publish_result r).limiter ≡ r.1.limiter
unfolding publish
limiter-publish (none, w) = refl
limiter-publish (some e, w) = refl

limiter-reject_payload :
    (o : Outside) (e : Entry) (payload : Json) (reason : Text) (w : World)
    → (reject_payload o e payload reason w).limiter ≡ w.limiter
unfolding reject_payload publish
limiter-reject_payload o e payload reason w =
    limiter-record_event e.pk "error" o.times.cycle (some reason) none w

-- What the limiter answered, and the task that there is then.
abbrev pub IsAnswered : Entry → String → Option ℕ → Option Task → Type 0
IsAnswered e name verdict task =
    ((d : ℕ) × (verdict ≡ some d) × (task ≡ none))
    ⊎ ((verdict ≡ none) × (task ≡ some (record { entry = e; name = name })))

-- What the first part of an attempt does to the limiter: nothing, or the check for its account.
abbrev pub IsBegun :
    Settings → Outside → Entry → Database → RateLimiter → Option Task × World → Type 0
IsBegun s o e db r res =
    ((res.1.limiter ≡ r) × (res.0 ≡ none))
    ⊎ ((rt : Route) × (resolve_account s db e.tenant_id e.account_id ≡ route rt)
        × (res.1.limiter ≡ (check_and_plan r rt.account o.times.check).1)
        × IsAnswered e rt.account.id (check_and_plan r rt.account o.times.check).0.0 res.0)

module _ (s : Settings) (o : Outside) (e : Entry) where
  plan-IsAnswered :
      (name : String) (verdict : Option ℕ × Bool) (w : World)
      → ((d : ℕ) → verdict.0 ≡ some d → 0 < d)
      → ((begin_plan o e name verdict w).1.limiter ≡ w.limiter)
        × IsAnswered e name verdict.0 (begin_plan o e name verdict w).0
  plan-IsAnswered name (none, reject) w ahead = (refl, inr (refl, refl))
  plan-IsAnswered name (some until, reject) w ahead = elim (Bool-cases (until == 0)) [
    | inl now ↦ absurd (ground (arith, now, ahead until refl))
    | inr later ↦ rw later (
      limiter-publish (on_limit o e name until reject w)
          ∙ limiter-on_limit s o e name until reject w,
      inl (until, refl, refl),
    )
  ]

  route-IsBegun :
      (x : Resolved) (w : World)
      → resolve_account s w.db e.tenant_id e.account_id ≡ x
      → IsBegun s o e w.db w.limiter (begin_route s o e x w)
  unfolding begin_route begin_account with_route publish
  route-IsBegun (misconfigured reason) w resolved =
      inl (limiter-record_event e.pk "error" o.times.done (some reason) none w, refl)
  route-IsBegun (route r) w resolved =
      let planned = check_and_plan w.limiter r.account o.times.check in
      let (limiter, answered) =
        plan-IsAnswered (resolved_account_id e.account_id r.account) planned.0
          (record w { limiter = planned.1 })
          (λ d limited.
            omega (arith, (check_deferral w.limiter r.account o.times.check limited).0)) in
      inr (
        r,
        resolved,
        limiter,
        subst (λ n. IsAnswered e n planned.0.0 (begin_account o e r.account w).0)
            (resolved_id s w.db e.tenant_id e.account_id r resolved) answered,
      )

  email-IsBegun :
      (payload : Json) (b : Built) (w : World)
      → IsBegun s o e w.db w.limiter (begin_email s o e payload b w)
  unfolding begin_email with_email
  email-IsBegun payload (failed (key_error key)) w =
      inl (limiter-reject_payload o e payload _ w, refl)
  email-IsBegun payload (failed raised) w = inl (refl, refl)
  email-IsBegun payload (failed (value_error reason)) w =
      inl (limiter-reject_payload o e payload reason w, refl)
  email-IsBegun payload (built email sender) w =
      route-IsBegun (resolve_account s w.db e.tenant_id e.account_id) w refl

  pub begin-IsBegun : (w : World) → IsBegun s o e w.db w.limiter (begin s o e w)
  unfolding begin clear_deferred update resolve_account get_account
  begin-IsBegun w = elim (Bool-cases (is_empty e.pk)) [
    | inl keyless ↦
        rw keyless (email-IsBegun (payload_of e) (build_email o.builder (payload_of e)) w)
    | inr keyed ↦ rw keyed (
        email-IsBegun (payload_of e) (build_email o.builder (payload_of e))
          (record w { db = clear_deferred e.pk w.db }))
  ]

pub deliver_limiter :
    (s : Settings) (o : Outside) (e : Entry) (name : String) (answer : Option Error) (w : World)
    → ((deliver s o e name answer w).1.limiter ≡ log_send w.limiter name o.times.done)
      ⊎ ((deliver s o e name answer w).1.limiter ≡ release_slot w.limiter name)
unfolding deliver
deliver_limiter s o e name none w = inl (limiter-on_success s o e name w)
deliver_limiter s o e name (some err) w = inr (limiter-on_failure s o e name err w)
