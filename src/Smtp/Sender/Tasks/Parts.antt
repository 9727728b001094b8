-- ===== src/Smtp/Sender/Tasks/Parts.antt =====
-- The two parts of an attempt.
use genro_mail_proxy.Prelude.{
  ℕ, String, ◌≡◌, refl, sym, Bool, Option, none, some, ◌==◌, if◌then◌else◌, is_empty, inl, inr,
  Bool-cases,
}
use genro_mail_proxy.Prelude.Json.{Json}
use genro_mail_proxy.Queue.Messages.{clear_deferred}
use genro_mail_proxy.Queue.Fetch.{Entry}
use genro_mail_proxy.Smtp.RateLimiter.{check_and_plan}
use genro_mail_proxy.Smtp.Email.{Built, built, failed, build_email}
use genro_mail_proxy.Smtp.Sender.{
  Settings, World, Resolved, route, misconfigured, resolve_account, resolved_account_id,
}
use genro_mail_proxy.Smtp.Sender.Attempt.{
  Outside, with_route, publish_result, with_email, payload_of, follow_plan, attempt,
  send_with_limits, dispatch_message,
}
use genro_mail_proxy.Smtp.Sender.Tasks.{
  begin_plan, begin_account, begin_route, begin_email, begin, finish_begun,
}

-- The two parts make up an attempt.
plan_parts :
    (s : Settings) (o : Outside) (e : Entry) (name : String) (verdict : Option ℕ × Bool) (w : World)
    → publish_result (follow_plan s o e name verdict w)
      ≡ finish_begun s o (begin_plan o e name verdict w)
unfolding follow_plan
plan_parts s o e name (none, reject) w = refl
plan_parts s o e name (some until, reject) w = elim (Bool-cases (until == 0)) [
  | inl now ↦ rw now refl
  | inr later ↦ rw later refl
]

route_parts :
    (s : Settings) (o : Outside) (e : Entry) (x : Resolved) (w : World)
    → publish_result (with_route s o e x w) ≡ finish_begun s o (begin_route s o e x w)
unfolding begin_route begin_account with_route attempt
route_parts s o e (misconfigured reason) w = refl
route_parts s o e (route r) w =
    let planned = check_and_plan w.limiter r.account o.times.check in
    plan_parts s o e (resolved_account_id e.account_id r.account) planned.0
      (record w { limiter = planned.1 })

email_parts :
    (s : Settings) (o : Outside) (e : Entry) (payload : Json) (b : Built) (w : World)
    → with_email s o e payload b w ≡ finish_begun s o (begin_email s o e payload b w)
unfolding begin_email with_email send_with_limits
email_parts s o e payload (failed fault) w = refl
email_parts s o e payload (built email sender) w =
    route_parts s o e (resolve_account s w.db e.tenant_id e.account_id) w

-- An attempt whose task no other one interrupts is the attempt of the dispatch cycle.
finish_begun-begin :
    (s : Settings) (o : Outside) (e : Entry) (w : World)
    → finish_begun s o (begin s o e w) ≡ dispatch_message s o e w
unfolding begin dispatch_message
finish_begun-begin s o e w = sym (
    email_parts s o e (payload_of e) (build_email o.builder (payload_of e))
      (if is_empty e.pk then w else record w { db = clear_deferred e.pk w.db }))
