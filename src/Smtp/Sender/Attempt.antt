-- ===== src/Smtp/Sender/Attempt.antt =====
-- `_send_with_limits` and `_dispatch_message` of src/core/mail_proxy/smtp/sender.py.
use genro_mail_proxy.Prelude.{
  ℕ, ◌+◌, String, Bool, Option, none, some, ◌++◌, ◌==◌, leb, if◌then◌else◌, is_empty, get_or,
  is_truthy,
}
use genro_mail_proxy.Prelude.Int.{ℤ, pos}
use genro_mail_proxy.Prelude.Json
use genro_mail_proxy.Prelude.Json.{Json, null, num, str, obj, Fields, end, field, truth, opt_str}
use genro_mail_proxy.Prelude.Text.{Text, codes}
use genro_mail_proxy.Queue.Messages.{clear_deferred, update_payload}
use genro_mail_proxy.Queue.Fetch.{Entry}
use genro_mail_proxy.Smtp.RateLimiter.{Account, check_and_plan, log_send, release_slot}
use genro_mail_proxy.Smtp.Retry.{Error, truthy, classify_error, should_retry, calculate_delay}
use genro_mail_proxy.Smtp.Email.{
  Builder, Built, built, failed, key_error, value_error, raised, build_email,
}
use genro_mail_proxy.Smtp.Sender.{
  Settings, Times, DeliveryEvent, inc_sent, inc_error, inc_deferred, inc_rate_limited, World,
  error_event, count_metric, publish, record_event, Resolved, route, misconfigured, resolve_account,
  resolved_account_id, entry_json,
}

-- What is outside one attempt: the email builder's environment, Python's `str` of a number, the clock,
-- and what the connection and the server answer: none is a delivery, an error is the exception.
pub record Outside : Type 0 where
  pub builder : Builder
  pub show_int : ℤ → Text
  pub times : Times
  pub answer : Option Error

-- `f"{exc} (SMTP {smtp_code})" if smtp_code else str(exc)`
unfoldable pub error_info : Outside → Error → Text
error_info o e = elim (classify_error e).1 [
  | none ↦ e.message
  | some code ↦
      if truthy (some code)
      then e.message ++ (codes " (SMTP " ++ (o.show_int code ++ codes ")"))
      else e.message
]

-- `{"deferred_ts": ts, "retry_count": n}`
abbrev pub retry_metadata : ℕ → ℕ → Json
retry_metadata ts n =
    obj (field "deferred_ts" (num (pos ts)) (field "retry_count" (num (pos n)) end))

-- `{"deferred_ts": ts}`
abbrev pub limit_metadata : ℕ → Json
limit_metadata ts = obj (field "deferred_ts" (num (pos ts)) end)

abbrev opt_int : Option ℤ → Json
opt_int none = null
opt_int (some n) = num n

-- The branch that schedules another attempt.
unfoldable pub defer_retry :
    Outside → Entry → String → Error → ℕ → ℕ → World → Option DeliveryEvent × World
unfolding error_info
defer_retry o e name err delay retries w =
    let until = o.times.done + delay in
    let info = error_info o err in
    let w1 =
      (if is_empty e.pk
        then w
        else record w { db = update_payload e.pk (entry_json e (retries + 1)) w.db }) in
    let w2 =
      record_event e.pk "deferred" o.times.done (some info)
        (some (retry_metadata until (retries + 1))) w1 in
    (
      some (record {
        id = e.id;
        status = "deferred";
        error = some info;
        deferred_until = some until;
        retry_count = some (retries + 1);
        smtp_code = none;
        error_code = none;
        account = str name;
      }),
      count_metric (inc_deferred e.tenant_id name) w2,
    )

-- The text of a permanent failure.
unfoldable pub failure_info : Settings → Outside → Error → ℕ → Text
unfolding error_info
failure_info s o err retries =
    if leb s.retry.max_retries retries
    then codes "Max retries ("
      ++ (o.show_int (pos s.retry.max_retries) ++ (codes ") exceeded: " ++ error_info o err))
    else error_info o err

-- The branch that gives up.
unfoldable pub give_up :
    Settings → Outside → Entry → String → Error → ℕ → World → Option DeliveryEvent × World
give_up s o e name err retries w =
    let info = failure_info s o err retries in
    let code = (classify_error err).1 in
    (
      some (record (error_event e.id info (str name)) {
        retry_count = some retries;
        smtp_code = code;
      }),
      count_metric (inc_error e.tenant_id name) (
          record_event e.pk "error" o.times.done (some info)
            (some (
              obj (field "smtp_code" (opt_int code) (field "retry_count" (num (pos retries)) end))))
            w),
    )

-- The handler of the exception. Without a delay there is an IndexError, which leaves the attempt with
-- nothing to publish.
unfoldable pub on_failure :
    Settings → Outside → Entry → String → Error → World → Option DeliveryEvent × World
on_failure s o e name err w =
    let w' = record w { limiter = release_slot w.limiter name } in
    let retries = get_or e.retry_count 0 in
    if should_retry s.retry retries err
    then elim (calculate_delay s.retry retries) [
      | none ↦ (none, w')
      | some delay ↦ defer_retry o e name err delay retries w'
    ]
    else give_up s o e name err retries w'

unfoldable pub on_success : Outside → Entry → String → World → Option DeliveryEvent × World
on_success o e name w =
    let w1 = record_event e.pk "sent" o.times.done none none w in
    let w2 = record w1 { limiter = log_send w1.limiter name o.times.done } in
    (
      some (record {
        id = e.id;
        status = "sent";
        error = none;
        deferred_until = none;
        retry_count = none;
        smtp_code = none;
        error_code = none;
        account = str name;
      }),
      count_metric (inc_sent e.tenant_id name) w2,
    )

-- The branches of a rate limit: a rejection, or a deferral that is not published.
unfoldable pub on_limit : Outside → Entry → String → ℕ → Bool → World → Option DeliveryEvent × World
on_limit o e name until reject w =
    let w1 = count_metric (inc_rate_limited e.tenant_id name) w in
    if reject
    then (
      some (record (error_event e.id (codes "rate_limit_exceeded") (str name)) {
        error_code = some (num (pos 429));
      }),
      record_event e.pk "error" o.times.check (some (codes "rate_limit_exceeded")) none w1,
    )
    else (
      none,
      count_metric (inc_deferred e.tenant_id name) (
          record_event e.pk "deferred" o.times.check (some (codes "rate_limit"))
            (some (limit_metadata until)) w1),
    )

-- The `try` around the connection and the sending.
unfoldable pub deliver :
    Settings → Outside → Entry → String → Option Error → World → Option DeliveryEvent × World
deliver s o e name none w = on_success o e name w
deliver s o e name (some err) w = on_failure s o e name err w

-- `if deferred_until:` and what follows.
unfoldable pub follow_plan :
    Settings → Outside → Entry → String → Option ℕ × Bool → World → Option DeliveryEvent × World
follow_plan s o e name (none, reject) w = deliver s o e name o.answer w
follow_plan s o e name (some until, reject) w =
    if until == 0 then deliver s o e name o.answer w else on_limit o e name until reject w

-- The part of `_send_with_limits` below the resolved account.
unfoldable pub attempt : Settings → Outside → Entry → Account → World → Option DeliveryEvent × World
unfolding follow_plan
attempt s o e acc w =
    let planned = check_and_plan w.limiter acc o.times.check in
    follow_plan s o e (resolved_account_id e.account_id acc) planned.0
      (record w { limiter = planned.1 })

-- `account_id or "default"`
abbrev account_or_default : Option String → Json
account_or_default account = if is_truthy account then opt_str account else str "default"

-- The `try` around `_resolve_account`.
unfoldable pub with_route :
    Settings → Outside → Entry → Resolved → World → Option DeliveryEvent × World
with_route s o e (misconfigured reason) w = (
  some (record (error_event e.id reason (account_or_default e.account_id)) {
    error_code = some (str "missing_account_configuration");
  }),
  record_event e.pk "error" o.times.done (some reason) none w,
)
with_route s o e (route r) w = attempt s o e r.account w

-- The event to publish, if there is one, and the new state.
unfoldable pub send_with_limits : Settings → Outside → Entry → World → Option DeliveryEvent × World
unfolding with_route
send_with_limits s o e w = with_route s o e (resolve_account s w.db e.tenant_id e.account_id) w

-- A payload that cannot be built ends the message with an error.
unfoldable pub reject_payload : Outside → Entry → Json → Text → World → World
unfolding publish
reject_payload o e payload reason w =
    publish (error_event e.id reason (get_or (Json.lookup "account_id" payload) null))
      (record_event e.pk "error" o.times.cycle (some reason) none w)

abbrev pub publish_result : Option DeliveryEvent × World → World
publish_result (none, w) = w
publish_result (some e, w) = publish e w

-- The `try` around `_build_email`. An exception of another class ends the attempt, and the cycle logs it.
unfoldable pub with_email : Settings → Outside → Entry → Json → Built → World → World
with_email s o e payload (failed (key_error key)) w =
    reject_payload o e payload (codes "missing " ++ key) w
with_email s o e payload (failed (value_error reason)) w = reject_payload o e payload reason w
with_email s o e payload (failed raised) w = w
with_email s o e payload (built email sender) w = publish_result (send_with_limits s o e w)

-- `entry.get("message") or {}`
abbrev pub payload_of : Entry → Json
payload_of e = if truth e.message then e.message else obj end

unfoldable pub dispatch_message : Settings → Outside → Entry → World → World
unfolding with_email
dispatch_message s o e w =
    with_email s o e (payload_of e) (build_email o.builder (payload_of e))
      (if is_empty e.pk then w else record w { db = clear_deferred e.pk w.db })
