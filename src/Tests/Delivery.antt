-- ===== src/Tests/Delivery.antt =====
-- Delivery at small inputs.
use genro_mail_proxy.Prelude.{
  ◌⊎◌, ◌+◌, ◌<◌, ◌-◌, ◌≡◌, ◌≢◌, refl, true, false, ◌&&◌, none, some, [], ◌∷◌, arith, ◌==ˢ◌,
  if◌then◌else◌, ltb, ◌↔◌,
}
use genro_mail_proxy.Prelude.Dict
use genro_mail_proxy.Prelude.Json.{
  Json, str, arr, obj, nil, cons, field, end, opt_str, lookup_field,
}
use genro_mail_proxy.Prelude.Json
use genro_mail_proxy.Prelude.Text.{codes, strip, split}
use genro_mail_proxy.Queue.{Message, Database, get_account}
use genro_mail_proxy.Queue.Messages.{get_by_pk, update, clear_deferred}
use genro_mail_proxy.Queue.Fetch.{decode, is_ready}
use genro_mail_proxy.Smtp.RateLimiter.{
  init, lim, history, slots, count_since, cleanup_old_entries, exceeded, plan, unlimited,
  check_and_plan, log_send,
}
use genro_mail_proxy.Smtp.RateLimiter.Trace.{
  Reach, start, next, check, log, IsWithin, Reach-IsWithin,
}
use genro_mail_proxy.Smtp.RateLimiter.Deferral.{HasRoom, check_decision}
use genro_mail_proxy.Smtp.Email.{
  Email, built, failed, raised, build_email, format_addresses, joined, parts,
}
use genro_mail_proxy.Smtp.Retry.{
  default_strategy, calculate_delay, classify_error, extract_smtp_code, should_retry,
}
use genro_mail_proxy.Smtp.Retry.Classes.{is_temporary, should_retry_rule}
use genro_mail_proxy.Smtp.Sender.{
  World, Route, route, resolve_account, limits_of, publish, error_event, record_event,
}
use genro_mail_proxy.Smtp.Sender.Attempt.{Outside, send_with_limits, dispatch_message, payload_of}
use genro_mail_proxy.Smtp.Sender.Progress.{HasDelays, IsOrdered, dispatch_message_progress}
use genro_mail_proxy.Smtp.Sender.Slots.{slots-attempt}
use genro_mail_proxy.Smtp.Sender.SecondAttempt.{FailsOnce, retry_loses_message}
use genro_mail_proxy.Tests.Data.{
  two_a_minute, full_minute, mail, pending, news_account, queue, world, settings, network_error,
  failing,
}

one_slot : 0 < slots (check_and_plan init two_a_minute 100).1 "news"
unfolding slots check_and_plan plan unlimited lim exceeded count_since history cleanup_old_entries
    Dict.lookup Dict.insert
one_slot = ground arith

two_calls : Reach two_a_minute (log_send (check_and_plan init two_a_minute 100).1 "news" 101) 101
two_calls =
    next (next (start 100) (check two_a_minute 100 (omega arith) (λ _. refl)))
      (log "news" 101 (omega arith) (λ _. one_slot))

Reach-IsWithin_example :
    IsWithin two_a_minute (log_send (check_and_plan init two_a_minute 100).1 "news" 101) 101
Reach-IsWithin_example = Reach-IsWithin two_a_minute two_calls

check_decision_example :
    ((check_and_plan full_minute two_a_minute 130).0.0 ≡ none)
    ↔ HasRoom full_minute two_a_minute 130
check_decision_example = check_decision full_minute two_a_minute 130

refused : (check_and_plan full_minute two_a_minute 130).0.0 ≡ some 180
unfolding slots check_and_plan plan unlimited lim exceeded count_since history cleanup_old_entries
    Dict.lookup Dict.insert
refused = refl

default_delays : default_strategy.delays ≢ []
default_delays = cc

should_retry_example :
    (should_retry default_strategy 0 network_error
      ≡ (ltb 0 default_strategy.max_retries && is_temporary network_error))
    × ((classify_error network_error).1 ≡ extract_smtp_code network_error)
should_retry_example = should_retry_rule default_strategy 0 network_error

news_route : Route
news_route = record {
  host = "smtp.example.org";
  port = 587;
  user = none;
  password = none;
  use_tls = none;
  account = limits_of news_account;
}

routed :
    (db : Database)
    → db.accounts ≡ news_account ∷ []
    → resolve_account settings db "acme" (some "news") ≡ route news_route
unfolding resolve_account get_account news_route
routed db same = rw same refl

slots-attempt_example :
    slots (send_with_limits settings failing (decode pending) world).1.limiter "news" ≡ (
      if unlimited news_route.account && (news_route.account.id ==ˢ "news")
      then slots world.limiter "news" - 1
      else slots world.limiter "news")
unfolding decode
slots-attempt_example =
    slots-attempt settings failing (decode pending) world news_route "news" (routed queue refl)

ordered : IsOrdered failing.times
ordered = record { started = omega arith; checked = omega arith; finished = omega arith }

has_delays : HasDelays settings.retry
has_delays = record {
  some_delay = default_delays;
  positive = (omega arith, (omega arith, (omega arith, (omega arith, (omega arith, tt)))));
}

mail_is_built :
    (email : Email) × (sender : Json) × (build_email failing.builder mail ≡ built email sender)
unfolding build_email Json.lookup lookup_field format_addresses joined parts strip split
mail_is_built = (_, _, refl)

free : (check_and_plan init (limits_of news_account) 101).0.0 ≡ none
unfolding slots check_and_plan plan unlimited lim exceeded count_since history cleanup_old_entries
    Dict.lookup Dict.insert
free = refl

is_retried : should_retry default_strategy 0 network_error ≡ true
unfolding should_retry classify_error
is_retried = refl

first_delay : calculate_delay default_strategy 0 ≡ some 60
unfolding calculate_delay
first_delay = refl

fails_once : FailsOnce settings failing pending world 60
unfolding get_by_pk clear_deferred update decode news_route
fails_once = record {
  named = refl;
  timed = omega arith;
  stored = refl;
  email = mail_is_built.0;
  sender = mail_is_built.1;
  builds = mail_is_built.2;
  error = network_error;
  fails = refl;
  path = news_route;
  routed = routed (clear_deferred "k1" queue) refl;
  allowed = free;
  retried = is_retried;
  waits = first_delay;
}

retry_loses_message_example :
    (n : Message) × (get_by_pk "k1" (dispatch_message settings failing (decode pending) world).db
      ≡ some n)
    × (n.pk ≡ "k1")
    × (n.smtp_ts ≡ none)
    × (n.deferred_ts ≡ some (failing.times.done + 60))
    × ((o' : Outside) (w' : World)
        → dispatch_message settings o' (decode n) w'
          ≡ publish (error_event "m1" (codes "missing 'from'") (opt_str (some "news"))) (
              record_event "k1" "error" o'.times.cycle
                (some (codes "missing 'from'"))
                none
                (record w' { db = clear_deferred "k1" w'.db })))
retry_loses_message_example = retry_loses_message settings failing pending world 60 fails_once

lost :
    (n : Message) × (get_by_pk "k1" (dispatch_message settings failing (decode pending) world).db
      ≡ some n)
lost = let l = retry_loses_message settings failing pending world 60 fails_once in (l.0, l.1)

dispatch_message_progress_example :
    (is_ready (dispatch_message settings failing (decode pending) world).db 100 none none lost.0
      ≡ false)
    ⊎ ((build_email failing.builder (payload_of (decode pending)) ≡ failed raised)
        × (dispatch_message settings failing (decode pending) world
            ≡ record world { db = clear_deferred "k1" world.db }))
unfolding decode
dispatch_message_progress_example =
    dispatch_message_progress settings failing (decode pending) world lost.0 none none refl ordered
      has_delays lost.1

-- Headers that are no object raise an AttributeError, which nothing in the attempt catches.
escapes :
    build_email failing.builder (
      obj (
        field "from" (str "a@acme.com") (
          field "to"
            (str "b@acme.com")
            (field "subject" (str "s") (field "headers" (arr (cons (str "X-A") nil)) end)))))
    ≡ failed raised
unfolding build_email Json.lookup lookup_field format_addresses joined parts strip split
escapes = refl
