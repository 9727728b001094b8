-- ===== src/Tests/Racing.antt =====
-- Two tasks of one account: both are let through, then the older one fails.
use genro_mail_proxy.Prelude.{◌≡◌, refl, sym, ap, ◌∙◌, false, some, [], ◌∷◌, arith}
use mathlib.Core.Path.{subst}
use genro_mail_proxy.Prelude.Dict
use genro_mail_proxy.Prelude.Json.{lookup_field}
use genro_mail_proxy.Prelude.Json
use genro_mail_proxy.Prelude.Text.{strip, split}
use genro_mail_proxy.Queue.{Database, get_account}
use genro_mail_proxy.Queue.Messages.{update, clear_deferred}
use genro_mail_proxy.Queue.Fetch.{Entry, decode}
use genro_mail_proxy.Smtp.RateLimiter.{
  Account, lim, history, slots, count_since, cleanup_old_entries, exceeded, plan, unlimited,
  check_and_plan,
}
use genro_mail_proxy.Smtp.Email.{build_email, format_addresses, joined, parts}
use genro_mail_proxy.Smtp.Sender.{
  World, Route, Resolved, route, misconfigured, resolve_account, resolved_account_id, limits_of,
}
use genro_mail_proxy.Smtp.Sender.Tasks.{
  Task, begin, begin_account, begin_route, begin_email, finish, add_task, under_way, Reach, start,
  next, begins, finishes,
}
use genro_mail_proxy.Smtp.Sender.Tasks.Limits.{IsWithinLimits, Reach-slots, Reach-IsWithinLimits}
use genro_mail_proxy.Tests.Data.{pending, news_account, world, settings, failing}

abbrev entry : Entry
entry = decode pending

abbrev task : Task
task = record { entry = entry; name = "news" }

abbrev once : World
once = (begin settings failing entry world).1

abbrev twice : World
twice = (begin settings failing entry once).1

is_let_through : (begin settings failing entry world).0 ≡ some task
unfolding begin begin_email begin_route begin_account resolve_account get_account clear_deferred
    update decode slots check_and_plan plan unlimited lim exceeded count_since history
    cleanup_old_entries Dict.lookup Dict.insert build_email Json.lookup lookup_field
    format_addresses joined parts strip split resolved_account_id
is_let_through = refl

is_let_through_again : (begin settings failing entry once).0 ≡ some task
unfolding begin begin_email begin_route begin_account resolve_account get_account clear_deferred
    update decode slots check_and_plan plan unlimited lim exceeded count_since history
    cleanup_old_entries Dict.lookup Dict.insert build_email Json.lookup lookup_field
    format_addresses joined parts strip split resolved_account_id
is_let_through_again = refl

account_of : Resolved → Account
account_of (route r) = r.account
account_of (misconfigured reason) = limits_of news_account

news_resolved :
    (db : Database)
    → db.accounts ≡ news_account ∷ []
    → account_of (resolve_account settings db "acme" (some "news")) ≡ limits_of news_account
unfolding account_of resolve_account get_account
news_resolved db listed = rw listed refl

keeps_settings :
    (db : Database)
    → db.accounts ≡ news_account ∷ []
    → (r : Route) → resolve_account settings db "acme" (some "news") ≡ route r
    → r.account.id ≡ "news"
    → r.account ≡ limits_of news_account
unfolding account_of
keeps_settings db listed r resolved own = sym (ap account_of resolved) ∙ news_resolved db listed

same_accounts : once.db.accounts ≡ news_account ∷ []
unfolding begin begin_email begin_route begin_account resolve_account get_account clear_deferred
    update decode slots check_and_plan plan unlimited lim exceeded count_since history
    cleanup_old_entries Dict.lookup Dict.insert build_email Json.lookup lookup_field
    format_addresses joined parts strip split
same_accounts = refl

has_limit : unlimited (limits_of news_account) ≡ false
unfolding unlimited lim
has_limit = refl

one_runs :
    Reach settings (limits_of news_account) (record { world = once; running = task ∷ [] }) 101
unfolding decode
one_runs =
    subst
      (λ o.
        Reach settings (limits_of news_account) (record { world = once; running = add_task o [] })
          101)
      is_let_through
      (next (start world 100 refl) (
        begins failing entry (record { world = world; running = [] }) 100 (omega arith)
          (keeps_settings world.db refl)))

two_run :
    Reach settings
      (limits_of news_account)
      (record { world = twice; running = task ∷ task ∷ [] })
      101
unfolding decode
two_run =
    subst
      (λ o.
        Reach settings (limits_of news_account)
          (record { world = twice; running = add_task o (task ∷ []) }) 101)
      is_let_through_again
      (next one_runs (
        begins failing entry (record { world = once; running = task ∷ [] }) 101 (omega arith)
          (keeps_settings once.db same_accounts)))

older_failed :
    Reach settings
      (limits_of news_account)
      (record { world = finish settings failing task twice; running = task ∷ [] })
      102
older_failed = next two_run (finishes failing task (task ∷ []) [] twice 101 (omega arith))

Reach-slots_example :
    slots (finish settings failing task twice).limiter "news" ≡ under_way "news" (task ∷ [])
Reach-slots_example = Reach-slots settings (limits_of news_account) has_limit older_failed

Reach-IsWithinLimits_example :
    IsWithinLimits
      (limits_of news_account)
      (record { world = finish settings failing task twice; running = task ∷ [] })
      110
Reach-IsWithinLimits_example =
    Reach-IsWithinLimits settings (limits_of news_account) 110 has_limit older_failed (omega arith)
