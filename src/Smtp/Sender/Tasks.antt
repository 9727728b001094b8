-- ===== src/Smtp/Sender/Tasks.antt =====
-- src/core/mail_proxy/smtp/sender.py: the attempts of a batch as the tasks that `asyncio.gather` runs. A
-- task starts, up to the answer of the limiter, and a task that was let through finishes later, when the
-- server has answered; between the two any other tasks start and finish. The two semaphores only leave
-- some of these orders out. A task is cancelled when the process stops, which is left out.
pub mod Parts
pub mod Calls
pub mod Limits
use genro_mail_proxy.Prelude.{
  ℕ, ◌≤◌, String, ◌≡◌, Bool, Option, none, some, List, [], ◌∷◌, ◌++◌, ◌==◌, ◌==ˢ◌, if◌then◌else◌,
  is_empty, count,
}
use genro_mail_proxy.Prelude.Json.{Json}
use genro_mail_proxy.Queue.{Database}
use genro_mail_proxy.Queue.Messages.{clear_deferred}
use genro_mail_proxy.Queue.Fetch.{Entry}
use genro_mail_proxy.Smtp.RateLimiter.{Account, init, check_and_plan, purge_for_account}
use genro_mail_proxy.Smtp.Email.{Built, built, failed, build_email}
use genro_mail_proxy.Smtp.Sender.{
  Settings, World, Route, Resolved, route, misconfigured, resolve_account, resolved_account_id,
}
use genro_mail_proxy.Smtp.Sender.Attempt.{
  Outside, on_limit, deliver, with_route, publish_result, with_email, payload_of,
}

-- An attempt that was let through, with the account id that its slot is counted under.
pub record Task : Type 0 where
  pub entry : Entry
  pub name : String

-- `if deferred_until:`, up to the connection.
abbrev pub begin_plan : Outside → Entry → String → Option ℕ × Bool → World → Option Task × World
begin_plan o e name (none, reject) w = (some (record { entry = e; name = name }), w)
begin_plan o e name (some until, reject) w =
    if until == 0
    then (some (record { entry = e; name = name }), w)
    else (none, publish_result (on_limit o e name until reject w))

unfoldable pub begin_account : Outside → Entry → Account → World → Option Task × World
begin_account o e acc w =
    let planned = check_and_plan w.limiter acc o.times.check in
    begin_plan o e (resolved_account_id e.account_id acc) planned.0
      (record w { limiter = planned.1 })

unfoldable pub begin_route : Settings → Outside → Entry → Resolved → World → Option Task × World
unfolding begin_account
begin_route s o e (misconfigured reason) w =
    (none, publish_result (with_route s o e (misconfigured reason) w))
begin_route s o e (route r) w = begin_account o e r.account w

unfoldable pub begin_email : Settings → Outside → Entry → Json → Built → World → Option Task × World
unfolding begin_route
begin_email s o e payload (failed fault) w = (none, with_email s o e payload (failed fault) w)
begin_email s o e payload (built email sender) w =
    begin_route s o e (resolve_account s w.db e.tenant_id e.account_id) w

-- The first part of `_dispatch_message`.
unfoldable pub begin : Settings → Outside → Entry → World → Option Task × World
unfolding begin_email
begin s o e w =
    begin_email s o e (payload_of e) (build_email o.builder (payload_of e))
      (if is_empty e.pk then w else record w { db = clear_deferred e.pk w.db })

-- The connection, and what follows its answer.
abbrev pub finish : Settings → Outside → Task → World → World
finish s o t w = publish_result (deliver s o t.entry t.name o.answer w)

abbrev pub finish_begun : Settings → Outside → Option Task × World → World
finish_begun s o (none, w) = w
finish_begun s o (some t, w) = finish s o t w

pub record System : Type 0 where
  pub world : World
  pub running : List Task

abbrev pub add_task : Option Task → List Task → List Task
add_task none ts = ts
add_task (some t) ts = t ∷ ts

-- The tasks that are under way for an account.
abbrev pub under_way : String → List Task → ℕ
under_way a = count (λ t. t.name ==ˢ a)

-- A step of some task, at a time that is not before the last one; or another part of the proxy that
-- writes into the database, or drops an account without tasks from the limiter. While the account's
-- messages are sent its settings stay the same, and no other account has its id.
pub data Move (s : Settings) (acc : Account) : System → ℕ → System → ℕ → Type 0 where
  begins :
      (o : Outside) (e : Entry) (sys : System) (now : ℕ)
      → now ≤ o.times.check
      → ((r : Route)
          → resolve_account s sys.world.db e.tenant_id e.account_id ≡ route r
          → r.account.id ≡ acc.id
          → r.account ≡ acc)
      → Move s acc sys now
          (record {
            world = (begin s o e sys.world).1;
            running = add_task (begin s o e sys.world).0 sys.running;
          })
          o.times.check
  finishes :
      (o : Outside) (t : Task) (before after : List Task) (w : World) (now : ℕ)
      → now ≤ o.times.done
      → Move s acc
          (record { world = w; running = before ++ t ∷ after })
          now
          (record { world = finish s o t w; running = before ++ after })
          o.times.done
  writes :
      (db : Database) (w : World) (ts : List Task) (now : ℕ)
      → Move s acc
          (record { world = w; running = ts })
          now
          (record { world = record w { db = db }; running = ts })
          now
  purges :
      (a : String) (w : World) (ts : List Task) (now : ℕ)
      → under_way a ts ≡ 0
      → Move s acc
          (record { world = w; running = ts })
          now
          (record {
            world = record w { limiter = (purge_for_account w.limiter a).1 };
            running = ts;
          })
          now

-- What the tasks can reach from a limiter that knows nothing.
pub data Reach (s : Settings) (acc : Account) : System → ℕ → Type 0 where
  start :
      (w : World) (now : ℕ)
      → w.limiter ≡ init
      → Reach s acc (record { world = w; running = [] }) now
  next :
      {sys sys' : System} {now t : ℕ}
      → Reach s acc sys now
      → Move s acc sys now sys' t
      → Reach s acc sys' t
