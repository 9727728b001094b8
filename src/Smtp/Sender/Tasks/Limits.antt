-- ===== src/Smtp/Sender/Tasks/Limits.antt =====
-- The limits of an account, whatever the order in which its tasks run.
use genro_mail_proxy.Prelude.{
  ℕ, ◌+◌, ◌-◌, ◌≤◌, ◌<◌, String, ◌≡◌, refl, sym, ap, ◌∙◌, false, Option, List, [], ◌∷◌, ◌++◌, ◌==ˢ◌,
  if◌then◌else◌, arith, eq_iff, inl, inr,
}
use mathlib.Core.Path.{subst}
use genro_mail_proxy.Prelude.Dict
use genro_mail_proxy.Queue.Fetch.{Entry}
use genro_mail_proxy.Smtp.RateLimiter.{
  Account, window_minute, window_hour, window_day, recent, history, lim, unlimited, init, slots,
  check_and_plan,
}
use genro_mail_proxy.Smtp.RateLimiter.Fields.{slots-release, slots-log_send, slots-purge}
use genro_mail_proxy.Smtp.RateLimiter.Deferral.{check_deferral, slots-check}
use genro_mail_proxy.Smtp.RateLimiter.Limits.{load, Under}
use genro_mail_proxy.Smtp.RateLimiter.Trace.{Reach-IsWithin}
use genro_mail_proxy.Smtp.RateLimiter.Trace
use genro_mail_proxy.Smtp.Sender.{Settings, World, Route, route, resolve_account}
use genro_mail_proxy.Smtp.Sender.Attempt.{Outside, deliver}
use genro_mail_proxy.Smtp.Sender.Tasks.{
  Task, begin, finish, System, add_task, under_way, Move, begins, finishes, writes, purges, Reach,
  start, next,
}
use genro_mail_proxy.Smtp.Sender.Tasks.Calls.{
  limiter-publish, deliver_limiter, IsAnswered, IsBegun, begin-IsBegun,
}

-- The account's slots are those of its tasks, and its calls on the limiter were a sequence of calls.
abbrev IsCovered : Account → System → ℕ → Type 0
IsCovered acc sys now =
    (n : ℕ) × (n ≤ now)
    × Trace.Reach acc sys.world.limiter n
    × (slots sys.world.limiter acc.id ≡ under_way acc.id sys.running)

under_way-append :
    (a : String) (t : Task) (before after : List Task)
    → under_way a (before ++ t ∷ after)
      ≡ (if t.name ==ˢ a then 1 else 0) + under_way a (before ++ after)
under_way-append a t [] after = ground arith
under_way-append a t (x ∷ before) after = ground (arith, under_way-append a t before after)

module _ (s : Settings) (acc : Account) (limited : unlimited acc ≡ false) where
  begins-IsCovered :
      (o : Outside) (e : Entry) (sys : System) (now : ℕ)
      → now ≤ o.times.check
      → ((r : Route)
          → resolve_account s sys.world.db e.tenant_id e.account_id ≡ route r
          → r.account.id ≡ acc.id
          → r.account ≡ acc)
      → IsCovered acc sys now
      → (res : Option Task × World) → IsBegun s o e sys.world.db sys.world.limiter res
      → IsCovered acc (record { world = res.1; running = add_task res.0 sys.running }) o.times.check
  begins-IsCovered o e sys now le same (n, early, reached, held) res (inl (kept, idle)) = (
    n,
    omega arith,
    subst (λ r. Trace.Reach acc r n) (sym kept) reached,
    ap (λ r. slots r acc.id) kept
        ∙ held
        ∙ ap (λ t. under_way acc.id (add_task t sys.running)) (sym idle),
  )
  begins-IsCovered o e sys now le same (n, early, reached, held) res
        (inr (rt, resolved, checked, answered)) =
      (
        o.times.check,
        omega arith,
        subst (λ r. Trace.Reach acc r o.times.check) (sym checked)
            (Trace.next reached
              (Trace.check rt.account o.times.check (omega arith) (same rt resolved))),
        ap (λ r. slots r acc.id) checked ∙ counted answered,
      )
    where
      counted :
          IsAnswered e rt.account.id
            (check_and_plan sys.world.limiter rt.account o.times.check).0.0
            res.0
          → slots (check_and_plan sys.world.limiter rt.account o.times.check).1 acc.id
            ≡ under_way acc.id (add_task res.0 sys.running)
      counted (inl (d, deferred, idle)) =
          (check_deferral sys.world.limiter rt.account o.times.check deferred).3 acc.id
          ∙ held
          ∙ ap (λ t. under_way acc.id (add_task t sys.running)) (sym idle)
      counted (inr (free, busy)) =
          slots-check sys.world.limiter rt.account o.times.check acc.id free
          ∙ ground (
            arith,
            held,
            limited,
            eq_iff rt.account.id acc.id,
            same rt resolved,
            ap unlimited {x = rt.account} {y = acc},
          )
          ∙ ap (λ t. under_way acc.id (add_task t sys.running)) (sym busy)

  finishes-IsCovered :
      (o : Outside) (t : Task) (before after : List Task) (w : World) (now : ℕ)
      → now ≤ o.times.done
      → IsCovered acc (record { world = w; running = before ++ t ∷ after }) now
      → IsCovered acc (record { world = finish s o t w; running = before ++ after }) o.times.done
  finishes-IsCovered o t before after w now le (n, early, reached, held) =
      elim (deliver_limiter s o t.entry t.name o.answer w) [
        | inl logged ↦
            (let same = limiter-publish (deliver s o t.entry t.name o.answer w) ∙ logged in
              (
                o.times.done,
                omega arith,
                subst (λ r. Trace.Reach acc r o.times.done) (sym same)
                    (Trace.next reached (Trace.log t.name o.times.done (omega arith) has_slot)),
                ap (λ r. slots r acc.id) same
                    ∙ slots-log_send w.limiter t.name acc.id o.times.done
                    ∙ one_less,
              ))
        | inr freed ↦
            (let same = limiter-publish (deliver s o t.entry t.name o.answer w) ∙ freed in
              (
                o.times.done,
                omega arith,
                subst (λ r. Trace.Reach acc r o.times.done) (sym same)
                    (Trace.next reached (Trace.release t.name o.times.done (omega arith))),
                ap (λ r. slots r acc.id) same
                    ∙ slots-release w.limiter t.name acc.id o.times.done
                    ∙ one_less,
              ))
      ]
    where
      has_slot : t.name ≡ acc.id → 0 < slots w.limiter t.name
      has_slot own = ground (
        arith,
        own,
        held,
        under_way-append acc.id t before after,
        eq_iff t.name acc.id,
        ap (slots w.limiter) own,
      )

      one_less :
          (if t.name ==ˢ acc.id then slots w.limiter acc.id - 1 else slots w.limiter acc.id)
          ≡ under_way acc.id (before ++ after)
      one_less = ground (arith, held, under_way-append acc.id t before after)

  Move-IsCovered :
      {sys sys' : System} {now t : ℕ}
      → Move s acc sys now sys' t
      → IsCovered acc sys now
      → IsCovered acc sys' t
  Move-IsCovered (begins o e sys now le same) covered =
      begins-IsCovered o e sys now le same covered (begin s o e sys.world)
        (begin-IsBegun s o e sys.world)
  Move-IsCovered (finishes o t before after w now le) covered =
      finishes-IsCovered o t before after w now le covered
  Move-IsCovered (writes db w ts now) covered = covered
  Move-IsCovered (purges a w ts now idle) (n, early, reached, held) = (
    now,
    omega arith,
    Trace.next reached (Trace.purge a now early),
    slots-purge w.limiter a acc.id now
        ∙ ground
            (arith, held, idle, eq_iff a acc.id, ap (λ b. under_way b ts) {x = a} {y = acc.id}),
  )

  init_free : slots init acc.id ≡ 0
  unfolding slots Dict.lookup
  init_free = refl

  Reach-IsCovered : {sys : System} {now : ℕ} → Reach s acc sys now → IsCovered acc sys now
  Reach-IsCovered (start w now fresh) = (
    now,
    omega arith,
    subst (λ r. Trace.Reach acc r now) (sym fresh) (Trace.start now),
    ap (λ r. slots r acc.id) fresh ∙ init_free,
  )
  Reach-IsCovered (next reached move) = Move-IsCovered move (Reach-IsCovered reached)

-- However the tasks of any batches are interleaved, the slots that the limiter has reserved for an account
-- with a limit are those of its tasks that wait for the server: no slot leaks, and none is taken away.
-- The times of the steps do not go back, the account keeps its settings, no other account has its id, and it is not dropped from the limiter
-- while a task of it is under way.
pub Reach-slots :
    (s : Settings) (acc : Account) {sys : System} {now : ℕ}
    → unlimited acc ≡ false
    → Reach s acc sys now
    → slots sys.world.limiter acc.id ≡ under_way acc.id sys.running
Reach-slots s acc limited reached = (Reach-IsCovered s acc limited reached).3

-- The sends of an account in a window, with its tasks that wait for the server.
abbrev pub sent_or_waiting : Account → System → ℕ → ℕ → ℕ
sent_or_waiting acc sys w t =
    recent w t (history sys.world.limiter acc.id) + under_way acc.id sys.running

abbrev pub IsWithinLimits : Account → System → ℕ → Type 0
IsWithinLimits acc sys t =
    Under (lim acc.limit_per_minute) (sent_or_waiting acc sys window_minute t)
    × Under (lim acc.limit_per_hour) (sent_or_waiting acc sys window_hour t)
    × Under (lim acc.limit_per_day) (sent_or_waiting acc sys window_day t)

-- However the tasks of any batches are interleaved, the messages of an account with a limit that were
-- sent in a window of a minute, an hour or a day, together with its tasks that wait for the server,
-- are at most the limit configured for that window, at the time of the last step and at every later
-- time. The times of the steps do not go back, the account keeps its settings, no other account has
-- its id, and it is not dropped from the limiter while a task of it is under way.
pub Reach-IsWithinLimits :
    (s : Settings) (acc : Account) {sys : System} {now : ℕ} (t : ℕ)
    → unlimited acc ≡ false
    → Reach s acc sys now
    → now ≤ t
    → IsWithinLimits acc sys t
Reach-IsWithinLimits s acc {sys} t limited reached le =
    let (n, early, calls, held) = Reach-IsCovered s acc limited reached in
    let within = Reach-IsWithin acc calls in
    let waits : (w : ℕ) (limit : Option ℕ)
        → Under limit (load w sys.world.limiter acc.id t)
        → Under limit (sent_or_waiting acc sys w t) =
      λ w limit.
        subst (λ k. Under limit (recent w t (history sys.world.limiter acc.id) + k)) held in
    (
      waits window_minute (lim acc.limit_per_minute) (within.0 t (omega arith)),
      waits window_hour (lim acc.limit_per_hour) (within.1 t (omega arith)),
      waits window_day (lim acc.limit_per_day) (within.2 t (omega arith)),
    )
