-- ===== src/Smtp/Sender/Cycle.antt =====
-- src/core/mail_proxy/smtp/sender.py: one dispatch cycle, with the cap on the messages of one account.
pub mod Groups
use genro_mail_proxy.Prelude.{
  ℕ, zero, suc, ◌+◌, String, ◌≡◌, refl, Bool, true, false, ◌&&◌, not, Option, none, some, List, [],
  ◌∷◌, ◌++◌, ◌==◌, ◌==ˢ◌, if◌then◌else◌, take, is_empty, is_truthy, get_or, length,
}
use genro_mail_proxy.Prelude.Dict
use genro_mail_proxy.Prelude.Dict.{Dict}
use genro_mail_proxy.Queue.{Database, get_account}
use genro_mail_proxy.Queue.Fetch.{Entry, fetch_ready}
use genro_mail_proxy.Smtp.Sender.{Settings, World}
use genro_mail_proxy.Smtp.Sender.Attempt.{Outside, dispatch_message}

-- `entry.get("account_id") or "default"`
abbrev pub group_of : Entry → String
group_of e = if is_truthy e.account_id then get_or e.account_id "" else "default"

-- `messages_by_account[account_id].append(entry)`, with the list that `defaultdict` puts in.
unfoldable pub append_to : String → Entry → Dict (List Entry) → Dict (List Entry)
append_to k e d = Dict.insert k (get_or (Dict.lookup k d) [] ++ e ∷ []) d

-- The loop that groups a batch.
unfoldable pub group_batch : List Entry → Dict (List Entry) → Dict (List Entry)
unfolding append_to
group_batch [] d = d
group_batch (e ∷ es) d = group_batch es (append_to (group_of e) e d)

-- The account's own `batch_size`, if it has one that is not 0; a failed lookup changes nothing.
abbrev pub own_size : ℕ → Database → String → String → ℕ
own_size default db tenant account = elim (get_account db tenant account) [
  | none ↦ default
  | some a ↦ elim a.batch_size [ none ↦ default | some n ↦ if n == 0 then default else n ]
]

-- The cap on one group: the account is looked up in the tenant of the group's first message.
unfoldable pub account_batch_size : ℕ → Database → String → List Entry → ℕ
account_batch_size default db account [] = default
account_batch_size default db account (e ∷ es) =
    if not (is_empty account) && not (account ==ˢ "default") && not (is_empty e.tenant_id)
    then own_size default db e.tenant_id account
    else default

-- `all_messages_to_send`: each group up to its cap, in the order in which the accounts come up.
unfoldable pub messages_to_send : ℕ → Database → Dict (List Entry) → List Entry
unfolding account_batch_size
messages_to_send default db [] = []
messages_to_send default db ((a, es) ∷ d) =
    take (account_batch_size default db a es) es ++ messages_to_send default db d

-- The messages of a batch that this cycle attempts.
unfoldable pub chosen : ℕ → Database → List Entry → List Entry
unfolding group_batch messages_to_send
chosen default db batch = messages_to_send default db (group_batch batch [])

-- The attempts one after the other: `os n` is what the world outside does in the attempt with n others
-- after it.
unfoldable pub dispatch_all : Settings → (ℕ → Outside) → List Entry → World → World
dispatch_all s os [] w = w
dispatch_all s os (e ∷ es) w = dispatch_all s os es (dispatch_message s (os (length es)) e w)

unfoldable pub dispatch_batch : Settings → (ℕ → Outside) → List Entry → World → World
unfolding chosen dispatch_all
dispatch_batch s os batch w = dispatch_all s os (chosen s.batch_size_per_account w.db batch) w

-- `if batch: await self._dispatch_batch(batch, now_ts)`, and whether there was one.
abbrev pub dispatch_fetched : Settings → (ℕ → Outside) → List Entry → World → Bool × World
dispatch_fetched s os [] w = (false, w)
dispatch_fetched s os (e ∷ es) w = (true, dispatch_batch s os (e ∷ es) w)

-- Whether anything was processed. The gauge that the cycle refreshes is left out.
unfoldable pub process_cycle : Settings → ℕ → (ℕ → Outside) → (ℕ → Outside) → World → Bool × World
unfolding dispatch_batch
process_cycle s now first second w =
    let immediate =
      dispatch_fetched s first (fetch_ready w.db s.smtp_batch_size now (some 0) none) w in
    let w1 = immediate.1 in
    let regular =
      dispatch_fetched s second (fetch_ready w1.db s.smtp_batch_size now none (some 1)) w1 in
    (elim immediate.0 [ true ↦ true | false ↦ regular.0 ], regular.1)
