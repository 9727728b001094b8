-- ===== src/Queue/Cleanup.antt =====
-- The retention of src/core/mail_proxy/entities/message/table.py: which messages are removed.
pub mod Retention
use genro_mail_proxy.Prelude.{
  ℕ, String, Bool, true, false, ◌&&◌, not, Option, none, some, List, [], ◌∷◌, ltb, leb, ◌==ˢ◌,
  if◌then◌else◌, filter, count, any, is_some,
}
use genro_mail_proxy.Queue.{Message, MessageEvent, Database}
use genro_mail_proxy.Queue.Events.{unreported}

-- `SELECT MAX(e.reported_ts) ... WHERE e.message_pk = m.pk`: NULL if no event has a value.
unfoldable pub max_ts : Option ℕ → Option ℕ → Option ℕ
max_ts none b = b
max_ts (some a) none = some a
max_ts (some a) (some b) = if ltb a b then some b else some a

unfoldable pub last_reported : String → List MessageEvent → Option ℕ
unfolding max_ts
last_reported pk [] = none
last_reported pk (e ∷ es) =
    let rest = last_reported pk es in
    if e.message_pk ==ˢ pk then max_ts e.reported_ts rest else rest

-- A comparison with NULL does not hold.
abbrev pub is_before : Option ℕ → ℕ → Bool
is_before none t = false
is_before (some a) t = ltb a t

-- The conditions of the query: processed, no event without a report, the last report before the
-- threshold.
unfoldable pub fully_reported_before : Database → ℕ → Message → Bool
unfolding last_reported
fully_reported_before db threshold m =
    is_some m.smtp_ts
    && not (any (λ e. (e.message_pk ==ˢ m.pk) && unreported e) db.message_events)
    && is_before (last_reported m.pk db.message_events) threshold

-- The number of rows that were deleted, and the database without them.
unfoldable pub remove_fully_reported_before : ℕ → Database → ℕ × Database
unfolding fully_reported_before
remove_fully_reported_before threshold db = (
  count (fully_reported_before db threshold) db.messages,
  record db { messages = filter (λ m. not (fully_reported_before db threshold m)) db.messages },
)

-- `JOIN accounts a ON m.account_pk = a.pk WHERE a.tenant_id = :tenant_id`
unfoldable pub owned_by : Database → String → Message → Bool
owned_by db tenant m = elim m.account_pk [
  | none ↦ false
  | some pk ↦ any (λ a. (a.pk ==ˢ pk) && (a.tenant_id ==ˢ tenant)) db.accounts
]

unfoldable pub remove_fully_reported_before_for_tenant : ℕ → String → Database → ℕ × Database
unfolding fully_reported_before owned_by
remove_fully_reported_before_for_tenant threshold tenant db =
    let gone = λ (m : Message). owned_by db tenant m && fully_reported_before db threshold m in
    (count gone db.messages, record db { messages = filter (λ m. not (gone m)) db.messages })
