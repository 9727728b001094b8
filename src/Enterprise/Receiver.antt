-- ===== src/Enterprise/Receiver.antt =====
-- `BounceReceiver._process_bounces` of src/enterprise/mail_proxy/bounce/receiver.py and
-- `IMAPClient.fetch_since_uid` of src/enterprise/mail_proxy/imap/client.py. The answers of the server are
-- parameters, and so are the parser and the string of a text.
pub mod Polls
use genro_mail_proxy.Prelude.{
  ℕ, String, Bool, true, false, not, Option, none, some, List, [], ◌∷◌, ◌==◌, ltb, if◌then◌else◌,
  filter,
}
use genro_mail_proxy.Prelude.Json.{Json, null, str, obj, field, end}
use genro_mail_proxy.Prelude.Text.{Text}
use genro_mail_proxy.Queue.{Database}
use genro_mail_proxy.Queue.Events.{add_event}
use genro_mail_proxy.Enterprise.Bounce.{BounceType, hard, soft}
use genro_mail_proxy.Enterprise.Bounce.Report.{BounceInfo}

pub record BounceReceiver : Type 0 where
  pub last_uid : ℕ
  pub uidvalidity : Option ℕ
  pub db : Database

pub record ImapMessage (Email : Type 0) : Type 0 where
  pub uid : ℕ
  pub raw : Email

-- One email for each number that the server gives one for.
unfoldable pub fetch_each :
    {Email : Type 0} → (ℕ → Option Email) → List ℕ → List (ImapMessage Email)
fetch_each fetch [] = []
fetch_each fetch (u ∷ us) =
    let rest = fetch_each fetch us in
    elim (fetch u) [ none ↦ rest | some email ↦ record { uid = u; raw = email } ∷ rest ]

-- `search` gives the numbers among the words of the answer to a search from a number on.
unfoldable pub fetch_since_uid :
    {Email : Type 0} → (ℕ → List ℕ) → (ℕ → Option Email) → ℕ → List (ImapMessage Email)
unfolding fetch_each
fetch_since_uid search fetch last = fetch_each fetch (filter (λ u. ltb last u) (search last))

abbrev pub is_recreated : Option ℕ → ℕ → Bool
is_recreated none v = false
is_recreated (some u) v = not (u == v)

unfoldable pub select_folder : ℕ → BounceReceiver → BounceReceiver
select_folder v r = record r {
  last_uid = if is_recreated r.uidvalidity v then 0 else r.last_uid;
  uidvalidity = some v;
}

abbrev pub type_text : Option BounceType → String
type_text none = "hard"
type_text (some hard) = "hard"
type_text (some soft) = "soft"

abbrev pub code_json : (Text → String) → Option Text → Json
code_json string none = null
code_json string (some code) = str (string code)

abbrev pub metadata_of : (Text → String) → BounceInfo → Json
metadata_of string info = obj (
    field "bounce_type" (str (type_text info.bounce_type))
      (field "bounce_code" (code_json string info.bounce_code) end))

-- The event of a bounce that names its message.
unfoldable pub record_bounce : (Text → String) → ℕ → BounceInfo → Option Text → Database → Database
record_bounce string now info none db = db
record_bounce string now info (some []) db = db
record_bounce string now info (some (c ∷ id)) db =
    add_event (string (c ∷ id)) "bounce" now info.bounce_reason (some (metadata_of string info)) db

unfoldable pub process_message :
    {Email : Type 0}
    → (Text → String)
    → (Email → BounceInfo)
    → ℕ
    → ImapMessage Email
    → BounceReceiver
    → BounceReceiver
unfolding record_bounce
process_message string parse now msg r =
    let info = parse msg.raw in
    record r {
      last_uid = if ltb r.last_uid msg.uid then msg.uid else r.last_uid;
      db = record_bounce string now info info.original_message_id r.db;
    }

unfoldable pub process_messages :
    {Email : Type 0}
    → (Text → String)
    → (Email → BounceInfo)
    → ℕ
    → List (ImapMessage Email)
    → BounceReceiver
    → BounceReceiver
unfolding process_message
process_messages string parse now [] r = r
process_messages string parse now (m ∷ ms) r =
    process_messages string parse now ms (process_message string parse now m r)

-- A poll that reaches the server, which names the validity of its numbers.
unfoldable pub process_bounces :
    {Email : Type 0}
    → (Text → String)
    → (Email → BounceInfo)
    → (ℕ → List ℕ)
    → (ℕ → Option Email)
    → ℕ
    → ℕ
    → BounceReceiver
    → BounceReceiver
unfolding fetch_since_uid select_folder process_messages
process_bounces string parse search fetch now v r =
    let r' = select_folder v r in
    process_messages string parse now (fetch_since_uid search fetch r'.last_uid) r'
