-- ===== src/Proxy/Enqueue.antt =====
-- `_handle_add_messages` of src/core/mail_proxy/proxy.py, with its validation. The id, the tenant, the
-- account and the batch code of an item are texts or missing, as the schema of the endpoint declares;
-- `to` is a list or a text.
pub mod DefaultPriority
pub mod Processed
pub mod Resubmission
use genro_mail_proxy.Prelude.{
  ℕ, zero, suc, ◌+◌, String, Bool, true, false, ◌&&◌, ◌||◌, not, Option, none, some, List, [], ◌∷◌,
  ◌++◌, map, ltb, ◌==◌, ◌==ˢ◌, if◌then◌else◌, get_or, is_some, is_truthy, is_empty, any, filter,
  length,
}
use genro_mail_proxy.Prelude.Int.{pos}
use genro_mail_proxy.Prelude.Json
use genro_mail_proxy.Prelude.Json.{
  Json, null, num, str, arr, obj, Items, nil, cons, Fields, end, field, truth, is_given,
}
use genro_mail_proxy.Prelude.Text.{codes}
use genro_mail_proxy.Queue.{Database, get_account}
use genro_mail_proxy.Queue.Messages.{NewMessage, insert_batch}
use genro_mail_proxy.Queue.Events.{as_ts, add_event}
use genro_mail_proxy.Smtp.Sender.{DeliveryEvent, World, error_event, publish}
use genro_mail_proxy.Proxy.Priority.{normalise_priority}

-- `d.get(k)`
abbrev pub get_key : String → Json → Json
get_key k v = get_or (Json.lookup k v) null

-- A text, or missing.
abbrev pub text_key : String → Json → Option String
text_key k v = elim (get_key k v) [ str s ↦ some s | _ ↦ none ]

-- `d[k] = v`
unfoldable pub put_field : String → Json → Fields → Fields
put_field k v end = field k v end
put_field k v (field j w fs) = if j ==ˢ k then field k v fs else field j w (put_field k v fs)

abbrev pub put : String → Json → Json → Json
put k v (obj fs) = obj (put_field k v fs)
put k v other = other

-- `d.setdefault(k, v)`
unfoldable pub set_default : String → Json → Json → Json
unfolding put_field Json.lookup
set_default k v d = elim (Json.lookup k d) [ none ↦ put k v d | some _ ↦ d ]

unfoldable pub drop_field : String → Fields → Fields
drop_field k end = end
drop_field k (field j w fs) = if j ==ˢ k then drop_field k fs else field j w (drop_field k fs)

unfoldable pub any_given : Items → Bool
any_given nil = false
any_given (cons v vs) = truth v || any_given vs

-- `not recipients`, or a list without a recipient.
abbrev pub has_recipients : Json → Bool
has_recipients (arr items) = any_given items
has_recipients v = truth v

-- The account of an item, `accounts.get(tenant_id, account_id)`.
abbrev pub account_exists : Database → Json → Bool
account_exists db v =
    is_some
      (get_account db (get_or (text_key "tenant_id" v) "") (get_or (text_key "account_id" v) ""))

-- The checks below the default of the priority.
unfoldable pub validate_content : Database → Json → Option String
unfolding any_given
validate_content db item =
    if not (truth (get_key "from" item))
    then some "missing from"
    else if not (has_recipients (get_key "to" item))
    then some "missing to"
    else if not (truth (get_key "subject" item))
    then some "missing subject"
    else if not (account_exists db item)
    then some "account not found for tenant"
    else none

-- The reason for which an item is not valid, and the item as the validation leaves it.
unfoldable pub validate_enqueue_payload : Database → Json → Option String × Json
unfolding set_default validate_content
validate_enqueue_payload db v =
    if not (truth (get_key "id" v))
    then (some "missing id", v)
    else if not (truth (get_key "tenant_id" v))
    then (some "missing tenant_id", v)
    else if not (truth (get_key "account_id" v))
    then (some "missing account_id", v)
    else (let item = set_default "priority" (num (pos 2)) v in (validate_content db item, item))

-- An entry of the list of rejected items.
pub record Rejected : Type 0 where
  pub id : Json
  pub reason : String

-- What `insert_batch` gets for an item.
unfoldable pub entry_of : ℕ → Option ℕ → Json → NewMessage
entry_of priority deferred item = record {
  id = get_or (text_key "id" item) "";
  tenant_id = text_key "tenant_id" item;
  account_id = text_key "account_id" item;
  account_pk = none;
  priority = some priority;
  payload = item;
  deferred_ts = deferred;
  batch_code = text_key "batch_code" item;
}

-- The state of the loop over the items.
pub record Screened : Type 0 where
  pub validated : List Json
  pub rejected : List Rejected
  pub events : List DeliveryEvent
  pub db : Database

-- `item["priority"] = priority`, and a `deferred_ts` that is null is taken out.
unfoldable pub prepare : ℕ → Json → Json
unfolding put_field drop_field Json.lookup
prepare priority item = elim (put "priority" (num (pos priority)) item) [
  | obj fs ↦ elim (Json.lookup "deferred_ts" (obj fs)) [
    | some null ↦ obj (drop_field "deferred_ts" fs)
    | _ ↦ obj fs
  ]
  | other ↦ other
]

-- The event for the row that an invalid item was written to, if it was written.
abbrev pub reject_row : ℕ → String → List (String × String) × Database → Database
reject_row now reason ([], db) = db
reject_row now reason ((id, pk) ∷ rest, db) = add_event pk "error" now (some (codes reason)) none db

-- An invalid item: with an id it is written to the queue and marked as an error.
unfoldable pub reject_item : ℕ → String → ℕ → Json → String → Screened → Screened
reject_item priority uuid now item reason st =
    let rejected = st.rejected ++ record { id = get_key "id" item; reason = reason } ∷ [] in
    if truth (get_key "id" item)
    then record st {
      rejected = rejected;
      events =
          st.events
          ++ error_event (get_or (text_key "id" item) "") (codes reason) (get_key "account_id" item)
            ∷ [];
      db =
          reject_row now reason
            (insert_batch none (λ n. uuid) now (entry_of priority none item ∷ []) st.db);
    }
    else record st { rejected = rejected }

abbrev pub screen_valid : ℕ → Json → Screened → Screened
screen_valid priority item st = record st { validated = st.validated ++ prepare priority item ∷ [] }

-- One round of the loop.
abbrev pub screen_checked : Json → String → ℕ → Option String × Json → Screened → Screened
screen_checked default uuid now (some reason, item) st =
    reject_item (normalise_priority (get_key "priority" item) default).0 uuid now item reason st
screen_checked default uuid now (none, item) st =
    screen_valid (normalise_priority (get_key "priority" item) default).0 item st

unfoldable pub screen_item : Json → String → ℕ → Json → Screened → Screened
unfolding validate_enqueue_payload
screen_item default uuid now (obj fs) st =
    screen_checked default uuid now (validate_enqueue_payload st.db (obj fs)) st
screen_item default uuid now _ st = record st {
  rejected = st.rejected ++ record { id = null; reason = "invalid payload" } ∷ [];
}

-- `uuids n` is the key for the row of an invalid item with n items after it.
unfoldable pub screen_items : Json → (ℕ → String) → ℕ → List Json → Screened → Screened
unfolding screen_item
screen_items default uuids now [] st = st
screen_items default uuids now (v ∷ vs) st =
    screen_items default uuids now vs (screen_item default (uuids (length vs)) now v st)

-- The result of the command.
pub data Answer : Type 0 where
  not_a_list : Answer
  too_many : ℕ → Answer
  queued : Bool → ℕ → List Rejected → Answer

unfoldable pub items_of : Items → List Json
items_of nil = []
items_of (cons v vs) = v ∷ items_of vs

-- The entry of a validated item.
abbrev pub validated_entry : Json → NewMessage
validated_entry item =
    entry_of (elim (get_key "priority" item) [ num (pos n) ↦ n | _ ↦ 2 ])
      (as_ts (get_key "deferred_ts" item)) item

-- `{"id": msg["id"], "reason": "already sent"}` for a validated item that was not inserted.
unfoldable pub already_sent : List (String × String) → List Json → List Rejected
already_sent inserted [] = []
already_sent inserted (v ∷ vs) =
    let rest = already_sent inserted vs in
    if any (λ p. p.0 ==ˢ get_or (text_key "id" v) "") inserted
    then rest
    else record { id = get_key "id" v; reason = "already sent" } ∷ rest

-- The default priority of a payload: `_normalise_priority(payload.get("default_priority"), 2)`.
abbrev pub default_of : Json → Json
default_of payload = elim (Json.lookup "default_priority" payload) [
  | none ↦ num (pos 2)
  | some v ↦ num (pos (normalise_priority v (num (pos 2))).0)
]

-- `reason != "already sent"`
abbrev pub is_validation_failure : Rejected → Bool
is_validation_failure r = not (r.reason ==ˢ "already sent")

abbrev pub publish_all : List DeliveryEvent → World → World
publish_all [] w = w
publish_all (e ∷ es) w = publish_all es (publish e w)

-- The part below the loop.
unfoldable pub enqueue_validated : (ℕ → String) → ℕ → Screened → World → Answer × World
unfolding already_sent
enqueue_validated uuids now st w =
    let (inserted, db) = insert_batch none uuids now (map validated_entry st.validated) st.db in
    let rejected = st.rejected ++ already_sent inserted st.validated in
    (
      queued (ltb 0 (length inserted) || not (any is_validation_failure rejected)) (length inserted)
          rejected,
      publish_all st.events (record w { db = db }),
    )

-- `max` is the largest batch. The keys of the rows come from `invalid` and `valid`.
unfoldable pub add_items :
    ℕ → (ℕ → String) → (ℕ → String) → ℕ → Json → List Json → World → Answer × World
unfolding screen_items enqueue_validated
add_items max invalid valid now default items w =
    if ltb max (length items)
    then (too_many max, w)
    else enqueue_validated valid now
        (screen_items default invalid now items
          (record { validated = []; rejected = []; events = []; db = w.db }))
        w

unfoldable pub handle_add_messages :
    ℕ → (ℕ → String) → (ℕ → String) → ℕ → Json → World → Answer × World
unfolding add_items items_of
handle_add_messages max invalid valid now payload w = elim (Json.lookup "messages" payload) [
  | some (arr items) ↦ add_items max invalid valid now (default_of payload) (items_of items) w
  | _ ↦ (not_a_list, w)
]
