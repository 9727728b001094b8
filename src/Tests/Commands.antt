-- ===== src/Tests/Commands.antt =====
-- The commands at small inputs.
use genro_mail_proxy.Prelude.{true, ℕ, String, ◌≡◌, refl, some, none, List, [], ◌∷◌, map}
use genro_mail_proxy.Prelude.Int.{pos}
use genro_mail_proxy.Prelude.Json
use genro_mail_proxy.Prelude.Json.{Json, truth, str, num, obj, Fields, field, end, lookup_field}
use genro_mail_proxy.Queue.{Message, get_account}
use genro_mail_proxy.Queue.Messages.{
  get, entry_tenant, write_row, upsert, insert_loop, insert_batch,
}
use genro_mail_proxy.Queue.Upsert.{UniqueKeys}
use genro_mail_proxy.Queue.Batch.{AreFresh}
use genro_mail_proxy.Proxy.Enqueue.Resubmission.{invalid_item_ends_message}
use genro_mail_proxy.Proxy.Enqueue.{
  get_key, text_key, Screened, screen_item, screen_items, validate_enqueue_payload,
  validate_content, set_default, put_field, reject_item, entry_of, validated_entry, add_items,
}
use genro_mail_proxy.Proxy.Enqueue.Processed.{Keeps, screened, processed-add_items}
use genro_mail_proxy.Proxy.Enqueue.DefaultPriority.{IsNamed, screen_item-default}
use genro_mail_proxy.Tests.Data.{queue, pending, processed, world, two_keys}

abbrev letter : Fields
letter = field "id" (str "m9") (
    field "tenant_id" (str "acme") (
      field "account_id" (str "news") (
        field "from" (str "a@example.org")
          (field "to" (str "b@example.org") (field "subject" (str "Hello") end)))))

abbrev nothing_screened : Screened
nothing_screened = record { validated = []; rejected = []; events = []; db = queue }

letter-IsNamed : IsNamed letter
unfolding Json.lookup lookup_field
letter-IsNamed = (refl, refl, refl)

no_priority : Json.lookup "priority" (obj letter) ≡ none
unfolding Json.lookup lookup_field
no_priority = refl

screen_item-default_example :
    screen_item (num (pos 0)) "k9" 100 (obj letter) nothing_screened
    ≡ screen_item (num (pos 3)) "k9" 100 (obj letter) nothing_screened
screen_item-default_example =
    screen_item-default (num (pos 0)) (num (pos 3)) "k9" 100 letter nothing_screened letter-IsNamed
      no_priority

-- An item without a subject, under the id of the processed message.
abbrev resubmitted : Json
resubmitted = obj (
    field "id" (str "m2") (
      field "tenant_id" (str "acme") (
        field "account_id" (str "news")
          (field "from" (str "a@example.org") (field "to" (str "b@example.org") end)))))

abbrev two_items : List Json
two_items = resubmitted ∷ obj letter ∷ []

abbrev one_key : ℕ → String
one_key n = "k9"

keys-UniqueKeys : UniqueKeys queue.messages
keys-UniqueKeys = ((refl, tt), (tt, tt))

keys-AreFresh : AreFresh two_keys two_items queue.messages
keys-AreFresh = ((refl, (refl, tt)), (refl, tt), ((refl, (refl, tt)), tt, tt))

row_found : get "m2" "acme" queue ≡ some processed
unfolding get
row_found = refl

later-AreFresh :
    AreFresh one_key
      (map validated_entry (screened (num (pos 2)) two_keys 120 two_items queue).validated)
      (screened (num (pos 2)) two_keys 120 two_items queue).db.messages
unfolding screen_items screen_item validate_enqueue_payload validate_content set_default put_field
    Json.lookup lookup_field get_account reject_item insert_batch insert_loop upsert write_row get
    entry_tenant entry_of
later-AreFresh = ((refl, (refl, tt)), tt, tt)

processed-add_items_example :
    Keeps "m2" "acme" processed
      (add_items 10 two_keys one_key 120 (num (pos 2)) two_items world).1.db
processed-add_items_example =
    processed-add_items 10 two_keys one_key 120 (num (pos 2)) two_items world "m2" "acme" processed
      keys-UniqueKeys keys-AreFresh later-AreFresh row_found refl

-- An item without a subject, under the id of the pending message, and what the validation makes of it.
abbrev incomplete : Fields → Fields
incomplete rest = field "id" (str "m1") (
    field "tenant_id" (str "acme") (
      field "account_id" (str "news")
        (field "from" (str "a@example.org") (field "to" (str "b@example.org") rest))))

abbrev with_priority : Json
with_priority = obj (incomplete (field "priority" (num (pos 2)) end))

no_subject :
    validate_enqueue_payload queue (obj (incomplete end)) ≡ (some "missing subject", with_priority)
unfolding validate_enqueue_payload validate_content set_default put_field Json.lookup lookup_field
no_subject = refl

has_keys :
    (truth (get_key "id" with_priority) ≡ true)
    × (text_key "id" with_priority ≡ some "m1")
    × (text_key "tenant_id" with_priority ≡ some "acme")
unfolding Json.lookup lookup_field
has_keys = (refl, refl, refl)

pending_found : get "m1" "acme" queue ≡ some pending
unfolding get
pending_found = refl

invalid_item_ends_message_example :
    (n : Message) × (get "m1" "acme"
        (screen_item (num (pos 2)) "k9" 120 (obj (incomplete end)) nothing_screened).db
      ≡ some n)
    × (n.pk ≡ "k1")
    × (n.smtp_ts ≡ some 120)
    × (n.payload ≡ with_priority)
invalid_item_ends_message_example =
    invalid_item_ends_message (num (pos 2)) "k9" "m1" "acme" 120 (incomplete end) nothing_screened
      "missing subject" with_priority pending no_subject has_keys.0 has_keys.1 has_keys.2 refl
      pending_found refl refl refl
