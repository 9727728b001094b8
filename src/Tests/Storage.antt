-- ===== src/Tests/Storage.antt =====
-- The database at small inputs.
use genro_mail_proxy.Prelude.{
  ◌≡◌, refl, ◌||◌, none, some, [], ◌∷◌, inl, inr, ◌==ˢ◌, if◌then◌else◌, length, ◌+◌, ◌↔◌,
}
use genro_mail_proxy.Prelude.Text.{codes, text_eq}
use genro_mail_proxy.Queue.Messages.{get, get_by_pk, upsert, entry_tenant}
use genro_mail_proxy.Queue.Events.{add_event}
use genro_mail_proxy.Queue.Rows.{map_row, effect, get_by_pk-add_event}
use genro_mail_proxy.Queue.Fetch.Order.{Has}
use genro_mail_proxy.Queue.Upsert.{UniqueKeys, upserted, get-upsert}
use genro_mail_proxy.Queue.Batch.{AreFresh}
use genro_mail_proxy.Queue.Cleanup.{remove_fully_reported_before}
use genro_mail_proxy.Queue.Cleanup.Retention.{IsDone, remove_fully_reported_before_lem}
use genro_mail_proxy.Queue.Suspension.{is_batch_suspended, suspended_value}
use genro_mail_proxy.Queue.Suspension.Effect.{suspended_value_lem}
use genro_mail_proxy.Tests.Data.{processed, queue, second_message, third_message, two_keys}

keys-UniqueKeys : UniqueKeys queue.messages
keys-UniqueKeys = ((refl, tt), (tt, tt))

get-upsert_example :
    get "m2" "acme" (upsert [] none "k3" 120 second_message queue).1
    ≡ some (upserted queue [] "acme" "k3" 120 second_message (get "m2" "acme" queue))
unfolding entry_tenant
get-upsert_example =
    get-upsert [] none "k3" 120 second_message queue "m2" "acme" keys-UniqueKeys refl

keys-AreFresh : AreFresh two_keys (second_message ∷ third_message ∷ []) queue.messages
keys-AreFresh = ((refl, (refl, tt)), (refl, tt), ((refl, (refl, tt)), tt, tt))

get_by_pk-add_event_example : get_by_pk "k1" (add_event "k1" "sent" 100 none none queue) ≡ (
    if "k1" ==ˢ "k1"
    then map_row (effect "sent" 100 none) (get_by_pk "k1" queue)
    else get_by_pk "k1" queue)
get_by_pk-add_event_example = get_by_pk-add_event "k1" "k1" "sent" 100 none none queue refl refl

remove_fully_reported_before_example :
    (Has processed (remove_fully_reported_before 97 queue).1.messages ↔ ¬ IsDone queue 97 processed)
    × ((remove_fully_reported_before 97 queue).0
          + length (remove_fully_reported_before 97 queue).1.messages
        ≡ length queue.messages)
remove_fully_reported_before_example =
    remove_fully_reported_before_lem 97 queue processed (inr (inl refl))

suspended_value_example :
    is_batch_suspended (suspended_value (some (codes "b")) (some (codes "a"))) (some (b'c' ∷ []))
    ≡ (text_eq (codes "a") (b'c' ∷ []) || is_batch_suspended (some (codes "b")) (some (b'c' ∷ [])))
suspended_value_example =
    suspended_value_lem (some (codes "b")) (codes "a") b'c' [] refl (unfold text_eq in refl)
