-- ===== src/Tests/Deleting.antt =====
-- Deletions at small inputs.
use genro_mail_proxy.Prelude.{◌≡◌, refl, not, ◌&&◌, none, some, [], ◌∷◌, any, is_some, inl}
use genro_mail_proxy.Queue.{Message, Database}
use genro_mail_proxy.Queue.Messages.{get, remove_by_pk}
use genro_mail_proxy.Queue.Cleanup.{owned_by}
use genro_mail_proxy.Queue.Fetch.Order.{Has}
use genro_mail_proxy.Queue.Deletion.{delete_batch, get_ids_for_tenant}
use genro_mail_proxy.Queue.Deletion.Isolation.{total, delete_batch_lem}
use genro_mail_proxy.Proxy.Commands.{delete_messages}
use genro_mail_proxy.Proxy.Commands.Refusal.{is_asked, delete_messages_lem}
use genro_mail_proxy.Tests.Data.{pending, queue}

-- Two tenants have a message with the same id.
abbrev foreign : Message
foreign = record pending { pk = "k9"; tenant_id = "other"; account_pk = none }

abbrev shared : Database
shared = record queue { messages = foreign ∷ record pending { account_pk = some "a1" } ∷ [] }

delete_batch_example :
    Has foreign (delete_batch "acme" ("m1" ∷ "m7" ∷ []) shared).1.messages
    × (total (delete_batch "acme" ("m1" ∷ "m7" ∷ []) shared).0 ≡ 2)
delete_batch_example =
    delete_batch_lem "acme" ("m1" ∷ "m7" ∷ []) shared foreign ((refl, tt), (tt, tt)) (inl refl) refl

removes : (delete_batch "acme" ("m1" ∷ "m7" ∷ []) shared).1.messages ≡ foreign ∷ []
unfolding delete_batch get_ids_for_tenant owned_by get remove_by_pk
removes = refl

delete_messages_example :
    is_some (delete_messages ("m1" ∷ []) "acme" shared)
    ≡ not (any (λ m. owned_by shared "acme" m && is_asked ("m1" ∷ []) m.id) shared.messages)
delete_messages_example = delete_messages_lem ("m1" ∷ []) "acme" shared
