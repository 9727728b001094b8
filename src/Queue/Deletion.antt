-- ===== src/Queue/Deletion.antt =====
-- The deletion of messages of a tenant: `delete_batch` and `cleanup` of
-- src/core/mail_proxy/entities/message/endpoint.py with the queries of
-- src/core/mail_proxy/entities/message/table.py.
pub mod Isolation
pub mod Judgement
pub mod Answers
use genro_mail_proxy.Prelude.{
  ℕ, ◌+◌, ◌-◌, suc, String, Bool, true, false, ◌&&◌, not, Option, none, some, List, [], ◌∷◌, ◌++◌,
  ◌==ˢ◌, filter, map, any, get_or, if◌then◌else◌, is_empty,
}
use genro_mail_proxy.Queue.{Message, Database}
use genro_mail_proxy.Queue.Messages.{get, remove_by_pk}
use genro_mail_proxy.Queue.Cleanup.{owned_by, remove_fully_reported_before_for_tenant}

-- The ids of `messages` among those that are asked for.
unfoldable pub existing_ids : List String → Database → List String
existing_ids ids db =
    map (λ m. m.id) (filter (λ m. any (λ i. not (is_empty i) && (i ==ˢ m.id)) ids) db.messages)

-- Ownership is by the tenant of the account of a message.
unfoldable pub get_ids_for_tenant : List String → String → Database → List String
unfolding owned_by
get_ids_for_tenant ids tenant db =
    map (λ m. m.id) (filter (λ m. any (λ i. i ==ˢ m.id) ids && owned_by db tenant m) db.messages)

pub record Answer : Type 0 where
  pub removed : ℕ
  pub not_found : List String
  pub unauthorized : List String

abbrev pub refuse : Bool → String → Answer → Answer
refuse true id a = record a { unauthorized = a.unauthorized ++ id ∷ [] }
refuse false id a = record a { not_found = a.not_found ++ id ∷ [] }

abbrev pub count_removed : Bool → String → Answer → Answer
count_removed true id a = record a { removed = a.removed + 1 }
count_removed false id a = refuse false id a

-- The deletion of the row that was found.
unfoldable pub remove_found : String → Option Message → Answer × Database → Answer × Database
unfolding remove_by_pk
remove_found id none (a, db) = (refuse false id a, db)
remove_found id (some m) (a, db) =
    (count_removed (remove_by_pk m.pk db).0 id a, (remove_by_pk m.pk db).1)

-- One id of the batch.
unfoldable pub delete_one : List String → String → String → Answer × Database → Answer × Database
unfolding existing_ids remove_found
delete_one tenant_ids tenant id (a, db) =
    if any (λ i. i ==ˢ id) tenant_ids
    then remove_found id (get id tenant db) (a, db)
    else (refuse (any (λ i. i ==ˢ id) (existing_ids (id ∷ []) db)) id a, db)

unfoldable pub delete_loop :
    List String → String → List String → Answer × Database → Answer × Database
unfolding delete_one
delete_loop tenant_ids tenant [] r = r
delete_loop tenant_ids tenant (id ∷ ids) r =
    delete_loop tenant_ids tenant ids (delete_one tenant_ids tenant id r)

unfoldable pub delete_batch : String → List String → Database → Answer × Database
unfolding delete_loop get_ids_for_tenant
delete_batch tenant ids db =
    delete_loop (get_ids_for_tenant ids tenant db) tenant ids
      (record { removed = 0; not_found = []; unauthorized = [] }, db)

-- `cleanup`: a day, if the call names no age.
unfoldable pub cleanup : ℕ → String → Option ℕ → Database → ℕ × Database
cleanup now tenant older_than db =
    remove_fully_reported_before_for_tenant (now - get_or older_than 86400) tenant db
