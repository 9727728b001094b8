-- ===== src/Proxy/Commands.antt =====
-- The commands of `_execute_command` in src/core/mail_proxy/proxy.py that delete: `_delete_messages`,
-- `_cleanup_reported_messages` and the deletion of an account.
pub mod Refusal
use genro_mail_proxy.Prelude.{
  ℕ, zero, suc, ◌-◌, String, Bool, true, false, ◌&&◌, not, Option, none, some, List, [], ◌∷◌, ◌==ˢ◌,
  filter, any, get_or, if◌then◌else◌, is_empty, is_truthy, is_some,
}
use genro_mail_proxy.Prelude.Text.{codes}
use genro_mail_proxy.Queue.{Message, SmtpAccount, Database, get_account}
use genro_mail_proxy.Queue.Fetch.Sort.{leb_text}
use genro_mail_proxy.Queue.Cleanup.{
  remove_fully_reported_before, remove_fully_reported_before_for_tenant,
}
use genro_mail_proxy.Queue.Deletion.{get_ids_for_tenant}

-- `sorted({mid for mid in message_ids if mid})`
unfoldable pub insert_id : String → List String → List String
insert_id i [] = i ∷ []
insert_id i (j ∷ js) =
    let rest = insert_id i js in
    if i ==ˢ j then j ∷ js else if leb_text (codes i) (codes j) then i ∷ j ∷ js else j ∷ rest

unfoldable pub sorted_ids : List String → List String
unfolding insert_id
sorted_ids [] = []
sorted_ids (i ∷ is) = let rest = sorted_ids is in if is_empty i then rest else insert_id i rest

-- The loop over the ids: those that are not authorized, or none for the TypeError of `delete`, which
-- takes one argument and is called with two. No row is deleted before it.
unfoldable pub refuse_ids : List String → List String → Option (List String)
refuse_ids authorized [] = some []
refuse_ids authorized (i ∷ is) =
    let rest = refuse_ids authorized is in
    if any (λ j. j ==ˢ i) authorized
    then none
    else elim rest [ none ↦ none | some js ↦ some (i ∷ js) ]

abbrev pub none_removed : Option (List String) → Option (ℕ × List String × List String)
none_removed none = none
none_removed (some unauthorized) = some (0, [], unauthorized)

-- The number removed, the ids not found and those not authorized.
unfoldable pub delete_messages :
    List String → String → Database → Option (ℕ × List String × List String)
unfolding sorted_ids refuse_ids get_ids_for_tenant
delete_messages message_ids tenant db =
    let ids = sorted_ids message_ids in
    none_removed (refuse_ids (get_ids_for_tenant ids tenant db) ids)

-- The retention of the settings holds if the call names no age; the age is not negative.
unfoldable pub cleanup_reported_messages :
    ℕ → ℕ → Option ℕ → Option String → Database → ℕ × Database
cleanup_reported_messages retention now older_than tenant db =
    let threshold = now - get_or older_than retention in
    if is_truthy tenant
    then remove_fully_reported_before_for_tenant threshold (get_or tenant "") db
    else remove_fully_reported_before threshold db

-- `accounts.remove`
unfoldable pub remove_account : String → String → Database → Database
remove_account tenant id db = record db {
  accounts = filter (λ a. not ((a.tenant_id ==ˢ tenant) && (a.id ==ˢ id))) db.accounts;
}

-- `deleteAccount`: whether the answer is ok.
unfoldable pub delete_account : Option String → String → Database → Bool × Database
unfolding remove_account
delete_account tenant id db =
    if is_truthy tenant && is_some (get_account db (get_or tenant "") id)
    then (true, remove_account (get_or tenant "") id db)
    else (false, db)
