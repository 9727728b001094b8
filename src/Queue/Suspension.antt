-- ===== src/Queue/Suspension.antt =====
-- src/core/mail_proxy/entities/tenant/table.py: the batches whose sending a tenant has suspended. A set
-- of batch codes is its sorted list, as `",".join(sorted(batches))` stores it.
pub mod Codes
pub mod Effect
use genro_mail_proxy.Prelude.{
  ℕ, String, Bool, true, false, ◌&&◌, ◌||◌, not, Option, none, some, List, [], ◌∷◌, ◌++◌, ◌==ˢ◌,
  if◌then◌else◌, find?, any, filter, map, is_some,
}
use genro_mail_proxy.Prelude.Text.{Text, codes, text_eq, is_star, split, join}
use genro_mail_proxy.Queue.{Tenant, Database, get_tenant}
use genro_mail_proxy.Queue.Fetch.Sort.{leb_text}

-- `code in batches`
unfoldable pub has_code : Text → List Text → Bool
has_code c ps = any (λ p. text_eq p c) ps

-- `batches.add(code)`
unfoldable pub add_code : Text → List Text → List Text
add_code c [] = c ∷ []
add_code c (p ∷ ps) =
    let rest = add_code c ps in
    if text_eq p c then p ∷ ps else if leb_text c p then c ∷ p ∷ ps else p ∷ rest

-- `set(pieces)`
unfoldable pub code_set : List Text → List Text
unfolding add_code
code_set [] = []
code_set (p ∷ ps) = add_code p (code_set ps)

-- `batches.discard(code)`
unfoldable pub discard : Text → List Text → List Text
discard c ps = filter (λ p. not (text_eq p c)) ps

-- `set(current.split(",")) if current else set()`, without the empty code.
unfoldable pub stored_batches : Option Text → List Text
unfolding code_set discard
stored_batches none = []
stored_batches (some []) = []
stored_batches (some (c ∷ s)) = discard [] (code_set (split b',' (c ∷ s)))

unfoldable pub is_batch_suspended : Option Text → Option Text → Bool
unfolding has_code
is_batch_suspended none code = false
is_batch_suspended (some []) code = false
is_batch_suspended (some (c ∷ s)) none = is_star (c ∷ s)
is_batch_suspended (some (c ∷ s)) (some code) =
    is_star (c ∷ s) || has_code code (split b',' (c ∷ s))

-- The new value of the column, for a tenant that exists.
unfoldable pub suspended_value : Option Text → Option Text → Option Text
unfolding stored_batches
suspended_value current none = some (b'*' ∷ [])
suspended_value current (some code) =
    if elim current [ none ↦ false | some s ↦ is_star s ]
    then current
    else some (join (b',' ∷ []) (add_code code (stored_batches current)))

-- `",".join(sorted(batches)) if batches else None`
abbrev pub joined_or_none : List Text → Option Text
joined_or_none [] = none
joined_or_none (p ∷ ps) = some (join (b',' ∷ []) (p ∷ ps))

-- Whether the change is allowed, and the new value: no single batch leaves `*`.
unfoldable pub activated_value : Option Text → Option Text → Bool × Option Text
unfolding stored_batches
activated_value current none = (true, none)
activated_value current (some code) =
    if elim current [ none ↦ false | some s ↦ is_star s ]
    then (false, current)
    else (true, joined_or_none (discard code (stored_batches current)))

unfoldable pub write_suspended : String → Option Text → List Tenant → List Tenant
write_suspended id value [] = []
write_suspended id value (t ∷ ts) =
    (if t.id ==ˢ id then record t { suspended_batches = value } else t)
    ∷ write_suspended id value ts

-- False if there is no such tenant.
unfoldable pub suspend_batch : String → Option Text → Database → Bool × Database
unfolding write_suspended suspended_value
suspend_batch id code db = elim (get_tenant db id) [
  | none ↦ (false, db)
  | some t ↦ (
    true,
    record db {
      tenants = write_suspended id (suspended_value t.suspended_batches code) db.tenants;
    },
  )
]

unfoldable pub activate_batch : String → Option Text → Database → Bool × Database
unfolding write_suspended activated_value
activate_batch id code db = elim (get_tenant db id) [
  | none ↦ (false, db)
  | some t ↦
      (let (allowed, value) = activated_value t.suspended_batches code in
        (allowed, record db { tenants = write_suspended id value db.tenants }))
]

unfoldable pub get_suspended_batches : String → Database → List Text
unfolding stored_batches
get_suspended_batches id db = elim (get_tenant db id) [
  | none ↦ []
  | some t ↦
      if elim t.suspended_batches [ none ↦ false | some s ↦ is_star s ]
      then (b'*' ∷ []) ∷ []
      else stored_batches t.suspended_batches
]
