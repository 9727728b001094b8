-- ===== src/Queue/Fetch.antt =====
-- `fetch_ready` of src/core/mail_proxy/entities/message/table.py: the query for messages to deliver.
pub mod Sort
pub mod Order
pub mod Ready
pub mod Selection
unfoldable pub use Sort.{sort}
use genro_mail_proxy.Prelude.{
  ℕ, zero, suc, ◌+◌, String, Bool, true, false, ◌&&◌, ◌||◌, not, Option, none, some, List, [], ◌∷◌,
  ◌++◌, ◌==◌, ltb, leb, ◌==ˢ◌, if◌then◌else◌, filter, take, map, is_some,
}
use genro_mail_proxy.Prelude.Json.{Json, Fields, opt_str, opt_num}
use genro_mail_proxy.Prelude.Text.{Text, codes, is_star}
use genro_mail_proxy.Queue.{Message, Tenant, Dialect, Database, get_tenant}

unfoldable pub fold_case : ℕ → ℕ
fold_case c = if leb b'A' c && leb c b'Z' then c + 32 else c

-- Equality of characters under `LIKE`.
unfoldable pub same_char : Dialect → ℕ → ℕ → Bool
unfolding fold_case
same_char Dialect.postgresql c d = c == d
same_char Dialect.sqlite c d = fold_case c == fold_case d

unfoldable pub any_suffix : (Text → Bool) → Text → Bool
any_suffix p [] = p []
any_suffix p (c ∷ s) = p (c ∷ s) || any_suffix p s

-- SQL's `s LIKE pattern`: `%` stands for any text and `_` for any character.
unfoldable pub like : Dialect → Text → Text → Bool
unfolding same_char any_suffix
like d [] [] = true
like d [] (c ∷ s) = false
like d (p ∷ ps) s =
    if p == b'%'
    then any_suffix (like d ps) s
    else elim s [ [] ↦ false | c ∷ rest ↦ (p == b'_' || same_char d p c) && like d ps rest ]

-- `',' || suspended || ',' LIKE '%,' || batch_code || ',%'`
unfoldable pub listed : Dialect → Text → Text → Bool
unfolding like
listed d suspended code =
    like d (b'%' ∷ b',' ∷ code ++ b',' ∷ b'%' ∷ []) (b',' ∷ suspended ++ b',' ∷ [])

-- The suspension filter, on the columns of the joined tenant and of the message.
unfoldable pub not_suspended : Dialect → Option Text → Option String → Bool
unfolding listed
not_suspended d none code = true
not_suspended d (some s) none = not (is_star s)
not_suspended d (some s) (some code) = not (is_star s) && not (listed d s (codes code))

-- `t.suspended_batches`, NULL where the join finds no tenant.
unfoldable pub suspended_of : Database → Message → Option Text
suspended_of db m = elim (get_tenant db m.tenant_id) [ none ↦ none | some t ↦ t.suspended_batches ]

-- `m.deferred_ts IS NULL OR m.deferred_ts <= :now_ts`
unfoldable pub is_due : ℕ → Option ℕ → Bool
is_due now none = true
is_due now (some ts) = leb ts now

-- The filter on the priority: an exact one, or else a least one, or else none.
unfoldable pub priority_fits : Option ℕ → Option ℕ → ℕ → Bool
priority_fits (some p) least q = q == p
priority_fits none (some l) q = leb l q
priority_fits none none q = true

-- The WHERE clause.
unfoldable pub is_ready : Database → ℕ → Option ℕ → Option ℕ → Message → Bool
unfolding is_due priority_fits
is_ready db now priority least m =
    not (is_some m.smtp_ts)
    && is_due now m.deferred_ts
    && priority_fits priority least m.priority
    && not_suspended db.dialect (suspended_of db m) m.batch_code

-- A row as `_decode_payload` returns it. The query reads no `retry_count`, so the dict has none.
pub record Entry : Type 0 where
  pub pk : String
  pub id : String
  pub tenant_id : String
  pub account_id : Option String
  pub priority : ℕ
  pub batch_code : Option String
  pub deferred_ts : Option ℕ
  pub is_pec : Bool
  pub message : Json
  pub retry_count : Option ℕ

unfoldable pub decode : Message → Entry
decode m = record {
  pk = m.pk;
  id = m.id;
  tenant_id = m.tenant_id;
  account_id = m.account_id;
  priority = m.priority;
  batch_code = m.batch_code;
  deferred_ts = m.deferred_ts;
  is_pec = m.is_pec;
  message = m.payload;
  retry_count = none;
}

-- The rows that the query selects, in its order and up to its limit.
unfoldable pub select_ready : Database → ℕ → ℕ → Option ℕ → Option ℕ → List Message
select_ready db limit now priority least =
    take limit (sort (filter (is_ready db now priority least) db.messages))

unfoldable pub fetch_ready : Database → ℕ → ℕ → Option ℕ → Option ℕ → List Entry
unfolding select_ready decode
fetch_ready db limit now priority least = map decode (select_ready db limit now priority least)
