-- ===== src/Queue/Deletion/Answers.antt =====
-- The answer to a deletion: which ids were removed, not found and unauthorized.
use genro_mail_proxy.Prelude.{
  ◌+◌, String, ◌≡◌, List, ◌++◌, ◌==ˢ◌, filter, any, count, All, if◌then◌else◌,
}
use genro_mail_proxy.Queue.{Database}
use genro_mail_proxy.Queue.Upsert.{UniqueKeys}
use genro_mail_proxy.Queue.Deletion.{Answer, refuse}
use genro_mail_proxy.Queue.Deletion.Judgement.{
  is_owned, is_held, is_known, is_removed, is_unauthorized, is_missing, made,
}

-- At its turn an id is judged as in the table before the deletion.
record Fits (old : Database) (tenant : String) (tenant_ids : List String) (db : Database)
    (id : String) : Type 0 where
  owned : any (λ i. i ==ˢ id) tenant_ids ≡ is_owned old tenant id
  held : is_held db tenant id ≡ is_held old tenant id
  known : is_known db id ≡ is_known old id

module _ (old : Database) (tenant : String) (tenant_ids : List String) where
  -- What one id adds to the answer.
  abbrev judged : String → Answer → Answer
  judged id a =
      if is_removed old tenant id
      then record a { removed = a.removed + 1 }
      else refuse (is_unauthorized old tenant id) id a

  -- What remains for the ids after it.
  abbrev Remains : List String → Database → Type 0
  Remains ids db = UniqueKeys db.messages × All (Fits old tenant tenant_ids db) ids

  -- An answer with the ids added that are removed, missing and unauthorized.
  abbrev extended : List String → Answer → Answer
  extended ids a =
      made (a.removed + count (is_removed old tenant) ids)
        (a.not_found ++ filter (is_missing old tenant) ids)
        (a.unauthorized ++ filter (is_unauthorized old tenant) ids)
