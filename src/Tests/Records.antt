-- ===== src/Tests/Records.antt =====
-- Records and encrypted values at small inputs.
use genro_mail_proxy.Prelude.{
  String, ◌≡◌, refl, true, none, some, List, [], ◌∷◌, ◌==ˢ◌, eq_iff, if◌then◌else◌, inl, inr,
  Bool-cases,
}
use mathlib.Core.Path.{subst}
use genro_mail_proxy.Prelude.Dict
use genro_mail_proxy.Prelude.Json.{str, obj, end}
use genro_mail_proxy.Tools.Encryption.{after_prefix, is_encrypted}
use genro_mail_proxy.Sql.Fields.{Row}
use genro_mail_proxy.Sql.Table.{Table, base_triggers, insert, select_one}
use genro_mail_proxy.Sql.Table.Unreadable.{select_one_unreadable}
use genro_mail_proxy.Tests.Memory.{key, memory, memory-IsLawful, json, json-IsSound}

not_brackets : is_encrypted "{}" ≡ true → ⊥
unfolding after_prefix
not_brackets there = cc there

rejects_encrypted :
    (s : String) → is_encrypted s ≡ true → (if s ==ˢ "{}" then some (obj end) else none) ≡ none
rejects_encrypted s there = elim (Bool-cases (s ==ˢ "{}")) [
  | inl same ↦
      absurd (not_brackets (subst (λ t. is_encrypted t ≡ true) ((eq_iff s "{}").0 same) there))
  | inr other ↦ rw other refl
]

abbrev accounts : Table
accounts = record {
  pkey = some "pk";
  json_columns = "config" ∷ [];
  encrypted_columns = "password" ∷ [];
  new_pkey_value = none;
}

abbrev account : Row
account = ("pk", str "p1") ∷ ("config", obj end) ∷ ("password", str "secret") ∷ []

-- The table of storages.
abbrev storages : Table
storages = record accounts { encrypted_columns = "config" ∷ [] }

select_one_unreadable_example :
    (s' : List Row) × (insert json storages memory (base_triggers (List Row) storages) account []
      ≡ some (account, s'))
    × (select_one json storages memory
          (base_triggers (List Row) storages)
          (("pk", str "p1") ∷ [])
          s'
        ≡ none)
unfolding Dict.lookup
select_one_unreadable_example =
    select_one_unreadable json storages memory account "pk" "p1" "config" (obj end) key []
      json-IsSound (refl, rejects_encrypted) memory-IsLawful refl (refl, tt) (refl, tt) refl refl
      refl refl refl refl refl refl refl refl
