-- ===== src/Accounts/Added.antt =====
-- What is read after an account was added.
use genro_mail_proxy.Prelude.{String, ◌≡◌, false, Option, some, ◌==ˢ◌, if◌then◌else◌, is_some}
use genro_mail_proxy.Prelude.Dict
use genro_mail_proxy.Prelude.Json.{Json, null, str}
use genro_mail_proxy.Sql.Fields.{Row}
use genro_mail_proxy.Sql.Adapter.{Adapter}
use genro_mail_proxy.Sql.Table.Many.{update_fields}
use genro_mail_proxy.Accounts.{get_value, with_pk, tls_of}

-- A record with a key or without.
with_pk_of : String → Row → Option Json → Row
with_pk_of uuid rec pk = if is_some pk then rec else Dict.insert "pk" (str uuid) rec

-- What the record of the account names is what a caller reads, but for the flag.
abbrev pub IsRead : Row → Json → Row → Row → Type 0
IsRead acc pk fields account =
    (Dict.lookup "pk" account ≡ some pk)
    × ((c : String) (v : Json)
        → "use_tls" ==ˢ c ≡ false
        → Dict.lookup c fields ≡ some v
        → Dict.lookup c account ≡ some v)
    × (Dict.lookup "use_tls" account ≡ some (tls_of (get_value "use_tls" null acc)))

-- The record that is saved.
abbrev pub account_record : String → Row → Row → Row
account_record uuid rec fields = update_fields fields (with_pk uuid rec)
