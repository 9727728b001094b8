-- ===== src/Tests/Registering.antt =====
-- An account that is there is added once more, with a password and a port that is a text.
use genro_mail_proxy.Prelude.{true, Option, some, [], ◌∷◌}
use genro_mail_proxy.Prelude.Dict
use genro_mail_proxy.Prelude.Int.{pos}
use genro_mail_proxy.Prelude.Json.{Json, bool, num, str}
use genro_mail_proxy.Sql.Fields.{Row}
use genro_mail_proxy.Accounts.{smtp_fields}

abbrev stored_row : Row
stored_row =
    ("pk", str "p1") ∷ ("tenant_id", str "acme") ∷ ("id", str "main") ∷ ("host", str "old") ∷ []

abbrev submitted : Row
submitted =
    ("tenant_id", str "acme")
    ∷ ("id", str "main")
    ∷ ("host", str "smtp")
    ∷ ("port", str "25")
    ∷ ("password", str "secret")
    ∷ ("use_tls", bool true)
    ∷ []

abbrev submitted_fields : Row
submitted_fields = smtp_fields submitted (str "smtp") (num (pos 25)) (num (pos 300))

abbrev numbered : Row → Option Row
numbered row = some (Dict.insert "port" (num (pos 25)) row)
