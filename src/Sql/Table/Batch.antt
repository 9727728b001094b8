-- ===== src/Sql/Table/Batch.antt =====
-- What a batch update makes of JSON columns.
use genro_mail_proxy.Prelude.{
  String, ◌≡◌, refl, ◌∙◌, none, [], ◌∷◌, ◌==ˢ◌, arith, Bool-cases, inl, inr,
}
use genro_mail_proxy.Prelude.Dict
use genro_mail_proxy.Prelude.Json.{Json}
use genro_mail_proxy.Sql.Fields.{Row}
use genro_mail_proxy.Sql.Adapter.{Adapter}
use genro_mail_proxy.Sql.Table.Many.{update_fields}
use genro_mail_proxy.Sql.Table.{Table}

pub lookup-update_fields :
    (c : String) (updater row : Row)
    → Dict.lookup c updater ≡ none
    → Dict.lookup c (update_fields updater row) ≡ Dict.lookup c row
unfolding update_fields Dict.lookup
lookup-update_fields c [] row absent = refl
lookup-update_fields c ((d, v) ∷ updater) row absent = elim (Bool-cases (d ==ˢ c)) [
  | inl same ↦ ground (arith, same, absent)
  | inr other ↦
      lookup-update_fields c updater (Dict.insert d v row) (ground (arith, other, absent))
      ∙ Dict.lookup-insert d c v row
      ∙ rw other refl
]
