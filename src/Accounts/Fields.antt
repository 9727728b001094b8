-- ===== src/Accounts/Fields.antt =====
-- What the assignments of `add` name.
use genro_mail_proxy.Prelude.{
  String, ◌≡◌, refl, ap, ◌∙◌, false, Option, none, some, List, [], ◌∷◌, ◌++◌, ◌==ˢ◌, get_or, map,
  arith, eq_iff, inl, inr, Bool-cases,
}
use mathlib.Core.Path.{subst}
use genro_mail_proxy.Prelude.Int.{pos}
use genro_mail_proxy.Prelude.Dict
use genro_mail_proxy.Prelude.Json.{Json, null, num, truth}
use genro_mail_proxy.Sql.Fields.{Row}
use genro_mail_proxy.Sql.Fields.Each.{member, AreDistinct}
use genro_mail_proxy.Sql.Adapter.{HasFields}
use genro_mail_proxy.Sql.Table.Many.{update_fields}
use genro_mail_proxy.Sql.Table.Batch.{lookup-update_fields}
use genro_mail_proxy.Accounts.{
  and_then, get_value, int_of, imap_fields, imap_fields_with, smtp_fields, account_fields,
  use_tls_value,
}

abbrev pub columns : Row → List String
columns = map (λ field. field.0)

and_then-some {ℓ κ} :
    {A : Type ℓ} {B : Type κ} (o : Option A) (f : A → Option B) (b : B)
    → and_then o f ≡ some b
    → (a : A) × (o ≡ some a) × (f a ≡ some b)
and_then-some none f b given = cc given
and_then-some (some a) f b given = (a, refl, given)

some_injective {ℓ} : {A : Type ℓ} (a b : A) → some a ≡ some b → a ≡ b
some_injective a b same = ap (λ o. get_or o a) same

-- What the assignments name: no column twice, none of the key, and a flag for TLS.
abbrev pub HasShape : Row → Row → Type 0
HasShape acc fields =
    AreDistinct (columns fields)
    × (Dict.lookup "tenant_id" fields ≡ none)
    × (Dict.lookup "id" fields ≡ none)
    × (Dict.lookup "pk" fields ≡ none)
    × (Dict.lookup "use_tls" fields ≡ some (use_tls_value (get_value "use_tls" null acc)))

smtp_shape : (acc : Row) (host port ttl : Json) → HasShape acc (smtp_fields acc host port ttl ++ [])
unfolding Dict.lookup
smtp_shape acc host port ttl = (
  (
    refl,
    (refl, (refl, (refl, (refl, (refl, (refl, (refl, (refl, (refl, (refl, (refl, tt))))))))))),
  ),
  refl,
  refl,
  refl,
  refl,
)

imap_shape :
    (acc : Row) (host port ttl imap_port : Json)
    → HasShape acc (smtp_fields acc host port ttl ++ imap_fields_with acc imap_port)
unfolding Dict.lookup
imap_shape acc host port ttl imap_port = (
  (
    refl,
    (
      refl,
      (
        refl,
        (
          refl,
          (
            refl,
            (
              refl,
              (
                refl,
                (refl, (refl, (refl, (refl, (refl, (refl, (refl, (refl, (refl, (refl, tt)))))))))),
              ),
            ),
          ),
        ),
      ),
    ),
  ),
  refl,
  refl,
  refl,
  refl,
)

shape_with :
    (acc : Row) (host port ttl : Json) (imap : Row)
    → imap_fields acc ≡ some imap
    → HasShape acc (smtp_fields acc host port ttl ++ imap)
unfolding imap_fields
shape_with acc host port ttl imap made =
    elim (Bool-cases (truth (get_value "imap_host" null acc))) [
      | inl given ↦
          (let (imap_port, whole, rest) =
              and_then-some _ (λ imap_port. some (imap_fields_with acc imap_port)) imap
                (rw given at made) in
            subst (λ i. HasShape acc (smtp_fields acc host port ttl ++ i))
              (some_injective (imap_fields_with acc imap_port) imap rest)
              (imap_shape acc host port ttl imap_port))
      | inr without ↦
          subst (λ i. HasShape acc (smtp_fields acc host port ttl ++ i))
            (some_injective [] imap (rw without at made)) (smtp_shape acc host port ttl)
    ]

pub account_fields_shape :
    (acc fields : Row) → account_fields acc ≡ some fields → HasShape acc fields
unfolding account_fields imap_fields
account_fields_shape acc fields made =
    let (host, known, rest) = and_then-some (Dict.lookup "host" acc) _ fields made in
    let (port, whole, rest') =
      and_then-some (and_then (Dict.lookup "port" acc) int_of) _ fields rest in
    let (ttl, timed, rest2) =
      and_then-some (int_of (get_value "ttl" (num (pos 300)) acc)) _ fields rest' in
    let (imap, mailbox, rest3) = and_then-some (imap_fields acc) _ fields rest2 in
    subst (HasShape acc) (some_injective (smtp_fields acc host port ttl ++ imap) fields rest3)
      (shape_with acc host port ttl imap mailbox)

absent_column :
    (c : String) (fields : Row) → member c (columns fields) ≡ false → Dict.lookup c fields ≡ none
unfolding Dict.lookup
absent_column c [] absent = refl
absent_column c ((d, v) ∷ fields) absent = elim (Bool-cases (d ==ˢ c)) [
  | inl same ↦ ground (arith, same, absent)
  | inr other ↦ ground (arith, other, absent, absent_column c fields)
]

pub update_fields-HasFields :
    (fields rec : Row) → AreDistinct (columns fields) → HasFields fields (update_fields fields rec)
unfolding update_fields Dict.lookup
update_fields-HasFields [] rec distinct c v found = cc found
update_fields-HasFields ((d, w) ∷ fields) rec (alone, distinct) c v found =
    elim (Bool-cases (d ==ˢ c)) [
      | inl same ↦
          lookup-update_fields c fields (Dict.insert d w rec) (
            absent_column c fields
              (subst (λ e. member e (columns fields) ≡ false) ((eq_iff d c).0 same) alone))
          ∙ Dict.lookup-insert d c w rec
          ∙ rw same (rw same at found)
      | inr other ↦
          update_fields-HasFields fields (Dict.insert d w rec) distinct c v
            (ground (arith, other, found))
    ]
