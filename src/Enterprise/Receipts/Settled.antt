-- ===== src/Enterprise/Receipts/Settled.antt =====
-- What a receipt does to the check for timeouts.
use genro_mail_proxy.Prelude.{
  ℕ, String, ◌≡◌, ◌≢◌, refl, ap, Bool, true, false, ◌&&◌, Option, some, List, [], ◌∷◌, ◌++◌, ◌==ˢ◌,
  eq_iff, arith, filter, any,
}
use genro_mail_proxy.Prelude.Json.{Json}
use genro_mail_proxy.Prelude.Text.{Text, codes}
use genro_mail_proxy.Queue.{Message, MessageEvent, Database}
use genro_mail_proxy.Queue.Messages.{update, update_rows}
use genro_mail_proxy.Queue.Events.{add_event, new_event, trigger_on_inserted}
use genro_mail_proxy.Enterprise.Pec.{
  PecReceiptType, accettazione, consegna, mancata_consegna, non_accettazione, presa_in_carico,
}
use genro_mail_proxy.Enterprise.Receipts.{
  clear_pec_flag, is_accepted, is_waiting, get_pec_without_acceptance, handle_receipt, type_name,
}

-- Whether the check finds the row with a key.
abbrev pub is_found : ℕ → String → Database → Bool
is_found cutoff pk db = any (λ m. m.pk ==ˢ pk) (get_pec_without_acceptance cutoff db)

accepted_not_found :
    (cutoff : ℕ) (pk : String) (db : Database) (ms : List Message)
    → is_accepted db pk ≡ true
    → any (λ m. m.pk ==ˢ pk) (filter (is_waiting cutoff db) ms) ≡ false
accepted_not_found cutoff pk db [] accepted = refl
accepted_not_found cutoff pk db (m ∷ ms) accepted = ground (
  arith,
  eq_iff m.pk pk,
  ap (is_accepted db) {x = m.pk} {y = pk},
  accepted,
  accepted_not_found cutoff pk db ms accepted,
)

cleared_not_found :
    (cutoff : ℕ) (pk : String) (db : Database) (ms : List Message)
    → any
        (λ m. m.pk ==ˢ pk)
        (filter (is_waiting cutoff db) (update_rows pk (λ m. record m { is_pec = false }) ms))
      ≡ false
unfolding update_rows
cleared_not_found cutoff pk db [] = refl
cleared_not_found cutoff pk db (m ∷ ms) = ground (arith, cleared_not_found cutoff pk db ms)

accepted_last :
    (pk : String) (e : MessageEvent) (es : List MessageEvent)
    → e.message_pk ≡ pk
    → e.event_type ≡ "pec_acceptance"
    → any (λ x. (x.message_pk ==ˢ pk) && (x.event_type ==ˢ "pec_acceptance")) (es ++ e ∷ []) ≡ true
accepted_last pk e [] own kind =
    ground (arith, eq_iff e.message_pk pk, eq_iff e.event_type "pec_acceptance", own, kind)
accepted_last pk e (x ∷ es) own kind = ground (arith, accepted_last pk e es own kind)

is_accepted-add_event :
    (pk : String) (now : ℕ) (text : Option Text) (metadata : Option Json) (db : Database)
    → is_accepted (add_event pk "pec_acceptance" now text metadata db) pk ≡ true
unfolding add_event trigger_on_inserted
is_accepted-add_event pk now text metadata db = ground (
  arith,
  accepted_last pk (new_event db pk "pec_acceptance" now text metadata) db.message_events refl refl,
)

abbrev receipt_text : PecReceiptType → Option Text
receipt_text kind = some (codes "PEC " ++ codes (type_name kind))

accepted_found :
    (cutoff now : ℕ) (pk : String) (kind : PecReceiptType) (metadata : Option Json) (db : Database)
    → is_found cutoff pk (add_event pk "pec_acceptance" now (receipt_text kind) metadata db) ≡ false
unfolding get_pec_without_acceptance
accepted_found cutoff now pk kind metadata db =
    let db' = add_event pk "pec_acceptance" now (receipt_text kind) metadata db in
    accepted_not_found cutoff pk db' db'.messages
      (is_accepted-add_event pk now (receipt_text kind) metadata db)

-- After a receipt for a message, of any kind but the one of the delivery, the check for timeouts does not
-- find the message any more, whatever the limit.
pub handle_receipt_lem :
    (cutoff now : ℕ) (pk : String) (kind : PecReceiptType) (metadata : Option Json) (db : Database)
    → kind ≢ consegna
    → is_found cutoff pk (handle_receipt now pk kind metadata db) ≡ false
unfolding handle_receipt get_pec_without_acceptance clear_pec_flag update
handle_receipt_lem cutoff now pk accettazione metadata db other =
    accepted_found cutoff now pk accettazione metadata db
handle_receipt_lem cutoff now pk presa_in_carico metadata db other =
    accepted_found cutoff now pk presa_in_carico metadata db
handle_receipt_lem cutoff now pk mancata_consegna metadata db other =
    cleared_not_found cutoff pk (handle_receipt now pk mancata_consegna metadata db)
      (add_event pk "pec_error" now (receipt_text mancata_consegna) metadata db).messages
handle_receipt_lem cutoff now pk non_accettazione metadata db other =
    cleared_not_found cutoff pk (handle_receipt now pk non_accettazione metadata db)
      (add_event pk "pec_error" now (receipt_text non_accettazione) metadata db).messages
handle_receipt_lem cutoff now pk consegna metadata db other = absurd (other refl)
