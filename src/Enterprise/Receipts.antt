-- ===== src/Enterprise/Receipts.antt =====
-- The receipts of certified mail: `_handle_receipt` and `_check_pec_timeouts` of
-- src/enterprise/mail_proxy/pec/receiver.py, over the message table of
-- src/enterprise/mail_proxy/entities/message/table_ee.py.
pub mod Timeouts
pub mod Settled
use genro_mail_proxy.Prelude.{
  ℕ, ◌-◌, String, Bool, true, false, ◌&&◌, not, Option, none, some, List, [], ◌∷◌, ◌++◌, ◌==ˢ◌,
  filter, any,
}
use genro_mail_proxy.Prelude.Json.{Json}
use genro_mail_proxy.Prelude.Text.{Text, codes}
use genro_mail_proxy.Queue.{Message, Database}
use genro_mail_proxy.Queue.Messages.{update}
use genro_mail_proxy.Queue.Events.{add_event}
use genro_mail_proxy.Queue.Cleanup.{is_before}
use genro_mail_proxy.Enterprise.Pec.{
  PecReceiptType, accettazione, consegna, mancata_consegna, non_accettazione, presa_in_carico,
}

unfoldable pub clear_pec_flag : String → Database → Database
clear_pec_flag pk = update pk (λ m. record m { is_pec = false })

-- `EXISTS (SELECT 1 FROM message_events ...)`
abbrev pub is_accepted : Database → String → Bool
is_accepted db pk =
    any (λ e. (e.message_pk ==ˢ pk) && (e.event_type ==ˢ "pec_acceptance")) db.message_events

abbrev pub is_waiting : ℕ → Database → Message → Bool
is_waiting cutoff db m = m.is_pec && (is_before m.smtp_ts cutoff && not (is_accepted db m.pk))

unfoldable pub get_pec_without_acceptance : ℕ → Database → List Message
get_pec_without_acceptance cutoff db = filter (is_waiting cutoff db) db.messages

abbrev pub event_type_map : PecReceiptType → String
event_type_map accettazione = "pec_acceptance"
event_type_map consegna = "pec_delivery"
event_type_map mancata_consegna = "pec_error"
event_type_map non_accettazione = "pec_error"
event_type_map presa_in_carico = "pec_acceptance"

abbrev pub type_name : PecReceiptType → String
type_name accettazione = "accettazione"
type_name consegna = "consegna"
type_name mancata_consegna = "mancata_consegna"
type_name non_accettazione = "non_accettazione"
type_name presa_in_carico = "presa_in_carico"

abbrev pub is_failure : PecReceiptType → Bool
is_failure mancata_consegna = true
is_failure non_accettazione = true
is_failure _ = false

-- A receipt with a type and the key of its message; the metadata are what the receipt has of a time, a
-- recipient and an error.
unfoldable pub handle_receipt : ℕ → String → PecReceiptType → Option Json → Database → Database
unfolding clear_pec_flag
handle_receipt now pk kind metadata db =
    let db' =
      add_event pk (event_type_map kind) now (some (codes "PEC " ++ codes (type_name kind)))
        metadata db in
    elim (is_failure kind) [ true ↦ clear_pec_flag pk db' | false ↦ db' ]

abbrev pub timeout_text : Text
timeout_text = codes "PEC acceptance timeout - message treated as normal email"

unfoldable pub time_out : ℕ → List Message → Database → Database
unfolding clear_pec_flag
time_out now [] db = db
time_out now (m ∷ ms) db =
    time_out now ms
      (add_event m.pk "pec_timeout" now (some timeout_text) none (clear_pec_flag m.pk db))

unfoldable pub check_pec_timeouts : ℕ → ℕ → Database → Database
unfolding time_out get_pec_without_acceptance
check_pec_timeouts timeout now db = time_out now (get_pec_without_acceptance (now - timeout) db) db
