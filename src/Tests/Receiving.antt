-- ===== src/Tests/Receiving.antt =====
-- Received mail at small inputs.
use genro_mail_proxy.Prelude.{ℕ, ◌≡◌, ◌↔◌, refl, true, false, none, some, List, [], ◌∷◌, map}
use genro_mail_proxy.Prelude.Text.{Text, codes, lower, strip, starts_with, split, text_eq}
use genro_mail_proxy.Queue.{Database}
use genro_mail_proxy.Enterprise.Pec.{
  accettazione, non_accettazione, receipt_type_map, of_map, detect_receipt_type,
}
use genro_mail_proxy.Enterprise.Pec.Subjects.{detect_refusal}
use genro_mail_proxy.Enterprise.Receipts.{
  handle_receipt, get_pec_without_acceptance, check_pec_timeouts,
}
use genro_mail_proxy.Enterprise.Receipts.Settled.{is_found, handle_receipt_lem}
use genro_mail_proxy.Enterprise.Receipts.Timeouts.{declassify, check_pec_timeouts_lem}
use genro_mail_proxy.Enterprise.Bounce.{hard, type_of, extract_dsn_info}
use genro_mail_proxy.Enterprise.Bounce.Report.{Part, status_list, original_text, parse_dsn}
use genro_mail_proxy.Enterprise.Receiver.{BounceReceiver, process_bounces}
use genro_mail_proxy.Enterprise.Receiver.Polls.{process_bounces_again}
use genro_mail_proxy.Enterprise.Bounce.Parts.{parse_dsn_type}
use genro_mail_proxy.Tests.Data.{processed, queue}

-- A refusal without the header is taken for an acceptance.
refused : detect_receipt_type [] (codes "AVVISO DI NON ACCETTAZIONE: Oggetto") ≡ some accettazione
unfolding detect_receipt_type lower strip starts_with text_eq
refused = refl

detect_refusal_example :
    (detect_receipt_type (codes "non-accettazione") (codes "Oggetto") ≡ some non_accettazione)
    ↔ (of_map (strip (lower (codes "non-accettazione"))) receipt_type_map ≡ some non_accettazione)
detect_refusal_example = detect_refusal (codes "non-accettazione") (codes "Oggetto")

-- The message was sent at 95 by certified mail.
abbrev certified : Database
certified = record queue { messages = record processed { is_pec = true } ∷ [] }

check_pec_timeouts_example :
    (get_pec_without_acceptance 200 (check_pec_timeouts 1800 2000 certified) ≡ [])
    × ((check_pec_timeouts 1800 2000 certified).messages
        ≡ declassify
            (map (λ m. m.pk) (get_pec_without_acceptance 200 certified))
            certified.messages)
check_pec_timeouts_example = check_pec_timeouts_lem 1800 2000 certified

handle_receipt_example :
    is_found 200 "k2" (handle_receipt 100 "k2" accettazione none certified) ≡ false
handle_receipt_example = handle_receipt_lem 200 100 "k2" accettazione none certified (λ e. cc)

abbrev status : Text
status = codes "Action: failed\nStatus: 5.1.1\nDiagnostic-Code: smtp; 452 full"

-- The statuses of a report on two messages, the first one with no code.
abbrev report : List Part
report =
    status_list (codes "Reporting-MTA: dns; m.example" ∷ status ∷ [])
    ∷ original_text (codes "To: a\nX-Genro-Mail-ID: m2\n")
    ∷ []

parse_dsn_type_example : (parse_dsn report).bounce_type ≡ some (type_of (codes "511"))
unfolding parse_dsn extract_dsn_info split lower strip starts_with text_eq
parse_dsn_type_example =
    parse_dsn_type report (codes "511")
      ((((refl, tt), refl), (((refl, (refl, (refl, tt))), refl), tt)), (tt, tt)) refl

found_id : (parse_dsn report).original_message_id ≡ some (codes "m2")
unfolding parse_dsn strip
found_id = refl

-- The code of one recipient and the type of another one.
mixed :
    (parse_dsn (status_list (codes "Status: 4.5.2" ∷ codes "Action: failed" ∷ []) ∷ [])).bounce_type
    ≡ some hard
unfolding parse_dsn extract_dsn_info split strip text_eq
mixed = refl

abbrev receiver : BounceReceiver
receiver = record { last_uid = 5; uidvalidity = none; db = certified }

-- A poll of a mailbox with one report.
abbrev poll : ℕ → BounceReceiver
poll now = process_bounces (λ s. "k2") parse_dsn (λ n. 7 ∷ []) (λ u. some report) now 4 receiver

polled : (poll 200).last_uid ≡ 7
unfolding process_bounces
polled = refl

process_bounces_again_example :
    process_bounces (λ s. "k2") parse_dsn (λ n. 7 ∷ []) (λ u. some report) 300 4 (poll 200)
    ≡ poll 200
process_bounces_again_example =
    process_bounces_again (λ s. "k2") parse_dsn (λ n. 7 ∷ []) (λ u. some report) (7 ∷ []) 200 300 4
      receiver (λ n. refl) (refl, tt)
