-- ===== src/Queue/Cleanup/Retention.antt =====
-- Which rows the retention of the messages removes.

use genro_mail_proxy.Prelude.{
  ℕ, ◌+◌, length, String, ◌≡◌, refl, ap, ◌∙◌, ◌↔◌, Bool, true, false, ◌&&◌, not, inl, inr, none,
  List, [], ◌∷◌, arith, ◌==ˢ◌, filter, count, any, is_some, Bool-cases,
}
use genro_mail_proxy.Queue.{Message, MessageEvent, Database}
use genro_mail_proxy.Queue.Events.{unreported}
use genro_mail_proxy.Queue.Cleanup.{
  max_ts, last_reported, is_before, fully_reported_before, remove_fully_reported_before,
}
use genro_mail_proxy.Queue.Fetch.Order.{Has, Has-filter}

-- The client was told of this event before the threshold.
abbrev pub was_reported : ℕ → MessageEvent → Bool
was_reported threshold e = is_before e.reported_ts threshold

-- An event of the message with this key.
abbrev pub of_message : String → MessageEvent → Bool
of_message pk e = e.message_pk ==ˢ pk

-- An event of the message that the client was not told of before the threshold.
abbrev pub open_event : String → ℕ → MessageEvent → Bool
open_event pk threshold e = of_message pk e && not (was_reported threshold e)

-- The message is processed, has an event, and the client was told of all its events before the threshold.
abbrev pub IsDone : Database → ℕ → Message → Type 0
IsDone db threshold m =
    (is_some m.smtp_ts ≡ true)
    × (any (of_message m.pk) db.message_events ≡ true)
    × (any (open_event m.pk threshold) db.message_events ≡ false)

no_report :
    (pk : String) (es : List MessageEvent)
    → any (λ e. (e.message_pk ==ˢ pk) && unreported e) es ≡ false
    → last_reported pk es ≡ none
    → any (of_message pk) es ≡ false
unfolding last_reported max_ts
no_report pk [] h l = refl
no_report pk (e ∷ es) h l = ground (arith, no_report pk es)

no_open :
    (pk : String) (t : ℕ) (es : List MessageEvent)
    → any (of_message pk) es ≡ false
    → any (open_event pk t) es ≡ false
no_open pk t [] h = refl
no_open pk t (e ∷ es) h = ground (arith, no_open pk t es)

some_open :
    (pk : String) (t : ℕ) (es : List MessageEvent)
    → any (λ e. (e.message_pk ==ˢ pk) && unreported e) es ≡ true
    → any (open_event pk t) es ≡ true
some_open pk t [] h = ground arith
some_open pk t (e ∷ es) h = ground (arith, some_open pk t es)

absent :
    (pk : String) (es : List MessageEvent)
    → any (of_message pk) es ≡ false
    → last_reported pk es ≡ none
unfolding last_reported
absent pk [] h = refl
absent pk (e ∷ es) h = ground (arith, absent pk es)

-- The query's conditions on the events of a message.
reports :
    (pk : String) (t : ℕ) (es : List MessageEvent)
    → (not (any (λ e. (e.message_pk ==ˢ pk) && unreported e) es)
        && is_before (last_reported pk es) t)
      ≡ (any (of_message pk) es && not (any (open_event pk t) es))
unfolding last_reported max_ts
reports pk t [] = refl
reports pk t (e ∷ es) =
    ground
      (arith, reports pk t es, no_report pk es, no_open pk t es, some_open pk t es, absent pk es)

pub fully_reported_before-IsDone :
    (db : Database) (threshold : ℕ) (m : Message)
    → (fully_reported_before db threshold m ≡ true) ↔ IsDone db threshold m
unfolding fully_reported_before
fully_reported_before-IsDone db threshold m = (
  λ h. ground (arith, reports m.pk threshold db.message_events, h),
  λ h. ground (arith, reports m.pk threshold db.message_events, h.0, h.1, h.2),
)

filter_step :
    (p : Message → Bool) (m n : Message) (ms : List Message) (b : Bool)
    → p n ≡ b
    → (Has m (filter p ms) → Has m ms × p m ≡ true)
    → Has m (elim b [ true ↦ n ∷ filter p ms | false ↦ filter p ms ])
    → Has m (n ∷ ms) × p m ≡ true
filter_step p m n ms true kept rest (inl same) = (inl same, ap p same ∙ kept)
filter_step p m n ms true kept rest (inr there) = let r = rest there in (inr r.0, r.1)
filter_step p m n ms false gone rest there = let r = rest there in (inr r.0, r.1)

Has-filter_back :
    (p : Message → Bool) (m : Message) (ms : List Message)
    → Has m (filter p ms)
    → Has m ms × p m ≡ true
Has-filter_back p m [] h = elim h [ ]
Has-filter_back p m (n ∷ ms) h = filter_step p m n ms (p n) refl (Has-filter_back p m ms) h

count-filter :
    (p : Message → Bool) (ms : List Message)
    → count p ms + length (filter (λ m. not (p m)) ms) ≡ length ms
count-filter p [] = refl
count-filter p (m ∷ ms) = ground (arith, count-filter p ms)

-- The retention removes a row exactly if the message is processed, has an event, and the client was
-- told of all its events before the threshold. It counts the rows that it removes, and every other row
-- stays.
pub remove_fully_reported_before_lem :
    (threshold : ℕ) (db : Database) (m : Message)
    → Has m db.messages
    → (Has m (remove_fully_reported_before threshold db).1.messages ↔ ¬ IsDone db threshold m)
      × ((remove_fully_reported_before threshold db).0
            + length (remove_fully_reported_before threshold db).1.messages
          ≡ length db.messages)
unfolding remove_fully_reported_before
remove_fully_reported_before_lem threshold db m there = (
  (
    λ (kept : Has m (filter (λ n. not (fully_reported_before db threshold n)) db.messages))
          (done : IsDone db threshold m).
        cc (
          (fully_reported_before-IsDone db threshold m).1 done,
          (Has-filter_back (λ n. not (fully_reported_before db threshold n)) m db.messages kept).1,
        ),
    λ (undone : ¬ IsDone db threshold m).
        Has-filter (λ n. not (fully_reported_before db threshold n)) m db.messages
          (elim (Bool-cases (fully_reported_before db threshold m)) [
            | inl gone ↦ elim (undone ((fully_reported_before-IsDone db threshold m).0 gone)) [ ]
            | inr stays ↦ rw stays refl
          ])
          there,
  ),
  count-filter (fully_reported_before db threshold) db.messages,
)
