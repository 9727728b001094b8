-- ===== src/Queue/Upsert/Keys.antt =====
-- Rows under unique keys, and searches in them.

use genro_mail_proxy.Prelude.{
  String, ◌≡◌, refl, sym, ap, ◌∙◌, Bool, true, false, inl, inr, none, some, List, [], ◌∷◌, ◌++◌,
  arith, eq_iff, ◌==ˢ◌, if◌then◌else◌, find?, All, Bool-cases, is_some,
}
use genro_mail_proxy.Queue.{Message}
use genro_mail_proxy.Queue.Messages.{update_rows}
use genro_mail_proxy.Queue.Rows.{map_row}
use genro_mail_proxy.Queue.Fetch.Order.{Has}

-- No two rows have one key: `pk` is the primary key of the table.
abbrev pub UniqueKeys : List Message → Type 0
UniqueKeys [] = Unit
UniqueKeys (m ∷ ms) = All (λ n. (n.pk ==ˢ m.pk) ≡ false) ms × UniqueKeys ms

-- An update of the row with this key, seen at a row.
abbrev pub at_key : String → (Message → Message) → Message → Message
at_key pk f m = if m.pk ==ˢ pk then f m else m

pub find?-update_rows :
    (p : Message → Bool) (k : String) (f : Message → Message) (ms : List Message)
    → ((m : Message) → p (f m) ≡ p m)
    → find? p (update_rows k f ms) ≡ map_row (at_key k f) (find? p ms)
unfolding update_rows
find?-update_rows p k f [] same = refl
find?-update_rows p k f (m ∷ ms) same = ground (arith, same m, find?-update_rows p k f ms same)

pub find?-append :
    (p : Message → Bool) (ms : List Message) (m : Message)
    → find? p (ms ++ m ∷ [])
      ≡ (if is_some (find? p ms) then find? p ms else if p m then some m else none)
find?-append p [] m = ground arith
find?-append p (n ∷ ms) m = ground (arith, find?-append p ms m)

pub find?-Has :
    (p : Message → Bool) (ms : List Message) (a : Message) → find? p ms ≡ some a → Has a ms
find?-Has p [] a e = cc
find?-Has p (m ∷ ms) a e = elim (Bool-cases (p m)) [
  | inl here ↦ inl (ground arith)
  | inr there ↦ inr (find?-Has p ms a (ground arith))
]

pub other_key :
    (a m : Message) (ms : List Message)
    → All (λ n. (n.pk ==ˢ m.pk) ≡ false) ms
    → Has a ms
    → (a.pk ==ˢ m.pk) ≡ false
other_key a m [] h there = elim there [ ]
other_key a m (n ∷ ms) h (inl same) = rw same h.0
other_key a m (n ∷ ms) h (inr there) = other_key a m ms h.1 there

-- Rows with one key are one row.
pub same_key :
    (a b : Message) (ms : List Message)
    → UniqueKeys ms
    → Has a ms
    → Has b ms
    → (a.pk ==ˢ b.pk) ≡ true
    → a ≡ b
same_key a b [] u ha hb e = elim ha [ ]
same_key a b (m ∷ ms) u (inl am) (inl bm) e = am ∙ sym bm
same_key a b (m ∷ ms) u (inl am) (inr hb) e = ground (
  arith,
  ap (λ (x : Message). x.pk) am,
  other_key b m ms u.0 hb,
  eq_iff a.pk b.pk,
  eq_iff b.pk m.pk,
)
same_key a b (m ∷ ms) u (inr ha) (inl bm) e = ground (
  arith,
  ap (λ (x : Message). x.pk) bm,
  other_key a m ms u.0 ha,
  eq_iff a.pk b.pk,
  eq_iff a.pk m.pk,
)
same_key a b (m ∷ ms) u (inr ha) (inr hb) e = same_key a b ms u.1 ha hb e
