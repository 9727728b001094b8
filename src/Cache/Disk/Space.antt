-- ===== src/Cache/Disk/Space.antt =====
-- What the loop over the files, oldest first, leaves on the disk.
use genro_mail_proxy.Prelude.{
  ℕ, ◌+◌, ◌-◌, ◌≤◌, String, ◌≡◌, refl, sym, ap, ◌∙◌, false, none, some, List, [], ◌∷◌, leb, arith,
  eq_iff, eq_refl, ◌==ˢ◌, length, inl, inr, Bool-cases,
}
use mathlib.Core.Path.{subst}
use genro_mail_proxy.Prelude.Dict
use genro_mail_proxy.Prelude.Dict.{Dict}
use genro_mail_proxy.Cache.Memory.{Entry}
use genro_mail_proxy.Cache.Memory.Counted.{total, IsDict, IsDict-erase, total-erase, erase-absent}
use genro_mail_proxy.Cache.Disk.{
  File, DiskCache, total_size, insert_by_age, cache_files_by_age, unlink_files, ensure_space,
}

pub total_size-total : (d : Dict Entry) → total_size d ≡ total d
unfolding total_size
total_size-total [] = refl
total_size-total ((k, e) ∷ d) = ap (λ n. length e.0 + n) (total_size-total d)

-- The list names every file with its size, once.
abbrev Names : List File → Dict Entry → Type 0
Names [] d = d ≡ []
Names (f ∷ fs) d =
    (e : Entry) × (Dict.lookup f.0 d ≡ some e) × (length e.0 ≡ f.1.0) × Names fs (Dict.erase f.0 d)

unlink_files_fits :
    (max needed current : ℕ) (fs : List File) (d : Dict Entry)
    → IsDict d
    → Names fs d
    → current ≡ total d
    → needed ≤ max
    → IsDict (unlink_files max needed current fs d)
      × (total (unlink_files max needed current fs d) + needed ≤ max)
unfolding unlink_files
unlink_files_fits max needed current [] d h empty counted small =
    (h, ground (arith, small, ap total empty))
unlink_files_fits max needed current ((k, (size, mtime)) ∷ fs) d h (e, found, sized, rest) counted
      small =
    let later =
      unlink_files_fits max needed (current - size) fs (Dict.erase k d) (IsDict-erase k d h) rest
        (omega (arith, counted, sized, total-erase k e d h found)) small in
    elim (Bool-cases (leb (current + needed) max)) [
      | inl fits ↦ rw fits (h, ground (arith, fits, counted))
      | inr full ↦ rw full later
    ]

here :
    (k : String) (e : Entry) (d : Dict Entry)
    → (Dict.lookup k ((k, e) ∷ d) ≡ some e) × (Dict.erase k ((k, e) ∷ d) ≡ Dict.erase k d)
unfolding Dict.lookup Dict.erase
here k e d = (rw (eq_refl k) refl, rw (eq_refl k) refl)

there :
    (k g : String) (e : Entry) (d : Dict Entry)
    → (k ==ˢ g) ≡ false
    → (Dict.lookup g ((k, e) ∷ d) ≡ Dict.lookup g d)
      × (Dict.erase g ((k, e) ∷ d) ≡ (k, e) ∷ Dict.erase g d)
unfolding Dict.lookup Dict.erase
there k g e d other = (rw other refl, rw other refl)

in_front :
    (k : String) (e : Entry) (fs : List File) (d : Dict Entry)
    → Dict.lookup k d ≡ none
    → Names fs d
    → Names ((k, (length e.0, e.1)) ∷ fs) ((k, e) ∷ d)
in_front k e fs d absent names = (
  e,
  (here k e d).0,
  refl,
  subst (Names fs) (sym ((here k e d).1 ∙ erase-absent k d absent)) names,
)

insert_by_age-Names :
    (k : String) (e : Entry) (fs : List File) (d : Dict Entry)
    → Dict.lookup k d ≡ none
    → Names fs d
    → Names (insert_by_age (k, (length e.0, e.1)) fs) ((k, e) ∷ d)
unfolding insert_by_age
insert_by_age-Names k e [] d absent names = in_front k e [] d absent names
insert_by_age-Names k e (g ∷ gs) d absent names = elim (Bool-cases (leb e.1 g.1.1)) [
  | inl first ↦ rw first (in_front k e (g ∷ gs) d absent names)
  | inr later ↦
      let other : (k ==ˢ g.0) ≡ false =
        ground
          (arith, eq_iff k g.0, ap (λ i. Dict.lookup i d) {x = k} {y = g.0}, absent, names.1) in
      let still : Dict.lookup k (Dict.erase g.0 d) ≡ none =
        Dict.lookup-erase g.0 k d ∙ ground (arith, absent) in
      rw later (
        names.0,
        (there k g.0 e d other).0 ∙ names.1,
        names.2,
        subst (Names (insert_by_age (k, (length e.0, e.1)) gs)) (sym (there k g.0 e d other).1)
            (insert_by_age-Names k e gs (Dict.erase g.0 d) still names.3),
      )
]

files-Names : (d : Dict Entry) → IsDict d → Names (cache_files_by_age d) d
unfolding cache_files_by_age
files-Names [] h = refl
files-Names ((k, e) ∷ d) h =
    insert_by_age-Names k e (cache_files_by_age d) d h.0 (files-Names d h.1)

-- The room for a content that is not larger than the whole cache is made.
pub ensure_space_fits :
    (needed : ℕ) (c : DiskCache)
    → IsDict c.files
    → needed ≤ c.max_bytes
    → IsDict (ensure_space needed c).files
      × (total (ensure_space needed c).files + needed ≤ c.max_bytes)
      × ((ensure_space needed c).max_bytes ≡ c.max_bytes)
unfolding ensure_space
ensure_space_fits needed c h small =
    let counted = total_size-total c.files in
    let made =
      unlink_files_fits c.max_bytes needed (total_size c.files) (cache_files_by_age c.files) c.files
        h (files-Names c.files h) counted small in
    elim (Bool-cases (leb (total_size c.files + needed) c.max_bytes)) [
      | inl fits ↦ rw fits (h, ground (arith, fits, counted), refl)
      | inr full ↦ rw full (made.0, made.1, refl)
    ]
