-- ===== src/Cache/Memory/Counted.antt =====
-- The size of the memory cache, and what a removal does to it.
use genro_mail_proxy.Prelude.{
  ℕ, ◌+◌, ◌≤◌, String, ◌≡◌, refl, ap, ◌∙◌, none, some, [], ◌∷◌, arith, eq_iff, eq_refl, ◌==ˢ◌,
  if◌then◌else◌, length, inl, inr, Bool-cases, Option-cases,
}
use genro_mail_proxy.Prelude.Dict
use genro_mail_proxy.Prelude.Dict.{Dict}
use genro_mail_proxy.Cache.Memory.{Entry, MemoryCache, remove}

-- The bytes of all contents.
abbrev pub total : Dict Entry → ℕ
total [] = 0
total ((k, e) ∷ d) = length e.0 + total d

-- No key stands twice.
abbrev pub IsDict : Dict Entry → Type 0
IsDict [] = Unit
IsDict ((k, v) ∷ d) = (Dict.lookup k d ≡ none) × IsDict d

pub erase-absent : (k : String) (d : Dict Entry) → Dict.lookup k d ≡ none → Dict.erase k d ≡ d
unfolding Dict.lookup Dict.erase
erase-absent k [] h = refl
erase-absent k ((j, e) ∷ d) h = ground (arith, erase-absent k d, h)

pub IsDict-erase : (k : String) (d : Dict Entry) → IsDict d → IsDict (Dict.erase k d)
unfolding Dict.erase
IsDict-erase k [] h = tt
IsDict-erase k ((j, e) ∷ d) h = elim (Bool-cases (j ==ˢ k)) [
  | inl same ↦ rw same (IsDict-erase k d h.1)
  | inr other ↦ rw other (Dict.lookup-erase k j d ∙ ground (arith, h.0), IsDict-erase k d h.1)
]

pub total-erase :
    (k : String) (e : Entry) (d : Dict Entry)
    → IsDict d
    → Dict.lookup k d ≡ some e
    → length e.0 + total (Dict.erase k d) ≡ total d
unfolding Dict.lookup Dict.erase
total-erase k e [] h found = cc
total-erase k e ((j, f) ∷ d) h found = ground (
  arith,
  h.0,
  found,
  eq_iff j k,
  erase-absent k d,
  ap (λ i. Dict.erase i d) {x = j} {y = k},
  total-erase k e d h.1,
)

-- The size that is counted is the size of the contents, and no key stands twice.
pub record IsCounted (c : MemoryCache) : Type 0 where
  pub counted : c.current_bytes ≡ total c.cache
  pub distinct : IsDict c.cache

pub remove-IsCounted : (k : String) (c : MemoryCache) → IsCounted c → IsCounted (remove k c)
unfolding remove
remove-IsCounted k c h = elim (Option-cases (Dict.lookup k c.cache)) [
  | inl absent ↦ rw (absent, remove) h
  | inr found ↦
      rw (found.1, remove)
        (record {
          counted = omega (arith, h.counted, total-erase k found.0 c.cache h.distinct found.1);
          distinct = IsDict-erase k c.cache h.distinct;
        })
]

pub remove-total :
    (k : String) (c : MemoryCache)
    → ((remove k c).max_bytes ≡ c.max_bytes)
      × ((remove k c).ttl_seconds ≡ c.ttl_seconds)
      × ((remove k c).current_bytes ≤ c.current_bytes)
unfolding remove
remove-total k c = ground arith

pub lookup-remove :
    (k j : String) (c : MemoryCache)
    → Dict.lookup j (remove k c).cache ≡ (if k ==ˢ j then none else Dict.lookup j c.cache)
unfolding remove
lookup-remove k j c = ground (arith, Dict.lookup-erase k j c.cache, eq_iff k j)

-- There is room for `size` more bytes.
abbrev pub HasSpace : ℕ → MemoryCache → Type 0
HasSpace size c = c.current_bytes + size ≤ c.max_bytes

length-erase : (k : String) (d : Dict Entry) → length (Dict.erase k d) ≤ length d
unfolding Dict.erase
length-erase k [] = omega arith
length-erase k ((j, e) ∷ d) = ground (arith, length-erase k d)

pub length-remove_oldest :
    (k : String) (e : Entry) (d : Dict Entry) (c : MemoryCache)
    → c.cache ≡ (k, e) ∷ d
    → length (remove k c).cache ≤ length d
unfolding remove Dict.lookup Dict.erase
length-remove_oldest k e d c shape = ground (arith, shape, eq_refl k, length-erase k d)
