-- ===== src/Cache/Memory/Room.antt =====
-- The loop that makes room.
use genro_mail_proxy.Prelude.{
  ℕ, zero, suc, ◌+◌, ◌≤◌, String, ◌≡◌, refl, ap, some, [], ◌∷◌, ltb, arith, length, ◌⊎◌, inl, inr,
  Bool-cases, Option-cases,
}
use genro_mail_proxy.Prelude.Dict.{Dict}
use genro_mail_proxy.Cache.Memory.{Entry, MemoryCache, remove, oldest, make_room}
use genro_mail_proxy.Cache.Memory.Counted.{
  IsCounted, remove-IsCounted, remove-total, HasSpace, length-remove_oldest,
}

pub Dict-cases :
    (d : Dict Entry)
    → (d ≡ []) ⊎ ((k : String) × (e : Entry) × (rest : Dict Entry) × (d ≡ (k, e) ∷ rest))
Dict-cases [] = inl refl
Dict-cases ((k, e) ∷ rest) = inr (k, e, rest, refl)

empty_fits :
    (size : ℕ) (c : MemoryCache) → IsCounted c → c.cache ≡ [] → size ≤ c.max_bytes → HasSpace size c
empty_fits size c h shape small = ground (arith, h.counted, shape)

-- What every removal keeps, the loop keeps.
pub make_room_keeps {ℓ} :
    (P : MemoryCache → Type ℓ) (fuel size : ℕ) (c : MemoryCache)
    → ((k : String) (x : MemoryCache) → oldest x.cache ≡ some k → P x → P (remove k x))
    → P c
    → P (make_room fuel size c)
unfolding make_room
make_room_keeps P zero size c keeps h = h
make_room_keeps P (suc fuel) size c keeps h = elim (Option-cases (oldest c.cache)) [
  | inl none_left ↦ rw (none_left, make_room) h
  | inr found ↦ elim (Bool-cases (ltb c.max_bytes (c.current_bytes + size))) [
    | inl full ↦
        rw (found.1, full, make_room)
          (make_room_keeps P fuel size (remove found.0 c) keeps (keeps found.0 c found.1 h))
    | inr fits ↦ rw (found.1, fits, make_room) h
  ]
]

-- With as much fuel as there are entries the loop ends because the content fits, where it is not larger
-- than the whole cache.
pub make_room_fits :
    (fuel size : ℕ) (c : MemoryCache)
    → length c.cache ≤ fuel
    → IsCounted c
    → size ≤ c.max_bytes
    → HasSpace size (make_room fuel size c)
unfolding make_room
make_room_fits zero size c enough h small = elim (Dict-cases c.cache) [
  | inl shape ↦ empty_fits size c h shape small
  | inr more ↦ absurd (ground (arith, enough, more.3))
]
make_room_fits (suc fuel) size c enough h small = elim (Dict-cases c.cache) [
  | inl shape ↦ rw (ap oldest shape, make_room) (empty_fits size c h shape small)
  | inr more ↦ elim (Bool-cases (ltb c.max_bytes (c.current_bytes + size))) [
    | inl full ↦
        rw (ap oldest more.3, full, make_room)
          (make_room_fits fuel size (remove more.0 c)
            (omega (
              arith,
              length-remove_oldest more.0 more.1 more.2 c more.3,
              ap (λ (d : Dict Entry). length d) more.3,
            ))
            (remove-IsCounted more.0 c h) (rw (remove-total more.0 c).0 small))
    | inr fits ↦ rw (ap oldest more.3, fits, make_room) (ground (arith, fits))
  ]
]
