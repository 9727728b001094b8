-- ===== src/Cache/Memory/Reads.antt =====
-- What the memory cache reads after a write.
use genro_mail_proxy.Prelude.{
  ℕ, ◌+◌, ◌≤◌, String, ◌≡◌, refl, ◌∙◌, false, some, arith, ltb, eq_refl, length,
}
use genro_mail_proxy.Prelude.Dict
use genro_mail_proxy.Cache.Memory.{Bytes, MemoryCache, remove, read, get, make_room, store, set}
use genro_mail_proxy.Cache.Memory.Counted.{remove-total}
use genro_mail_proxy.Cache.Memory.Room.{make_room_keeps}

-- A content that fits is stored under its key, with the time of the call; the settings stay.
pub set_stores :
    (now : ℕ) (k : String) (content : Bytes) (c : MemoryCache)
    → length content ≤ c.max_bytes
    → (Dict.lookup k (set now k content c).cache ≡ some (content, now))
      × ((set now k content c).ttl_seconds ≡ c.ttl_seconds)
unfolding set store
set_stores now k content c small =
    let c1 = remove k c in
    let room = make_room (length c1.cache) (length content) c1 in
    let fits : ltb c.max_bytes (length content) ≡ false = ground (arith, small) in
    rw fits (
      Dict.lookup-insert k k (content, now) room.cache ∙ rw (eq_refl k) refl,
      make_room_keeps (λ x. x.ttl_seconds ≡ c.ttl_seconds) (length c1.cache) (length content) c1
          (λ j x _ same. (remove-total j x).1 ∙ same) (remove-total k c).1,
    )

-- A read of a stored content, within its time to live, gives the content.
pub get_stored :
    (now later : ℕ) (k : String) (content : Bytes) (c : MemoryCache)
    → Dict.lookup k c.cache ≡ some (content, now)
    → later ≤ now + c.ttl_seconds
    → (get later k c).0 ≡ some content
unfolding get read
get_stored now later k content c found young = rw found (unfold read in ground (arith, young))
