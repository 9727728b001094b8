-- ===== src/Cache/Tiered/Reads.antt =====
-- What is read from the tiers after a write.
use genro_mail_proxy.Prelude.{
  ℕ, ◌+◌, ◌≤◌, ◌<◌, String, ◌≡◌, refl, ◌∙◌, true, false, Option, none, some, arith, ltb, eq_refl,
  length,
}
use genro_mail_proxy.Prelude.Dict
use genro_mail_proxy.Cache.Memory
use genro_mail_proxy.Cache.Memory.{Bytes, MemoryCache}
use genro_mail_proxy.Cache.Memory.Reads.{set_stores, get_stored}
use genro_mail_proxy.Cache.Disk
use genro_mail_proxy.Cache.Disk.{DiskCache, ensure_space}
use genro_mail_proxy.Cache.Tiered.{TieredCache, promote, get_from_disk, get_past_memory, get, set}

disk_read :
    (now later : ℕ) (k : String) (content : Bytes) (d : DiskCache)
    → Dict.lookup k d.files ≡ some (content, now)
    → later ≤ now + d.ttl_seconds
    → (Disk.get later k d).0 ≡ some content
unfolding Disk.get Disk.read
disk_read now later k content d found young = rw found (unfold Disk.read in ground (arith, young))

ensure_space_ttl : (n : ℕ) (d : DiskCache) → (ensure_space n d).ttl_seconds ≡ d.ttl_seconds
unfolding ensure_space
ensure_space_ttl n d = ground arith

disk_set :
    (now : ℕ) (k : String) (content : Bytes) (d : DiskCache)
    → length content ≤ d.max_bytes
    → (Dict.lookup k (Disk.set now k content d).files ≡ some (content, now))
      × ((Disk.set now k content d).ttl_seconds ≡ d.ttl_seconds)
unfolding Disk.set
disk_set now k content d small =
    let fits : ltb d.max_bytes (length content) ≡ false = ground (arith, small) in
    rw fits (
      Dict.lookup-insert k k (content, now) (ensure_space (length content) d).files
          ∙ rw (eq_refl k) refl,
      ensure_space_ttl (length content) d,
    )

disk_stores :
    (now later : ℕ) (k : String) (content : Bytes) (d : DiskCache)
    → length content ≤ d.max_bytes
    → later ≤ now + d.ttl_seconds
    → (Disk.get later k (Disk.set now k content d)).0 ≡ some content
disk_stores now later k content d small young =
    let stored = disk_set now k content d small in
    disk_read now later k content (Disk.set now k content d) stored.0 (rw stored.1 young)

memory_stores :
    (now later : ℕ) (k : String) (content : Bytes) (m : MemoryCache)
    → length content ≤ m.max_bytes
    → later ≤ now + m.ttl_seconds
    → (Memory.get later k (Memory.set now k content m)).0 ≡ some content
memory_stores now later k content m small young =
    let stored = set_stores now k content m small in
    get_stored now later k content (Memory.set now k content m) stored.0 (rw stored.1 young)

get_from_memory :
    (now : ℕ) (k : String) (content : Bytes) (c : TieredCache)
    → (Memory.get now k c.memory).0 ≡ some content
    → (get now k c).0 ≡ some content
unfolding get get_past_memory
get_from_memory now k content c found = rw (found, get_past_memory) refl

promote_gives :
    (now : ℕ) (k : String) (content : Bytes) (o : Option Bytes) (c : TieredCache)
    → o ≡ some content
    → (promote now k o c).0 ≡ some content
unfolding promote
promote_gives now k content none c found = found
promote_gives now k content (some x) c found = found

get_missed :
    (now : ℕ) (k : String) (content : Bytes) (c : TieredCache) (d : DiskCache)
    → (Memory.get now k c.memory).0 ≡ none
    → c.disk ≡ some d
    → (Disk.get now k d).0 ≡ some content
    → (get now k c).0 ≡ some content
unfolding get get_past_memory get_from_disk
get_missed now k content c d missed has found =
    rw (missed, get_past_memory, has, get_from_disk)
      (promote_gives now k content (Disk.get now k d).0
        (record c { memory = (Memory.get now k c.memory).1; disk = some (Disk.get now k d).1 })
        found)

-- Where a content finds its place: in memory if it is small and fits there, and else on disk, while
-- memory has no entry for the key. A read comes within the time to live.
pub data Placed (c : TieredCache) (now later : ℕ) (k : String) (content : Bytes) : Type 0 where
  in_memory :
      length content < c.threshold_bytes
      → length content ≤ c.memory.max_bytes
      → later ≤ now + c.memory.ttl_seconds
      → Placed c now later k content
  on_disk :
      (d : DiskCache)
      → c.disk ≡ some d
      → c.threshold_bytes ≤ length content
      → length content ≤ d.max_bytes
      → later ≤ now + d.ttl_seconds
      → (Memory.get later k c.memory).0 ≡ none
      → Placed c now later k content

-- What was stored is read back, from the tier that its size chose, until it expires: where it fits
-- into that tier, and memory has no entry for the key of a large content.
pub get-set :
    (c : TieredCache) (now later : ℕ) (k : String) (content : Bytes)
    → Placed c now later k content
    → (get later k (set now k content c)).0 ≡ some content
unfolding set
get-set c now later k content (in_memory small fits young) =
    let is_small : ltb (length content) c.threshold_bytes ≡ true = ground (arith, small) in
    rw is_small (
      get_from_memory later k content (record c { memory = Memory.set now k content c.memory })
        (memory_stores now later k content c.memory fits young))
get-set c now later k content (on_disk d has large fits young missed) =
    let is_large : ltb (length content) c.threshold_bytes ≡ false = ground (arith, large) in
    rw (is_large, has)
      (get_missed later k content (record c { disk = some (Disk.set now k content d) })
        (Disk.set now k content d) missed refl (disk_stores now later k content d fits young))
