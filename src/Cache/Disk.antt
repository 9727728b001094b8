-- ===== src/Cache/Disk.antt =====
-- `DiskCache` of src/core/mail_proxy/smtp/cache.py. A file is found by its key, since its path is made of
-- the key alone; it has a content and the time at which it was last written. The directories that hold
-- the files are left out, and no file operation fails.
pub mod Space
pub mod Bounded
use genro_mail_proxy.Prelude.{
  ℕ, ◌+◌, ◌-◌, String, not, Option, none, some, List, [], ◌∷◌, ltb, leb, if◌then◌else◌, length,
  filter, count,
}
use genro_mail_proxy.Prelude.Dict
use genro_mail_proxy.Prelude.Dict.{Dict}
use genro_mail_proxy.Cache.Memory.{Bytes, Entry, is_expired, Call, gets, sets, cleans, clears}

pub record DiskCache : Type 0 where
  pub max_bytes : ℕ
  pub ttl_seconds : ℕ
  pub files : Dict Entry

-- `_remove`
abbrev pub remove : String → DiskCache → DiskCache
remove k c = record c { files = Dict.erase k c.files }

-- The branches of `get` on the file that was found.
unfoldable pub read : ℕ → String → Option Entry → DiskCache → Option Bytes × DiskCache
read now k none c = (none, c)
read now k (some (content, mtime)) c =
    if is_expired c.ttl_seconds now mtime then (none, remove k c) else (some content, c)

unfoldable pub get : ℕ → String → DiskCache → Option Bytes × DiskCache
unfolding read
get now k c = read now k (Dict.lookup k c.files) c

-- `_get_total_size`
unfoldable pub total_size : Dict Entry → ℕ
total_size [] = 0
total_size ((k, e) ∷ d) = length e.0 + total_size d

-- A key, its size and the time of its file.
abbrev pub File : Type 0
File = String × (ℕ × ℕ)

-- `files.sort(key=lambda x: x[2])`, which keeps the order of files of one time.
unfoldable pub insert_by_age : File → List File → List File
insert_by_age f [] = f ∷ []
insert_by_age f (g ∷ gs) =
    let rest = insert_by_age f gs in if leb f.1.1 g.1.1 then f ∷ g ∷ gs else g ∷ rest

unfoldable pub cache_files_by_age : Dict Entry → List File
unfolding insert_by_age
cache_files_by_age [] = []
cache_files_by_age ((k, e) ∷ d) = insert_by_age (k, (length e.0, e.1)) (cache_files_by_age d)

-- The loop of `_ensure_space`: the files that are left.
unfoldable pub unlink_files : ℕ → ℕ → ℕ → List File → Dict Entry → Dict Entry
unlink_files max needed current [] d = d
unlink_files max needed current ((k, (size, mtime)) ∷ fs) d =
    let rest = unlink_files max needed (current - size) fs (Dict.erase k d) in
    if leb (current + needed) max then d else rest

unfoldable pub ensure_space : ℕ → DiskCache → DiskCache
unfolding total_size cache_files_by_age unlink_files
ensure_space needed c =
    let current = total_size c.files in
    if leb (current + needed) c.max_bytes then c else record c {
      files = unlink_files c.max_bytes needed current (cache_files_by_age c.files) c.files;
    }

unfoldable pub set : ℕ → String → Bytes → DiskCache → DiskCache
unfolding ensure_space
set now k content c =
    if ltb c.max_bytes (length content)
    then c
    else (let c' = ensure_space (length content) c in
        record c' { files = Dict.insert k (content, now) c'.files })

unfoldable pub cleanup_expired : ℕ → DiskCache → ℕ × DiskCache
cleanup_expired now c = (
  count (λ f. is_expired c.ttl_seconds now f.1.1) c.files,
  record c { files = filter (λ f. not (is_expired c.ttl_seconds now f.1.1)) c.files },
)

abbrev pub clear : DiskCache → DiskCache
clear c = record c { files = [] }

unfoldable pub step : Call → DiskCache → DiskCache
unfolding get set cleanup_expired
step (gets now k) c = (get now k c).1
step (sets now k content) c = set now k content c
step (cleans now) c = (cleanup_expired now c).1
step clears c = clear c

unfoldable pub run : List Call → DiskCache → DiskCache
unfolding step
run [] c = c
run (call ∷ calls) c = run calls (step call c)
