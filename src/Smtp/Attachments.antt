-- ===== src/Smtp/Attachments.antt =====
-- src/core/mail_proxy/smtp/attachments.py: where an attachment is fetched from, and the cache in front.
-- The patterns are modelled on ASCII.
pub mod Filename
pub mod Routes
pub mod Cached
pub mod Fetchers
use genro_mail_proxy.Prelude.{
  ℕ, ◌-◌, ◌%◌, String, Bool, true, false, ◌&&◌, not, Option, none, some, List, [], ◌∷◌, ◌++◌, ◌==◌,
  if◌then◌else◌, is_empty, is_truthy, get_or, length, take,
}
use genro_mail_proxy.Prelude.Json.{Json}
use genro_mail_proxy.Prelude.Text.{Text, codes, text_eq, starts_with, contains, strip}
use genro_mail_proxy.Cache.Memory.{Bytes}
use genro_mail_proxy.Cache.Tiered
use genro_mail_proxy.Cache.Tiered.{TieredCache}
use genro_mail_proxy.Smtp.Attachments.Filename.{parse_filename}
use genro_mail_proxy.Smtp.Attachments.Fetchers.{
  FetchError, value_error, file_not_found, http_error, Result, ok, err, File, unmounted, absent,
  not_regular, regular, Backends, is_blank, is_url, of_option, padding, of_file, before_bracket,
  first_line, fetch_base64, of_mounts, fetch_storage, of_brackets, of_default, of_plain_path,
  parse_path, of_response, request, fetch_http,
}

pub data PathType : Type 0 where
  http base64 storage : PathType

-- `path[7:]` behind `base64:`
abbrev pub drop_base64 : Text → Text
drop_base64 (a ∷ b ∷ c ∷ d ∷ e ∷ f ∷ g ∷ s) = s
drop_base64 _ = []

-- The mode that the path itself names, and the path without its prefix.
unfoldable pub infer_mode : Text → Text × Text
unfolding starts_with contains
infer_mode path =
    if starts_with (codes "base64:") path
    then (codes "base64", drop_base64 path)
    else if is_url path
    then (codes "http_url", path)
    else if starts_with (codes "/") path
    then (codes "storage", path)
    else if contains (codes ":") path
    then (codes "storage", path)
    else (codes "endpoint", path)

unfoldable pub of_mode : Text → Text → Result (PathType × Text)
unfolding text_eq starts_with
of_mode mode path =
    if text_eq mode (codes "endpoint")
    then ok (http, path)
    else if text_eq mode (codes "http_url")
    then ok (http, codes "[" ++ path ++ codes "]")
    else if text_eq mode (codes "base64")
    then ok (base64, (if starts_with (codes "base64:") path then drop_base64 path else path))
    else if text_eq mode (codes "storage")
    then ok (storage, path)
    else if text_eq mode (codes "filesystem")
    then ok (storage, path)
    else err value_error

abbrev pub of_inferred : Text × Text → Result (PathType × Text)
of_inferred (mode, path) = of_mode mode path

unfoldable pub parse_storage_path : Text → Option Text → Result (PathType × Text)
unfolding infer_mode of_mode
parse_storage_path [] mode = err value_error
parse_storage_path (c ∷ path) none = of_inferred (infer_mode (c ∷ path))
parse_storage_path (c ∷ path) (some []) = of_inferred (infer_mode (c ∷ path))
parse_storage_path (c ∷ path) (some (d ∷ mode)) = of_mode (d ∷ mode) (c ∷ path)

abbrev pub fetch_parsed : Backends → Option Json → Result (PathType × Text) → Result (Option Bytes)
fetch_parsed b auth (err e) = err e
fetch_parsed b auth (ok (base64, path)) = fetch_base64 b path
fetch_parsed b auth (ok (storage, path)) = fetch_storage b path
fetch_parsed b auth (ok (http, path)) = fetch_http b path auth

unfoldable pub fetch_from_backend :
    Backends → Text → Option Text → Option Json → Result (Option Bytes)
unfolding parse_storage_path fetch_base64 fetch_storage fetch_http
fetch_from_backend b storage_path mode auth =
    fetch_parsed b auth (parse_storage_path storage_path mode)

-- The keys of an attachment that `fetch` reads.
pub record Attachment : Type 0 where
  pub storage_path : Option Text
  pub filename : Option Text
  pub content_md5 : Option String
  pub fetch_mode : Option Text
  pub auth : Option Json

abbrev pub file_name : Attachment → Text
file_name att = get_or att.filename (codes "file.bin")

module _ (string : Text → String) (compute_md5 : Bytes → String) where
  abbrev pub of_marker : Option Text → Option String
  of_marker none = none
  of_marker (some hash) = some (string hash)

  abbrev pub cache_key : Attachment → Option String
  cache_key att =
      if is_truthy att.content_md5
      then att.content_md5
      else of_marker (parse_filename (file_name att)).1

  -- What is fetched goes into the cache under its own hash.
  unfoldable pub keep_content :
      ℕ
      → Text
      → Result (Option Bytes)
      → Option TieredCache
      → Result (Option (Bytes × Text)) × Option TieredCache
  keep_content now name (err e) cache = (err e, cache)
  keep_content now name (ok none) cache = (ok none, cache)
  keep_content now name (ok (some content)) none = (ok (some (content, name)), none)
  keep_content now name (ok (some content)) (some c) =
      (ok (some (content, name)), some (Tiered.set now (compute_md5 content) content c))

  unfoldable pub look_up :
      ℕ → Option String → Option TieredCache → Option Bytes × Option TieredCache
  look_up now none cache = (none, cache)
  look_up now (some k) none = (none, none)
  look_up now (some k) (some c) =
      if is_empty k then (none, some c) else ((Tiered.get now k c).0, some (Tiered.get now k c).1)

  abbrev pub after_cache :
      Backends
      → ℕ
      → Attachment
      → Text
      → Option Bytes × Option TieredCache
      → Result (Option (Bytes × Text)) × Option TieredCache
  after_cache b now att path (some content, cache) =
      (ok (some (content, (parse_filename (file_name att)).0)), cache)
  after_cache b now att path (none, cache) =
      keep_content now (parse_filename (file_name att)).0
        (fetch_from_backend b path att.fetch_mode att.auth) cache

  unfoldable pub fetch_path :
      Backends
      → ℕ
      → Attachment
      → Option Text
      → Option TieredCache
      → Result (Option (Bytes × Text)) × Option TieredCache
  unfolding keep_content look_up
  fetch_path b now att none cache = (ok none, cache)
  fetch_path b now att (some []) cache = (ok none, cache)
  fetch_path b now att (some (c ∷ path)) cache =
      after_cache b now att (c ∷ path) (look_up now (cache_key att) cache)

  -- `AttachmentManager.fetch`
  unfoldable pub fetch :
      Backends
      → ℕ
      → Attachment
      → Option TieredCache
      → Result (Option (Bytes × Text)) × Option TieredCache
  unfolding fetch_path
  fetch b now att cache = fetch_path b now att att.storage_path cache
