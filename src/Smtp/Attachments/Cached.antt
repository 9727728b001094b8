-- ===== src/Smtp/Attachments/Cached.antt =====
-- What the cache saves.
use genro_mail_proxy.Prelude.{
  ℕ, String, ◌≡◌, refl, ap, ◌∙◌, false, Option, none, some, ◌∷◌, is_empty,
}
use genro_mail_proxy.Prelude.Text.{Text}
use genro_mail_proxy.Cache.Memory.{Bytes}
use genro_mail_proxy.Cache.Tiered
use genro_mail_proxy.Cache.Tiered.{TieredCache}
use genro_mail_proxy.Cache.Tiered.Reads.{Placed, get-set}
use genro_mail_proxy.Smtp.Attachments.Filename.{parse_filename}
use genro_mail_proxy.Smtp.Attachments.Fetchers.{ok, Backends}
use genro_mail_proxy.Smtp.Attachments.{
  Attachment, file_name, cache_key, keep_content, look_up, after_cache, fetch_path,
  fetch_from_backend, fetch,
}

module _ (string : Text → String) (compute_md5 : Bytes → String) where
  abbrev name_of : Attachment → Text
  name_of att = (parse_filename (file_name att)).0

  look_up_key :
      (now : ℕ) (o : Option String) (k : String) (c : TieredCache)
      → o ≡ some k
      → is_empty k ≡ false
      → look_up string compute_md5 now o (some c)
        ≡ ((Tiered.get now k c).0, some (Tiered.get now k c).1)
  unfolding look_up
  look_up_key now o k c keyed filled =
      ap (λ x. look_up string compute_md5 now x (some c)) keyed ∙ rw filled refl

  fetch_missed :
      (b : Backends) (now : ℕ) (att : Attachment) (x : ℕ) (path : Text) (k : String)
      (content : Bytes) (c : TieredCache)
      → att.storage_path ≡ some (x ∷ path)
      → cache_key string compute_md5 att ≡ some k
      → is_empty k ≡ false
      → (Tiered.get now k c).0 ≡ none
      → fetch_from_backend b (x ∷ path) att.fetch_mode att.auth ≡ ok (some content)
      → fetch string compute_md5 b now att (some c) ≡ (
        ok (some (content, name_of att)),
        some (Tiered.set now (compute_md5 content) content (Tiered.get now k c).1),
      )
  unfolding fetch fetch_path keep_content
  fetch_missed b now att x path k content c at_path keyed filled missed fetched =
      let after = some (Tiered.get now k c).1 in
      ap (λ o. fetch_path string compute_md5 b now att o (some c)) at_path
      ∙ ap (after_cache string compute_md5 b now att (x ∷ path))
          (look_up_key now (cache_key string compute_md5 att) k c keyed filled)
      ∙ ap (λ o. after_cache string compute_md5 b now att (x ∷ path) (o, after)) missed
      ∙ ap (λ r. keep_content string compute_md5 now (name_of att) r after) fetched

  fetch_hit :
      (b : Backends) (now : ℕ) (att : Attachment) (x : ℕ) (path : Text) (k : String)
      (content : Bytes) (c : TieredCache)
      → att.storage_path ≡ some (x ∷ path)
      → cache_key string compute_md5 att ≡ some k
      → is_empty k ≡ false
      → (Tiered.get now k c).0 ≡ some content
      → (fetch string compute_md5 b now att (some c)).0 ≡ ok (some (content, name_of att))
  unfolding fetch fetch_path
  fetch_hit b now att x path k content c at_path keyed filled hit =
      ap (λ o. (fetch_path string compute_md5 b now att o (some c)).0) at_path
      ∙ ap (λ r. (after_cache string compute_md5 b now att (x ∷ path) r).0)
          (look_up_key now (cache_key string compute_md5 att) k c keyed filled)
      ∙ ap
          (λ o.
            (after_cache string compute_md5 b now att (x ∷ path)
              (o, some (Tiered.get now k c).1)).0)
          hit

-- An attachment that names the hash of its content, and is not in the cache, is fetched from its backend
-- once: the next fetch of it gives the same content under the same name, whatever the backends answer
-- by then, as long as the cache had room for the content and it did not expire.
pub fetch-fetch :
    (string : Text → String) (compute_md5 : Bytes → String) (b b' : Backends) (now later : ℕ)
    (att : Attachment) (x : ℕ) (path : Text) (content : Bytes) (c : TieredCache)
    → att.storage_path ≡ some (x ∷ path)
    → cache_key string compute_md5 att ≡ some (compute_md5 content)
    → is_empty (compute_md5 content) ≡ false
    → (Tiered.get now (compute_md5 content) c).0 ≡ none
    → fetch_from_backend b (x ∷ path) att.fetch_mode att.auth ≡ ok (some content)
    → Placed (Tiered.get now (compute_md5 content) c).1 now later (compute_md5 content) content
    → ((fetch string compute_md5 b now att (some c)).0
        ≡ ok (some (content, (parse_filename (file_name att)).0)))
      × ((fetch string compute_md5 b' later att (fetch string compute_md5 b now att (some c)).1).0
          ≡ ok (some (content, (parse_filename (file_name att)).0)))
fetch-fetch string compute_md5 b b' now later att x path content c at_path same filled missed
      fetched placed =
    let k = compute_md5 content in
    let after = (Tiered.get now k c).1 in
    let first =
      fetch_missed string compute_md5 b now att x path k content c at_path same filled missed
        fetched in
    (
      ap (λ r. r.0) first,
      ap (λ r. (fetch string compute_md5 b' later att r.1).0) first
          ∙ fetch_hit string compute_md5 b' later att x path k content
              (Tiered.set now k content after) at_path same filled
              (get-set after now later k content placed),
    )
