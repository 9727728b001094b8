-- ===== src/Tests/Attaching.antt =====
-- Attachments at small inputs.
use genro_mail_proxy.Prelude.{◌≡◌, refl, false, none, some, [], ◌∷◌, arith}
use genro_mail_proxy.Prelude.Dict
use genro_mail_proxy.Prelude.Text.{codes, starts_with, strip, text_eq}
use genro_mail_proxy.Cache.Memory
use genro_mail_proxy.Cache.Memory.{empty}
use genro_mail_proxy.Cache.Tiered
use genro_mail_proxy.Cache.Tiered.{TieredCache}
use genro_mail_proxy.Cache.Tiered.Reads.{in_memory}
use genro_mail_proxy.Smtp.Attachments.Filename.{parse_filename}
use genro_mail_proxy.Smtp.Attachments.Fetchers.{ok, absent, Backends, parse_path, of_response}
use genro_mail_proxy.Smtp.Attachments.{
  Attachment, base64, parse_storage_path, fetch_from_backend, fetch,
}
use genro_mail_proxy.Smtp.Attachments.Routes.{url_of, fetch_from_backend-url}
use genro_mail_proxy.Smtp.Attachments.Cached.{fetch-fetch}

cleaned : parse_filename (codes "report_{MD5:AbC1}.pdf") ≡ (codes "report.pdf", some (codes "abc1"))
unfolding parse_filename
cleaned = refl

-- The prefix is taken off twice.
twice : parse_storage_path (codes "base64:base64:AQ") none ≡ ok (base64, codes "AQ")
unfolding parse_storage_path starts_with text_eq
twice = refl

abbrev inline : Backends
inline = record {
  b64decode = λ s. some (1 ∷ 2 ∷ []);
  mounts = none;
  filesystem = λ path. absent;
  default_endpoint = none;
  http_get = λ url auth. none;
  http_post = λ url params auth. none;
}

-- An address of version 6 in a URL ends the server at its bracket.
bracketed : parse_path inline (codes "[http://[::1]/a]") ≡ ok (codes "http://[::1", codes "/a]")
unfolding parse_path starts_with
bracketed = refl

fetch_from_backend-url_example :
    fetch_from_backend inline (url_of false (codes "a.example/b")) none none
    ≡ of_response (inline.http_get (url_of false (codes "a.example/b")) none)
fetch_from_backend-url_example =
    fetch_from_backend-url inline false (codes "a.example/b") none
      (refl, (refl, (refl, (refl, (refl, (refl, (refl, (refl, (refl, (refl, (refl, tt)))))))))))

abbrev tiers : TieredCache
tiers = record { memory = empty 4 60; disk = none; threshold_bytes = 3 }

abbrev attached : Attachment
attached = record {
  storage_path = some (codes "base64:AQI");
  filename = some (codes "a.bin");
  content_md5 = some "k";
  fetch_mode = none;
  auth = none;
}

abbrev broken : Backends
broken = record inline { b64decode = λ s. none }

fetch-fetch_example :
    ((fetch (λ s. "k") (λ s. "k") inline 100 attached (some tiers)).0
      ≡ ok (some (1 ∷ 2 ∷ [], codes "a.bin")))
    × ((fetch
          (λ s. "k")
          (λ s. "k")
          broken
          110
          attached
          (fetch (λ s. "k") (λ s. "k") inline 100 attached (some tiers)).1).0
        ≡ ok (some (1 ∷ 2 ∷ [], codes "a.bin")))
unfolding parse_filename fetch_from_backend Tiered.get Memory.get Memory.read Dict.lookup
    starts_with text_eq strip
fetch-fetch_example =
    fetch-fetch (λ s. "k") (λ s. "k") inline broken 100 110 attached b'b' (codes "ase64:AQI")
      (1 ∷ 2 ∷ []) tiers refl refl refl refl refl
      (in_memory (omega arith) (omega arith) (omega arith))
