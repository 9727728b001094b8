-- ===== src/Smtp/Attachments/Fetchers.antt =====
-- The fetchers of src/core/mail_proxy/smtp/attachments.py and what they ask of the outside.
use genro_mail_proxy.Prelude.{
  ℕ, ◌-◌, ◌%◌, Bool, true, false, ◌&&◌, not, Option, none, some, [], ◌∷◌, ◌++◌, ◌==◌, if◌then◌else◌,
  length, take,
}
use genro_mail_proxy.Prelude.Json.{Json}
use genro_mail_proxy.Prelude.Text.{Text, codes, starts_with, contains, strip}
use genro_mail_proxy.Cache.Memory.{Bytes}

pub data FetchError : Type 0 where
  value_error file_not_found http_error : FetchError

pub data Result {ℓ} (A : Type ℓ) : Type ℓ where
  ok : A → Result A
  err : FetchError → Result A

-- What a path of the file system, or of a mount that may not be configured, stands for.
pub data File : Type 0 where
  unmounted absent not_regular : File
  regular : Bytes → File

-- What is outside: base64, the mounts if a storage manager is configured, the file system, and the
-- requests, with the headers for the authentication.
pub record Backends : Type 0 where
  pub b64decode : Text → Option Bytes
  pub mounts : Option (Text → File)
  pub filesystem : Text → File
  pub default_endpoint : Option Text
  pub http_get : Text → Option Json → Option Bytes
  pub http_post : Text → Text → Option Json → Option Bytes

abbrev pub is_blank : Text → Bool
is_blank [] = true
is_blank (c ∷ s) = false

abbrev pub is_url : Text → Bool
is_url path =
    if starts_with (codes "http://") path then true else starts_with (codes "https://") path

abbrev pub of_option : Option Bytes → Result (Option Bytes)
of_option none = err value_error
of_option (some content) = ok (some content)

-- `=` up to a multiple of four.
abbrev pub padding : ℕ → Text
padding r = if r == 0 then [] else take (4 - r) (codes "====")

abbrev pub of_file : File → Result (Option Bytes)
of_file unmounted = err value_error
of_file absent = err file_not_found
of_file not_regular = err value_error
of_file (regular content) = ok (some content)

-- `[server]params` at the beginning of a path: the text to the first `]`, and what follows on its line.
unfoldable pub before_bracket : Text → Option (Text × Text)
before_bracket [] = none
before_bracket (c ∷ s) =
    let rest = before_bracket s in
    if c == b']' then some ([], s) else elim rest [ none ↦ none | some r ↦ some (c ∷ r.0, r.1) ]

unfoldable pub first_line : Text → Text
first_line [] = []
first_line (c ∷ s) = let rest = first_line s in if c == 10 then [] else c ∷ rest

-- `Base64Fetcher.fetch`
unfoldable pub fetch_base64 : Backends → Text → Result (Option Bytes)
unfolding strip
fetch_base64 b [] = ok none
fetch_base64 b (c ∷ s) =
    let content = strip (c ∷ s) in of_option (b.b64decode (content ++ padding (length content % 4)))

abbrev pub of_mounts : Option (Text → File) → Text → Result (Option Bytes)
of_mounts none path = err value_error
of_mounts (some node) path = of_file (node path)

-- `StorageFetcher.fetch`
unfoldable pub fetch_storage : Backends → Text → Result (Option Bytes)
unfolding starts_with contains
fetch_storage b [] = err value_error
fetch_storage b (c ∷ path) =
    if contains (codes ":") (c ∷ path) && not (starts_with (codes "/") (c ∷ path))
    then of_mounts b.mounts (c ∷ path)
    else if starts_with (codes "/") (c ∷ path)
    then of_file (b.filesystem (c ∷ path))
    else err value_error

abbrev pub of_brackets : Option (Text × Text) → Result (Text × Text)
of_brackets none = err value_error
of_brackets (some ([], params)) = err value_error
of_brackets (some (c ∷ server, params)) = ok (c ∷ server, first_line params)

abbrev pub of_default : Option Text → Text → Result (Text × Text)
of_default none path = err value_error
of_default (some []) path = err value_error
of_default (some (c ∷ endpoint)) path = ok (c ∷ endpoint, path)

abbrev pub of_plain_path : Backends → Text → Result (Text × Text)
of_plain_path b path = if is_url path then ok (path, []) else of_default b.default_endpoint path

-- `HttpFetcher._parse_path`
unfoldable pub parse_path : Backends → Text → Result (Text × Text)
unfolding before_bracket first_line starts_with
parse_path b [] = of_plain_path b []
parse_path b (c ∷ s) = if c == b'[' then of_brackets (before_bracket s) else of_plain_path b (c ∷ s)

abbrev pub of_response : Option Bytes → Result (Option Bytes)
of_response none = err http_error
of_response (some content) = ok (some content)

abbrev pub request : Backends → Option Json → Result (Text × Text) → Result (Option Bytes)
request b auth (err e) = err e
request b auth (ok (server, [])) = of_response (b.http_get server auth)
request b auth (ok (server, c ∷ params)) = of_response (b.http_post server (c ∷ params) auth)

-- `HttpFetcher.fetch`
unfoldable pub fetch_http : Backends → Text → Option Json → Result (Option Bytes)
unfolding parse_path
fetch_http b path auth = request b auth (parse_path b path)
