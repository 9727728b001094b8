-- ===== src/Storage.antt =====
-- src/storage/manager.py and src/storage/node.py: mount points, paths in them, and URLs with a signature.
-- Files and the cloud are left out; the hash function and the decimals of numbers are parameters.
pub mod Urls
pub mod Names
use genro_mail_proxy.Prelude.{
  ℕ, ◌+◌, Bool, true, false, ◌&&◌, not, Option, none, some, List, [], ◌∷◌, ◌++◌, ◌==◌, leb, ltb,
  if◌then◌else◌, get_or, take, ◌*◌, zero, suc,
}
use genro_mail_proxy.Prelude.Text.{Text, codes, text_eq, starts_with, split, join}

-- The entries of a mount that the code reads.
pub record Config : Type 0 where
  pub protocol : Option Text
  pub base_path : Option Text
  pub bucket : Option Text
  pub container : Option Text
  pub prefix : Option Text
  pub public_base_url : Option Text
  pub secret_key : Option Text

abbrev pub Mounts : Type 0
Mounts = List (Text × Config)

unfoldable pub get_mount_config : Text → Mounts → Option Config
unfolding text_eq
get_mount_config name [] = none
get_mount_config name ((other, config) ∷ mounts) =
    let rest = get_mount_config name mounts in if text_eq other name then some config else rest

unfoldable pub register : Text → Config → Mounts → Mounts
unfolding text_eq
register name config [] = (name, config) ∷ []
register name config ((other, old) ∷ mounts) =
    let rest = register name config mounts in
    if text_eq other name then (other, config) ∷ mounts else (other, old) ∷ rest

-- `configure`: an entry without a name raises, and the entries before it stay.
unfoldable pub configure : List (Text × Config) → Mounts → Bool × Mounts
unfolding register
configure [] mounts = (true, mounts)
configure (([], config) ∷ configs) mounts = (false, mounts)
configure ((c ∷ name, config) ∷ configs) mounts =
    configure configs (register (c ∷ name) config mounts)

abbrev pub empty_config : Config
empty_config = record {
  protocol = none;
  base_path = none;
  bucket = none;
  container = none;
  prefix = none;
  public_base_url = none;
  secret_key = none;
}

-- What stands before the first separator, and what follows it: `split(sep, 1)`.
unfoldable pub split_once : ℕ → Text → Text × Option Text
split_once sep [] = ([], none)
split_once sep (c ∷ s) =
    let rest = split_once sep s in if c == sep then ([], some s) else (c ∷ rest.0, rest.1)

abbrev pub skip : ℕ → Text → Text
skip zero s = s
skip (suc n) [] = []
skip (suc n) (c ∷ s) = skip n s

abbrev pub of_bucket : Text → Text × Option Text → Config
of_bucket protocol (bucket, prefix) = record empty_config {
  protocol = some protocol;
  bucket = some bucket;
  prefix = some (get_or prefix []);
}

abbrev pub of_container : Text × Option Text → Config
of_container (container, prefix) = record empty_config {
  protocol = some (codes "azure");
  container = some container;
  prefix = some (get_or prefix []);
}

abbrev pub of_local : Text → Config
of_local path = record empty_config { protocol = some (codes "local"); base_path = some path }

-- `_parse_url`
unfoldable pub parse_url : Text → Config
unfolding starts_with split_once
parse_url url =
    if starts_with (codes "s3://") url
    then of_bucket (codes "s3") (split_once b'/' (skip 5 url))
    else if starts_with (codes "gs://") url
    then of_bucket (codes "gcs") (split_once b'/' (skip 5 url))
    else if starts_with (codes "az://") url
    then of_container (split_once b'/' (skip 5 url))
    else if starts_with (codes "file://") url
    then of_local (skip 7 url)
    else of_local url

unfoldable pub strip_slashes : Text → Text
strip_slashes [] = []
strip_slashes (c ∷ s) = let rest = strip_slashes s in if c == b'/' then rest else c ∷ s

pub record StorageNode : Type 0 where
  pub mount_name : Text
  pub path : Text
  pub config : Config

abbrev pub new_node : Text → Text → Config → StorageNode
new_node mount_name path config = record {
  mount_name = mount_name;
  path = strip_slashes path;
  config = config;
}

-- `"/".join([path] + parts) if path else "/".join(parts)`
abbrev pub join_path : Text → List Text → Text
join_path [] parts = join (codes "/") parts
join_path (c ∷ path) parts = join (codes "/") ((c ∷ path) ∷ parts)

abbrev pub with_parts : Text → List Text → Text
with_parts path [] = path
with_parts path (part ∷ parts) = join_path path (part ∷ parts)

abbrev pub of_config : Text → Text → Option Config → Option StorageNode
of_config mount_name path none = none
of_config mount_name path (some config) = some (new_node mount_name path config)

abbrev pub of_split : List Text → Mounts → Text × Option Text → Option StorageNode
of_split parts mounts (mount_name, path) =
    of_config mount_name (with_parts (get_or path []) parts) (get_mount_config mount_name mounts)

-- `StorageManager.node`, which raises for a mount that is not configured.
unfoldable pub node : Text → List Text → Mounts → Option StorageNode
unfolding split_once get_mount_config strip_slashes join
node mount_or_path parts mounts = of_split parts mounts (split_once b':' mount_or_path)

abbrev pub fullpath : StorageNode → Text
fullpath n = n.mount_name ++ (b':' ∷ n.path)

abbrev pub child : List Text → StorageNode → StorageNode
child parts n = new_node n.mount_name (join_path n.path parts) n.config

-- The functions of hmac, and `str` and `int` of a number. `compare_digest` may raise.
pub record Signing : Type 0 where
  pub hexdigest : Text → Text → Text
  pub compare_digest : Text → Text → Option Bool
  pub str_of : ℕ → Text
  pub int_of : Text → Option ℕ

abbrev pub secret_of : StorageNode → Text
secret_of n = get_or n.config.secret_key (codes "genro-storage-default-secret")

unfoldable pub strip_slashes_right : Text → Text
strip_slashes_right [] = []
strip_slashes_right (c ∷ s) = elim (strip_slashes_right s) [
  | [] ↦ (if c == b'/' then [] else c ∷ [])
  | d ∷ r ↦ c ∷ d ∷ r
]

module _ (g : Signing) where
  abbrev pub signature_of : StorageNode → ℕ → Text
  signature_of n expires_at =
      take 16 (g.hexdigest (secret_of n) (n.path ++ (b':' ∷ g.str_of expires_at)))

  unfoldable pub token_of : StorageNode → ℕ → Text
  token_of n expires_at = g.str_of expires_at ++ (b'-' ∷ signature_of n expires_at)

  -- `_local_signed_url`; without a public base URL it raises.
  unfoldable pub local_signed_url : ℕ → ℕ → StorageNode → Option Text
  unfolding token_of strip_slashes_right
  local_signed_url now expires_in n = elim n.config.public_base_url [
    | none ↦ none
    | some [] ↦ none
    | some (c ∷ url) ↦ some (
        strip_slashes_right (c ∷ url)
        ++ (b'/' ∷ n.path)
        ++ codes "?token="
        ++ token_of n (now + expires_in))
  ]

  -- The clock counts microseconds here, and a token counts seconds.
  abbrev pub is_valid_at : ℕ → StorageNode → Text → Option ℕ → Option Bool
  is_valid_at now n signature none = some false
  is_valid_at now n signature (some expires_at) =
      if ltb (expires_at * 1000000) now
      then some false
      else g.compare_digest signature (signature_of n expires_at)

  abbrev pub of_token_parts : ℕ → StorageNode → List Text → Option Bool
  of_token_parts now n (expires_at ∷ signature ∷ []) =
      is_valid_at now n signature (g.int_of expires_at)
  of_token_parts now n _ = some false

  -- The TypeError of `compare_digest` is not caught.
  unfoldable pub verify_url_token : ℕ → Text → StorageNode → Option Bool
  unfolding split
  verify_url_token now token n = of_token_parts now n (split b'-' token)
