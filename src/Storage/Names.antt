-- ===== src/Storage/Names.antt =====
-- The full path of a node names the node.
use genro_mail_proxy.Prelude.{◌≡◌, refl, ap, ◌∙◌, false, some, [], ◌∷◌, ◌++◌, ◌==◌, All}
use genro_mail_proxy.Prelude.Text.{Text}
use genro_mail_proxy.Storage.{
  Mounts, StorageNode, get_mount_config, split_once, strip_slashes, of_config, of_split, node,
  fullpath,
}

split_once-append :
    (s t : Text) → All (λ c. (c == b':') ≡ false) s → split_once b':' (s ++ b':' ∷ t) ≡ (s, some t)
unfolding split_once
split_once-append [] t plain = refl
split_once-append (c ∷ s) t (other, plain) = rw (other, split_once-append s t plain) refl

-- A node is found again under its full path, if no colon stands in the name of its mount, its path
-- starts with no slash, and the mount still has the entries that the node was made with.
pub node-fullpath :
    (n : StorageNode) (mounts : Mounts)
    → All (λ c. (c == b':') ≡ false) n.mount_name
    → strip_slashes n.path ≡ n.path
    → get_mount_config n.mount_name mounts ≡ some n.config
    → node (fullpath n) [] mounts ≡ some n
unfolding node
node-fullpath n mounts plain stripped found =
    ap (of_split [] mounts) (split_once-append n.mount_name n.path plain)
    ∙ ap (of_config n.mount_name n.path) found
    ∙ ap (λ path. some (record n { path = path })) stripped
