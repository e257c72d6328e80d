-- ===== src/Node/Mock/Table.antt =====
-- The mock mounter has a set of mounted paths, as the node's handlers expect of a host.
use csi_thalassa.Prelude.{
  String, ◌≡◌, refl, inl, sym, ap, ◌∙◌, Bool, true, false, Option, none, some, is_some, arith,
}
use csi_thalassa.Prelude.Labels.{lookup, insert, delete, lookup-insert, lookup-delete}
use csi_thalassa.Status.{Error}
use csi_thalassa.Exec.{Result, ok, err}
use csi_thalassa.Node.Interface.{QuietKeep}
use csi_thalassa.Node.Calls.Mounts.{Mounts, set, MountTable}
use csi_thalassa.Node.Mock.{
  MockMounter, inject, mock_host, mock_format, mock_mount, mock_unmount, mock_is_mounted,
  mock_is_formatted, mock_is_attached, mock_get_device_name, mock_get_statistics,
  mock_is_block_device,
}

abbrev pub mock_mounted : MockMounter → Mounts
mock_mounted m path = is_some (lookup path m.mount_points)

-- An injected error leaves the state, and where there is none the change is made.
pub inject-ok : (o : Option Error) (m n t : MockMounter) → inject o m n ≡ (ok tt, t) → t ≡ n
inject-ok none m n t h = sym (ap (λ (r : Result (Unit {0}) × MockMounter). r.1) h)
inject-ok (some e) m n t h = ground arith

pub inject-err :
    (o : Option Error) (m n t : MockMounter) (e : Error) → inject o m n ≡ (err e, t) → t ≡ m
inject-err none m n t e h = ground arith
inject-err (some x) m n t e h = sym (ap (λ (r : Result (Unit {0}) × MockMounter). r.1) h)

pub insert-set :
    (target source path : String) (m : MockMounter)
    → is_some (lookup path (insert target source m.mount_points))
      ≡ set target true (mock_mounted m) path
unfolding set
insert-set target source path m = ground (arith, lookup-insert target path source m.mount_points)

pub delete-set :
    (target path : String) (m : MockMounter)
    → is_some (lookup path (delete target m.mount_points)) ≡ set target false (mock_mounted m) path
unfolding set
delete-set target path m = ground (arith, lookup-delete target path m.mount_points)

pub look-mounted :
    (target : String) (b : Bool) (m m' : MockMounter)
    → mock_is_mounted target m ≡ (ok b, m')
    → mock_mounted m target ≡ b
unfolding mock_is_mounted
look-mounted target b m m' h = ground (arith, h)

-- A format changes the formatted devices alone.
pub format-mounted :
    (o : Option Error) (m : MockMounter) (device fs_type path : String)
    → mock_mounted
        (inject o m (record m { formatted_devices = insert device fs_type m.formatted_devices })).1
        path
      ≡ mock_mounted m path
format-mounted none m device fs_type path = refl
format-mounted (some e) m device fs_type path = refl

module _ (stat : String → Result (Unit {0})) (eval_symlinks : String → Result String)
    (need_resize resize : String → String → Result Bool) where
  -- The mock mounter's calls that neither format nor mount leave it as it is.
  pub mock-QuietKeep :
      (P : MockMounter → Type 0) → QuietKeep (mock_host stat eval_symlinks need_resize resize) P
  unfolding mock_is_formatted mock_is_attached mock_is_mounted mock_get_device_name
      mock_get_statistics mock_is_block_device
  mock-QuietKeep P = record {
    looks = record {
      is_formatted = λ _ m p. p;
      is_attached = λ _ m p. p;
      is_mounted = λ _ m p. p;
      stat = λ _ m p. p;
      eval_symlinks = λ _ m p. p;
      need_resize = λ _ _ m p. p;
    };
    resize = λ _ _ m p. p;
    get_device_name = λ _ m p. p;
    get_statistics = λ _ m p. p;
    is_block_device = λ _ m p. p;
  }

  -- The mock mounter keeps the promises of a mount table.
  unfoldable pub mock_table : MountTable (mock_host stat eval_symlinks need_resize resize)
  unfolding mock_format mock_mount mock_unmount mock_is_mounted
  mock_table = record {
    mounted = mock_mounted;
    quiet = λ mounts. mock-QuietKeep _;
    format = λ mounts device fs_type m p path.
        format-mounted (lookup device m.format_errors) m device fs_type path ∙ p path;
    tells = λ target b m m' h. look-mounted target b m m' h;
    mount = λ source target fs_type options m m' h path.
        ap (λ (n : MockMounter). mock_mounted n path)
          (inject-ok (lookup target m.mount_errors) m _ m' h)
        ∙ insert-set target source path m;
    unmount = λ target m m' h path.
        ap (λ (n : MockMounter). mock_mounted n path)
          (inject-ok (lookup target m.unmount_errors) m _ m' h)
        ∙ delete-set target path m;
    mount_fails = λ source target fs_type options m m' e h. inl (λ path.
        ap (λ (n : MockMounter). mock_mounted n path)
          (inject-err (lookup target m.mount_errors) m _ m' e h));
    unmount_fails = λ target m m' e h. inl (λ path.
        ap (λ (n : MockMounter). mock_mounted n path)
          (inject-err (lookup target m.unmount_errors) m _ m' e h));
  }
