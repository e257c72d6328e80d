-- ===== src/Node/Mock.antt =====
-- driver/mock_mounter.go: the mounter that the repository's tests run the handlers on.
pub mod Laws
pub mod Table
use csi_thalassa.Prelude.{String, Bool, true, false, List, [], ◌∷◌, Option, none, some, is_some}
use csi_thalassa.Prelude.Signed.{pos}
use csi_thalassa.Prelude.Labels.{Labels, lookup, insert, delete}
use csi_thalassa.Status.{Error}
use csi_thalassa.Errors.{err_device_not_found, err_device_not_attached}
use csi_thalassa.Exec.{Result, ok, err, Exec}
use csi_thalassa.Node.Interface.{Host, VolumeStatistics}

pub record MockMounter : Type 0 where
  pub mount_points : Labels
  pub formatted_devices : Labels
  pub attached_devices : List (String × Bool)
  pub statistics : List (String × VolumeStatistics)
  pub block_devices : List (String × Bool)
  pub mount_errors : List (String × Error)
  pub unmount_errors : List (String × Error)
  pub format_errors : List (String × Error)

abbrev pub new_mock_mounter : MockMounter
new_mock_mounter = record {
  mount_points = [];
  formatted_devices = [];
  attached_devices = [];
  statistics = [];
  block_devices = [];
  mount_errors = [];
  unmount_errors = [];
  format_errors = [];
}

-- The injected error, or the change.
abbrev pub inject : Option Error → MockMounter → MockMounter → Result (Unit {0}) × MockMounter
inject (some e) before after = (err e, before)
inject none before after = (ok tt, after)

-- `m[k]` of a map to `bool`
abbrev pub is_set : String → List (String × Bool) → Bool
is_set k m = elim (lookup k m) [ some b ↦ b | none ↦ false ]

unfoldable pub mock_format : (device_path fs_type : String) → Exec MockMounter (Unit {0})
unfolding lookup insert
mock_format device_path fs_type m =
    inject (lookup device_path m.format_errors) m
      (record m { formatted_devices = insert device_path fs_type m.formatted_devices })

unfoldable pub mock_is_attached : String → Exec MockMounter (Unit {0})
unfolding lookup
mock_is_attached source m = (
  elim (is_set source m.attached_devices) [ true ↦ ok tt | false ↦ err err_device_not_attached ],
  m,
)

-- GetDeviceByID: the mount points, with the volume for a path
unfoldable pub mock_get_device_by_id : String → Exec MockMounter String
unfolding lookup
mock_get_device_by_id volume_id m = (
  elim (lookup volume_id m.mount_points) [
    | some device ↦ ok device
    | none ↦ err err_device_not_found
  ],
  m,
)

unfoldable pub mock_is_device_attached : String → Exec MockMounter (Unit {0})
unfolding lookup
mock_is_device_attached device_path m = (
  elim (is_set device_path m.attached_devices) [
    | true ↦ ok tt
    | false ↦ err err_device_not_attached
  ],
  m,
)

-- Resize does nothing.
unfoldable pub mock_resize : (device_path mount_path : String) → Exec MockMounter (Unit {0})
mock_resize device_path mount_path m = (ok tt, m)

unfoldable pub mock_is_formatted : String → Exec MockMounter Bool
unfolding lookup
mock_is_formatted device_path m = (ok (is_some (lookup device_path m.formatted_devices)), m)

unfoldable pub mock_mount :
    (source target fs_type : String) → List String → Exec MockMounter (Unit {0})
unfolding lookup insert
mock_mount source target fs_type options m =
    inject (lookup target m.mount_errors) m
      (record m { mount_points = insert target source m.mount_points })

unfoldable pub mock_unmount : String → Exec MockMounter (Unit {0})
unfolding lookup delete
mock_unmount target m =
    inject (lookup target m.unmount_errors) m
      (record m { mount_points = delete target m.mount_points })

unfoldable pub mock_is_mounted : String → Exec MockMounter Bool
unfolding lookup
mock_is_mounted target m = (ok (is_some (lookup target m.mount_points)), m)

unfoldable pub mock_get_device_name : String → Exec MockMounter String
unfolding lookup
mock_get_device_name mount_path m = (
  elim (lookup mount_path m.mount_points) [
    | some device ↦ ok device
    | none ↦ err err_device_not_found
  ],
  m,
)

unfoldable pub mock_get_statistics : String → Exec MockMounter VolumeStatistics
unfolding lookup
mock_get_statistics volume_path m = (
  ok (elim (lookup volume_path m.statistics) [
    | some stats ↦ stats
    | none ↦ record {
      available_bytes = pos 0;
      total_bytes = pos 0;
      used_bytes = pos 0;
      available_inodes = pos 0;
      total_inodes = pos 0;
      used_inodes = pos 0;
    }
  ]),
  m,
)

unfoldable pub mock_is_block_device : String → Exec MockMounter Bool
unfolding lookup
mock_is_block_device volume_path m = (ok (is_set volume_path m.block_devices), m)

-- The handlers' host with this mounter, and the operating system as given.
abbrev pub mock_host :
    (stat : String → Result (Unit {0})) (eval_symlinks : String → Result String)
    (need_resize resize : String → String → Result Bool)
    → Host
mock_host stat eval_symlinks need_resize resize = record {
  State = MockMounter;
  format = mock_format;
  is_formatted = mock_is_formatted;
  mount = mock_mount;
  unmount = mock_unmount;
  is_attached = mock_is_attached;
  is_mounted = mock_is_mounted;
  get_device_name = mock_get_device_name;
  get_statistics = mock_get_statistics;
  is_block_device = mock_is_block_device;
  stat = λ path m. (stat path, m);
  eval_symlinks = λ path m. (eval_symlinks path, m);
  need_resize = λ device path m. (need_resize device path, m);
  resize = λ device path m. (resize device path, m);
}
