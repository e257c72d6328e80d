-- ===== src/Node/Interface.antt =====
-- What the node's handlers call: the `Mounter` of driver/mounter.go, and the operating system
-- (`os.Stat`, `filepath.EvalSymlinks`, and the resizer of k8s.io/mount-utils).
use csi_thalassa.Prelude.{String, Bool, List, ◌⊎◌}
use csi_thalassa.Prelude.Signed.{ℤ}
use csi_thalassa.Exec.{Exec}
use csi_thalassa.Exec.Keeps.{Keeps, Keeps-or}

-- `volumeStatistics`
pub record VolumeStatistics : Type 0 where
  pub available_bytes : ℤ
  pub total_bytes : ℤ
  pub used_bytes : ℤ
  pub available_inodes : ℤ
  pub total_inodes : ℤ
  pub used_inodes : ℤ

pub record Host : Type 1 where
  pub State : Type 0
  pub format : (device_path fs_type : String) → Exec State (Unit {0})
  pub is_formatted : (device_path : String) → Exec State Bool
  pub mount : (source target fs_type : String) → List String → Exec State (Unit {0})
  pub unmount : (target : String) → Exec State (Unit {0})
  pub is_attached : (source : String) → Exec State (Unit {0})
  pub is_mounted : (target : String) → Exec State Bool
  pub get_device_name : (mount_path : String) → Exec State String
  pub get_statistics : (volume_path : String) → Exec State VolumeStatistics
  pub is_block_device : (volume_path : String) → Exec State Bool
  pub stat : (path : String) → Exec State (Unit {0})
  pub eval_symlinks : (path : String) → Exec State String
  pub need_resize : (device_path mount_path : String) → Exec State Bool
  pub resize : (device_path mount_path : String) → Exec State Bool

-- `P` survives the calls that only look.
pub record LooksKeep (h : Host) (P : h.State → Type 0) : Type 0 where
  pub is_formatted : (s : String) → Keeps P (h.is_formatted s)
  pub is_attached : (s : String) → Keeps P (h.is_attached s)
  pub is_mounted : (s : String) → Keeps P (h.is_mounted s)
  pub stat : (s : String) → Keeps P (h.stat s)
  pub eval_symlinks : (s : String) → Keeps P (h.eval_symlinks s)
  pub need_resize : (s t : String) → Keeps P (h.need_resize s t)

-- `P` survives every call but those to format, mount and unmount.
pub record QuietKeep (h : Host) (P : h.State → Type 0) : Type 0 where
  pub looks : LooksKeep h P
  pub resize : (device target : String) → Keeps P (h.resize device target)
  pub get_device_name : (target : String) → Keeps P (h.get_device_name target)
  pub get_statistics : (path : String) → Keeps P (h.get_statistics path)
  pub is_block_device : (path : String) → Keeps P (h.is_block_device path)

pub QuietKeep-or :
    (h : Host) (P Q : h.State → Type 0)
    → QuietKeep h P
    → QuietKeep h Q
    → QuietKeep h (λ s. P s ⊎ Q s)
QuietKeep-or h P Q p q = record {
  looks = record {
    is_formatted =
        λ s. Keeps-or P Q (h.is_formatted s) (p.looks.is_formatted s) (q.looks.is_formatted s);
    is_attached =
        λ s. Keeps-or P Q (h.is_attached s) (p.looks.is_attached s) (q.looks.is_attached s);
    is_mounted = λ s. Keeps-or P Q (h.is_mounted s) (p.looks.is_mounted s) (q.looks.is_mounted s);
    stat = λ s. Keeps-or P Q (h.stat s) (p.looks.stat s) (q.looks.stat s);
    eval_symlinks =
        λ s. Keeps-or P Q (h.eval_symlinks s) (p.looks.eval_symlinks s) (q.looks.eval_symlinks s);
    need_resize =
        λ s t. Keeps-or P Q (h.need_resize s t) (p.looks.need_resize s t) (q.looks.need_resize s t);
  };
  resize = λ s t. Keeps-or P Q (h.resize s t) (p.resize s t) (q.resize s t);
  get_device_name =
      λ s. Keeps-or P Q (h.get_device_name s) (p.get_device_name s) (q.get_device_name s);
  get_statistics = λ s. Keeps-or P Q (h.get_statistics s) (p.get_statistics s) (q.get_statistics s);
  is_block_device =
      λ s. Keeps-or P Q (h.is_block_device s) (p.is_block_device s) (q.is_block_device s);
}
