-- ===== src/Node/Mounter/Statistics.antt =====
-- driver/mounter.go: IsBlockDevice and GetStatistics.
use csi_thalassa.Prelude.{ℕ, String, Bool, [], ◌∷◌, none, some, ◌*◌, ◌/◌, ◌%◌, if◌then◌else◌, eqb}
use csi_thalassa.Prelude.Signed.{ℤ, pos, int64, times64, minus64}
use csi_thalassa.Prelude.Decimal.{parse_int64}
use csi_thalassa.Prelude.Text.{trim_space}
use csi_thalassa.Status.{plain}
use csi_thalassa.Exec.{Result, ok, err, Exec, pure, fail, handle, ◌>>=◌}
use csi_thalassa.Node.Interface.{VolumeStatistics}
use csi_thalassa.Node.Mounter.{System, Statfs, outcome}

-- `(mode & S_IFMT) == S_IFBLK`: the four bits from the twelfth on
unfoldable pub is_block_mode : ℕ → Bool
is_block_mode mode = eqb (mode / 0x1000 % 0x10 * 0x1000) 0x6000

-- Of a device only the size is known; the other fields have their zero value.
abbrev pub block_statistics : ℤ → VolumeStatistics
block_statistics size = record {
  available_bytes = pos 0;
  total_bytes = size;
  used_bytes = pos 0;
  available_inodes = pos 0;
  total_inodes = pos 0;
  used_inodes = pos 0;
}

unfoldable pub file_system_statistics : Statfs → VolumeStatistics
unfolding int64 times64 minus64
file_system_statistics f = record {
  available_bytes = times64 (int64 f.bavail) f.bsize;
  total_bytes = times64 (int64 f.blocks) f.bsize;
  used_bytes = times64 (minus64 (int64 f.blocks) (int64 f.bfree)) f.bsize;
  available_inodes = int64 f.ffree;
  total_inodes = int64 f.files;
  used_inodes = minus64 (int64 f.files) (int64 f.ffree);
}

-- What blockdev's output says.
unfoldable pub size_of_output : String → Result VolumeStatistics
unfolding parse_int64 trim_space
size_of_output out = elim (parse_int64 (trim_space out)) [
  | none ↦ err (plain "failed to parse size %s into int")
  | some size ↦ ok (block_statistics size)
]

module _ (s : System) where
  unfoldable pub is_block_device : String → Exec s.State Bool
  unfolding is_block_mode
  is_block_device device_path = s.stat_mode device_path >>= λ mode. pure (is_block_mode mode)

  unfoldable pub block_device_statistics : String → Exec s.State VolumeStatistics
  unfolding size_of_output
  block_device_statistics volume_path w =
      let (ended, w') = s.run "blockdev" ("getsize64" ∷ volume_path ∷ []) w in
      (
        elim (outcome s ended.0) [
          | ok _ ↦ size_of_output ended.1
          | err e ↦
              err (plain "error when getting size of block volume at path %s: output: %s, err: %v")
        ],
        w',
      )

  unfoldable pub get_statistics : String → Exec s.State VolumeStatistics
  unfolding is_block_device block_device_statistics file_system_statistics
  get_statistics volume_path =
      handle (is_block_device volume_path)
        (λ e. fail (plain "failed to determine if volume %s is block device: %v"))
        λ is_block.
          if is_block
          then block_device_statistics volume_path
          else s.statfs volume_path >>= λ f. pure (file_system_statistics f)
