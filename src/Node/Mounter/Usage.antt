-- ===== src/Node/Mounter/Usage.antt =====
-- What NodeGetVolumeStats reports on the mounter of driver/mounter.go.
use native.Mathlib.Nat.{mul-le-mul_left, mul-le-mul_right}
use csi_thalassa.Prelude.{
  ℕ, String, false, ◌≡◌, refl, ap, [], ◌∷◌, ◌+◌, ◌-◌, ◌*◌, ◌^◌, ◌≤◌, ◌<◌, arith,
}
use csi_thalassa.Prelude.Signed.{
  pos, int64, int64_of_lt, times64, times64_of_lt, minus64, minus64_of_le,
}
use csi_thalassa.Exec.{ok}
use csi_thalassa.Node.Volume.{usage, statistics_path, mounted_volume_stats}
use csi_thalassa.Node.Mounter.{System, Statfs}
use csi_thalassa.Node.Mounter.Statistics.{
  is_block_mode, is_block_device, file_system_statistics, get_statistics,
}
use csi_thalassa.Node.Mounter.Whole.{Rest, mounter_host}

-- A file system whose size in bytes is an `int64`, with as many free blocks and inodes as it can
-- have.
pub record IsSound (block_size : ℕ) (f : Statfs) : Type 0 where
  pub bsize : f.bsize ≡ pos block_size
  pub block_size_positive : 0 < block_size
  pub block_size_fits : block_size < 2 ^ 63
  pub bytes : f.blocks * block_size < 2 ^ 63
  pub bfree : f.bfree ≤ f.blocks
  pub bavail : f.bavail ≤ f.bfree
  pub files : f.files < 2 ^ 63
  pub ffree : f.ffree ≤ f.files

-- A part of the blocks, in bytes.
part-times64 :
    (k blocks b : ℕ)
    → k ≤ blocks
    → 0 < b
    → b < 2 ^ 63
    → blocks * b < 2 ^ 63
    → (k < 2 ^ 63) × (times64 (pos k) (pos b) ≡ pos (k * b))
part-times64 k blocks b h p q s = (fits, times64_of_lt k b fits q product)
  where
    product : k * b < 2 ^ 63
    product = omega (arith, mul-le-mul_right b h)

    fits : k < 2 ^ 63
    fits = omega (arith, product, mul-le-mul_left k p)

module _ (b : ℕ) (f : Statfs) (i : IsSound b f) where
  part : (k : ℕ) → k ≤ f.blocks → (k < 2 ^ 63) × (times64 (pos k) (pos b) ≡ pos (k * b))
  part k h = part-times64 k f.blocks b h i.block_size_positive i.block_size_fits i.bytes

  part-int64 : (k : ℕ) → k ≤ f.blocks → times64 (int64 k) f.bsize ≡ pos (k * b)
  part-int64 k h = let (fits, product) = part k h in rw (int64_of_lt k fits, i.bsize) product

  blocks_used : minus64 (int64 f.blocks) (int64 f.bfree) ≡ pos (f.blocks - f.bfree)
  blocks_used =
      rw
        (
          int64_of_lt f.blocks (part f.blocks (omega arith)).0,
          int64_of_lt f.bfree (part f.bfree i.bfree).0,
        )
        (minus64_of_le f.blocks f.bfree (part f.blocks (omega arith)).0 i.bfree)

  used : times64 (minus64 (int64 f.blocks) (int64 f.bfree)) f.bsize ≡ pos ((f.blocks - f.bfree) * b)
  used = rw (blocks_used, i.bsize) (part (f.blocks - f.bfree) (omega arith)).1

  inodes : (int64 f.ffree ≡ pos f.ffree) × (int64 f.files ≡ pos f.files)
  inodes = (int64_of_lt f.ffree (omega (arith, i.ffree, i.files)), int64_of_lt f.files i.files)

  inodes_used : minus64 (int64 f.files) (int64 f.ffree) ≡ pos (f.files - f.ffree)
  inodes_used = rw (inodes.0, inodes.1) (minus64_of_le f.files f.ffree i.files i.ffree)

  usage-file_system :
      usage false (file_system_statistics f)
      ≡ record {
        available = pos (f.bavail * b);
        total = pos (f.blocks * b);
        used = pos ((f.blocks - f.bfree) * b);
      }
        ∷ record { available = pos f.ffree; total = pos f.files; used = pos (f.files - f.ffree) }
        ∷ []
  unfolding usage file_system_statistics
  usage-file_system =
      rw
        (
          part-int64 f.bavail (omega (arith, i.bavail, i.bfree)),
          part-int64 f.blocks (omega arith),
          used,
          inodes_used,
          inodes.0,
          inodes.1,
        )
        refl

parts-sum : (x y n b : ℕ) → x + y ≡ n → x * b + y * b ≡ n * b
parts-sum x y n b h = omega (arith, ap (λ (k : ℕ). k * b) h)

-- For a directory of a file system whose size is an `int64` of bytes, NodeGetVolumeStats reports
-- the available, total and used bytes and inodes with no overflow; what is used and what is free
-- make up the total.
pub mounted_volume_stats-mounter :
    (s : System) (rest : Rest s.State) (path : String) (mode mode' : ℕ) (f : Statfs) (b : ℕ)
    (w w1 w2 w3 : s.State)
    → s.stat_mode path w ≡ (ok mode, w1)
    → s.stat_mode path w1 ≡ (ok mode', w2)
    → is_block_mode mode ≡ false
    → is_block_mode mode' ≡ false
    → s.statfs path w2 ≡ (ok f, w3)
    → IsSound b f
    → (mounted_volume_stats (mounter_host s rest) path w ≡ (
      ok (
          record {
            available = pos (f.bavail * b);
            total = pos (f.blocks * b);
            used = pos ((f.blocks - f.bfree) * b);
          }
          ∷ record { available = pos f.ffree; total = pos f.files; used = pos (f.files - f.ffree) }
          ∷ []),
      w3,
    ))
      × ((f.blocks - f.bfree) * b + f.bfree * b ≡ f.blocks * b)
unfolding mounted_volume_stats statistics_path is_block_device get_statistics
mounted_volume_stats-mounter s rest path mode mode' f b w w1 w2 w3 h h' m m' g i = (
  rw (h, m, h', m', g, usage-file_system b f i) refl,
  parts-sum (f.blocks - f.bfree) f.bfree f.blocks b (omega arith),
)
