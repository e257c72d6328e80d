-- ===== src/Tests/Mounter.antt =====
-- Runs of the mounter on a system that writes down its commands, and the applications of its
-- theorems.
use csi_thalassa.Prelude.{
  String, ◌+◌, ◌-◌, ◌*◌, ◌≡◌, refl, true, false, any, List, [], ◌∷◌, ◌==◌, some, arith,
  if◌then◌else◌,
}
use csi_thalassa.Prelude.Signed.{pos}
use csi_thalassa.Status.{plain}
use csi_thalassa.Exec.{ok, err}
use csi_thalassa.Exec.Keeps.{Keeps, if-Keeps}
use csi_thalassa.Node.Interface.{LooksKeep}
use csi_thalassa.Node.Stage.{node_stage_volume}
use csi_thalassa.Node.Mounter.{
  Exit, System, Statfs, success, FileSystem, find_target, require_command, make_mount_point, mount,
  run_blkid, is_formatted, is_attached, is_mounted,
}
use csi_thalassa.Node.Volume.{mounted_volume_stats}
use csi_thalassa.Node.Mounter.Statistics.{is_block_mode}
use csi_thalassa.Node.Mounter.Usage.{IsSound, mounted_volume_stats-mounter}
use csi_thalassa.Node.Mounter.Whole.{Rest, mounter_host}
use csi_thalassa.Node.Mounter.Laws.{all_shared, find_target_lem, mounter_mount-Keeps}
use csi_thalassa.Node.Mounter.Once.{RunsOnce, mounter_mount-RunsOnce}
use csi_thalassa.Node.Mounter.Staging.{node_stage_volume-mounter}
use csi_thalassa.Tests.World.{driver}
use csi_thalassa.Tests.Node.{stage_request}

abbrev ext4 : Statfs
ext4 = record {
  bsize = pos 4096;
  blocks = 2560000;
  bfree = 2000000;
  bavail = 1900000;
  files = 655360;
  ffree = 655000;
}

abbrev linux : System
linux = record {
  State = List String;
  look_path = λ c w. (ok tt, w);
  is_err_not_found = λ e. false;
  run = λ c l w. ((success, ""), c ∷ w);
  stat = λ p w. (ok tt, w);
  mkdir_all = λ p w. (ok tt, w);
  open_file = λ p w. (ok tt, w);
  close_file = λ p w. (ok tt, w);
  eval_symlinks = λ p w. (err (plain "no such file or directory"), w);
  read_file = λ p w. (ok "running", w);
  decode = λ out. ok (some []);
  stat_mode = λ p w. (ok 0x41ed, w);
  statfs = λ p w. (ok ext4, w);
}

abbrev rest : Rest (List String)
rest = record {
  unmount = λ t w. (ok tt, w);
  get_device_name = λ t w. (ok "/dev/sdb", w);
  need_resize = λ s t w. (ok false, w);
  resize = λ s t w. (ok true, w);
}

abbrev mounts : List FileSystem
mounts = record { target = "/target"; propagation = "shared" } ∷ []

find_target_lem_example : find_target "/target" false mounts ≡ (
    if all_shared mounts
    then ok (any (λ fs. fs.target == "/target") mounts)
    else err (plain "mount propagation for target %q is not enabled"))
find_target_lem_example = find_target_lem "/target" mounts

-- No file system has been made.
abbrev NoMkfs : List String → Type 0
NoMkfs w = any (λ c. c == "mkfs.ext4") w ≡ false

makes_mount_point : (target fs_type : String) → Keeps NoMkfs (make_mount_point linux target fs_type)
unfolding make_mount_point
makes_mount_point target fs_type = if-Keeps NoMkfs (fs_type == "") _ _ (λ w p. p) (λ w p. p)

mount-NoMkfs :
    (source target fs_type : String) (opts : List String)
    → Keeps NoMkfs (mount linux source target fs_type opts)
mount-NoMkfs source target fs_type opts =
    mounter_mount-Keeps linux NoMkfs source target fs_type opts (λ w p. p)
      (makes_mount_point target fs_type) (λ w p. p)

-- Every command that was run is the mount of one of these ends.
abbrev OnlyMounts : List Exit → List String → Type 0
OnlyMounts [] [] = Unit
OnlyMounts (e ∷ l) (c ∷ w) = (e ≡ success) × (c ≡ "mount") × OnlyMounts l w
OnlyMounts _ _ = ⊥

makes_no_mount : Keeps (OnlyMounts []) (make_mount_point linux "/target" "ext4")
unfolding make_mount_point
makes_no_mount = λ w p. p

mounter_mount-RunsOnce_example :
    RunsOnce linux OnlyMounts "/dev/sdb" "/target" (mount linux "/dev/sdb" "/target" "ext4" [] [])
mounter_mount-RunsOnce_example =
    mounter_mount-RunsOnce linux OnlyMounts "/dev/sdb" "/target" "ext4" [] (λ w p. p) makes_no_mount
      (λ arguments line l w p. (refl, refl, p)) [] tt

looks-NoMkfs : LooksKeep (mounter_host linux rest) NoMkfs
unfolding is_formatted is_attached is_mounted require_command run_blkid
looks-NoMkfs = record {
  is_formatted = λ source. if-Keeps NoMkfs (source == "") _ _ (λ w p. p) (λ w p. p);
  is_attached = λ source w p. p;
  is_mounted = λ target. if-Keeps NoMkfs (target == "") _ _ (λ w p. p) (λ w p. p);
  stat = λ path w p. p;
  eval_symlinks = λ path w p. p;
  need_resize = λ s t w p. p;
}

node_stage_volume-mounter_example :
    Keeps NoMkfs (node_stage_volume (mounter_host linux rest) driver stage_request)
node_stage_volume-mounter_example =
    node_stage_volume-mounter linux rest NoMkfs looks-NoMkfs (λ w p. p) driver stage_request
      (λ w p h. ground arith) (λ fs_type opts. mount-NoMkfs _ _ fs_type opts) (λ w p. p)

ext4-IsSound : IsSound 4096 ext4
ext4-IsSound = ground arith

mounted_volume_stats-mounter_example :
    (mounted_volume_stats (mounter_host linux rest) "/staging" [] ≡ (
      ok (
          record {
            available = pos (1900000 * 4096);
            total = pos (2560000 * 4096);
            used = pos ((2560000 - 2000000) * 4096);
          }
          ∷ record { available = pos 655000; total = pos 655360; used = pos (655360 - 655000) }
          ∷ []),
      [],
    ))
    × ((2560000 - 2000000) * 4096 + 2000000 * 4096 ≡ 2560000 * 4096)
unfolding is_block_mode
mounted_volume_stats-mounter_example =
    mounted_volume_stats-mounter linux rest "/staging" 0x41ed 0x41ed ext4 4096 [] [] [] [] refl refl
      directory directory refl ext4-IsSound
  where
    directory : is_block_mode 0x41ed ≡ false
    directory = refl
