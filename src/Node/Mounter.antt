-- ===== src/Node/Mounter.antt =====
-- driver/mounter.go: the mounter over the commands and system calls that it makes.
pub mod Laws
pub mod Statistics
pub mod Whole
pub mod Usage
pub mod Staging
pub mod Once
use csi_thalassa.Prelude.{
  ℕ, String, Bool, true, false, not, List, [], ◌∷◌, ◌++◌, Option, none, some, ◌==◌, ◌||◌, ◌<>◌,
  if◌then◌else◌,
}
use csi_thalassa.Prelude.Signed.{ℤ, pos, eqℤ}
use csi_thalassa.Prelude.Text.{trim_space}
use csi_thalassa.Status.{Error, plain, panic}
use csi_thalassa.Exec.{Result, ok, err, Exec, pure, fail, lift, handle, settle, ◌>>=◌, ◌>>◌}
use csi_thalassa.Node.Path.{dir, split_path}
use csi_thalassa.Node.Interface.{Host, VolumeStatistics}

-- How a command ended.
pub data Exit : Type 0 where
  success : Exit
  -- an `exec.ExitError` with its status
  exit_status : ℤ → Exit
  not_run : Error → Exit

-- `fileSystem`, of which the code reads two fields
pub record FileSystem : Type 0 where
  pub target : String
  pub propagation : String

-- The fields of `unix.Statfs_t` that the code reads: unsigned numbers, and the block size, which is
-- an `int64`.
pub record Statfs : Type 0 where
  pub bsize : ℤ
  pub blocks : ℕ
  pub bfree : ℕ
  pub bavail : ℕ
  pub files : ℕ
  pub ffree : ℕ

-- The operating system. `is_err_not_found` stands for `err == exec.ErrNotFound`, and `decode` for
-- `json.Unmarshal` of findmnt's output, which leaves a nil pointer for `null`.
pub record System : Type 1 where
  pub State : Type 0
  pub look_path : String → Exec State (Unit {0})
  pub is_err_not_found : Error → Bool
  pub run : (command : String) (arguments : List String) → State → (Exit × String) × State
  pub stat : String → Exec State (Unit {0})
  pub mkdir_all : String → Exec State (Unit {0})
  pub open_file : String → Exec State (Unit {0})
  pub close_file : String → Exec State (Unit {0})
  pub eval_symlinks : String → Exec State String
  pub read_file : String → Exec State String
  pub decode : String → Result (Option (List FileSystem))
  -- the mode that `unix.Stat` reports
  pub stat_mode : String → Exec State ℕ
  pub statfs : String → Exec State Statfs

-- `strings.Join` with a comma
unfoldable pub join_options : List String → String
join_options [] = ""
join_options (o ∷ []) = o
join_options (o ∷ p ∷ opts) = o <> "," <> join_options (p ∷ opts)

unfoldable pub mkfs_arguments : (source fs_type : String) → List String
mkfs_arguments source fs_type =
    if fs_type == "ext4" || fs_type == "ext3" then "-F" ∷ source ∷ [] else source ∷ []

-- `-o` with the options, if there are any
unfoldable pub flagged_options : List String → List String
unfolding join_options
flagged_options [] = []
flagged_options (o ∷ l) = "-o" ∷ join_options (o ∷ l) ∷ []

-- `xfs` needs `nouuid`.
unfoldable pub option_arguments : (fs_type : String) → List String → List String
unfolding flagged_options
option_arguments fs_type opts =
    flagged_options (if fs_type == "xfs" then opts ++ "nouuid" ∷ [] else opts)

unfoldable pub mount_arguments : (source target fs_type : String) → List String → List String
unfolding option_arguments
mount_arguments source target fs_type opts =
    (if fs_type == "" then [] else "-t" ∷ fs_type ∷ [])
    ++ option_arguments fs_type opts
    ++ source ∷ target ∷ []

-- The loop of IsMounted: an error at the first mount that is not shared; the flag says whether the
-- target was among the mounts before.
unfoldable pub find_target : String → Bool → List FileSystem → Result Bool
find_target target found [] = ok found
find_target target found (fs ∷ l) =
    let rest = find_target target (if fs.target == target then true else found) l in
    if not (fs.propagation == "shared")
    then err (plain "mount propagation for target %q is not enabled")
    else rest

module _ (s : System) where
  -- The test that a command can be found.
  unfoldable pub require_command : String → Exec s.State (Unit {0})
  require_command command =
      handle (s.look_path command)
        (λ e. fail (if s.is_err_not_found e then plain "%q executable not found in $PATH" else e))
        pure

  abbrev pub outcome : Exit → Result (Unit {0})
  outcome success = ok tt
  outcome (exit_status n) = err (plain "exit status")
  outcome (not_run e) = err e

  -- A command whose failure has one message.
  unfoldable pub run_or_fail : String → List String → Error → Exec s.State (Unit {0})
  run_or_fail command arguments failure w =
      let (ended, w') = s.run command arguments w in
      settle (λ _. fail failure) pure (outcome ended.0) w'

  unfoldable pub format : (source fs_type : String) → Exec s.State (Unit {0})
  unfolding require_command run_or_fail mkfs_arguments
  format source fs_type = do
    require_command ("mkfs." <> fs_type)
    (if fs_type == ""
        then fail (plain "fs type is not specified for formatting the volume")
        else if source == ""
        then fail (plain "source is not specified for formatting the volume")
        else run_or_fail ("mkfs." <> fs_type) (mkfs_arguments source fs_type)
            (plain "formatting disk failed: %v cmd: '%s %s' output: %q"))

  -- The mount point: a file for a raw block device, a directory else.
  unfoldable pub make_mount_point : (target fs_type : String) → Exec s.State (Unit {0})
  unfolding dir
  make_mount_point target fs_type =
      if fs_type == ""
      then (handle (s.mkdir_all (dir target))
          (λ e. fail (plain "failed to create target directory for raw block bind mount: %v"))
          λ _.
            handle (s.open_file target)
              (λ e. fail (plain "failed to create target file for raw block bind mount: %v"))
              λ _.
                handle (s.close_file target)
                  (λ e. fail (plain "failed to close target file for raw block bind mount: %v"))
                  pure)
      else s.mkdir_all target

  unfoldable pub mount : (source target fs_type : String) → List String → Exec s.State (Unit {0})
  unfolding make_mount_point run_or_fail mount_arguments
  mount source target fs_type opts =
      if source == ""
      then fail (plain "source is not specified for mounting the volume")
      else if target == ""
      then fail (plain "target is not specified for mounting the volume")
      else handle (s.stat source)
          (λ e. fail (plain "source device %q does not exist or is not accessible: %v"))
          λ _. do
            make_mount_point target fs_type
            run_or_fail "mount" (mount_arguments source target fs_type opts)
                (plain "mounting failed: %v cmd: '%s %s' output: %q")

  unfoldable pub is_attached : String → Exec s.State (Unit {0})
  unfolding split_path trim_space
  is_attached source =
      handle (s.eval_symlinks source)
        (λ e. fail (plain "error evaluating the symbolic link %q: %s"))
        λ out.
          if (split_path out).1 == ""
          then fail (plain "error device name is empty for path %s")
          else handle (s.read_file ("/sys/class/block/" <> (split_path out).1 <> "/device/state"))
              (λ e. fail (plain "error reading the device state file %q: %s"))
              λ content.
                if not (trim_space content == "running")
                then fail (plain "error comparing the state file content, expected: %s, got: %q")
                else pure tt

  -- What blkid's end says; its status 2 stands for a device without identifiers.
  unfoldable pub formatted_by_exit : Exit → Result Bool
  formatted_by_exit success = ok true
  formatted_by_exit (exit_status n) =
      if eqℤ n (pos 2)
      then ok false
      else err (plain "checking formatting failed: %v cmd: %q, args: %q")
  formatted_by_exit (not_run e) = err (plain "checking formatting failed: %v cmd: %q, args: %q")

  unfoldable pub run_blkid : String → Exec s.State Bool
  unfolding formatted_by_exit
  run_blkid source w =
      let (ended, w') = s.run "blkid" (source ∷ []) w in (formatted_by_exit ended.0, w')

  unfoldable pub is_formatted : String → Exec s.State Bool
  unfolding require_command run_blkid
  is_formatted source =
      if source == ""
      then fail (plain "source is not specified")
      else require_command "blkid" >> run_blkid source

  -- What findmnt's end and output say.
  unfoldable pub mounted_by_output : String → Exit → String → Result Bool
  unfolding find_target trim_space
  mounted_by_output target success out = if out == "" then ok false else elim (s.decode out) [
    | err e ↦ err (plain "couldn't unmarshal data: %q: %s")
    | ok none ↦ err panic
    | ok (some l) ↦ find_target target false l
  ]
  mounted_by_output target ended out =
      if trim_space out == ""
      then ok false
      else err (plain "checking mounted failed: %v cmd: %q output: %q")

  abbrev findmnt_arguments : String → List String
  findmnt_arguments target = "-o" ∷ "TARGET,PROPAGATION,FSTYPE,OPTIONS" ∷ "-M" ∷ target ∷ "-J" ∷ []

  unfoldable pub is_mounted : String → Exec s.State Bool
  unfolding require_command mounted_by_output
  is_mounted target =
      if target == ""
      then fail (plain "target is not specified for checking the mount")
      else require_command "findmnt" >> findmnt
    where
      findmnt : Exec s.State Bool
      findmnt w =
          let (ended, w') = s.run "findmnt" (findmnt_arguments target) w in
          (mounted_by_output target ended.0 ended.1, w')
