-- ===== src/Node/Mounter/Laws.antt =====
-- What the mounter runs, and how it reads the answers of blkid and findmnt.
use csi_thalassa.Prelude.{
  String, ◌≡◌, ◌↔◌, Bool, true, false, any, List, [], ◌∷◌, ◌==◌, ◌||◌, ◌&&◌, if◌then◌else◌, arith,
}
use csi_thalassa.Prelude.Signed.{pos, eqℤ_iff}
use csi_thalassa.Status.{Error, plain}
use csi_thalassa.Exec.{ok, err, settle, fail, pure}
use csi_thalassa.Exec.Keeps.{Keeps, handle-Keeps, if-Keeps}
use csi_thalassa.Node.Mounter.{
  System, Exit, success, exit_status, not_run, FileSystem, find_target, require_command,
  run_or_fail, make_mount_point, mount, mount_arguments, formatted_by_exit, run_blkid, is_formatted,
  outcome,
}

-- Every mount is shared.
abbrev pub all_shared : List FileSystem → Bool
all_shared [] = true
all_shared (fs ∷ l) = fs.propagation == "shared" && all_shared l

find_target_from :
    (target : String) (found : Bool) (l : List FileSystem)
    → find_target target found l ≡ (
        if all_shared l
        then ok (found || any (λ fs. fs.target == target) l)
        else err (plain "mount propagation for target %q is not enabled"))
unfolding find_target
find_target_from target found [] = ground arith
find_target_from target found (fs ∷ l) =
    ground (arith, find_target_from target (if fs.target == target then true else found) l)

-- Of the mounts that findmnt lists, the loop of IsMounted finds whether one is at the target, if
-- all of them are shared, and fails if not.
pub find_target_lem :
    (target : String) (l : List FileSystem)
    → find_target target false l ≡ (
        if all_shared l
        then ok (any (λ fs. fs.target == target) l)
        else err (plain "mount propagation for target %q is not enabled"))
find_target_lem target l = find_target_from target false l

pub formatted_by_exit_iff :
    (s : System) (e : Exit) → (formatted_by_exit s e ≡ ok false) ↔ (e ≡ exit_status (pos 2))
unfolding formatted_by_exit
formatted_by_exit_iff s success = ground arith
formatted_by_exit_iff s (exit_status n) = ground (arith, eqℤ_iff n (pos 2))
formatted_by_exit_iff s (not_run e) = ground arith

-- If blkid is there, a device with a path is taken for one without a file system exactly if blkid
-- ends with the status 2: not if it fails in another way.
pub is_formatted_iff :
    (s : System) (source : String) (w w' : s.State)
    → (source == "") ≡ false
    → s.look_path "blkid" w ≡ (ok tt, w')
    → ((is_formatted s source w).0 ≡ ok false)
      ↔ ((s.run "blkid" (source ∷ []) w').0.0 ≡ exit_status (pos 2))
unfolding is_formatted require_command run_blkid
is_formatted_iff s source w w' given there =
    rw (given, there) (formatted_by_exit_iff s (s.run "blkid" (source ∷ []) w').0.0)

module _ (s : System) (P : s.State → Type 0) where
  run_or_fail-Keeps :
      (command : String) (arguments : List String) (failure : Error)
      → ((w : s.State) → P w → P (s.run command arguments w).1)
      → Keeps P (run_or_fail s command arguments failure)
  unfolding run_or_fail
  run_or_fail-Keeps command arguments failure runs w p =
      ends (s.run command arguments w).0.0 (s.run command arguments w).1 (runs w p)
    where
      ends :
          (e : Exit) (w' : s.State) → P w' → P (settle (λ _. fail failure) pure (outcome s e) w').1
      ends success w' p = p
      ends (exit_status n) w' p = p
      ends (not_run e) w' p = p

-- Whatever survives the look at the source, the making of the mount point, and the command `mount`
-- with the arguments for its options, survives Mount.
pub mounter_mount-Keeps :
    (s : System) (P : s.State → Type 0) (source target fs_type : String) (opts : List String)
    → Keeps P (s.stat source)
    → Keeps P (make_mount_point s target fs_type)
    → ((w : s.State) → P w → P (s.run "mount" (mount_arguments source target fs_type opts) w).1)
    → Keeps P (mount s source target fs_type opts)
unfolding mount
mounter_mount-Keeps s P source target fs_type opts looks makes runs =
    if-Keeps P (source == "") _ _ (λ w p. p)
      (if-Keeps P (target == "") _ _ (λ w p. p)
        (handle-Keeps (s.stat source) _ _ looks (λ e w p. p)
          λ _.
            handle-Keeps (make_mount_point s target fs_type) fail _ makes (λ e w p. p)
              λ _. run_or_fail-Keeps s P "mount" _ _ runs))
