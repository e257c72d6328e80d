-- ===== src/Node/Mounter/Staging.antt =====
-- Staging on the mounter: a device is formatted only if blkid finds nothing on it.
use mathlib.Core.Path.{subst}
use csi_thalassa.Prelude.{
  String, ◌≡◌, ◌≢◌, refl, ap, Bool, true, false, List, [], ◌∷◌, ◌==◌, arith, inr,
}
use csi_thalassa.Prelude.Signed.{pos}
use csi_thalassa.Exec.{Result, ok, err, fail}
use csi_thalassa.Exec.Keeps.{Keeps, handle-Keeps}
use csi_thalassa.Exec.Ensures.{Ensures, handle-Ensures, if-Ensures, ensured}
use csi_thalassa.Csi.{NodeStageRequest}
use csi_thalassa.Driver.{Driver}
use csi_thalassa.Node.Path.{get_device_by_id_path}
use csi_thalassa.Node.Interface.{LooksKeep}
use csi_thalassa.Node.Stage.{node_stage_volume}
use csi_thalassa.Node.Stage.Laws.{node_stage_volume-Keeps}
use csi_thalassa.Node.Mounter.{
  System, Exit, exit_status, require_command, run_blkid, is_formatted, formatted_by_exit,
}
use csi_thalassa.Node.Mounter.Whole.{Rest, mounter_host}
use csi_thalassa.Node.Mounter.Laws.{formatted_by_exit_iff}

abbrev NotFalse : {S : Type 0} → Bool → S → Type 0
NotFalse b s = b ≢ false

module _ (s : System) where
  by_exit :
      (e : Exit) (w : s.State)
      → e ≢ exit_status (pos 2)
      → Ensures NotFalse (formatted_by_exit s e, w)
  by_exit e w other = cases (formatted_by_exit s e) (formatted_by_exit_iff s e).0
    where
      cases : (r : Result Bool) → (r ≡ ok false → e ≡ exit_status (pos 2)) → Ensures NotFalse (r, w)
      cases (ok true) f = ground arith
      cases (ok false) f = absurd (other (f refl))
      cases (err x) f = tt

  module _ (P : s.State → Type 0) (source : String) (finds : Keeps P (s.look_path "blkid"))
      (known : (w : s.State)
        → P w
        → (s.run "blkid" (source ∷ []) w).0.0 ≢ exit_status (pos 2)) where
    is_formatted-NotFalse : (w : s.State) → P w → Ensures NotFalse (is_formatted s source w)
    unfolding is_formatted run_blkid require_command
    is_formatted-NotFalse w p =
        if-Ensures NotFalse (source == "") _ _ w (λ _. tt)
          λ _.
            handle-Ensures NotFalse (require_command s "blkid") fail (λ _. run_blkid s source) w
              (λ e w1 h. tt)
              λ _ w1 h. by_exit (s.run "blkid" (source ∷ []) w1).0.0 _ (
                known w1 (subst P (ap (λ (r : Result (Unit {0}) × s.State). r.1) h) (required w p)))
      where
        required : Keeps P (require_command s "blkid")
        required = handle-Keeps (s.look_path "blkid") _ _ finds (λ e w p. p) (λ _ w p. p)

    is_formatted-never : (w : s.State) → P w → (is_formatted s source w).0 ≢ ok false
    is_formatted-never w p h =
        ensured NotFalse (is_formatted s source w) false (is_formatted s source w).1
          (ap (λ (r : Result Bool). (r, (is_formatted s source w).1)) h) (is_formatted-NotFalse w p)
          refl

-- With the mounter, staging formats no device on which blkid does not end with its status 2:
-- whatever survives the looks, the search for blkid, the mount of the device at the staging path,
-- and its resizing, and keeps blkid from that status, survives NodeStageVolume, which then does not
-- format.
pub node_stage_volume-mounter :
    (s : System) (rest : Rest s.State) (P : s.State → Type 0)
    → LooksKeep (mounter_host s rest) P
    → Keeps P (s.look_path "blkid")
    → (d : Driver) (req : NodeStageRequest)
    → ((w : s.State)
        → P w
        → (s.run "blkid" (get_device_by_id_path req.volume_id ∷ []) w).0.0 ≢ exit_status (pos 2))
    → ((fs_type : String) (options : List String)
        → Keeps P (
            (mounter_host s rest).mount
              (get_device_by_id_path req.volume_id)
              req.staging_target_path
              fs_type
              options))
    → Keeps P (rest.resize (get_device_by_id_path req.volume_id) req.staging_target_path)
    → Keeps P (node_stage_volume (mounter_host s rest) d req)
node_stage_volume-mounter s rest P looks finds d req known mounts grows =
    node_stage_volume-Keeps (mounter_host s rest) P looks d req
      (inr (is_formatted-never s P (get_device_by_id_path req.volume_id) finds known)) mounts grows
