-- ===== src/Node/Mounter/Whole.antt =====
-- driver/mounter.go as the host of the node's handlers.
use csi_thalassa.Prelude.{String, Bool}
use csi_thalassa.Exec.{Exec}
use csi_thalassa.Node.Interface.{Host}
use csi_thalassa.Node.Mounter.{System, format, is_formatted, mount, is_attached, is_mounted}
use csi_thalassa.Node.Mounter.Statistics.{get_statistics, is_block_device}

-- The calls of the handlers that are no part of the above, or go straight to a library.
pub record Rest (State : Type 0) : Type 0 where
  pub unmount : (target : String) → Exec State (Unit {0})
  pub get_device_name : (mount_path : String) → Exec State String
  pub need_resize : (device_path mount_path : String) → Exec State Bool
  pub resize : (device_path mount_path : String) → Exec State Bool

-- The handlers' host with this mounter.
abbrev pub mounter_host : (s : System) → Rest s.State → Host
mounter_host s rest = record {
  State = s.State;
  format = format s;
  is_formatted = is_formatted s;
  mount = mount s;
  unmount = rest.unmount;
  is_attached = is_attached s;
  is_mounted = is_mounted s;
  get_device_name = rest.get_device_name;
  get_statistics = get_statistics s;
  is_block_device = is_block_device s;
  stat = s.stat;
  eval_symlinks = s.eval_symlinks;
  need_resize = rest.need_resize;
  resize = rest.resize;
}
