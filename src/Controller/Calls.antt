-- ===== src/Controller/Calls.antt =====
-- The calls of the Thalassa and the Kubernetes client as data, and their answers.
use csi_thalassa.Prelude.{String, List, Option}
use csi_thalassa.Exec.{Result}
use csi_thalassa.Iaas.{
  Cloud, Volume, VolumeType, Machine, Snapshot, Filter, CreateVolume, UpdateVolume, CreateSnapshot,
  ResourceRequest,
}

pub data Read : Type 0 where
  get_volume : String → Read
  list_volumes : List Filter → Read
  list_volume_types : Read
  get_machine : String → Read
  list_machines : List Filter → Read
  get_snapshot : String → Read
  list_snapshots : List Filter → Read
  wait_until_snapshot_is_available : String → Read
  list_regions : List Filter → Read
  build_kube_config : String → Read
  new_kube_client : Read
  get_node_provider_id : String → Read

pub data Write : Type 0 where
  create_volume : CreateVolume → Write
  update_volume : String → UpdateVolume → Write
  delete_volume : String → Write
  attach_volume : String → ResourceRequest → Write
  detach_volume : String → ResourceRequest → Write
  create_snapshot : CreateSnapshot → Write
  delete_snapshot : String → Write

pub data Call : Type 0 where
  read : Read → Call
  write : Write → Call

pub data Reply : Type 0 where
  done : Result (Unit {0}) → Reply
  volume : Result (Option Volume) → Reply
  volumes : Result (List Volume) → Reply
  volume_types : Result (List VolumeType) → Reply
  machines : Result (List Machine) → Reply
  snapshot : Result (Option Snapshot) → Reply
  snapshots : Result (List Snapshot) → Reply
  provider_id : Result String → Reply

-- What the API answers, and what becomes of it.
abbrev answered {ℓ} : {S : Type 0} {A : Type ℓ} → (Result A → Reply) → Result A × S → Reply × S
answered reply p = (reply p.0, p.1)

module _ (c : Cloud) where
  abbrev pub perform_read : Read → c.State → Reply × c.State
  perform_read (get_volume id) s = answered volume (c.get_volume id s)
  perform_read (list_volumes l) s = answered volumes (c.list_volumes l s)
  perform_read list_volume_types s = answered volume_types (c.list_volume_types s)
  perform_read (get_machine id) s = answered done (c.get_machine id s)
  perform_read (list_machines l) s = answered machines (c.list_machines l s)
  perform_read (get_snapshot id) s = answered snapshot (c.get_snapshot id s)
  perform_read (list_snapshots l) s = answered snapshots (c.list_snapshots l s)
  perform_read (wait_until_snapshot_is_available id) s =
      answered done (c.wait_until_snapshot_is_available id s)
  perform_read (list_regions l) s = answered done (c.list_regions l s)
  perform_read (build_kube_config k) s = answered done (c.build_kube_config k s)
  perform_read new_kube_client s = answered done (c.new_kube_client s)
  perform_read (get_node_provider_id node) s = answered provider_id (c.get_node_provider_id node s)

  abbrev pub perform_write : Write → c.State → Reply × c.State
  perform_write (create_volume r) s = answered volume (c.create_volume r s)
  perform_write (update_volume id u) s = answered done (c.update_volume id u s)
  perform_write (delete_volume id) s = answered done (c.delete_volume id s)
  perform_write (attach_volume id r) s = answered done (c.attach_volume id r s)
  perform_write (detach_volume id r) s = answered done (c.detach_volume id r s)
  perform_write (create_snapshot r) s = answered snapshot (c.create_snapshot r s)
  perform_write (delete_snapshot id) s = answered done (c.delete_snapshot id s)

  unfoldable pub perform : Call → c.State → Reply × c.State
  perform (read r) = perform_read r
  perform (write w) = perform_write w
