-- ===== src/Tests/Calls.antt =====
-- Sequences of node calls on the mock mounter, and the applications of their theorems.
use csi_thalassa.Prelude.{
  String, ◌≡◌, refl, false, List, [], ◌∷◌, Option, none, some, ◌==◌, eq_iff, arith,
}
use csi_thalassa.Prelude.Labels.{lookup, insert, lookup-insert}
use csi_thalassa.Status.{Error}
use csi_thalassa.Exec.Keeps.{Keeps}
use csi_thalassa.Exec.{ok}
use csi_thalassa.Node.Path.{get_device_by_id_path}
use csi_thalassa.Node.Calls.{NodeCall, stage, unstage, publish, unpublish, serve_call, serve_calls}
use csi_thalassa.Node.Calls.Laws.{MountsKeep, serve_calls-Keeps}
use csi_thalassa.Node.Calls.Mounts.{Has}
use csi_thalassa.Node.Calls.Effects.{effect, effects}
use csi_thalassa.Node.Calls.Either.{Either}
use csi_thalassa.Node.Calls.Retry.{attempts, serve_call-attempts}
use csi_thalassa.Node.Calls.Refinement.{AllSucceed, serve_calls-effects}
use csi_thalassa.Node.Mock.{
  MockMounter, inject, new_mock_mounter, mock_format, mock_is_formatted, mock_is_mounted,
  mock_mount, mock_unmount,
}
use csi_thalassa.Node.Mock.Table.{mock-QuietKeep, mock_table}
use csi_thalassa.Tests.World.{driver}
use csi_thalassa.Tests.Node.{
  stat, link, need, host, stage_request, publish_request, IsExt4, IsExt4-formatted,
}

-- The volume is staged and published, and then the same is taken back.
abbrev calls : List NodeCall
calls =
    stage stage_request
    ∷ publish publish_request
    ∷ unpublish "vol-1" "/target"
    ∷ unstage "vol-1" "/staging"
    ∷ []

-- An injected error leaves the device's file system, and so does a change of the mount points.
injected-IsExt4 :
    (o : Option Error) (m n : MockMounter)
    → IsExt4 m
    → n.formatted_devices ≡ m.formatted_devices
    → IsExt4 (inject o m n).1
injected-IsExt4 none m n p e = rw e p
injected-IsExt4 (some x) m n p e = p

mounts-IsExt4 : MountsKeep host IsExt4
unfolding mock_mount mock_unmount
mounts-IsExt4 = record {
  quiet = mock-QuietKeep stat link need need IsExt4;
  mount = λ source target fs_type options m p.
      injected-IsExt4 (lookup target m.mount_errors) m _ p refl;
  unmount = λ target m p. injected-IsExt4 (lookup target m.unmount_errors) m _ p refl;
}

format-IsExt4 :
    (path fs_type : String)
    → (path == get_device_by_id_path "vol-1") ≡ false
    → Keeps IsExt4 (host.format path fs_type)
unfolding mock_format
format-IsExt4 path fs_type other m p = formatted (lookup path m.format_errors)
  where
    formatted :
        (o : Option Error)
        → IsExt4
            (inject o m
              (record m { formatted_devices = insert path fs_type m.formatted_devices })).1
    formatted none =
        rw (lookup-insert path (get_device_by_id_path "vol-1") fs_type m.formatted_devices, other) p
    formatted (some e) = p

abbrev formatted_mounter : MockMounter
formatted_mounter = record new_mock_mounter {
  formatted_devices = (get_device_by_id_path "vol-1", "ext4") ∷ [];
}

is_ext4 : IsExt4 formatted_mounter
unfolding lookup
is_ext4 = ground (arith, eq_iff (get_device_by_id_path "vol-1") (get_device_by_id_path "vol-1"))

serve_calls-Keeps_example : IsExt4 (serve_calls host driver calls formatted_mounter)
serve_calls-Keeps_example =
    serve_calls-Keeps host IsExt4 mounts-IsExt4 (get_device_by_id_path "vol-1") IsExt4-formatted
      format-IsExt4 driver calls formatted_mounter is_ext4

nothing_mounted : Has host (mock_table stat link need need) (λ path. false) new_mock_mounter
unfolding mock_table lookup
nothing_mounted path = refl

succeeds : AllSucceed host driver calls new_mock_mounter
unfolding serve_call mock_format mock_is_formatted mock_mount mock_unmount mock_is_mounted
succeeds = (refl, (refl, (refl, (refl, tt))))

serve_calls-effects_example :
    Has host
      (mock_table stat link need need)
      (effects calls (λ path. false))
      (serve_calls host driver calls new_mock_mounter)
serve_calls-effects_example =
    serve_calls-effects host driver (mock_table stat link need need) calls (λ path. false)
      new_mock_mounter nothing_mounted succeeds

serve_call-attempts_example :
    Either host
      (mock_table stat link need need)
      (λ path. false)
      (effect (publish publish_request) (λ path. false))
      (serve_calls host driver (attempts 2 (publish publish_request)) new_mock_mounter)
    × ((m : MockMounter)
        → serve_call host driver
            (publish publish_request)
            (serve_calls host driver (attempts 2 (publish publish_request)) new_mock_mounter)
          ≡ (ok tt, m)
        → Has host
            (mock_table stat link need need)
            (effect (publish publish_request) (λ path. false))
            m)
serve_call-attempts_example =
    serve_call-attempts host (mock_table stat link need need) (λ path. false) driver
      (publish publish_request) 2 new_mock_mounter nothing_mounted

-- The attempts succeed.
attempts_succeed :
    (serve_call host driver
      (publish publish_request)
      (serve_calls host driver (attempts 2 (publish publish_request)) new_mock_mounter)).0
    ≡ ok tt
unfolding serve_call serve_calls mock_mount mock_is_mounted
attempts_succeed = refl
