-- ===== src/CommandLine/Laws.antt =====
-- Which drivers the program runs, and how it ends.
use csi_thalassa.Prelude.{◌≡◌, refl, [], ◌==◌}
use csi_thalassa.Status.{wrap}
use csi_thalassa.Exec.{Result, ok, err, fail, handle, settle, pure}
use csi_thalassa.Exec.Keeps.{Keeps, handle-Keeps, if-Keeps}
use csi_thalassa.Driver.{Driver}
use csi_thalassa.Config.{new_driver, new_node_driver, controller_driver}
use csi_thalassa.Config.Laws.{new_driver-ok}
use csi_thalassa.CommandLine.{
  Viper, Program, controller_params, node_params, plugin_controller, plugin_node, plugin,
}

-- A driver with no labels and annotations of its own, and without a Kubernetes configuration.
abbrev pub IsBare : Driver → Type 0
IsBare d = (d.custom_labels ≡ []) × ((d.custom_annotations ≡ []) × (d.kube_config ≡ ""))

controller-IsBare :
    (p : Program) (v : Viper) (d : Driver)
    → new_driver p.version p.new_client p.new_iaas (controller_params v) ≡ ok d
    → IsBare d
unfolding controller_driver
controller-IsBare p v d h =
    rw (new_driver-ok p.version p.new_client p.new_iaas (controller_params v) h)
      (refl, (refl, refl))

module _ (p : Program) (P : p.State → Type 0) (bare : (d : Driver) → IsBare d → Keeps P (p.run d))
    (bare_node : (d : Driver) → IsBare d → Keeps P (p.run_node d)) where
  plugin_controller-Keeps : (v : Viper) → Keeps P (plugin_controller p v)
  unfolding plugin_controller
  plugin_controller-Keeps v s k =
      made (new_driver p.version p.new_client p.new_iaas (controller_params v)) refl
    where
      made :
          (r : Result Driver)
          → new_driver p.version p.new_client p.new_iaas (controller_params v) ≡ r
          → P
              (settle
                (λ e. fail (wrap "failed to create controller" e))
                (λ d. handle (p.run d) (λ e. fail (wrap "failed to run driver" e)) pure)
                r
                s).1
      made (err e) h = k
      made (ok d) h =
          handle-Keeps (p.run d) _ pure (bare d (controller-IsBare p v d h)) (λ e s k. k)
            (λ a s k. k) s k

  plugin_node-Keeps : (v : Viper) → Keeps P (plugin_node p v)
  unfolding plugin_node
  plugin_node-Keeps v =
      handle-Keeps (p.run_node (new_node_driver (node_params v))) _ pure
        (bare_node (new_node_driver (node_params v)) (refl, (refl, refl))) (λ e s k. k) (λ a s k. k)

  -- The program runs no driver but such that have no custom labels, no custom annotations and no
  -- Kubernetes configuration, whatever its flags say: what the runs of these keep the program
  -- keeps.
  pub plugin-Keeps : (v : Viper) → Keeps P (plugin p v)
  unfolding plugin
  plugin-Keeps v =
      if-Keeps P (v.get_string "mode" == "controller") (plugin_controller p v) _
        (plugin_controller-Keeps v)
        (if-Keeps P (v.get_string "mode" == "node") (plugin_node p v) _ (plugin_node-Keeps v)
          (λ s k. k))
