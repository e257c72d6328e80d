-- ===== src/Config/Laws.antt =====
-- What the flags of the program come to.
use csi_thalassa.Prelude.{
  String, ◌≡◌, refl, ◌∙◌, List, [], ◌∷◌, Option, none, some, false, arith, ◌==◌, if◌then◌else◌,
}
use csi_thalassa.Prelude.Labels.{Labels, lookup, lookup-insert, or_else}
use csi_thalassa.Prelude.Text.{split}
use csi_thalassa.Exec.{Result, ok}
use csi_thalassa.Iaas.{Cloud}
use csi_thalassa.Driver.{Driver}
use csi_thalassa.Attachment.{publish_node_id, unpublish_node_id}
use csi_thalassa.Config.{
  ClientOption, NewDriverParams, controller_driver, new_driver, add_label, add_labels,
  parse_custom_labels,
}

pub new_driver-ok :
    (version : String) (new_client : List ClientOption → Result (Unit {0}))
    (new_iaas : Result (Unit {0})) (p : NewDriverParams) {d : Driver}
    → new_driver version new_client new_iaas p ≡ ok d
    → d ≡ controller_driver p
unfolding new_driver
new_driver-ok version new_client new_iaas p h = ground arith

controller_driver-kube_config :
    (c : Cloud) (p : NewDriverParams) (node : String) (s : c.State)
    → (publish_node_id c (controller_driver p) node s ≡ (ok node, s))
      × (unpublish_node_id c (controller_driver p) node s ≡ (ok node, s))
unfolding controller_driver publish_node_id unpublish_node_id
controller_driver-kube_config c p node s = (refl, refl)

-- The driver that NewDriver makes takes the node of every request for a machine as it is, without a
-- call, whatever its parameters say about the Kubernetes configuration.
pub new_driver-node_id :
    (version : String) (new_client : List ClientOption → Result (Unit {0}))
    (new_iaas : Result (Unit {0})) (p : NewDriverParams) (d : Driver)
    → new_driver version new_client new_iaas p ≡ ok d
    → (c : Cloud) (node : String) (s : c.State)
    → (publish_node_id c d node s ≡ (ok node, s)) × (unpublish_node_id c d node s ≡ (ok node, s))
new_driver-node_id version new_client new_iaas p d h c node s =
    rw (new_driver-ok version new_client new_iaas p h) (controller_driver-kube_config c p node s)

-- The last value that a list of `key=value` texts has for a key.
abbrev pub value_of_pair : String → List String → Option String
value_of_pair j (k ∷ v ∷ []) = if k == j then some v else none
value_of_pair j _ = none

pub last_value : String → List String → Option String
last_value j [] = none
last_value j (label ∷ l) = or_else (last_value j l) (value_of_pair j (split label "="))

lookup-add_label :
    (j : String) (parts : List String) (labels : Labels)
    → lookup j (add_label parts labels) ≡ or_else (value_of_pair j parts) (lookup j labels)
unfolding add_label
lookup-add_label j [] labels = refl
lookup-add_label j (k ∷ []) labels = refl
lookup-add_label j (k ∷ v ∷ []) labels = ground (arith, lookup-insert k j v labels)
lookup-add_label j (k ∷ v ∷ w ∷ l) labels = refl

or_else_assoc : (o p q : Option String) → or_else o (or_else p q) ≡ or_else (or_else o p) q
or_else_assoc (some v) p q = refl
or_else_assoc none p q = refl

lookup-add_labels :
    (j : String) (l : List String) (labels : Labels)
    → lookup j (add_labels l labels) ≡ or_else (last_value j l) (lookup j labels)
unfolding add_labels last_value
lookup-add_labels j [] labels = refl
lookup-add_labels j (label ∷ l) labels =
    lookup-add_labels j l (add_label (split label "=") labels)
    ∙ rw (lookup-add_label j (split label "=") labels)
        (or_else_assoc (last_value j l) (value_of_pair j (split label "=")) (lookup j labels))

or_else-none : (o : Option String) → or_else o none ≡ o
or_else-none (some v) = refl
or_else-none none = refl

-- The custom labels of a text that is not empty hold, for every key, the value of the last of its
-- comma-separated parts that has the key before the only `=`.
pub lookup-parse_custom_labels :
    (j text : String)
    → (text == "") ≡ false
    → lookup j (parse_custom_labels text) ≡ last_value j (split text ",")
unfolding parse_custom_labels lookup
lookup-parse_custom_labels j text given =
    rw given
      (lookup-add_labels j (split text ",") [] ∙ or_else-none (last_value j (split text ",")))
