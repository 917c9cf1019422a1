-- ===== src/Display/Tests.antt =====
-- The theorems on the helpers of the views at a concrete graph and state map.
use kro_ui.Prelude.{◌+◌, ◌≤◌, true, false, none, some, [], ◌∷◌, ◌≡◌, ◌≢◌, refl, ◌↔◌, length, All}
use kro_ui.Prelude.Text.{Text, codes}
use kro_ui.Dag.{DagNode, DagGraph, instance_node}
use kro_ui.NodeState.{alive, reconciling, error, pending, NodeStateMap}
use kro_ui.Display.{
  fitted_width, fitted_height, for_each_label, has_state, is_reconciling, is_error,
  node_state_for_node,
}
use kro_ui.Display.Bounds.{fitted_bounds}
use kro_ui.Display.State.{node_state_for_node_root}

abbrev root : DagNode
root = record {
  id = codes "schema";
  label = codes "schema";
  node_type = instance_node;
  kind = codes "App";
  is_conditional = false;
  has_ready_when = false;
  cel_expressions = [];
  include_when = [];
  ready_when = [];
  for_each = none;
  template = none;
  external_ref = none;
  schema_spec = none;
  schema_status = none;
  is_chainable = false;
  chained_rgd_name = none;
  x = 32;
  y = 32;
  width = 200;
  height = 52;
}

abbrev graph : DagGraph
graph = record { nodes = root ∷ []; edges = []; width = 264; height = 116 }

abbrev states : NodeStateMap
states =
    (
      codes "db",
      record {
        state = error;
        kind = codes "Pod";
        name = [];
        namespace = [];
        group = [];
        version = codes "v1";
        terminating = false;
        finalizers = none;
        deletion_timestamp = none;
      },
    )
    ∷ []

-- A conversion that leaves a text as it is.
abbrev same_case : Text → Text
same_case s = s

fitted_bounds_example :
    All (λ n. n.x + n.width + 32 ≤ fitted_width graph) graph.nodes
    × All (λ n. n.y + n.height + 32 ≤ fitted_height graph) graph.nodes
    × (length (for_each_label (some (codes "${schema.spec.regions}"))) ≤ 28)
fitted_bounds_example = fitted_bounds graph (some (codes "${schema.spec.regions}"))

node_state_for_node_root_example :
    ((node_state_for_node same_case root states ≡ some reconciling)
      ↔ (has_state is_reconciling states ≡ true))
    × ((node_state_for_node same_case root states ≡ some error)
        ↔ ((has_state is_reconciling states ≡ false) × (has_state is_error states ≡ true)))
    × ((node_state_for_node same_case root states ≡ some alive) ↔ (
        (has_state is_reconciling states ≡ false)
        × (has_state is_error states ≡ false)
        × (states ≢ [])))
    × ((node_state_for_node same_case root states ≡ some pending) ↔ (states ≡ []))
node_state_for_node_root_example = node_state_for_node_root same_case root states refl
