-- ===== src/NodeState/Tests.antt =====
-- The theorems on the state map at a concrete instance.
use kro_ui.Prelude.{true, false, none, [], ◌∷◌, ◌≡◌, ◌≢◌, ◌↔◌, ◌⊎◌}
use kro_ui.Prelude.Text.{Text, codes}
use kro_ui.Json.{Json, str, obj, arr, nil, cons, Fields, end, field}
use kro_ui.Kube.{K8sObject, is_terminating}
use kro_ui.Dag.{DagNode, resource}
use kro_ui.NodeState.{
  alive, reconciling, error, get_conditions, is_waiting, global_state, found, field_is,
}
use kro_ui.NodeState.Entries.{child_state, state_of, build_node_state_map}
use kro_ui.NodeState.Global.{
  not_ready, in_progress, progressing, is_up, is_down, rollout, global_state_iff, child_state_iff,
}
use kro_ui.NodeState.Coverage.{expected_entry, build_node_state_map_entries}

abbrev condition : Text → Text → Json
condition type status =
    obj (field (codes "type") (str type) (field (codes "status") (str status) end))

abbrev with_condition : Text → Text → Fields → Fields
with_condition type status rest =
    field (codes "status")
      (obj (field (codes "conditions") (arr (cons (condition type status) nil)) end)) rest

abbrev failed_cr : K8sObject
failed_cr = with_condition (codes "Ready") (codes "False") end

abbrev child : K8sObject
child = with_condition (codes "Available") (codes "True") (
    field (codes "metadata")
      (obj (
        field (codes "labels") (obj (field (codes "kro.run/node-id") (str (codes "web")) end)) end))
      end)

abbrev node : Text → DagNode
node id = record {
  id = id;
  label = id;
  node_type = resource;
  kind = codes "ConfigMap";
  is_conditional = false;
  has_ready_when = false;
  cel_expressions = [];
  include_when = [];
  ready_when = [];
  for_each = none;
  template = none;
  external_ref = none;
  schema_spec = none;
  schema_status = none;
  is_chainable = false;
  chained_rgd_name = none;
  x = 0;
  y = 0;
  width = 180;
  height = 48;
}

global_state_iff_example :
    ((global_state failed_cr ≡ error) ↔ (
      (not_ready failed_cr ≡ true)
      × (in_progress failed_cr ≡ false)
      × (progressing failed_cr ≡ false)
      × (is_waiting (get_conditions failed_cr) ≡ false)))
    × ((global_state failed_cr ≡ reconciling) ↔ (
        (in_progress failed_cr ≡ true)
        ⊎ (progressing failed_cr ≡ true)
        ⊎ ((not_ready failed_cr ≡ true) × (is_waiting (get_conditions failed_cr) ≡ true))))
    × ((global_state failed_cr ≡ alive) ↔ (
        (not_ready failed_cr ≡ false)
        × (in_progress failed_cr ≡ false)
        × (progressing failed_cr ≡ false)))
global_state_iff_example = global_state_iff failed_cr

child_state_iff_example :
    ((child_state alive child ≡ error) ↔ (
      (is_terminating child ≡ true)
      ⊎ (alive ≡ error)
      ⊎ ((is_up (get_conditions child) ≡ false) × (is_down (get_conditions child) ≡ true))))
    × ((child_state alive child ≡ reconciling) ↔ (
        (is_terminating child ≡ false)
        × (alive ≢ error)
        × (is_up (get_conditions child) ≡ false)
        × (is_down (get_conditions child) ≡ false)
        × (found (rollout (get_conditions child)) ≡ true)
        × (field_is
              (rollout (get_conditions child))
              (codes "reason")
              (codes "NewReplicaSetAvailable")
            ≡ false)))
    × ((child_state alive child ≡ error)
        ⊎ (child_state alive child ≡ reconciling)
        ⊎ (child_state alive child ≡ alive))
child_state_iff_example = child_state_iff alive child

build_node_state_map_entries_example :
    state_of
      (codes "web")
      (build_node_state_map failed_cr (child ∷ []) (node (codes "web") ∷ node (codes "db") ∷ []))
    ≡ expected_entry
        (global_state failed_cr)
        (codes "web")
        (child ∷ [])
        (node (codes "web") ∷ node (codes "db") ∷ [])
build_node_state_map_entries_example =
    build_node_state_map_entries failed_cr (child ∷ [])
      (node (codes "web") ∷ node (codes "db") ∷ []) (codes "web")
