-- ===== src/DagDiff/Tests.antt =====
-- The theorems on the merged graph at two concrete revisions.
use kro_ui.Prelude.{true, false, none, List, [], ◌∷◌, ◌≡◌, refl}
use kro_ui.Prelude.Text.{Text, codes}
use kro_ui.Prelude.Sets.{contains, distinct}
use kro_ui.Dag.{DagNode, DagGraph, resource}
use kro_ui.Dag.Graph.{edge_keys}
use kro_ui.DagDiff.{diff_dag_graphs}
use kro_ui.DagDiff.Statuses.{last_node, entry_for, diff_ids, Fate}
use kro_ui.DagDiff.Once.{diff_dag_graphs-nodes}
use kro_ui.DagDiff.Edges.{status_of, fate_of_edge, diff_keys, diff_dag_graphs-edges}

abbrev node : Text → List Text → DagNode
node id include_when = record {
  id = id;
  label = id;
  node_type = resource;
  kind = codes "ConfigMap";
  is_conditional = false;
  has_ready_when = false;
  cel_expressions = [];
  include_when = include_when;
  ready_when = [];
  for_each = none;
  template = none;
  external_ref = none;
  schema_spec = none;
  schema_status = none;
  is_chainable = false;
  chained_rgd_name = none;
  x = 0;
  y = 0;
  width = 180;
  height = 48;
}

abbrev before : DagGraph
before = record {
  nodes = node (codes "a") [] ∷ node (codes "b") [] ∷ [];
  edges = record { from = codes "a"; to = codes "b" } ∷ [];
  width = 400;
  height = 300;
}

abbrev after : DagGraph
after = record {
  nodes = node (codes "a") (codes "${x}" ∷ []) ∷ node (codes "c") [] ∷ [];
  edges = record { from = codes "a"; to = codes "c" } ∷ [];
  width = 420;
  height = 300;
}

diff_dag_graphs-nodes_example :
    (distinct (diff_ids (diff_dag_graphs before after).nodes) ≡ true)
    × ((id : Text)
        → Fate
            (last_node id before.nodes)
            (last_node id after.nodes)
            (entry_for id (diff_dag_graphs before after).nodes))
diff_dag_graphs-nodes_example = diff_dag_graphs-nodes before after

keys_before : distinct (edge_keys before.edges) ≡ true
unfolding distinct contains edge_keys
keys_before = refl

keys_after : distinct (edge_keys after.edges) ≡ true
unfolding distinct contains edge_keys
keys_after = refl

diff_dag_graphs-edges_example :
    (distinct (diff_keys (diff_dag_graphs before after).edges) ≡ true)
    × ((k : Text)
        → status_of k (diff_dag_graphs before after).edges
          ≡ fate_of_edge (contains k (edge_keys before.edges)) (contains k (edge_keys after.edges)))
diff_dag_graphs-edges_example = diff_dag_graphs-edges before after keys_before keys_after
