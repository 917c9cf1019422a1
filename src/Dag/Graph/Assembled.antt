-- ===== src/Dag/Graph/Assembled.antt =====
-- The assembled graph of web/src/lib/dag.ts `buildDAGGraph`: what its nodes and edges promise.
use kro_ui.Prelude.{true, Option, List, [], ◌∷◌, ◌≡◌, sym, ◌∙◌, ◌↔◌, ◌⊎◌, inl, inr}
use kro_ui.Prelude.Text.{Text}
use kro_ui.Prelude.Sets.{contains, distinct}
use kro_ui.Json.{Fields}
use kro_ui.Kube.{K8sObject}
use kro_ui.Dag.{DagNode, DagEdge}
use kro_ui.Dag.Search.{children_of}
use kro_ui.Dag.Search.Closed.{Reach}
use kro_ui.Dag.Graph.{
  raw_edges, edge_keys, dedupe, connect, has_node, schema_id, resource_nodes, resources_of, add_ids,
  root_node, propagate, assemble, conditional_ids,
}
use kro_ui.Dag.Graph.Connected.{
  refers, IsTidy-raw, dedupe-children, connect-Reach, connect-IsTidy, connect_iff, Reach_mono,
  roots_of_graph, raw_edges-children,
}
use kro_ui.Dag.Graph.Conditional.{conditional, propagate_iff, has_node-mark_all}

-- The ids that a specification declares, and the nodes in front of the propagation.
abbrev pub ids_of : Fields → List Text
ids_of spec = add_ids (resources_of spec) (schema_id ∷ [])

abbrev pub declared : Fields → Option (List K8sObject) → List DagNode
declared spec rgds = root_node spec ∷ resource_nodes rgds (resources_of spec)

abbrev pub references : Fields → Option (List K8sObject) → List DagEdge
references spec rgds = raw_edges (ids_of spec) (resource_nodes rgds (resources_of spec))

has_node-propagate :
    (edges : List DagEdge) (nodes : List DagNode) (id : Text)
    → has_node id (propagate edges nodes) ≡ has_node id nodes
unfolding propagate
has_node-propagate edges nodes id = has_node-mark_all _ nodes id

-- Every node of the assembled graph is reached from the root by its edges: no node is left
-- without a path from the root, whatever the expressions refer to.
pub assemble-Reach :
    (spec : Fields) (rgds : Option (List K8sObject)) (id : Text)
    → has_node id (assemble spec rgds).nodes ≡ true
    → Reach (assemble spec rgds).edges roots_of_graph id
unfolding assemble
assemble-Reach spec rgds id h =
    let resources = resource_nodes rgds (resources_of spec) in
    let edges = dedupe [] (raw_edges (ids_of spec) resources) in
    connect-Reach edges (declared spec rgds) (IsTidy-raw (ids_of spec) resources) id
      (sym (has_node-propagate (connect edges (declared spec rgds)) (declared spec rgds) id) ∙ h)

-- Merging keeps what is reached.
dedupe-Reach :
    (ids : List Text) (ns : List DagNode) (v : Text)
    → Reach (dedupe [] (raw_edges ids ns)) roots_of_graph v
      ↔ Reach (raw_edges ids ns) roots_of_graph v
dedupe-Reach ids ns v = (
  Reach_mono (dedupe [] (raw_edges ids ns)) (raw_edges ids ns) roots_of_graph
      (λ a b k. raw_edges-children ids ns a b ∙ (sym (dedupe-children ids ns a b) ∙ k)),
  Reach_mono (raw_edges ids ns) (dedupe [] (raw_edges ids ns)) roots_of_graph
      (λ a b k. dedupe-children ids ns a b ∙ (sym (raw_edges-children ids ns a b) ∙ k)),
)

joined_iff :
    (ids : List Text) (ns nodes : List DagNode) (u v : Text)
    → (contains v (children_of (connect (dedupe [] (raw_edges ids ns)) nodes) u) ≡ true) ↔ (
        (refers ids ns u v ≡ true)
        ⊎ ((u ≡ schema_id)
            × (has_node v nodes ≡ true)
            × ¬ Reach (raw_edges ids ns) roots_of_graph v))
joined_iff ids ns nodes u v =
    let (to, from) = connect_iff (dedupe [] (raw_edges ids ns)) nodes (IsTidy-raw ids ns) u v in
    (
      λ m. elim (to m) [
        | inl k ↦ inl (sym (dedupe-children ids ns u v) ∙ k)
        | inr (p, q, r) ↦ inr (p, q, λ d. r ((dedupe-Reach ids ns v).1 d))
      ],
      λ m. from (elim m [
        | inl k ↦ inl (dedupe-children ids ns u v ∙ k)
        | inr (p, q, r) ↦ inr (p, q, λ d. r ((dedupe-Reach ids ns v).0 d))
      ]),
    )

-- No two edges of the assembled graph have one key, and there is an edge from `u` to `v` in
-- exactly two cases: an expression of a resource `v` other than `u` mentions the declared id `u`,
-- or `u` is the root and `v` is a node that the references do not connect to the root.
pub assemble-edges :
    (spec : Fields) (rgds : Option (List K8sObject))
    → (distinct (edge_keys (assemble spec rgds).edges) ≡ true)
      × ((u v : Text)
          → (contains v (children_of (assemble spec rgds).edges u) ≡ true) ↔ (
              (refers (ids_of spec) (resource_nodes rgds (resources_of spec)) u v ≡ true)
              ⊎ ((u ≡ schema_id)
                  × (has_node v (declared spec rgds) ≡ true)
                  × ¬ Reach (references spec rgds) roots_of_graph v)))
unfolding assemble
assemble-edges spec rgds =
    let resources = resource_nodes rgds (resources_of spec) in
    let raw = raw_edges (ids_of spec) resources in
    (
      (connect-IsTidy (dedupe [] raw) (declared spec rgds)
          (IsTidy-raw (ids_of spec) resources)).keys,
      joined_iff (ids_of spec) resources (declared spec rgds),
    )

-- A node of the assembled graph is conditional exactly when a path of its edges leads to it from a
-- node with an `includeWhen` of its own: what depends on a conditional node is conditional,
-- through any number of steps, and nothing else is.
pub assemble-conditional :
    (spec : Fields) (rgds : Option (List K8sObject)) (id : Text)
    → has_node id (assemble spec rgds).nodes ≡ true
    → (conditional id (assemble spec rgds).nodes ≡ true)
      ↔ Reach (assemble spec rgds).edges (conditional_ids (declared spec rgds)) id
unfolding assemble
assemble-conditional spec rgds id h =
    let resources = resource_nodes rgds (resources_of spec) in
    let edges = connect (dedupe [] (raw_edges (ids_of spec) resources)) (declared spec rgds) in
    propagate_iff edges (declared spec rgds) id
      (sym (has_node-propagate edges (declared spec rgds) id) ∙ h)
