-- ===== src/Layout/Layering.antt =====
-- web/src/lib/dag.ts: layoutDAG, which sorts the nodes, assigns them to layers and lays these out.
use kro_ui.Prelude.{
  ℕ, zero, suc, ◌+◌, max, Option, none, some, List, [], ◌∷◌, ◌==◌, if◌then◌else◌, map, keep,
  or_else,
}
use kro_ui.Prelude.Text.{Text, text_eq}
use kro_ui.Prelude.Maps.{find_key, put}
use kro_ui.Dag.{DagEdge}
use kro_ui.Layout.{LayoutResult}
use kro_ui.Layout.Order.{layout_layers}
use kro_ui.Layout.Topology.{sort_texts, children_at, topo_order}

-- `layer.get(id) ?? 0`
abbrev pub layer_of : List (Text × ℕ) → Text → ℕ
layer_of layer id = or_else (find_key id layer) 0

-- The children of a node of the layer `n` move below it.
unfoldable pub lower_children : ℕ → List Text → List (Text × ℕ) → List (Text × ℕ)
lower_children n [] layer = layer
lower_children n (child ∷ children) layer =
    lower_children n children (put child (max (layer_of layer child) (n + 1)) layer)

-- `parents.get(id)`: the beginnings of the edges to a node.
unfoldable pub sources_of : Text → List DagEdge → List Text
sources_of id [] = []
sources_of id (e ∷ es) =
    let later = sources_of id es in if text_eq e.to id then e.from ∷ later else later

-- The number of the last layer that holds a node.
unfoldable pub last_layer : List (Text × ℕ) → List Text → ℕ
last_layer layer [] = 0
last_layer layer (id ∷ ids) = max (layer_of layer id) (last_layer layer ids)

-- The `count` layers from the layer `k` on.
unfoldable pub group_layers : List (Text × ℕ) → List Text → ℕ → ℕ → List (List Text)
group_layers layer topo zero k = []
group_layers layer topo (suc count) k =
    sort_texts (keep (λ id. layer_of layer id == k) topo) ∷ group_layers layer topo count (suc k)

module _ (node_ids : List Text) (edges : List DagEdge) where
  unfoldable pub assign_layers : List Text → List (Text × ℕ) → List (Text × ℕ)
  assign_layers [] layer = layer
  assign_layers (node ∷ topo) layer =
      assign_layers topo
        (lower_children (layer_of layer node) (children_at node_ids edges node) layer)

  abbrev pub layers_of : Text → List Text → List (List Text)
  layers_of root_id topo =
      let layer = assign_layers topo ((root_id, 0) ∷ []) in
      group_layers layer topo (suc (last_layer layer topo)) 0

  abbrev pub children_map : List (Text × List Text)
  children_map = map (λ id. (id, children_at node_ids edges id)) node_ids

  abbrev pub parents_map : List (Text × List Text)
  parents_map = map (λ id. (id, sources_of id edges)) node_ids

  abbrev pub layout_order : Text → List (Text × ℕ) → Option (List Text) → Option LayoutResult
  layout_order root_id node_heights none = none
  layout_order root_id node_heights (some topo) =
      some (layout_layers root_id node_heights parents_map children_map (layers_of root_id topo))

  unfoldable pub layout_dag : Text → List (Text × ℕ) → Option LayoutResult
  layout_dag root_id node_heights =
      layout_order root_id node_heights (topo_order node_ids edges root_id)
