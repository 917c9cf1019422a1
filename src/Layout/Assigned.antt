-- ===== src/Layout/Assigned.antt =====
-- The whole layout: sorting, layers and coordinates together.
use kro_ui.Prelude.{
  ℕ, zero, suc, ◌+◌, ◌≤◌, Option, none, some, List, [], ◌∷◌, ◌≡◌, ◌≢◌, refl, ◌∙◌, arith, keep, map,
  All, ◌==◌, ltb, leb, ◌&&◌, if◌then◌else◌, true, false,
}
use mathlib.Core.List.{flatten}
use kro_ui.Prelude.Text.{Text, text_eq_iff}
use kro_ui.Prelude.Sets.{distinct}
use kro_ui.Dag.{DagEdge}
use kro_ui.Layout.{LayoutResult}
use kro_ui.Layout.Boxes.{AreApart}
use kro_ui.Layout.Topology.{sort_texts, topo_order}
use kro_ui.Layout.Ordered.{IsOrder, topo_order-IsOrder, occurrences-sort_texts}
use kro_ui.Layout.Layering.{
  layer_of, last_layer, group_layers, assign_layers, layers_of, children_map, parents_map,
  layout_order, layout_dag,
}
use kro_ui.Layout.Permuted.{occurrences}
use kro_ui.Layout.Complete.{HasSize, occurrences-append, layout_layers-AreApart}

-- A node stands in its own layer only.
occurrences_of_layer :
    (layer : List (Text × ℕ)) (q : Text) (k : ℕ) (topo : List Text)
    → occurrences q (keep (λ id. layer_of layer id == k) topo)
      ≡ (if layer_of layer q == k then occurrences q topo else 0)
occurrences_of_layer layer q k [] = ground arith
occurrences_of_layer layer q k (x ∷ topo) =
    ground (arith, occurrences_of_layer layer q k topo, text_eq_iff x q)

-- The layers from `k` on hold a node of one of them as often as the order does.
occurrences-group_layers :
    (layer : List (Text × ℕ)) (q : Text) (topo : List Text) (count k : ℕ)
    → occurrences q (flatten (group_layers layer topo count k)) ≡ (
        if leb k (layer_of layer q) && ltb (layer_of layer q) (k + count)
        then occurrences q topo
        else 0)
unfolding group_layers flatten
occurrences-group_layers layer q topo zero k = ground arith
occurrences-group_layers layer q topo (suc count) k =
    let here = keep (λ id. layer_of layer id == k) topo in
    let a =
      occurrences-append q (sort_texts here) (flatten (group_layers layer topo count (suc k))) in
    let b = occurrences-sort_texts q here in
    let c = occurrences_of_layer layer q k topo in
    let d = occurrences-group_layers layer q topo count (suc k) in ground (arith, a, b, c, d)

last_layer_bound :
    (layer : List (Text × ℕ)) (q : Text) (topo : List Text)
    → leb (layer_of layer q) (last_layer layer topo) ≡ false
    → occurrences q topo ≡ 0
unfolding last_layer
last_layer_bound layer q [] k = refl
last_layer_bound layer q (x ∷ topo) k =
    ground (arith, k, last_layer_bound layer q topo, text_eq_iff x q)

module _ (node_ids : List Text) (edges : List DagEdge) (root_id : Text) where
  occurrences-layers_of :
      (q : Text) (topo : List Text)
      → occurrences q (flatten (layers_of node_ids edges root_id topo)) ≡ occurrences q topo
  occurrences-layers_of q topo =
      let layer = assign_layers node_ids edges topo ((root_id, 0) ∷ []) in
      let a = occurrences-group_layers layer q topo (suc (last_layer layer topo)) 0 in
      let b = last_layer_bound layer q topo in ground (arith, a, b)

  -- The layers of the order, if there is one, hold a node each.
  abbrev pub HasLayers : Option (List Text) → Type 0
  HasLayers none = Unit
  HasLayers (some topo) = All (λ l. l ≢ []) (layers_of node_ids edges root_id topo)

  -- A layout in which every node has a box, no node has two, each has its size, and no two overlap.
  abbrev pub IsLayout : List (Text × ℕ) → Option LayoutResult → Type 0
  IsLayout node_heights none = ⊥
  IsLayout node_heights (some r) =
      ((q : Text)
        → (occurrences q node_ids ≤ occurrences q (map (λ p. p.id) r.positions))
          × (occurrences q (map (λ p. p.id) r.positions) ≤ 1))
      × All (HasSize root_id node_heights) r.positions
      × AreApart r.positions

  layout_order-IsLayout :
      (node_heights : List (Text × ℕ)) (o : Option (List Text))
      → IsOrder node_ids edges o
      → HasLayers o
      → IsLayout node_heights (layout_order node_ids edges root_id node_heights o)
  layout_order-IsLayout node_heights none h f = absurd h
  layout_order-IsLayout node_heights (some topo) h f =
      let (boxes, sizes, _, apart) =
        layout_layers-AreApart root_id node_heights (parents_map node_ids edges)
          (children_map node_ids edges) (layers_of node_ids edges root_id topo) f in
      (
        (λ q.
            let (a, b) = h q in
            let e = boxes q ∙ occurrences-layers_of q topo in
            (omega (arith, a, e), omega (arith, b, e))),
        sizes,
        apart,
      )

  -- The layout of any graph whose nodes have distinct ids and whose layers all hold a node ends: every
  -- node has a box, no node has two; every box has the size of its node; and of two boxes the first
  -- lies to the left of the second or above it, with the gap between them.
  pub layout_dag-IsLayout :
      (node_heights : List (Text × ℕ))
      → distinct node_ids ≡ true
      → HasLayers (topo_order node_ids edges root_id)
      → IsLayout node_heights (layout_dag node_ids edges root_id node_heights)
  unfolding layout_dag
  layout_dag-IsLayout node_heights d f =
      layout_order-IsLayout node_heights (topo_order node_ids edges root_id)
        (topo_order-IsOrder node_ids edges root_id d) f
