-- ===== src/Layout/Tests.antt =====
-- The theorems on layouts and on topological orders at a small graph.
use kro_ui.Prelude.{ℕ, ◌-◌, List, [], ◌∷◌, ◌≡◌, refl, map, All, arith}
use mathlib.Core.List.{flatten}
use kro_ui.Prelude.Text.{Text, codes, text_eq, text_leb}
use kro_ui.Prelude.Sets.{contains, distinct}
use kro_ui.Dag.{DagEdge, padding}
use kro_ui.Layout.Boxes.{IsWithin, AreApart}
use kro_ui.Layout.Order.{layout_layers}
use kro_ui.Layout.Permuted.{occurrences}
use kro_ui.Layout.Topology.{
  topo_order, sort_rounds, relax, visit_child, count_degrees, zero_degrees, children_at, targets_of,
  sort_texts, insert_text,
}
use kro_ui.Layout.Layering.{
  group_layers, last_layer, assign_layers, lower_children, layers_of, layout_dag,
}
use kro_ui.Layout.Assigned.{IsLayout, layout_dag-IsLayout}
use kro_ui.Prelude.Maps.{find_key, put}
use kro_ui.Layout.Ordered.{IsOrder, topo_order-IsOrder}
use kro_ui.Layout.Complete.{HasSize, layout_layers-AreApart}

abbrev layers : List (List Text)
layers = (codes "schema" ∷ []) ∷ (codes "db" ∷ codes "web" ∷ []) ∷ []

abbrev heights : List (Text × ℕ)
heights = (codes "db", 60) ∷ (codes "web", 48) ∷ []

abbrev parents : List (Text × List Text)
parents = (codes "db", codes "schema" ∷ []) ∷ (codes "web", codes "schema" ∷ []) ∷ []

abbrev children : List (Text × List Text)
children = (codes "schema", codes "db" ∷ codes "web" ∷ []) ∷ []

layout_layers-AreApart_example :
    ((q : Text)
      → occurrences q (
          map
            (λ p. p.id)
            (layout_layers (codes "schema") heights parents children layers).positions)
        ≡ occurrences q (flatten layers))
    × All
        (HasSize (codes "schema") heights)
        (layout_layers (codes "schema") heights parents children layers).positions
    × All
        (IsWithin padding
          ((layout_layers (codes "schema") heights parents children layers).width - padding)
          padding
          ((layout_layers (codes "schema") heights parents children layers).height - padding))
        (layout_layers (codes "schema") heights parents children layers).positions
    × AreApart (layout_layers (codes "schema") heights parents children layers).positions
layout_layers-AreApart_example =
    layout_layers-AreApart (codes "schema") heights parents children layers
      ((λ h. ground (arith, h)), ((λ h. ground (arith, h)), tt))

abbrev ids : List Text
ids = codes "schema" ∷ codes "db" ∷ codes "web" ∷ []

-- The two resources use each other.
abbrev edges : List DagEdge
edges =
    record { from = codes "schema"; to = codes "db" }
    ∷ record { from = codes "db"; to = codes "web" }
    ∷ record { from = codes "web"; to = codes "db" }
    ∷ []

topo_order-IsOrder_example : IsOrder ids edges (topo_order ids edges (codes "schema"))
unfolding distinct contains text_eq
topo_order-IsOrder_example = topo_order-IsOrder ids edges (codes "schema") refl

abbrev tree : List DagEdge
tree =
    record { from = codes "schema"; to = codes "db" }
    ∷ record { from = codes "db"; to = codes "web" }
    ∷ record { from = codes "schema"; to = codes "web" }
    ∷ []

tree_layers :
    layers_of ids tree (codes "schema") ids
    ≡ (codes "schema" ∷ []) ∷ (codes "db" ∷ []) ∷ (codes "web" ∷ []) ∷ []
unfolding group_layers last_layer assign_layers lower_children children_at targets_of contains
    text_eq find_key put sort_texts insert_text
tree_layers = refl

-- Where two resources use each other, no node is left in the layer behind the root.
cycle_layers :
    layers_of ids edges (codes "schema") ids
    ≡ (codes "schema" ∷ []) ∷ [] ∷ (codes "web" ∷ []) ∷ (codes "db" ∷ []) ∷ []
unfolding group_layers last_layer assign_layers lower_children children_at targets_of contains
    text_eq find_key put sort_texts insert_text
cycle_layers = refl

layout_dag-IsLayout_example :
    IsLayout ids tree (codes "schema") heights (layout_dag ids tree (codes "schema") heights)
unfolding distinct contains text_eq topo_order sort_rounds relax visit_child count_degrees
    zero_degrees children_at targets_of find_key put sort_texts insert_text text_leb group_layers
    last_layer assign_layers lower_children
layout_dag-IsLayout_example =
    layout_dag-IsLayout ids tree (codes "schema") heights refl
      ((λ h. ground (arith, h)), ((λ h. ground (arith, h)), ((λ h. ground (arith, h)), tt)))
