-- ===== src/Layout.antt =====
-- web/src/lib/dag.ts: the last step of layoutDAG, which gives the nodes of the ordered layers their
-- coordinates. Each id stands once in one layer, so the map of the positions is the list of its
-- entries. The source has no finite height for a layer without nodes, which has 0 here. The
-- differences that are halved are even: all widths and heights that buildDAGGraph passes are, and so
-- are the gaps.
pub mod Boxes
pub mod Order
pub mod Topology
pub mod Sorted
pub mod Ordered
pub mod Layering
pub mod Assigned
pub mod Permuted
pub mod Complete
mod Tests
use kro_ui.Prelude.{ℕ, ◌+◌, ◌-◌, ◌*◌, ◌/◌, max, List, [], ◌∷◌, ◌++◌, if◌then◌else◌, length, or_else}
use kro_ui.Prelude.Text.{Text, text_eq}
use kro_ui.Prelude.Maps.{find_key}
use kro_ui.Dag.{node_width, node_height, root_width, root_height, h_gap, v_gap, padding}

pub record Position : Type 0 where
  pub id : Text
  pub x : ℕ
  pub y : ℕ
  pub width : ℕ
  pub height : ℕ

pub record LayoutResult : Type 0 where
  pub positions : List Position
  pub width : ℕ
  pub height : ℕ

module _ (root_id : Text) (node_heights : List (Text × ℕ)) where
  -- `dims(id)`: the width and the height.
  unfoldable pub width_of : Text → ℕ
  width_of id = if text_eq id root_id then root_width else node_width

  unfoldable pub height_of : Text → ℕ
  height_of id =
      if text_eq id root_id then root_height else or_else (find_key id node_heights) node_height

  abbrev pub sum_widths : List Text → ℕ
  sum_widths [] = 0
  sum_widths (id ∷ ids) = width_of id + sum_widths ids

  unfoldable pub layer_width : List Text → ℕ
  layer_width l = sum_widths l + (length l - 1) * h_gap

  unfoldable pub max_layer_width : List (List Text) → ℕ
  max_layer_width [] = 0
  max_layer_width (l ∷ ls) = max (layer_width l) (max_layer_width ls)

  -- `Math.max` of the heights of a layer.
  unfoldable pub layer_height : List Text → ℕ
  layer_height [] = 0
  layer_height (id ∷ ids) = max (height_of id) (layer_height ids)

  -- The loop over a layer, from `currentX` on.
  unfoldable pub place_layer : ℕ → ℕ → ℕ → List Text → List Position
  place_layer y h x [] = []
  place_layer y h x (id ∷ ids) =
      record {
        id = id;
        x = x;
        y = y + (h - height_of id) / 2;
        width = width_of id;
        height = height_of id;
      }
      ∷ place_layer y h (x + width_of id + h_gap) ids

  -- The loop over the layers, from `currentY` on, with its last `currentY`.
  unfoldable pub place_layers : ℕ → ℕ → List (List Text) → List Position × ℕ
  place_layers max_width y [] = ([], y)
  place_layers max_width y (l ∷ ls) =
      let h = layer_height l in
      let (later, end) = place_layers max_width (y + h + v_gap) ls in
      (place_layer y h (padding + (max_width - layer_width l) / 2) l ++ later, end)

  unfoldable pub place : List (List Text) → LayoutResult
  place layers =
      let max_width = max_layer_width layers in
      let (positions, end) = place_layers max_width padding layers in
      record {
        positions = positions;
        width = padding * 2 + max_width;
        height = end - v_gap + padding;
      }
