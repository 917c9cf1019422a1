-- ===== src/Layout/Order.antt =====
-- web/src/lib/dag.ts: the crossing reduction of layoutDAG, and its steps from the layers on. An average is a fraction with its
-- denominator, which is not zero; the source divides. The maps of neighbours are lists of entries.
use kro_ui.Prelude.{
  ℕ, ◌+◌, ◌*◌, Bool, ◌&&◌, ◌||◌, List, [], ◌∷◌, map, if◌then◌else◌, ltb, ◌==◌, length, keep,
  or_else, is_some,
}
use kro_ui.Prelude.Text.{Text}
use kro_ui.Prelude.Maps.{find_key, put}
use kro_ui.Layout.{LayoutResult, place}

-- An entry of `bary`: the id, its value as a fraction, and its place in the layer.
pub record Barycenter : Type 0 where
  pub id : Text
  pub sum : ℕ
  pub count : ℕ
  pub orig_idx : ℕ

-- `posOf`, from the index `i` on.
unfoldable pub index_all : ℕ → List Text → List (Text × ℕ) → List (Text × ℕ)
index_all i [] pos = pos
index_all i (id ∷ ids) pos = index_all (i + 1) ids (put id i pos)

unfoldable pub sum_positions : List (Text × ℕ) → List Text → ℕ
sum_positions pos [] = 0
sum_positions pos (n ∷ ns) = or_else (find_key n pos) 0 + sum_positions pos ns

-- The average of the neighbours' places, or the place of the node itself.
abbrev pub barycenter : List (Text × ℕ) → ℕ → Text → List Text → Barycenter
barycenter pos i id [] = record { id = id; sum = i; count = 1; orig_idx = i }
barycenter pos i id (n ∷ ns) = record {
  id = id;
  sum = sum_positions pos (n ∷ ns);
  count = length (n ∷ ns);
  orig_idx = i;
}

unfoldable pub barycenters :
    List (Text × ℕ) → List (Text × List Text) → ℕ → List Text → List Barycenter
barycenters pos neighbors i [] = []
barycenters pos neighbors i (id ∷ ids) =
    barycenter pos i id (keep (λ n. is_some (find_key n pos)) (or_else (find_key id neighbors) []))
    ∷ barycenters pos neighbors (i + 1) ids

-- The comparator of `bary.sort` is negative. No two entries have one place, so ids are not compared.
abbrev pub comes_before : Barycenter → Barycenter → Bool
comes_before a b =
    ltb (a.sum * b.count) (b.sum * a.count)
    || (a.sum * b.count == b.sum * a.count && ltb a.orig_idx b.orig_idx)

unfoldable pub insert_entry : Barycenter → List Barycenter → List Barycenter
insert_entry a [] = a ∷ []
insert_entry a (b ∷ bs) =
    let later = insert_entry a bs in if comes_before b a then b ∷ later else a ∷ b ∷ bs

unfoldable pub sort_entries : List Barycenter → List Barycenter
sort_entries [] = []
sort_entries (a ∷ bs) = insert_entry a (sort_entries bs)

unfoldable pub reorder_by_barycenter : List Text → List Text → List (Text × List Text) → List Text
reorder_by_barycenter current fixed neighbors =
    map (λ b. b.id) (sort_entries (barycenters (index_all 0 fixed []) neighbors 0 current))

-- The layers from the second on, each by the one in front of it, which has its new order.
unfoldable pub sweep_from :
    List (Text × List Text) → List Text → List (List Text) → List (List Text)
sweep_from parents above [] = []
sweep_from parents above (l ∷ ls) =
    let l' = reorder_by_barycenter l above parents in l' ∷ sweep_from parents l' ls

unfoldable pub sweep_down : List (Text × List Text) → List (List Text) → List (List Text)
sweep_down parents [] = []
sweep_down parents (l ∷ ls) = l ∷ sweep_from parents l ls

-- A layer by the one behind it, if there is one.
abbrev pub reorder_by_next :
    List (Text × List Text) → List Text → List (List Text) → List (List Text)
reorder_by_next children l [] = l ∷ []
reorder_by_next children l (m ∷ ls) = reorder_by_barycenter l m children ∷ m ∷ ls

unfoldable pub sweep_up : List (Text × List Text) → List (List Text) → List (List Text)
sweep_up children [] = []
sweep_up children (l ∷ ls) = reorder_by_next children l (sweep_up children ls)

-- Four sweeps, downwards first.
unfoldable pub reduce_crossings :
    List (Text × List Text) → List (Text × List Text) → List (List Text) → List (List Text)
reduce_crossings parents children layers =
    sweep_up children (sweep_down parents (sweep_up children (sweep_down parents layers)))

-- The layout of the layers, which stand in alphabetical order before the sweeps.
unfoldable pub layout_layers :
    Text
    → List (Text × ℕ)
    → List (Text × List Text)
    → List (Text × List Text)
    → List (List Text)
    → LayoutResult
layout_layers root_id node_heights parents children layers =
    place root_id node_heights (reduce_crossings parents children layers)
