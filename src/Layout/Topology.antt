-- ===== src/Layout/Topology.antt =====
-- web/src/lib/dag.ts: the topological sort of layoutDAG. The degree of a node counts the edges to
-- it, each of which is taken off at most once, so it is a natural number; a node is queued where its
-- degree becomes zero, so where it was one. The queue is sorted after a round, for the next one.
use kro_ui.Prelude.{
  ℕ, zero, suc, ◌+◌, ◌-◌, not, ◌&&◌, Option, none, some, List, [], ◌∷◌, ◌++◌, if◌then◌else◌, ◌==◌,
  length, keep, or_else,
}
use kro_ui.Prelude.Text.{Text, text_eq, text_leb}
use kro_ui.Prelude.Sets.{contains}
use kro_ui.Prelude.Maps.{find_key, put}
use kro_ui.Dag.{DagEdge}

unfoldable pub insert_text : Text → List Text → List Text
insert_text x [] = x ∷ []
insert_text x (y ∷ ys) =
    let later = insert_text x ys in if text_leb x y then x ∷ y ∷ ys else y ∷ later

-- `Array.prototype.sort()` on strings.
unfoldable pub sort_texts : List Text → List Text
sort_texts [] = []
sort_texts (x ∷ xs) = insert_text x (sort_texts xs)

-- `children.get(id) ?? []`: the ends of the edges from a node.
unfoldable pub targets_of : Text → List DagEdge → List Text
targets_of id [] = []
targets_of id (e ∷ es) =
    let later = targets_of id es in if text_eq e.from id then e.to ∷ later else later

unfoldable pub children_at : List Text → List DagEdge → Text → List Text
children_at node_ids edges id = if contains id node_ids then targets_of id edges else []

-- `inDegree`
unfoldable pub zero_degrees : List Text → List (Text × ℕ) → List (Text × ℕ)
zero_degrees [] degrees = degrees
zero_degrees (id ∷ ids) degrees = zero_degrees ids (put id 0 degrees)

unfoldable pub count_degrees : List DagEdge → List (Text × ℕ) → List (Text × ℕ)
count_degrees [] degrees = degrees
count_degrees (e ∷ es) degrees =
    count_degrees es (put e.to (or_else (find_key e.to degrees) 0 + 1) degrees)

-- The queue, the visited ids and the degrees.
pub record SortState : Type 0 where
  pub queue : List Text
  pub visited : List Text
  pub degrees : List (Text × ℕ)

-- The body of the loop over the children of a node.
unfoldable pub visit_child : Text → SortState → SortState
visit_child child f =
    let degree = or_else (find_key child f.degrees) 1 in
    let degrees = put child (degree - 1) f.degrees in
    if degree == 1 && not (contains child f.visited)
    then record { queue = f.queue ++ child ∷ []; visited = child ∷ f.visited; degrees = degrees }
    else record f { degrees = degrees }

unfoldable pub relax : List Text → SortState → SortState
relax [] f = f
relax (child ∷ children) f = relax children (visit_child child f)

module _ (node_ids : List Text) (edges : List DagEdge) where
  abbrev pub take_node : Text → List Text → SortState → SortState
  take_node node queue f =
      relax (sort_texts (children_at node_ids edges node)) (record f { queue = queue })

  -- The loop, with the ids in order so far, the sorted queue, and the fuel for the rounds left.
  unfoldable pub sort_rounds :
      ℕ → List Text → List Text → SortState → Option (List Text × List Text)
  sort_rounds fuel topo [] f = some (topo, f.visited)
  sort_rounds zero topo (node ∷ queue) f = none
  sort_rounds (suc fuel) topo (node ∷ queue) f =
      let next = take_node node queue f in
      sort_rounds fuel (topo ++ node ∷ []) (sort_texts next.queue) next

  -- The nodes that the sort has not visited stand at the end.
  abbrev pub with_rest : Option (List Text × List Text) → Option (List Text)
  with_rest none = none
  with_rest (some (topo, visited)) = some (topo ++ keep (λ id. not (contains id visited)) node_ids)

  -- Every round but the first takes a node that an edge has led to.
  unfoldable pub topo_order : Text → Option (List Text)
  topo_order root_id = with_rest (
      sort_rounds (suc (length edges)) [] (sort_texts (root_id ∷ [])) (record {
        queue = root_id ∷ [];
        visited = root_id ∷ [];
        degrees = count_degrees edges (zero_degrees node_ids []);
      }))
