-- ===== src/Dag/Search.antt =====
-- web/src/lib/dag.ts: the breadth-first searches of `buildDAGGraph`, one for the nodes that the root
-- reaches and one for those below a conditional node. Both have the same loop.
-- A round takes the first id off the queue, so the number of rounds is at most the length of the
-- first queue and one round for each edge: that is the fuel.
pub mod Closed
use kro_ui.Prelude.{
  ℕ, zero, suc, ◌+◌, Bool, true, false, List, [], ◌∷◌, ◌++◌, if◌then◌else◌, length,
}
use kro_ui.Prelude.Text.{Text, text_eq}
use kro_ui.Prelude.Sets.{contains}
use kro_ui.Dag.{DagEdge}

-- `toChildren.get(id) ?? []`: the targets of the edges out of an id, in the order of the edges.
unfoldable pub children_of : List DagEdge → Text → List Text
children_of [] id = []
children_of (e ∷ es) id =
    let later = children_of es id in if text_eq e.from id then e.to ∷ later else later

pub record Frontier : Type 0 where
  pub queue : List Text
  pub seen : List Text

-- The loop over the children of the id that left the queue.
unfoldable pub visit : List Text → Frontier → Frontier
visit [] f = f
visit (child ∷ children) f = visit children (
    if contains child f.seen
    then f
    else record { queue = f.queue ++ child ∷ []; seen = f.seen ++ child ∷ [] })

unfoldable pub search_from : List DagEdge → ℕ → Frontier → List Text
search_from edges zero f = f.seen
search_from edges (suc fuel) f = elim f.queue [
  | [] ↦ f.seen
  | cur ∷ rest ↦ search_from edges fuel (visit (children_of edges cur) (record f { queue = rest }))
]

-- The ids seen at the end, from a first queue.
unfoldable pub reachable_from : List DagEdge → List Text → List Text → List Text
reachable_from edges queue seen =
    search_from edges (length queue + length edges) (record { queue = queue; seen = seen })
