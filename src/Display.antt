-- ===== src/Display.antt =====
-- web/src/lib/dag.ts: the helpers that the graph views share, `fittedWidth`, `fittedHeight`,
-- `nodeBadge`, `forEachLabel` and `nodeStateForNode`.
-- The coordinates of a layout are natural numbers: the widths and heights that it halves are even.
pub mod Bounds
pub mod State
mod Tests
use kro_ui.Prelude.{
  ℕ, ◌+◌, max, Bool, true, false, ◌||◌, Option, none, some, List, [], ◌∷◌, ◌++◌, leb, if◌then◌else◌,
  length, take, any,
}
use kro_ui.Prelude.Text.{Text}
use kro_ui.Dag.{
  NodeType, instance_node, collection, external, external_collection, DagNode, DagGraph,
}
use kro_ui.NodeState.{
  NodeLiveState, alive, reconciling, error, pending, NodeStateEntry, NodeStateMap,
}
use kro_ui.NodeState.Entries.{state_of, text_or}

-- `Math.max` of a measure of the nodes, which is not negative.
unfoldable pub max_of : (DagNode → ℕ) → List DagNode → ℕ
max_of f [] = 0
max_of f (n ∷ ns) = max (f n) (max_of f ns)

abbrev pub right_edge : DagNode → ℕ
right_edge n = n.x + n.width

abbrev pub bottom_edge : DagNode → ℕ
bottom_edge n = n.y + n.height

abbrev pub fitted : (DagNode → ℕ) → ℕ → List DagNode → ℕ
fitted f default [] = default
fitted f default (n ∷ ns) = max_of f (n ∷ ns) + 32

unfoldable pub fitted_width : DagGraph → ℕ
fitted_width graph = fitted right_edge graph.width graph.nodes

unfoldable pub fitted_height : DagGraph → ℕ
fitted_height graph = fitted bottom_edge graph.height graph.nodes

-- The code unit of the badge.
abbrev pub type_badge : NodeType → Option ℕ
type_badge collection = some 0x2200
type_badge external = some 0x2b21
type_badge external_collection = some 0x2b21
type_badge _ = none

abbrev pub node_badge : DagNode → Option ℕ
node_badge node = if node.is_conditional then some b'?' else type_badge node.node_type

abbrev pub foreach_label_max_chars : ℕ
foreach_label_max_chars = 28

abbrev pub shortened : Text → Text
shortened s = if leb (length s) foreach_label_max_chars then s else take 27 s ++ 0x2026 ∷ []

unfoldable pub for_each_label : Option Text → Text
for_each_label none = []
for_each_label (some s) = shortened s

abbrev pub is_reconciling : NodeLiveState → Bool
is_reconciling reconciling = true
is_reconciling _ = false

abbrev pub is_error : NodeLiveState → Bool
is_error error = true
is_error _ = false

abbrev pub has_state : (NodeLiveState → Bool) → NodeStateMap → Bool
has_state p = any (λ (id, e). p e.state)

abbrev pub alive_or_pending : NodeStateMap → NodeLiveState
alive_or_pending [] = pending
alive_or_pending (entry ∷ m) = alive

-- The state of the root CR.
unfoldable pub root_state : NodeStateMap → NodeLiveState
root_state m =
    if has_state is_reconciling m
    then reconciling
    else if has_state is_error m
    then error
    else alive_or_pending m

abbrev pub state_in : Option NodeStateEntry → Option NodeLiveState → Option NodeLiveState
state_in none later = later
state_in (some e) later = some e.state

-- `lower` is `toLowerCase`.
unfoldable pub node_state_for_node : (Text → Text) → DagNode → NodeStateMap → Option NodeLiveState
node_state_for_node lower node m = elim node.node_type [
  | instance_node ↦ some (root_state m)
  | _ ↦
      state_in (state_of node.id m)
        (state_in (state_of (lower (text_or node.kind node.label)) m) none)
]
