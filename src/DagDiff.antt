-- ===== src/DagDiff.antt =====
-- web/src/lib/dag-diff.ts: the merged graph of two revisions.
-- A `Map` built from a list has each key once, at its first place, with its last value.
pub mod Statuses
pub mod Once
pub mod Edges
mod Tests
use kro_ui.Prelude.{
  ℕ, Bool, true, false, not, ◌&&◌, Option, none, some, List, [], ◌∷◌, ◌++◌, if◌then◌else◌,
}
use kro_ui.Prelude.Text.{Text, text_eq}
use kro_ui.Prelude.Sets.{contains}
use kro_ui.Dag.{DagNode, DagEdge, DagGraph}
use kro_ui.Dag.Graph.{edge_key, edge_keys}

pub data DiffStatus : Type 0 where
  added removed modified unchanged : DiffStatus

pub record CelSnapshot : Type 0 where
  pub include_when : List Text
  pub ready_when : List Text
  pub for_each : Option Text

-- A node of the merged graph: the node, its status and the two snapshots.
pub record DiffNode : Type 0 where
  pub node : DagNode
  pub status : DiffStatus
  pub prev_cel : Option CelSnapshot
  pub next_cel : Option CelSnapshot

pub record DiffEdge : Type 0 where
  pub edge : DagEdge
  pub status : DiffStatus

pub record DiffGraph : Type 0 where
  pub nodes : List DiffNode
  pub edges : List DiffEdge
  pub width : ℕ
  pub height : ℕ

abbrev pub cel_snapshot : DagNode → CelSnapshot
cel_snapshot n = record {
  include_when = n.include_when;
  ready_when = n.ready_when;
  for_each = n.for_each;
}

-- The two loops of `celEqual` over arrays of one length.
unfoldable pub same_texts : List Text → List Text → Bool
same_texts [] [] = true
same_texts [] (y ∷ ys) = false
same_texts (x ∷ xs) [] = false
same_texts (x ∷ xs) (y ∷ ys) = text_eq x y && same_texts xs ys

unfoldable pub same_option : Option Text → Option Text → Bool
same_option none none = true
same_option (some x) (some y) = text_eq x y
same_option none (some y) = false
same_option (some x) none = false

unfoldable pub cel_equal : CelSnapshot → CelSnapshot → Bool
cel_equal a b =
    same_option a.for_each b.for_each
    && same_texts a.include_when b.include_when
    && same_texts a.ready_when b.ready_when

-- `map.set(node.id, node)`
unfoldable pub set_node : List DagNode → DagNode → List DagNode
set_node [] n = n ∷ []
set_node (m ∷ ms) n = let later = set_node ms n in if text_eq m.id n.id then n ∷ ms else m ∷ later

-- `new Map(nodes.map(n => [n.id, n]))`
unfoldable pub node_map : List DagNode → List DagNode → List DagNode
node_map m [] = m
node_map m (n ∷ ns) = node_map (set_node m n) ns

-- `map.get(id)`
unfoldable pub lookup : Text → List DagNode → Option DagNode
lookup id [] = none
lookup id (n ∷ ns) = if text_eq n.id id then some n else lookup id ns

unfoldable pub diff_node : Option DagNode → DagNode → DiffNode
diff_node none b = record { node = b; status = added; prev_cel = none; next_cel = none }
diff_node (some a) b =
    if cel_equal (cel_snapshot a) (cel_snapshot b)
    then record { node = b; status = unchanged; prev_cel = none; next_cel = none }
    else record {
      node = b;
      status = modified;
      prev_cel = some (cel_snapshot a);
      next_cel = some (cel_snapshot b);
    }

unfoldable pub kept_nodes : List DagNode → List DagNode → List DiffNode
kept_nodes a [] = []
kept_nodes a (n ∷ b) = diff_node (lookup n.id a) n ∷ kept_nodes a b

abbrev pub removed_node : DagNode → DiffNode
removed_node n = record { node = n; status = removed; prev_cel = none; next_cel = none }

unfoldable pub removed_nodes : List DagNode → List DagNode → List DiffNode
removed_nodes b [] = []
removed_nodes b (n ∷ a) = elim (lookup n.id b) [
  | none ↦ removed_node n ∷ removed_nodes b a
  | some _ ↦ removed_nodes b a
]

unfoldable pub kept_edges : List Text → List DagEdge → List DiffEdge
kept_edges keys_a [] = []
kept_edges keys_a (e ∷ es) =
    record { edge = e; status = if contains (edge_key e) keys_a then unchanged else added }
    ∷ kept_edges keys_a es

unfoldable pub removed_edges : List Text → List DagEdge → List DiffEdge
removed_edges keys_b [] = []
removed_edges keys_b (e ∷ es) =
    let later = removed_edges keys_b es in
    if contains (edge_key e) keys_b then later else record { edge = e; status = removed } ∷ later

unfoldable pub diff_dag_graphs : DagGraph → DagGraph → DiffGraph
diff_dag_graphs a b =
    let nodes_a = node_map [] a.nodes in
    let nodes_b = node_map [] b.nodes in
    record {
      nodes = kept_nodes nodes_a nodes_b ++ removed_nodes nodes_b nodes_a;
      edges = kept_edges (edge_keys a.edges) b.edges ++ removed_edges (edge_keys b.edges) a.edges;
      width = b.width;
      height = b.height;
    }
