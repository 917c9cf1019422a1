-- ===== src/DagDiff/Once.antt =====
-- The merged graph has each id and each edge key once.
use kro_ui.Prelude.{
  true, false, not, ◌&&◌, ◌||◌, List, [], ◌∷◌, ◌++◌, ◌≡◌, refl, ap, arith, is_some, Option-cases,
  inl, inr,
}
use kro_ui.Prelude.Text.{Text, text_eq, text_eq_iff}
use kro_ui.Prelude.Sets.{contains, distinct, contains-append}
use kro_ui.Dag.{DagNode, DagGraph}
use kro_ui.DagDiff.{
  DiffNode, set_node, node_map, lookup, kept_nodes, removed_nodes, diff_dag_graphs,
}
use kro_ui.DagDiff.Statuses.{entry_for, diff_ids, last_node, diff_node-id, entry-diff, Fate}

-- Two lists without a common element.
pub distinct-append :
    (xs ys : List Text)
    → distinct xs ≡ true
    → distinct ys ≡ true
    → ((x : Text) → contains x xs ≡ true → contains x ys ≡ false)
    → distinct (xs ++ ys) ≡ true
unfolding distinct contains
distinct-append [] ys h k d = k
distinct-append (x ∷ xs) ys h k d = ground (
  arith,
  distinct-append xs ys (ground arith) k (λ y m. d y (unfold contains in ground arith)),
  contains-append x xs ys,
  d x (unfold contains in ground (arith, text_eq_iff x x)),
)

abbrev node_ids : List DagNode → List Text
node_ids [] = []
node_ids (n ∷ ns) = n.id ∷ node_ids ns

contains-node_ids :
    (x : Text) (ns : List DagNode) → contains x (node_ids ns) ≡ is_some (lookup x ns)
unfolding contains lookup
contains-node_ids x [] = refl
contains-node_ids x (n ∷ ns) =
    ground (arith, contains-node_ids x ns, text_eq_iff x n.id, text_eq_iff n.id x)

contains-set_node :
    (x : Text) (m : List DagNode) (n : DagNode)
    → contains x (node_ids (set_node m n)) ≡ (text_eq x n.id || contains x (node_ids m))
unfolding contains set_node
contains-set_node x [] n = refl
contains-set_node x (k ∷ m) n =
    ground (
      arith,
      contains-set_node x m n,
      text_eq_iff k.id n.id,
      text_eq_iff x n.id,
      text_eq_iff x k.id,
    )

distinct-set_node :
    (m : List DagNode) (n : DagNode)
    → distinct (node_ids m) ≡ true
    → distinct (node_ids (set_node m n)) ≡ true
unfolding distinct set_node
distinct-set_node [] n h = unfold contains in refl
distinct-set_node (k ∷ m) n h =
    ground (arith, distinct-set_node m n, contains-set_node k.id m n, text_eq_iff k.id n.id)

distinct-node_map :
    (ns m : List DagNode)
    → distinct (node_ids m) ≡ true
    → distinct (node_ids (node_map m ns)) ≡ true
unfolding node_map
distinct-node_map [] m h = h
distinct-node_map (n ∷ ns) m h = distinct-node_map ns (set_node m n) (distinct-set_node m n h)

ids-kept : (a b : List DagNode) → diff_ids (kept_nodes a b) ≡ node_ids b
unfolding kept_nodes
ids-kept a [] = refl
ids-kept a (n ∷ b) = ground (arith, ids-kept a b, diff_node-id (lookup n.id a) n)

ids-removed :
    (x : Text) (b a : List DagNode)
    → contains x (diff_ids (removed_nodes b a))
      ≡ (not (is_some (lookup x b)) && contains x (node_ids a))
unfolding contains removed_nodes
ids-removed x b [] = ground arith
ids-removed x b (n ∷ a) = elim (Option-cases (lookup n.id b)) [
  | inl e ↦ ground (arith, ids-removed x b a, text_eq_iff x n.id)
  | inr (k, e) ↦ ground (arith, ids-removed x b a, text_eq_iff x n.id)
]

distinct-removed :
    (b a : List DagNode)
    → distinct (node_ids a) ≡ true
    → distinct (diff_ids (removed_nodes b a)) ≡ true
unfolding distinct removed_nodes
distinct-removed b [] h = refl
distinct-removed b (n ∷ a) h = elim (Option-cases (lookup n.id b)) [
  | inl e ↦ ground (arith, distinct-removed b a, ids-removed n.id b a)
  | inr (k, e) ↦ ground (arith, distinct-removed b a)
]

ids-append : (xs ys : List DiffNode) → diff_ids (xs ++ ys) ≡ diff_ids xs ++ diff_ids ys
ids-append [] ys = refl
ids-append (d ∷ xs) ys = ap (λ r. d.node.id ∷ r) (ids-append xs ys)

ids-distinct :
    (a b : List DagNode)
    → distinct (node_ids a) ≡ true
    → distinct (node_ids b) ≡ true
    → distinct (diff_ids (kept_nodes a b ++ removed_nodes b a)) ≡ true
ids-distinct a b h k =
    rw (ids-append (kept_nodes a b) (removed_nodes b a), ids-kept a b)
      (distinct-append (node_ids b) (diff_ids (removed_nodes b a)) k (distinct-removed b a h)
        (λ x m. ground (arith, ids-removed x b a, contains-node_ids x b)))

-- The nodes of the merged graph: each id stands there once, and for every id the entry is the one
-- that the two revisions call for. A node of the new revision alone is added, one of the old
-- revision alone is removed and keeps its position, and one of both is unchanged when its
-- `includeWhen`, `readyWhen` and `forEach` agree and modified, with both snapshots, when they do
-- not; an id of neither has no entry. Of nodes that share an id the last one counts.
pub diff_dag_graphs-nodes :
    (a b : DagGraph)
    → (distinct (diff_ids (diff_dag_graphs a b).nodes) ≡ true)
      × ((id : Text)
          → Fate
              (last_node id a.nodes)
              (last_node id b.nodes)
              (entry_for id (diff_dag_graphs a b).nodes))
diff_dag_graphs-nodes a b = (
  unfold diff_dag_graphs in
      ids-distinct (node_map [] a.nodes) (node_map [] b.nodes)
        (distinct-node_map a.nodes [] (unfold distinct in refl))
        (distinct-node_map b.nodes [] (unfold distinct in refl)),
  entry-diff a b,
)
