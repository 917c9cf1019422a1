-- ===== src/DagDiff/Statuses.antt =====
-- The diff by id and by key: what each node and each edge of two revisions becomes.
use kro_ui.Prelude.{
  Bool, true, false, Option, none, some, List, [], ◌∷◌, ◌++◌, ◌≡◌, refl, ap, sym, ◌∙◌, arith,
  if◌then◌else◌, ◌↔◌, Bool-cases, Option-cases, inl, inr,
}
use kro_ui.Prelude.Text.{Text, text_eq, text_eq_iff}
use kro_ui.Dag.{DagNode, DagGraph}
use kro_ui.DagDiff.{
  added, removed, modified, unchanged, DiffNode, cel_snapshot, same_texts, same_option, cel_equal,
  set_node, node_map, lookup, diff_node, kept_nodes, removed_node, removed_nodes, diff_dag_graphs,
}

-- The last node of a list that has the id: what a `Map` built from the list holds.
abbrev pub last_node : Text → List DagNode → Option DagNode
last_node id [] = none
last_node id (n ∷ ns) = elim (last_node id ns) [
  | some m ↦ some m
  | none ↦ if text_eq n.id id then some n else none
]

abbrev or_else : {A : Type 0} → Option A → Option A → Option A
or_else none b = b
or_else (some a) b = some a

-- The snapshots of two nodes agree.
abbrev pub SameCel : DagNode → DagNode → Type 0
SameCel a b =
    (a.for_each ≡ b.for_each) × (a.include_when ≡ b.include_when) × (a.ready_when ≡ b.ready_when)

-- What the table of the source says about one id.
pub data Fate : Option DagNode → Option DagNode → Option DiffNode → Type 0 where
  absent : Fate none none none
  new :
      {b : DagNode}
      → Fate none
          (some b)
          (some (record { node = b; status = added; prev_cel = none; next_cel = none }))
  gone :
      {a : DagNode}
      → Fate
          (some a)
          none
          (some (record { node = a; status = removed; prev_cel = none; next_cel = none }))
  same :
      {a b : DagNode}
      → SameCel a b
      → Fate
          (some a)
          (some b)
          (some (record { node = b; status = unchanged; prev_cel = none; next_cel = none }))
  changed :
      {a b : DagNode}
      → ¬ SameCel a b
      → Fate (some a) (some b) (
          some (record {
            node = b;
            status = modified;
            prev_cel = some (cel_snapshot a);
            next_cel = some (cel_snapshot b);
          }))

same_texts_iff : (xs ys : List Text) → (same_texts xs ys ≡ true) ↔ (xs ≡ ys)
unfolding same_texts
same_texts_iff [] [] = (λ h. refl, λ h. refl)
same_texts_iff [] (y ∷ ys) = (λ h. cc, λ h. cc)
same_texts_iff (x ∷ xs) [] = (λ h. cc, λ h. cc)
same_texts_iff (x ∷ xs) (y ∷ ys) = (
  λ h. ground (arith, same_texts_iff xs ys, text_eq_iff x y),
  λ h. ground (arith, same_texts_iff xs ys, text_eq_iff x y),
)

same_option_iff : (x y : Option Text) → (same_option x y ≡ true) ↔ (x ≡ y)
unfolding same_option
same_option_iff none none = (λ h. refl, λ h. refl)
same_option_iff none (some y) = (λ h. cc, λ h. cc)
same_option_iff (some x) none = (λ h. cc, λ h. cc)
same_option_iff (some x) (some y) =
    (λ h. ground (arith, text_eq_iff x y), λ h. ground (arith, text_eq_iff x y))

cel_equal_iff : (a b : DagNode) → (cel_equal (cel_snapshot a) (cel_snapshot b) ≡ true) ↔ SameCel a b
unfolding cel_equal
cel_equal_iff a b =
    let p = same_option_iff a.for_each b.for_each in
    let q = same_texts_iff a.include_when b.include_when in
    let r = same_texts_iff a.ready_when b.ready_when in
    (
      λ h. (ground (arith, p), ground (arith, q), ground (arith, r)),
      λ (x, y, z). ground (arith, p, q, r, x, y, z),
    )

lookup-set_node :
    (m : List DagNode) (n : DagNode) (id : Text)
    → lookup id (set_node m n) ≡ (if text_eq n.id id then some n else lookup id m)
unfolding lookup set_node
lookup-set_node [] n id = refl
lookup-set_node (k ∷ m) n id =
    ground (
      arith,
      lookup-set_node m n id,
      text_eq_iff k.id n.id,
      text_eq_iff k.id id,
      text_eq_iff n.id id,
    )

lookup-node_map :
    (ns m : List DagNode) (id : Text)
    → lookup id (node_map m ns) ≡ or_else (last_node id ns) (lookup id m)
unfolding node_map
lookup-node_map [] m id = refl
lookup-node_map (n ∷ ns) m id =
    lookup-node_map ns (set_node m n) id
    ∙ (rw (lookup-set_node m n id) (go (last_node id ns) (text_eq n.id id)))
  where
    go :
        (o : Option DagNode) (b : Bool)
        → or_else o (if b then some n else lookup id m)
          ≡ or_else (elim o [ some k ↦ some k | none ↦ if b then some n else none ]) (lookup id m)
    go none true = refl
    go none false = refl
    go (some k) b = refl

-- The first entry of the merged graph with the id.
abbrev pub entry_for : Text → List DiffNode → Option DiffNode
entry_for id [] = none
entry_for id (d ∷ ds) = if text_eq d.node.id id then some d else entry_for id ds

abbrev pub diff_ids : List DiffNode → List Text
diff_ids [] = []
diff_ids (d ∷ ds) = d.node.id ∷ diff_ids ds

pub diff_node-id : (o : Option DagNode) (b : DagNode) → (diff_node o b).node.id ≡ b.id
unfolding diff_node
diff_node-id none b = refl
diff_node-id (some a) b = elim (Bool-cases (cel_equal (cel_snapshot a) (cel_snapshot b))) [
  | inl e ↦ rw e refl
  | inr e ↦ rw e refl
]

maybe_kept : List DagNode → Option DagNode → Option DiffNode
maybe_kept a none = none
maybe_kept a (some n) = some (diff_node (lookup n.id a) n)

maybe_removed : Option DagNode → Option DagNode → Option DiffNode
maybe_removed b none = none
maybe_removed none (some a) = some (removed_node a)
maybe_removed (some b) (some a) = none

entry-kept :
    (a b : List DagNode) (id : Text) → entry_for id (kept_nodes a b) ≡ maybe_kept a (lookup id b)
unfolding kept_nodes lookup maybe_kept
entry-kept a [] id = refl
entry-kept a (n ∷ b) id = ground (arith, entry-kept a b id, diff_node-id (lookup n.id a) n)

entry-removed :
    (b a : List DagNode) (id : Text)
    → entry_for id (removed_nodes b a) ≡ maybe_removed (lookup id b) (lookup id a)
unfolding removed_nodes lookup maybe_removed
entry-removed b [] id = refl
entry-removed b (n ∷ a) id =
    let rest = entry-removed b a id in
    elim (Option-cases (lookup n.id b)) [
      | inl e ↦ ground (arith, rest, text_eq_iff n.id id)
      | inr (k, e) ↦ ground (arith, rest, text_eq_iff n.id id)
    ]

entry-append :
    (xs ys : List DiffNode) (id : Text)
    → entry_for id (xs ++ ys) ≡ or_else (entry_for id xs) (entry_for id ys)
entry-append [] ys id = refl
entry-append (d ∷ xs) ys id = ground (arith, entry-append xs ys id)

lookup-id : (ns : List DagNode) (id : Text) (n : DagNode) → lookup id ns ≡ some n → n.id ≡ id
unfolding lookup
lookup-id [] id n h = cc
lookup-id (m ∷ ns) id n h = elim (Bool-cases (text_eq m.id id)) [
  | inl e ↦ ground (arith, text_eq_iff m.id id)
  | inr e ↦ lookup-id ns id n (ground arith)
]

Fate-of_kept : (a : Option DagNode) (n : DagNode) → Fate a (some n) (some (diff_node a n))
unfolding diff_node
Fate-of_kept none n = new
Fate-of_kept (some k) n = elim (Bool-cases (cel_equal (cel_snapshot k) (cel_snapshot n))) [
  | inl e ↦ rw e (same ((cel_equal_iff k n).0 e))
  | inr e ↦ rw e (changed (λ s. ground (arith, (cel_equal_iff k n).1 s)))
]

settle :
    (a : List DagNode) (x y : Option DagNode)
    → ((n : DagNode) → y ≡ some n → lookup n.id a ≡ x)
    → Fate x y (or_else (maybe_kept a y) (maybe_removed y x))
unfolding maybe_kept maybe_removed
settle a none none h = absent
settle a (some k) none h = gone
settle a x (some n) h = rw (h n refl) (Fate-of_kept x n)

lookup-last : (ns : List DagNode) (id : Text) → lookup id (node_map [] ns) ≡ last_node id ns
lookup-last ns id = lookup-node_map ns [] id ∙ (unfold lookup in go (last_node id ns))
  where
    go : (o : Option DagNode) → or_else o none ≡ o
    go none = refl
    go (some k) = refl

Fate-of_lookups :
    (a b : List DagNode) (id : Text)
    → Fate
        (lookup id a)
        (lookup id b)
        (or_else (maybe_kept a (lookup id b)) (maybe_removed (lookup id b) (lookup id a)))
Fate-of_lookups a b id =
    settle a (lookup id a) (lookup id b) (λ n e. ap (λ i. lookup i a) (lookup-id b id n e))

pub entry-diff :
    (a b : DagGraph) (id : Text)
    → Fate (last_node id a.nodes) (last_node id b.nodes) (entry_for id (diff_dag_graphs a b).nodes)
unfolding diff_dag_graphs
entry-diff a b id =
    let from = node_map [] a.nodes in
    let to = node_map [] b.nodes in
    rw
      (
        sym (lookup-last a.nodes id),
        sym (lookup-last b.nodes id),
        entry-append (kept_nodes from to) (removed_nodes to from) id,
        entry-kept from to id,
        entry-removed to from id,
      )
      (Fate-of_lookups from to id)
