-- ===== src/Layout/Sorted.antt =====
-- The topological sort ends, and every node is in its order.
use kro_ui.Prelude.{
  ℕ, zero, suc, ◌+◌, ◌≤◌, Bool, true, false, not, ◌||◌, List, [], ◌∷◌, ◌++◌, ◌≡◌, refl, ap, ◌∙◌,
  arith, length, length-append, keep, All, any, is_some, Bool-cases, inl, inr,
}
use kro_ui.Prelude.Text.{Text, text_eq, text_eq_iff, text_eq_refl}
use kro_ui.Prelude.Sets.{contains}
use kro_ui.Dag.{DagEdge}
use kro_ui.Layout.Topology.{
  insert_text, sort_texts, targets_of, children_at, SortState, visit_child, relax, take_node,
  sort_rounds,
}

length-insert_text : (x : Text) (ys : List Text) → length (insert_text x ys) ≡ suc (length ys)
unfolding insert_text
length-insert_text x [] = refl
length-insert_text x (y ∷ ys) = ground (arith, length-insert_text x ys)

length-sort_texts : (xs : List Text) → length (sort_texts xs) ≡ length xs
unfolding sort_texts
length-sort_texts [] = refl
length-sort_texts (x ∷ xs) = length-insert_text x (sort_texts xs) ∙ ap suc (length-sort_texts xs)

-- The ends of edges that are not visited.
abbrev pub unvisited : List DagEdge → List Text → ℕ
unvisited es visited = length (keep (λ e. not (contains e.to visited)) es)

-- An edge leads to the id.
abbrev pub is_target : List DagEdge → Text → Bool
is_target es id = any (λ e. text_eq e.to id) es

unvisited-cons :
    (es : List DagEdge) (id : Text) (v : List Text) → unvisited es (id ∷ v) ≤ unvisited es v
unfolding contains
unvisited-cons [] id v = omega arith
unvisited-cons (e ∷ es) id v = ground (arith, unvisited-cons es id v)

visiting :
    (es : List DagEdge) (id : Text) (v : List Text)
    → is_target es id ≡ true
    → contains id v ≡ false
    → suc (unvisited es (id ∷ v)) ≤ unvisited es v
unfolding contains
visiting [] id v h n = ground (arith, h)
visiting (e ∷ es) id v h n =
    ground (arith, h, n, visiting es id v, unvisited-cons es id v, text_eq_iff e.to id)

visit_child-bound :
    (es : List DagEdge) (c : Text) (f : SortState)
    → is_target es c ≡ true
    → length (visit_child c f).queue + unvisited es (visit_child c f).visited
      ≤ length f.queue + unvisited es f.visited
unfolding visit_child
visit_child-bound es c f t =
    let a = length-append f.queue (c ∷ []) in
    elim (Bool-cases (contains c f.visited)) [
      | inl e ↦ ground (arith, e, a)
      | inr e ↦ let v = visiting es c f.visited t e in ground (arith, e, a, v)
    ]

-- Queueing children does not raise the number of rounds that are left.
relax-bound :
    (es : List DagEdge) (cs : List Text) (f : SortState)
    → All (λ c. is_target es c ≡ true) cs
    → length (relax cs f).queue + unvisited es (relax cs f).visited
      ≤ length f.queue + unvisited es f.visited
unfolding relax
relax-bound es [] f h = omega arith
relax-bound es (c ∷ cs) f (t, h) =
    let a = visit_child-bound es c f t in
    let b = relax-bound es cs (visit_child c f) h in omega (arith, a, b)

-- The children of a node are ends of edges.
targets_of-is_target :
    (es : List DagEdge) (id q : Text) → contains q (targets_of id es) ≡ true → is_target es q ≡ true
unfolding targets_of contains
targets_of-is_target [] id q h = ground (arith, h)
targets_of-is_target (e ∷ es) id q h =
    ground (arith, h, targets_of-is_target es id q, text_eq_iff q e.to, text_eq_iff e.to q)

contains-insert_text :
    (q x : Text) (ys : List Text) → contains q (insert_text x ys) ≡ (text_eq q x || contains q ys)
unfolding insert_text contains
contains-insert_text q x [] = refl
contains-insert_text q x (y ∷ ys) = ground (arith, contains-insert_text q x ys)

contains-sort_texts : (q : Text) (xs : List Text) → contains q (sort_texts xs) ≡ contains q xs
unfolding sort_texts contains
contains-sort_texts q [] = refl
contains-sort_texts q (x ∷ xs) =
    ground (arith, contains-insert_text q x (sort_texts xs), contains-sort_texts q xs)

all_targets :
    (es : List DagEdge) (xs : List Text)
    → ((q : Text) → contains q xs ≡ true → is_target es q ≡ true)
    → All (λ c. is_target es c ≡ true) xs
unfolding contains
all_targets es [] h = tt
all_targets es (x ∷ xs) h =
    let z = text_eq_refl x in
    (h x (ground (arith, z)), all_targets es xs (λ q k. h q (ground (arith, k))))

module _ (node_ids : List Text) (edges : List DagEdge) where
  children_targets :
      (id : Text) → All (λ c. is_target edges c ≡ true) (sort_texts (children_at node_ids edges id))
  unfolding children_at contains
  children_targets id = all_targets edges (sort_texts (children_at node_ids edges id)) (λ q h.
      let k = contains-sort_texts q (children_at node_ids edges id) in
      let t = targets_of-is_target edges id q in ground (arith, h, k, t))

  pub sort_rounds-is_some :
      (fuel : ℕ) (topo queue : List Text) (f : SortState)
      → length queue + unvisited edges f.visited ≤ fuel
      → is_some (sort_rounds node_ids edges fuel topo queue f) ≡ true
  unfolding sort_rounds
  sort_rounds-is_some fuel topo [] f h = refl
  sort_rounds-is_some zero topo (node ∷ queue) f h = ground (arith, h)
  sort_rounds-is_some (suc fuel) topo (node ∷ queue) f h =
      let next = take_node node_ids edges node queue f in
      let b =
        relax-bound edges (sort_texts (children_at node_ids edges node))
          (record f { queue = queue }) (children_targets node) in
      let l = length-sort_texts next.queue in
      sort_rounds-is_some fuel (topo ++ node ∷ []) (sort_texts next.queue) next
        (omega (arith, h, b, l))
