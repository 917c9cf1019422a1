-- ===== src/Layout/Ordered.antt =====
-- The topological order has every node once.
use kro_ui.Prelude.{
  ℕ, zero, suc, ◌+◌, ◌≤◌, true, not, Option, none, some, List, [], ◌∷◌, ◌++◌, ◌≡◌, refl, sym, ap,
  ◌∙◌, arith, length, keep, if◌then◌else◌, ◌==◌, is_some,
}
use kro_ui.Prelude.Text.{Text, text_eq_iff}
use kro_ui.Prelude.Sets.{contains, distinct}
use kro_ui.Dag.{DagEdge}
use kro_ui.Layout.Topology.{
  insert_text, sort_texts, children_at, SortState, visit_child, relax, take_node, sort_rounds,
  count_degrees, zero_degrees, with_rest, topo_order,
}
use kro_ui.Layout.Permuted.{occurrences}
use kro_ui.Layout.Complete.{occurrences-append}
use kro_ui.Layout.Sorted.{unvisited, sort_rounds-is_some}

occurrences-insert_text :
    (q x : Text) (ys : List Text) → occurrences q (insert_text x ys) ≡ occurrences q (x ∷ ys)
unfolding insert_text
occurrences-insert_text q x [] = refl
occurrences-insert_text q x (y ∷ ys) = ground (arith, occurrences-insert_text q x ys)

pub occurrences-sort_texts :
    (q : Text) (xs : List Text) → occurrences q (sort_texts xs) ≡ occurrences q xs
unfolding sort_texts
occurrences-sort_texts q [] = refl
occurrences-sort_texts q (x ∷ xs) =
    ground (arith, occurrences-insert_text q x (sort_texts xs), occurrences-sort_texts q xs)

contains-occurrences : (q : Text) (xs : List Text) → contains q xs ≡ not (occurrences q xs == 0)
unfolding contains
contains-occurrences q [] = ground arith
contains-occurrences q (x ∷ xs) =
    ground (arith, contains-occurrences q xs, text_eq_iff q x, text_eq_iff x q)

once_of_distinct : (q : Text) (xs : List Text) → distinct xs ≡ true → occurrences q xs ≤ 1
unfolding distinct
once_of_distinct q [] d = omega arith
once_of_distinct q (x ∷ xs) d =
    ground (arith, d, once_of_distinct q xs, contains-occurrences q xs, text_eq_iff x q)

-- Every visited id is in the order or in the queue, and none is visited twice.
abbrev pub IsOnce : List Text → SortState → Type 0
IsOnce topo f =
    (q : Text)
    → (occurrences q f.visited ≡ occurrences q topo + occurrences q f.queue)
      × (occurrences q f.visited ≤ 1)

visit_child-IsOnce :
    (topo : List Text) (c : Text) (f : SortState) → IsOnce topo f → IsOnce topo (visit_child c f)
unfolding visit_child
visit_child-IsOnce topo c f h q =
    let (a, b) = h q in
    let e = occurrences-append q f.queue (c ∷ []) in
    let n = contains-occurrences c f.visited in
    (ground (arith, a, e), ground (arith, b, n, text_eq_iff c q))

relax-IsOnce : (topo cs : List Text) (f : SortState) → IsOnce topo f → IsOnce topo (relax cs f)
unfolding relax
relax-IsOnce topo [] f h = h
relax-IsOnce topo (c ∷ cs) f h =
    relax-IsOnce topo cs (visit_child c f) (visit_child-IsOnce topo c f h)

module _ (node_ids : List Text) (edges : List DagEdge) where
  -- The result of the loop, if it is one.
  abbrev pub IsSorted : Option (List Text × List Text) → Type 0
  IsSorted none = Unit
  IsSorted (some (topo, visited)) =
      (q : Text) → (occurrences q visited ≡ occurrences q topo) × (occurrences q visited ≤ 1)

  sort_rounds-IsSorted :
      (fuel : ℕ) (topo queue : List Text) (f : SortState)
      → IsOnce topo (record f { queue = queue })
      → IsSorted (sort_rounds node_ids edges fuel topo queue f)
  unfolding sort_rounds
  sort_rounds-IsSorted fuel topo [] f h = λ q. let (a, b) = h q in (omega (arith, a), b)
  sort_rounds-IsSorted zero topo (node ∷ queue) f h = tt
  sort_rounds-IsSorted (suc fuel) topo (node ∷ queue) f h =
      let next = take_node node_ids edges node queue f in
      let g : SortState = record f { queue = queue } in
      sort_rounds-IsSorted fuel (topo ++ node ∷ []) (sort_texts next.queue) next (λ q.
        let (a, b) =
          relax-IsOnce (topo ++ node ∷ []) (sort_texts (children_at node_ids edges node)) g
            (λ p.
              let (u, v) = h p in
              let w = occurrences-append p topo (node ∷ []) in (ground (arith, u, w), v))
            q in
        let s = occurrences-sort_texts q next.queue in
        (a ∙ ap (λ n. occurrences q (topo ++ node ∷ []) + n) (sym s), b))

  rest_lem :
      (q : Text) (visited ids : List Text)
      → occurrences q (keep (λ id. not (contains id visited)) ids)
        ≡ (if contains q visited then 0 else occurrences q ids)
  rest_lem q visited [] = ground arith
  rest_lem q visited (id ∷ ids) = ground (arith, rest_lem q visited ids, text_eq_iff id q)

  -- An order with every node, in which no id stands twice.
  abbrev pub IsOrder : Option (List Text) → Type 0
  IsOrder none = ⊥
  IsOrder (some order) =
      (q : Text) → (occurrences q node_ids ≤ occurrences q order) × (occurrences q order ≤ 1)

  with_rest-IsOrder :
      (o : Option (List Text × List Text))
      → is_some o ≡ true
      → IsSorted o
      → ((q : Text) → occurrences q node_ids ≤ 1)
      → IsOrder (with_rest node_ids edges o)
  with_rest-IsOrder none h s n = ground (arith, h)
  with_rest-IsOrder (some (topo, visited)) h s n = λ q.
      let (a, b) = s q in
      let r = rest_lem q visited node_ids in
      let c = contains-occurrences q visited in
      let d = occurrences-append q topo (keep (λ id. not (contains id visited)) node_ids) in
      let m = n q in (ground (arith, a, b, r, c, d, m), ground (arith, a, b, r, c, d, m))

  unvisited_bound : (es : List DagEdge) (v : List Text) → unvisited es v ≤ length es
  unvisited_bound [] v = omega arith
  unvisited_bound (e ∷ es) v = ground (arith, unvisited_bound es v)

  -- The topological sort of any graph whose nodes have distinct ids ends, with an order in which every
  -- node stands and no id stands twice, whatever cycles the edges make.
  pub topo_order-IsOrder :
      (root_id : Text) → distinct node_ids ≡ true → IsOrder (topo_order node_ids edges root_id)
  unfolding topo_order sort_texts insert_text
  topo_order-IsOrder root_id d =
      let f : SortState = record {
        queue = root_id ∷ [];
        visited = root_id ∷ [];
        degrees = count_degrees edges (zero_degrees node_ids []);
      } in
      let u = unvisited_bound edges (root_id ∷ []) in
      with_rest-IsOrder (sort_rounds node_ids edges (suc (length edges)) [] (root_id ∷ []) f)
        (sort_rounds-is_some node_ids edges (suc (length edges)) [] (root_id ∷ []) f
          (omega (arith, u)))
        (sort_rounds-IsSorted (suc (length edges)) [] (root_id ∷ []) f
          (λ q. (omega arith, ground arith)))
        (λ q. once_of_distinct q node_ids d)
