-- ===== src/DagDiff/Edges.antt =====
-- The edges of the merged graph, by the keys of the two revisions.
use kro_ui.Prelude.{
  Bool, true, false, not, ◌&&◌, Option, none, some, List, [], ◌∷◌, ◌++◌, ◌≡◌, refl, ap, arith,
  if◌then◌else◌,
}
use kro_ui.Prelude.Text.{Text, text_eq, text_eq_iff}
use kro_ui.Prelude.Sets.{contains, distinct}
use kro_ui.Dag.{DagEdge, DagGraph}
use kro_ui.Dag.Graph.{edge_key, edge_keys}
use kro_ui.DagDiff.{
  DiffStatus, added, removed, unchanged, DiffEdge, kept_edges, removed_edges, diff_dag_graphs,
}
use kro_ui.DagDiff.Once.{distinct-append}

-- The status of the first edge with the key.
abbrev pub status_of : Text → List DiffEdge → Option DiffStatus
status_of k [] = none
status_of k (d ∷ ds) = if text_eq (edge_key d.edge) k then some d.status else status_of k ds

-- The status that a key gets from being in the old and in the new revision.
abbrev pub fate_of_edge : Bool → Bool → Option DiffStatus
fate_of_edge false false = none
fate_of_edge false true = some added
fate_of_edge true false = some removed
fate_of_edge true true = some unchanged

abbrev pub diff_keys : List DiffEdge → List Text
diff_keys [] = []
diff_keys (d ∷ ds) = edge_key d.edge ∷ diff_keys ds

or_else : Option DiffStatus → Option DiffStatus → Option DiffStatus
or_else none b = b
or_else (some s) b = some s

status_of-append :
    (xs ys : List DiffEdge) (k : Text)
    → status_of k (xs ++ ys) ≡ or_else (status_of k xs) (status_of k ys)
unfolding or_else
status_of-append [] ys k = refl
status_of-append (d ∷ xs) ys k = ground (arith, status_of-append xs ys k)

status_of-kept :
    (old : List Text) (es : List DagEdge) (k : Text)
    → status_of k (kept_edges old es) ≡ (
        if contains k (edge_keys es)
        then some (if contains k old then unchanged else added)
        else none)
unfolding kept_edges edge_keys contains
status_of-kept old [] k = refl
status_of-kept old (e ∷ es) k =
    ground (arith, status_of-kept old es k, text_eq_iff k (edge_key e), text_eq_iff (edge_key e) k)

status_of-removed :
    (new : List Text) (es : List DagEdge) (k : Text)
    → status_of k (removed_edges new es)
      ≡ (if contains k (edge_keys es) && not (contains k new) then some removed else none)
unfolding removed_edges edge_keys contains
status_of-removed new [] k = refl
status_of-removed new (e ∷ es) k =
    ground
      (arith, status_of-removed new es k, text_eq_iff k (edge_key e), text_eq_iff (edge_key e) k)

keys-kept : (old : List Text) (es : List DagEdge) → diff_keys (kept_edges old es) ≡ edge_keys es
unfolding kept_edges edge_keys
keys-kept old [] = refl
keys-kept old (e ∷ es) = ap (λ r. edge_key e ∷ r) (keys-kept old es)

keys-removed :
    (k : Text) (new : List Text) (es : List DagEdge)
    → contains k (diff_keys (removed_edges new es))
      ≡ (not (contains k new) && contains k (edge_keys es))
unfolding removed_edges edge_keys contains
keys-removed k new [] = ground arith
keys-removed k new (e ∷ es) = ground (arith, keys-removed k new es, text_eq_iff k (edge_key e))

distinct-removed :
    (new : List Text) (es : List DagEdge)
    → distinct (edge_keys es) ≡ true
    → distinct (diff_keys (removed_edges new es)) ≡ true
unfolding removed_edges edge_keys distinct
distinct-removed new [] h = refl
distinct-removed new (e ∷ es) h =
    ground (arith, distinct-removed new es, keys-removed (edge_key e) new es)

keys-append : (xs ys : List DiffEdge) → diff_keys (xs ++ ys) ≡ diff_keys xs ++ diff_keys ys
keys-append [] ys = refl
keys-append (d ∷ xs) ys = ap (λ r. edge_key d.edge ∷ r) (keys-append xs ys)

settle :
    (p q : Bool)
    → or_else
        (if q then some (if p then unchanged else added) else none)
        (if p && not q then some removed else none)
      ≡ fate_of_edge p q
unfolding or_else
settle false false = refl
settle false true = refl
settle true false = refl
settle true true = refl

-- The edges of the merged graph, where neither revision has one edge key twice: no key stands
-- there twice, and an edge is unchanged when both revisions have its key, added when only the new
-- one has it, removed when only the old one has it, and absent when neither has it.
pub diff_dag_graphs-edges :
    (a b : DagGraph)
    → distinct (edge_keys a.edges) ≡ true
    → distinct (edge_keys b.edges) ≡ true
    → (distinct (diff_keys (diff_dag_graphs a b).edges) ≡ true)
      × ((k : Text)
          → status_of k (diff_dag_graphs a b).edges
            ≡ fate_of_edge (contains k (edge_keys a.edges)) (contains k (edge_keys b.edges)))
unfolding diff_dag_graphs
diff_dag_graphs-edges a b h j =
    let old = edge_keys a.edges in
    let new = edge_keys b.edges in
    (
      rw (keys-append (kept_edges old b.edges) (removed_edges new a.edges), keys-kept old b.edges)
          (distinct-append new (diff_keys (removed_edges new a.edges)) j
            (distinct-removed new a.edges h) (λ x m. ground (arith, keys-removed x new a.edges))),
      λ k.
          rw
            (
              status_of-append (kept_edges old b.edges) (removed_edges new a.edges) k,
              status_of-kept old b.edges k,
              status_of-removed new a.edges k,
            )
            (settle (contains k old) (contains k new)),
    )
