-- ===== src/Display/Bounds.antt =====
-- The bounds of the views: no node is cut off, and no label is too long.
use kro_ui.Prelude.{
  ℕ, zero, suc, ◌+◌, ◌≤◌, max, Option, none, some, List, [], ◌∷◌, arith, leb, length, length-append,
  take, All, Bool-cases, inl, inr,
}
use kro_ui.Prelude.Text.{Text}
use kro_ui.Dag.{DagNode, DagGraph}
use kro_ui.Display.{
  max_of, right_edge, bottom_edge, fitted, fitted_width, fitted_height, for_each_label,
}

All-weaken :
    (f : DagNode → ℕ) (a b : ℕ) (ns : List DagNode)
    → a ≤ b
    → All (λ n. f n ≤ a) ns
    → All (λ n. f n ≤ b) ns
All-weaken f a b [] h k = tt
All-weaken f a b (n ∷ ns) h (p, k) = (omega (arith, h, p), All-weaken f a b ns h k)

All-max_of : (f : DagNode → ℕ) (ns : List DagNode) → All (λ n. f n ≤ max_of f ns) ns
unfolding max_of
All-max_of f [] = tt
All-max_of f (n ∷ ns) = (
  omega arith,
  All-weaken f (max_of f ns) (max (f n) (max_of f ns)) ns (omega arith) (All-max_of f ns),
)

All-fitted :
    (f : DagNode → ℕ) (default : ℕ) (ns : List DagNode)
    → All (λ n. f n + 32 ≤ fitted f default ns) ns
All-fitted f default [] = tt
All-fitted f default (n ∷ ns) = padded (n ∷ ns) (max_of f (n ∷ ns)) (All-max_of f (n ∷ ns))
  where
    padded : (ks : List DagNode) (a : ℕ) → All (λ k. f k ≤ a) ks → All (λ k. f k + 32 ≤ a + 32) ks
    padded [] a h = tt
    padded (k ∷ ks) a (p, h) = (omega (arith, p), padded ks a h)

length-take-le : (n : ℕ) (s : Text) → length (take n s) ≤ n
length-take-le zero s = omega arith
length-take-le (suc n) [] = omega arith
length-take-le (suc n) (c ∷ s) = ground (arith, length-take-le n s)

label_bound : (o : Option Text) → length (for_each_label o) ≤ 28
unfolding for_each_label
label_bound none = omega arith
label_bound (some s) = elim (Bool-cases (leb (length s) 28)) [
  | inl e ↦ rw e (ground arith)
  | inr e ↦ rw e (omega (arith, length-append (take 27 s) (0x2026 ∷ []), length-take-le 27 s))
]

-- The fitted view box holds every node with its padding, and a forEach label has at most 28
-- characters.
pub fitted_bounds :
    (graph : DagGraph) (for_each : Option Text)
    → All (λ n. n.x + n.width + 32 ≤ fitted_width graph) graph.nodes
      × All (λ n. n.y + n.height + 32 ≤ fitted_height graph) graph.nodes
      × (length (for_each_label for_each) ≤ 28)
unfolding fitted_width fitted_height
fitted_bounds graph for_each = (
  All-fitted right_edge graph.width graph.nodes,
  All-fitted bottom_edge graph.height graph.nodes,
  label_bound for_each,
)
