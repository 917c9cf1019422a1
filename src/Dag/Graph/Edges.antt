-- ===== src/Dag/Graph/Edges.antt =====
-- Edges and their keys: `from→to` identifies an edge, because what an edge comes from is an
-- identifier and holds no arrow.
use kro_ui.Prelude.{
  ℕ, Bool, true, false, ◌&&◌, ◌||◌, List, [], ◌∷◌, ◌++◌, ◌≡◌, refl, ap, sym, ◌∙◌, arith, all, inl,
  inr, Bool-cases, All, All-append,
}
use kro_ui.Prelude.Text.{Text, text_eq, text_eq_iff, text_eq_refl}
use kro_ui.Prelude.Chars.{is_word}
use kro_ui.Prelude.Sets.{contains, distinct, contains-append, distinct-concat}
use kro_ui.Dag.{DagEdge}
use kro_ui.Dag.References.{flush, identifiers_from, identifiers, strip}
use kro_ui.Dag.References.Mentions.{mentions}
use kro_ui.Dag.Search.{children_of}
use kro_ui.Dag.Graph.{edge_key, edge_keys, add_edge, dedupe}

-- Word characters only.
abbrev pub wordy : Text → Bool
wordy = all is_word

wordy-concat :
    (run : Text) (c : ℕ) → wordy run ≡ true → is_word c ≡ true → wordy (run ++ c ∷ []) ≡ true
wordy-concat [] c h k = ground arith
wordy-concat (d ∷ run) c h k = ground (arith, wordy-concat run c)

contains-flush : (run id : Text) → contains id (flush run) ≡ true → id ≡ run
unfolding contains flush
contains-flush [] id h = cc
contains-flush (c ∷ w) id h = ground (arith, text_eq_iff id (c ∷ w))

identifiers_from-wordy :
    (run s id : Text)
    → wordy run ≡ true
    → contains id (identifiers_from run s) ≡ true
    → wordy id ≡ true
unfolding identifiers_from
identifiers_from-wordy run [] id h m = rw (contains-flush run id m) h
identifiers_from-wordy run (c ∷ s) id h m = elim (Bool-cases (is_word c)) [
  | inl e ↦ identifiers_from-wordy (run ++ c ∷ []) s id (wordy-concat run c h e) (ground arith)
  | inr e ↦ elim (Bool-cases (contains id (flush run))) [
    | inl f ↦ rw (contains-flush run id f) h
    | inr f ↦
        identifiers_from-wordy [] s id refl
          (ground (arith, contains-append id (flush run) (identifiers_from [] s)))
  ]
]

pub mentions-wordy : (id : Text) (exprs : List Text) → mentions id exprs ≡ true → wordy id ≡ true
mentions-wordy id [] h = cc
mentions-wordy id (e ∷ exprs) h = elim (Bool-cases (contains id (identifiers (strip e)))) [
  | inl f ↦ identifiers_from-wordy [] (strip e) id refl (unfold identifiers in f)
  | inr f ↦ mentions-wordy id exprs (ground arith)
]

-- Every edge comes from an identifier.
abbrev pub HasWordySources : List DagEdge → Type 0
HasWordySources = All (λ e. wordy e.from ≡ true)

no_arrow : (c : ℕ) → is_word c ≡ true → c ≡ 0x2192 → ⊥
unfolding is_word
no_arrow c h e = let impossible : is_word 0x2192 ≡ true = ap is_word (sym e) ∙ h in cc impossible

-- The first arrow of a key ends the source.
key_injective :
    (a b x y : Text)
    → wordy a ≡ true
    → wordy b ≡ true
    → a ++ 0x2192 ∷ x ≡ b ++ 0x2192 ∷ y
    → (a ≡ b) × (x ≡ y)
key_injective [] [] x y h k e = (refl, cc)
key_injective [] (d ∷ b) x y h k e = absurd (no_arrow d (ground arith) (cc))
key_injective (c ∷ a) [] x y h k e = absurd (no_arrow c (ground arith) (cc))
key_injective (c ∷ a) (d ∷ b) x y h k e =
    let (p, q) = key_injective a b x y (ground arith) (ground arith) (cc) in (cc, q)

key_iff :
    (e : DagEdge) (u v : Text)
    → wordy e.from ≡ true
    → wordy u ≡ true
    → text_eq (u ++ 0x2192 ∷ v) (edge_key e) ≡ (text_eq e.from u && text_eq e.to v)
key_iff e u v h k = elim (Bool-cases (text_eq (u ++ 0x2192 ∷ v) (edge_key e))) [
  | inl same ↦
      let (p, q) = key_injective u e.from v e.to k h ((text_eq_iff _ _).0 same) in
      ground (arith, same, text_eq_iff e.from u, text_eq_iff e.to v, p, q)
  | inr other ↦
      ground (arith, other, text_eq_iff e.from u, text_eq_iff e.to v, text_eq_refl (edge_key e))
]

-- A key is in the set exactly when its edge is among those kept.
contains-edge_keys :
    (es : List DagEdge) (u v : Text)
    → HasWordySources es
    → wordy u ≡ true
    → contains (u ++ 0x2192 ∷ v) (edge_keys es) ≡ contains v (children_of es u)
unfolding edge_keys children_of contains
contains-edge_keys [] u v h k = refl
contains-edge_keys (e ∷ es) u v (p, h) k = ground (
  arith,
  key_iff e u v p k,
  contains-edge_keys es u v h k,
  text_eq_iff e.to v,
  text_eq_iff v e.to,
)

pub children_of-append :
    (a b : List DagEdge) (u v : Text)
    → contains v (children_of (a ++ b) u)
      ≡ (contains v (children_of a u) || contains v (children_of b u))
unfolding children_of contains
children_of-append [] b u v = refl
children_of-append (e ∷ a) b u v = ground (arith, children_of-append a b u v)

children_of_one :
    (e : DagEdge) (u v : Text)
    → contains v (children_of (e ∷ []) u) ≡ (text_eq e.from u && text_eq e.to v)
unfolding children_of contains
children_of_one e u v = ground (arith, text_eq_iff e.to v, text_eq_iff v e.to)

-- Keeping an edge adds it, and nothing else, to the edges that were there.
pub add_edge-children :
    (kept : List DagEdge) (e : DagEdge) (u v : Text)
    → HasWordySources kept
    → wordy e.from ≡ true
    → contains v (children_of (add_edge kept e) u)
      ≡ (contains v (children_of kept u) || text_eq e.from u && text_eq e.to v)
unfolding add_edge
add_edge-children kept e u v h k = ground (
  arith,
  contains-edge_keys kept e.from e.to h k,
  children_of-append kept (e ∷ []) u v,
  children_of_one e u v,
  text_eq_iff e.from u,
  text_eq_iff e.to v,
)

pub add_edge-HasWordySources :
    (kept : List DagEdge) (e : DagEdge)
    → HasWordySources kept
    → wordy e.from ≡ true
    → HasWordySources (add_edge kept e)
unfolding add_edge
add_edge-HasWordySources kept e h k = elim (Bool-cases (contains (edge_key e) (edge_keys kept))) [
  | inl p ↦ rw p h
  | inr p ↦ rw p (All-append (λ e. wordy e.from ≡ true) kept (e ∷ []) h (k, tt))
]

edge_keys-append :
    (a : List DagEdge) (e : DagEdge) → edge_keys (a ++ e ∷ []) ≡ edge_keys a ++ edge_key e ∷ []
unfolding edge_keys
edge_keys-append [] e = refl
edge_keys-append (x ∷ a) e = ap (λ r. edge_key x ∷ r) (edge_keys-append a e)

pub add_edge-distinct :
    (kept : List DagEdge) (e : DagEdge)
    → distinct (edge_keys kept) ≡ true
    → distinct (edge_keys (add_edge kept e)) ≡ true
unfolding add_edge
add_edge-distinct kept e h =
    ground (arith, edge_keys-append kept e, distinct-concat (edge_key e) (edge_keys kept))

-- What the edges promise after a pass: sources, keys, and the pairs that they join.
pub dedupe_lem :
    (kept es : List DagEdge)
    → HasWordySources kept
    → HasWordySources es
    → distinct (edge_keys kept) ≡ true
    → HasWordySources (dedupe kept es)
      × (distinct (edge_keys (dedupe kept es)) ≡ true)
      × ((u v : Text)
          → contains v (children_of (dedupe kept es) u)
            ≡ (contains v (children_of kept u) || contains v (children_of es u)))
unfolding dedupe
dedupe_lem kept [] h k d = (h, d, λ u v. ground (arith, children_of_nil u v))
  where
    children_of_nil : (u v : Text) → contains v (children_of [] u) ≡ false
    children_of_nil u v = unfold contains children_of in refl
dedupe_lem kept (e ∷ es) h (p, k) d =
    let (a, b, c) =
      dedupe_lem (add_edge kept e) es (add_edge-HasWordySources kept e h p) k
        (add_edge-distinct kept e d) in
    (
      a,
      b,
      λ u v. ground (
        arith,
        c u v,
        add_edge-children kept e u v h p,
        children_of-append (e ∷ []) es u v,
        children_of_one e u v,
      ),
    )
