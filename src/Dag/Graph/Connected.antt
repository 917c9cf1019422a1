-- ===== src/Dag/Graph/Connected.antt =====
-- The edges of the graph: references, and fallback edges that connect every node to the root.
use kro_ui.Prelude.{
  Bool, true, false, not, ◌&&◌, ◌||◌, List, [], ◌∷◌, ◌++◌, ◌≡◌, refl, ◌∙◌, arith, any, ◌↔◌, ◌⊎◌,
  inl, inr, Bool-cases, All-append,
}
use kro_ui.Prelude.Text.{Text, text_eq, text_eq_iff, text_eq_refl}
use kro_ui.Prelude.Chars.{is_word}
use kro_ui.Prelude.Sets.{contains, distinct, contains_one}
use kro_ui.Dag.{DagNode, DagEdge}
use kro_ui.Dag.References.Mentions.{extract_referenced_ids_lem}
use kro_ui.Dag.Search.{children_of, reachable_from}
use kro_ui.Dag.Search.Closed.{Reach, root, step, reachable_from_iff}
use kro_ui.Dag.Graph.{
  edges_into, node_refs, raw_edges, edge_keys, dedupe, fallback_round, add_fallback, connect,
  has_node, schema_id,
}
use kro_ui.Dag.Graph.Edges.{
  wordy, mentions-wordy, HasWordySources, add_edge-children, add_edge-HasWordySources,
  add_edge-distinct, dedupe_lem, children_of-append,
}

node_refs-wordy :
    (ids : List Text) (n : DagNode) (u : Text)
    → contains u (node_refs ids n) ≡ true
    → wordy u ≡ true
unfolding node_refs
node_refs-wordy ids n u h =
    let exprs = n.cel_expressions ++ (n.include_when ++ n.ready_when) in
    mentions-wordy u exprs (ground (arith, (extract_referenced_ids_lem exprs ids []).0 u))

edges_into-HasWordySources :
    (id : Text) (refs : List Text)
    → ((u : Text) → contains u refs ≡ true → wordy u ≡ true)
    → HasWordySources (edges_into id refs)
unfolding edges_into
edges_into-HasWordySources id [] h = tt
edges_into-HasWordySources id (r ∷ refs) h =
    let rest = edges_into-HasWordySources id refs (λ u m. h u (unfold contains in ground arith)) in
    elim (Bool-cases (text_eq r id)) [
      | inl e ↦ rw e rest
      | inr e ↦ rw e (h r (unfold contains in ground (arith, text_eq_refl r)), rest)
    ]

raw_edges-HasWordySources :
    (ids : List Text) (ns : List DagNode) → HasWordySources (raw_edges ids ns)
unfolding raw_edges
raw_edges-HasWordySources ids [] = tt
raw_edges-HasWordySources ids (n ∷ ns) =
    All-append (λ e. wordy e.from ≡ true) (edges_into n.id (node_refs ids n)) (raw_edges ids ns)
      (edges_into-HasWordySources n.id (node_refs ids n) (node_refs-wordy ids n))
      (raw_edges-HasWordySources ids ns)

-- One node refers to another: an expression of a node with the id `v` mentions the known id `u`.
abbrev pub refers : List Text → List DagNode → Text → Text → Bool
refers ids ns u v =
    any (λ n. text_eq n.id v && not (text_eq u v) && contains u (node_refs ids n)) ns

edges_into-children :
    (id : Text) (refs : List Text) (u v : Text)
    → contains v (children_of (edges_into id refs) u)
      ≡ (text_eq id v && not (text_eq u v) && contains u refs)
unfolding edges_into children_of contains
edges_into-children id [] u v = ground arith
edges_into-children id (r ∷ refs) u v = ground (
  arith,
  edges_into-children id refs u v,
  text_eq_iff r id,
  text_eq_iff r u,
  text_eq_iff u r,
  text_eq_iff u v,
  text_eq_iff id v,
  text_eq_iff v id,
)

pub raw_edges-children :
    (ids : List Text) (ns : List DagNode) (u v : Text)
    → contains v (children_of (raw_edges ids ns) u) ≡ refers ids ns u v
unfolding raw_edges
raw_edges-children ids [] u v = unfold children_of contains in refl
raw_edges-children ids (n ∷ ns) u v = ground (
  arith,
  children_of-append (edges_into n.id (node_refs ids n)) (raw_edges ids ns) u v,
  edges_into-children n.id (node_refs ids n) u v,
  raw_edges-children ids ns u v,
)

-- A node that the root does not reach without help.
abbrev pub is_stray : List Text → List DagNode → Text → Bool
is_stray reachable ns v = not (text_eq v schema_id) && not (contains v reachable) && has_node v ns

schema_id-wordy : wordy schema_id ≡ true
unfolding is_word
schema_id-wordy = refl

-- What a list of edges keeps true.
pub record IsTidy (edges : List DagEdge) : Type 0 where
  pub sources : HasWordySources edges
  pub keys : distinct (edge_keys edges) ≡ true

fallback_round-IsTidy :
    (reachable : List Text) (edges : List DagEdge) (n : DagNode)
    → IsTidy edges
    → IsTidy (fallback_round reachable edges n)
unfolding fallback_round
fallback_round-IsTidy reachable edges n t =
    let e : DagEdge = record { from = schema_id; to = n.id } in
    elim (Bool-cases (not (text_eq n.id schema_id) && not (contains n.id reachable))) [
      | inl p ↦ rw p (record {
        sources = add_edge-HasWordySources edges e t.sources schema_id-wordy;
        keys = add_edge-distinct edges e t.keys;
      })
      | inr p ↦ rw p t
    ]

fallback_round-children :
    (reachable : List Text) (edges : List DagEdge) (n : DagNode) (u v : Text)
    → IsTidy edges
    → contains v (children_of (fallback_round reachable edges n) u)
      ≡ (contains v (children_of edges u) || text_eq schema_id u && is_stray reachable (n ∷ []) v)
unfolding fallback_round
fallback_round-children reachable edges n u v t = ground (
  arith,
  add_edge-children edges (record { from = schema_id; to = n.id }) u v t.sources schema_id-wordy,
  text_eq_iff n.id v,
)

add_fallback-IsTidy :
    (reachable : List Text) (edges : List DagEdge) (ns : List DagNode)
    → IsTidy edges
    → IsTidy (add_fallback reachable edges ns)
unfolding add_fallback
add_fallback-IsTidy reachable edges [] t = t
add_fallback-IsTidy reachable edges (n ∷ ns) t =
    add_fallback-IsTidy reachable (fallback_round reachable edges n) ns
      (fallback_round-IsTidy reachable edges n t)

add_fallback-children :
    (reachable : List Text) (edges : List DagEdge) (ns : List DagNode) (u v : Text)
    → IsTidy edges
    → contains v (children_of (add_fallback reachable edges ns) u)
      ≡ (contains v (children_of edges u) || text_eq schema_id u && is_stray reachable ns v)
unfolding add_fallback
add_fallback-children reachable edges [] u v t = ground arith
add_fallback-children reachable edges (n ∷ ns) u v t = ground (
  arith,
  add_fallback-children reachable (fallback_round reachable edges n) ns u v
      (fallback_round-IsTidy reachable edges n t),
  fallback_round-children reachable edges n u v t,
)

pub IsTidy-raw : (ids : List Text) (ns : List DagNode) → IsTidy (dedupe [] (raw_edges ids ns))
IsTidy-raw ids ns =
    let (s, k, _) =
      dedupe_lem [] (raw_edges ids ns) tt (raw_edges-HasWordySources ids ns)
        (unfold distinct edge_keys in refl) in
    record { sources = s; keys = k }

pub dedupe-children :
    (ids : List Text) (ns : List DagNode) (u v : Text)
    → contains v (children_of (dedupe [] (raw_edges ids ns)) u) ≡ refers ids ns u v
dedupe-children ids ns u v =
    let (_, _, c) =
      dedupe_lem [] (raw_edges ids ns) tt (raw_edges-HasWordySources ids ns)
        (unfold distinct edge_keys in refl) in
    let nothing : contains v (children_of [] u) ≡ false = unfold contains children_of in refl in
    ground (arith, c u v, nothing, raw_edges-children ids ns u v)

-- More edges reach more.
pub Reach_mono :
    (a b : List DagEdge) (roots : List Text)
    → ((u v : Text) → contains v (children_of a u) ≡ true → contains v (children_of b u) ≡ true)
    → {v : Text} → Reach a roots v
    → Reach b roots v
Reach_mono a b roots h (root m) = root m
Reach_mono a b roots h (step {u} {v} d k) = step (Reach_mono a b roots h d) (h u v k)

abbrev pub roots_of_graph : List Text
roots_of_graph = schema_id ∷ []

-- What the root reaches.
module _ (edges : List DagEdge) (ns : List DagNode) (t : IsTidy edges) where
  seen : List Text
  seen = reachable_from edges roots_of_graph roots_of_graph

  connect-children :
      (u v : Text)
      → contains v (children_of (connect edges ns) u)
        ≡ (contains v (children_of edges u) || text_eq schema_id u && is_stray seen ns v)
  unfolding connect seen
  connect-children u v = add_fallback-children seen edges ns u v t

  pub connect-Reach :
      (id : Text) → has_node id ns ≡ true → Reach (connect edges ns) roots_of_graph id
  unfolding seen
  connect-Reach id h = elim (Bool-cases (contains id seen)) [
    | inl m ↦
        Reach_mono edges (connect edges ns) roots_of_graph
          (λ u v k. ground (arith, connect-children u v))
          ((reachable_from_iff edges roots_of_graph roots_of_graph id (λ u. refl)).0 m)
    | inr m ↦ elim (Bool-cases (text_eq id schema_id)) [
      | inl e ↦ root (contains_one id schema_id ∙ e)
      | inr e ↦
          step {u = schema_id} (root (contains_one schema_id schema_id ∙ text_eq_refl schema_id))
            (ground (arith, connect-children schema_id id, text_eq_refl schema_id))
    ]
  ]

  pub connect-IsTidy : IsTidy (connect edges ns)
  unfolding connect seen
  connect-IsTidy = add_fallback-IsTidy seen edges ns t

  -- The edges of the connected graph: those that were there, and one from the root to each node
  -- that these do not connect to it.
  pub connect_iff :
      (u v : Text)
      → (contains v (children_of (connect edges ns) u) ≡ true) ↔ (
          (contains v (children_of edges u) ≡ true)
          ⊎ ((u ≡ schema_id) × (has_node v ns ≡ true) × ¬ Reach edges roots_of_graph v))
  unfolding seen
  connect_iff u v =
      let met = reachable_from_iff edges roots_of_graph roots_of_graph v (λ w. refl) in
      (
        λ m. elim (Bool-cases (contains v (children_of edges u))) [
          | inl old ↦ inl old
          | inr new ↦ inr (
            ground (arith, connect-children u v, text_eq_iff schema_id u),
            ground (arith, connect-children u v),
            λ d. ground (arith, connect-children u v, met.1 d),
          )
        ],
        λ m. elim m [
          | inl old ↦ ground (arith, connect-children u v)
          | inr (p, q, r) ↦ elim (Bool-cases (contains v seen)) [
            | inl m ↦ absurd (r (met.0 m))
            | inr m ↦ elim (Bool-cases (text_eq v schema_id)) [
              | inl e ↦ absurd (r (root (contains_one v schema_id ∙ e)))
              | inr e ↦ ground (arith, connect-children u v, text_eq_iff schema_id u)
            ]
          ]
        ],
      )
