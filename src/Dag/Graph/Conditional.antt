-- ===== src/Dag/Graph/Conditional.antt =====
-- Contagious exclusion: which nodes end up conditional.
use kro_ui.Prelude.{
  Bool, true, not, ◌&&◌, ◌||◌, List, [], ◌∷◌, ◌≡◌, refl, ◌∙◌, arith, any, keep, ◌↔◌, inl, inr,
  Bool-cases,
}
use kro_ui.Prelude.Text.{Text, text_eq, text_eq_iff}
use kro_ui.Prelude.Sets.{contains, insert, contains-insert}
use kro_ui.Dag.{DagNode, DagEdge}
use kro_ui.Dag.Search.{reachable_from}
use kro_ui.Dag.Search.Closed.{Reach, reachable_from_iff}
use kro_ui.Dag.Graph.{has_node, mark_conditional, mark_all, conditional_ids, insert_all, propagate}

-- A node with the id is conditional.
abbrev pub conditional : Text → List DagNode → Bool
conditional id = any (λ n. text_eq n.id id && n.is_conditional)

has_node-mark :
    (ns : List DagNode) (j id : Text) → has_node id (mark_conditional ns j) ≡ has_node id ns
unfolding mark_conditional
has_node-mark [] j id = refl
has_node-mark (n ∷ ns) j id = ground (arith, has_node-mark ns j id)

conditional-mark :
    (ns : List DagNode) (j id : Text)
    → conditional id (mark_conditional ns j) ≡ (conditional id ns || text_eq j id && has_node id ns)
unfolding mark_conditional
conditional-mark [] j id = ground arith
conditional-mark (n ∷ ns) j id =
    ground
      (arith, conditional-mark ns j id, text_eq_iff j id, text_eq_iff n.id j, text_eq_iff n.id id)

pub has_node-mark_all :
    (ids : List Text) (ns : List DagNode) (id : Text)
    → has_node id (mark_all ns ids) ≡ has_node id ns
unfolding mark_all
has_node-mark_all [] ns id = refl
has_node-mark_all (j ∷ ids) ns id =
    has_node-mark_all ids (mark_conditional ns j) id ∙ has_node-mark ns j id

conditional-mark_all :
    (ids : List Text) (ns : List DagNode) (id : Text)
    → conditional id (mark_all ns ids) ≡ (conditional id ns || contains id ids && has_node id ns)
unfolding mark_all contains
conditional-mark_all [] ns id = ground arith
conditional-mark_all (j ∷ ids) ns id = ground (
  arith,
  conditional-mark_all ids (mark_conditional ns j) id,
  conditional-mark ns j id,
  has_node-mark ns j id,
  text_eq_iff j id,
  text_eq_iff id j,
)

contains-insert_all :
    (xs s : List Text) (id : Text)
    → contains id (insert_all xs s) ≡ (contains id s || contains id xs)
unfolding insert_all contains
contains-insert_all [] s id = ground arith
contains-insert_all (x ∷ xs) s id =
    ground (arith, contains-insert_all xs (insert x s) id, contains-insert id x s)

contains-conditional_ids :
    (ns : List DagNode) (id : Text) → contains id (conditional_ids ns) ≡ conditional id ns
unfolding conditional_ids contains
contains-conditional_ids [] id = refl
contains-conditional_ids (n ∷ ns) id =
    ground (arith, contains-conditional_ids ns id, text_eq_iff n.id id, text_eq_iff id n.id)

contains-keep :
    (old xs : List Text) (id : Text)
    → contains id (keep (λ v. not (contains v old)) xs) ≡ (contains id xs && not (contains id old))
unfolding contains
contains-keep old [] id = refl
contains-keep old (x ∷ xs) id = ground (arith, contains-keep old xs id, text_eq_iff id x)

-- The nodes that are conditional in the end are exactly those that the edges lead to, in any number
-- of steps, from a node with an `includeWhen` of its own: what depends on a conditional node is
-- conditional, and nothing else becomes so.
pub propagate_iff :
    (edges : List DagEdge) (nodes : List DagNode) (id : Text)
    → has_node id nodes ≡ true
    → (conditional id (propagate edges nodes) ≡ true) ↔ Reach edges (conditional_ids nodes) id
unfolding propagate
propagate_iff edges nodes id h =
    let roots = conditional_ids nodes in
    let found = reachable_from edges roots (insert_all roots []) in
    let (to, from) =
      reachable_from_iff edges roots (insert_all roots []) id
        (λ u. contains-insert_all roots [] u ∙ (unfold contains in refl)) in
    let marked = conditional-mark_all (keep (λ v. not (contains v roots)) found) nodes id in
    let kept = contains-keep roots found id in
    let own = contains-conditional_ids nodes id in
    (
      λ m. elim (Bool-cases (contains id roots)) [
        | inl e ↦ Reach.root e
        | inr e ↦ to (ground arith)
      ],
      λ d. ground (arith, from d),
    )
