-- ===== src/NodeState/Coverage.antt =====
-- The state map against its declarative reading: who has an entry, and which one.
use kro_ui.Prelude.{
  Bool, true, false, not, ◌&&◌, Option, none, some, List, [], ◌∷◌, ◌++◌, find?, if◌then◌else◌, ◌≡◌,
  refl, ap, ◌∙◌, sym, arith, Bool-cases, Option-cases, inl, inr,
}
use kro_ui.Prelude.Text.{Text, text_eq, text_eq_iff}
use kro_ui.Prelude.Sets.{contains}
use kro_ui.Kube.{K8sObject}
use kro_ui.Dag.{DagNode}
use kro_ui.NodeState.{NodeLiveState, NodeStateEntry, NodeStateMap, global_state}
use kro_ui.NodeState.Entries.{
  object_prototype, state_of, has_entry, is_in, is_empty_text, node_id_label, child_entry, observe,
  observe_all, absent_entry, has_live_state, enumerate, enumerate_all, build_node_state_map,
}

abbrev or_first : Option NodeStateEntry → Option NodeStateEntry → Option NodeStateEntry
or_first none y = y
or_first (some e) y = some e

-- The strings that can be keys of the result: not empty, and no property of every object.
abbrev pub nameable : Text → Bool
nameable id = not (is_empty_text id) && not (contains id object_prototype)

has_entry-state_of :
    (id : Text) (m : NodeStateMap)
    → has_entry id m ≡ true
    → (e : NodeStateEntry) × (state_of id m ≡ some e)
unfolding has_entry state_of
has_entry-state_of id [] h = cc
has_entry-state_of id ((k, e) ∷ m) h = elim (Bool-cases (text_eq k id)) [
  | inl q ↦ (e, rw q)
  | inr q ↦ let (e', f) = has_entry-state_of id m (rw q at h) in (e', rw q f)
]

state_of-none : (id : Text) (m : NodeStateMap) → has_entry id m ≡ false → state_of id m ≡ none
unfolding has_entry state_of
state_of-none id [] h = refl
state_of-none id ((k, e) ∷ m) h = ground (arith, state_of-none id m)

state_of-append :
    (id k : Text) (e : NodeStateEntry) (m : NodeStateMap)
    → state_of id (m ++ (k, e) ∷ [])
      ≡ or_first (state_of id m) (if text_eq k id then some e else none)
unfolding state_of
state_of-append id k e [] = refl
state_of-append id k e ((j, f) ∷ m) = ground (arith, state_of-append id k e m)

-- A guarded insertion, as both loops make it.
offered : Bool → Text → NodeStateEntry → Text → Option NodeStateEntry
offered live k e id = if live && nameable k && text_eq k id then some e else none

insert_lem :
    (live : Bool) (id k : Text) (e : NodeStateEntry) (m : NodeStateMap)
    → state_of id (
        if not live
        then m
        else if is_empty_text k
        then m
        else if is_in k m
        then m
        else m ++ (k, e) ∷ [])
      ≡ or_first (state_of id m) (offered live k e id)
unfolding is_in offered
insert_lem live id k e m = ground (
  arith,
  state_of-append id k e m,
  text_eq_iff k id,
  has_entry-state_of k m,
  Option-cases (state_of id m),
)

or_first_assoc :
    (x y z : Option NodeStateEntry) → or_first (or_first x y) z ≡ or_first x (or_first y z)
or_first_assoc none y z = refl
or_first_assoc (some e) y z = refl

module _ (global : NodeLiveState) (id : Text) where
  from_children : List K8sObject → Option NodeStateEntry
  from_children [] = none
  from_children (c ∷ cs) =
      or_first (offered true (node_id_label c) (child_entry global c) id) (from_children cs)

  from_nodes : List DagNode → Option NodeStateEntry
  from_nodes [] = none
  from_nodes (n ∷ ns) =
      or_first (offered (has_live_state n.node_type) n.id (absent_entry global n) id)
        (from_nodes ns)

  or_first-none : (x : Option NodeStateEntry) → or_first x none ≡ x
  or_first-none none = refl
  or_first-none (some e) = refl

  observe_all_lem :
      (m : NodeStateMap) (cs : List K8sObject)
      → state_of id (observe_all global m cs) ≡ or_first (state_of id m) (from_children cs)
  unfolding observe_all observe from_children
  observe_all_lem m [] = sym (or_first-none (state_of id m))
  observe_all_lem m (c ∷ cs) =
      observe_all_lem (observe global m c) cs
      ∙ ap (λ x. or_first x (from_children cs))
          (insert_lem true id (node_id_label c) (child_entry global c) m)
      ∙ or_first_assoc (state_of id m) _ (from_children cs)

  enumerate_all_lem :
      (m : NodeStateMap) (ns : List DagNode)
      → state_of id (enumerate_all global m ns) ≡ or_first (state_of id m) (from_nodes ns)
  unfolding enumerate_all enumerate from_nodes
  enumerate_all_lem m [] = sym (or_first-none (state_of id m))
  enumerate_all_lem m (n ∷ ns) =
      enumerate_all_lem (enumerate global m n) ns
      ∙ ap (λ x. or_first x (from_nodes ns))
          (insert_lem (has_live_state n.node_type) id n.id (absent_entry global n) m)
      ∙ or_first_assoc (state_of id m) _ (from_nodes ns)

  -- The first child with the label, and else the first node with the id that has a live state.
  abbrev pub first_child : List K8sObject → Option K8sObject
  first_child = find? (λ c. text_eq (node_id_label c) id)

  abbrev pub first_node : List DagNode → Option DagNode
  first_node = find? (λ n. has_live_state n.node_type && text_eq n.id id)

  abbrev pub expected_entry : List K8sObject → List DagNode → Option NodeStateEntry
  expected_entry cs ns = elim (nameable id) [
    | false ↦ none
    | true ↦ elim (first_child cs) [
      | some c ↦ some (child_entry global c)
      | none ↦ elim (first_node ns) [ some n ↦ some (absent_entry global n) | none ↦ none ]
    ]
  ]

  from_children_lem :
      (cs : List K8sObject)
      → from_children cs ≡ elim (nameable id) [
        | false ↦ none
        | true ↦ elim (first_child cs) [ some c ↦ some (child_entry global c) | none ↦ none ]
      ]
  unfolding from_children offered
  from_children_lem [] = ground arith
  from_children_lem (c ∷ cs) =
      ground (arith, from_children_lem cs, text_eq_iff (node_id_label c) id)

  from_nodes_lem :
      (ns : List DagNode)
      → from_nodes ns ≡ elim (nameable id) [
        | false ↦ none
        | true ↦ elim (first_node ns) [ some n ↦ some (absent_entry global n) | none ↦ none ]
      ]
  unfolding from_nodes offered
  from_nodes_lem [] = ground arith
  from_nodes_lem (n ∷ ns) = ground (arith, from_nodes_lem ns, text_eq_iff n.id id)

-- The entry of every id in the state map: that of the first child whose node-id label is the id,
-- whatever later children say; without such a child that of the first node with the id, if the
-- node is neither the root nor a state store; and none for the empty id, for the name of a property
-- that every object has, and where there is neither child nor node.
pub build_node_state_map_entries :
    (instance_cr : K8sObject) (children : List K8sObject) (nodes : List DagNode) (id : Text)
    → state_of id (build_node_state_map instance_cr children nodes)
      ≡ expected_entry (global_state instance_cr) id children nodes
unfolding build_node_state_map state_of
build_node_state_map_entries instance_cr children nodes id =
    let g = global_state instance_cr in
    ground (
      arith,
      enumerate_all_lem g id (observe_all g [] children) nodes,
      observe_all_lem g id [] children,
      from_children_lem g id children,
      from_nodes_lem g id nodes,
    )
