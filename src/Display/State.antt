-- ===== src/Display/State.antt =====
-- The state that a view shows for the root.
use kro_ui.Prelude.{true, false, some, [], ◌∷◌, ◌≡◌, ◌≢◌, refl, arith, ◌↔◌}
use kro_ui.Prelude.Text.{Text}
use kro_ui.Dag.{instance_node, DagNode}
use kro_ui.NodeState.{alive, reconciling, error, pending, NodeStateMap}
use kro_ui.Display.{has_state, is_reconciling, is_error, root_state, node_state_for_node}

root_state_iff :
    (m : NodeStateMap)
    → ((root_state m ≡ reconciling) ↔ (has_state is_reconciling m ≡ true))
      × ((root_state m ≡ error)
          ↔ ((has_state is_reconciling m ≡ false) × (has_state is_error m ≡ true)))
      × ((root_state m ≡ alive)
          ↔ ((has_state is_reconciling m ≡ false) × (has_state is_error m ≡ false) × (m ≢ [])))
      × ((root_state m ≡ pending) ↔ (m ≡ []))
unfolding root_state
root_state_iff [] = (
  (λ h. ground arith, λ h. ground arith),
  (λ h. ground arith, λ h. ground arith),
  (λ h. ground arith, λ (h, k, n). absurd (n refl)),
  (λ h. refl, λ h. refl),
)
root_state_iff (e ∷ m) = (
  (λ h. ground arith, λ h. ground arith),
  (λ h. ground arith, λ h. ground arith),
  (λ h. (ground (arith, h), ground (arith, h), (λ e. ground (arith, e))), λ h. ground arith),
  (λ h. ground arith, λ h. ground arith),
)

-- The root is shown as reconciling exactly when some entry of the state map is, as an error exactly
-- when none is reconciling and some entry is an error, as alive exactly when there are entries and
-- none is reconciling or an error, and as pending exactly when the map is empty, whatever the kind of the root and the case conversion.
pub node_state_for_node_root :
    (lower : Text → Text) (node : DagNode) (m : NodeStateMap)
    → node.node_type ≡ instance_node
    → ((node_state_for_node lower node m ≡ some reconciling) ↔ (has_state is_reconciling m ≡ true))
      × ((node_state_for_node lower node m ≡ some error)
          ↔ ((has_state is_reconciling m ≡ false) × (has_state is_error m ≡ true)))
      × ((node_state_for_node lower node m ≡ some alive)
          ↔ ((has_state is_reconciling m ≡ false) × (has_state is_error m ≡ false) × (m ≢ [])))
      × ((node_state_for_node lower node m ≡ some pending) ↔ (m ≡ []))
node_state_for_node_root lower node m h =
    let e : node_state_for_node lower node m ≡ some (root_state m) =
      unfold node_state_for_node in rw h refl in
    let (p, q, l, r) = root_state_iff m in
    (
      (λ k. p.0 (cc), λ k. ground (arith, e, p.1 k)),
      (λ k. q.0 (cc), λ k. ground (arith, e, q.1 k)),
      (λ k. l.0 (cc), λ k. ground (arith, e, l.1 k)),
      (λ k. r.0 (cc), λ k. ground (arith, e, r.1 k)),
    )
