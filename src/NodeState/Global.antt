-- ===== src/NodeState/Global.antt =====
-- Precedence: of the instance's conditions in `globalState`, of a child's own conditions.
use kro_ui.Prelude.{Bool, true, false, ◌||◌, Option, List, ◌≡◌, ◌≢◌, arith, ◌↔◌, ◌⊎◌, find?}
use kro_ui.Prelude.Text.{codes}
use kro_ui.Json.{Json, get, prop, is_string}
use kro_ui.Kube.{K8sObject, is_terminating}
use kro_ui.NodeState.{
  NodeLiveState, alive, reconciling, error, get_conditions, has_condition, is_condition,
  derive_child_state, cr_state, is_waiting, global_state, found, field_is,
}
use kro_ui.NodeState.Entries.{child_state}

-- The signals of the instance.
abbrev pub in_progress : K8sObject → Bool
in_progress cr = is_string (prop (codes "state") (get (codes "status") cr)) (codes "IN_PROGRESS")

abbrev pub progressing : K8sObject → Bool
progressing cr =
    has_condition (get_conditions cr) (codes "Progressing") (codes "True")
    || has_condition (get_conditions cr) (codes "GraphProgressing") (codes "True")

abbrev pub not_ready : K8sObject → Bool
not_ready cr = has_condition (get_conditions cr) (codes "Ready") (codes "False")

-- The global state is an error exactly when the instance is not ready, kro does not report
-- progress in any of its three ways, and no dependency is waited for; it is reconciling exactly when
-- there is progress, or the instance is not ready because it waits; and it is alive otherwise.
pub global_state_iff :
    (cr : K8sObject)
    → ((global_state cr ≡ error) ↔ (
        (not_ready cr ≡ true)
        × (in_progress cr ≡ false)
        × (progressing cr ≡ false)
        × (is_waiting (get_conditions cr) ≡ false)))
      × ((global_state cr ≡ reconciling) ↔ (
          (in_progress cr ≡ true)
          ⊎ (progressing cr ≡ true)
          ⊎ ((not_ready cr ≡ true) × (is_waiting (get_conditions cr) ≡ true))))
      × ((global_state cr ≡ alive)
          ↔ ((not_ready cr ≡ false) × (in_progress cr ≡ false) × (progressing cr ≡ false)))
unfolding global_state cr_state
global_state_iff cr = ground arith

-- What a child's own conditions say.
abbrev pub is_up : List Json → Bool
is_up cs =
    has_condition cs (codes "Available") (codes "True")
    || has_condition cs (codes "Ready") (codes "True")

abbrev pub is_down : List Json → Bool
is_down cs =
    has_condition cs (codes "Ready") (codes "False")
    || has_condition cs (codes "Available") (codes "False")

abbrev pub rollout : List Json → Option Json
rollout = find? (is_condition (codes "Progressing") (codes "True"))

-- A child shows an error exactly when it is being deleted, or the graph as a whole has failed, or
-- its own conditions say that it is down and none says that it is up. It shows as reconciling
-- exactly when none of this holds, it is neither up nor down, and the first Progressing=True among
-- its conditions has a reason other than a finished rollout. Else it shows as alive.
pub child_state_iff :
    (global : NodeLiveState) (c : K8sObject)
    → ((child_state global c ≡ error) ↔ (
        (is_terminating c ≡ true)
        ⊎ (global ≡ error)
        ⊎ ((is_up (get_conditions c) ≡ false) × (is_down (get_conditions c) ≡ true))))
      × ((child_state global c ≡ reconciling) ↔ (
          (is_terminating c ≡ false)
          × (global ≢ error)
          × (is_up (get_conditions c) ≡ false)
          × (is_down (get_conditions c) ≡ false)
          × (found (rollout (get_conditions c)) ≡ true)
          × (field_is (rollout (get_conditions c)) (codes "reason") (codes "NewReplicaSetAvailable")
              ≡ false)))
      × ((child_state global c ≡ error)
          ⊎ (child_state global c ≡ reconciling)
          ⊎ (child_state global c ≡ alive))
unfolding child_state derive_child_state
child_state_iff global c = ground arith
