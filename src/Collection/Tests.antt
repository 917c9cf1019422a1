-- ===== src/Collection/Tests.antt =====
-- The theorem on readiness at a concrete item.
use kro_ui.Prelude.{true, false, ◌≡◌, refl, ◌↔◌, ◌⊎◌}
use kro_ui.Prelude.Text.{Text, codes, text_eq}
use kro_ui.Prelude.Sets.{contains}
use kro_ui.Json.{Json, str, obj, arr, nil, cons, end, field, get, prop, elements}
use kro_ui.Kube.{K8sObject, listed}
use kro_ui.NodeState.{get_conditions}
use kro_ui.Collection.{failed_phases, ready_phases, is_item_ready, decide, first_decision}
use kro_ui.Collection.Decision.{FailsFirst, phase_of, is_item_ready_iff}

abbrev condition : Text → Text → Json
condition type status =
    obj (field (codes "type") (str type) (field (codes "status") (str status) end))

-- Ready=True in front of Available=False.
abbrev item : K8sObject
item =
    field (codes "status")
      (obj (
        field (codes "conditions")
          (arr (
            cons (condition (codes "Ready") (codes "True"))
              (cons (condition (codes "Available") (codes "False")) nil)))
          end))
      end

-- The first condition decides.
item_is_ready : is_item_ready item ≡ true
unfolding is_item_ready first_decision decide get prop elements text_eq contains
item_is_ready = refl

is_item_ready_iff_example : (is_item_ready item ≡ false) ↔ (
    (listed (phase_of item) failed_phases ≡ true)
    ⊎ ((listed (phase_of item) ready_phases ≡ false) × FailsFirst (get_conditions item)))
is_item_ready_iff_example = is_item_ready_iff item
