-- ===== src/Format/Tests.antt =====
-- The theorems on the views' fields at concrete objects.
use kro_ui.Prelude.{[], ◌∷◌, ◌++◌, ◌≡◌, ◌≢◌, ◌↔◌, ◌⊎◌, refl, any, true, false}
use kro_ui.Prelude.Text.{Text, codes, text_eq}
use kro_ui.Json.{str, obj, arr, nil, cons, end, field, get, prop, elements}
use kro_ui.Kube.{K8sObject}
use kro_ui.Health.{InstanceHealthState, is_unhealthy, extract_instance_health, valid_conditions}
use kro_ui.Health.Table.{first_ready, status_is, has_failed, conditions_of}
use kro_ui.Format.{extract_ready_status, short_account, abbreviate_context}
use kro_ui.Format
use kro_ui.Format.Agreement.{extract_ready_status-extract_instance_health}
use kro_ui.Format.Context.{IsEks, IsShort, abbreviate_context_lem}

abbrev failed_cr : K8sObject
failed_cr =
    field (codes "status")
      (obj (
        field (codes "conditions")
          (arr (
            cons
              (obj (
                field (codes "type") (str (codes "Ready"))
                  (field (codes "status") (str (codes "False")) end)))
              nil))
          end))
      end

extract_ready_status-extract_instance_health_example :
    ((extract_ready_status failed_cr).state ≢ Format.reconciling)
    × ((extract_ready_status failed_cr).state ≡ Format.ready
        ↔ ((extract_instance_health failed_cr).state ≡ InstanceHealthState.ready))
    × ((extract_ready_status failed_cr).state ≡ Format.error
        ↔ (status_is (codes "False") (first_ready (conditions_of failed_cr)) ≡ true))
    × ((extract_ready_status failed_cr).state ≡ Format.error
        → (extract_instance_health failed_cr).state ≡ InstanceHealthState.error)
    × ((extract_instance_health failed_cr).state ≡ InstanceHealthState.error
        → ((extract_ready_status failed_cr).state ≡ Format.error)
          ⊎ (any is_unhealthy (conditions_of failed_cr) ≡ true)
          ⊎ ((has_failed (first_ready (conditions_of failed_cr)) ≡ true)
              × (status_is (codes "False") (first_ready (conditions_of failed_cr)) ≡ false)))
unfolding get text_eq valid_conditions prop elements
extract_ready_status-extract_instance_health_example =
    extract_ready_status-extract_instance_health failed_cr refl refl

abbrev context : Text
context = codes "arn:aws:eks:us-west-2:319279230668:cluster/krombat"

abbreviate_context_lem_example :
    (((account : Text) × (name : Text) × (short : Text) × IsEks context account name
        × IsShort account short
        × (abbreviate_context context ≡ short ++ 47 ∷ name))
      ⊎ (((account name : Text) → ¬ IsEks context account name)
          × (abbreviate_context context ≡ context)))
    × ((abbreviate_context context ≡ []) ↔ (context ≡ []))
abbreviate_context_lem_example = abbreviate_context_lem context
