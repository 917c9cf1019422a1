-- ===== src/Health/Summary.antt =====
-- web/src/lib/format.ts: the counts of health states, of instances and of their summaries.
pub mod Counts
use kro_ui.Prelude.{ℕ, ◌+◌, Option, List, [], ◌∷◌, if◌then◌else◌}
use kro_ui.Prelude.Text.{Text, codes, text_eq}
use kro_ui.Kube.{K8sObject}
use kro_ui.Health.{
  InstanceHealthState, ready, degraded, reconciling, error, pending, unknown,
  extract_instance_health,
}

pub record HealthSummary : Type 0 where
  pub total : ℕ
  pub ready_count : ℕ
  pub degraded_count : ℕ
  pub error_count : ℕ
  pub reconciling_count : ℕ
  pub pending_count : ℕ
  pub unknown_count : ℕ

abbrev pub empty_summary : HealthSummary
empty_summary = record {
  total = 0;
  ready_count = 0;
  degraded_count = 0;
  error_count = 0;
  reconciling_count = 0;
  pending_count = 0;
  unknown_count = 0;
}

-- `summary.total++` and `summary[state]++`
abbrev pub count_state : HealthSummary → InstanceHealthState → HealthSummary
count_state s ready = record s { total = s.total + 1; ready_count = s.ready_count + 1 }
count_state s degraded = record s { total = s.total + 1; degraded_count = s.degraded_count + 1 }
count_state s error = record s { total = s.total + 1; error_count = s.error_count + 1 }
count_state s reconciling = record s {
  total = s.total + 1;
  reconciling_count = s.reconciling_count + 1;
}
count_state s pending = record s { total = s.total + 1; pending_count = s.pending_count + 1 }
count_state s unknown = record s { total = s.total + 1; unknown_count = s.unknown_count + 1 }

-- The loop of both aggregations, over the state that each item has.
unfoldable pub count_all {ℓ} :
    {A : Type ℓ} → (A → InstanceHealthState) → HealthSummary → List A → HealthSummary
count_all state s [] = s
count_all state s (item ∷ items) = count_all state (count_state s (state item)) items

unfoldable pub aggregate_health : List K8sObject → HealthSummary
aggregate_health items =
    count_all (λ item. (extract_instance_health item).state) empty_summary items

pub record InstanceSummary : Type 0 where
  pub name : Text
  pub namespace : Text
  pub kind : Text
  pub rgd_name : Text
  pub state : Text
  pub ready : Text
  pub message : Option Text
  pub creation_timestamp : Text

unfoldable pub health_from_summary : InstanceSummary → InstanceHealthState
health_from_summary item =
    if text_eq item.state (codes "IN_PROGRESS")
    then reconciling
    else if text_eq item.ready (codes "True")
    then ready
    else if text_eq item.ready (codes "False")
    then error
    else unknown

unfoldable pub build_health_distribution : List InstanceSummary → HealthSummary
build_health_distribution items = count_all health_from_summary empty_summary items
