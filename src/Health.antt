-- ===== src/Health.antt =====
-- web/src/lib/format.ts: the health of instances. `reason` and `message` of a condition are strings
-- or absent, as their types say.
pub mod Table
pub mod Summary
pub mod Erroring
pub mod Revisions
pub mod Age
mod Tests
use kro_ui.Prelude.{
  ℕ, suc, Bool, true, false, not, ◌||◌, ◌&&◌, Option, none, some, List, [], ◌∷◌, ◌++◌, any, all,
  find?, if◌then◌else◌,
}
use kro_ui.Prelude.Text.{Text, codes, text_eq}
use kro_ui.Json.{Json, get, prop, as_array, as_string, string_or_none, is_string}
use kro_ui.Kube.{K8sObject}
use kro_ui.Conditions.{is_healthy_condition}

pub record K8sCondition : Type 0 where
  pub type : Text
  pub status : Text
  pub reason : Text
  pub message : Text

pub data InstanceHealthState : Type 0 where
  ready degraded reconciling error pending unknown : InstanceHealthState

pub record InstanceHealth : Type 0 where
  pub state : InstanceHealthState
  pub reason : Text
  pub message : Text

abbrev pub unknown_instance_health : InstanceHealth
unknown_instance_health = record { state = unknown; reason = []; message = [] }

-- The fields of a condition whose type and status are strings.
abbrev pub condition_of : Option Text → Option Text → Json → List K8sCondition
condition_of (some type) (some status) c =
    record {
      type = type;
      status = status;
      reason = as_string (prop (codes "reason") (some c));
      message = as_string (prop (codes "message") (some c));
    }
    ∷ []
condition_of _ _ c = []

-- `conditions.filter(isCondition)`
unfoldable pub valid_conditions : List Json → List K8sCondition
valid_conditions [] = []
valid_conditions (c ∷ cs) =
    condition_of (string_or_none (prop (codes "type") (some c)))
      (string_or_none (prop (codes "status") (some c))) c
    ++ valid_conditions cs

abbrev pub is_progressing : K8sCondition → Bool
is_progressing c =
    (text_eq c.type (codes "Progressing") || text_eq c.type (codes "GraphProgressing"))
    && text_eq c.status (codes "True")

abbrev pub is_ready_type : K8sCondition → Bool
is_ready_type c = text_eq c.type (codes "Ready")

abbrev pub is_unknown : K8sCondition → Bool
is_unknown c = text_eq c.status (codes "Unknown")

-- A condition other than Ready that is known and not in its healthy state.
unfoldable pub is_unhealthy : K8sCondition → Bool
is_unhealthy c = not (is_ready_type c || is_unknown c) && not (is_healthy_condition c.type c.status)

abbrev pub with_state : InstanceHealthState → K8sCondition → InstanceHealth
with_state s c = record { state = s; reason = c.reason; message = c.message }

-- What the Ready condition decides.
unfoldable pub ready_health : Option K8sCondition → Option InstanceHealth
ready_health none = none
ready_health (some c) =
    if is_healthy_condition (codes "Ready") c.status
    then some (with_state ready c)
    else if not (is_unknown c)
    then some (with_state error c)
    else none

abbrev pub or_health : Option InstanceHealth → InstanceHealth → InstanceHealth
or_health none later = later
or_health (some h) later = h

abbrev pub with_first : InstanceHealthState → Option K8sCondition → Option InstanceHealth
with_first s none = none
with_first s (some c) = some (with_state s c)

-- The steps in order, by the first progressing condition, the first Ready condition, the first
-- unhealthy one, and whether all are unknown.
unfoldable pub decided :
    Option K8sCondition → Option K8sCondition → Option K8sCondition → Bool → InstanceHealth
unfolding ready_health
decided progressing ready_condition unhealthy all_unknown =
    or_health (with_first reconciling progressing) (
      or_health (ready_health ready_condition) (
        or_health (with_first error unhealthy) (
          if all_unknown
          then record { state = pending; reason = []; message = [] }
          else unknown_instance_health)))

unfoldable pub health_of_conditions : List K8sCondition → InstanceHealth
health_of_conditions [] = unknown_instance_health
health_of_conditions (c ∷ cs) =
    decided (find? is_progressing (c ∷ cs)) (find? is_ready_type (c ∷ cs))
      (find? is_unhealthy (c ∷ cs)) (all is_unknown (c ∷ cs))

unfoldable pub extract_instance_health : K8sObject → InstanceHealth
extract_instance_health obj =
    let status = get (codes "status") obj in
    if is_string (prop (codes "state") status) (codes "IN_PROGRESS")
    then record {
      state = reconciling;
      reason = codes "InProgress";
      message = codes "kro is reconciling this instance";
    }
    else health_of_conditions (valid_conditions (as_array (prop (codes "conditions") status)))

abbrev pub is_ready_state : InstanceHealthState → Bool
is_ready_state ready = true
is_ready_state _ = false

unfoldable pub apply_degraded_state : InstanceHealth → Bool → InstanceHealth
apply_degraded_state health has_child_error =
    if is_ready_state health.state && has_child_error
    then record {
      state = degraded;
      reason = codes "ChildDegraded";
      message = codes "One or more child resources have errors while the CR is ready";
    }
    else health
