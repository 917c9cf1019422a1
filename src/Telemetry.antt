-- ===== src/Telemetry.antt =====
-- web/src/lib/telemetry.ts: the counts of the telemetry panel of an instance.
-- The ages of the panel format the difference to the clock, and stand aside.
pub mod Counts
mod Tests
use kro_ui.Prelude.{
  ℕ, ◌+◌, Bool, true, false, ◌||◌, ◌&&◌, not, none, some, Option, List, [], ◌∷◌, if◌then◌else◌,
  length,
}
use kro_ui.Prelude.Text.{Text, codes}
use kro_ui.Json.{Json, obj, arr, get, prop, elements, as_array, is_string}
use kro_ui.Kube.{K8sObject}
use kro_ui.NodeState.{
  NodeLiveState, alive, reconciling, error, pending, not_found, NodeStateEntry, NodeStateMap,
}

pub record ChildHealthSummary : Type 0 where
  pub healthy : ℕ
  pub total : ℕ
  pub has_error : Bool

abbrev pub is_healthy : NodeLiveState → Bool
is_healthy alive = true
is_healthy reconciling = true
is_healthy _ = false

abbrev pub is_error : NodeLiveState → Bool
is_error error = true
is_error _ = false

-- The loop over the entries, with `healthy` and `hasError`.
unfoldable pub count_entries : NodeStateMap → ℕ → Bool → ℕ × Bool
count_entries [] healthy has_error = (healthy, has_error)
count_entries ((id, e) ∷ m) healthy has_error =
    count_entries m (if is_healthy e.state then healthy + 1 else healthy)
      (if is_error e.state then true else has_error)

unfoldable pub count_healthy_children : NodeStateMap → ChildHealthSummary
count_healthy_children m =
    let counted = count_entries m 0 false in
    record { healthy = counted.0; total = length m; has_error = counted.1 }

-- A reduction that counts the elements that pass a test.
unfoldable pub count_if : (Json → Bool) → ℕ → List Json → ℕ
count_if p count [] = count
count_if p count (v ∷ vs) = count_if p (if p v then count + 1 else count) vs

abbrev pub is_warning : Json → Bool
is_warning event = is_string (prop (codes "type") (some event)) (codes "Warning")

-- The entries of `items` of the event list, which are objects, as their type says.
unfoldable pub count_warning_events : Option Json → ℕ
count_warning_events events = count_if is_warning 0 (as_array (prop (codes "items") events))

-- A condition other than Ready whose status is False or Unknown.
abbrev pub is_failed : Json → Bool
is_failed c =
    not (is_string (prop (codes "type") (some c)) (codes "Ready"))
    && (is_string (prop (codes "status") (some c)) (codes "False")
        || is_string (prop (codes "status") (some c)) (codes "Unknown"))

unfoldable pub count_failed_conditions : K8sObject → ℕ
count_failed_conditions cr =
    count_if is_failed 0 (as_array (prop (codes "conditions") (get (codes "status") cr)))
