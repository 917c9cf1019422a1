-- ===== src/Telemetry/Tests.antt =====
-- The theorem on the counts at a concrete state map.
use kro_ui.Prelude.{◌+◌, false, none, [], ◌∷◌, ◌≡◌, ◌↔◌}
use kro_ui.Prelude.Text.{codes}
use kro_ui.NodeState.{NodeLiveState, alive, error, NodeStateEntry, NodeStateMap}
use kro_ui.Telemetry.{is_error, count_healthy_children}
use kro_ui.Telemetry.Counts.{tally, is_missing, count_healthy_children_lem}

abbrev entry : NodeLiveState → NodeStateEntry
entry s = record {
  state = s;
  kind = codes "Pod";
  name = [];
  namespace = [];
  group = [];
  version = codes "v1";
  terminating = false;
  finalizers = none;
  deletion_timestamp = none;
}

abbrev states : NodeStateMap
states = (codes "web", entry alive) ∷ (codes "db", entry error) ∷ []

count_healthy_children_lem_example :
    ((count_healthy_children states).healthy + tally is_error states + tally is_missing states
      ≡ (count_healthy_children states).total)
    × (((count_healthy_children states).has_error ≡ false) ↔ (tally is_error states ≡ 0))
    × ((count_healthy_children states).healthy ≡ (count_healthy_children states).total
        → (count_healthy_children states).has_error ≡ false)
count_healthy_children_lem_example = count_healthy_children_lem states
