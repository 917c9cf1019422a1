-- ===== src/Events/Tests.antt =====
-- The theorems on events at a concrete stream.
use kro_ui.Prelude.{ℕ, true, any, Option, none, some, List, [], ◌∷◌, ◌≡◌}
use kro_ui.Prelude.Text.{Text, codes, text_eq}
use kro_ui.Prelude.Sets.{contains, distinct}
use kro_ui.Events.{KubeEvent, key_of, group_by_instance, detect_anomalies}
use kro_ui.Events.Grouping.{group_for, group_names, events_of, group_by_instance_lem}
use kro_ui.Events.Anomalies.{
  reports_stuck, reports_burst, stuck_with, burst_with, detect_anomalies_iff,
}

abbrev event : Text → Text → KubeEvent
event name reason = record {
  metadata = record { name = codes "e"; namespace = codes "default"; uid = codes "1" };
  involved_object = record {
    kind = codes "App";
    name = name;
    namespace = codes "default";
    uid = codes "2";
    api_version = none;
  };
  reason = reason;
  message = [];
  type = codes "Normal";
  last_timestamp = codes "t";
  first_timestamp = none;
  count = none;
  source = none;
  reporting_component = none;
}

abbrev stream : List KubeEvent
stream =
    event (codes "a") (codes "Progressing")
    ∷ event (codes "b") (codes "Ready")
    ∷ event (codes "a") (codes "Progressing")
    ∷ []

-- A clock that reads every date as the same time, and a printer of counts.
abbrev clock : Text → Option ℕ
clock s = some 1000

abbrev printed : ℕ → Text
printed n = codes "many"

group_by_instance_lem_example :
    (distinct (group_names (group_by_instance stream)) ≡ true)
    × ((k : Text)
        → (contains k (group_names (group_by_instance stream))
            ≡ any (λ e. text_eq (key_of e) k) stream)
          × (group_for k (group_by_instance stream) ≡ events_of k stream))
group_by_instance_lem_example = group_by_instance_lem stream

detect_anomalies_iff_example :
    (reports_stuck (codes "a") 6 (detect_anomalies clock printed 2000 stream)
      ≡ stuck_with clock printed 2000 6 (events_of (codes "a") stream))
    × (reports_burst (codes "a") 6 (detect_anomalies clock printed 2000 stream)
        ≡ burst_with clock printed 2000 6 (events_of (codes "a") stream))
detect_anomalies_iff_example = detect_anomalies_iff clock printed 2000 stream (codes "a") 6
