-- ===== src/Health/Tests.antt =====
-- The theorems on health at concrete instances.
use kro_ui.Prelude.{
  ℕ, ◌-◌, ◌≤◌, ◌<◌, true, false, ◌&&◌, Option, none, some, List, [], ◌∷◌, ◌≡◌, ◌≢◌, ◌↔◌, ◌⊎◌,
  length, All, is_some,
}
use kro_ui.Prelude.Text.{Text, codes}
use kro_ui.Prelude.Sets.{distinct}
use kro_ui.Prelude.Maps.{find_key, keys_of}
use kro_ui.Prelude.Sort.{IsDescending}
use kro_ui.Json.{Json, num, str, obj, arr, nil, cons, end, field}
use kro_ui.Kube.{K8sObject}
use kro_ui.Health.{reconciling, ready, degraded, extract_instance_health, apply_degraded_state}
use kro_ui.Health.Table.{
  is_in_progress, conditions_of, HealthTable, extract_instance_health-HealthTable,
}
use kro_ui.Health.Summary.{
  aggregate_health, InstanceSummary, health_from_summary, build_health_distribution,
}
use kro_ui.Health.Summary.Counts.{health_state, HasCounts, aggregate_health-HasCounts}
use kro_ui.Health.Erroring.{build_top_erroring_rgds}
use kro_ui.Health.Erroring.Ranked.{errors_of, entries_of, build_top_erroring_rgds_lem}
use kro_ui.Health.Revisions.{resource_array, revision_number, compute_revision_node_diff}
use kro_ui.Health.Revisions.Exact.{DiffResult, compute_revision_node_diff-DiffResult}
use kro_ui.Health.Age.{format_age}
use kro_ui.Health.Age.Units.{AgeOf, format_age-AgeOf}

abbrev condition : Text → Text → Json
condition type status =
    obj (field (codes "type") (str type) (field (codes "status") (str status) end))

abbrev ready_cr : K8sObject
ready_cr =
    field (codes "status")
      (obj (
        field (codes "conditions") (arr (cons (condition (codes "Ready") (codes "True")) nil)) end))
      end

extract_instance_health-HealthTable_example :
    (((is_in_progress ready_cr ≡ true) × ((extract_instance_health ready_cr).state ≡ reconciling))
      ⊎ ((is_in_progress ready_cr ≡ false)
          × HealthTable (extract_instance_health ready_cr).state (conditions_of ready_cr)))
    × (((apply_degraded_state (extract_instance_health ready_cr) true).state ≡ degraded)
        ↔ (((extract_instance_health ready_cr).state ≡ ready) × (true ≡ true)))
extract_instance_health-HealthTable_example = extract_instance_health-HealthTable ready_cr true

abbrev summary : Text → Text → InstanceSummary
summary rgd status = record {
  name = codes "a";
  namespace = codes "b";
  kind = codes "App";
  rgd_name = rgd;
  state = codes "ACTIVE";
  ready = status;
  message = none;
  creation_timestamp = [];
}

abbrev summaries : List InstanceSummary
summaries =
    summary (codes "web") (codes "False")
    ∷ summary (codes "db") (codes "False")
    ∷ summary (codes "web") (codes "True")
    ∷ summary (codes "db") (codes "False")
    ∷ []

aggregate_health-HasCounts_example :
    HasCounts health_state (ready_cr ∷ end ∷ []) (aggregate_health (ready_cr ∷ end ∷ []))
    × ((aggregate_health (ready_cr ∷ end ∷ [])).degraded_count ≡ 0)
    × HasCounts health_from_summary summaries (build_health_distribution summaries)
    × ((build_health_distribution summaries).degraded_count ≡ 0)
    × ((build_health_distribution summaries).pending_count ≡ 0)
aggregate_health-HasCounts_example = aggregate_health-HasCounts (ready_cr ∷ end ∷ []) summaries

build_top_erroring_rgds_lem_example :
    ((q : Text)
      → ((find_key q (entries_of (build_top_erroring_rgds summaries 1))
            ≡ some (errors_of q summaries))
          × (0 < errors_of q summaries))
        ⊎ ((find_key q (entries_of (build_top_erroring_rgds summaries 1)) ≡ none)
            × ((errors_of q summaries ≡ 0)
                ⊎ ((length (build_top_erroring_rgds summaries 1) ≡ 1)
                    × All
                        (λ r. errors_of q summaries ≤ r.error_count)
                        (build_top_erroring_rgds summaries 1)))))
    × IsDescending (λ r. r.error_count) (build_top_erroring_rgds summaries 1)
    × (distinct (keys_of (entries_of (build_top_erroring_rgds summaries 1))) ≡ true)
    × (length (build_top_erroring_rgds summaries 1) ≤ 1)
build_top_erroring_rgds_lem_example = build_top_erroring_rgds_lem summaries 1

abbrev revision : Text → ℕ → K8sObject
revision id n =
    field (codes "spec")
      (obj (
        field (codes "revision") (num n)
          (field (codes "resources") (arr (cons (obj (field (codes "id") (str id) end)) nil)) end)))
      end

compute_revision_node_diff-DiffResult_example :
    ((compute_revision_node_diff (revision (codes "web") 1) (revision (codes "db") 2) ≡ none) ↔ (
      (is_some (resource_array (revision (codes "web") 1))
        && is_some (resource_array (revision (codes "db") 2)))
      ≡ false))
    × DiffResult
        (resource_array (revision (codes "web") 1))
        (resource_array (revision (codes "db") 2))
        (revision_number (revision (codes "web") 1))
        (revision_number (revision (codes "db") 2))
        (compute_revision_node_diff (revision (codes "web") 1) (revision (codes "db") 2))
compute_revision_node_diff-DiffResult_example =
    compute_revision_node_diff-DiffResult (revision (codes "web") 1) (revision (codes "db") 2)

-- A printer that writes a number as one code unit, and a parser that reads lengths.
abbrev strokes : ℕ → Text
strokes n = n ∷ []

abbrev read_length : Text → Option ℕ
read_length s = some (length s)

format_age-AgeOf_example :
    (((codes "ab" ≡ []) ⊎ (read_length (codes "ab") ≡ none))
      × (format_age strokes read_length 90002 (codes "ab") ≡ codes "Unknown"))
    ⊎ ((t : ℕ) × (codes "ab" ≢ [])
        × (read_length (codes "ab") ≡ some t)
        × (((90002 < t) × (format_age strokes read_length 90002 (codes "ab") ≡ codes "just now"))
            ⊎ ((t ≤ 90002)
                × AgeOf strokes (90002 - t) (format_age strokes read_length 90002 (codes "ab")))))
format_age-AgeOf_example = format_age-AgeOf strokes read_length 90002 (codes "ab")
