-- ===== src/Health/Erroring.antt =====
-- web/src/lib/format.ts: buildTopErroringRGDs, the RGDs with the most instances in error.
pub mod Ranked
use kro_ui.Prelude.{ℕ, ◌+◌, Bool, true, false, List, [], ◌∷◌, map, or_else, if◌then◌else◌}
use kro_ui.Prelude.Text.{Text}
use kro_ui.Prelude.Maps.{find_key, put}
use kro_ui.Prelude.Ranking.{top_entries}
use kro_ui.Health.{InstanceHealthState, error}
use kro_ui.Health.Summary.{InstanceSummary, health_from_summary}

pub record TopErroringRgd : Type 0 where
  pub rgd_name : Text
  pub error_count : ℕ

abbrev pub is_error_state : InstanceHealthState → Bool
is_error_state error = true
is_error_state _ = false

-- The loop over the items, with the map of the counts.
unfoldable pub count_errors : List InstanceSummary → List (Text × ℕ) → List (Text × ℕ)
count_errors [] counts = counts
count_errors (item ∷ items) counts = count_errors items (
    if is_error_state (health_from_summary item)
    then put item.rgd_name (or_else (find_key item.rgd_name counts) 0 + 1) counts
    else counts)

abbrev pub top_entry : Text × ℕ → TopErroringRgd
top_entry (name, count) = record { rgd_name = name; error_count = count }

unfoldable pub build_top_erroring_rgds : List InstanceSummary → ℕ → List TopErroringRgd
build_top_erroring_rgds items n = map top_entry (top_entries n (count_errors items []))
