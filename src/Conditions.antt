-- ===== src/Conditions.antt =====
-- web/src/lib/conditions.ts: the polarity of conditions and their labels.
use kro_ui.Prelude.{Bool, List, [], ◌∷◌, if◌then◌else◌}
use kro_ui.Prelude.Text.{Text, codes, text_eq}
use kro_ui.Prelude.Sets.{contains}

abbrev pub negation_polarity_conditions : List Text
negation_polarity_conditions = codes "ReconciliationSuspended" ∷ []

unfoldable pub is_healthy_condition : Text → Text → Bool
unfolding contains
is_healthy_condition type status =
    if contains type negation_polarity_conditions
    then text_eq status (codes "False")
    else text_eq status (codes "True")

unfoldable pub condition_status_label : Text → Text → Text
unfolding contains
condition_status_label type status =
    let inverted = contains type negation_polarity_conditions in
    if text_eq status (codes "True")
    then if inverted then codes "Failed" else codes "Healthy"
    else if text_eq status (codes "False")
    then if inverted then codes "Healthy" else codes "Failed"
    else if text_eq status (codes "Unknown")
    then codes "Pending"
    else status
