-- ===== src/Collection.antt =====
-- web/src/lib/collection.ts: whether an item of a forEach collection is ready.
pub mod Decision
mod Tests
use kro_ui.Prelude.{Bool, true, false, ◌||◌, Option, none, some, List, [], ◌∷◌, if◌then◌else◌}
use kro_ui.Prelude.Text.{Text, codes, text_eq}
use kro_ui.Json.{Json, get, prop, as_array, string_or_none}
use kro_ui.Kube.{K8sObject, listed}

abbrev pub failed_phases : List Text
failed_phases =
    codes "Failed"
    ∷ codes "Error"
    ∷ codes "CrashLoopBackOff"
    ∷ codes "Unknown"
    ∷ codes "Terminating"
    ∷ codes "Pending"
    ∷ []

abbrev pub ready_phases : List Text
ready_phases =
    codes "Running"
    ∷ codes "Active"
    ∷ codes "Succeeded"
    ∷ codes "Bound"
    ∷ codes "Complete"
    ∷ codes "Available"
    ∷ []

-- What the type and the status of one condition decide; `none` goes on to the next condition.
abbrev pub verdict : Option Text → Option Text → Option Bool
verdict (some t) (some st) =
    if text_eq t (codes "Ready") || text_eq t (codes "Available")
    then if text_eq st (codes "False")
      then some false
      else if text_eq st (codes "True")
      then some true
      else none
    else none
verdict _ _ = none

unfoldable pub decide : Json → Option Bool
decide c =
    verdict (string_or_none (prop (codes "type") (some c)))
      (string_or_none (prop (codes "status") (some c)))

-- The loop over the conditions, which returns at the first that decides.
unfoldable pub first_decision : List Json → Bool
first_decision [] = true
first_decision (c ∷ cs) =
    let later = first_decision cs in elim (decide c) [ some b ↦ b | none ↦ later ]

unfoldable pub is_item_ready : K8sObject → Bool
is_item_ready item =
    let phase = string_or_none (prop (codes "phase") (get (codes "status") item)) in
    if listed phase failed_phases
    then false
    else if listed phase ready_phases
    then true
    else first_decision (as_array (prop (codes "conditions") (get (codes "status") item)))
