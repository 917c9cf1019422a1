-- ===== src/Events.antt =====
-- web/src/lib/events.ts: grouping of events by instance, and the detection of anomalies.
-- Date parsing and the printing of numbers are JavaScript's own: `time` is `new Date(s).getTime()`,
-- with `none` for an invalid date, on which every comparison is false, and `decimal` prints a count.
-- A `Map` from names to groups is the list of its entries in the order of insertion.
pub mod Grouping
pub mod Anomalies
mod Tests
use kro_ui.Prelude.{
  ℕ, ◌+◌, Bool, true, false, not, ◌||◌, ◌&&◌, Option, none, some, List, [], ◌∷◌, ◌++◌, ltb,
  if◌then◌else◌, length, keep, any,
}
use kro_ui.Prelude.Text.{Text, codes, text_eq}
use kro_ui.Prelude.Sets.{contains}
use kro_ui.Json.{Fields}

pub record ObjectReference : Type 0 where
  pub kind : Text
  pub name : Text
  pub namespace : Text
  pub uid : Text
  pub api_version : Option Text

pub record EventMetadata : Type 0 where
  pub name : Text
  pub namespace : Text
  pub uid : Text

pub record KubeEvent : Type 0 where
  pub metadata : EventMetadata
  pub involved_object : ObjectReference
  pub reason : Text
  pub message : Text
  pub type : Text
  pub last_timestamp : Text
  pub first_timestamp : Option Text
  pub count : Option ℕ
  pub source : Option Fields
  pub reporting_component : Option Text

pub data AnomalyType : Type 0 where
  stuck burst : AnomalyType

pub record Anomaly : Type 0 where
  pub type : AnomalyType
  pub instance_name : Text
  pub count : ℕ
  pub message : Text

abbrev pub condition_reasons : List Text
condition_reasons =
    codes "Ready"
    ∷ codes "NotReady"
    ∷ codes "ResourcesReady"
    ∷ codes "GraphResolved"
    ∷ codes "InstanceManaged"
    ∷ codes "ControllerReady"
    ∷ codes "KindReady"
    ∷ codes "ResourceGraphAccepted"
    ∷ codes "ConditionChanged"
    ∷ codes "Progressing"
    ∷ codes "Available"
    ∷ codes "Synced"
    ∷ codes "ReconcileSucceeded"
    ∷ []

abbrev pub is_condition_transition_event : KubeEvent → Bool
is_condition_transition_event event =
    text_eq event.type (codes "Normal") && contains event.reason condition_reasons

abbrev pub name_or_unknown : Text → Text
name_or_unknown [] = codes "(unknown)"
name_or_unknown (c ∷ name) = c ∷ name

abbrev pub key_of : KubeEvent → Text
key_of event = name_or_unknown event.involved_object.name

abbrev pub Groups : Type 0
Groups = List (Text × List KubeEvent)

-- The event joins the group of the key, or starts one at the end.
unfoldable pub add_event : Groups → Text → KubeEvent → Groups
add_event [] key event = (key, event ∷ []) ∷ []
add_event ((k, g) ∷ groups) key event =
    let later = add_event groups key event in
    if text_eq k key then (k, g ++ event ∷ []) ∷ groups else (k, g) ∷ later

unfoldable pub group_all : Groups → List KubeEvent → Groups
group_all groups [] = groups
group_all groups (event ∷ events) = group_all (add_event groups (key_of event) event) events

unfoldable pub group_by_instance : List KubeEvent → Groups
group_by_instance events = group_all [] events

abbrev pub ten_minutes_ms : ℕ
ten_minutes_ms = 600000

abbrev pub one_minute_ms : ℕ
one_minute_ms = 60000

abbrev pub stuck_threshold : ℕ
stuck_threshold = 5

abbrev pub burst_threshold : ℕ
burst_threshold = 10

-- `now - t < window`
abbrev pub within : ℕ → ℕ → Option ℕ → Bool
within now window none = false
within now window (some t) = ltb now (t + window)

abbrev pub is_progressing : KubeEvent → Bool
is_progressing e =
    text_eq e.reason (codes "Progressing")
    || text_eq e.reason (codes "ReconcileStarted")
    || text_eq e.reason (codes "Reconciling")

abbrev pub is_completed : KubeEvent → Bool
is_completed e =
    text_eq e.reason (codes "Ready")
    || text_eq e.reason (codes "Synced")
    || text_eq e.reason (codes "ReconcileSucceeded")
    || text_eq e.reason (codes "Available")

abbrev pub is_warning : KubeEvent → Bool
is_warning e = text_eq e.type (codes "Warning")

module _ (time : Text → Option ℕ) (decimal : ℕ → Text) (now : ℕ) where
  abbrev pub recent : ℕ → List KubeEvent → List KubeEvent
  recent window = keep (λ e. within now window (time e.last_timestamp))

  unfoldable pub stuck_anomaly : Text → List KubeEvent → List Anomaly
  stuck_anomaly name events =
      let recent10 = recent ten_minutes_ms events in
      let progressing_count = length (keep is_progressing recent10) in
      if ltb stuck_threshold progressing_count && not (any is_completed recent10)
      then record {
        type = stuck;
        instance_name = name;
        count = progressing_count;
        message =
            codes "Instance "
            ++ name
            ++ codes " appears stuck — reconciling for 10+ minutes without completing";
      }
        ∷ []
      else []

  unfoldable pub burst_anomaly : Text → List KubeEvent → List Anomaly
  burst_anomaly name events =
      let warning_count = length (keep is_warning (recent one_minute_ms events)) in
      if ltb burst_threshold warning_count
      then record {
        type = burst;
        instance_name = name;
        count = warning_count;
        message =
            codes "Error burst detected on instance "
            ++ name
            ++ codes " — "
            ++ decimal warning_count
            ++ codes " warnings in the last minute";
      }
        ∷ []
      else []

  unfoldable pub anomalies_of : Groups → List Anomaly
  anomalies_of [] = []
  anomalies_of ((name, events) ∷ groups) =
      stuck_anomaly name events ++ (burst_anomaly name events ++ anomalies_of groups)

  unfoldable pub detect_anomalies : List KubeEvent → List Anomaly
  detect_anomalies events = anomalies_of (group_by_instance events)
