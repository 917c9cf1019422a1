-- ===== src/NodeState.antt =====
-- web/src/lib/instanceNodeState.ts: the live state of every node of the graph.
-- The result object is the list of its entries in the order of their insertion. `in` on it also
-- answers for what every object inherits from `Object.prototype`.
-- Conditions are objects, as their type `K8sCondition[]` says: an entry of another type has no
-- fields, and `null` there, on which the source throws, does not occur.
mod Global
pub mod Entries
mod Coverage
mod Tests
use kro_ui.Prelude.{
  ℕ, Bool, true, false, not, ◌&&◌, ◌||◌, Option, none, some, List, [], ◌∷◌, ◌++◌, map, any, find?,
  if◌then◌else◌, or_else,
}
use kro_ui.Prelude.Text.{Text, codes, text_eq, split_on, includes}
use kro_ui.Prelude.Chars.{trim}
use kro_ui.Prelude.Sets.{contains}
use kro_ui.Json.{Json, get, prop, as_array, as_string, string_or_none, is_string}
use kro_ui.Kube.{K8sObject, is_terminating, get_finalizers, get_deletion_timestamp}
use kro_ui.Dag.{NodeType, instance_node, state, external, external_collection, DagNode}

pub data NodeLiveState : Type 0 where
  alive reconciling error pending not_found : NodeLiveState

pub record NodeStateEntry : Type 0 where
  pub state : NodeLiveState
  pub kind : Text
  pub name : Text
  pub namespace : Text
  pub group : Text
  pub version : Text
  pub terminating : Bool
  pub finalizers : Option (List Text)
  pub deletion_timestamp : Option Text

abbrev pub NodeStateMap : Type 0
NodeStateMap = List (Text × NodeStateEntry)

-- `status.conditions`, each a JSON value with the fields of `K8sCondition`.
unfoldable pub get_conditions : K8sObject → List Json
get_conditions o = as_array (prop (codes "conditions") (get (codes "status") o))

-- `c.type === type && c.status === statusVal`
unfoldable pub is_condition : Text → Text → Json → Bool
is_condition type status c =
    is_string (prop (codes "type") (some c)) type
    && is_string (prop (codes "status") (some c)) status

unfoldable pub has_condition : List Json → Text → Text → Bool
has_condition conditions type status = any (is_condition type status) conditions

-- `cond?.k === s`
abbrev pub field_is : Option Json → Text → Text → Bool
field_is none k s = false
field_is (some c) k s = is_string (prop k (some c)) s

abbrev pub found {ℓ} : {A : Type ℓ} → Option A → Bool
found none = false
found (some a) = true

unfoldable pub derive_child_state : List Json → NodeLiveState
derive_child_state conditions =
    let progressing = find? (is_condition (codes "Progressing") (codes "True")) conditions in
    if has_condition conditions (codes "Available") (codes "True")
    then alive
    else if has_condition conditions (codes "Ready") (codes "True")
    then alive
    else if has_condition conditions (codes "Ready") (codes "False")
        || has_condition conditions (codes "Available") (codes "False")
    then error
    else if field_is progressing (codes "reason") (codes "NewReplicaSetAvailable")
    then alive
    else if found progressing
    then reconciling
    else alive

-- Two parts are group and version; else the group is empty.
abbrev pub version_of_parts : List Text → Text × Text
version_of_parts (g ∷ v ∷ []) = (g, v)
version_of_parts (v ∷ vs) = ([], v)
version_of_parts [] = ([], codes "v1")

unfoldable pub parse_api_version : Option Json → Text × Text
parse_api_version v = elim (string_or_none v) [
  | none ↦ ([], codes "v1")
  | some s ↦ version_of_parts (split_on b'/' s)
]

-- `globalState` after the assignments up to the one for dependencies that are waited for.
unfoldable pub cr_state : K8sObject → NodeLiveState
cr_state instance_cr =
    let conditions = get_conditions instance_cr in
    let kro_state = prop (codes "state") (get (codes "status") instance_cr) in
    let s = if has_condition conditions (codes "Ready") (codes "False") then error else alive in
    let s' = if is_string kro_state (codes "IN_PROGRESS") then reconciling else s in
    if has_condition conditions (codes "Progressing") (codes "True")
      || has_condition conditions (codes "GraphProgressing") (codes "True")
    then reconciling
    else s'

-- The text of a field of the `ResourcesReady` condition, empty where there is none.
abbrev pub field_text : Option Json → Text → Text
field_text none k = []
field_text (some c) k = as_string (prop k (some c))

-- A dependency is still coming up, which is no error.
unfoldable pub is_waiting : List Json → Bool
is_waiting conditions =
    let ready =
      find? (λ c. is_string (prop (codes "type") (some c)) (codes "ResourcesReady")) conditions in
    text_eq (field_text ready (codes "reason")) (codes "NotReady")
    || includes (codes "waiting for node") (field_text ready (codes "message"))
    || includes (codes "waiting for readiness") (field_text ready (codes "message"))

unfoldable pub global_state : K8sObject → NodeLiveState
global_state instance_cr = elim (cr_state instance_cr) [
  | error ↦ if is_waiting (get_conditions instance_cr) then reconciling else error
  | s ↦ s
]
