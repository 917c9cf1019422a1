-- ===== src/NodeState/Entries.antt =====
-- The two loops of `buildNodeStateMap`, over the children and over the nodes of the graph.
use kro_ui.Prelude.{
  Bool, true, false, not, ◌||◌, Option, none, some, List, [], ◌∷◌, ◌++◌, any, if◌then◌else◌,
}
use kro_ui.Prelude.Text.{Text, codes, text_eq}
use kro_ui.Prelude.Chars.{trim}
use kro_ui.Prelude.Sets.{contains}
use kro_ui.Json.{get, prop, as_string}
use kro_ui.Kube.{K8sObject, is_terminating, get_finalizers, get_deletion_timestamp}
use kro_ui.Dag.{NodeType, instance_node, state, external, external_collection, DagNode}
use kro_ui.NodeState.{
  NodeLiveState, alive, error, pending, not_found, NodeStateEntry, NodeStateMap, get_conditions,
  derive_child_state, parse_api_version, global_state,
}

-- What every object inherits.
abbrev pub object_prototype : List Text
object_prototype =
    codes "constructor"
    ∷ codes "__defineGetter__"
    ∷ codes "__defineSetter__"
    ∷ codes "hasOwnProperty"
    ∷ codes "__lookupGetter__"
    ∷ codes "__lookupSetter__"
    ∷ codes "isPrototypeOf"
    ∷ codes "propertyIsEnumerable"
    ∷ codes "toString"
    ∷ codes "valueOf"
    ∷ codes "__proto__"
    ∷ codes "toLocaleString"
    ∷ []

-- `result[id]` of an own property.
unfoldable pub state_of : Text → NodeStateMap → Option NodeStateEntry
state_of id [] = none
state_of id ((k, e) ∷ m) = if text_eq k id then some e else state_of id m

unfoldable pub has_entry : Text → NodeStateMap → Bool
has_entry id [] = false
has_entry id ((k, e) ∷ m) = text_eq k id || has_entry id m

-- `id in result`
unfoldable pub is_in : Text → NodeStateMap → Bool
is_in id m = has_entry id m || contains id object_prototype

abbrev pub is_empty_text : Text → Bool
is_empty_text [] = true
is_empty_text (c ∷ s) = false

unfoldable pub node_id_label : K8sObject → Text
node_id_label child =
    as_string
      (prop (codes "kro.run/node-id") (prop (codes "labels") (get (codes "metadata") child)))

unfoldable pub child_state : NodeLiveState → K8sObject → NodeLiveState
child_state global child =
    if is_terminating child
    then error
    else elim global [ error ↦ error | _ ↦ derive_child_state (get_conditions child) ]

abbrev pub list_or_none : List Text → Option (List Text)
list_or_none [] = none
list_or_none (f ∷ fs) = some (f ∷ fs)

unfoldable pub child_entry : NodeLiveState → K8sObject → NodeStateEntry
child_entry global child =
    let meta = get (codes "metadata") child in
    let (group, version) = parse_api_version (get (codes "apiVersion") child) in
    record {
      state = child_state global child;
      kind = as_string (get (codes "kind") child);
      name = as_string (prop (codes "name") meta);
      namespace = as_string (prop (codes "namespace") meta);
      group = group;
      version = version;
      terminating = is_terminating child;
      finalizers = list_or_none (get_finalizers child);
      deletion_timestamp = get_deletion_timestamp child;
    }

-- A round of the loop over the children: a child with no label, or whose label has an entry, is
-- skipped. (A child that has the label has metadata, so the test on `meta` never skips.)
unfoldable pub observe : NodeLiveState → NodeStateMap → K8sObject → NodeStateMap
observe global m child =
    if is_empty_text (node_id_label child)
    then m
    else if is_in (node_id_label child) m
    then m
    else m ++ (node_id_label child, child_entry global child) ∷ []

unfoldable pub observe_all : NodeLiveState → NodeStateMap → List K8sObject → NodeStateMap
observe_all global m [] = m
observe_all global m (child ∷ children) = observe_all global (observe global m child) children

-- The state of a node that no child stands for.
unfoldable pub absent_state : NodeLiveState → DagNode → NodeLiveState
absent_state global node =
    let unobserved =
      if any (λ e. not (is_empty_text (trim e))) node.include_when then pending else not_found in
    let referenced : NodeLiveState = elim global [ error ↦ not_found | _ ↦ alive ] in
    elim node.node_type [
      | external ↦ referenced
      | external_collection ↦ referenced
      | _ ↦ unobserved
    ]

-- `a || b` on strings.
abbrev pub text_or : Text → Text → Text
text_or [] b = b
text_or (c ∷ a) b = c ∷ a

unfoldable pub absent_entry : NodeLiveState → DagNode → NodeStateEntry
absent_entry global node = record {
  state = absent_state global node;
  kind = text_or node.kind (text_or node.label node.id);
  name = [];
  namespace = [];
  group = [];
  version = [];
  terminating = false;
  finalizers = none;
  deletion_timestamp = none;
}

-- The root and state stores have no live state.
abbrev pub has_live_state : NodeType → Bool
has_live_state instance_node = false
has_live_state state = false
has_live_state _ = true

-- A round of the loop over the nodes.
unfoldable pub enumerate : NodeLiveState → NodeStateMap → DagNode → NodeStateMap
enumerate global m node =
    if not (has_live_state node.node_type)
    then m
    else if is_empty_text node.id
    then m
    else if is_in node.id m
    then m
    else m ++ (node.id, absent_entry global node) ∷ []

unfoldable pub enumerate_all : NodeLiveState → NodeStateMap → List DagNode → NodeStateMap
enumerate_all global m [] = m
enumerate_all global m (node ∷ nodes) = enumerate_all global (enumerate global m node) nodes

unfoldable pub build_node_state_map : K8sObject → List K8sObject → List DagNode → NodeStateMap
build_node_state_map instance_cr children rgd_nodes =
    let global = global_state instance_cr in
    enumerate_all global (observe_all global [] children) rgd_nodes
