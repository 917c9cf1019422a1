-- ===== src/Dag/Graph.antt =====
-- web/src/lib/dag.ts: `buildDAGGraph` up to the layout: the nodes, their edges, the fallback edges
-- from the root, and the propagation of `isConditional`.
pub mod Edges
pub mod Connected
pub mod Conditional
pub mod Assembled
use kro_ui.Prelude.{
  ℕ, Bool, true, false, not, ◌&&◌, ◌||◌, Option, none, some, List, [], ◌∷◌, ◌++◌, map, keep, any,
  if◌then◌else◌, is_some, ◌==◌,
}
use kro_ui.Prelude.Text.{Text, codes, text_eq}
use kro_ui.Prelude.Sets.{contains, insert}
use kro_ui.Json.{Json, obj, Fields, get, prop, as_object, as_string, as_array, as_string_array}
use kro_ui.Kube.{K8sObject}
use kro_ui.Dag.{
  NodeType, NodeType-discrete, instance_node, resource, collection, DagNode, DagEdge, node_width,
  node_height, collection_node_height, root_width, root_height,
}
use kro_ui.Dag.Expressions.{walk_template}
use kro_ui.Dag.References.{extract_referenced_ids}
use kro_ui.Dag.Classify.{extract_for_each_display, classify_resource, find_chained_rgd_name}
use kro_ui.Dag.Search.{reachable_from}

abbrev pub schema_id : Text
schema_id = codes "schema"

-- `a || b` on strings.
abbrev pub text_or : Text → Text → Text
text_or [] b = b
text_or (c ∷ a) b = c ∷ a

-- A resource entry that is an object with an id.
abbrev pub entry_of : Json → Option (Fields × Text)
entry_of (obj res) = elim (as_string (get (codes "id") res)) [
  | [] ↦ none
  | c ∷ s ↦ some (res, c ∷ s)
]
entry_of _ = none

-- The set of known ids: the root's and those of the entries.
unfoldable pub add_ids : List Json → List Text → List Text
add_ids [] ids = ids
add_ids (r ∷ rs) ids = elim (entry_of r) [
  | none ↦ add_ids rs ids
  | some (_, id) ↦ add_ids rs (insert id ids)
]

abbrev pub walk_object : Option Fields → List Text
walk_object none = []
walk_object (some o) = walk_template (obj o) []

-- The expressions of the template, else of the external reference, else of the state block.
abbrev pub first_object : Option Fields → Option Fields → Option Fields
first_object none b = b
first_object (some a) b = some a

unfoldable pub cel_of : Fields → List Text
cel_of res = walk_object (
    first_object (as_object (get (codes "template") res)) (
      first_object (as_object (get (codes "externalRef") res))
        (as_object (get (codes "state") res))))

-- `template.kind`, else `externalRef.kind`, and the id where that is empty.
abbrev pub kind_field : Option Fields → Text
kind_field none = []
kind_field (some o) = as_string (get (codes "kind") o)

unfoldable pub kind_of : Fields → Text → Text
kind_of res id =
    text_or
      (kind_field (
        first_object (as_object (get (codes "template") res))
          (as_object (get (codes "externalRef") res))))
      id

abbrev pub is_empty_list {ℓ} : {A : Type ℓ} → List A → Bool
is_empty_list [] = true
is_empty_list (x ∷ xs) = false

abbrev pub chained : Option (List K8sObject) → Text → Option Text
chained none kind = none
chained (some rgds) kind = find_chained_rgd_name kind rgds

abbrev pub type_or_resource : Option NodeType → NodeType
type_or_resource none = resource
type_or_resource (some t) = t

abbrev pub height_of : NodeType → ℕ
height_of collection = collection_node_height
height_of _ = node_height

unfoldable pub resource_node : Option (List K8sObject) → Fields → Text → DagNode
resource_node rgds res id =
    let node_type = type_or_resource (classify_resource (obj res)) in
    let include_when = as_string_array (get (codes "includeWhen") res) in
    let ready_when = as_string_array (get (codes "readyWhen") res) in
    let chained_rgd_name = chained rgds (kind_of res id) in
    record {
      id = id;
      label = id;
      node_type = node_type;
      kind = kind_of res id;
      is_conditional = not (is_empty_list include_when);
      has_ready_when = not (is_empty_list ready_when);
      cel_expressions = cel_of res;
      include_when = include_when;
      ready_when = ready_when;
      for_each = extract_for_each_display (get (codes "forEach") res);
      template = as_object (get (codes "template") res);
      external_ref = as_object (get (codes "externalRef") res);
      schema_spec = none;
      schema_status = none;
      is_chainable = is_some chained_rgd_name;
      chained_rgd_name = chained_rgd_name;
      x = 0;
      y = 0;
      width = node_width;
      height = height_of node_type;
    }

unfoldable pub resource_nodes : Option (List K8sObject) → List Json → List DagNode
resource_nodes rgds [] = []
resource_nodes rgds (r ∷ rs) = elim (entry_of r) [
  | none ↦ resource_nodes rgds rs
  | some (res, id) ↦ resource_node rgds res id ∷ resource_nodes rgds rs
]

-- The edges into a node, one from each id that it refers to but its own.
unfoldable pub edges_into : Text → List Text → List DagEdge
edges_into id [] = []
edges_into id (ref ∷ refs) =
    let later = edges_into id refs in
    if text_eq ref id then later else record { from = ref; to = id } ∷ later

unfoldable pub node_refs : List Text → DagNode → List Text
node_refs all_ids n =
    extract_referenced_ids (n.cel_expressions ++ (n.include_when ++ n.ready_when)) all_ids []

unfoldable pub raw_edges : List Text → List DagNode → List DagEdge
raw_edges all_ids [] = []
raw_edges all_ids (n ∷ ns) = edges_into n.id (node_refs all_ids n) ++ raw_edges all_ids ns

-- `${e.from}→${e.to}`; the edge set of the source holds the keys of the edges kept so far.
abbrev pub edge_key : DagEdge → Text
edge_key e = e.from ++ 0x2192 ∷ e.to

unfoldable pub edge_keys : List DagEdge → List Text
edge_keys [] = []
edge_keys (e ∷ es) = edge_key e ∷ edge_keys es

-- An edge whose key is new is kept.
unfoldable pub add_edge : List DagEdge → DagEdge → List DagEdge
add_edge kept e = if contains (edge_key e) (edge_keys kept) then kept else kept ++ e ∷ []

unfoldable pub dedupe : List DagEdge → List DagEdge → List DagEdge
dedupe kept [] = kept
dedupe kept (e ∷ es) = dedupe (add_edge kept e) es

-- An edge from the root to a node that the root does not reach.
unfoldable pub fallback_round : List Text → List DagEdge → DagNode → List DagEdge
fallback_round reachable edges n =
    if not (text_eq n.id schema_id) && not (contains n.id reachable)
    then add_edge edges (record { from = schema_id; to = n.id })
    else edges

unfoldable pub add_fallback : List Text → List DagEdge → List DagNode → List DagEdge
add_fallback reachable edges [] = edges
add_fallback reachable edges (n ∷ ns) = add_fallback reachable (fallback_round reachable edges n) ns

unfoldable pub connect : List DagEdge → List DagNode → List DagEdge
connect edges nodes =
    add_fallback (reachable_from edges (schema_id ∷ []) (schema_id ∷ [])) edges nodes

abbrev pub has_node : Text → List DagNode → Bool
has_node id = any (λ n. text_eq n.id id)

-- `nodeById.get(id)` is the last node with the id.
unfoldable pub mark_conditional : List DagNode → Text → List DagNode
mark_conditional [] id = []
mark_conditional (n ∷ ns) id =
    let later = mark_conditional ns id in
    if has_node id ns
    then n ∷ later
    else if text_eq n.id id
    then record n { is_conditional = true } ∷ ns
    else n ∷ ns

unfoldable pub mark_all : List DagNode → List Text → List DagNode
mark_all nodes [] = nodes
mark_all nodes (id ∷ ids) = mark_all (mark_conditional nodes id) ids

unfoldable pub conditional_ids : List DagNode → List Text
conditional_ids [] = []
conditional_ids (n ∷ ns) =
    let later = conditional_ids ns in if n.is_conditional then n.id ∷ later else later

unfoldable pub insert_all : List Text → List Text → List Text
insert_all [] s = s
insert_all (x ∷ xs) s = insert_all xs (insert x s)

-- The ids that the search adds are marked, in the order in which it meets them.
unfoldable pub propagate : List DagEdge → List DagNode → List DagNode
propagate edges nodes =
    let to_visit = conditional_ids nodes in
    let propagated = reachable_from edges to_visit (insert_all to_visit []) in
    mark_all nodes (keep (λ id. not (contains id to_visit)) propagated)

unfoldable pub root_node : Fields → DagNode
root_node spec =
    let schema = as_object (get (codes "schema") spec) in
    let schema_status = as_object (prop (codes "status") (get (codes "schema") spec)) in
    record {
      id = schema_id;
      label = schema_id;
      node_type = instance_node;
      kind = text_or (kind_field schema) (codes "Instance");
      is_conditional = false;
      has_ready_when = false;
      cel_expressions = walk_object schema_status;
      include_when = [];
      ready_when = [];
      for_each = none;
      template = none;
      external_ref = none;
      schema_spec = as_object (prop (codes "spec") (get (codes "schema") spec));
      schema_status = schema_status;
      is_chainable = false;
      chained_rgd_name = none;
      x = 0;
      y = 0;
      width = root_width;
      height = root_height;
    }

abbrev pub resources_of : Fields → List Json
resources_of spec = as_array (get (codes "resources") spec)

-- The nodes and edges in front of the layout.
pub record Skeleton : Type 0 where
  pub nodes : List DagNode
  pub edges : List DagEdge

unfoldable pub assemble : Fields → Option (List K8sObject) → Skeleton
assemble spec rgds =
    let resources = resource_nodes rgds (resources_of spec) in
    let all_ids = add_ids (resources_of spec) (schema_id ∷ []) in
    let nodes = root_node spec ∷ resources in
    let edges = connect (dedupe [] (raw_edges all_ids resources)) nodes in
    record { nodes = propagate edges nodes; edges = edges }
