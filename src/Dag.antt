-- ===== src/Dag.antt =====
-- web/src/lib/dag.ts: the dependency graph of a ResourceGraphDefinition. This file has the data
-- model; the children have the operations and what they promise.
pub mod Expressions
pub mod References
pub mod Classify
pub mod Search
pub mod Graph
mod Tests
use kro_ui.Prelude.{ℕ, Bool, Option, List}
use kro_ui.Prelude.Text.{Text}
use kro_ui.Json.{Fields}

pub data NodeType : Type 0 where
  instance_node resource collection external external_collection state : NodeType

pub NodeType-discrete : Discrete NodeType
NodeType-discrete = hlevel

pub record DagNode : Type 0 where
  pub id : Text
  pub label : Text
  pub node_type : NodeType
  pub kind : Text
  pub is_conditional : Bool
  pub has_ready_when : Bool
  pub cel_expressions : List Text
  pub include_when : List Text
  pub ready_when : List Text
  pub for_each : Option Text
  pub template : Option Fields
  pub external_ref : Option Fields
  pub schema_spec : Option Fields
  pub schema_status : Option Fields
  pub is_chainable : Bool
  pub chained_rgd_name : Option Text
  pub x : ℕ
  pub y : ℕ
  pub width : ℕ
  pub height : ℕ

pub record DagEdge : Type 0 where
  pub from : Text
  pub to : Text

pub record DagGraph : Type 0 where
  pub nodes : List DagNode
  pub edges : List DagEdge
  pub width : ℕ
  pub height : ℕ

-- The layout constants.
abbrev pub node_width : ℕ
node_width = 180

abbrev pub node_height : ℕ
node_height = 48

abbrev pub collection_node_height : ℕ
collection_node_height = 60

abbrev pub root_width : ℕ
root_width = 200

abbrev pub root_height : ℕ
root_height = 52

abbrev pub h_gap : ℕ
h_gap = 40

abbrev pub v_gap : ℕ
v_gap = 80

abbrev pub padding : ℕ
padding = 32
