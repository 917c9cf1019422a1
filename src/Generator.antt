-- ===== src/Generator.antt =====
-- web/src/lib/generator.ts: the state of the RGD designer. A field that the source declares with `?`
-- is an Option; the keys of the rows are those that the designer makes, none of which is a name that
-- every object has.
pub mod Validation
pub mod SimpleSchema
mod Tests
use kro_ui.Prelude.{Bool, Option, List}
use kro_ui.Prelude.Text.{Text}

pub record AuthoringField : Type 0 where
  pub id : Text
  pub name : Text
  pub type : Text
  pub default_value : Text
  pub required : Bool
  pub enum : Option Text
  pub minimum : Option Text
  pub maximum : Option Text
  pub pattern : Option Text

pub record AuthoringStatusField : Type 0 where
  pub id : Text
  pub name : Text
  pub expression : Text

pub record ForEachIterator : Type 0 where
  pub key : Text
  pub variable : Text
  pub expression : Text

pub record SelectorLabel : Type 0 where
  pub key : Text
  pub label_key : Text
  pub label_value : Text

pub record AuthoringExternalRef : Type 0 where
  pub api_version : Text
  pub kind : Text
  pub namespace : Text
  pub name : Text
  pub selector_labels : List SelectorLabel

pub data ResourceType : Type 0 where
  managed for_each external_ref : ResourceType

pub record AuthoringResource : Type 0 where
  pub key : Text
  pub id : Text
  pub api_version : Text
  pub kind : Text
  pub resource_type : ResourceType
  pub template_yaml : Text
  pub include_when : Text
  pub ready_when : List Text
  pub for_each_iterators : List ForEachIterator
  pub external : AuthoringExternalRef

pub data Scope : Type 0 where
  namespaced cluster : Scope

pub record RgdAuthoringState : Type 0 where
  pub rgd_name : Text
  pub kind : Text
  pub group : Text
  pub api_version : Text
  pub scope : Scope
  pub spec_fields : List AuthoringField
  pub status_fields : List AuthoringStatusField
  pub resources : List AuthoringResource
