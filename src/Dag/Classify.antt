-- ===== src/Dag/Classify.antt =====
-- web/src/lib/dag.ts: `extractForEachDisplay`, `classifyResource`, and the lookups of chained RGDs,
-- `detectKroInstance` and `findChainedRgdName`.
pub mod Chaining
use kro_ui.Prelude.{
  ℕ, Bool, true, false, not, ◌&&◌, ◌||◌, Option, none, some, List, [], ◌∷◌, ◌++◌, if◌then◌else◌,
  is_some,
}
use kro_ui.Prelude.Text.{Text, codes, text_eq}
use kro_ui.Json.{
  Json, null, bool, num, str, arr, obj, Fields, end, field, get, prop, elements, as_object,
  is_string, string_or_none,
}
use kro_ui.Kube.{K8sObject}
use kro_ui.Dag.{NodeType, instance_node, resource, collection, external, external_collection, state}

-- `${k}: ${v}` for the fields of one entry that hold a string.
unfoldable pub entry_parts : Fields → List Text
entry_parts end = []
entry_parts (field k (str v) o) = (k ++ b':' ∷ 32 ∷ v) ∷ entry_parts o
entry_parts (field k v o) = entry_parts o

unfoldable pub display_parts : List Json → List Text
display_parts [] = []
display_parts (obj o ∷ vs) = entry_parts o ++ display_parts vs
display_parts (v ∷ vs) = display_parts vs

-- `parts.join(', ')`
abbrev pub join_comma : List Text → Text
join_comma [] = []
join_comma (p ∷ []) = p
join_comma (p ∷ q ∷ ps) = p ++ b',' ∷ 32 ∷ join_comma (q ∷ ps)

abbrev pub joined : List Text → Option Text
joined [] = none
joined (p ∷ ps) = some (join_comma (p ∷ ps))

unfoldable pub extract_for_each_display : Option Json → Option Text
extract_for_each_display none = none
extract_for_each_display (some (arr vs)) = joined (display_parts (elements vs))
extract_for_each_display (some (str [])) = none
extract_for_each_display (some (str (c ∷ s))) = some (c ∷ s)
extract_for_each_display (some v) = none

-- The node type by the four parts of an entry: the external reference, the template, the display
-- of `forEach`, and the presence of `state`.
abbrev pub classify_parts : Option Fields → Option Fields → Option Text → Bool → NodeType
classify_parts (some ref) template for_each has_state =
    if is_some (prop (codes "selector") (get (codes "metadata") ref))
    then external_collection
    else external
classify_parts none (some template) (some d) has_state = collection
classify_parts none (some template) none has_state = resource
classify_parts none none for_each true = state
classify_parts none none for_each false = resource

unfoldable pub classify_resource : Json → Option NodeType
classify_resource (obj res) = some (
    classify_parts (as_object (get (codes "externalRef") res))
      (as_object (get (codes "template") res))
      (extract_for_each_display (get (codes "forEach") res)) (is_some (get (codes "state") res)))
classify_resource _ = none

-- `spec.schema.kind === kind` of an RGD.
unfoldable pub generates : Text → K8sObject → Bool
generates kind rgd =
    is_string (prop (codes "kind") (prop (codes "schema") (get (codes "spec") rgd))) kind

unfoldable pub some_generates : Text → List K8sObject → Bool
some_generates kind [] = false
some_generates kind (rgd ∷ rgds) = generates kind rgd || some_generates kind rgds

unfoldable pub detect_kro_instance : Text → List K8sObject → Bool
detect_kro_instance [] rgds = false
detect_kro_instance (c ∷ kind) rgds = some_generates (c ∷ kind) rgds

-- A string that is not empty.
abbrev pub name_of : Option Json → Option Text
name_of (some (str (c ∷ s))) = some (c ∷ s)
name_of _ = none

unfoldable pub first_generator : Text → List K8sObject → Option Text
first_generator kind [] = none
first_generator kind (rgd ∷ rgds) =
    let later = first_generator kind rgds in
    if generates kind rgd
    then elim (name_of (prop (codes "name") (get (codes "metadata") rgd))) [
      | some name ↦ some name
      | none ↦ later
    ]
    else later

unfoldable pub find_chained_rgd_name : Text → List K8sObject → Option Text
find_chained_rgd_name [] rgds = none
find_chained_rgd_name (c ∷ kind) rgds = first_generator (c ∷ kind) rgds
