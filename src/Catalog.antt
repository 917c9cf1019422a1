-- ===== src/Catalog.antt =====
-- web/src/lib/catalog.ts: which RGDs use which, the search and the complexity score. Labels are an
-- object, as Kubernetes has them; `lower` is `toLowerCase`.
pub mod Chaining
pub mod Uses
mod Tests
use kro_ui.Prelude.{
  ℕ, ◌+◌, ◌*◌, Bool, true, false, not, ◌&&◌, ◌||◌, Option, none, some, List, [], ◌∷◌, ◌++◌,
  if◌then◌else◌, length, keep, any, or_else, is_some,
}
use kro_ui.Prelude.Text.{Text, codes, is_empty, text_eq, includes}
use kro_ui.Prelude.Sets.{contains}
use kro_ui.Prelude.Maps.{find_key, put}
use kro_ui.Json.{
  Json, arr, Fields, end, field, get, prop, as_string, as_array, as_object, elements,
  string_or_none,
}
use kro_ui.Kube.{K8sObject}

-- The fields of an object that are strings.
abbrev pub add_label : Text → Option Text → List (Text × Text) → List (Text × Text)
add_label k none labels = labels
add_label k (some v) labels = (k, v) ∷ labels

unfoldable pub string_fields : Fields → List (Text × Text)
string_fields end = []
string_fields (field k v o) = add_label k (string_or_none (some v)) (string_fields o)

abbrev pub labels_of : Option Fields → List (Text × Text)
labels_of none = []
labels_of (some o) = string_fields o

unfoldable pub extract_labels : K8sObject → List (Text × Text)
extract_labels o = labels_of (as_object (prop (codes "labels") (get (codes "metadata") o)))

-- `kinds.push(kind)` for a kind that is not empty.
abbrev pub add_kind : Text → List Text → List Text
add_kind [] kinds = kinds
add_kind (c ∷ k) kinds = (c ∷ k) ∷ kinds

unfoldable pub template_kinds : List Json → List Text
template_kinds [] = []
template_kinds (r ∷ rs) =
    add_kind (as_string (prop (codes "kind") (prop (codes "template") (some r))))
      (template_kinds rs)

unfoldable pub extract_template_kinds : K8sObject → List Text
extract_template_kinds o =
    template_kinds (as_array (prop (codes "resources") (get (codes "spec") o)))

unfoldable pub extract_schema_kind : K8sObject → Text
extract_schema_kind o =
    as_string (prop (codes "kind") (prop (codes "schema") (get (codes "spec") o)))

unfoldable pub extract_name : K8sObject → Text
extract_name o = as_string (prop (codes "name") (get (codes "metadata") o))

-- `kindToRGDName`: a later RGD takes the place of an earlier one that generates the same kind.
unfoldable pub kind_index : List K8sObject → List (Text × Text) → List (Text × Text)
kind_index [] index = index
kind_index (rgd ∷ rgds) index = kind_index rgds (
    if not (is_empty (extract_name rgd)) && not (is_empty (extract_schema_kind rgd))
    then put (extract_schema_kind rgd) (extract_name rgd) index
    else index)

abbrev pub ChainingMap : Type 0
ChainingMap = List (Text × List Text)

-- `map.get(name) ?? []`
abbrev pub users_of : Text → ChainingMap → List Text
users_of name m = or_else (find_key name m) []

-- The link to the RGD that generates a kind, unless there is none or it is the referrer itself.
abbrev pub add_link : Text → Option Text → ChainingMap → ChainingMap
add_link referrer none m = m
add_link referrer (some referenced) m =
    if is_empty referenced || text_eq referenced referrer
    then m
    else if contains referrer (users_of referenced m)
    then m
    else put referenced (users_of referenced m ++ referrer ∷ []) m

unfoldable pub link_kinds : List (Text × Text) → Text → List Text → ChainingMap → ChainingMap
link_kinds index referrer [] m = m
link_kinds index referrer (k ∷ ks) m =
    link_kinds index referrer ks (add_link referrer (find_key k index) m)

unfoldable pub link_all : List (Text × Text) → List K8sObject → ChainingMap → ChainingMap
link_all index [] m = m
link_all index (rgd ∷ rgds) m = link_all index rgds (
    if is_empty (extract_name rgd)
    then m
    else link_kinds index (extract_name rgd) (extract_template_kinds rgd) m)

unfoldable pub build_chaining_map : List K8sObject → ChainingMap
build_chaining_map rgds = link_all (kind_index rgds []) rgds []

unfoldable pub count_chaining_references : K8sObject → List K8sObject → ℕ
count_chaining_references o rgds =
    if is_empty (extract_name o)
    then 0
    else length (users_of (extract_name o) (build_chaining_map rgds))

-- `'forEach' in r` of an object.
abbrev pub has_for_each : Json → Bool
has_for_each r = is_some (prop (codes "forEach") (some r))

abbrev pub chaining_weight : ℕ
chaining_weight = 2

abbrev pub for_each_weight : ℕ
for_each_weight = 3

abbrev pub score_of : Option Json → ℕ → ℕ
score_of (some (arr vs)) references =
    length (elements vs)
    + references * chaining_weight
    + length (keep has_for_each (elements vs)) * for_each_weight
score_of _ references = 0

unfoldable pub compute_complexity_score : K8sObject → ℕ → ℕ
compute_complexity_score o references =
    score_of (prop (codes "resources") (get (codes "spec") o)) references

module _ (lower : Text → Text) where
  unfoldable pub matches_search : K8sObject → Text → Bool
  matches_search o query =
      let q = lower query in
      if is_empty query
      then true
      else if includes q (lower (extract_name o))
      then true
      else if includes q (lower (extract_schema_kind o))
      then true
      else any (λ l. includes q (lower l.0) || includes q (lower l.1)) (extract_labels o)
