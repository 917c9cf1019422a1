-- ===== src/Resolve.antt =====
-- web/src/lib/resolveResourceName.ts: the cluster resource behind a node of the graph. `lower` is
-- `toLowerCase`.
pub mod First
pub mod Matches
mod Tests
use kro_ui.Prelude.{
  ℕ, ◌-◌, Bool, true, false, not, ◌&&◌, Option, none, some, List, [], ◌∷◌, ◌++◌, if◌then◌else◌,
  length, take, drop, keep, find?,
}
use kro_ui.Prelude.Text.{Text, codes, is_empty, text_eq, split_on}
use kro_ui.Json.{Json, get, prop, as_string, string_or_none}
use kro_ui.Kube.{K8sObject}

pub record ChildResourceInfo : Type 0 where
  pub kind : Text
  pub name : Text
  pub namespace : Text
  pub group : Text
  pub version : Text

-- `s.endsWith(p)`
abbrev pub ends_with : Text → Text → Bool
ends_with p s = text_eq (drop (length s - length p) s) p

-- `s.slice(0, -n)`
abbrev pub without_last : ℕ → Text → Text
without_last n s = take (length s - n) s

unfoldable pub kind_hint_from_label : Text → Text
kind_hint_from_label label =
    if ends_with (codes "CRs") label
    then without_last 3 label
    else if ends_with (codes "CR") label
    then without_last 2 label
    else label

unfoldable pub node_id_label : K8sObject → Text
node_id_label child =
    as_string
      (prop (codes "kro.run/node-id") (prop (codes "labels") (get (codes "metadata") child)))

abbrev pub name_of : K8sObject → Text
name_of child = as_string (prop (codes "name") (get (codes "metadata") child))

-- The group and the version of the parts of an apiVersion.
abbrev pub group_and_version : List Text → Text × Text
group_and_version (g ∷ v ∷ []) = (g, v)
group_and_version (v ∷ rest) = ([], v)
group_and_version [] = ([], codes "v1")

abbrev pub version_or_split : Option Text → Text × Text
version_or_split none = ([], codes "v1")
version_or_split (some s) = group_and_version (split_on 47 s)

unfoldable pub parse_api_version : Option Json → Text × Text
parse_api_version v = version_or_split (string_or_none v)

unfoldable pub child_to_info : K8sObject → ChildResourceInfo
child_to_info child =
    let (group, version) = parse_api_version (get (codes "apiVersion") child) in
    record {
      kind = as_string (get (codes "kind") child);
      name = name_of child;
      namespace = as_string (prop (codes "namespace") (get (codes "metadata") child));
      group = group;
      version = version;
    }

-- The first element of the list.
abbrev pub first : List K8sObject → Option K8sObject
first [] = none
first (c ∷ cs) = some c

abbrev pub or_head : Option K8sObject → Option K8sObject → Option K8sObject
or_head none later = later
or_head (some c) later = some c

abbrev pub has_label : Text → K8sObject → Bool
has_label label child = text_eq (node_id_label child) label

abbrev pub has_name : K8sObject → Bool
has_name child = not (is_empty (name_of child))

abbrev pub name_or : Option K8sObject → Text → Text
name_or none later = later
name_or (some child) later = name_of child

-- `nodeKind ?? kindHint`
abbrev pub kind_or : Option Text → Text → Text
kind_or none hint = hint
kind_or (some k) hint = k

abbrev pub info_or : Option K8sObject → ChildResourceInfo → ChildResourceInfo
info_or none later = later
info_or (some c) later = child_to_info c

module _ (lower : Text → Text) where
  -- `typeof kind === 'string' ? kind.toLowerCase() : ''`
  abbrev pub lower_or_empty : Option Text → Text
  lower_or_empty none = []
  lower_or_empty (some k) = lower k

  abbrev pub lower_kind : K8sObject → Text
  lower_kind child = lower_or_empty (string_or_none (get (codes "kind") child))

  -- The loops return at the first match whose name is not empty.
  unfoldable pub resolve_resource_name : Text → Text → List K8sObject → Text
  resolve_resource_name label instance_name children =
      let kind_hint = lower (kind_hint_from_label label) in
      name_or (find? (λ c. has_label label c && has_name c) children) (
        name_or (find? (λ c. text_eq (lower_kind c) kind_hint && has_name c) children)
          (instance_name ++ codes "-" ++ kind_hint))

  -- `(typeof kind === 'string' ? kind : '').toLowerCase() === k`
  abbrev pub is_kind : Text → K8sObject → Bool
  is_kind k child = text_eq (lower (as_string (get (codes "kind") child))) k

  abbrev pub is_lower : Text → Option Text → Bool
  is_lower k none = false
  is_lower k (some kind) = text_eq (lower kind) k

  -- `typeof kind === 'string' && kind.toLowerCase() === k`
  abbrev pub is_string_kind : Text → K8sObject → Bool
  is_string_kind k child = is_lower k (string_or_none (get (codes "kind") child))

  -- `if (nodeKind)`: the node's kind, where it is given and not empty.
  abbrev pub first_of_kind :
      (Text → K8sObject → Bool) → Option Text → List K8sObject → Option K8sObject
  first_of_kind test none children = none
  first_of_kind test (some []) children = none
  first_of_kind test (some (c ∷ k)) children = find? (test (lower (c ∷ k))) children

  unfoldable pub resolve_child_resource_info :
      Text → Text → List K8sObject → Option Text → Option ChildResourceInfo
  resolve_child_resource_info label instance_name children node_kind =
      let matches = keep (has_label label) children in
      let kind_hint = lower (kind_hint_from_label label) in
      some (
        info_or (or_head (first_of_kind is_string_kind node_kind matches) (first matches)) (
          info_or (find? (is_kind kind_hint) children) (
            info_or (first_of_kind is_kind node_kind children) (record {
              kind = kind_or node_kind kind_hint;
              name = instance_name ++ codes "-" ++ kind_hint;
              namespace = [];
              group = [];
              version = codes "v1";
            }))))
