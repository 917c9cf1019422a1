-- ===== src/Collapse.antt =====
-- web/src/lib/dag.ts: detectCollapseGroups. The comparison of a quotient with 0.70 is written out
-- between products; the quotient 7/10 rounds to the same number as the literal.
pub mod Groups
pub mod Qualify
pub mod Exact
mod Tests
use kro_ui.Prelude.{
  ℕ, ◌+◌, ◌-◌, ◌*◌, Bool, true, false, not, ◌&&◌, ◌||◌, Option, none, some, List, [], ◌∷◌, ◌++◌,
  map, if◌then◌else◌, leb, ◌==◌, length, keep, or_else,
}
use kro_ui.Prelude.Text.{Text, codes, is_empty, text_eq}
use kro_ui.Prelude.Sets.{contains}
use kro_ui.Prelude.Maps.{find_key, put}
use kro_ui.Json.{Json, Fields, get, keys, as_object, as_string, as_array, prop}
use kro_ui.Dag.{NodeType, resource}
use kro_ui.Dag.Classify.{classify_resource}

pub record Candidate : Type 0 where
  pub id : Text
  pub api_version : Text
  pub kind : Text
  pub template_keys : List Text

pub record CollapseGroup : Type 0 where
  pub api_version : Text
  pub kind : Text
  pub node_ids : List Text

-- How many keys of the first set the second has.
unfoldable pub intersection : List Text → List Text → ℕ
intersection a b = length (keep (λ key. contains key b) a)

-- `jaccardKeys(a, b) >= 0.70`
unfoldable pub are_similar : List Text → List Text → Bool
are_similar a b =
    let shared = intersection a b in
    let union = length a + length b - shared in
    if length a == 0 && length b == 0 then true else union == 0 || leb (7 * union) (10 * shared)

abbrev pub is_resource : Option NodeType → Bool
is_resource (some resource) = true
is_resource _ = false

-- The candidate of a resource whose template is an object.
abbrev pub candidate_with : Text → Option Fields → List Candidate
candidate_with id none = []
candidate_with id (some template) =
    if is_empty (as_string (get (codes "kind") template)) || is_empty id
    then []
    else record {
      id = id;
      api_version = as_string (get (codes "apiVersion") template);
      kind = as_string (get (codes "kind") template);
      template_keys =
          keep (λ k. not (text_eq k (codes "apiVersion")) && not (text_eq k (codes "kind")))
            (keys template);
    }
      ∷ []

unfoldable pub candidates_of : List Json → List Candidate
candidates_of [] = []
candidates_of (r ∷ rs) =
    (if is_resource (classify_resource r)
      then candidate_with (as_string (prop (codes "id") (some r)))
          (as_object (prop (codes "template") (some r)))
      else [])
    ++ candidates_of rs

abbrev pub group_key : Candidate → Text
group_key c = c.api_version ++ codes "/" ++ c.kind

abbrev pub Groups : Type 0
Groups = List (Text × List Candidate)

unfoldable pub group_candidates : List Candidate → Groups → Groups
group_candidates [] groups = groups
group_candidates (c ∷ cs) groups =
    group_candidates cs
      (put (group_key c) (or_else (find_key (group_key c) groups) [] ++ c ∷ []) groups)

-- The group of the members, if it qualifies.
abbrev pub collapse_group : List Candidate → Option CollapseGroup
collapse_group [] = none
collapse_group (a ∷ []) = none
collapse_group (a ∷ b ∷ []) =
    if are_similar a.template_keys b.template_keys
    then some (record { api_version = a.api_version; kind = a.kind; node_ids = a.id ∷ b.id ∷ [] })
    else none
collapse_group (a ∷ b ∷ c ∷ rest) = some (record {
  api_version = a.api_version;
  kind = a.kind;
  node_ids = map (λ m. m.id) (a ∷ b ∷ c ∷ rest);
})

abbrev pub add_group : Option CollapseGroup → List CollapseGroup → List CollapseGroup
add_group none later = later
add_group (some g) later = g ∷ later

unfoldable pub qualifying : Groups → List CollapseGroup
qualifying [] = []
qualifying ((k, members) ∷ groups) = add_group (collapse_group members) (qualifying groups)

unfoldable pub detect_collapse_groups : Option Json → List CollapseGroup
detect_collapse_groups spec =
    qualifying (group_candidates (candidates_of (as_array (prop (codes "resources") spec))) [])
