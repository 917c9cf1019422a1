-- ===== src/Health/Revisions.antt =====
-- web/src/lib/format.ts: computeRevisionNodeDiff, the resources that a revision adds and removes.
pub mod Exact
use kro_ui.Prelude.{ℕ, not, Option, none, some, List, [], ◌∷◌, keep}
use kro_ui.Prelude.Text.{Text, codes}
use kro_ui.Prelude.Sets.{contains, insert}
use kro_ui.Json.{Json, num, arr, get, prop, elements, string_or_none}
use kro_ui.Kube.{K8sObject}

pub record RevisionNodeDiff : Type 0 where
  pub added : List Text
  pub removed : List Text
  pub prior_revision_number : ℕ
  pub latest_revision_number : ℕ

-- `if (typeof id === 'string' && id) ids.add(id)`
abbrev pub add_id : Option Text → List Text → List Text
add_id none ids = ids
add_id (some []) ids = ids
add_id (some (c ∷ id)) ids = insert (c ∷ id) ids

unfoldable pub collect_node_ids : List Json → List Text → List Text
collect_node_ids [] ids = ids
collect_node_ids (r ∷ rs) ids =
    collect_node_ids rs (add_id (string_or_none (prop (codes "id") (some r))) ids)

abbrev pub resource_array : K8sObject → Option (List Json)
resource_array rev = elim (prop (codes "resources") (get (codes "spec") rev)) [
  | some (arr vs) ↦ some (elements vs)
  | _ ↦ none
]

abbrev pub extract_node_ids : Option (List Json) → Option (List Text)
extract_node_ids none = none
extract_node_ids (some rs) = some (collect_node_ids rs [])

abbrev pub number_or_zero : Option Json → ℕ
number_or_zero (some (num n)) = n
number_or_zero _ = 0

abbrev pub revision_number : K8sObject → ℕ
revision_number rev = number_or_zero (prop (codes "revision") (get (codes "spec") rev))

abbrev pub diff_of : Option (List Text) → Option (List Text) → ℕ → ℕ → Option RevisionNodeDiff
diff_of (some prior) (some latest) m n = some (record {
  added = keep (λ id. not (contains id prior)) latest;
  removed = keep (λ id. not (contains id latest)) prior;
  prior_revision_number = m;
  latest_revision_number = n;
})
diff_of _ _ m n = none

unfoldable pub compute_revision_node_diff : K8sObject → K8sObject → Option RevisionNodeDiff
compute_revision_node_diff prior latest =
    diff_of (extract_node_ids (resource_array prior)) (extract_node_ids (resource_array latest))
      (revision_number prior) (revision_number latest)
