-- ===== src/Health/Revisions/Exact.antt =====
-- What the difference of two revisions holds.
use kro_ui.Prelude.{
  ℕ, Bool, true, false, not, ◌&&◌, ◌||◌, Option, none, some, List, [], ◌∷◌, ◌≡◌, refl, ◌↔◌, arith,
  any, keep, is_some,
}
use kro_ui.Prelude.Text.{Text, codes, text_eq, text_eq_iff}
use kro_ui.Prelude.Sets.{contains, distinct, contains-insert, distinct-insert}
use kro_ui.Json.{Json, null, bool, num, str, arr, obj, prop, is_string, string_or_none}
use kro_ui.Kube.{K8sObject}
use kro_ui.Health.Revisions.{
  RevisionNodeDiff, add_id, collect_node_ids, resource_array, extract_node_ids, revision_number,
  diff_of, compute_revision_node_diff,
}

-- A resource has the id, which is not empty.
abbrev pub is_node : Text → List Json → Bool
is_node q rs = not (text_eq q []) && any (λ r. is_string (prop (codes "id") (some r)) q) rs

contains-add_id :
    (q : Text) (o : Option Json) (ids : List Text)
    → contains q (add_id (string_or_none o) ids)
      ≡ (contains q ids || (not (text_eq q []) && is_string o q))
contains-add_id q none ids = ground arith
contains-add_id q (some null) ids = ground arith
contains-add_id q (some (bool b)) ids = ground arith
contains-add_id q (some (num n)) ids = ground arith
contains-add_id q (some (arr vs)) ids = ground arith
contains-add_id q (some (obj o)) ids = ground arith
contains-add_id q (some (str [])) ids = ground (arith, text_eq_iff [] q, text_eq_iff q [])
contains-add_id q (some (str (c ∷ s))) ids = ground (
  arith,
  contains-insert q (c ∷ s) ids,
  text_eq_iff (c ∷ s) q,
  text_eq_iff q (c ∷ s),
  text_eq_iff q [],
)

distinct-add_id :
    (o : Option Text) (ids : List Text) → distinct ids ≡ true → distinct (add_id o ids) ≡ true
distinct-add_id none ids h = h
distinct-add_id (some []) ids h = h
distinct-add_id (some (c ∷ s)) ids h = distinct-insert (c ∷ s) ids h

contains-collect_node_ids :
    (q : Text) (rs : List Json) (ids : List Text)
    → contains q (collect_node_ids rs ids) ≡ (contains q ids || is_node q rs)
unfolding collect_node_ids
contains-collect_node_ids q [] ids = ground arith
contains-collect_node_ids q (r ∷ rs) ids =
    let o = prop (codes "id") (some r) in
    ground (
      arith,
      contains-collect_node_ids q rs (add_id (string_or_none o) ids),
      contains-add_id q o ids,
    )

distinct-collect_node_ids :
    (rs : List Json) (ids : List Text)
    → distinct ids ≡ true
    → distinct (collect_node_ids rs ids) ≡ true
unfolding collect_node_ids
distinct-collect_node_ids [] ids h = h
distinct-collect_node_ids (r ∷ rs) ids h =
    let o = string_or_none (prop (codes "id") (some r)) in
    distinct-collect_node_ids rs (add_id o ids) (distinct-add_id o ids h)

contains-keep_missing :
    (q : Text) (xs ys : List Text)
    → contains q (keep (λ id. not (contains id ys)) xs) ≡ (contains q xs && not (contains q ys))
unfolding contains
contains-keep_missing q [] ys = refl
contains-keep_missing q (x ∷ xs) ys = ground (arith, contains-keep_missing q xs ys, text_eq_iff q x)

distinct-keep_missing :
    (xs ys : List Text)
    → distinct xs ≡ true
    → distinct (keep (λ id. not (contains id ys)) xs) ≡ true
unfolding distinct
distinct-keep_missing [] ys h = refl
distinct-keep_missing (x ∷ xs) ys h =
    ground (arith, distinct-keep_missing xs ys, contains-keep_missing x xs ys)

-- The difference of two lists of resources.
abbrev pub IsDifference : List Json → List Json → List Text → Type 0
IsDifference rs others ids =
    ((q : Text) → contains q ids ≡ (is_node q rs && not (is_node q others))) × (distinct ids ≡ true)

difference :
    (rs others : List Json)
    → IsDifference rs others
        (keep (λ id. not (contains id (collect_node_ids others []))) (collect_node_ids rs []))
difference rs others =
    let xs = collect_node_ids rs [] in
    let ys = collect_node_ids others [] in
    (
      (λ q.
          let a = contains-keep_missing q xs ys in
          let b = contains-collect_node_ids q rs [] in
          let c = contains-collect_node_ids q others [] in
          unfold contains in ground (arith, a, b, c)),
      distinct-keep_missing xs ys (distinct-collect_node_ids rs [] (unfold distinct in refl)),
    )

-- The result for two optional lists of resources, and the numbers of the revisions.
abbrev pub DiffResult :
    Option (List Json) → Option (List Json) → ℕ → ℕ → Option RevisionNodeDiff → Type 0
DiffResult (some prior) (some latest) m n (some d) =
    IsDifference latest prior d.added
    × IsDifference prior latest d.removed
    × (d.prior_revision_number ≡ m)
    × (d.latest_revision_number ≡ n)
DiffResult (some prior) (some latest) m n none = ⊥
DiffResult _ _ m n (some d) = ⊥
DiffResult _ _ m n none = Unit

diff_of-DiffResult :
    (prior latest : Option (List Json)) (m n : ℕ)
    → DiffResult prior latest m n (diff_of (extract_node_ids prior) (extract_node_ids latest) m n)
diff_of-DiffResult none latest m n = tt
diff_of-DiffResult (some ps) none m n = tt
diff_of-DiffResult (some ps) (some ls) m n = (difference ls ps, difference ps ls, refl, refl)

-- computeRevisionNodeDiff returns nothing exactly when one of the revisions has no array of
-- resources. Otherwise `added` holds the non-empty ids of resources of the latest revision that no
-- resource of the prior one has, `removed` the converse, each id once, and the numbers are those of
-- the revisions.
pub compute_revision_node_diff-DiffResult :
    (prior latest : K8sObject)
    → ((compute_revision_node_diff prior latest ≡ none)
        ↔ ((is_some (resource_array prior) && is_some (resource_array latest)) ≡ false))
      × DiffResult
          (resource_array prior)
          (resource_array latest)
          (revision_number prior)
          (revision_number latest)
          (compute_revision_node_diff prior latest)
unfolding compute_revision_node_diff
compute_revision_node_diff-DiffResult prior latest =
    let m = revision_number prior in
    let n = revision_number latest in
    (
      none_iff (resource_array prior) (resource_array latest) m n,
      diff_of-DiffResult (resource_array prior) (resource_array latest) m n,
    )
  where
    none_iff :
        (p l : Option (List Json)) (m n : ℕ)
        → (diff_of (extract_node_ids p) (extract_node_ids l) m n ≡ none)
          ↔ ((is_some p && is_some l) ≡ false)
    none_iff none l m n = ground arith
    none_iff (some ps) none m n = ground arith
    none_iff (some ps) (some ls) m n = ground arith
