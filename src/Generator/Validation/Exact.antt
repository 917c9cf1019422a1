-- ===== src/Generator/Validation/Exact.antt =====
-- The issues that validateRGDState reports, and for which states it reports none.
use kro_ui.Prelude.{
  Bool, true, not, ◌&&◌, Option, none, some, List, [], map, ◌≡◌, refl, ◌∙◌, ap, ◌↔◌, arith, any,
  length, ◌==◌,
}
use kro_ui.Prelude.Text.{Text, is_empty}
use kro_ui.Prelude.Sets.{distinct}
use kro_ui.Prelude.Maps.{find_key, keys_of}
use kro_ui.Generator.{AuthoringField, AuthoringStatusField, AuthoringResource, RgdAuthoringState}
use kro_ui.Generator.Validation.{
  ValidationIssue, is_dns_subdomain, has_consecutive_hyphens, is_pascal_case, rgd_name_issue,
  kind_issue, count_names, is_duplicate, set_issues, add_issues, has_no_iterator, duplicate_id,
  no_iterator, duplicate_field, wrong_bounds, duplicate_status, resource_issues_of,
  status_field_issues_of, count_issue, both_exceed, spec_field_issues_of, validate_rgd_state,
}
use kro_ui.Generator.Validation.Issues.{
  or_issue, issue_at, find_key-set_issues, find_key-add_issues, distinct-set_issues,
  distinct-add_issues, length-set_issues, length-add_issues, is_repeated, is_duplicate-is_repeated,
}

abbrev pub ids_of : List AuthoringResource → List Text
ids_of = map (λ r. r.id)

abbrev pub field_names : List AuthoringField → List Text
field_names = map (λ f. f.name)

abbrev pub status_names : List AuthoringStatusField → List Text
status_names = map (λ f. f.name)

or_issue-none : (o : Option ValidationIssue) → or_issue o none ≡ o
or_issue-none none = refl
or_issue-none (some i) = refl

module _ {A : Type 0} (key name : A → Text) (i : ValidationIssue) (xs : List A) where
  -- The rows whose name is repeated.
  abbrev pub repeated : A → Bool
  repeated x = is_repeated (map name xs) (name x)

  abbrev pub counted : A → Bool
  counted x = is_duplicate (count_names (map name xs) []) (name x)

  -- The test by the counts is the one by the names.
  counted-repeated : ◌≡◌ {A = A → Bool} counted repeated
  counted-repeated = λ j x. is_duplicate-is_repeated (map name xs) (name x) j

  repeats : (k : Text) → find_key k (set_issues key counted i xs []) ≡ issue_at key repeated i k xs
  unfolding find_key
  repeats k =
      find_key-set_issues key counted i k xs []
      ∙ or_issue-none (issue_at key counted i k xs)
      ∙ ap (λ t. issue_at key t i k xs) counted-repeated

  no_repeats : (length (set_issues key counted i xs []) == 0) ≡ not (any repeated xs)
  no_repeats = length-set_issues key counted i xs [] ∙ ap (λ t. not (any t xs)) counted-repeated

  distinct_repeats : distinct (keys_of (set_issues key counted i xs [])) ≡ true
  distinct_repeats = distinct-set_issues key counted i xs [] (unfold distinct in refl)

  module _ (test : A → Bool) (j : ValidationIssue) where
    then_others :
        (k : Text)
        → find_key k (add_issues key test j xs (set_issues key counted i xs []))
          ≡ or_issue (issue_at key repeated i k xs) (issue_at key test j k xs)
    then_others k =
        find_key-add_issues key test j k xs (set_issues key counted i xs [])
        ∙ ap (λ o. or_issue o (issue_at key test j k xs)) (repeats k)

    no_others :
        (length (add_issues key test j xs (set_issues key counted i xs [])) == 0)
        ≡ (not (any repeated xs) && not (any test xs))
    no_others =
        length-add_issues key test j xs (set_issues key counted i xs [])
        ∙ ap (λ b. b && not (any test xs)) no_repeats

    distinct_others :
        distinct (keys_of (add_issues key test j xs (set_issues key counted i xs []))) ≡ true
    distinct_others =
        distinct-add_issues key test j xs (set_issues key counted i xs []) distinct_repeats

-- The issue of a resource's row: a repeated id, or else a collection without an iterator.
abbrev pub resource_issue : List AuthoringResource → Text → Option ValidationIssue
resource_issue rs k =
    or_issue (issue_at (λ r. r.key) (λ r. is_repeated (ids_of rs) r.id) duplicate_id k rs)
      (issue_at (λ r. r.key) has_no_iterator no_iterator k rs)

abbrev pub status_issue : List AuthoringStatusField → Text → Option ValidationIssue
status_issue fs k =
    issue_at (λ f. f.id) (λ f. is_repeated (status_names fs) f.name) duplicate_status k fs

abbrev pub spec_issue : (Text → Text → Bool) → List AuthoringField → Text → Option ValidationIssue
spec_issue exceeds fs k =
    or_issue (issue_at (λ f. f.id) (λ f. is_repeated (field_names fs) f.name) duplicate_field k fs)
      (issue_at (λ f. f.id) (λ f. both_exceed exceeds f.minimum f.maximum) wrong_bounds k fs)

-- A state without an issue.
abbrev pub is_clean : (Text → Text → Bool) → RgdAuthoringState → Bool
is_clean exceeds state =
    not (is_empty state.rgd_name)
    && is_dns_subdomain state.rgd_name
    && not (has_consecutive_hyphens state.rgd_name)
    && not (is_empty state.kind)
    && is_pascal_case state.kind
    && not (any (λ r. is_repeated (ids_of state.resources) r.id) state.resources)
    && not (any has_no_iterator state.resources)
    && not (any (λ f. is_repeated (field_names state.spec_fields) f.name) state.spec_fields)
    && not (any (λ f. both_exceed exceeds f.minimum f.maximum) state.spec_fields)
    && not (any (λ f. is_repeated (status_names state.status_fields) f.name) state.status_fields)

name_lem :
    (s : Text)
    → (count_issue (rgd_name_issue s) == 0)
      ≡ (not (is_empty s) && is_dns_subdomain s && not (has_consecutive_hyphens s))
unfolding rgd_name_issue
name_lem s = ground arith

kind_lem : (s : Text) → (count_issue (kind_issue s) == 0) ≡ (not (is_empty s) && is_pascal_case s)
unfolding kind_issue
kind_lem s = ground arith

-- The issues of validateRGDState, for any comparison of numbers: the row of each key has the issue
-- of a repeated name, if its resource's id or its field's name is not empty and stands more than once;
-- else that of a missing iterator or of exceeding bounds, if it has one; else none; and no key has
-- two. The total is zero exactly for a state whose name is a DNS subdomain without consecutive hyphens,
-- whose kind is in PascalCase, and whose rows have no issue.
pub validate_rgd_state_lem :
    (exceeds : Text → Text → Bool) (state : RgdAuthoringState) (k : Text)
    → (find_key k (validate_rgd_state exceeds state).resource_issues
        ≡ resource_issue state.resources k)
      × (find_key k (validate_rgd_state exceeds state).spec_field_issues
          ≡ spec_issue exceeds state.spec_fields k)
      × (find_key k (validate_rgd_state exceeds state).status_field_issues
          ≡ status_issue state.status_fields k)
      × (distinct (keys_of (validate_rgd_state exceeds state).resource_issues) ≡ true)
      × (distinct (keys_of (validate_rgd_state exceeds state).spec_field_issues) ≡ true)
      × (distinct (keys_of (validate_rgd_state exceeds state).status_field_issues) ≡ true)
      × (((validate_rgd_state exceeds state).total_count ≡ 0) ↔ (is_clean exceeds state ≡ true))
unfolding validate_rgd_state resource_issues_of spec_field_issues_of status_field_issues_of
validate_rgd_state_lem exceeds state k =
    let rs = state.resources in
    let fs = state.spec_fields in
    let ss = state.status_fields in
    let bounds : AuthoringField → Bool = λ f. both_exceed exceeds f.minimum f.maximum in
    (
      then_others (λ r. r.key) (λ r. r.id) duplicate_id rs has_no_iterator no_iterator k,
      then_others (λ f. f.id) (λ f. f.name) duplicate_field fs bounds wrong_bounds k,
      repeats (λ f. f.id) (λ f. f.name) duplicate_status ss k,
      distinct_others (λ r. r.key) (λ r. r.id) duplicate_id rs has_no_iterator no_iterator,
      distinct_others (λ f. f.id) (λ f. f.name) duplicate_field fs bounds wrong_bounds,
      distinct_repeats (λ f. f.id) (λ f. f.name) duplicate_status ss,
      ground (
        arith,
        name_lem state.rgd_name,
        kind_lem state.kind,
        no_others (λ r. r.key) (λ r. r.id) duplicate_id rs has_no_iterator no_iterator,
        no_others (λ f. f.id) (λ f. f.name) duplicate_field fs bounds wrong_bounds,
        no_repeats (λ f. f.id) (λ f. f.name) duplicate_status ss,
      ),
    )
