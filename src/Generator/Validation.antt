-- ===== src/Generator/Validation.antt =====
-- web/src/lib/generator.ts: validateRGDState. `exceeds a b` is `Number(a) > Number(b)`. The three
-- records of issues are lists of their entries in the order of insertion.
pub mod Issues
pub mod Exact
use kro_ui.Prelude.{
  ℕ, ◌+◌, Bool, true, false, not, ◌&&◌, ◌||◌, Option, none, some, List, [], ◌∷◌, if◌then◌else◌, ltb,
  ◌==◌, length, keep, any, all, or_else, is_some, reverse, map,
}
use kro_ui.Prelude.Text.{Text, codes, is_empty, split_on, includes}
use kro_ui.Prelude.Chars.{between, is_letter, is_digit, trim}
use kro_ui.Prelude.Maps.{find_key, put}
use kro_ui.Generator.{
  AuthoringField, AuthoringStatusField, ForEachIterator, ResourceType, for_each, AuthoringResource,
  RgdAuthoringState,
}

pub data IssueType : Type 0 where
  error warning : IssueType

pub record ValidationIssue : Type 0 where
  pub type : IssueType
  pub message : Text

abbrev pub Issues : Type 0
Issues = List (Text × ValidationIssue)

pub record ValidationState : Type 0 where
  pub rgd_name : Option ValidationIssue
  pub kind : Option ValidationIssue
  pub resource_issues : Issues
  pub spec_field_issues : Issues
  pub status_field_issues : Issues
  pub total_count : ℕ

abbrev pub issue : IssueType → Text → ValidationIssue
issue type message = record { type = type; message = message }

-- `[a-z0-9]`
abbrev pub is_lower_alnum : ℕ → Bool
is_lower_alnum c = between b'a' b'z' c || between b'0' b'9' c

abbrev pub starts_alnum : Text → Bool
starts_alnum [] = false
starts_alnum (c ∷ s) = is_lower_alnum c

-- `[a-z0-9](?:[a-z0-9-]*[a-z0-9])?`, of a whole text.
unfoldable pub is_dns_label : Text → Bool
is_dns_label s =
    starts_alnum s && all (λ c. is_lower_alnum c || c == b'-') s && starts_alnum (reverse s)

-- `DNS_SUBDOMAIN_RE.test(s)`: labels between dots.
unfoldable pub is_dns_subdomain : Text → Bool
is_dns_subdomain s = all is_dns_label (split_on b'.' s)

unfoldable pub has_consecutive_hyphens : Text → Bool
has_consecutive_hyphens s = includes (codes "--") s

-- `PASCAL_CASE_RE.test(s)`
unfoldable pub is_pascal_case : Text → Bool
unfolding is_letter is_digit
is_pascal_case [] = false
is_pascal_case (c ∷ s) = between b'A' b'Z' c && all (λ d. is_letter d || is_digit d) s

unfoldable pub rgd_name_issue : Text → Option ValidationIssue
rgd_name_issue name =
    if is_empty name
    then some (issue error (codes "RGD name is required"))
    else if not (is_dns_subdomain name) || has_consecutive_hyphens name
    then some (
        issue warning
          (codes "RGD name should be a valid DNS subdomain (lowercase alphanumeric and hyphens)"))
    else none

unfoldable pub kind_issue : Text → Option ValidationIssue
kind_issue kind =
    if is_empty kind
    then some (issue error (codes "Kind is required"))
    else if not (is_pascal_case kind)
    then some (issue warning (codes "Kind should be PascalCase (e.g. WebApp, MyService)"))
    else none

-- The loop that counts the names that are not empty.
unfoldable pub count_names : List Text → List (Text × ℕ) → List (Text × ℕ)
count_names [] freq = freq
count_names (name ∷ names) freq =
    count_names names
      (if is_empty name then freq else put name (or_else (find_key name freq) 0 + 1) freq)

abbrev pub is_duplicate : List (Text × ℕ) → Text → Bool
is_duplicate freq name = not (is_empty name) && ltb 1 (or_else (find_key name freq) 0)

module _ {A : Type 0} (key : A → Text) (test : A → Bool) (i : ValidationIssue) where
  -- A loop that sets the issue of every row that fails.
  unfoldable pub set_issues : List A → Issues → Issues
  set_issues [] issues = issues
  set_issues (x ∷ xs) issues = set_issues xs (if test x then put (key x) i issues else issues)

  -- A loop that skips the rows that have an issue.
  unfoldable pub add_issues : List A → Issues → Issues
  add_issues [] issues = issues
  add_issues (x ∷ xs) issues = add_issues xs (
      if is_some (find_key (key x) issues)
      then issues
      else if test x
      then put (key x) i issues
      else issues)

abbrev pub is_for_each : ResourceType → Bool
is_for_each for_each = true
is_for_each _ = false

abbrev pub is_valid_iterator : ForEachIterator → Bool
is_valid_iterator it = not (is_empty (trim it.variable)) && not (is_empty (trim it.expression))

abbrev pub has_no_iterator : AuthoringResource → Bool
has_no_iterator res =
    is_for_each res.resource_type && length (keep is_valid_iterator res.for_each_iterators) == 0

abbrev pub duplicate_id : ValidationIssue
duplicate_id = issue warning (codes "Duplicate resource ID")

abbrev pub no_iterator : ValidationIssue
no_iterator = issue warning (codes "forEach resources require at least one iterator")

abbrev pub duplicate_field : ValidationIssue
duplicate_field = issue warning (codes "Duplicate spec field name")

abbrev pub wrong_bounds : ValidationIssue
wrong_bounds = issue warning (codes "minimum must be ≤ maximum")

abbrev pub duplicate_status : ValidationIssue
duplicate_status = issue warning (codes "Duplicate status field name")

unfoldable pub resource_issues_of : List AuthoringResource → Issues
resource_issues_of resources =
    let freq = count_names (map (λ r. r.id) resources) [] in
    add_issues (λ r. r.key) has_no_iterator no_iterator resources
      (set_issues (λ r. r.key) (λ r. is_duplicate freq r.id) duplicate_id resources [])

unfoldable pub status_field_issues_of : List AuthoringStatusField → Issues
status_field_issues_of fields =
    let freq = count_names (map (λ f. f.name) fields) [] in
    set_issues (λ f. f.id) (λ f. is_duplicate freq f.name) duplicate_status fields []

abbrev pub count_issue : Option ValidationIssue → ℕ
count_issue none = 0
count_issue (some i) = 1

module _ (exceeds : Text → Text → Bool) where
  abbrev pub both_exceed : Option Text → Option Text → Bool
  both_exceed (some minimum) (some maximum) =
      not (is_empty minimum) && not (is_empty maximum) && exceeds minimum maximum
  both_exceed _ _ = false

  unfoldable pub spec_field_issues_of : List AuthoringField → Issues
  spec_field_issues_of fields =
      let freq = count_names (map (λ f. f.name) fields) [] in
      add_issues (λ f. f.id) (λ f. both_exceed f.minimum f.maximum) wrong_bounds fields
        (set_issues (λ f. f.id) (λ f. is_duplicate freq f.name) duplicate_field fields [])

  unfoldable pub validate_rgd_state : RgdAuthoringState → ValidationState
  validate_rgd_state state =
      let name_issue = rgd_name_issue state.rgd_name in
      let kind_issue = kind_issue state.kind in
      let resource_issues = resource_issues_of state.resources in
      let spec_issues = spec_field_issues_of state.spec_fields in
      let status_issues = status_field_issues_of state.status_fields in
      record {
        rgd_name = name_issue;
        kind = kind_issue;
        resource_issues = resource_issues;
        spec_field_issues = spec_issues;
        status_field_issues = status_issues;
        total_count =
            count_issue name_issue
            + count_issue kind_issue
            + length resource_issues
            + length spec_issues
            + length status_issues;
      }
