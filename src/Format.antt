-- ===== src/Format.antt =====
-- web/src/lib/format.ts: the fields, the Ready condition and the names that the views show. A
-- condition's `reason` and `message` are strings or absent, as their types say.
pub mod Context
pub mod Agreement
mod Tests
use kro_ui.Prelude.{
  ℕ, ◌-◌, Bool, true, false, not, ◌&&◌, ◌||◌, Option, none, some, List, [], ◌∷◌, ◌++◌, ◌>>=◌,
  if◌then◌else◌, leb, ◌==◌, length, take, drop, any,
}
use kro_ui.Prelude.Text.{Text, codes, text_eq, starts_with}
use kro_ui.Json.{Json, get, prop, as_string, as_array, string_or_none, is_string, elements}
use kro_ui.Kube.{K8sObject}

pub data ReadyState : Type 0 where
  ready error unknown reconciling : ReadyState

pub record ReadyStatus : Type 0 where
  pub state : ReadyState
  pub reason : Text
  pub message : Text

-- `isCondition(c) && c.type === 'Ready'`, with the condition's status.
abbrev pub ready_status_text : Json → Option Text
ready_status_text c =
    if is_string (prop (codes "type") (some c)) (codes "Ready")
    then string_or_none (prop (codes "status") (some c))
    else none

abbrev pub ready_state_of : Text → ReadyState
ready_state_of status =
    if text_eq status (codes "True")
    then ready
    else if text_eq status (codes "False")
    then error
    else unknown

abbrev pub or_later : Json → Option Text → ReadyStatus → ReadyStatus
or_later c none later = later
or_later c (some status) later = record {
  state = ready_state_of status;
  reason = as_string (prop (codes "reason") (some c));
  message = as_string (prop (codes "message") (some c));
}

unfoldable pub first_ready_status : List Json → ReadyStatus
first_ready_status [] = record { state = unknown; reason = []; message = [] }
first_ready_status (c ∷ cs) = or_later c (ready_status_text c) (first_ready_status cs)

unfoldable pub extract_ready_status : K8sObject → ReadyStatus
extract_ready_status obj =
    first_ready_status (as_array (prop (codes "conditions") (get (codes "status") obj)))

unfoldable pub ready_state_label : ReadyState → Text
ready_state_label ready = codes "Ready"
ready_state_label error = codes "Not Ready"
ready_state_label reconciling = codes "Reconciling"
ready_state_label unknown = codes "Unknown"

unfoldable pub ready_state_color : ReadyState → Text
ready_state_color ready = codes "--color-status-ready"
ready_state_color error = codes "--color-status-error"
ready_state_color reconciling = codes "--color-status-reconciling"
ready_state_color unknown = codes "--color-status-unknown"

unfoldable pub extract_rgd_name : K8sObject → Text
extract_rgd_name obj = as_string (prop (codes "name") (get (codes "metadata") obj))

unfoldable pub extract_rgd_kind : K8sObject → Text
extract_rgd_kind obj =
    as_string (prop (codes "kind") (prop (codes "schema") (get (codes "spec") obj)))

unfoldable pub extract_resource_count : K8sObject → ℕ
extract_resource_count obj = length (as_array (prop (codes "resources") (get (codes "spec") obj)))

unfoldable pub extract_creation_timestamp : K8sObject → Text
extract_creation_timestamp obj =
    as_string (prop (codes "creationTimestamp") (get (codes "metadata") obj))

-- `undefined` and `null` are `none`.
unfoldable pub display_namespace : Option Text → Text
display_namespace none = codes "cluster-scoped"
display_namespace (some []) = codes "cluster-scoped"
display_namespace (some (c ∷ ns)) =
    if text_eq (c ∷ ns) (codes "_") then codes "cluster-scoped" else c ∷ ns

-- The text up to the first colon, and what follows the colon.
abbrev pub cons_before : ℕ → Option (Text × Text) → Option (Text × Text)
cons_before c none = none
cons_before c (some (s, rest)) = some (c ∷ s, rest)

unfoldable pub until_colon : Text → Option (Text × Text)
until_colon [] = none
until_colon (c ∷ s) =
    let later = until_colon s in if c == 58 then some ([], s) else cons_before c later

-- `[^:]+:`
abbrev pub field_of : Option (Text × Text) → Option (Text × Text)
field_of (some (c ∷ s, rest)) = some (c ∷ s, rest)
field_of _ = none

-- The line terminators, which `.` does not match.
abbrev pub is_line_end : ℕ → Bool
is_line_end c = c == 10 || c == 13 || c == 8232 || c == 8233

-- The rest of a text after a prefix.
unfoldable pub after_prefix : Text → Text → Option Text
after_prefix [] s = some s
after_prefix (c ∷ p) [] = none
after_prefix (c ∷ p) (d ∷ s) = if c == d then after_prefix p s else none

-- `(.+)$`
abbrev pub whole_line : Text → Option Text
whole_line [] = none
whole_line (c ∷ s) = if any is_line_end (c ∷ s) then none else some (c ∷ s)

-- `cluster\/(.+)$` behind the account.
unfoldable pub eks_cluster : Text → Text → Option (Text × Text)
eks_cluster account s = do
  after_cluster ← after_prefix (codes "cluster/") s
  name ← whole_line after_cluster
  some (account, name)

-- `([^:]+):` behind the region.
unfoldable pub eks_account : Text → Option (Text × Text)
eks_account s = do
  (account, after_account) ← field_of (until_colon s)
  eks_cluster account after_account

unfoldable pub eks_region : Text → Option (Text × Text)
eks_region s = do (region, after_region) ← field_of (until_colon s); eks_account after_region

-- The account and the cluster of `^arn:aws:eks:[^:]+:([^:]+):cluster\/(.+)$`.
unfoldable pub eks_match : Text → Option (Text × Text)
eks_match ctx = do after_arn ← after_prefix (codes "arn:aws:eks:") ctx; eks_region after_arn

abbrev pub short_account : Text → Text
short_account account =
    if leb (length account) 9
    then account
    else take 6 account ++ 8230 ∷ drop (length account - 3) account

unfoldable pub abbreviate_context : Text → Text
abbreviate_context ctx = elim (eks_match ctx) [
  | none ↦ ctx
  | some (account, name) ↦ short_account account ++ 47 ∷ name
]
