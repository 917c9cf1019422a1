-- ===== src/Kube.antt =====
-- web/src/lib/k8s.ts: accessors of raw Kubernetes objects, the ones that deletion needs.
use kro_ui.Prelude.{Bool, false, not, Option, none, some, List, [], ◌∷◌, keep, is_some}
use kro_ui.Prelude.Text.{Text, codes, starts_with}
use kro_ui.Prelude.Sets.{contains}
use kro_ui.Json.{Fields, get, prop, string_or_none, as_string_array}

-- `Record<string, unknown>`
abbrev pub K8sObject : Type 0
K8sObject = Fields

unfoldable pub is_terminating : K8sObject → Bool
is_terminating o =
    is_some (string_or_none (prop (codes "deletionTimestamp") (get (codes "metadata") o)))

unfoldable pub get_deletion_timestamp : K8sObject → Option Text
get_deletion_timestamp o =
    string_or_none (prop (codes "deletionTimestamp") (get (codes "metadata") o))

unfoldable pub get_finalizers : K8sObject → List Text
get_finalizers o = as_string_array (prop (codes "finalizers") (get (codes "metadata") o))

abbrev pub kro_finalizer_prefix : Text
kro_finalizer_prefix = codes "kro.run/"

unfoldable pub get_kro_finalizers : K8sObject → List Text
get_kro_finalizers o = keep (λ f. starts_with kro_finalizer_prefix f) (get_finalizers o)

unfoldable pub get_non_kro_finalizers : K8sObject → List Text
get_non_kro_finalizers o = keep (λ f. not (starts_with kro_finalizer_prefix f)) (get_finalizers o)

abbrev pub deletion_reasons : List Text
deletion_reasons =
    codes "Killing"
    ∷ codes "Deleted"
    ∷ codes "FailedDelete"
    ∷ codes "SuccessfulDelete"
    ∷ codes "DeletionFailed"
    ∷ codes "FailedKillPod"
    ∷ codes "ResourceDeleted"
    ∷ codes "FinalizerRemoved"
    ∷ codes "DeletionBlocked"
    ∷ codes "Terminating"
    ∷ codes "PreStopHookFailed"
    ∷ []

-- Membership of an optional reason.
abbrev pub listed : Option Text → List Text → Bool
listed none reasons = false
listed (some r) reasons = contains r reasons

unfoldable pub is_deletion_event : K8sObject → Bool
is_deletion_event event = listed (string_or_none (get (codes "reason") event)) deletion_reasons
