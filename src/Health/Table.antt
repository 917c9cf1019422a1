-- ===== src/Health/Table.antt =====
-- The health of an instance as a table over its conditions.
use kro_ui.Prelude.{
  Bool, true, false, not, ◌&&◌, Option, none, some, List, [], ◌∷◌, ◌≡◌, ◌≢◌, refl, arith, any, all,
  find?, if◌then◌else◌, ◌↔◌, ◌⊎◌, inl, inr, is_some,
}
use kro_ui.Prelude.Text.{Text, codes, text_eq, text_eq_iff}
use kro_ui.Prelude.Sets.{contains}
use kro_ui.Json.{get, prop, as_array, is_string}
use kro_ui.Kube.{K8sObject}
use kro_ui.Conditions.{is_healthy_condition}
use kro_ui.Health.{
  K8sCondition, InstanceHealthState, ready, degraded, reconciling, error, pending, InstanceHealth,
  valid_conditions, is_progressing, is_ready_type, is_unknown, is_unhealthy, decided, ready_health,
  health_of_conditions, extract_instance_health, apply_degraded_state,
}

-- A condition is there and has the status.
abbrev pub status_is : Text → Option K8sCondition → Bool
status_is s none = false
status_is s (some c) = text_eq c.status s

-- A condition is there, and its status is neither True nor Unknown.
abbrev pub has_failed : Option K8sCondition → Bool
has_failed none = false
has_failed (some c) =
    not (text_eq c.status (codes "True")) && not (text_eq c.status (codes "Unknown"))

abbrev pub first_ready : List K8sCondition → Option K8sCondition
first_ready = find? is_ready_type

decided_iff :
    (p r u : Option K8sCondition) (b : Bool)
    → ((decided p r u b).state ≡ reconciling ↔ (is_some p ≡ true))
      × ((decided p r u b).state ≡ ready
          ↔ ((is_some p ≡ false) × (status_is (codes "True") r ≡ true)))
      × ((decided p r u b).state ≡ error ↔ (
          (is_some p ≡ false)
          × (status_is (codes "True") r ≡ false)
          × ((has_failed r ≡ true) ⊎ (is_some u ≡ true))))
      × ((decided p r u b).state ≡ pending ↔ (
          (is_some p ≡ false)
          × (status_is (codes "True") r ≡ false)
          × (has_failed r ≡ false)
          × (is_some u ≡ false)
          × (b ≡ true)))
unfolding decided ready_health is_healthy_condition contains text_eq
decided_iff (some p) r u b = ground arith
decided_iff none (some r) (some u) b = ground arith
decided_iff none (some r) none b = ground arith
decided_iff none none (some u) b = ground arith
decided_iff none none none b = ground arith

is_some-find : (p : K8sCondition → Bool) (cs : List K8sCondition) → is_some (find? p cs) ≡ any p cs
is_some-find p [] = refl
is_some-find p (c ∷ cs) = ground (arith, is_some-find p cs)

-- Unknown conditions decide nothing.
unknown_lem :
    (cs : List K8sCondition)
    → all is_unknown cs ≡ true
    → (any is_progressing cs ≡ false)
      × (status_is (codes "True") (first_ready cs) ≡ false)
      × (has_failed (first_ready cs) ≡ false)
      × (any is_unhealthy cs ≡ false)
unfolding is_unhealthy text_eq
unknown_lem [] h = (refl, refl, refl, refl)
unknown_lem (c ∷ cs) h =
    let (p, q, r, u) = unknown_lem cs (ground arith) in
    let e = text_eq_iff c.status (codes "Unknown") in
    let f = text_eq_iff c.status (codes "True") in
    (
      ground (arith, e, f, p),
      ground (arith, e, f, q),
      ground (arith, e, f, r),
      ground (arith, e, f, u),
    )

-- The conditions of an instance that have a type and a status.
abbrev pub conditions_of : K8sObject → List K8sCondition
conditions_of obj =
    valid_conditions (as_array (prop (codes "conditions") (get (codes "status") obj)))

abbrev pub is_in_progress : K8sObject → Bool
is_in_progress obj =
    is_string (prop (codes "state") (get (codes "status") obj)) (codes "IN_PROGRESS")

-- The state by the conditions, which `InProgress` overrides.
abbrev pub HealthTable : InstanceHealthState → List K8sCondition → Type 0
HealthTable s cs =
    ((s ≡ reconciling) ↔ (any is_progressing cs ≡ true))
    × ((s ≡ ready)
        ↔ ((any is_progressing cs ≡ false) × (status_is (codes "True") (first_ready cs) ≡ true)))
    × ((s ≡ error) ↔ (
        (any is_progressing cs ≡ false)
        × (status_is (codes "True") (first_ready cs) ≡ false)
        × ((has_failed (first_ready cs) ≡ true) ⊎ (any is_unhealthy cs ≡ true))))
    × ((s ≡ pending) ↔ ((cs ≢ []) × (all is_unknown cs ≡ true)))
    × (s ≢ degraded)

decided_not_degraded : (p r u : Option K8sCondition) (b : Bool) → (decided p r u b).state ≢ degraded
unfolding decided ready_health
decided_not_degraded (some p) r u b = λ h. ground arith
decided_not_degraded none (some r) (some u) b = λ h. ground arith
decided_not_degraded none (some r) none b = λ h. ground arith
decided_not_degraded none none (some u) b = λ h. ground arith
decided_not_degraded none none none b = λ h. ground arith

health_of_conditions-HealthTable :
    (cs : List K8sCondition) → HealthTable (health_of_conditions cs).state cs
unfolding health_of_conditions
health_of_conditions-HealthTable [] = ground arith
health_of_conditions-HealthTable (c ∷ cs) =
    let ds = c ∷ cs in
    let (p, q, r, u) =
      decided_iff (find? is_progressing ds) (first_ready ds) (find? is_unhealthy ds)
        (all is_unknown ds) in
    let a = is_some-find is_progressing ds in
    let b = is_some-find is_unhealthy ds in
    (
      rw a at p,
      rw a at q,
      rw b at (rw a at r),
      (
        (λ h. ((λ e. ground arith), ground (arith, u, h))),
        (λ (n, k). let (x, y, z, w) = unknown_lem ds k in ground (arith, u, a, b, x, y, z, w, k)),
      ),
      decided_not_degraded (find? is_progressing ds) (first_ready ds) (find? is_unhealthy ds)
          (all is_unknown ds),
    )

overridden_lem :
    (b d : Bool) (h i : InstanceHealth) (cs : List K8sCondition)
    → i.state ≡ reconciling
    → HealthTable h.state cs
    → (((b ≡ true) × ((if b then i else h).state ≡ reconciling))
        ⊎ ((b ≡ false) × HealthTable (if b then i else h).state cs))
      × (((apply_degraded_state (if b then i else h) d).state ≡ degraded)
          ↔ (((if b then i else h).state ≡ ready) × (d ≡ true)))
unfolding apply_degraded_state
overridden_lem true d h i cs e t = (inl (refl, e), ground (arith, e))
overridden_lem false d h i cs e t = (inr (refl, t), ground (arith, t))

-- The state of an instance: reconciling if its status says so; else reconciling exactly if a
-- condition is progressing, and otherwise ready if the first Ready condition is True, or error if
-- that condition is neither True nor Unknown or a known condition of another type is unhealthy;
-- pending exactly if there are conditions and all are Unknown; never degraded by itself, and degraded
-- exactly when a ready instance is given a child with an error.
pub extract_instance_health-HealthTable :
    (obj : K8sObject) (child_error : Bool)
    → (((is_in_progress obj ≡ true) × ((extract_instance_health obj).state ≡ reconciling))
        ⊎ ((is_in_progress obj ≡ false)
            × HealthTable (extract_instance_health obj).state (conditions_of obj)))
      × (((apply_degraded_state (extract_instance_health obj) child_error).state ≡ degraded)
          ↔ (((extract_instance_health obj).state ≡ ready) × (child_error ≡ true)))
unfolding extract_instance_health
extract_instance_health-HealthTable obj child_error =
    overridden_lem (is_in_progress obj) child_error (health_of_conditions (conditions_of obj))
      (record {
        state = reconciling;
        reason = codes "InProgress";
        message = codes "kro is reconciling this instance";
      })
      (conditions_of obj) refl (health_of_conditions-HealthTable (conditions_of obj))
