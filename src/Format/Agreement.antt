-- ===== src/Format/Agreement.antt =====
-- The Ready status of an object and its health as an instance.
use kro_ui.Prelude.{
  true, false, Option, none, some, List, [], ◌∷◌, ◌++◌, ◌≡◌, ◌≢◌, refl, ◌∙◌, sym, ◌↔◌, ◌⊎◌, inl,
  inr, arith, any, if◌then◌else◌, Bool-cases,
}
use kro_ui.Prelude.Text.{codes, text_eq, text_eq_iff}
use kro_ui.Json.{
  Json, null, bool, num, str, arr, obj, get, prop, as_array, is_string, string_or_none,
}
use kro_ui.Kube.{K8sObject}
use kro_ui.Health.{
  K8sCondition, InstanceHealthState, valid_conditions, condition_of, is_progressing, is_unhealthy,
  extract_instance_health,
}
use kro_ui.Health.Table.{
  first_ready, status_is, has_failed, conditions_of, is_in_progress,
  extract_instance_health-HealthTable,
}
use kro_ui.Format.{
  ReadyState, ReadyStatus, ready_status_text, ready_state_of, or_later, first_ready_status,
  extract_ready_status,
}
use kro_ui.Format

-- The state by the first Ready condition.
abbrev pub state_by : Option K8sCondition → ReadyState
state_by none = Format.unknown
state_by (some c) = ready_state_of c.status

condition_lem :
    (t s : Option Json) (c : Json) (later : ReadyStatus) (rest : List K8sCondition)
    → later.state ≡ state_by (first_ready rest)
    → (or_later c (if is_string t (codes "Ready") then string_or_none s else none) later).state
      ≡ state_by (first_ready (condition_of (string_or_none t) (string_or_none s) c ++ rest))
condition_lem none s c later rest h = h
condition_lem (some null) s c later rest h = h
condition_lem (some (bool b)) s c later rest h = h
condition_lem (some (num n)) s c later rest h = h
condition_lem (some (arr vs)) s c later rest h = h
condition_lem (some (obj o)) s c later rest h = h
condition_lem (some (str x)) none c later rest h = ground (arith, h)
condition_lem (some (str x)) (some null) c later rest h = ground (arith, h)
condition_lem (some (str x)) (some (bool b)) c later rest h = ground (arith, h)
condition_lem (some (str x)) (some (num n)) c later rest h = ground (arith, h)
condition_lem (some (str x)) (some (arr vs)) c later rest h = ground (arith, h)
condition_lem (some (str x)) (some (obj o)) c later rest h = ground (arith, h)
condition_lem (some (str x)) (some (str y)) c later rest h = ground (arith, h)

first_ready_status-first_ready :
    (cs : List Json) → (first_ready_status cs).state ≡ state_by (first_ready (valid_conditions cs))
unfolding first_ready_status valid_conditions
first_ready_status-first_ready [] = refl
first_ready_status-first_ready (c ∷ cs) =
    condition_lem (prop (codes "type") (some c)) (prop (codes "status") (some c)) c
      (first_ready_status cs) (valid_conditions cs) (first_ready_status-first_ready cs)

-- The states by the status text of the first Ready condition.
state_by_iff :
    (o : Option K8sCondition)
    → (state_by o ≡ Format.ready ↔ (status_is (codes "True") o ≡ true))
      × (state_by o ≡ Format.error ↔ (status_is (codes "False") o ≡ true))
      × (status_is (codes "False") o ≡ true
          → (has_failed o ≡ true) × (status_is (codes "True") o ≡ false))
      × (state_by o ≢ Format.reconciling)
state_by_iff none = (ground arith, ground arith, ground arith, (λ h. ground arith))
state_by_iff (some c) =
    let f = text_eq_iff c.status (codes "False") in
    let u = text_eq_iff c.status (codes "Unknown") in
    let t = text_eq_iff c.status (codes "True") in
    (
      ground (arith, t),
      unfold text_eq in ground (arith, f, t),
      unfold text_eq in ground (arith, f, u, t),
      (λ h. ground (arith, h)),
    )

-- The rows of the table for ready and error, where the status is not in progress.
ready_and_error :
    (o : K8sObject)
    → is_in_progress o ≡ false
    → ((extract_instance_health o).state ≡ InstanceHealthState.ready ↔ (
        (any is_progressing (conditions_of o) ≡ false)
        × (status_is (codes "True") (first_ready (conditions_of o)) ≡ true)))
      × ((any is_progressing (conditions_of o) ≡ false)
            × (status_is (codes "True") (first_ready (conditions_of o)) ≡ false)
            × ((has_failed (first_ready (conditions_of o)) ≡ true)
                ⊎ (any is_unhealthy (conditions_of o) ≡ true))
          ↔ ((extract_instance_health o).state ≡ InstanceHealthState.error))
ready_and_error o p = elim (extract_instance_health-HealthTable o false).0 [
  | inl (t, _) ↦ ground (arith, t, p)
  | inr (_, (_, y, d, _, _)) ↦ (y, (d.1, d.0))
]

-- The status that extractReadyStatus gives is never "reconciling". For an instance whose status is
-- not in progress and that has no progressing condition, it is "ready" exactly when the health is; it
-- is "error" exactly when the status of the first Ready condition is False, and then the health is
-- "error" too; and where the health is "error" and the status is not, a known condition of another
-- type is unhealthy, or the status of the first Ready condition is none of True, False and Unknown.
pub extract_ready_status-extract_instance_health :
    (o : K8sObject)
    → is_in_progress o ≡ false
    → any is_progressing (conditions_of o) ≡ false
    → ((extract_ready_status o).state ≢ Format.reconciling)
      × ((extract_ready_status o).state ≡ Format.ready
          ↔ ((extract_instance_health o).state ≡ InstanceHealthState.ready))
      × ((extract_ready_status o).state ≡ Format.error
          ↔ (status_is (codes "False") (first_ready (conditions_of o)) ≡ true))
      × ((extract_ready_status o).state ≡ Format.error
          → (extract_instance_health o).state ≡ InstanceHealthState.error)
      × ((extract_instance_health o).state ≡ InstanceHealthState.error
          → ((extract_ready_status o).state ≡ Format.error)
            ⊎ (any is_unhealthy (conditions_of o) ≡ true)
            ⊎ ((has_failed (first_ready (conditions_of o)) ≡ true)
                × (status_is (codes "False") (first_ready (conditions_of o)) ≡ false)))
unfolding extract_ready_status
extract_ready_status-extract_instance_health o p q =
    let cs = as_array (prop (codes "conditions") (get (codes "status") o)) in
    let e = first_ready_status-first_ready cs in
    let (r, s, f, n) = state_by_iff (first_ready (conditions_of o)) in
    let (y, d) = ready_and_error o p in
    (
      (λ h. n (sym e ∙ h)),
      ((λ h. y.1 (q, r.0 (sym e ∙ h))), (λ h. e ∙ r.1 (y.0 h).1)),
      ((λ h. s.0 (sym e ∙ h)), (λ h. e ∙ s.1 h)),
      (λ h. let (x, z) = f (s.0 (sym e ∙ h)) in d.0 (q, z, inl x)),
      (λ h.
          let (_, _, k) = d.1 h in
          elim k [
            | inr u ↦ inr (inl u)
            | inl v ↦
                elim (Bool-cases (status_is (codes "False") (first_ready (conditions_of o)))) [
                  | inl t ↦ inl (e ∙ s.1 t)
                  | inr t ↦ inr (inr (v, t))
                ]
          ]),
    )
