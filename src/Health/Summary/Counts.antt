-- ===== src/Health/Summary/Counts.antt =====
-- What the counters of the health summaries hold.
use kro_ui.Prelude.{
  ℕ, suc, ◌+◌, Bool, true, false, List, [], ◌∷◌, ◌≡◌, refl, ◌∙◌, arith, length, keep, if◌then◌else◌,
  ◌≢◌, inl, inr,
}
use kro_ui.Kube.{K8sObject}
use kro_ui.Health.{
  InstanceHealthState, ready, degraded, reconciling, error, pending, unknown,
  extract_instance_health,
}
use kro_ui.Health.Table.{extract_instance_health-HealthTable}
use kro_ui.Health.Summary.{
  HealthSummary, empty_summary, count_state, count_all, aggregate_health, InstanceSummary,
  health_from_summary, build_health_distribution,
}

-- The counter of a state.
abbrev pub counter : InstanceHealthState → HealthSummary → ℕ
counter ready s = s.ready_count
counter degraded s = s.degraded_count
counter error s = s.error_count
counter reconciling s = s.reconciling_count
counter pending s = s.pending_count
counter unknown s = s.unknown_count

abbrev pub same_state : InstanceHealthState → InstanceHealthState → Bool
same_state ready ready = true
same_state degraded degraded = true
same_state error error = true
same_state reconciling reconciling = true
same_state pending pending = true
same_state unknown unknown = true
same_state _ _ = false

module _ {A : Type 0} (state : A → InstanceHealthState) where
  -- How many items are in the state.
  abbrev pub number_in : InstanceHealthState → List A → ℕ
  number_in q items = length (keep (λ item. same_state q (state item)) items)

  counter-count_state :
      (q t : InstanceHealthState) (s : HealthSummary)
      → counter q (count_state s t) ≡ (if same_state q t then suc (counter q s) else counter q s)
  counter-count_state ready t s = ground arith
  counter-count_state degraded t s = ground arith
  counter-count_state error t s = ground arith
  counter-count_state reconciling t s = ground arith
  counter-count_state pending t s = ground arith
  counter-count_state unknown t s = ground arith

  counter-count_all :
      (q : InstanceHealthState) (s : HealthSummary) (items : List A)
      → counter q (count_all state s items) ≡ counter q s + number_in q items
  unfolding count_all
  counter-count_all q s [] = omega arith
  counter-count_all q s (item ∷ items) = ground (
    arith,
    counter-count_all q (count_state s (state item)) items,
    counter-count_state q (state item) s,
  )

  total-count_state :
      (t : InstanceHealthState) (s : HealthSummary) → (count_state s t).total ≡ s.total + 1
  total-count_state ready s = refl
  total-count_state degraded s = refl
  total-count_state error s = refl
  total-count_state reconciling s = refl
  total-count_state pending s = refl
  total-count_state unknown s = refl

  total_lem :
      (s : HealthSummary) (items : List A)
      → (count_all state s items).total ≡ s.total + length items
  unfolding count_all
  total_lem s [] = omega arith
  total_lem s (item ∷ items) =
      let e = total_lem (count_state s (state item)) items in
      let f = total-count_state (state item) s in omega (arith, e, f)

  number_in_lem :
      (items : List A)
      → number_in ready items
          + number_in degraded items
          + number_in error items
          + number_in reconciling items
          + number_in pending items
          + number_in unknown items
        ≡ length items
  number_in_lem [] = omega arith
  number_in_lem (item ∷ items) = ground (arith, number_in_lem items)

  -- Each counter holds how many items are in its state, the total is their number, and no item is
  -- counted twice or in no state.
  abbrev pub HasCounts : List A → HealthSummary → Type 0
  HasCounts items s =
      ((q : InstanceHealthState) → counter q s ≡ number_in q items)
      × (s.total ≡ length items)
      × (s.ready_count + s.degraded_count + s.error_count + s.reconciling_count + s.pending_count
            + s.unknown_count
          ≡ s.total)

  count_all-HasCounts : (items : List A) → HasCounts items (count_all state empty_summary items)
  count_all-HasCounts items =
      let t = total_lem empty_summary items in
      (
        (λ q. ground (arith, counter-count_all q empty_summary items)),
        omega (arith, t),
        ground (
          arith,
          t,
          number_in_lem items,
          counter-count_all ready empty_summary items,
          counter-count_all degraded empty_summary items,
          counter-count_all error empty_summary items,
          counter-count_all reconciling empty_summary items,
          counter-count_all pending empty_summary items,
          counter-count_all unknown empty_summary items,
        ),
      )

  number_in_none :
      (q : InstanceHealthState) (items : List A)
      → ((item : A) → same_state q (state item) ≡ false)
      → number_in q items ≡ 0
  number_in_none q [] h = refl
  number_in_none q (item ∷ items) h = ground (arith, h item, number_in_none q items h)

other_state : (s : InstanceHealthState) → s ≢ degraded → same_state degraded s ≡ false
other_state ready h = refl
other_state degraded h = absurd (h refl)
other_state error h = refl
other_state reconciling h = refl
other_state pending h = refl
other_state unknown h = refl

-- No instance is degraded by itself.
not_degraded : (item : K8sObject) → same_state degraded (extract_instance_health item).state ≡ false
not_degraded item = elim (extract_instance_health-HealthTable item false).0 [
  | inl (_, e) ↦ ground (arith, e)
  | inr (_, (_, _, _, _, n)) ↦ other_state (extract_instance_health item).state n
]

abbrev pub health_state : K8sObject → InstanceHealthState
health_state item = (extract_instance_health item).state

never_pending :
    (item : InstanceSummary)
    → (same_state degraded (health_from_summary item) ≡ false)
      × (same_state pending (health_from_summary item) ≡ false)
unfolding health_from_summary
never_pending item = ground arith

-- The aggregation of instances and that of summaries: each counter holds how many items are in its
-- state, the counters add up to the total, which is the number of items; no instance is counted as
-- degraded, and no summary as degraded or pending.
pub aggregate_health-HasCounts :
    (items : List K8sObject) (summaries : List InstanceSummary)
    → HasCounts health_state items (aggregate_health items)
      × ((aggregate_health items).degraded_count ≡ 0)
      × HasCounts health_from_summary summaries (build_health_distribution summaries)
      × ((build_health_distribution summaries).degraded_count ≡ 0)
      × ((build_health_distribution summaries).pending_count ≡ 0)
unfolding aggregate_health build_health_distribution
aggregate_health-HasCounts items summaries =
    let (c, t, u) = count_all-HasCounts health_state items in
    let (d, v, w) = count_all-HasCounts health_from_summary summaries in
    (
      (c, t, u),
      c degraded ∙ number_in_none health_state degraded items not_degraded,
      (d, v, w),
      d degraded ∙ number_in_none health_from_summary degraded summaries (λ i. (never_pending i).0),
      d pending ∙ number_in_none health_from_summary pending summaries (λ i. (never_pending i).1),
    )
