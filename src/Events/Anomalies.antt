-- ===== src/Events/Anomalies.antt =====
-- The anomalies: which instances are reported, by the events of each instance alone.
use kro_ui.Prelude.{
  ℕ, Bool, true, false, not, ◌&&◌, ◌||◌, Option, List, [], ◌∷◌, ◌++◌, ◌≡◌, refl, ap, ◌∙◌, arith,
  keep, any, length, ltb, ◌==◌, Bool-cases, inl, inr,
}
use kro_ui.Prelude.Text.{Text, text_eq, text_eq_iff}
use kro_ui.Prelude.Sets.{contains, distinct}
use kro_ui.Events.{
  KubeEvent, Anomaly, AnomalyType, stuck, burst, Groups, group_by_instance, ten_minutes_ms,
  one_minute_ms, is_progressing, is_completed, is_warning, recent, stuck_anomaly, burst_anomaly,
  anomalies_of, detect_anomalies,
}
use kro_ui.Events.Grouping.{group_for, group_names, events_of, group_by_instance_lem}

abbrev pub is_stuck_type : AnomalyType → Bool
is_stuck_type stuck = true
is_stuck_type burst = false

-- A stuck anomaly, or a burst, with the name and the count is in the list.
abbrev pub is_stuck_at : Text → ℕ → Anomaly → Bool
is_stuck_at k n a = is_stuck_type a.type && text_eq a.instance_name k && a.count == n

abbrev pub is_burst_at : Text → ℕ → Anomaly → Bool
is_burst_at k n a = not (is_stuck_type a.type) && text_eq a.instance_name k && a.count == n

abbrev pub reports_stuck : Text → ℕ → List Anomaly → Bool
reports_stuck k n = any (is_stuck_at k n)

abbrev pub reports_burst : Text → ℕ → List Anomaly → Bool
reports_burst k n = any (is_burst_at k n)

any-append : (p : Anomaly → Bool) (xs ys : List Anomaly) → any p (xs ++ ys) ≡ (any p xs || any p ys)
any-append p [] ys = refl
any-append p (x ∷ xs) ys = ground (arith, any-append p xs ys)

any_three :
    (p : Anomaly → Bool) (xs ys zs : List Anomaly)
    → any p (xs ++ (ys ++ zs)) ≡ (any p xs || (any p ys || any p zs))
any_three p xs ys zs = any-append p xs (ys ++ zs) ∙ ap (λ b. any p xs || b) (any-append p ys zs)

module _ (time : Text → Option ℕ) (decimal : ℕ → Text) (now : ℕ) where
  -- How many progress events of the last ten minutes, whether one of these completed, and how many
  -- warnings of the last minute.
  abbrev pub progress_count : List KubeEvent → ℕ
  progress_count es = length (keep is_progressing (recent time decimal now ten_minutes_ms es))

  abbrev pub completed : List KubeEvent → Bool
  completed es = any is_completed (recent time decimal now ten_minutes_ms es)

  abbrev pub warning_count : List KubeEvent → ℕ
  warning_count es = length (keep is_warning (recent time decimal now one_minute_ms es))

  abbrev pub stuck_with : ℕ → List KubeEvent → Bool
  stuck_with n es = ltb 5 (progress_count es) && not (completed es) && progress_count es == n

  abbrev pub burst_with : ℕ → List KubeEvent → Bool
  burst_with n es = ltb 10 (warning_count es) && warning_count es == n

  reports-stuck_anomaly :
      (name k : Text) (n : ℕ) (es : List KubeEvent)
      → (reports_stuck k n (stuck_anomaly time decimal now name es)
          ≡ (text_eq name k && stuck_with n es))
        × (reports_burst k n (stuck_anomaly time decimal now name es) ≡ false)
  unfolding stuck_anomaly
  reports-stuck_anomaly name k n es = (ground arith, ground arith)

  reports-burst_anomaly :
      (name k : Text) (n : ℕ) (es : List KubeEvent)
      → (reports_burst k n (burst_anomaly time decimal now name es)
          ≡ (text_eq name k && burst_with n es))
        × (reports_stuck k n (burst_anomaly time decimal now name es) ≡ false)
  unfolding burst_anomaly
  reports-burst_anomaly name k n es = (ground arith, ground arith)

  reports-cons :
      (name k : Text) (n : ℕ) (es : List KubeEvent) (groups : Groups)
      → (reports_stuck k n (anomalies_of time decimal now ((name, es) ∷ groups)) ≡ (
          text_eq name k && stuck_with n es
          || reports_stuck k n (anomalies_of time decimal now groups)))
        × (reports_burst k n (anomalies_of time decimal now ((name, es) ∷ groups)) ≡ (
            text_eq name k && burst_with n es
            || reports_burst k n (anomalies_of time decimal now groups)))
  unfolding anomalies_of
  reports-cons name k n es groups =
      let s = stuck_anomaly time decimal now name es in
      let b = burst_anomaly time decimal now name es in
      let rest = anomalies_of time decimal now groups in
      let (p, q) = reports-stuck_anomaly name k n es in
      let (p', q') = reports-burst_anomaly name k n es in
      (
        rw (any_three (is_stuck_at k n) s b rest, p, q') refl,
        rw (any_three (is_burst_at k n) s b rest, q, p') refl,
      )

  reports_missing :
      (groups : Groups) (k : Text) (n : ℕ)
      → contains k (group_names groups) ≡ false
      → (reports_stuck k n (anomalies_of time decimal now groups) ≡ false)
        × (reports_burst k n (anomalies_of time decimal now groups) ≡ false)
  unfolding contains
  reports_missing [] k n h = (unfold anomalies_of in refl, unfold anomalies_of in refl)
  reports_missing ((j, g) ∷ groups) k n h =
      let (p, q) = reports-cons j k n g groups in
      let (p', q') = reports_missing groups k n (ground arith) in
      (
        ground (arith, p, p', text_eq_iff k j, text_eq_iff j k),
        ground (arith, q, q', text_eq_iff k j, text_eq_iff j k),
      )

  reports_of :
      (groups : Groups) (k : Text) (n : ℕ)
      → distinct (group_names groups) ≡ true
      → (reports_stuck k n (anomalies_of time decimal now groups)
          ≡ stuck_with n (group_for k groups))
        × (reports_burst k n (anomalies_of time decimal now groups)
            ≡ burst_with n (group_for k groups))
  unfolding distinct
  reports_of [] k n h = (unfold anomalies_of in refl, unfold anomalies_of in refl)
  reports_of ((j, g) ∷ groups) k n h =
      let (p, q) = reports-cons j k n g groups in
      elim (Bool-cases (text_eq j k)) [
        | inl e ↦
            let (p', q') = reports_missing groups k n (ground (arith, text_eq_iff j k)) in
            (ground (arith, p, p'), ground (arith, q, q'))
        | inr e ↦
            let (p', q') = reports_of groups k n (ground arith) in
            (ground (arith, p, p'), ground (arith, q, q'))
      ]

  -- The reports are exact for every instance, by its own events alone. An instance is reported as
  -- stuck with a count exactly when this is the number of its progress events of the last ten
  -- minutes, it is above five, and none of its events of that time completed; and as a burst with a
  -- count exactly when this is the number of its warnings of the last minute and is above ten.
  pub detect_anomalies_iff :
      (es : List KubeEvent) (k : Text) (n : ℕ)
      → (reports_stuck k n (detect_anomalies time decimal now es) ≡ stuck_with n (events_of k es))
        × (reports_burst k n (detect_anomalies time decimal now es) ≡ burst_with n (events_of k es))
  unfolding detect_anomalies
  detect_anomalies_iff es k n =
      let (names, groups) = group_by_instance_lem es in
      let (p, q) = reports_of (group_by_instance es) k n names in
      let same = (groups k).1 in (p ∙ ap (stuck_with n) same, q ∙ ap (burst_with n) same)
