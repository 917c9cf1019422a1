-- ===== src/Health/Erroring/Ranked.antt =====
-- The ranking of RGDs by their instances in error.
use kro_ui.Prelude.{
  ℕ, suc, ◌+◌, ◌≤◌, ◌<◌, true, false, ◌&&◌, none, some, List, [], ◌∷◌, map, ◌≡◌, refl, ◌∙◌, sym, ap,
  ◌⊎◌, inl, inr, arith, length, keep, All, or_else, Option-cases, if◌then◌else◌,
}
use kro_ui.Prelude.Text.{Text, text_eq, text_eq_iff}
use kro_ui.Prelude.Sets.{distinct}
use kro_ui.Prelude.Maps.{find_key, put, keys_of, find_key-put, distinct-put}
use kro_ui.Prelude.Sort.{IsDescending}
use kro_ui.Prelude.Ranking.{
  value, top_entries, top_entries_sound, top_entries_largest, distinct-top_entries,
  top_entries-IsDescending, length-top_entries,
}
use kro_ui.Health.Summary.{InstanceSummary, health_from_summary}
use kro_ui.Health.Erroring.{
  TopErroringRgd, is_error_state, count_errors, top_entry, build_top_erroring_rgds,
}

-- How many instances of the RGD are in error.
abbrev pub errors_of : Text → List InstanceSummary → ℕ
errors_of name items =
    length (keep (λ i. is_error_state (health_from_summary i) && text_eq i.rgd_name name) items)

-- The names and the counts of a ranking.
abbrev pub entries_of : List TopErroringRgd → List (Text × ℕ)
entries_of [] = []
entries_of (r ∷ rs) = (r.rgd_name, r.error_count) ∷ entries_of rs

entries_of-map : (m : List (Text × ℕ)) → entries_of (map top_entry m) ≡ m
entries_of-map [] = refl
entries_of-map (e ∷ m) = rw (entries_of-map m)

count_errors_lem :
    (q : Text) (items : List InstanceSummary) (m : List (Text × ℕ))
    → or_else (find_key q (count_errors items m)) 0 ≡ or_else (find_key q m) 0 + errors_of q items
unfolding count_errors
count_errors_lem q [] m = omega arith
count_errors_lem q (i ∷ items) m =
    let v = or_else (find_key i.rgd_name m) 0 + 1 in
    ground (
      arith,
      count_errors_lem q items m,
      count_errors_lem q items (put i.rgd_name v m),
      find_key-put i.rgd_name v m q,
      text_eq_iff i.rgd_name q,
    )

-- Every count of the map is positive.
abbrev IsPositive : List (Text × ℕ) → Type 0
IsPositive m = (q : Text) (v : ℕ) → find_key q m ≡ some v → 0 < v

count_errors-IsPositive :
    (items : List InstanceSummary) (m : List (Text × ℕ))
    → IsPositive m
    → IsPositive (count_errors items m)
unfolding count_errors
count_errors-IsPositive [] m h = h
count_errors-IsPositive (i ∷ items) m h =
    let k = or_else (find_key i.rgd_name m) 0 + 1 in
    elim (is_error_state (health_from_summary i))
      as (λ b. IsPositive (count_errors items (if b then put i.rgd_name k m else m))) [
        | true ↦
            count_errors-IsPositive items (put i.rgd_name k m)
              (λ q v e. ground (arith, h q v, e, find_key-put i.rgd_name k m q))
        | false ↦ count_errors-IsPositive items m h
      ]

distinct-count_errors :
    (items : List InstanceSummary) (m : List (Text × ℕ))
    → distinct (keys_of m) ≡ true
    → distinct (keys_of (count_errors items m)) ≡ true
unfolding count_errors
distinct-count_errors [] m h = h
distinct-count_errors (i ∷ items) m h =
    let v = or_else (find_key i.rgd_name m) 0 + 1 in
    ground (
      arith,
      distinct-count_errors items m,
      distinct-count_errors items (put i.rgd_name v m),
      distinct-put i.rgd_name v m,
    )

module _ (P : ℕ → Type 0) where
  All-top_entry :
      (m : List (Text × ℕ))
      → All (λ e. P (value e)) m
      → All (λ r. P r.error_count) (map top_entry m)
  All-top_entry [] h = tt
  All-top_entry ((k, v) ∷ m) (p, h) = (p, All-top_entry m h)

top_entry-IsDescending :
    (m : List (Text × ℕ))
    → IsDescending value m
    → IsDescending (λ r. r.error_count) (map top_entry m)
top_entry-IsDescending [] h = tt
top_entry-IsDescending ((k, v) ∷ m) (p, h) =
    (All-top_entry (λ w. w ≤ v) m p, top_entry-IsDescending m h)

length-top_entry : (m : List (Text × ℕ)) → length (map top_entry m) ≡ length m
length-top_entry [] = refl
length-top_entry (e ∷ m) = ap suc (length-top_entry m)

Nat-cases : (n : ℕ) → (n ≡ 0) ⊎ (0 < n)
Nat-cases n = ground arith

-- The count of an RGD in the map.
counted :
    (q : Text) (items : List InstanceSummary)
    → ((v : ℕ) → find_key q (count_errors items []) ≡ some v → (errors_of q items ≡ v) × (0 < v))
      × (0 < errors_of q items → find_key q (count_errors items []) ≡ some (errors_of q items))
unfolding find_key
counted q items =
    let e = count_errors_lem q items [] in
    let p = count_errors-IsPositive items [] (λ q v h. ground arith) q in
    (
      (λ v h. (ground (arith, e, h), p v h)),
      (λ h. elim (Option-cases (find_key q (count_errors items []))) [
        | inl n ↦ ground (arith, e, n, h)
        | inr (v, m) ↦ ground (arith, e, m)
      ]),
    )

-- The ranking of `buildTopErroringRGDs` for any n: an RGD that is listed has instances in error and
-- is listed with their number; one that is not has none, or n RGDs are listed, none with fewer; the
-- counts descend, no RGD is listed twice, and at most n are.
pub build_top_erroring_rgds_lem :
    (items : List InstanceSummary) (n : ℕ)
    → ((q : Text)
        → ((find_key q (entries_of (build_top_erroring_rgds items n)) ≡ some (errors_of q items))
            × (0 < errors_of q items))
          ⊎ ((find_key q (entries_of (build_top_erroring_rgds items n)) ≡ none)
              × ((errors_of q items ≡ 0)
                  ⊎ ((length (build_top_erroring_rgds items n) ≡ n)
                      × All
                          (λ r. errors_of q items ≤ r.error_count)
                          (build_top_erroring_rgds items n)))))
      × IsDescending (λ r. r.error_count) (build_top_erroring_rgds items n)
      × (distinct (keys_of (entries_of (build_top_erroring_rgds items n))) ≡ true)
      × (length (build_top_erroring_rgds items n) ≤ n)
unfolding build_top_erroring_rgds
build_top_erroring_rgds_lem items n =
    let m = count_errors items [] in
    let d = distinct-count_errors items [] (unfold distinct in refl) in
    let e = entries_of-map (top_entries n m) in
    let l = length-top_entry (top_entries n m) in
    (
      (λ q. elim (Option-cases (find_key q (top_entries n m))) [
        | inl z ↦ inr (
          ap (find_key q) e ∙ z,
          elim (Nat-cases (errors_of q items)) [
            | inl k ↦ inl k
            | inr k ↦
                elim (top_entries_largest m n d q (errors_of q items) ((counted q items).1 k)) [
                  | inl f ↦ ground (arith, z, f)
                  | inr (j, a) ↦
                      inr (l ∙ j, All-top_entry (λ v. errors_of q items ≤ v) (top_entries n m) a)
                ]
          ],
        )
        | inr (v, f) ↦
            let (g, k) = (counted q items).0 v (top_entries_sound m n d q v f) in
            inl (ap (find_key q) e ∙ f ∙ ap some (sym g), omega (arith, g, k))
      ]),
      top_entry-IsDescending (top_entries n m) (top_entries-IsDescending m n),
      ap (λ x. distinct (keys_of x)) e ∙ distinct-top_entries m n d,
      (let b = length-top_entries m n in omega (arith, l, b)),
    )
