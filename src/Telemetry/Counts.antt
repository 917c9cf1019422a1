-- ===== src/Telemetry/Counts.antt =====
-- What the counts of the telemetry panel add up to.
use kro_ui.Prelude.{
  ℕ, suc, ◌+◌, Bool, true, false, ◌||◌, [], ◌∷◌, ◌≡◌, refl, arith, if◌then◌else◌, length, any, ◌↔◌,
}
use kro_ui.NodeState.{NodeLiveState, alive, reconciling, error, pending, not_found, NodeStateMap}
use kro_ui.Telemetry.{is_healthy, is_error, count_entries, count_healthy_children}

-- How many entries have a state of a kind.
abbrev pub tally : (NodeLiveState → Bool) → NodeStateMap → ℕ
tally p [] = 0
tally p ((id, e) ∷ m) = if p e.state then suc (tally p m) else tally p m

abbrev pub some_entry : (NodeLiveState → Bool) → NodeStateMap → Bool
some_entry p = any (λ (id, e). p e.state)

abbrev pub is_missing : NodeLiveState → Bool
is_missing pending = true
is_missing not_found = true
is_missing _ = false

count_entries_lem :
    (m : NodeStateMap) (h : ℕ) (b : Bool)
    → (h + tally is_healthy m ≡ (count_entries m h b).0)
      × ((count_entries m h b).1 ≡ (b || some_entry is_error m))
unfolding count_entries
count_entries_lem [] h b = (omega arith, ground arith)
count_entries_lem ((id, e) ∷ m) h b =
    let (p, q) =
      count_entries_lem m (if is_healthy e.state then h + 1 else h)
        (if is_error e.state then true else b) in
    (ground (arith, p), ground (arith, q))

-- Every state is of one of the three kinds.
one_kind :
    (s : NodeLiveState) (a b c l : ℕ)
    → a + b + c ≡ l
    → (if is_healthy s then suc a else a)
        + (if is_error s then suc b else b)
        + (if is_missing s then suc c else c)
      ≡ suc l
one_kind alive a b c l h = omega arith
one_kind reconciling a b c l h = omega arith
one_kind error a b c l h = omega arith
one_kind pending a b c l h = omega arith
one_kind not_found a b c l h = omega arith

tally_total :
    (m : NodeStateMap) → tally is_healthy m + tally is_error m + tally is_missing m ≡ length m
tally_total [] = refl
tally_total ((id, e) ∷ m) =
    one_kind e.state (tally is_healthy m) (tally is_error m) (tally is_missing m) (length m)
      (tally_total m)

tally_error : (m : NodeStateMap) → some_entry is_error m ≡ false → tally is_error m ≡ 0
tally_error [] h = refl
tally_error ((id, e) ∷ m) h = ground (arith, tally_error m)

tally_no_error : (m : NodeStateMap) → tally is_error m ≡ 0 → some_entry is_error m ≡ false
tally_no_error [] h = refl
tally_no_error ((id, e) ∷ m) h = ground (arith, tally_no_error m)

-- The healthy, the failed and the absent children, which are in the state map but not on the cluster,
-- make up the total that the panel shows, and the
-- error mark is set exactly when some child has failed; so a panel whose children are all healthy
-- shows no error.
pub count_healthy_children_lem :
    (m : NodeStateMap)
    → ((count_healthy_children m).healthy + tally is_error m + tally is_missing m
        ≡ (count_healthy_children m).total)
      × (((count_healthy_children m).has_error ≡ false) ↔ (tally is_error m ≡ 0))
      × ((count_healthy_children m).healthy ≡ (count_healthy_children m).total
          → (count_healthy_children m).has_error ≡ false)
unfolding count_healthy_children
count_healthy_children_lem m =
    let (p, q) = count_entries_lem m 0 false in
    let r = tally_total m in
    (
      omega (arith, p, r),
      (λ h. tally_error m (ground (arith, q)), λ h. ground (arith, q, tally_no_error m h)),
      λ h. ground (arith, q, tally_no_error m (omega (arith, p, r, h))),
    )
