-- ===== src/Collapse/Qualify.antt =====
-- Which lists of candidates make a group.
use kro_ui.Prelude.{
  ℕ, ◌+◌, ◌-◌, ◌*◌, ◌≤◌, Bool, true, false, Option, none, some, List, [], ◌∷◌, ◌≡◌, subst, refl,
  map, arith, length, keep, ◌⊎◌, inl, inr, ◌↔◌, if◌then◌else◌,
}
use kro_ui.Prelude.Sets.{contains}
use kro_ui.Collapse.{Candidate, CollapseGroup, are_similar, intersection, collapse_group}

-- How many keys the two lists share, and how many there are in all.
abbrev pub shared : Candidate → Candidate → ℕ
shared a b = length (keep (λ key. contains key b.template_keys) a.template_keys)

abbrev pub in_all : Candidate → Candidate → ℕ
in_all a b = length a.template_keys + length b.template_keys - shared a b

-- Three or more candidates, or two that share at least 70% of their template keys.
abbrev pub Qualifies : List Candidate → Type 0
Qualifies ms =
    (3 ≤ length ms)
    ⊎ ((a : Candidate) × (b : Candidate) × (ms ≡ a ∷ b ∷ []) × (70 * in_all a b ≤ 100 * shared a b))

are_similar_iff :
    (a b : Candidate)
    → (are_similar a.template_keys b.template_keys ≡ true) ↔ (70 * in_all a b ≤ 100 * shared a b)
unfolding are_similar intersection
are_similar_iff a b = (λ h. ground (arith, h), λ h. ground (arith, h))

-- The group has the ids of the candidates in their order, or there is none.
abbrev pub IsGroup : List Candidate → Option CollapseGroup → Type 0
IsGroup ms none = ¬ Qualifies ms
IsGroup ms (some g) = Qualifies ms × (g.node_ids ≡ map (λ c. c.id) ms)

pub collapse_group-IsGroup : (ms : List Candidate) → IsGroup ms (collapse_group ms)
collapse_group-IsGroup [] =
    λ q. elim q [ inl l ↦ omega (arith, l) | inr (a, b, e, _) ↦ ground (arith, e) ]
collapse_group-IsGroup (c ∷ []) =
    λ q. elim q [ inl l ↦ omega (arith, l) | inr (a, b, e, _) ↦ ground (arith, e) ]
collapse_group-IsGroup (a ∷ b ∷ []) =
    go (are_similar a.template_keys b.template_keys) refl (are_similar_iff a b)
  where
    go :
        (t : Bool)
        → are_similar a.template_keys b.template_keys ≡ t
        → (are_similar a.template_keys b.template_keys ≡ true
            ↔ (70 * in_all a b ≤ 100 * shared a b))
        → IsGroup (a ∷ b ∷ []) (
            if t
            then some
                (record { api_version = a.api_version; kind = a.kind; node_ids = a.id ∷ b.id ∷ [] })
            else none)
    go true e i = (inr (a, b, refl, i.0 e), refl)
    go false e i = λ q. elim q [
      | inl l ↦ omega (arith, l)
      | inr (c, d, f, h) ↦
          let p : c ≡ a = ground (arith, f) in
          let r : d ≡ b = ground (arith, f) in
          let k = subst (λ y. 70 * in_all c y ≤ 100 * shared c y) r h in
          let l = subst (λ x. 70 * in_all x b ≤ 100 * shared x b) p k in ground (arith, e, i.1 l)
    ]
collapse_group-IsGroup (a ∷ b ∷ c ∷ rest) = (inl (omega arith), refl)
