-- ===== src/Dag/Classify/Chaining.antt =====
-- Chaining: which ResourceGraphDefinition generates a kind.
use kro_ui.Prelude.{
  true, false, Option, none, some, List, [], ◌∷◌, ◌++◌, ◌≡◌, refl, ap, arith, ◌⊎◌, inl, inr,
  Bool-cases, Option-cases,
}
use kro_ui.Prelude.Text.{Text, codes}
use kro_ui.Json.{get, prop}
use kro_ui.Kube.{K8sObject}
use kro_ui.Dag.Classify.{
  generates, some_generates, detect_kro_instance, name_of, first_generator, find_chained_rgd_name,
}

abbrev pub metadata_name : K8sObject → Option Text
metadata_name rgd = name_of (prop (codes "name") (get (codes "metadata") rgd))

-- No definition of the list generates the kind under a name that can be linked to.
abbrev pub NoneNamed : Text → List K8sObject → Type 0
NoneNamed kind [] = Unit
NoneNamed kind (r ∷ rs) =
    ((generates kind r ≡ false) ⊎ (metadata_name r ≡ none)) × NoneNamed kind rs

-- The first definition that generates the kind and has a name has this one.
abbrev pub FirstNamed : Text → List K8sObject → Text → Type 0
FirstNamed kind rgds name =
    (before : List K8sObject) × (r : K8sObject) × (after : List K8sObject) × (rgds
      ≡ before ++ r ∷ after)
    × NoneNamed kind before
    × (generates kind r ≡ true)
    × (metadata_name r ≡ some name)

FirstNamed-cons :
    (kind : Text) (r : K8sObject) (rs : List K8sObject) (name : Text)
    → ((generates kind r ≡ false) ⊎ (metadata_name r ≡ none))
    → FirstNamed kind rs name
    → FirstNamed kind (r ∷ rs) name
FirstNamed-cons kind r rs name skip (before, g, after, e, n, y, m) =
    (r ∷ before, g, after, ap (λ l. r ∷ l) e, (skip, n), y, m)

first_generator-some :
    (kind : Text) (rgds : List K8sObject) (name : Text)
    → first_generator kind rgds ≡ some name
    → FirstNamed kind rgds name
unfolding first_generator
first_generator-some kind [] name h = absurd (ground arith)
first_generator-some kind (r ∷ rs) name h = elim (Bool-cases (generates kind r)) [
  | inr e ↦
      FirstNamed-cons kind r rs name (inl e) (first_generator-some kind rs name (ground arith))
  | inl e ↦ elim (Option-cases (metadata_name r)) [
    | inl f ↦
        FirstNamed-cons kind r rs name (inr f) (first_generator-some kind rs name (ground arith))
    | inr (m, f) ↦ ([], r, rs, refl, tt, e, ground arith)
  ]
]

first_generator-none :
    (kind : Text) (rgds : List K8sObject) → first_generator kind rgds ≡ none → NoneNamed kind rgds
unfolding first_generator
first_generator-none kind [] h = tt
first_generator-none kind (r ∷ rs) h = elim (Bool-cases (generates kind r)) [
  | inr e ↦ (inl e, first_generator-none kind rs (ground arith))
  | inl e ↦ elim (Option-cases (metadata_name r)) [
    | inl f ↦ (inr f, first_generator-none kind rs (ground arith))
    | inr (m, f) ↦ absurd (ground arith)
  ]
]

some_generates_of_first :
    (kind : Text) (rgds : List K8sObject) (name : Text)
    → first_generator kind rgds ≡ some name
    → some_generates kind rgds ≡ true
unfolding first_generator some_generates
some_generates_of_first kind [] name h = absurd (ground arith)
some_generates_of_first kind (r ∷ rs) name h = ground (arith, some_generates_of_first kind rs name)

-- A name that the lookup finds is the name of the first definition, in the order of the list, that
-- generates the kind and has a name that is not empty, and then the kind is one that some
-- definition generates; where the lookup finds nothing, the kind is empty or no definition that
-- generates it has a name.
pub find_chained_rgd_name_lem :
    (kind : Text) (rgds : List K8sObject)
    → ((name : Text)
        → find_chained_rgd_name kind rgds ≡ some name
        → (detect_kro_instance kind rgds ≡ true) × FirstNamed kind rgds name)
      × (find_chained_rgd_name kind rgds ≡ none → (kind ≡ []) ⊎ NoneNamed kind rgds)
unfolding find_chained_rgd_name detect_kro_instance
find_chained_rgd_name_lem [] rgds = (λ name h. absurd (ground arith), λ h. inl refl)
find_chained_rgd_name_lem (c ∷ kind) rgds = (
  λ name h.
      (some_generates_of_first (c ∷ kind) rgds name h, first_generator-some (c ∷ kind) rgds name h),
  λ h. inr (first_generator-none (c ∷ kind) rgds h),
)
