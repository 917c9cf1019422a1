-- ===== src/Collection/Decision.antt =====
-- Which phase, or which condition, makes an item not ready.
use kro_ui.Prelude.{
  Bool, true, false, not, ◌&&◌, ◌||◌, Option, none, some, List, [], ◌∷◌, ◌++◌, ◌≡◌, refl, ap, ◌∙◌,
  arith, if◌then◌else◌, ◌↔◌, ◌⊎◌, inl, inr, Bool-cases, All,
}
use kro_ui.Prelude.Text.{Text, codes, text_eq}
use kro_ui.Json.{Json, null, bool, num, str, arr, obj, get, prop, string_or_none, is_string}
use kro_ui.Kube.{K8sObject, listed}
use kro_ui.NodeState.{is_condition, get_conditions}
use kro_ui.Collection.{failed_phases, ready_phases, verdict, decide, first_decision, is_item_ready}

-- A condition of the type Ready or Available has the status.
abbrev pub signals : Text → Json → Bool
signals s c = is_condition (codes "Ready") s c || is_condition (codes "Available") s c

abbrev pub is_silent : Json → Bool
is_silent c = not (signals (codes "False") c) && not (signals (codes "True") c)

-- The first condition that signals anything signals a failure.
abbrev pub FailsFirst : List Json → Type 0
FailsFirst cs =
    (before : List Json) × (c : Json) × (after : List Json) × (cs ≡ before ++ c ∷ after)
    × All (λ d. is_silent d ≡ true) before
    × (signals (codes "False") c ≡ true)

abbrev pub phase_of : K8sObject → Option Text
phase_of item = string_or_none (prop (codes "phase") (get (codes "status") item))

is_string_lem :
    (v : Option Json) (s : Text)
    → is_string v s ≡ elim (string_or_none v) [ none ↦ false | some t ↦ text_eq t s ]
is_string_lem none s = refl
is_string_lem (some null) s = refl
is_string_lem (some (bool b)) s = refl
is_string_lem (some (num n)) s = refl
is_string_lem (some (str t)) s = refl
is_string_lem (some (arr vs)) s = refl
is_string_lem (some (obj o)) s = refl

-- The verdict on two texts, as tests of equality.
abbrev holds : Option Text → Text → Bool
holds o s = elim o [ none ↦ false | some t ↦ text_eq t s ]

verdict_lem :
    (t st : Option Text)
    → verdict t st ≡ (
        if holds t (codes "Ready") && holds st (codes "False")
          || holds t (codes "Available") && holds st (codes "False")
        then some false
        else if holds t (codes "Ready") && holds st (codes "True")
            || holds t (codes "Available") && holds st (codes "True")
        then some true
        else none)
verdict_lem none st = refl
verdict_lem (some t) none = ground arith
verdict_lem (some t) (some st) = ground arith

decide_lem :
    (c : Json)
    → decide c ≡ (
        if signals (codes "False") c
        then some false
        else if signals (codes "True") c
        then some true
        else none)
unfolding decide is_condition
decide_lem c =
    let t = prop (codes "type") (some c) in
    let st = prop (codes "status") (some c) in
    ground (
      arith,
      verdict_lem (string_or_none t) (string_or_none st),
      is_string_lem t (codes "Ready"),
      is_string_lem t (codes "Available"),
      is_string_lem st (codes "False"),
      is_string_lem st (codes "True"),
    )

FailsFirst-cons :
    (c : Json) (cs : List Json) → is_silent c ≡ true → FailsFirst cs → FailsFirst (c ∷ cs)
FailsFirst-cons c cs h (before, d, after, e, n, m) =
    (c ∷ before, d, after, ap (λ l. c ∷ l) e, (h, n), m)

first_decision-FailsFirst : (cs : List Json) → first_decision cs ≡ false → FailsFirst cs
unfolding first_decision
first_decision-FailsFirst [] h = absurd (ground arith)
first_decision-FailsFirst (c ∷ cs) h = elim (Bool-cases (signals (codes "False") c)) [
  | inl e ↦ ([], c, cs, refl, tt, e)
  | inr e ↦ elim (Bool-cases (signals (codes "True") c)) [
    | inl f ↦ absurd (ground (arith, decide_lem c))
    | inr f ↦
        FailsFirst-cons c cs (ground arith)
          (first_decision-FailsFirst cs (ground (arith, decide_lem c)))
  ]
]

first_decision_fails :
    (before : List Json) (c : Json) (after : List Json)
    → All (λ d. is_silent d ≡ true) before
    → signals (codes "False") c ≡ true
    → first_decision (before ++ c ∷ after) ≡ false
unfolding first_decision
first_decision_fails [] c after n m = ground (arith, decide_lem c)
first_decision_fails (d ∷ before) c after (h, n) m =
    ground (arith, decide_lem d, first_decision_fails before c after n m)

-- An item is not ready exactly when its phase is a failed one, or its phase is not a ready one and
-- the first of its conditions that says True or False for Ready or Available says False. What the
-- later conditions say does not count.
pub is_item_ready_iff :
    (item : K8sObject)
    → (is_item_ready item ≡ false) ↔ (
        (listed (phase_of item) failed_phases ≡ true)
        ⊎ ((listed (phase_of item) ready_phases ≡ false) × FailsFirst (get_conditions item)))
unfolding is_item_ready get_conditions
is_item_ready_iff item = (
  λ h. elim (Bool-cases (listed (phase_of item) failed_phases)) [
    | inl e ↦ inl e
    | inr e ↦ elim (Bool-cases (listed (phase_of item) ready_phases)) [
      | inl f ↦ absurd (ground arith)
      | inr f ↦ inr (f, first_decision-FailsFirst (get_conditions item) (ground arith))
    ]
  ],
  λ h. elim h [
    | inl e ↦ ground arith
    | inr (f, q) ↦
        let (before, c, after, e, n, y) = q in
        let fails = ap first_decision e ∙ first_decision_fails before c after n y in ground arith
  ],
)
