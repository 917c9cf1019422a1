-- ===== src/Events/Grouping.antt =====
-- The groups of events: each event stands in the group of its instance, in order.
use kro_ui.Prelude.{
  Bool, true, false, ◌||◌, List, [], ◌∷◌, ◌++◌, ◌≡◌, refl, sym, ◌∙◌, arith, if◌then◌else◌, keep,
  any, append_assoc, append-nil,
}
use kro_ui.Prelude.Text.{Text, text_eq, text_eq_iff}
use kro_ui.Prelude.Sets.{contains, distinct}
use kro_ui.Events.{KubeEvent, key_of, Groups, add_event, group_all, group_by_instance}

-- The group under a name, empty where there is none.
abbrev pub group_for : Text → Groups → List KubeEvent
group_for k [] = []
group_for k ((j, g) ∷ groups) = if text_eq j k then g else group_for k groups

abbrev pub group_names : Groups → List Text
group_names [] = []
group_names ((j, g) ∷ groups) = j ∷ group_names groups

-- The events of one instance.
abbrev pub events_of : Text → List KubeEvent → List KubeEvent
events_of k = keep (λ e. text_eq (key_of e) k)

group_for-add_event :
    (groups : Groups) (key : Text) (e : KubeEvent) (k : Text)
    → group_for k (add_event groups key e)
      ≡ (if text_eq key k then group_for k groups ++ e ∷ [] else group_for k groups)
unfolding add_event
group_for-add_event [] key e k = refl
group_for-add_event ((j, g) ∷ groups) key e k = ground (
  arith,
  group_for-add_event groups key e k,
  text_eq_iff j key,
  text_eq_iff j k,
  text_eq_iff key k,
)

join_one :
    (b : Bool) (g : List KubeEvent) (e : KubeEvent) (rest : List KubeEvent)
    → (if b then g ++ e ∷ [] else g) ++ rest ≡ g ++ elim b [ true ↦ e ∷ rest | false ↦ rest ]
join_one true g e rest = append_assoc g (e ∷ []) rest
join_one false g e rest = refl

group_for-group_all :
    (es : List KubeEvent) (groups : Groups) (k : Text)
    → group_for k (group_all groups es) ≡ group_for k groups ++ events_of k es
unfolding group_all
group_for-group_all [] groups k = sym (append-nil (group_for k groups))
group_for-group_all (e ∷ es) groups k =
    group_for-group_all es (add_event groups (key_of e) e) k
    ∙ (rw (group_for-add_event groups (key_of e) e k)
        (join_one (text_eq (key_of e) k) (group_for k groups) e (events_of k es)))

contains-add_event :
    (groups : Groups) (key : Text) (e : KubeEvent) (k : Text)
    → contains k (group_names (add_event groups key e))
      ≡ (text_eq k key || contains k (group_names groups))
unfolding add_event contains
contains-add_event [] key e k = refl
contains-add_event ((j, g) ∷ groups) key e k = ground (
  arith,
  contains-add_event groups key e k,
  text_eq_iff j key,
  text_eq_iff k j,
  text_eq_iff k key,
)

distinct-add_event :
    (groups : Groups) (key : Text) (e : KubeEvent)
    → distinct (group_names groups) ≡ true
    → distinct (group_names (add_event groups key e)) ≡ true
unfolding add_event distinct
distinct-add_event [] key e h = unfold contains in refl
distinct-add_event ((j, g) ∷ groups) key e h =
    ground
      (arith, distinct-add_event groups key e, contains-add_event groups key e j, text_eq_iff j key)

distinct-group_all :
    (es : List KubeEvent) (groups : Groups)
    → distinct (group_names groups) ≡ true
    → distinct (group_names (group_all groups es)) ≡ true
unfolding group_all
distinct-group_all [] groups h = h
distinct-group_all (e ∷ es) groups h =
    distinct-group_all es (add_event groups (key_of e) e) (distinct-add_event groups (key_of e) e h)

contains-group_all :
    (es : List KubeEvent) (groups : Groups) (k : Text)
    → contains k (group_names (group_all groups es))
      ≡ (contains k (group_names groups) || any (λ e. text_eq (key_of e) k) es)
unfolding group_all
contains-group_all [] groups k = ground arith
contains-group_all (e ∷ es) groups k = ground (
  arith,
  contains-group_all es (add_event groups (key_of e) e) k,
  contains-add_event groups (key_of e) e k,
  text_eq_iff k (key_of e),
  text_eq_iff (key_of e) k,
)

-- The groups are a partition of the events: no name stands there twice, a name stands there
-- exactly when some event has it, and its group has exactly the events with that name, in the
-- order in which they came.
pub group_by_instance_lem :
    (es : List KubeEvent)
    → (distinct (group_names (group_by_instance es)) ≡ true)
      × ((k : Text)
          → (contains k (group_names (group_by_instance es)) ≡ any (λ e. text_eq (key_of e) k) es)
            × (group_for k (group_by_instance es) ≡ events_of k es))
unfolding group_by_instance
group_by_instance_lem es = (
  distinct-group_all es [] (unfold distinct in refl),
  λ k. (contains-group_all es [] k ∙ (unfold contains in refl), group_for-group_all es [] k),
)
