-- ===== src/Dag/Search/Closed.antt =====
-- The search ends, and sees exactly the ids that the edges lead to from the first queue.
use kro_ui.Prelude.{
  ℕ, zero, suc, ◌+◌, ◌≤◌, ◌<◌, Bool, true, false, ◌&&◌, ◌||◌, not, List, [], ◌∷◌, ◌++◌, ◌≡◌, refl,
  ap, sym, ◌∙◌, arith, length, length-append, if◌then◌else◌, ◌↔◌, ◌⊎◌, inl, inr, Bool-cases,
  List-cases,
}
use kro_ui.Prelude.Text.{Text, text_eq, text_eq_iff}
use kro_ui.Prelude.Sets.{contains, contains-append, contains_one, contains-nil}
use kro_ui.Dag.{DagEdge}
use kro_ui.Dag.Search.{children_of, Frontier, visit, search_from, reachable_from}

-- The ids to which the edges lead from some roots, in any number of steps.
pub data Reach (edges : List DagEdge) (roots : List Text) : Text → Type 0 where
  root : {v : Text} → contains v roots ≡ true → Reach edges roots v
  step :
      {u v : Text}
      → Reach edges roots u
      → contains v (children_of edges u) ≡ true
      → Reach edges roots v

visit-seen :
    (cs : List Text) (f : Frontier) (v : Text)
    → contains v (visit cs f).seen ≡ (contains v f.seen || contains v cs)
unfolding visit contains
visit-seen [] f v = ground arith
visit-seen (c ∷ cs) f v = ground (
  arith,
  visit-seen cs f v,
  visit-seen cs (record { queue = f.queue ++ c ∷ []; seen = f.seen ++ c ∷ [] }) v,
  contains-append v f.seen (c ∷ []),
  contains_one v c,
  text_eq_iff v c,
)

visit-queue :
    (cs : List Text) (f : Frontier) (v : Text)
    → contains v (visit cs f).queue
      ≡ (contains v f.queue || contains v cs && not (contains v f.seen))
unfolding visit contains
visit-queue [] f v = ground arith
visit-queue (c ∷ cs) f v = ground (
  arith,
  visit-queue cs f v,
  visit-queue cs (record { queue = f.queue ++ c ∷ []; seen = f.seen ++ c ∷ [] }) v,
  contains-append v f.seen (c ∷ []),
  contains-append v f.queue (c ∷ []),
  contains_one v c,
  text_eq_iff v c,
)

-- The edges whose target has not been seen.
abbrev fresh : List DagEdge → List Text → ℕ
fresh [] seen = 0
fresh (e ∷ es) seen = if contains e.to seen then fresh es seen else suc (fresh es seen)

abbrev is_target : Text → List DagEdge → Bool
is_target v [] = false
is_target v (e ∷ es) = text_eq e.to v || is_target v es

fresh-le :
    (es : List DagEdge) (seen : List Text) (c : Text) → fresh es (seen ++ c ∷ []) ≤ fresh es seen
fresh-le [] seen c = omega arith
fresh-le (e ∷ es) seen c = ground (arith, fresh-le es seen c, contains-append e.to seen (c ∷ []))

fresh-lt :
    (es : List DagEdge) (seen : List Text) (c : Text)
    → contains c seen ≡ false
    → is_target c es ≡ true
    → fresh es (seen ++ c ∷ []) < fresh es seen
fresh-lt [] seen c n t = cc
fresh-lt (e ∷ es) seen c n t = ground (
  arith,
  fresh-lt es seen c n,
  fresh-le es seen c,
  contains-append e.to seen (c ∷ []),
  contains_one e.to c,
  text_eq_iff e.to c,
)

abbrev all_targets : List DagEdge → List Text → Bool
all_targets es [] = true
all_targets es (c ∷ cs) = is_target c es && all_targets es cs

visit-fresh :
    (es : List DagEdge) (cs : List Text) (f : Frontier)
    → all_targets es cs ≡ true
    → fresh es (visit cs f).seen + length (visit cs f).queue ≤ fresh es f.seen + length f.queue
unfolding visit
visit-fresh es [] f h = omega arith
visit-fresh es (c ∷ cs) f h = ground (
  arith,
  visit-fresh es cs f,
  visit-fresh es cs (record { queue = f.queue ++ c ∷ []; seen = f.seen ++ c ∷ [] }),
  fresh-lt es f.seen c,
  length-append f.queue (c ∷ []),
)

all_targets_weaken :
    (e : DagEdge) (es : List DagEdge) (cs : List Text)
    → all_targets es cs ≡ true
    → all_targets (e ∷ es) cs ≡ true
all_targets_weaken e es [] h = refl
all_targets_weaken e es (c ∷ cs) h = ground (arith, all_targets_weaken e es cs)

children_of-targets : (es : List DagEdge) (u : Text) → all_targets es (children_of es u) ≡ true
unfolding children_of
children_of-targets [] u = refl
children_of-targets (e ∷ es) u = ground (
  arith,
  children_of-targets es u,
  all_targets_weaken e es (children_of es u),
  text_eq_iff e.to e.to,
)

module _ (edges : List DagEdge) (roots : List Text) where
  record Inv (f : Frontier) : Type 0 where
    sound : (v : Text) → contains v f.seen ≡ true → Reach edges roots v
    started : (v : Text) → contains v roots ≡ true → contains v f.seen ≡ true
    queued : (v : Text) → contains v f.queue ≡ true → contains v f.seen ≡ true
    closed :
        (u v : Text)
        → contains u f.seen ≡ true
        → contains v (children_of edges u) ≡ true
        → (contains u f.queue ≡ true) ⊎ (contains v f.seen ≡ true)

  abbrev next_frontier : Text → List Text → Frontier → Frontier
  next_frontier cur rest f = visit (children_of edges cur) (record f { queue = rest })

  Inv-next :
      (f : Frontier) (cur : Text) (rest : List Text)
      → f.queue ≡ cur ∷ rest
      → Inv f
      → Inv (next_frontier cur rest f)
  Inv-next f cur rest e h =
      let f' = record f { queue = rest } in
      let cs = children_of edges cur in
      let saw = λ (v : Text). visit-seen cs f' v in
      let kept = λ (v : Text). visit-queue cs f' v in
      record {
        sound = λ v m. elim (Bool-cases (contains v f.seen)) [
          | inl old ↦ h.sound v old
          | inr new ↦ step (h.sound cur (h.queued cur head_queued)) (ground (arith, saw v))
        ];
        started = λ v m. ground (arith, saw v, h.started v);
        queued = λ v m. ground (arith, saw v, kept v, in_queue v, h.queued v);
        closed = λ u v m k.
            ground (arith, saw u, saw v, kept u, in_queue u, h.closed u v, text_eq_iff u cur);
      }
    where
      in_queue : (v : Text) → contains v f.queue ≡ (text_eq v cur || contains v rest)
      in_queue v = rw e (unfold contains in refl)

      head_queued : contains cur f.queue ≡ true
      head_queued = ground (arith, in_queue cur, text_eq_iff cur cur)

  search_from-Inv :
      (fuel : ℕ) (f : Frontier)
      → fresh edges f.seen + length f.queue ≤ fuel
      → Inv f
      → (f' : Frontier) × (search_from edges fuel f ≡ f'.seen) × (f'.queue ≡ []) × Inv f'
  unfolding search_from
  search_from-Inv zero f m h = (f, refl, empty f.queue (omega arith), h)
    where
      empty : (q : List Text) → length q ≤ 0 → q ≡ []
      empty [] _ = refl
      empty (x ∷ q) l = absurd (omega arith)
  search_from-Inv (suc fuel) f m h = elim (List-cases f.queue) [
    | inl e ↦ (f, rw (e, search_from), e, h)
    | inr (cur, rest, e) ↦
        let less =
          visit-fresh edges (children_of edges cur) (record f { queue = rest })
            (children_of-targets edges cur) in
        let (f', r, q, i) =
          search_from-Inv fuel (next_frontier cur rest f) (omega (arith, less, ap length e))
            (Inv-next f cur rest e h) in
        (f', rw (e, search_from) r, q, i)
  ]

nothing_queued : (u : Text) (q : List Text) → q ≡ [] → contains u q ≡ true → ⊥
nothing_queued u q e m = cc (ap (contains u) e ∙ contains-nil u)

complete :
    (edges : List DagEdge) (roots : List Text) (f : Frontier)
    → Inv edges roots f
    → f.queue ≡ []
    → {w : Text} → Reach edges roots w
    → contains w f.seen ≡ true
complete edges roots f i q (root m) = i.started _ m
complete edges roots f i q (step {u} {v} d k) =
    elim (i.closed u v (complete edges roots f i q d) k) [
      | inl waiting ↦ absurd (nothing_queued u f.queue q waiting)
      | inr m ↦ m
    ]

fresh-le-length : (es : List DagEdge) (seen : List Text) → fresh es seen ≤ length es
fresh-le-length [] seen = omega arith
fresh-le-length (e ∷ es) seen = ground (arith, fresh-le-length es seen)

-- A search whose first ids are both queued and seen ends with exactly the ids that the edges lead
-- to from these.
pub reachable_from_iff :
    (edges : List DagEdge) (queue seen : List Text) (v : Text)
    → ((u : Text) → contains u seen ≡ contains u queue)
    → (contains v (reachable_from edges queue seen) ≡ true) ↔ Reach edges queue v
unfolding reachable_from
reachable_from_iff edges queue seen v same =
    let f : Frontier = record { queue = queue; seen = seen } in
    let start : Inv edges queue f = record {
      sound = λ u m. root (sym (same u) ∙ m);
      started = λ u m. same u ∙ m;
      queued = λ u m. same u ∙ m;
      closed = λ u w m k. inl (sym (same u) ∙ m);
    } in
    let (f', r, q, i) =
      search_from-Inv edges queue (length queue + length edges) f
        (omega (arith, fresh-le-length edges seen)) start in
    (
      λ m. i.sound v (ap (contains v) (sym r) ∙ m),
      λ d. ap (contains v) r ∙ complete edges queue f' i q d,
    )
