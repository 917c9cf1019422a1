-- ===== src/Dag/References/Mentions.antt =====
-- The referenced ids are the known ones that occur, each once.
use kro_ui.Prelude.{Bool, true, not, ◌&&◌, ◌||◌, List, [], ◌∷◌, ◌≡◌, refl, ◌∙◌, arith, any}
use kro_ui.Prelude.Text.{Text, text_eq_iff}
use kro_ui.Prelude.Sets.{contains, insert, distinct, contains-insert, distinct-insert}
use kro_ui.Dag.References.{identifiers, strip, note_ids, collect_ids, extract_referenced_ids}

-- The test that an identifier passes to be noted.
abbrev pub eligible : List Text → List Text → Text → Bool
eligible known exclude id = contains id known && not (contains id exclude)

note_ids_lem :
    (known exclude ids found : List Text) (id : Text)
    → contains id (note_ids known exclude ids found)
      ≡ (contains id found || contains id ids && eligible known exclude id)
unfolding note_ids contains
note_ids_lem known exclude [] found id = ground arith
note_ids_lem known exclude (j ∷ ids) found id = ground (
  arith,
  note_ids_lem known exclude ids found id,
  note_ids_lem known exclude ids (insert j found) id,
  contains-insert id j found,
  text_eq_iff id j,
)

note_ids-distinct :
    (known exclude ids found : List Text)
    → distinct found ≡ true
    → distinct (note_ids known exclude ids found) ≡ true
unfolding note_ids
note_ids-distinct known exclude [] found h = h
note_ids-distinct known exclude (j ∷ ids) found h =
    note_ids-distinct known exclude ids _ (ground (arith, distinct-insert j found))

abbrev pub mentions : Text → List Text → Bool
mentions id = any (λ e. contains id (identifiers (strip e)))

collect_ids_lem :
    (known exclude exprs found : List Text) (id : Text)
    → contains id (collect_ids known exclude exprs found)
      ≡ (contains id found || mentions id exprs && eligible known exclude id)
unfolding collect_ids
collect_ids_lem known exclude [] found id = ground arith
collect_ids_lem known exclude (e ∷ exprs) found id = ground (
  arith,
  collect_ids_lem known exclude exprs (note_ids known exclude (identifiers (strip e)) found) id,
  note_ids_lem known exclude (identifiers (strip e)) found id,
)

collect_ids-distinct :
    (known exclude exprs found : List Text)
    → distinct found ≡ true
    → distinct (collect_ids known exclude exprs found) ≡ true
unfolding collect_ids
collect_ids-distinct known exclude [] found h = h
collect_ids-distinct known exclude (e ∷ exprs) found h =
    collect_ids-distinct known exclude exprs _
      (note_ids-distinct known exclude (identifiers (strip e)) found h)

-- The ids that a node's expressions refer to are exactly the known ids that are an identifier of
-- one of them and no iterator variable, and none is listed twice.
pub extract_referenced_ids_lem :
    (exprs known exclude : List Text)
    → ((id : Text)
        → contains id (extract_referenced_ids exprs known exclude)
          ≡ (mentions id exprs && eligible known exclude id))
      × (distinct (extract_referenced_ids exprs known exclude) ≡ true)
unfolding extract_referenced_ids
extract_referenced_ids_lem exprs known exclude = (
  λ id. collect_ids_lem known exclude exprs [] id ∙ (unfold contains in refl),
  collect_ids-distinct known exclude exprs [] (unfold distinct in refl),
)
