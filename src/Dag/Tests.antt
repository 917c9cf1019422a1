-- ===== src/Dag/Tests.antt =====
-- The theorems on the graph at a concrete specification, and runs of its operations.
use kro_ui.Prelude.{List, true, none, some, [], ◌∷◌, ◌++◌, ◌≡◌, refl, ◌&&◌, arith, ◌↔◌, ◌⊎◌}
use kro_ui.Prelude.Text.{Text, codes, text_eq, starts_with}
use kro_ui.Prelude.Sets.{contains, insert, distinct}
use kro_ui.Prelude.Chars.{is_word, is_letter, is_digit}
use kro_ui.Json.{
  elements, get, prop, strings, as_string_array, Json, str, obj, arr, nil, cons, Fields, end, field,
}
use kro_ui.Kube.{K8sObject}
use kro_ui.Dag.{DagEdge}
use kro_ui.Dag.Expressions.{
  walk_items, walk_fields, extract_expressions, close_from, after_marker, extract_from,
  walk_template,
}
use kro_ui.Dag.Expressions.Sound.{Extracts, Occurs, extract_expressions_sound}
use kro_ui.Dag.Expressions.Balanced.{IsLiteral, done, char, quoted, extract_expressions-balanced}
use kro_ui.Dag.References.{
  collect_ids, note_ids, strip, identifiers, identifiers_from, flush, extract_referenced_ids,
}
use kro_ui.Dag.References.Mentions.{mentions, eligible, extract_referenced_ids_lem}
use kro_ui.Dag.Classify.{
  classify_resource, extract_for_each_display, find_chained_rgd_name, detect_kro_instance,
}
use kro_ui.Dag.Classify.Chaining.{FirstNamed, NoneNamed, find_chained_rgd_name_lem}
use kro_ui.Dag.Search.{search_from, visit, children_of, reachable_from}
use kro_ui.Dag.Search.Closed.{reachable_from_iff, Reach}
use kro_ui.Dag.Graph.{
  add_ids, resource_node, connect, add_fallback, fallback_round, dedupe, add_edge, raw_edges,
  edges_into, node_refs, propagate, mark_all, mark_conditional, insert_all, root_node, cel_of,
  kind_of, assemble, edge_keys, has_node, schema_id, resource_nodes, resources_of, conditional_ids,
}
use kro_ui.Dag.Graph.Conditional.{conditional}
use kro_ui.Dag.Graph.Connected.{refers, roots_of_graph}
use kro_ui.Dag.Graph.Assembled.{
  ids_of, declared, references, assemble-Reach, assemble-edges, assemble-conditional,
}

extract_expressions_sound_example :
    Extracts (codes "x-${a.b}") (extract_expressions (codes "x-${a.b}"))
    × Occurs (codes "x-${a.b}") (extract_expressions (codes "x-${a.b}"))
extract_expressions_sound_example = extract_expressions_sound (codes "x-${a.b}")

-- A literal that holds a closing brace.
extract_expressions-balanced_example :
    extract_expressions (codes "x-" ++ b'$' ∷ b'{' ∷ (codes "a+\"}\"" ++ b'}' ∷ codes "!"))
    ≡ codes "a+\"}\"" ∷ extract_expressions (codes "!")
extract_expressions-balanced_example =
    extract_expressions-balanced (codes "x-") (codes "!")
      ((λ e. ground arith), ((λ e. ground arith), tt))
      (char (λ e. ground arith) (λ e. ground arith) (λ e. ground arith)
        (char (λ e. ground arith) (λ e. ground arith) (λ e. ground arith)
          (quoted {s = codes "}"} {t = []} refl refl
            (IsLiteral.char (λ e. ground arith) (λ e. ground arith) IsLiteral.done) done)))

-- In a literal with the other quote, the brace ends the expression.
other_quote : extract_expressions (codes "${'}'}") ≡ codes "'" ∷ []
unfolding extract_expressions extract_from after_marker close_from
other_quote = refl

extract_referenced_ids_lem_example :
    ((id : Text)
      → contains id (
          extract_referenced_ids
            (codes "web.status + 'db'" ∷ [])
            (codes "web" ∷ codes "db" ∷ [])
            [])
        ≡ (mentions id (codes "web.status + 'db'" ∷ [])
            && eligible (codes "web" ∷ codes "db" ∷ []) [] id))
    × (distinct (
          extract_referenced_ids
            (codes "web.status + 'db'" ∷ [])
            (codes "web" ∷ codes "db" ∷ [])
            [])
        ≡ true)
extract_referenced_ids_lem_example =
    extract_referenced_ids_lem (codes "web.status + 'db'" ∷ []) (codes "web" ∷ codes "db" ∷ []) []

abbrev rgd : K8sObject
rgd = field (codes "metadata") (obj (field (codes "name") (str (codes "web-app")) end)) (
    field (codes "spec")
      (obj (field (codes "schema") (obj (field (codes "kind") (str (codes "WebApp")) end)) end))
      end)

find_chained_rgd_name_lem_example :
    ((name : Text)
      → find_chained_rgd_name (codes "WebApp") (rgd ∷ []) ≡ some name
      → (detect_kro_instance (codes "WebApp") (rgd ∷ []) ≡ true)
        × FirstNamed (codes "WebApp") (rgd ∷ []) name)
    × (find_chained_rgd_name (codes "WebApp") (rgd ∷ []) ≡ none
        → (codes "WebApp" ≡ []) ⊎ NoneNamed (codes "WebApp") (rgd ∷ []))
find_chained_rgd_name_lem_example = find_chained_rgd_name_lem (codes "WebApp") (rgd ∷ [])

abbrev entry : Text → Text → Fields → Json
entry id value rest = obj (
    field (codes "id") (str id)
      (field (codes "template") (obj (field (codes "v") (str value) end)) rest))

-- `db` is conditional, `web` refers to `db`, and nothing refers to the root.
abbrev spec : Fields
spec =
    field (codes "resources")
      (arr (
        cons
          (entry (codes "db") (codes "x")
            (field (codes "includeWhen") (arr (cons (str (codes "${on}")) nil)) end))
          (cons (entry (codes "web") (codes "${db.host}") end) nil)))
      end

web_is_node : has_node (codes "web") (assemble spec none).nodes ≡ true
unfolding assemble add_ids resource_nodes resource_node connect add_fallback fallback_round dedupe
    add_edge raw_edges edges_into node_refs edge_keys propagate mark_all mark_conditional
    conditional_ids insert_all root_node cel_of kind_of text_eq starts_with contains insert elements
    get prop strings as_string_array reachable_from search_from visit children_of
    extract_referenced_ids collect_ids note_ids strip identifiers identifiers_from flush is_word
    is_letter is_digit extract_expressions extract_from after_marker close_from walk_template
    walk_items walk_fields classify_resource extract_for_each_display
web_is_node = refl

assemble-Reach_example : Reach (assemble spec none).edges roots_of_graph (codes "web")
assemble-Reach_example = assemble-Reach spec none (codes "web") web_is_node

assemble-edges_example :
    (distinct (edge_keys (assemble spec none).edges) ≡ true)
    × ((u v : Text)
        → (contains v (children_of (assemble spec none).edges u) ≡ true) ↔ (
            (refers (ids_of spec) (resource_nodes none (resources_of spec)) u v ≡ true)
            ⊎ ((u ≡ schema_id)
                × (has_node v (declared spec none) ≡ true)
                × ¬ Reach (references spec none) roots_of_graph v)))
assemble-edges_example = assemble-edges spec none

assemble-conditional_example :
    (conditional (codes "web") (assemble spec none).nodes ≡ true)
    ↔ Reach (assemble spec none).edges (conditional_ids (declared spec none)) (codes "web")
assemble-conditional_example = assemble-conditional spec none (codes "web") web_is_node

-- What is conditional reaches over the reference to `db`: `web` is conditional as well.
web_is_conditional : conditional (codes "web") (assemble spec none).nodes ≡ true
unfolding assemble add_ids resource_nodes resource_node connect add_fallback fallback_round dedupe
    add_edge raw_edges edges_into node_refs edge_keys propagate mark_all mark_conditional
    conditional_ids insert_all root_node cel_of kind_of text_eq starts_with contains insert elements
    get prop strings as_string_array reachable_from search_from visit children_of
    extract_referenced_ids collect_ids note_ids strip identifiers identifiers_from flush is_word
    is_letter is_digit extract_expressions extract_from after_marker close_from walk_template
    walk_items walk_fields classify_resource extract_for_each_display
web_is_conditional = refl

assembled_edges :
    edge_keys (assemble spec none).edges
    ≡ codes "db→web" ∷ codes "schema→db" ∷ codes "schema→web" ∷ []
unfolding assemble add_ids resource_nodes resource_node connect add_fallback fallback_round dedupe
    add_edge raw_edges edges_into node_refs edge_keys propagate mark_all mark_conditional
    conditional_ids insert_all root_node cel_of kind_of text_eq starts_with contains insert elements
    get prop strings as_string_array reachable_from search_from visit children_of
    extract_referenced_ids collect_ids note_ids strip identifiers identifiers_from flush is_word
    is_letter is_digit extract_expressions extract_from after_marker close_from walk_template
    walk_items walk_fields classify_resource extract_for_each_display
assembled_edges = refl

abbrev two_edges : List DagEdge
two_edges =
    record { from = codes "a"; to = codes "b" } ∷ record { from = codes "b"; to = codes "a" } ∷ []

reachable_from_iff_example :
    (contains (codes "b") (reachable_from two_edges (codes "a" ∷ []) (codes "a" ∷ [])) ≡ true)
    ↔ Reach two_edges (codes "a" ∷ []) (codes "b")
reachable_from_iff_example =
    reachable_from_iff two_edges (codes "a" ∷ []) (codes "a" ∷ []) (codes "b") (λ u. refl)
