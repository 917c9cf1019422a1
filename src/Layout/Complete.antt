-- ===== src/Layout/Complete.antt =====
-- The layout of the layers: every node has one box, and the boxes do not overlap.
use kro_ui.Prelude.{ℕ, ◌+◌, ◌-◌, List, [], ◌∷◌, ◌++◌, map, ◌≡◌, ◌≢◌, refl, ◌∙◌, ap, sym, arith, All}
use mathlib.Core.List.{flatten}
use kro_ui.Prelude.Text.{Text, text_eq_refl}
use kro_ui.Dag.{padding}
use kro_ui.Layout.{Position, width_of, height_of, place}
use kro_ui.Layout.Boxes.{IsWithin, AreApart, size_of_box, size_of_node, place-AreApart}
use kro_ui.Layout.Order.{reduce_crossings, layout_layers}
use kro_ui.Layout.Permuted.{occurrences, SameLayers, reduce_crossings-SameLayers}

pub occurrences-append :
    (q : Text) (xs ys : List Text) → occurrences q (xs ++ ys) ≡ occurrences q xs + occurrences q ys
occurrences-append q [] ys = omega arith
occurrences-append q (x ∷ xs) ys = ground (arith, occurrences-append q xs ys)

-- Permuted layers hold the same ids together.
occurrences-flatten :
    (q : Text) (ls ms : List (List Text))
    → SameLayers ls ms
    → occurrences q (flatten ls) ≡ occurrences q (flatten ms)
unfolding flatten
occurrences-flatten q [] [] h = refl
occurrences-flatten q [] (m ∷ ms) h = absurd h
occurrences-flatten q (l ∷ ls) [] h = absurd h
occurrences-flatten q (l ∷ ls) (m ∷ ms) (a, h) = ground (
  arith,
  a q,
  occurrences-append q l (flatten ls),
  occurrences-append q m (flatten ms),
  occurrences-flatten q ls ms h,
)

not_nil : (l m : List Text) → ((q : Text) → occurrences q l ≡ occurrences q m) → m ≢ [] → l ≢ []
not_nil l [] h n e = absurd (n refl)
not_nil l (x ∷ m) h n e =
    let z = text_eq_refl x in let k = ap (occurrences x) (sym e) ∙ h x in ground (arith, z, k)

-- No layer becomes empty.
filled : (ls ms : List (List Text)) → SameLayers ls ms → All (λ l. l ≢ []) ms → All (λ l. l ≢ []) ls
filled [] [] h n = tt
filled [] (m ∷ ms) h n = absurd h
filled (l ∷ ls) [] h n = absurd h
filled (l ∷ ls) (m ∷ ms) (a, h) (n, k) = (not_nil l m a n, filled ls ms h k)

-- The box has the size of its node.
abbrev pub HasSize : Text → List (Text × ℕ) → Position → Type 0
HasSize root_id node_heights p =
    (p.width ≡ width_of root_id node_heights p.id)
    × (p.height ≡ height_of root_id node_heights p.id)

sizes_lem :
    (root_id : Text) (node_heights : List (Text × ℕ)) (ps : List Position) (ids : List Text)
    → map (size_of_box root_id node_heights) ps ≡ map (size_of_node root_id node_heights) ids
    → All (HasSize root_id node_heights) ps × (map (λ p. p.id) ps ≡ ids)
sizes_lem root_id node_heights [] [] h = (tt, refl)
sizes_lem root_id node_heights [] (id ∷ ids) h = ground (arith, h)
sizes_lem root_id node_heights (p ∷ ps) [] h = ground (arith, h)
sizes_lem root_id node_heights (p ∷ ps) (id ∷ ids) h =
    let a : p.id ≡ id = ground (arith, h) in
    let b : p.width ≡ width_of root_id node_heights id = ground (arith, h) in
    let c : p.height ≡ height_of root_id node_heights id = ground (arith, h) in
    let t : map (size_of_box root_id node_heights) ps
        ≡ map (size_of_node root_id node_heights) ids =
      ground (arith, h) in
    let (k, e) = sizes_lem root_id node_heights ps ids t in
    (
      (
        (
          b ∙ ap (width_of root_id node_heights) (sym a),
          c ∙ ap (height_of root_id node_heights) (sym a),
        ),
        k,
      ),
      ap (λ x. x ∷ map (λ q. q.id) ps) a ∙ ap (λ r. id ∷ r) e,
    )

-- The layout of layers none of which is empty, whatever the neighbours are: each id has as many boxes
-- as it stands in the layers; every box has the size of its node and keeps the padding from the
-- borders of the layout's width and height; and of two boxes the first lies to the left of the second
-- or above it, with the gap between them.
pub layout_layers-AreApart :
    (root_id : Text) (node_heights : List (Text × ℕ)) (parents children : List (Text × List Text))
    (ls : List (List Text))
    → All (λ l. l ≢ []) ls
    → ((q : Text)
        → occurrences q
            (map (λ p. p.id) (layout_layers root_id node_heights parents children ls).positions)
          ≡ occurrences q (flatten ls))
      × All
          (HasSize root_id node_heights)
          (layout_layers root_id node_heights parents children ls).positions
      × All
          (IsWithin padding
            ((layout_layers root_id node_heights parents children ls).width - padding)
            padding
            ((layout_layers root_id node_heights parents children ls).height - padding))
          (layout_layers root_id node_heights parents children ls).positions
      × AreApart (layout_layers root_id node_heights parents children ls).positions
unfolding layout_layers
layout_layers-AreApart root_id node_heights parents children ls n =
    let ms = reduce_crossings parents children ls in
    let same = reduce_crossings-SameLayers parents children ls in
    let (u, w, a) = place-AreApart root_id node_heights ms (filled ms ls same n) in
    let (s, e) =
      sizes_lem root_id node_heights (place root_id node_heights ms).positions (flatten ms) u in
    ((λ q. ap (occurrences q) e ∙ occurrences-flatten q ms ls same), s, w, a)
