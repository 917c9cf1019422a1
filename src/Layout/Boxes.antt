-- ===== src/Layout/Boxes.antt =====
-- The boxes of a layout do not overlap and lie within its size.
use kro_ui.Prelude.{
  ℕ, ◌+◌, ◌-◌, ◌/◌, ◌≤◌, List, [], ◌∷◌, ◌++◌, ◌≡◌, ◌≢◌, refl, ◌⊎◌, inl, inr, arith, All, All-append,
  map, map-append, ap, sym, ◌∙◌,
}
use mathlib.Core.List.{flatten}
use kro_ui.Prelude.Text.{Text}
use kro_ui.Dag.{h_gap, v_gap, padding}
use kro_ui.Layout.{
  Position, width_of, height_of, layer_width, max_layer_width, layer_height, place_layer,
  place_layers, place,
}

-- The box lies between the coordinates.
abbrev pub IsWithin : ℕ → ℕ → ℕ → ℕ → Position → Type 0
IsWithin left right top bottom p =
    (left ≤ p.x) × (p.x + p.width ≤ right) × (top ≤ p.y) × (p.y + p.height ≤ bottom)

-- The first box lies to the left of the second or above it, with the gap between them.
abbrev pub IsBefore : Position → Position → Type 0
IsBefore p q = (p.x + p.width + h_gap ≤ q.x) ⊎ (p.y + p.height + v_gap ≤ q.y)

abbrev pub AreApart : List Position → Type 0
AreApart [] = Unit
AreApart (p ∷ ps) = All (IsBefore p) ps × AreApart ps

All-map :
    {P Q : Position → Type 0} (ps : List Position)
    → ((p : Position) → P p → Q p)
    → All P ps
    → All Q ps
All-map [] f h = tt
All-map (p ∷ ps) f (h, k) = (f p h, All-map ps f k)

-- Two groups of boxes, one above the other.
apart-append :
    (ps qs : List Position) (left right top mid bottom : ℕ)
    → AreApart ps
    → AreApart qs
    → All (IsWithin left right top mid) ps
    → All (IsWithin left right (mid + v_gap) bottom) qs
    → AreApart (ps ++ qs)
apart-append [] qs left right top mid bottom a b h k = b
apart-append (p ∷ ps) qs left right top mid bottom (u, a) b ((_, _, _, v), h) k = (
  All-append (IsBefore p) ps qs u (All-map qs (λ q (_, _, t, _). inr (omega (arith, v, t))) k),
  apart-append ps qs left right top mid bottom a b h k,
)

module _ (root_id : Text) (node_heights : List (Text × ℕ)) where
  -- The width of a layer with another node in front.
  layer_width-cons :
      (id jd : Text) (ids : List Text)
      → layer_width root_id node_heights (id ∷ jd ∷ ids)
        ≡ width_of root_id node_heights id + h_gap + layer_width root_id node_heights (jd ∷ ids)
  unfolding layer_width
  layer_width-cons id jd ids = omega arith

  -- The boxes of a layer stand between its start and its end.
  place_layer-IsWithin :
      (y h x : ℕ) (id : Text) (ids : List Text)
      → layer_height root_id node_heights (id ∷ ids) ≤ h
      → All
          (IsWithin x (x + layer_width root_id node_heights (id ∷ ids)) y (y + h))
          (place_layer root_id node_heights y h x (id ∷ ids))
  unfolding place_layer layer_height
  place_layer-IsWithin y h x id [] k =
      ((omega arith, unfold layer_width in omega arith, omega arith, omega (arith, k)), tt)
  place_layer-IsWithin y h x id (jd ∷ ids) k =
      let e = layer_width-cons id jd ids in
      let w = width_of root_id node_heights id in
      let z = layer_width root_id node_heights (jd ∷ ids) in
      (
        (omega arith, omega (arith, e), omega arith, omega (arith, k)),
        All-map (place_layer root_id node_heights y h (x + w + h_gap) (jd ∷ ids))
            (λ q (a, b, c, d). (omega (arith, a), omega (arith, b, e), c, d))
            (place_layer-IsWithin y h (x + w + h_gap) jd ids (omega (arith, k))),
      )

  place_layer-AreApart :
      (y h x : ℕ) (id : Text) (ids : List Text)
      → layer_height root_id node_heights (id ∷ ids) ≤ h
      → AreApart (place_layer root_id node_heights y h x (id ∷ ids))
  unfolding place_layer layer_height
  place_layer-AreApart y h x id [] k = (tt, tt)
  place_layer-AreApart y h x id (jd ∷ ids) k =
      let w = width_of root_id node_heights id in
      (
        All-map (place_layer root_id node_heights y h (x + w + h_gap) (jd ∷ ids))
            (λ q (a, b, c, d). inl (omega (arith, a)))
            (place_layer-IsWithin y h (x + w + h_gap) jd ids (omega (arith, k))),
        place_layer-AreApart y h (x + w + h_gap) jd ids (omega (arith, k)),
      )

  -- The last `currentY` does not lie above the first.
  end_lem : (m y : ℕ) (ls : List (List Text)) → y ≤ (place_layers root_id node_heights m y ls).1
  unfolding place_layers
  end_lem m y [] = omega arith
  end_lem m y (l ∷ ls) =
      let e = end_lem m (y + layer_height root_id node_heights l + v_gap) ls in omega (arith, e)

  -- The boxes from a layer on, the last `currentY` being `end`.
  abbrev pub ArePlaced : ℕ → ℕ → List Position × ℕ → Type 0
  ArePlaced m y (ps, end) = All (IsWithin padding (padding + m) y (end - v_gap)) ps × AreApart ps

  place_layers-ArePlaced :
      (m y : ℕ) (ls : List (List Text))
      → max_layer_width root_id node_heights ls ≤ m
      → All (λ l. l ≢ []) ls
      → ArePlaced m y (place_layers root_id node_heights m y ls)
  unfolding place_layers max_layer_width
  place_layers-ArePlaced m y [] k n = (tt, tt)
  place_layers-ArePlaced m y ([] ∷ ls) k (n, _) = absurd (n refl)
  place_layers-ArePlaced m y ((id ∷ ids) ∷ ls) k (_, n) =
      let l = id ∷ ids in
      let h = layer_height root_id node_heights l in
      let x = padding + (m - layer_width root_id node_heights l) / 2 in
      let later = place_layers root_id node_heights m (y + h + v_gap) ls in
      let e = end_lem m (y + h + v_gap) ls in
      let (u, v) = place_layers-ArePlaced m (y + h + v_gap) ls (omega (arith, k)) n in
      let r = place_layer-IsWithin y h x id ids (omega arith) in
      let row = place_layer root_id node_heights y h x l in
      (
        All-append (IsWithin padding (padding + m) y (later.1 - v_gap)) row later.0
            (All-map row
              (λ q (a, b, c, d). (omega (arith, a), omega (arith, b, k), c, omega (arith, d, e))) r)
            (All-map later.0 (λ q (a, b, c, d). (a, b, omega (arith, c), d)) u),
        apart-append row later.0 padding (padding + m) y (y + h) (later.1 - v_gap)
            (place_layer-AreApart y h x id ids (omega arith)) v
            (All-map row (λ q (a, b, c, d). (omega (arith, a), omega (arith, b, k), c, d)) r) u,
      )

  -- The id and the size of a box, and of a node.
  abbrev pub size_of_box : Position → Text × ℕ × ℕ
  size_of_box p = (p.id, p.width, p.height)

  abbrev pub size_of_node : Text → Text × ℕ × ℕ
  size_of_node id = (id, width_of root_id node_heights id, height_of root_id node_heights id)

  place_layer_sizes :
      (y h x : ℕ) (l : List Text)
      → map size_of_box (place_layer root_id node_heights y h x l) ≡ map size_of_node l
  unfolding place_layer
  place_layer_sizes y h x [] = refl
  place_layer_sizes y h x (id ∷ ids) =
      ap (λ r. size_of_node id ∷ r)
        (place_layer_sizes y h (x + width_of root_id node_heights id + h_gap) ids)

  place_layers_sizes :
      (m y : ℕ) (ls : List (List Text))
      → map size_of_box (place_layers root_id node_heights m y ls).0 ≡ map size_of_node (flatten ls)
  unfolding place_layers flatten
  place_layers_sizes m y [] = refl
  place_layers_sizes m y (l ∷ ls) =
      let h = layer_height root_id node_heights l in
      let x = padding + (m - layer_width root_id node_heights l) / 2 in
      let later = place_layers root_id node_heights m (y + h + v_gap) ls in
      map-append size_of_box (place_layer root_id node_heights y h x l) later.0
      ∙ ap (λ r. r ++ map size_of_box later.0) (place_layer_sizes y h x l)
      ∙ ap (λ r. map size_of_node l ++ r) (place_layers_sizes m (y + h + v_gap) ls)
      ∙ sym (map-append size_of_node l (flatten ls))

  -- The layout of layers none of which is empty: every node has a box of its own size, in the order of
  -- the layers; every box keeps the padding from the borders of the layout's width and height; and of
  -- two boxes the first lies to the left of the second or above it, with the gap between them.
  pub place-AreApart :
      (ls : List (List Text))
      → All (λ l. l ≢ []) ls
      → (map size_of_box (place root_id node_heights ls).positions ≡ map size_of_node (flatten ls))
        × All
            (IsWithin padding
              ((place root_id node_heights ls).width - padding)
              padding
              ((place root_id node_heights ls).height - padding))
            (place root_id node_heights ls).positions
        × AreApart (place root_id node_heights ls).positions
  unfolding place
  place-AreApart ls n =
      let m = max_layer_width root_id node_heights ls in
      let placed = place_layers root_id node_heights m padding ls in
      let (u, v) = place_layers-ArePlaced m padding ls (omega arith) n in
      (
        place_layers_sizes m padding ls,
        All-map placed.0 (λ q (a, b, c, d). (a, omega (arith, b), c, omega (arith, d))) u,
        v,
      )
