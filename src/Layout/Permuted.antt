-- ===== src/Layout/Permuted.antt =====
-- The crossing reduction permutes each layer.
use kro_ui.Prelude.{ℕ, ◌+◌, List, [], ◌∷◌, map, ◌≡◌, refl, ◌∙◌, ap, arith, length, keep}
use kro_ui.Prelude.Text.{Text, text_eq}
use kro_ui.Layout.Order.{
  Barycenter, barycenter, barycenters, insert_entry, sort_entries, index_all, reorder_by_barycenter,
  sweep_from, sweep_down, reorder_by_next, sweep_up, reduce_crossings,
}

-- How often the id stands in the layer.
abbrev pub occurrences : Text → List Text → ℕ
occurrences q l = length (keep (λ id. text_eq id q) l)

insert_entry_lem :
    (q : Text) (a : Barycenter) (bs : List Barycenter)
    → occurrences q (map (λ b. b.id) (insert_entry a bs))
      ≡ occurrences q (a.id ∷ map (λ b. b.id) bs)
unfolding insert_entry
insert_entry_lem q a [] = refl
insert_entry_lem q a (b ∷ bs) = ground (arith, insert_entry_lem q a bs)

sort_entries_lem :
    (q : Text) (bs : List Barycenter)
    → occurrences q (map (λ b. b.id) (sort_entries bs)) ≡ occurrences q (map (λ b. b.id) bs)
unfolding sort_entries
sort_entries_lem q [] = refl
sort_entries_lem q (b ∷ bs) =
    ground (arith, insert_entry_lem q b (sort_entries bs), sort_entries_lem q bs)

barycenter_id :
    (pos : List (Text × ℕ)) (i : ℕ) (id : Text) (ns : List Text) → (barycenter pos i id ns).id ≡ id
barycenter_id pos i id [] = refl
barycenter_id pos i id (n ∷ ns) = refl

barycenters_ids :
    (pos : List (Text × ℕ)) (neighbors : List (Text × List Text)) (i : ℕ) (ids : List Text)
    → map (λ b. b.id) (barycenters pos neighbors i ids) ≡ ids
unfolding barycenters
barycenters_ids pos neighbors i [] = refl
barycenters_ids pos neighbors i (id ∷ ids) =
    ap (λ x. x ∷ map (λ b. b.id) (barycenters pos neighbors (i + 1) ids)) (barycenter_id pos i id _)
    ∙ ap (λ r. id ∷ r) (barycenters_ids pos neighbors (i + 1) ids)

reorder_lem :
    (q : Text) (l fixed : List Text) (neighbors : List (Text × List Text))
    → occurrences q (reorder_by_barycenter l fixed neighbors) ≡ occurrences q l
unfolding reorder_by_barycenter
reorder_lem q l fixed neighbors =
    let pos = index_all 0 fixed [] in
    sort_entries_lem q (barycenters pos neighbors 0 l)
    ∙ ap (occurrences q) (barycenters_ids pos neighbors 0 l)

-- The layers hold the same ids, each layer in some order.
abbrev pub SameLayers : List (List Text) → List (List Text) → Type 0
SameLayers [] [] = Unit
SameLayers (l ∷ ls) (m ∷ ms) = ((q : Text) → occurrences q l ≡ occurrences q m) × SameLayers ls ms
SameLayers _ _ = ⊥

SameLayers-refl : (ls : List (List Text)) → SameLayers ls ls
SameLayers-refl [] = tt
SameLayers-refl (l ∷ ls) = ((λ q. refl), SameLayers-refl ls)

SameLayers-trans :
    (ls ms ns : List (List Text)) → SameLayers ls ms → SameLayers ms ns → SameLayers ls ns
SameLayers-trans [] [] [] h k = tt
SameLayers-trans [] [] (n ∷ ns) h k = absurd k
SameLayers-trans [] (m ∷ ms) ns h k = absurd h
SameLayers-trans (l ∷ ls) [] ns h k = absurd h
SameLayers-trans (l ∷ ls) (m ∷ ms) [] h k = absurd k
SameLayers-trans (l ∷ ls) (m ∷ ms) (n ∷ ns) (a, h) (b, k) =
    ((λ q. a q ∙ b q), SameLayers-trans ls ms ns h k)

sweep_from-SameLayers :
    (parents : List (Text × List Text)) (above : List Text) (ls : List (List Text))
    → SameLayers (sweep_from parents above ls) ls
unfolding sweep_from
sweep_from-SameLayers parents above [] = tt
sweep_from-SameLayers parents above (l ∷ ls) = (
  (λ q. reorder_lem q l above parents),
  sweep_from-SameLayers parents (reorder_by_barycenter l above parents) ls,
)

sweep_down-SameLayers :
    (parents : List (Text × List Text)) (ls : List (List Text))
    → SameLayers (sweep_down parents ls) ls
unfolding sweep_down
sweep_down-SameLayers parents [] = tt
sweep_down-SameLayers parents (l ∷ ls) = ((λ q. refl), sweep_from-SameLayers parents l ls)

reorder_by_next-SameLayers :
    (children : List (Text × List Text)) (l : List Text) (ms ls : List (List Text))
    → SameLayers ms ls
    → SameLayers (reorder_by_next children l ms) (l ∷ ls)
reorder_by_next-SameLayers children l [] ls h = ((λ q. refl), h)
reorder_by_next-SameLayers children l (m ∷ ms) ls h = ((λ q. reorder_lem q l m children), h)

sweep_up-SameLayers :
    (children : List (Text × List Text)) (ls : List (List Text))
    → SameLayers (sweep_up children ls) ls
unfolding sweep_up
sweep_up-SameLayers children [] = tt
sweep_up-SameLayers children (l ∷ ls) =
    reorder_by_next-SameLayers children l (sweep_up children ls) ls
      (sweep_up-SameLayers children ls)

-- The crossing reduction keeps the number of layers and, of each layer, how often each id stands in
-- it, whatever the neighbours are.
pub reduce_crossings-SameLayers :
    (parents children : List (Text × List Text)) (layers : List (List Text))
    → SameLayers (reduce_crossings parents children layers) layers
unfolding reduce_crossings
reduce_crossings-SameLayers parents children layers =
    let one = sweep_down parents layers in
    let two = sweep_up children one in
    let three = sweep_down parents two in
    SameLayers-trans (sweep_up children three) three layers (sweep_up-SameLayers children three) (
      SameLayers-trans three two layers (sweep_down-SameLayers parents two) (
        SameLayers-trans two one layers (sweep_up-SameLayers children one)
          (sweep_down-SameLayers parents layers)))
