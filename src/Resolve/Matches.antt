-- ===== src/Resolve/Matches.antt =====
-- Which child a node of the graph is resolved to.
use kro_ui.Prelude.{
  Bool, false, ◌&&◌, Option, none, some, List, [], ◌∷◌, ◌++◌, ◌≡◌, refl, sym, ◌⊎◌, inl, inr, arith,
  any, keep, find?,
}
use kro_ui.Prelude.Text.{Text, codes}
use kro_ui.Kube.{K8sObject}
use kro_ui.Resolve.{
  ChildResourceInfo, kind_hint_from_label, child_to_info, first, or_head, has_label, is_kind,
  is_string_kind, first_of_kind, kind_or, info_or, resolve_child_resource_info,
}
use kro_ui.Resolve.First.{IsFirst, find?-IsFirst, find?-none, find?-keep}

-- The test by the node's kind; nothing passes it where no kind is given.
abbrev pub by_kind : (Text → Text) → (Text → K8sObject → Bool) → Option Text → K8sObject → Bool
by_kind lower test none child = false
by_kind lower test (some []) child = false
by_kind lower test (some (c ∷ k)) child = test (lower (c ∷ k)) child

find?-never : (cs : List K8sObject) → find? (λ c. false) cs ≡ none
find?-never [] = refl
find?-never (c ∷ cs) = find?-never cs

first_of_kind-find? :
    (lower : Text → Text) (test : Text → K8sObject → Bool) (k : Option Text) (cs : List K8sObject)
    → first_of_kind lower test k cs ≡ find? (by_kind lower test k) cs
first_of_kind-find? lower test none cs = sym (find?-never cs)
first_of_kind-find? lower test (some []) cs = sym (find?-never cs)
first_of_kind-find? lower test (some (c ∷ k)) cs = refl

first-keep : (p : K8sObject → Bool) (cs : List K8sObject) → first (keep p cs) ≡ find? p cs
first-keep p [] = refl
first-keep p (c ∷ cs) = ground (arith, first-keep p cs)

module _ (lower : Text → Text) (label instance_name : Text) (children : List K8sObject)
    (node_kind : Option Text) where
  -- The name of a node that no child stands for.
  abbrev pub inferred_name : Text
  inferred_name = instance_name ++ codes "-" ++ lower (kind_hint_from_label label)

  abbrev pub inferred : ChildResourceInfo
  inferred = record {
    kind = kind_or node_kind (lower (kind_hint_from_label label));
    name = inferred_name;
    namespace = [];
    group = [];
    version = codes "v1";
  }

  abbrev pub labelled_of_kind : K8sObject → Bool
  labelled_of_kind c = has_label label c && by_kind lower (is_string_kind lower) node_kind c

  abbrev pub of_hint : K8sObject → Bool
  of_hint = is_kind lower (lower (kind_hint_from_label label))

  abbrev pub of_node_kind : K8sObject → Bool
  of_node_kind = by_kind lower (is_kind lower) node_kind

  -- The child is the first that passes the test, and the result describes it.
  abbrev pub Chosen : (K8sObject → Bool) → K8sObject → Type 0
  Chosen p c =
      IsFirst p children c
      × (resolve_child_resource_info lower label instance_name children node_kind
          ≡ some (child_to_info c))

  -- The steps of the lookup, each a search among the children.
  steps :
      resolve_child_resource_info lower label instance_name children node_kind
      ≡ some (
          info_or
            (or_head (find? labelled_of_kind children) (find? (has_label label) children))
            (info_or (find? of_hint children) (info_or (find? of_node_kind children) inferred)))
  unfolding resolve_child_resource_info
  steps =
      let a =
        first_of_kind-find? lower (is_string_kind lower) node_kind
          (keep (has_label label) children) in
      let b =
        find?-keep (has_label label) (by_kind lower (is_string_kind lower) node_kind) children in
      let c = first-keep (has_label label) children in
      let d = first_of_kind-find? lower (is_kind lower) node_kind children in cc

  -- The child with the label and the kind, with the label, of the hinted kind or of the node's kind.
  abbrev pub Resolution : Type 0
  Resolution =
      ((x : K8sObject) × Chosen labelled_of_kind x)
      ⊎ ((x : K8sObject) × (any labelled_of_kind children ≡ false) × Chosen (has_label label) x)
      ⊎ ((x : K8sObject) × (any (has_label label) children ≡ false) × Chosen of_hint x)
      ⊎ ((x : K8sObject) × (any (has_label label) children ≡ false)
          × (any of_hint children ≡ false)
          × Chosen of_node_kind x)
      ⊎ ((any (has_label label) children ≡ false)
          × (any of_hint children ≡ false)
          × (any of_node_kind children ≡ false)
          × (resolve_child_resource_info lower label instance_name children node_kind
              ≡ some inferred))

  chosen :
      (a b c d : Option K8sObject)
      → find? labelled_of_kind children ≡ a
      → find? (has_label label) children ≡ b
      → find? of_hint children ≡ c
      → find? of_node_kind children ≡ d
      → resolve_child_resource_info lower label instance_name children node_kind
        ≡ some (info_or (or_head a b) (info_or c (info_or d inferred)))
      → Resolution
  chosen (some x) b c d e f g h r = inl (x, (find?-IsFirst labelled_of_kind children x e, r))
  chosen none (some x) c d e f g h r = inr (
      inl (
        x,
        find?-none labelled_of_kind children e,
        ((find?-IsFirst (has_label label) children x f, r)),
      ))
  chosen none none (some x) d e f g h r = inr (
      inr
        (inl (x, find?-none (has_label label) children f, (find?-IsFirst of_hint children x g, r))))
  chosen none none none (some x) e f g h r = inr (
      inr (
        inr (
          inl (
            x,
            find?-none (has_label label) children f,
            find?-none of_hint children g,
            (find?-IsFirst of_node_kind children x h, r),
          ))))
  chosen none none none none e f g h r = inr (
      inr (
        inr (
          inr (
            find?-none (has_label label) children f,
            find?-none of_hint children g,
            find?-none of_node_kind children h,
            r,
          ))))

  -- resolveChildResourceInfo always returns a result, never null: it describes the first child with
  -- the node's label and the node's kind; else the first with the label; else the first whose kind is
  -- the one that the label hints at; else the first whose kind is the node's; and else nothing but
  -- the inferred name and kind. Each step is taken only where no child passes the tests before it.
  pub resolve_child_resource_info_lem : Resolution
  resolve_child_resource_info_lem =
      chosen (find? labelled_of_kind children) (find? (has_label label) children)
        (find? of_hint children) (find? of_node_kind children) refl refl refl refl steps
