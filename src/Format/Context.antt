-- ===== src/Format/Context.antt =====
-- Which contexts are abbreviated, and how.
use kro_ui.Prelude.{
  ◌-◌, ◌≤◌, false, Option, none, some, [], ◌∷◌, ◌++◌, ◌≡◌, ◌≢◌, subst, refl, ap, sym, ◌∙◌, ◌⊎◌, ◌↔◌,
  inl, inr, arith, any, ◌==◌, leb, length, take, drop, length-take, length-drop, take-append-drop,
  drop-add, Option-cases, Bool-cases, ◌>>=◌,
}
use kro_ui.Prelude.Text.{Text, codes}
use kro_ui.Format.{
  until_colon, field_of, is_line_end, after_prefix, whole_line, eks_match, eks_region, eks_account,
  eks_cluster, short_account, abbreviate_context,
}

-- A text is an EKS cluster's ARN, with the account and the name of the cluster, between colons (58).
abbrev pub IsEks : Text → Text → Text → Type 0
IsEks ctx account name =
    (region : Text) × (ctx
      ≡ codes "arn:aws:eks:" ++ (region ++ 58 ∷ (account ++ 58 ∷ (codes "cluster/" ++ name))))
    × (region ≢ [])
    × (any (λ c. c == 58) region ≡ false)
    × (account ≢ [])
    × (any (λ c. c == 58) account ≡ false)
    × (name ≢ [])
    × (any is_line_end name ≡ false)

after_prefix_sound : (p s t : Text) → after_prefix p s ≡ some t → s ≡ p ++ t
unfolding after_prefix
after_prefix_sound [] s t h = ground (arith, h)
after_prefix_sound (c ∷ p) [] t h = ground (arith, h)
after_prefix_sound (c ∷ p) (d ∷ s) t h = ground (arith, h, after_prefix_sound p s t)

after_prefix_append : (p t : Text) → after_prefix p (p ++ t) ≡ some t
unfolding after_prefix
after_prefix_append [] t = refl
after_prefix_append (c ∷ p) t = ground (arith, after_prefix_append p t)

until_colon_sound :
    (s a b : Text)
    → until_colon s ≡ some (a, b)
    → (s ≡ a ++ 58 ∷ b) × (any (λ c. c == 58) a ≡ false)
unfolding until_colon
until_colon_sound [] a b h = ground (arith, h)
until_colon_sound (c ∷ s) a b h = elim (Bool-cases (c == 58)) [
  | inl e ↦ ground (arith, h, e)
  | inr e ↦ elim (Option-cases (until_colon s)) [
    | inl n ↦ ground (arith, h, e, n)
    | inr ((x, y), f) ↦ let (g, k) = until_colon_sound s x y f in ground (arith, h, e, f, g, k)
  ]
]

until_colon_append :
    (a b : Text) → any (λ c. c == 58) a ≡ false → until_colon (a ++ 58 ∷ b) ≡ some (a, b)
unfolding until_colon
until_colon_append [] b h = ground arith
until_colon_append (c ∷ a) b h = ground (arith, h, until_colon_append a b)

bind_some :
    {A B : Type 0} (o : Option A) (f : A → Option B) (b : B)
    → (o >>= f) ≡ some b
    → (a : A) × (o ≡ some a) × (f a ≡ some b)
bind_some none f b h = ground (arith, h)
bind_some (some a) f b h = (a, refl, h)

field_of_sound :
    (o : Option (Text × Text)) (a b : Text)
    → field_of o ≡ some (a, b)
    → (o ≡ some (a, b)) × (a ≢ [])
field_of_sound none a b h = ground (arith, h)
field_of_sound (some ([], r)) a b h = ground (arith, h)
field_of_sound (some (c ∷ s, r)) a b h = (h, (λ e. ground (arith, e, h)))

whole_line_sound :
    (s t : Text) → whole_line s ≡ some t → (s ≡ t) × (t ≢ []) × (any is_line_end t ≡ false)
whole_line_sound [] t h = ground (arith, h)
whole_line_sound (c ∷ s) t h = elim (Bool-cases (any is_line_end (c ∷ s))) [
  | inl e ↦ ground (arith, h, e)
  | inr e ↦
      let q : c ∷ s ≡ t = ground (arith, h, e) in
      (q, (λ k. ground (arith, k, q)), ap (any is_line_end) (sym q) ∙ e)
]

-- A field that has no colon in it is read whole.
field_lem :
    (a b : Text)
    → a ≢ []
    → any (λ c. c == 58) a ≡ false
    → field_of (until_colon (a ++ 58 ∷ b)) ≡ some (a, b)
field_lem [] b n h = absurd (n refl)
field_lem (c ∷ a) b n h = ap field_of (until_colon_append (c ∷ a) b h)

whole_line_lem : (t : Text) → t ≢ [] → any is_line_end t ≡ false → whole_line t ≡ some t
whole_line_lem [] n h = absurd (n refl)
whole_line_lem (c ∷ t) n h = rw h refl

eks_cluster_lem :
    (account name : Text)
    → name ≢ []
    → any is_line_end name ≡ false
    → eks_cluster account (codes "cluster/" ++ name) ≡ some (account, name)
unfolding eks_cluster after_prefix
eks_cluster_lem account name n nc =
    ap (λ o. o >>= λ x. some (account, x)) (whole_line_lem name n nc)

eks_account_lem :
    (account rest : Text)
    → account ≢ []
    → any (λ c. c == 58) account ≡ false
    → eks_account (account ++ 58 ∷ rest) ≡ eks_cluster account rest
unfolding eks_account
eks_account_lem account rest a ac = rw (field_lem account rest a ac) refl

eks_region_lem :
    (region rest : Text)
    → region ≢ []
    → any (λ c. c == 58) region ≡ false
    → eks_region (region ++ 58 ∷ rest) ≡ eks_account rest
unfolding eks_region
eks_region_lem region rest a ac = rw (field_lem region rest a ac) refl

eks_arn_lem : (s : Text) → eks_match (codes "arn:aws:eks:" ++ s) ≡ eks_region s
unfolding eks_match after_prefix
eks_arn_lem s = refl

eks_match_lem :
    (ctx account name : Text) → IsEks ctx account name → eks_match ctx ≡ some (account, name)
eks_match_lem ctx account name (region, e, r, rc, a, ac, n, nc) =
    ap eks_match e
    ∙ eks_arn_lem (region ++ 58 ∷ (account ++ 58 ∷ (codes "cluster/" ++ name)))
    ∙ eks_region_lem region (account ++ 58 ∷ (codes "cluster/" ++ name)) r rc
    ∙ eks_account_lem account (codes "cluster/" ++ name) a ac
    ∙ eks_cluster_lem account name n nc

-- The parts of a match.
assembled :
    (ctx account name s region s2 acc s3 s4 n : Text)
    → ctx ≡ codes "arn:aws:eks:" ++ s
    → s ≡ region ++ 58 ∷ s2
    → s2 ≡ acc ++ 58 ∷ s3
    → s3 ≡ codes "cluster/" ++ s4
    → s4 ≡ n
    → acc ≡ account
    → n ≡ name
    → region ≢ []
    → any (λ c. c == 58) region ≡ false
    → acc ≢ []
    → any (λ c. c == 58) acc ≡ false
    → n ≢ []
    → any is_line_end n ≡ false
    → IsEks ctx account name
assembled ctx account name s region s2 acc s3 s4 n e1 e2 e3 e4 e5 p q r rc a ac k kc =
    let t : IsEks ctx acc n = (
      region,
      e1
          ∙ ap (λ x. codes "arn:aws:eks:" ++ x)
              (e2
                ∙ ap (λ x. region ++ 58 ∷ x)
                    (e3 ∙ ap (λ x. acc ++ 58 ∷ x) (e4 ∙ ap (λ x. codes "cluster/" ++ x) e5))),
      r,
      rc,
      a,
      ac,
      k,
      kc,
    ) in
    subst (λ x. IsEks ctx x name) p (subst (IsEks ctx acc) q t)

eks_match_sound :
    (ctx account name : Text) → eks_match ctx ≡ some (account, name) → IsEks ctx account name
unfolding eks_match eks_region eks_account eks_cluster
eks_match_sound ctx account name h =
    let (s, e, h1) = bind_some (after_prefix (codes "arn:aws:eks:") ctx) _ (account, name) h in
    let ((region, s2), e2, h2) = bind_some (field_of (until_colon s)) _ (account, name) h1 in
    let ((acc, s3), e3, h3) = bind_some (field_of (until_colon s2)) _ (account, name) h2 in
    let (s4, e4, h4) = bind_some (after_prefix (codes "cluster/") s3) _ (account, name) h3 in
    let (n, e5, h5) = bind_some (whole_line s4) _ (account, name) h4 in
    let (f2, k2) = field_of_sound (until_colon s) region s2 e2 in
    let (f3, k3) = field_of_sound (until_colon s2) acc s3 e3 in
    let (g2, l2) = until_colon_sound s region s2 f2 in
    let (g3, l3) = until_colon_sound s2 acc s3 f3 in
    let (g5, k5, l5) = whole_line_sound s4 n e5 in
    assembled ctx account name s region s2 acc s3 s4 n (after_prefix_sound _ ctx s e) g2 g3
      (after_prefix_sound _ s3 s4 e4) g5 (ground (arith, h5)) (ground (arith, h5)) k2 l2 k3 l3 k5 l5

eks_match_nil : eks_match [] ≡ none
unfolding eks_match after_prefix
eks_match_nil = refl

-- What is shown for a match.
abbrev shown : Text → Option (Text × Text) → Text
shown ctx none = ctx
shown ctx (some (account, name)) = short_account account ++ 47 ∷ name

not_empty : (a b : Text) → (a ++ 47 ∷ b) ≢ []
not_empty [] b h = ground (arith, h)
not_empty (c ∷ a) b h = ground (arith, h)

-- The account as it is shown: all of up to nine characters, else its first six, an ellipsis (8230) and
-- its last three.
abbrev pub IsShort : Text → Text → Type 0
IsShort account short =
    ((length account ≤ 9) × (short ≡ account))
    ⊎ ((first : Text) × (middle : Text) × (last : Text) × (10 ≤ length account)
        × (account ≡ first ++ (middle ++ last))
        × (length first ≡ 6)
        × (length last ≡ 3)
        × (short ≡ first ++ 8230 ∷ last))

short_account-IsShort : (account : Text) → IsShort account (short_account account)
short_account-IsShort account = elim (Bool-cases (leb (length account) 9)) [
  | inl e ↦ inl (ground (arith, e), ground (arith, e))
  | inr e ↦
      let tail = drop 6 account in
      let n = length account - 9 in
      let le : 10 ≤ length account = ground (arith, e) in
      inr (
        take 6 account,
        take n tail,
        drop n tail,
        le,
        sym (ap (λ r. take 6 account ++ r) (take-append-drop n tail) ∙ take-append-drop 6 account),
        ground (arith, e, length-take 6 account),
        omega (arith, le, length-drop n tail, length-drop 6 account),
        rw (e, drop-add 6 n account)
            (ap (λ k. take 6 account ++ 8230 ∷ drop k account) (omega (arith, le))),
      )
]

-- abbreviateContext, for any text: an EKS cluster's ARN with a region, an account and a cluster that
-- are not empty becomes the account, a slash and the cluster, where of an account of more than nine
-- characters the first six, an ellipsis and the last three are shown; every other text is returned
-- unchanged; only the empty text becomes empty.
pub abbreviate_context_lem :
    (ctx : Text)
    → (((account : Text) × (name : Text) × (short : Text) × IsEks ctx account name
          × IsShort account short
          × (abbreviate_context ctx ≡ short ++ 47 ∷ name))
        ⊎ (((account name : Text) → ¬ IsEks ctx account name) × (abbreviate_context ctx ≡ ctx)))
      × ((abbreviate_context ctx ≡ []) ↔ (ctx ≡ []))
unfolding abbreviate_context
abbreviate_context_lem ctx = (matched (eks_match ctx) refl, empty_iff (eks_match ctx) refl)
  where
    matched :
        (o : Option (Text × Text))
        → eks_match ctx ≡ o
        → ((account : Text) × (name : Text) × (short : Text) × IsEks ctx account name
            × IsShort account short
            × (shown ctx o ≡ short ++ 47 ∷ name))
          ⊎ (((account name : Text) → ¬ IsEks ctx account name) × (shown ctx o ≡ ctx))
    matched none e =
        inr ((λ account name h. ground (arith, e, eks_match_lem ctx account name h)), refl)
    matched (some (account, name)) e = inl (
      account,
      name,
      short_account account,
      eks_match_sound ctx account name e,
      short_account-IsShort account,
      refl,
    )

    empty_iff : (o : Option (Text × Text)) → eks_match ctx ≡ o → (shown ctx o ≡ []) ↔ (ctx ≡ [])
    empty_iff none e = ((λ h. h), (λ h. h))
    empty_iff (some (account, name)) e = (
      (λ h. absurd (not_empty (short_account account) name h)),
      (λ h. ground (arith, sym e ∙ ap eks_match h, eks_match_nil)),
    )
