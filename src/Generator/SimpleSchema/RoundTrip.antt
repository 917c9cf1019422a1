-- ===== src/Generator/SimpleSchema/RoundTrip.antt =====
-- Parsing what buildSimpleSchemaStr prints.
use kro_ui.Prelude.{
  ℕ, Bool, true, false, List, [], ◌∷◌, ◌++◌, ◌≡◌, refl, ◌∙◌, ap, sym, All, if◌then◌else◌,
}
use kro_ui.Prelude.Text.{Text, codes, text_eq, starts_with}
use kro_ui.Prelude.Chars.{trim}
use kro_ui.Generator.{AuthoringField}
use kro_ui.Generator.SimpleSchema.{
  split_bar, join_bar, or_string, modifier, text_or_empty, parts_of, build_simple_schema_str,
  SimpleSchema, set_modifier, set_modifiers, starts_quoted, unquoted, plain_type, parse_parts,
  parse_simple_schema_str,
}
use kro_ui.Generator.SimpleSchema.Parts.{IsPart, split_bar-join_bar}

-- A part that is read back: no separator starts in it, and no white space surrounds it.
abbrev pub IsPlain : Text → Type 0
IsPlain p = IsPart p × (trim p ≡ p)

set_modifiers-append :
    (xs ys : List Text) (p : SimpleSchema)
    → set_modifiers (xs ++ ys) p ≡ set_modifiers ys (set_modifiers xs p)
unfolding set_modifiers
set_modifiers-append [] ys p = refl
set_modifiers-append (x ∷ xs) ys p = set_modifiers-append xs ys (set_modifier (trim x) p)

required_lem : (p : SimpleSchema) → set_modifier (codes "required") p ≡ record p { required = true }
unfolding set_modifier text_eq
required_lem p = refl

default_lem :
    (v : Text) (p : SimpleSchema)
    → set_modifier (codes "default=" ++ v) p ≡ record p { default_value = v }
unfolding set_modifier text_eq starts_with
default_lem v p = refl

minimum_lem :
    (v : Text) (p : SimpleSchema)
    → set_modifier (codes "minimum=" ++ v) p ≡ record p { minimum = v }
unfolding set_modifier text_eq starts_with
minimum_lem v p = refl

maximum_lem :
    (v : Text) (p : SimpleSchema)
    → set_modifier (codes "maximum=" ++ v) p ≡ record p { maximum = v }
unfolding set_modifier text_eq starts_with
maximum_lem v p = refl

enum_lem :
    (v : Text) (p : SimpleSchema) → set_modifier (codes "enum=" ++ v) p ≡ record p { enum = v }
unfolding set_modifier text_eq starts_with
enum_lem v p = refl

pattern_lem :
    (v : Text) (p : SimpleSchema)
    → set_modifier (codes "pattern=" ++ v) p ≡ record p { pattern = v }
unfolding set_modifier text_eq starts_with
pattern_lem v p = refl

abbrev IsTrimmed : List Text → Type 0
IsTrimmed = All (λ q. trim q ≡ q)

module _ (p : SimpleSchema) where
  default_part :
      (v : Text)
      → p.default_value ≡ []
      → IsTrimmed (modifier (codes "default=") v)
      → set_modifiers (modifier (codes "default=") v) p ≡ record p { default_value = v }
  unfolding set_modifiers
  default_part [] e h = ap (λ x. record p { default_value = x }) e
  default_part (c ∷ v) e (h, _) = ap (λ q. set_modifier q p) h ∙ default_lem (c ∷ v) p

  minimum_part :
      (v : Text)
      → p.minimum ≡ []
      → IsTrimmed (modifier (codes "minimum=") v)
      → set_modifiers (modifier (codes "minimum=") v) p ≡ record p { minimum = v }
  unfolding set_modifiers
  minimum_part [] e h = ap (λ x. record p { minimum = x }) e
  minimum_part (c ∷ v) e (h, _) = ap (λ q. set_modifier q p) h ∙ minimum_lem (c ∷ v) p

  maximum_part :
      (v : Text)
      → p.maximum ≡ []
      → IsTrimmed (modifier (codes "maximum=") v)
      → set_modifiers (modifier (codes "maximum=") v) p ≡ record p { maximum = v }
  unfolding set_modifiers
  maximum_part [] e h = ap (λ x. record p { maximum = x }) e
  maximum_part (c ∷ v) e (h, _) = ap (λ q. set_modifier q p) h ∙ maximum_lem (c ∷ v) p

  enum_part :
      (v : Text)
      → p.enum ≡ []
      → IsTrimmed (modifier (codes "enum=") v)
      → set_modifiers (modifier (codes "enum=") v) p ≡ record p { enum = v }
  unfolding set_modifiers
  enum_part [] e h = ap (λ x. record p { enum = x }) e
  enum_part (c ∷ v) e (h, _) = ap (λ q. set_modifier q p) h ∙ enum_lem (c ∷ v) p

  pattern_part :
      (v : Text)
      → p.pattern ≡ []
      → IsTrimmed (modifier (codes "pattern=") v)
      → set_modifiers (modifier (codes "pattern=") v) p ≡ record p { pattern = v }
  unfolding set_modifiers
  pattern_part [] e h = ap (λ x. record p { pattern = x }) e
  pattern_part (c ∷ v) e (h, _) = ap (λ q. set_modifier q p) h ∙ pattern_lem (c ∷ v) p

halves : (P : Text → Type 0) (xs ys : List Text) → All P (xs ++ ys) → All P xs × All P ys
halves P [] ys h = (tt, h)
halves P (x ∷ xs) ys (p, h) = let (a, b) = halves P xs ys h in ((p, a), b)

trimmed : (xs : List Text) → All IsPlain xs → IsTrimmed xs
trimmed [] h = tt
trimmed (x ∷ xs) ((a, t), h) = (t, trimmed xs h)

are_parts : (xs : List Text) → All IsPlain xs → All IsPart xs
are_parts [] h = tt
are_parts (x ∷ xs) ((a, t), h) = (a, are_parts xs h)

-- The first modifier of a field: `required`, or the default value.
abbrev first_modifier : Bool → Text → List Text
first_modifier b v = if b then codes "required" ∷ [] else modifier (codes "default=") v

first_part :
    (b : Bool) (v : Text) (p : SimpleSchema)
    → p.default_value ≡ []
    → p.required ≡ false
    → IsTrimmed (first_modifier b v)
    → set_modifiers (first_modifier b v) p
      ≡ record p { required = b; default_value = if b then [] else v }
unfolding set_modifiers
first_part true v p e f (h, _) =
    ap (λ q. set_modifier q p) h
    ∙ required_lem p
    ∙ ap (λ x. record p { required = true; default_value = x }) e
first_part false v p e f h =
    default_part p v e h ∙ ap (λ x. record p { required = x; default_value = v }) f

-- The schema that a field stands for.
abbrev pub schema_of : AuthoringField → SimpleSchema
schema_of f = record {
  type = or_string f.type;
  required = f.required;
  default_value = if f.required then [] else f.default_value;
  minimum = text_or_empty f.minimum;
  maximum = text_or_empty f.maximum;
  enum = text_or_empty f.enum;
  pattern = text_or_empty f.pattern;
}

modifiers_lem :
    (f : AuthoringField)
    → (base : Text)
    → All IsPlain (
        first_modifier f.required f.default_value
        ++ (modifier (codes "minimum=") (text_or_empty f.minimum)
            ++ (modifier (codes "maximum=") (text_or_empty f.maximum)
                ++ (modifier (codes "enum=") (text_or_empty f.enum)
                    ++ modifier (codes "pattern=") (text_or_empty f.pattern)))))
    → set_modifiers
        (first_modifier f.required f.default_value
          ++ (modifier (codes "minimum=") (text_or_empty f.minimum)
              ++ (modifier (codes "maximum=") (text_or_empty f.maximum)
                  ++ (modifier (codes "enum=") (text_or_empty f.enum)
                      ++ modifier (codes "pattern=") (text_or_empty f.pattern)))))
        (plain_type base)
      ≡ record (schema_of f) { type = base }
modifiers_lem f base h =
    let a = first_modifier f.required f.default_value in
    let b = modifier (codes "minimum=") (text_or_empty f.minimum) in
    let c = modifier (codes "maximum=") (text_or_empty f.maximum) in
    let d = modifier (codes "enum=") (text_or_empty f.enum) in
    let e = modifier (codes "pattern=") (text_or_empty f.pattern) in
    let (h1, k1) = halves IsPlain a (b ++ (c ++ (d ++ e))) h in
    let (h2, k2) = halves IsPlain b (c ++ (d ++ e)) k1 in
    let (h3, k3) = halves IsPlain c (d ++ e) k2 in
    let (h4, h5) = halves IsPlain d e k3 in
    let p1 : SimpleSchema = record (plain_type base) {
      required = f.required;
      default_value = if f.required then [] else f.default_value;
    } in
    let p2 : SimpleSchema = record p1 { minimum = text_or_empty f.minimum } in
    let p3 : SimpleSchema = record p2 { maximum = text_or_empty f.maximum } in
    let p4 : SimpleSchema = record p3 { enum = text_or_empty f.enum } in
    set_modifiers-append a (b ++ (c ++ (d ++ e))) (plain_type base)
    ∙ ap (set_modifiers (b ++ (c ++ (d ++ e))))
        (first_part f.required f.default_value (plain_type base) refl refl (trimmed a h1))
    ∙ set_modifiers-append b (c ++ (d ++ e)) p1
    ∙ ap (set_modifiers (c ++ (d ++ e)))
        (minimum_part p1 (text_or_empty f.minimum) refl (trimmed b h2))
    ∙ set_modifiers-append c (d ++ e) p2
    ∙ ap (set_modifiers (d ++ e)) (maximum_part p2 (text_or_empty f.maximum) refl (trimmed c h3))
    ∙ set_modifiers-append d e p3
    ∙ ap (set_modifiers e) (enum_part p3 (text_or_empty f.enum) refl (trimmed d h4))
    ∙ pattern_part p4 (text_or_empty f.pattern) refl (trimmed e h5)

or_string_twice : (s : Text) → or_string (or_string s) ≡ or_string s
or_string_twice [] = refl
or_string_twice (c ∷ s) = refl

-- A text that does not start with a quote is not unquoted.
unquoted_lem : (s : Text) → starts_quoted s ≡ false → unquoted s ≡ s
unfolding unquoted
unquoted_lem s h = rw h refl

starts_quoted-join_bar :
    (c : ℕ) (s : Text) (ps : List Text)
    → starts_quoted (join_bar ((c ∷ s) ∷ ps)) ≡ starts_quoted (c ∷ s)
unfolding join_bar
starts_quoted-join_bar c s [] = refl
starts_quoted-join_bar c s (p ∷ ps) = refl

or_string-cons : (s : Text) → (c : ℕ) × (r : Text) × (or_string s ≡ c ∷ r)
or_string-cons [] = (b's', codes "tring", refl)
or_string-cons (c ∷ s) = (c, s, refl)

-- A field whose type does not start with a quote, and none of whose printed parts is surrounded by
-- white space or has " | " in it or before a space that follows it, is read back from its printed
-- form: its type, "string" if that is empty, its constraints, empty where they are absent, and its
-- default value unless it is required, which is not printed then.
pub parse_simple_schema_str-build_simple_schema_str :
    (f : AuthoringField)
    → All IsPlain (parts_of f)
    → starts_quoted (or_string f.type) ≡ false
    → parse_simple_schema_str (build_simple_schema_str f) ≡ schema_of f
unfolding parse_simple_schema_str build_simple_schema_str parts_of
parse_simple_schema_str-build_simple_schema_str f ((part, t), h) n =
    let ms =
      first_modifier f.required f.default_value
      ++ (modifier (codes "minimum=") (text_or_empty f.minimum)
          ++ (modifier (codes "maximum=") (text_or_empty f.maximum)
              ++ (modifier (codes "enum=") (text_or_empty f.enum)
                  ++ modifier (codes "pattern=") (text_or_empty f.pattern)))) in
    let base = or_string f.type in
    let (c, r, e) = or_string-cons f.type in
    let q : starts_quoted (join_bar (base ∷ ms)) ≡ false =
      ap (λ b. starts_quoted (join_bar (b ∷ ms))) e
      ∙ starts_quoted-join_bar c r ms
      ∙ ap starts_quoted (sym e)
      ∙ n in
    ap (λ s. parse_parts (split_bar s)) (unquoted_lem (join_bar (base ∷ ms)) q)
    ∙ ap parse_parts (split_bar-join_bar base ms (part, are_parts ms h))
    ∙ ap (λ b. set_modifiers ms (plain_type (or_string b))) t
    ∙ ap (λ b. set_modifiers ms (plain_type b)) (or_string_twice f.type)
    ∙ modifiers_lem f base h
