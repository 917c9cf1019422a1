-- ===== src/Generator/Tests.antt =====
-- The theorems on the designer's state at concrete states.
use kro_ui.Prelude.{Bool, true, false, none, some, [], ◌∷◌, ◌≡◌, ◌↔◌, refl, ltb, length}
use kro_ui.Prelude.Text.{Text, codes, starts_with, includes}
use kro_ui.Prelude.Chars.{is_space, trim_start, trim}
use kro_ui.Prelude.Sets.{distinct}
use kro_ui.Prelude.Maps.{find_key, keys_of}
use kro_ui.Generator.{
  AuthoringField, AuthoringExternalRef, for_each, managed, AuthoringResource, ResourceType,
  namespaced, RgdAuthoringState,
}
use kro_ui.Generator.Validation.{validate_rgd_state}
use kro_ui.Generator.Validation.Exact.{
  resource_issue, spec_issue, status_issue, validate_rgd_state_lem, is_clean,
}
use kro_ui.Generator.SimpleSchema.{build_simple_schema_str, parse_simple_schema_str, parts_of}
use kro_ui.Generator.SimpleSchema.RoundTrip.{
  schema_of, parse_simple_schema_str-build_simple_schema_str,
}

abbrev replicas : AuthoringField
replicas = record {
  id = codes "f1";
  name = codes "replicas";
  type = codes "integer";
  default_value = codes "3";
  required = false;
  enum = none;
  minimum = some (codes "1");
  maximum = some (codes "10");
  pattern = none;
}

abbrev no_ref : AuthoringExternalRef
no_ref = record { api_version = []; kind = []; namespace = []; name = []; selector_labels = [] }

abbrev resource : Text → Text → ResourceType → AuthoringResource
resource key id type = record {
  key = key;
  id = id;
  api_version = codes "v1";
  kind = codes "ConfigMap";
  resource_type = type;
  template_yaml = [];
  include_when = [];
  ready_when = [];
  for_each_iterators = [];
  external = no_ref;
}

abbrev state : RgdAuthoringState
state = record {
  rgd_name = codes "my-app";
  kind = codes "MyApp";
  group = codes "kro.run";
  api_version = codes "v1alpha1";
  scope = namespaced;
  spec_fields = replicas ∷ [];
  status_fields = [];
  resources =
      resource (codes "k1") (codes "web") managed
      ∷ resource (codes "k2") (codes "web") managed
      ∷ resource (codes "k3") (codes "all") for_each
      ∷ [];
}

-- A comparison by the number of digits.
abbrev longer : Text → Text → Bool
longer a b = ltb (length b) (length a)

validate_rgd_state_lem_example :
    (find_key (codes "k2") (validate_rgd_state longer state).resource_issues
      ≡ resource_issue state.resources (codes "k2"))
    × (find_key (codes "k2") (validate_rgd_state longer state).spec_field_issues
        ≡ spec_issue longer state.spec_fields (codes "k2"))
    × (find_key (codes "k2") (validate_rgd_state longer state).status_field_issues
        ≡ status_issue state.status_fields (codes "k2"))
    × (distinct (keys_of (validate_rgd_state longer state).resource_issues) ≡ true)
    × (distinct (keys_of (validate_rgd_state longer state).spec_field_issues) ≡ true)
    × (distinct (keys_of (validate_rgd_state longer state).status_field_issues) ≡ true)
    × (((validate_rgd_state longer state).total_count ≡ 0) ↔ (is_clean longer state ≡ true))
validate_rgd_state_lem_example = validate_rgd_state_lem longer state (codes "k2")

parse_simple_schema_str-build_simple_schema_str_example :
    parse_simple_schema_str (build_simple_schema_str replicas) ≡ schema_of replicas
unfolding parts_of starts_with includes trim trim_start is_space
parse_simple_schema_str-build_simple_schema_str_example =
    parse_simple_schema_str-build_simple_schema_str replicas
      ((refl, refl), ((refl, refl), ((refl, refl), ((refl, refl), tt)))) refl
