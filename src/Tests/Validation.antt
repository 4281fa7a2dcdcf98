-- ===== src/Tests/Validation.antt =====
-- The validation of a small declaration.
use tc_pipelines.Base.{
  ◌+◌, ◌≡◌, ◌↔◌, refl, ◌&&◌, List, [], ◌∷◌, map, JsString, js, none, some, leb, if◌then◌else◌,
  nat_eq, list_eq, Distinct, ok, list_beq, add, insert, replace_all, split, join, starts_with,
  ends_with,
}
use tc_pipelines.Schema.{SdlcDeclaration, TargetDeclaration, evaluate, portable}
use tc_pipelines.Graph.Paths.{named_parts, normalise_path, assert_relative_path}
use tc_pipelines.Graph.Validation.{
  unique_from, assert_unique_identities, unambiguous_from, assert_unambiguous_paths, path_fold,
  validate_target, distinct_roots, known_dependencies, validate_graph_declaration,
}
use tc_pipelines.Graph.Validation.Unique.{
  assert_unique_identities_iff, assert_unambiguous_paths_iff,
}
use tc_pipelines.Graph.Validation.Accepted.{IsAccepted, validate_graph_declaration-IsAccepted}

-- `toLowerCase` on ASCII.
abbrev lower : JsString → JsString
lower = map (λ c. if leb b'A' c && leb c b'Z' then c + 32 else c)

abbrev target : List JsString → TargetDeclaration
target depends_on = record {
  mode = evaluate;
  trust_boundary = portable;
  scope = none;
  command = some (js "make");
  executor = none;
  profile = none;
  depends_on = some depends_on;
  inputs = some (js "src/**" ∷ js "Makefile" ∷ []);
  shared_inputs = none;
  outputs = some (js "out" ∷ []);
  evidence = none;
  resources = none;
  budget = none;
}

abbrev declaration : SdlcDeclaration
declaration = record {
  project = js "sample";
  fitness = record {
    package_name = js "three-cubes-fitness";
    config = js "pyproject.toml";
    profiles = [];
    inherited = λ name. none;
  };
  projects =
      record { name = js "web"; root = js "web"; depends_on = some (js "lib" ∷ []) }
      ∷ record { name = js "lib"; root = js "lib"; depends_on = none }
      ∷ [];
  targets = (js "test", target (js "build" ∷ [])) ∷ (js "build", target []) ∷ [];
}

checks : Unit {0}
unfolding unique_from assert_unique_identities unambiguous_from assert_unambiguous_paths
    validate_target distinct_roots known_dependencies validate_graph_declaration named_parts
    normalise_path assert_relative_path list_beq add insert replace_all split join starts_with
    ends_with
checks = tt

accepted : validate_graph_declaration lower declaration declaration ≡ ok tt
unfolding checks
accepted = refl

validate_graph_declaration-IsAccepted_example : IsAccepted lower declaration declaration
validate_graph_declaration-IsAccepted_example =
    validate_graph_declaration-IsAccepted lower declaration declaration accepted

assert_unique_identities_iff_example :
    (assert_unique_identities lower (js "web" ∷ js "Web" ∷ []) (js "project") ≡ ok tt)
    ↔ Distinct (map lower (js "web" ∷ js "Web" ∷ []))
assert_unique_identities_iff_example =
    assert_unique_identities_iff lower (js "web" ∷ js "Web" ∷ []) (js "project")

assert_unambiguous_paths_iff_example :
    (assert_unambiguous_paths lower (js "src/a" ∷ js "./src//B" ∷ []) (js "inputs") ≡ ok tt)
    ↔ Distinct (map (path_fold lower) (js "src/a" ∷ js "./src//B" ∷ []))
assert_unambiguous_paths_iff_example =
    assert_unambiguous_paths_iff lower (js "src/a" ∷ js "./src//B" ∷ []) (js "inputs")
