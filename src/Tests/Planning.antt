-- ===== src/Tests/Planning.antt =====
-- A declaration with two projects and two targets, up to the run of its graph.
use tc_pipelines.Base.{
  ℕ, zero, suc, ◌+◌, ◌≡◌, ◌↔◌, refl, inl, inr, arith, true, ◌&&◌, List, [], ◌∷◌, ◌++◌, map,
  JsString, js, none, some, leb, if◌then◌else◌, Elem, nat_eq, list_eq, ok, throws, exhausted,
  Result, list_beq, add, insert, delete, set_of, replace_all, split, join, starts_with, ends_with,
  sort_by, insert_sorted, sorted, js_lt,
}
use tc_pipelines.Schema.{
  SdlcDeclaration, TargetDeclaration, repository, GraphTask, GraphProject, SdlcGraph, InputDigest,
  TaskInputDigests, evaluate, portable, SdlcFitness, fitness_contract, application_json,
}
use tc_pipelines.Graph.Paths.{named_parts, normalise_path, assert_relative_path}
use tc_pipelines.Graph.Selector.{
  CaseRules, atom_at, skip_at, compile, selector_pattern, many, many_slash, test, selects,
  resolve_project_path, task_consumes_path,
}
use tc_pipelines.Graph.Declaration.{normalise_paths, validate_declaration}
use tc_pipelines.Graph.Declaration.Normal.{validate_declaration_idempotent}
use tc_pipelines.Graph.Validation.{
  unique_from, assert_unique_identities, unambiguous_from, assert_unambiguous_paths,
  validate_target, distinct_roots, known_dependencies, validate_graph_declaration,
}
use tc_pipelines.Graph.Acyclic.{index_tasks, visit_all, visit, assert_acyclic}
use tc_pipelines.Graph.Executors.{
  resolve_fitness, resolve_choice, resolve_executor_contract, IsContract,
  resolve_executor_contract_iff,
}
use tc_pipelines.Graph.Identity.{
  canonical_from, canonical_input_digests, task_json, identity_json, task_identity,
}
use tc_pipelines.Graph.Presets.{
  task_dependencies, task_shape, finish_task, with_inputs, build_task, build_project,
  build_projects, build_preset_tasks,
}
use tc_pipelines.Graph.Presets.Planned.{
  IsBuilt, key_of, resolved_key, build_preset_tasks-IsBuilt, build_preset_tasks-keys,
}
use tc_pipelines.Graph.Construction.{Planning, graph_projects, plan_graph, plan_with, build_graph}
use tc_pipelines.Graph.Construction.Runnable.{build_graph-run_graph_completes}
use tc_pipelines.Canonical.{insert_member, sort_value, canonical_json, digest}
use tc_pipelines.Runtime.Runs.{assert_closed, select_tasks}
use tc_pipelines.Tests.Canonical.{flat}
use tc_pipelines.Tests.Samples.{build, context, capacity, success, world, exact, exact-IsExactUpTo}
use tc_pipelines.Runtime.Runs.Completion.{HasRun}
use tc_pipelines.Runtime.Scheduler.Resources.{SharesFit}

-- `toLowerCase` on ASCII.
abbrev pub lower : JsString → JsString
lower = map (λ c. if leb b'A' c && leb c b'Z' then c + 32 else c)

abbrev rules : CaseRules
rules = record { to_lower_case = lower; canonicalize = λ c. c }

abbrev make : TargetDeclaration
make = record {
  mode = evaluate;
  trust_boundary = portable;
  scope = none;
  command = some (js "make");
  executor = none;
  profile = none;
  depends_on = none;
  inputs = none;
  shared_inputs = none;
  outputs = some (js "out" ∷ []);
  evidence = none;
  resources = none;
  budget = none;
}

abbrev audit : TargetDeclaration
audit = record make {
  scope = some repository;
  command = none;
  executor = some (js "tc-sdlc:fitness");
  profile = some (js "full");
  depends_on = some (js "make" ∷ []);
  evidence = some (record { path = js "fitness.json"; media_type = application_json } ∷ []);
}

abbrev fitness : SdlcFitness
fitness = record {
  package_name = js "fit";
  config = js "fit.toml";
  profiles = (js "full", js "gold") ∷ [];
  inherited = λ name. none;
}

abbrev declaration : SdlcDeclaration
declaration = record {
  project = js "all";
  fitness = fitness;
  projects =
      record { name = js "lib"; root = js "lib"; depends_on = none }
      ∷ record { name = js "web"; root = js "web"; depends_on = some (js "lib" ∷ []) }
      ∷ [];
  targets = (js "make", make) ∷ (js "audit", audit) ∷ [];
}

abbrev pub letters : ℕ → JsString
letters zero = []
letters (suc n) = b'a' ∷ letters n

abbrev content : InputDigest
content = record {
  path = js "web/a.ts";
  digest = js "sha256:" ++ letters 64;
  mode = none;
  symlink = none;
}

abbrev inputs : TaskInputDigests
inputs = (js "web:make", content ∷ []) ∷ (js "all:audit", []) ∷ (js "lib:make", []) ∷ []

abbrev planning : Planning
planning = record {
  posix_normalize = λ path. path;
  checked_declaration = ok tt;
  valid_lock = ok tt;
  authority = some inputs;
  current_lock = ok tt;
  declaration_digest = js "d";
  lock_digest = js "l";
}

steps : Unit {0}
unfolding normalise_paths validate_declaration unique_from assert_unique_identities unambiguous_from
    assert_unambiguous_paths validate_target distinct_roots known_dependencies
    validate_graph_declaration named_parts normalise_path assert_relative_path list_beq add insert
    delete replace_all split join starts_with ends_with sort_by insert_sorted sorted js_lt atom_at
    skip_at compile selector_pattern many many_slash test selects resolve_project_path
    task_consumes_path index_tasks visit_all visit assert_acyclic resolve_fitness resolve_choice
    resolve_executor_contract canonical_from canonical_input_digests task_json identity_json
    task_identity task_dependencies task_shape finish_task with_inputs build_task build_project
    build_projects build_preset_tasks plan_graph plan_with build_graph insert_member sort_value
    canonical_json digest
steps = tt

abbrev projects : List GraphProject
projects = graph_projects declaration

abbrev tasks_of : Result (List GraphTask) → List GraphTask
tasks_of (ok tasks) = tasks
tasks_of (throws error) = []
tasks_of exhausted = []

abbrev tasks : List GraphTask
tasks = tasks_of (build_preset_tasks declaration projects rules flat (js "l") inputs)

keys_planned : map key_of tasks ≡ js "all:audit" ∷ js "lib:make" ∷ js "web:make" ∷ []
unfolding steps
keys_planned = refl

planned : build_preset_tasks declaration projects rules flat (js "l") inputs ≡ ok tasks
unfolding steps
planned = refl

abbrev graph : SdlcGraph
graph = record {
  declaration_digest = js "d";
  lock_digest = js "l";
  projects = projects;
  tasks = tasks;
}

built : build_graph rules flat planning declaration ≡ ok graph
unfolding steps
built = refl

abbrev selection : List JsString
selection = map (λ (t : GraphTask). t.identity) tasks

selected : select_tasks graph selection ≡ ok tasks
unfolding steps select_tasks assert_closed set_of
selected = refl

resolve_executor_contract_iff_example :
    (resolve_executor_contract audit (some fitness)
      ≡ ok (fitness_contract (js "full") (js "gold") (js "fit.toml")))
    ↔ IsContract audit (some fitness) (fitness_contract (js "full") (js "gold") (js "fit.toml"))
resolve_executor_contract_iff_example =
    resolve_executor_contract_iff audit (some fitness)
      (fitness_contract (js "full") (js "gold") (js "fit.toml"))

abbrev first_of : List GraphTask → GraphTask
first_of [] = build
first_of (task ∷ rest) = task

first_listed : Elem (first_of tasks) tasks
unfolding steps
first_listed = inl refl

build_preset_tasks-IsBuilt_example :
    IsBuilt declaration projects rules flat (js "l") inputs (first_of tasks)
build_preset_tasks-IsBuilt_example =
    build_preset_tasks-IsBuilt declaration projects rules flat (js "l") inputs tasks
      (first_of tasks) planned first_listed

build_preset_tasks-keys_example :
    Elem (js "web:make") (map key_of tasks) ↔ Elem (js "web:make") (map resolved_key inputs)
build_preset_tasks-keys_example =
    build_preset_tasks-keys declaration projects rules flat (js "l") inputs tasks planned
      (js "web:make")

planned-SharesFit : SharesFit 100 capacity tasks
unfolding steps
planned-SharesFit t (inl e) = rw e (omega arith)
planned-SharesFit t (inr (inl e)) = rw e (omega arith)
planned-SharesFit t (inr (inr (inl e))) = rw e (omega arith)
planned-SharesFit t (inr (inr (inr never))) = elim never [ ]

build_graph-run_graph_completes_example : HasRun context (world true) graph selection capacity tasks
build_graph-run_graph_completes_example =
    build_graph-run_graph_completes rules flat planning 100 declaration graph context (world true)
      selection capacity tasks (exact-IsExactUpTo 100) (omega arith) planned-SharesFit built
      selected refl refl (λ n t. (success t, refl)) refl refl

declared : validate_declaration (λ path. path) (ok tt) declaration ≡ ok declaration
unfolding steps
declared = refl

validate_declaration_idempotent_example :
    validate_declaration (λ path. path) (ok tt) declaration ≡ ok declaration
validate_declaration_idempotent_example =
    validate_declaration_idempotent (λ path. path) (λ s. refl) (λ s h. h) (ok tt) declaration
      declaration declared
