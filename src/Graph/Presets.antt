-- ===== src/Graph/Presets.antt =====
-- packages/tc-sdlc/src/preset/index.ts: the tasks of a declaration, one for each project and target,
-- or one for a target of the whole repository.
pub mod Shape
pub mod Planned
use tc_pipelines.Base.{
  ℕ, Bool, true, false, ◌&&◌, ◌||◌, not, List, [], ◌∷◌, ◌++◌, map, Option, none, some, JsString, js,
  ◌==◌, nat_eq, list_eq, list_beq, has, lookup, flat_map, leb, ltb, if◌then◌else◌, js_lt, js_le,
  sort_by, insert_sorted, sorted, Result, ok, fail, throw_if, for_each, ◌>>=◌, ◌>>◌,
  graph_input_digest_invalid, graph_budget_invalid,
}
use tc_pipelines.Schema.{
  ProjectDeclaration, TargetDeclaration, TargetScope, project, repository, TaskResources,
  TaskBudget, TaskShape, TaskDeclaration, GraphTask, GraphProject, SdlcDeclaration, InputDigest,
  TaskInputDigests, PathCaseSensitivity, sensitive, or_empty, TaskEvidenceDeclaration,
}
use tc_pipelines.Canonical.{Hashing}
use tc_pipelines.Graph.Paths.{current_part}
use tc_pipelines.Graph.Selector.{CaseRules, task_consumes_path}
use tc_pipelines.Graph.Executors.{is_repository, resolve_executor_contract}
use tc_pipelines.Graph.Identity.{canonical_input_digests, task_identity, evidence_le}

abbrev pub default_resources : TaskResources
default_resources = record { cpu = 1; memory_mib = 256; ports = []; exclusive = [] }

abbrev pub default_budget : TaskBudget
default_budget = record { phase_ms = 60000; no_progress_ms = 30000; heartbeat_ms = 5000 }

-- `value ?? fallback`
abbrev pub or_default {ℓ} : {A : Type ℓ} → A → Option A → A
or_default fallback none = fallback
or_default fallback (some value) = value

-- `${project}:${target}`
abbrev pub key_from : JsString → JsString → JsString
key_from project_name target_name = project_name ++ js ":" ++ target_name

abbrev pub Target : Type 0
Target = JsString × TargetDeclaration

abbrev pub entry_le : Target → Target → Bool
entry_le left right = js_le left.0 right.0

abbrev pub target_entries : SdlcDeclaration → List Target
target_entries declaration = sort_by entry_le declaration.targets

abbrev pub targets_repository : SdlcDeclaration → JsString → Bool
targets_repository declaration dependency = elim (lookup dependency declaration.targets) [
  | none ↦ false
  | some target ↦ is_repository target.scope
]

-- The project of a task: a target of the repository has the repository itself.
abbrev pub task_project : SdlcDeclaration → Bool → GraphProject → GraphProject
task_project declaration whole owner =
    if whole
    then record { name = declaration.project; root = current_part; depends_on = [] }
    else owner

module _ (declaration : SdlcDeclaration) (projects : List GraphProject) where
  -- The tasks that a dependency of a target stands for.
  abbrev pub dependency_keys : Bool → GraphProject → JsString → List JsString
  dependency_keys whole owner dependency =
      if targets_repository declaration dependency
      then key_from declaration.project dependency ∷ []
      else if whole
      then map (λ (other : GraphProject). key_from other.name dependency) projects
      else key_from owner.name dependency ∷ []

  unfoldable pub task_dependencies : Bool → GraphProject → Target → List JsString
  task_dependencies whole owner (name, target) = sorted (
      flat_map (dependency_keys whole owner) (or_empty target.depends_on)
      ++ (if whole then [] else map (λ dependency. key_from dependency name) owner.depends_on))

  unfoldable pub task_shape : GraphProject → Target → TaskShape
  task_shape owner (name, target) =
      let whole = is_repository target.scope in
      let actual = task_project declaration whole owner in
      record {
        project = actual.name;
        target = name;
        project_root = actual.root;
        mode = target.mode;
        trust_boundary = target.trust_boundary;
        scope = if whole then some repository else none;
        command = target.command;
        executor = target.executor;
        profile = target.profile;
        depends_on = task_dependencies whole actual (name, target);
        inputs = sorted (or_empty target.inputs);
        shared_inputs = some (sorted (or_empty target.shared_inputs));
        outputs = sorted (or_empty target.outputs);
        evidence = some (sort_by evidence_le (or_empty target.evidence));
      }

  abbrev pub budget_invalid : TaskBudget → Bool
  budget_invalid budget =
      ltb budget.no_progress_ms budget.heartbeat_ms || ltb budget.phase_ms budget.no_progress_ms

  module _ (rules : CaseRules) (hashing : Hashing) (lock_digest : JsString)
      (resolved : TaskInputDigests) where
    -- The task from its shape and its canonical inputs.
    unfoldable pub finish_task : Target → TaskShape → List InputDigest → Result GraphTask
    finish_task (name, target) shape inputs =
        let key = key_from shape.project shape.target in
        let resources = or_default default_resources target.resources in
        let budget = or_default default_budget target.budget in
        for_each
          (λ (input : InputDigest).
            throw_if (not (task_consumes_path rules sensitive shape input.path))
              graph_input_digest_invalid (input.path ∷ key ∷ []))
          inputs
        >> (task_identity rules.to_lower_case hashing
              (record { shape = shape; resources = some resources; budget = some budget }) inputs
              lock_digest
            >>= λ identity.
                resolve_executor_contract target (some declaration.fitness) >>= λ execution.
                ok (record {
                  shape = shape;
                  key = key;
                  identity = identity;
                  input_digests = inputs;
                  execution = execution;
                  resources = resources;
                  budget = budget;
                }))

    -- Its resolved inputs are there, or not.
    unfoldable pub with_inputs : Target → TaskShape → Option (List InputDigest) → Result GraphTask
    with_inputs entry shape none =
        fail graph_input_digest_invalid (key_from shape.project shape.target ∷ [])
    with_inputs entry shape (some inputs) =
        canonical_input_digests rules.to_lower_case inputs >>= finish_task entry shape

    -- The body of the loop over the targets, for a target that is not skipped.
    unfoldable pub build_task : GraphProject → Target → Result GraphTask
    build_task owner (name, target) =
        let shape = task_shape owner (name, target) in
        throw_if (budget_invalid (or_default default_budget target.budget)) graph_budget_invalid
          (shape.project ∷ shape.target ∷ [])
        >> with_inputs (name, target) shape (lookup (key_from shape.project shape.target) resolved)

    -- The targets that are built for a project: those of the repository only for the first one.
    abbrev pub is_built : Bool → Target → Bool
    is_built is_first (name, target) = not (is_repository target.scope) || is_first

    unfoldable pub build_project : Bool → GraphProject → List Target → Result (List GraphTask)
    build_project is_first owner [] = ok []
    build_project is_first owner (entry ∷ entries) =
        let rest = build_project is_first owner entries in
        if is_built is_first entry
        then (build_task owner entry >>= λ task. rest >>= λ tasks. ok (task ∷ tasks))
        else rest

    unfoldable pub build_projects : Bool → List GraphProject → Result (List GraphTask)
    build_projects is_first [] = ok []
    build_projects is_first (owner ∷ others) =
        build_project is_first owner (target_entries declaration) >>= λ tasks.
        build_projects false others >>= λ more. ok (tasks ++ more)

    unfoldable pub build_preset_tasks : Result (List GraphTask)
    build_preset_tasks = build_projects true projects >>= λ tasks.
        for_each
          (λ (entry : JsString × List InputDigest).
            throw_if (not (has (map (λ (task : GraphTask). task.key) tasks) entry.0))
              graph_input_digest_invalid (entry.0 ∷ []))
          resolved
        >> ok tasks
