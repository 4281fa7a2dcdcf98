-- ===== src/Graph/Presets/Planned.antt =====
-- The tasks that `buildPresetTasks` returns.
use tc_pipelines.Base.{
  ◌≤◌, ◌≡◌, refl, sym, ap, ◌∙◌, subst, ◌↔◌, inl, inr, arith, Bool, true, false, not, List, [], ◌∷◌,
  ◌++◌, map, some, JsString, has, has_iff, lookup, Elem, Elem-of_map, Elem-append_cases,
  Elem-sort_by, Bool-cases, Option-cases, eq_iff, nat_eq, list_eq, Result, ErrorCode, ok, throw_if,
  throw_if-ok, for_each, for_each-ok, >>=-eq-ok, ◌>>=◌, ◌>>◌, graph_budget_invalid,
  graph_input_digest_invalid,
}
use tc_pipelines.Schema.{
  TargetDeclaration, GraphTask, GraphProject, SdlcDeclaration, InputDigest, TaskInputDigests,
  sensitive, ExecutorContract,
}
use tc_pipelines.Canonical.{Hashing}
use tc_pipelines.Graph.Selector.{CaseRules, task_consumes_path}
use tc_pipelines.Graph.Executors.{
  resolve_executor_contract, IsContract, resolve_executor_contract_iff,
}
use tc_pipelines.Graph.Identity.{canonical_input_digests, task_identity}
use tc_pipelines.Graph.Presets.Shape.{HasParts, task_shape-HasParts}
use tc_pipelines.Graph.Presets.{
  Target, key_from, default_resources, default_budget, or_default, budget_invalid, entry_le,
  target_entries, task_shape, finish_task, with_inputs, build_task, is_built, build_project,
  build_projects, build_preset_tasks,
}

abbrev pub key_of : GraphTask → JsString
key_of task = task.key

abbrev pub resolved_key : JsString × List InputDigest → JsString
resolved_key entry = entry.0

Elem-lookup :
    {V : Type 0} (k : JsString) (v : V) (m : List (JsString × V))
    → lookup k m ≡ some v
    → Elem k (map (λ (e : JsString × V). e.0) m)
Elem-lookup k v [] h = absurd (cc)
Elem-lookup k v ((j, w) ∷ m) h = elim (Bool-cases (list_eq.equals j k)) [
  | inl same ↦ inl (sym ((eq_iff j k).0 same))
  | inr other ↦ inr (Elem-lookup k v m (ground arith))
]

passes :
    (b : Bool) (code : ErrorCode) (details : List JsString)
    → throw_if (not b) code details ≡ ok tt
    → b ≡ true
passes true code details h = refl
passes false code details h = absurd (cc)

module _ (declaration : SdlcDeclaration) (projects : List GraphProject) (rules : CaseRules)
    (hashing : Hashing) (lock_digest : JsString) (resolved : TaskInputDigests) where
  -- What a task is, for its project and its target.
  pub record IsPlannedFor (owner : GraphProject) (entry : Target) (task : GraphTask) : Type 0 where
    pub parts : HasParts declaration projects owner entry task.shape
    pub budgeted :
        (task.resources ≡ or_default default_resources entry.1.resources)
        × (task.budget ≡ or_default default_budget entry.1.budget)
    pub keyed : task.key ≡ key_from task.project task.target
    pub resolved_once : Elem task.key (map resolved_key resolved)
    pub paced :
        (task.budget.heartbeat_ms ≤ task.budget.no_progress_ms)
        × (task.budget.no_progress_ms ≤ task.budget.phase_ms)
    pub consumes :
        (input : InputDigest)
        → Elem input task.input_digests
        → task_consumes_path rules sensitive task.shape input.path ≡ true
    pub contracted : IsContract entry.1 (some declaration.fitness) task.execution
    pub identified :
        task_identity rules.to_lower_case hashing
          (record {
            shape = task.shape;
            resources = some task.resources;
            budget = some task.budget;
          })
          task.input_digests
          lock_digest
        ≡ ok task.identity

  finish_task-IsPlannedFor :
      (owner : GraphProject) (name : JsString) (target : TargetDeclaration)
      (inputs : List InputDigest) (task : GraphTask)
      → budget_invalid declaration projects (or_default default_budget target.budget) ≡ false
      → Elem
          (key_from
            (task_shape declaration projects owner (name, target)).project
            (task_shape declaration projects owner (name, target)).target)
          (map resolved_key resolved)
      → finish_task declaration projects rules hashing lock_digest resolved
          (name, target)
          (task_shape declaration projects owner (name, target))
          inputs
        ≡ ok task
      → IsPlannedFor owner (name, target) task
  unfolding finish_task
  finish_task-IsPlannedFor owner name target inputs task paced known h =
      let shape = task_shape declaration projects owner (name, target) in
      let key = key_from shape.project shape.target in
      let resources = or_default default_resources target.resources in
      let budget = or_default default_budget target.budget in
      let test : InputDigest → Result (Unit {0}) = λ input.
        throw_if (not (task_consumes_path rules sensitive shape input.path))
          graph_input_digest_invalid (input.path ∷ key ∷ []) in
      let identify =
        task_identity rules.to_lower_case hashing
          (record { shape = shape; resources = some resources; budget = some budget }) inputs
          lock_digest in
      let contract = resolve_executor_contract target (some declaration.fitness) in
      let build : JsString → ExecutorContract → GraphTask = λ identity execution. record {
        shape = shape;
        key = key;
        identity = identity;
        input_digests = inputs;
        execution = execution;
        resources = resources;
        budget = budget;
      } in
      let last : JsString → Result GraphTask =
        λ identity. contract >>= λ execution. ok (build identity execution) in
      let (u, consumed, h1) = >>=-eq-ok (for_each test inputs) (λ _. identify >>= last) h in
      let (identity, named, h2) = >>=-eq-ok identify last h1 in
      let (execution, chosen, h3) =
        >>=-eq-ok contract (λ execution. ok (build identity execution)) h2 in
      let same : build identity execution ≡ task = cc in
      subst (IsPlannedFor owner (name, target)) same (record {
        parts = task_shape-HasParts declaration projects owner (name, target);
        budgeted = (refl, refl);
        keyed = refl;
        resolved_once = known;
        paced = (ground arith, ground arith);
        consumes = λ input m.
            passes _ graph_input_digest_invalid (input.path ∷ key ∷ [])
              (for_each-ok test inputs input consumed m);
        contracted =
            (resolve_executor_contract_iff target (some declaration.fitness) execution).0 chosen;
        identified = named;
      })

  build_task-IsPlannedFor :
      (owner : GraphProject) (entry : Target) (task : GraphTask)
      → build_task declaration projects rules hashing lock_digest resolved owner entry ≡ ok task
      → IsPlannedFor owner entry task
  unfolding build_task with_inputs
  build_task-IsPlannedFor owner (name, target) task h =
      let shape = task_shape declaration projects owner (name, target) in
      let key = key_from shape.project shape.target in
      let go =
        with_inputs declaration projects rules hashing lock_digest resolved (name, target) shape in
      let (paced, ran) =
        throw_if-ok (budget_invalid declaration projects (or_default default_budget target.budget))
          graph_budget_invalid (shape.project ∷ shape.target ∷ []) (go (lookup key resolved)) h in
      elim (Option-cases (lookup key resolved)) [
        | inl lost ↦ absurd (let never = sym (ap go lost) ∙ ran in cc)
        | inr (inputs, found) ↦
            let finish =
              finish_task declaration projects rules hashing lock_digest resolved (name, target)
                shape in
            let (canonical, _, done) =
              >>=-eq-ok (canonical_input_digests rules.to_lower_case inputs) finish
                (sym (ap go found) ∙ ran) in
            finish_task-IsPlannedFor owner name target canonical task paced
              (Elem-lookup key inputs resolved found) done
      ]

  -- A task of the loops, with where it comes from.
  pub record IsBuilt (task : GraphTask) : Type 0 where
    pub owner : GraphProject
    pub entry : Target
    pub owned : Elem owner projects
    pub declared : Elem entry declaration.targets
    pub planned : IsPlannedFor owner entry task

  build_project-origin :
      (is_first : Bool) (owner : GraphProject) (entries : List Target) (tasks : List GraphTask)
      (task : GraphTask)
      → build_project declaration projects rules hashing lock_digest resolved is_first owner entries
        ≡ ok tasks
      → Elem task tasks
      → (entry : Target) × Elem entry entries × IsPlannedFor owner entry task
  unfolding build_project
  build_project-origin is_first owner [] [] task h m = elim m [ ]
  build_project-origin is_first owner [] (t ∷ tasks) task h m = absurd (cc)
  build_project-origin is_first owner (entry ∷ entries) tasks task h m =
      elim (Bool-cases
        (is_built declaration projects rules hashing lock_digest resolved is_first entry)) [
          | inr skipped ↦
              let rest : build_project declaration projects rules hashing lock_digest resolved
                    is_first owner entries
                  ≡ ok tasks =
                ground arith in
              let (found, k, planned) =
                build_project-origin is_first owner entries tasks task rest m in
              (found, inr k, planned)
          | inl built ↦
              let call =
                build_task declaration projects rules hashing lock_digest resolved owner entry in
              let others =
                build_project declaration projects rules hashing lock_digest resolved is_first owner
                  entries in
              let next : GraphTask → Result (List GraphTask) =
                λ first. others >>= λ more. ok (first ∷ more) in
              let ran : (call >>= next) ≡ ok tasks = ground arith in
              let (first, made, h1) = >>=-eq-ok call next ran in
              let (more, rest, h2) = >>=-eq-ok others (λ more. ok (first ∷ more)) h1 in
              let same : first ∷ more ≡ tasks = cc in
              elim (subst (Elem task) (sym same) m) [
                | inl e ↦ (
                  entry,
                  inl refl,
                  subst (IsPlannedFor owner entry) (sym e)
                      (build_task-IsPlannedFor owner entry first made),
                )
                | inr k ↦
                    let (found, l, planned) =
                      build_project-origin is_first owner entries more task rest k in
                    (found, inr l, planned)
              ]
        ]

  build_projects-origin :
      (is_first : Bool) (owners : List GraphProject) (tasks : List GraphTask) (task : GraphTask)
      → ((owner : GraphProject) → Elem owner owners → Elem owner projects)
      → build_projects declaration projects rules hashing lock_digest resolved is_first owners
        ≡ ok tasks
      → Elem task tasks
      → IsBuilt task
  unfolding build_projects
  build_projects-origin is_first [] [] task inside h m = elim m [ ]
  build_projects-origin is_first [] (t ∷ tasks) task inside h m = absurd (cc)
  build_projects-origin is_first (owner ∷ owners) tasks task inside h m =
      let call =
        build_project declaration projects rules hashing lock_digest resolved is_first owner
          (target_entries declaration) in
      let others =
        build_projects declaration projects rules hashing lock_digest resolved false owners in
      let (here, made, h1) = >>=-eq-ok call (λ here. others >>= λ more. ok (here ++ more)) h in
      let (more, rest, h2) = >>=-eq-ok others (λ more. ok (here ++ more)) h1 in
      let same : here ++ more ≡ tasks = cc in
      elim (Elem-append_cases task here more (subst (Elem task) (sym same) m)) [
        | inl k ↦
            let (entry, listed, planned) =
              build_project-origin is_first owner (target_entries declaration) here task made k in
            record {
              owner = owner;
              entry = entry;
              owned = inside owner (inl refl);
              declared = (Elem-sort_by entry_le declaration.targets entry).0 listed;
              planned = planned;
            }
        | inr k ↦ build_projects-origin false owners more task (λ o l. inside o (inr l)) rest k
      ]

  build_preset_tasks-parts :
      (tasks : List GraphTask)
      → build_preset_tasks declaration projects rules hashing lock_digest resolved ≡ ok tasks
      → (build_projects declaration projects rules hashing lock_digest resolved true projects
          ≡ ok tasks)
        × ((key : JsString) → Elem key (map resolved_key resolved) → Elem key (map key_of tasks))
  unfolding build_preset_tasks
  build_preset_tasks-parts tasks h =
      let known : List GraphTask → JsString × List InputDigest → Result (Unit {0}) = λ ts entry.
        throw_if (not (has (map key_of ts) entry.0)) graph_input_digest_invalid (entry.0 ∷ []) in
      let call =
        build_projects declaration projects rules hashing lock_digest resolved true projects in
      let (built, made, h1) = >>=-eq-ok call (λ ts. for_each (known ts) resolved >> ok ts) h in
      let (u, looped, h2) = >>=-eq-ok (for_each (known built) resolved) (λ _. ok built) h1 in
      let same : built ≡ tasks = cc in
      (
        made ∙ ap ok same,
        λ key m.
            let (entry, k, named) = Elem-of_map resolved_key resolved key m in
            let listed =
              passes (has (map key_of built) entry.0) graph_input_digest_invalid (entry.0 ∷ [])
                (for_each-ok (known built) resolved entry looped k) in
            subst (λ ts. Elem key (map key_of ts)) same
              (subst (λ j. Elem j (map key_of built)) (sym named)
                ((has_iff (map key_of built) entry.0).0 listed)),
      )

  -- Every task that `buildPresetTasks` returns comes from a project and a target of the declaration. It
  -- stands in the project, or in the repository if that is the target's scope, has the target's
  -- settings and the items of its lists, and depends on the tasks that the target's dependencies and
  -- the project's name; its resources and budget are the target's or the defaults, and the budget is
  -- ordered; it consumes each of its input digests, its contract is the target's, and its identity is
  -- that of its parts.
  pub build_preset_tasks-IsBuilt :
      (tasks : List GraphTask) (task : GraphTask)
      → build_preset_tasks declaration projects rules hashing lock_digest resolved ≡ ok tasks
      → Elem task tasks
      → IsBuilt task
  build_preset_tasks-IsBuilt tasks task h m =
      build_projects-origin true projects tasks task (λ o k. k) (build_preset_tasks-parts tasks h).0
        m

  -- The tasks that `buildPresetTasks` returns have exactly the keys of the resolved inputs.
  pub build_preset_tasks-keys :
      (tasks : List GraphTask)
      → build_preset_tasks declaration projects rules hashing lock_digest resolved ≡ ok tasks
      → (key : JsString) → Elem key (map key_of tasks) ↔ Elem key (map resolved_key resolved)
  build_preset_tasks-keys tasks h key = (
    λ m.
        let (task, k, named) = Elem-of_map key_of tasks key m in
        subst (λ j. Elem j (map resolved_key resolved)) (sym named)
          (build_preset_tasks-IsBuilt tasks task h k).planned.resolved_once,
    λ m. (build_preset_tasks-parts tasks h).1 key m,
  )
