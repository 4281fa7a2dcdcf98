-- ===== src/Graph/Affected.antt =====
-- `selectAffected` of packages/tc-sdlc/src/graph/index.ts: from changed paths to affected tasks.
-- A call of `select_task` takes one unit of fuel for each level of its recursion, and the loop over
-- the pending paths takes one for each round.
pub mod Spec
pub mod Meaning
pub mod Closure
pub mod Drain
pub mod Totality
pub mod Queue
pub mod Correct
use tc_pipelines.Base.{
  ℕ, zero, suc, ◌+◌, Bool, true, false, ◌&&◌, ◌||◌, not, List, [], ◌∷◌, ◌++◌, map, Option, none,
  some, JsString, js, slash, ◌==◌, nat_eq, list_eq, list_beq, if◌then◌else◌, any, keep, has, add,
  lookup, flat_map, take, length, Result, ok, throws, exhausted, fail, ◌>>=◌, ◌>>◌,
  graph_unknown_dependency,
}
use tc_pipelines.Schema.{GraphTask, SdlcGraph, PathCaseSensitivity, or_empty}
use tc_pipelines.Graph.Paths.{normalise_path, assert_relative_path}
use tc_pipelines.Graph.Selector.{
  CaseRules, star, question, head_is, tail_of, selects, path_identity, resolve_project_path,
  task_consumes_path, skip_at,
}
use tc_pipelines.Graph.Acyclic.{TaskMap, index_tasks}

abbrev pub has_wildcard : JsString → Bool
has_wildcard selector = any (λ c. c == star || c == question) selector

-- The texts that stand for the character at the index.
unfoldable pub replacements_at : ℕ → JsString → List JsString
replacements_at c rest =
    if c == star && head_is star rest
    then (if head_is slash (tail_of rest)
        then [] ∷ js "x/" ∷ js "x/y/" ∷ []
        else [] ∷ js "x" ∷ js "x/y" ∷ [])
    else if c == star
    then [] ∷ js "x" ∷ []
    else if c == question
    then js "x" ∷ []
    else (c ∷ []) ∷ []

unfoldable pub witnesses_from : ℕ → List JsString → JsString → List JsString
witnesses_from skip witnesses [] = witnesses
witnesses_from (suc skip) witnesses (c ∷ rest) = witnesses_from skip witnesses rest
witnesses_from zero witnesses (c ∷ rest) =
    witnesses_from (skip_at c rest)
      (take 64 (
        flat_map (λ prefix. map (λ replacement. prefix ++ replacement) (replacements_at c rest))
          witnesses))
      rest

unfoldable pub selector_witnesses : JsString → List JsString
selector_witnesses selector = witnesses_from 0 ([] ∷ []) selector

-- The sets and the queue that the nested functions share.
pub record Selection : Type 0 where
  pub selected : List JsString
  pub pending_paths : List JsString
  pub seen_paths : List JsString

-- A loop over values that carries the selection and may throw.
unfoldable pub each_in {ℓ} :
    {A : Type ℓ} → (A → Selection → Result Selection) → List A → Selection → Result Selection
each_in body [] state = ok state
each_in body (x ∷ xs) state = body x state >>= each_in body xs

-- `consumers.get(key) ?? []`
unfoldable pub consumers_of : List GraphTask → JsString → List JsString
consumers_of tasks key =
    flat_map
      (λ (task : GraphTask).
        flat_map (λ dependency. if dependency == key then task.key ∷ [] else []) task.depends_on)
      tasks

abbrev pub output_selectors : GraphTask → List JsString
output_selectors task = map (resolve_project_path task.project_root) task.outputs

abbrev pub nothing_selected : Selection
nothing_selected = record { selected = []; pending_paths = []; seen_paths = [] }

abbrev pub count_outputs : List GraphTask → ℕ
count_outputs [] = 0
count_outputs (task ∷ tasks) = length task.outputs + count_outputs tasks

module _ (rules : CaseRules) (case : PathCaseSensitivity) where
  unfoldable pub selectors_overlap : JsString → JsString → Bool
  selectors_overlap left right =
      if not (has_wildcard left)
      then selects rules case right left
      else if not (has_wildcard right)
      then selects rules case left right
      else any (selects rules case right) (selector_witnesses left)
        || any (selects rules case left) (selector_witnesses right)

  unfoldable pub consumes_generated : GraphTask → JsString → Bool
  consumes_generated task output_selector =
      any
        (λ input. selectors_overlap output_selector (resolve_project_path task.project_root input))
        task.inputs
      || any (λ input. selectors_overlap output_selector input) (or_empty task.shared_inputs)

  unfoldable pub enqueue_path : JsString → Selection → Selection
  enqueue_path path state =
      let identity = path_identity rules case path in
      if has state.seen_paths identity then state else record state {
        pending_paths = state.pending_paths ++ path ∷ [];
        seen_paths = add state.seen_paths identity;
      }

  -- `sdlc.yaml` and the lock affect everything.
  abbrev pub is_configuration : JsString → Bool
  is_configuration path =
      let identity = path_identity rules case path in
      identity == js "sdlc.yaml" || identity == js "tc-sdlc.lock"

  module _ (tasks : List GraphTask) where
    -- The keys of the tasks that consume what an output selector generates.
    unfoldable pub generated_consumers : JsString → List JsString
    generated_consumers output_selector =
        map (λ (task : GraphTask). task.key)
          (keep (λ task. consumes_generated task output_selector) tasks)

    -- The loop over a task's outputs, for a way to select a task.
    abbrev pub visit_output :
        (JsString → Selection → Result Selection) → JsString → Selection → Result Selection
    visit_output select selector state =
        each_in select (generated_consumers selector) (enqueue_path selector state)

    unfoldable pub select_task : ℕ → JsString → Selection → Result Selection
    select_task zero key state = exhausted
    select_task (suc fuel) key state =
        let found = lookup key (index_tasks tasks []) in
        let expand : Result Selection = elim found [
          | none ↦ fail graph_unknown_dependency (key ∷ [])
          | some task ↦
              each_in (select_task fuel) task.depends_on
                (record state { selected = add state.selected key })
              >>= each_in (visit_output (select_task fuel)) (output_selectors task)
              >>= each_in (select_task fuel) (consumers_of tasks key)
        ] in
        if has state.selected key then ok state else expand

    -- The keys that one pending path selects.
    unfoldable pub directly_affected : JsString → List JsString
    directly_affected path =
        map (λ (task : GraphTask). task.key)
          (if is_configuration path
            then tasks
            else keep (λ task. task_consumes_path rules case task.shape path) tasks)

    unfoldable pub drain : ℕ → ℕ → Selection → Result Selection
    drain zero depth state = exhausted
    drain (suc fuel) depth state = elim state.pending_paths [
      | [] ↦ ok state
      | path ∷ paths ↦
          each_in (select_task depth) (directly_affected path)
            (record state { pending_paths = paths })
          >>= drain fuel depth
    ]

    unfoldable pub enqueue_changed : List JsString → Selection → Result Selection
    enqueue_changed [] state = ok state
    enqueue_changed (path ∷ paths) state =
        assert_relative_path path (js "changed path")
        >> enqueue_changed paths (enqueue_path (normalise_path path) state)

  unfoldable pub select_affected : SdlcGraph → List JsString → Result (List JsString)
  select_affected graph changed_paths = do
    start ← enqueue_changed graph.tasks changed_paths nothing_selected
    state ←
        drain graph.tasks (suc (length changed_paths + count_outputs graph.tasks))
          (suc (length graph.tasks)) start
    ok (
        map (λ (task : GraphTask). task.identity)
          (keep (λ (task : GraphTask). has state.selected task.key) graph.tasks))
