-- ===== src/Graph/Construction/Runnable.antt =====
-- Graphs that `buildGraph` returns, up to their run.
use tc_pipelines.Base.{
  ℕ, ◌≤◌, ◌≡◌, sym, ap, ◌∙◌, subst, inl, inr, true, List, JsString, Option-cases, ok, >>=-eq-ok,
  ◌>>◌,
}
use tc_pipelines.Schema.{GraphTask, SdlcDeclaration, SdlcGraph, TaskInputDigests}
use tc_pipelines.Canonical.{Hashing}
use tc_pipelines.Graph.Selector.{CaseRules}
use tc_pipelines.Graph.Declaration.{validate_declaration}
use tc_pipelines.Graph.Validation.{validate_graph_declaration}
use tc_pipelines.Graph.Acyclic.{assert_acyclic}
use tc_pipelines.Graph.Presets.{build_preset_tasks}
use tc_pipelines.Graph.Construction.{Planning, graph_projects, plan_graph, plan_with, build_graph}
use tc_pipelines.Runtime.{TaskReceipt, HostCapacity, removed}
use tc_pipelines.Runtime.Receipts.{RunContext}
use tc_pipelines.Runtime.Scheduler.{fulfilled}
use tc_pipelines.Runtime.Runs.{World, positive, select_tasks}
use tc_pipelines.Runtime.Runs.Completion.{HasRun, run_graph_completes}
use tc_pipelines.Runtime.Scheduler.Resources.{IsExactUpTo, SharesFit}
use tc_pipelines.Runtime.Scheduler.{Doubles}

module _ ⦃numbers : Doubles⦄ where
  module _ (rules : CaseRules) (hashing : Hashing) (planning : Planning) where
    plan_graph-acyclic :
        (declaration : SdlcDeclaration) (inputs : TaskInputDigests) (graph : SdlcGraph)
        → plan_graph rules hashing planning declaration inputs ≡ ok graph
        → assert_acyclic graph.tasks ≡ ok tt
    unfolding plan_graph
    plan_graph-acyclic declaration inputs graph h =
        let projects = graph_projects declaration in
        let call =
          build_preset_tasks declaration projects rules hashing planning.lock_digest inputs in
        let with_tasks : List GraphTask → SdlcGraph = λ tasks. record {
          declaration_digest = planning.declaration_digest;
          lock_digest = planning.lock_digest;
          projects = projects;
          tasks = tasks;
        } in
        let (tasks, made, h1) =
          >>=-eq-ok call (λ tasks. assert_acyclic tasks >> ok (with_tasks tasks)) h in
        let (u, ordered, h2) = >>=-eq-ok (assert_acyclic tasks) (λ _. ok (with_tasks tasks)) h1 in
        let same : with_tasks tasks ≡ graph = cc in
        subst (λ (g : SdlcGraph). assert_acyclic g.tasks ≡ ok tt) same ordered

    -- The graph passed the cycle check.
    build_graph-acyclic :
        (raw : SdlcDeclaration) (graph : SdlcGraph)
        → build_graph rules hashing planning raw ≡ ok graph
        → assert_acyclic graph.tasks ≡ ok tt
    unfolding build_graph plan_with
    build_graph-acyclic raw graph h =
        let go = λ (declaration : SdlcDeclaration). plan_with rules hashing planning declaration in
        let validate = λ (declaration : SdlcDeclaration).
          validate_graph_declaration rules.to_lower_case raw declaration in
        let (declaration, declared, h1) =
          >>=-eq-ok (validate_declaration planning.posix_normalize planning.checked_declaration raw)
            (λ declaration.
              planning.valid_lock >> (validate declaration >> go declaration planning.authority))
            h in
        let (_, _, h2) =
          >>=-eq-ok planning.valid_lock
            (λ _. validate declaration >> go declaration planning.authority) h1 in
        let (u, validated, h3) =
          >>=-eq-ok (validate declaration) (λ _. go declaration planning.authority) h2 in
        elim (Option-cases planning.authority) [
          | inl unbound ↦ absurd (let never = sym (ap (go declaration) unbound) ∙ h3 in cc)
          | inr (inputs, authorised) ↦
              let (_, _, planned) =
                >>=-eq-ok planning.current_lock
                  (λ _. plan_graph rules hashing planning declaration inputs)
                  (sym (ap (go declaration) authorised) ∙ h3) in
              plan_graph-acyclic declaration inputs graph planned
        ]

    -- A graph that `buildGraph` returns runs to its end: if doubles up to a limit are computed with
    -- exactly and the capacity with any one task's share stays below it, the selection is accepted, the
    -- context holds at the start, the capacity is positive, no execution is rejected, the state is
    -- intact and the scratch directory is removed at the end, then 2n + 1 rounds for the n selected
    -- tasks are enough for the loop to end with a receipt for each of them, and the run returns exactly
    -- those receipts, without a failure reason.
    pub build_graph-run_graph_completes :
        (limit : ℕ) (raw : SdlcDeclaration) (graph : SdlcGraph) (context : RunContext)
        (world : World) (selection : List JsString) (capacity : HostCapacity)
        (tasks : List GraphTask)
        → IsExactUpTo limit
        → capacity.cpu ≤ limit
        → SharesFit limit capacity graph.tasks
        → build_graph rules hashing planning raw ≡ ok graph
        → select_tasks graph selection ≡ ok tasks
        → world.entry ≡ ok tt
        → positive capacity ≡ true
        → ((n : ℕ) (task : GraphTask)
            → (receipt : TaskReceipt) × ((world.rounds n).settles task ≡ fulfilled receipt))
        → world.integrity ≡ true
        → world.cleanup ≡ removed
        → HasRun context world graph selection capacity tasks
    build_graph-run_graph_completes limit raw graph context world selection capacity tasks exactly
          small fitting h =
        run_graph_completes limit context world graph selection capacity tasks exactly small fitting
          (build_graph-acyclic raw graph h)
