-- ===== src/Runtime/Runs/Completion.antt =====
-- When `runGraph` returns a receipt, and its receipt after a change of the bootstrap state.
use tc_pipelines.Base.{
  ℕ, suc, ◌*◌, ◌≤◌, ◌≡◌, ◌≢◌, inl, inr, refl, sym, subst, Bool, true, false, not, List, [], ◌∷◌,
  map, none, some, JsString, arith, has, lookup, any, keep, length, nat_eq, list_eq, Elem,
  Elem-keep, Distinct, ok, throw_if, for_each, for_each-ok, Option-cases, run_selection_invalid,
}
use tc_pipelines.Schema.{GraphTask, SdlcGraph}
use tc_pipelines.Graph.Acyclic.{assert_acyclic}
use tc_pipelines.Graph.Acyclic.Keys.{keys_of}
use tc_pipelines.Graph.Acyclic.Order.{IsRanked, assert_acyclic-IsRanked}
use tc_pipelines.Graph.Acyclic.Complete.{AreKnown}
use tc_pipelines.Runtime.{failed, TaskReceipt, removed, HostCapacity}
use tc_pipelines.Runtime.Receipts.{RunContext, is_success}
use tc_pipelines.Runtime.Scheduler.{Run, fulfilled, is_settled, finished, run_loop, begin}
use tc_pipelines.Runtime.Scheduler.Resources.{IsExactUpTo, SharesFit}
use tc_pipelines.Runtime.Scheduler.Liveness.{run_loop_settles}
use tc_pipelines.Runtime.Runs.{
  RunReceipt, World, assert_closed, select_tasks, overall_status, Summary, collect, positive,
  attempt, demote, conclude, run_graph,
}
use tc_pipelines.Runtime.Runs.Outcomes.{
  select_tasks-facts, AreRecorded, collect-AreRecorded, run_graph-parts,
}
use tc_pipelines.Runtime.Scheduler.{Doubles}

module _ ⦃numbers : Doubles⦄ where
  keep-keys :
      (p : GraphTask → Bool) (tasks : List GraphTask) (k : JsString)
      → has (keys_of tasks) k ≡ false
      → has (keys_of (keep p tasks)) k ≡ false
  keep-keys p [] k h = refl
  keep-keys p (t ∷ tasks) k h = ground (arith, keep-keys p tasks k)

  keep-Distinct :
      (p : GraphTask → Bool) (tasks : List GraphTask)
      → Distinct (keys_of tasks)
      → Distinct (keys_of (keep p tasks))
  keep-Distinct p [] d = tt
  keep-Distinct p (t ∷ tasks) (o, d) =
      ground (arith, keep-Distinct p tasks d, keep-keys p tasks t.key o)

  keep-IsRanked :
      (rank : JsString → ℕ) (p : GraphTask → Bool) (tasks : List GraphTask)
      → IsRanked rank tasks
      → IsRanked rank (keep p tasks)
  keep-IsRanked rank p tasks h task m = h task ((Elem-keep p tasks task).0 m).0

  closed-AreKnown :
      (tasks : List GraphTask) → assert_closed (keys_of tasks) tasks ≡ ok tt → AreKnown tasks
  unfolding assert_closed
  closed-AreKnown tasks h task m dep n =
      let inner = λ (t : GraphTask).
        for_each
          (λ dependency.
            throw_if (not (has (keys_of tasks) dependency)) run_selection_invalid
              (dependency ∷ t.key ∷ []))
          t.depends_on in
      let passed = for_each-ok inner tasks task h m in
      let one =
        for_each-ok
          (λ dependency.
            throw_if (not (has (keys_of tasks) dependency)) run_selection_invalid
              (dependency ∷ task.key ∷ []))
          task.depends_on dep passed n in
      ground arith

  collect-some :
      (run : Run) (tasks : List GraphTask)
      → ((task : GraphTask) → Elem task tasks → is_settled run task.key ≡ true)
      → (receipts : List TaskReceipt) × (collect run tasks ≡ some receipts)
  unfolding collect
  collect-some run [] h = ([], refl)
  collect-some run (task ∷ tasks) h =
      let (rest, e) = collect-some run tasks (λ t m. h t (inr m)) in
      elim (Option-cases (lookup task.key run.receipts)) [
        | inl missing ↦ let settled = h task (inl refl) in absurd (ground arith)
        | inr (receipt, found) ↦ (receipt ∷ rest, ground arith)
      ]

  -- The run returns a receipt, without a failure reason, whose receipts are those that its loop ends
  -- with, one for each task.
  abbrev pub HasRun :
      RunContext → World → SdlcGraph → List JsString → HostCapacity → List GraphTask → Type 0
  HasRun context world graph selection capacity tasks =
      (receipt : RunReceipt) × (last : Run) × (run_graph context world graph selection capacity
          (suc (2 * length tasks))
        ≡ ok receipt)
      × (run_loop context capacity (suc (2 * length tasks)) world.rounds 0 tasks (begin tasks)
          ≡ finished last)
      × ((task : GraphTask) → Elem task tasks → is_settled last task.key ≡ true)
      × AreRecorded last tasks receipt.tasks
      × (receipt.reason ≡ none)

  -- If doubles up to a limit are computed with exactly and the capacity with any one task's share stays
  -- below it, the graph passed the cycle check, the selection is accepted, the execution context holds
  -- at the start, the capacity is positive, no execution is rejected, the state is intact and the
  -- scratch directory is removed at the end, then 2n + 1 rounds for the n selected tasks are enough for
  -- the loop to end with a receipt for each of them, and the run returns exactly those receipts, without
  -- a failure reason.
  pub run_graph_completes :
      (limit : ℕ) (context : RunContext) (world : World) (graph : SdlcGraph)
      (selection : List JsString) (capacity : HostCapacity) (tasks : List GraphTask)
      → IsExactUpTo limit
      → capacity.cpu ≤ limit
      → SharesFit limit capacity graph.tasks
      → assert_acyclic graph.tasks ≡ ok tt
      → select_tasks graph selection ≡ ok tasks
      → world.entry ≡ ok tt
      → positive capacity ≡ true
      → ((n : ℕ) (task : GraphTask)
          → (receipt : TaskReceipt) × ((world.rounds n).settles task ≡ fulfilled receipt))
      → world.integrity ≡ true
      → world.cleanup ≡ removed
      → HasRun context world graph selection capacity tasks
  unfolding run_graph attempt conclude
  run_graph_completes limit context world graph selection capacity tasks exactly small fitting
        acyclic selected entered valid settles intact gone =
      let (distinct, rank, ranked) = assert_acyclic-IsRanked graph.tasks acyclic in
      let (same, matched, closed) = select_tasks-facts graph selection tasks selected in
      let p = λ (t : GraphTask). has selection t.identity in
      let distinct' =
        subst (λ ts. Distinct (keys_of ts)) (sym same) (keep-Distinct p graph.tasks distinct) in
      let ranked' = subst (IsRanked rank) (sym same) (keep-IsRanked rank p graph.tasks ranked) in
      let fitting' : SharesFit limit capacity tasks =
        λ task m. fitting task ((Elem-keep p graph.tasks task).0 (subst (Elem task) same m)).0 in
      let (last, looped, r, all_settled) =
        run_loop_settles limit context capacity rank tasks world.rounds exactly small fitting'
          distinct' (closed-AreKnown tasks closed) ranked' settles in
      let (receipts, collected) = collect-some last tasks all_settled in
      let summary : Summary = record {
        receipts = receipts;
        status = overall_status receipts;
        reason = none;
      } in
      let recorded = collect-AreRecorded last tasks receipts collected in
      (
        conclude context world graph tasks summary,
        last,
        rw (selected, entered, valid, looped, collected),
        looped,
        all_settled,
        rw intact recorded,
        rw (intact, gone),
      )

  demoted :
      (receipts : List TaskReceipt)
      → any (λ (r : TaskReceipt). is_success r.status) (map demote receipts) ≡ false
  unfolding demote
  demoted [] = refl
  demoted (r ∷ receipts) = ground (arith, demoted receipts)

  -- If the bootstrap state changed during the run, then no task of the receipt is reported as
  -- succeeded, the run is reported as failed, and its receipt gives a reason.
  pub run_graph-state_changed :
      (context : RunContext) (world : World) (graph : SdlcGraph) (selection : List JsString)
      (capacity : HostCapacity) (fuel : ℕ) (receipt : RunReceipt)
      → run_graph context world graph selection capacity fuel ≡ ok receipt
      → world.integrity ≡ false
      → (any (λ (r : TaskReceipt). is_success r.status) receipt.tasks ≡ false)
        × (receipt.status ≡ failed)
        × (receipt.reason ≢ none)
  unfolding conclude
  run_graph-state_changed context world graph selection capacity fuel receipt h lost =
      let (tasks, summary, selected, tried, same) =
        run_graph-parts context world graph selection capacity fuel receipt h in
      subst
        (λ (r : RunReceipt).
          (any (λ (t : TaskReceipt). is_success t.status) r.tasks ≡ false)
          × (r.status ≡ failed)
          × (r.reason ≢ none))
        same (rw lost (demoted summary.receipts), ground arith, ground arith)
