-- ===== src/Runtime/Runs/Outcomes.antt =====
-- What the receipt of a run says, and when a run has one.
use tc_pipelines.Base.{
  ℕ, ◌≡◌, ◌⊎◌, inl, inr, refl, sym, ap, ◌∙◌, subst, true, List, [], ◌∷◌, none, some, JsString,
  arith, set_of, lookup, all, length, map, Option, false, ◌==◌, nat_eq, list_eq, Result, ok, ◌>>=◌,
  ◌>>◌, >>=-eq-ok, Bool-cases, Option-cases,
}
use tc_pipelines.Schema.{GraphTask, SdlcGraph}
use tc_pipelines.Graph.Acyclic.Keys.{keys_of}
use tc_pipelines.Runtime.{
  TaskRunStatus, succeeded, failed, stalled, cancelled, skipped, TaskReceipt, removed, HostCapacity,
}
use tc_pipelines.Runtime.Receipts.{RunContext, is_success}
use tc_pipelines.Runtime.Scheduler.{
  has_succeeded, Run, Ending, finished, aborted_by, run_loop, begin,
}
use tc_pipelines.Runtime.Runs.{
  RunReceipt, World, chosen, assert_closed, select_tasks, overall_status, Summary, collect,
  positive, caught, attempt, conclude, run_graph,
}
use tc_pipelines.Runtime.Scheduler.{Doubles}

module _ ⦃numbers : Doubles⦄ where
  success-eq : (s : TaskRunStatus) → is_success s ≡ true → s ≡ succeeded
  success-eq succeeded h = refl
  success-eq failed h = cc
  success-eq stalled h = cc
  success-eq cancelled h = cc
  success-eq skipped h = cc

  overall_status-succeeded :
      (receipts : List TaskReceipt)
      → overall_status receipts ≡ succeeded
      → all (λ (r : TaskReceipt). is_success r.status) receipts ≡ true
  unfolding overall_status
  overall_status-succeeded receipts h = ground arith

  Ending-cases :
      (e : Ending)
      → ((last : Run) × (e ≡ finished last))
        ⊎ (((m : JsString) × (r : Run) × (e ≡ aborted_by m r)) ⊎ (e ≡ Ending.exhausted))
  Ending-cases (finished last) = inl (last, refl)
  Ending-cases (aborted_by m r) = inr (inl (m, r, refl))
  Ending-cases Ending.exhausted = inr (inr refl)

  -- The receipts of tasks in a state are those that are recorded for their keys.
  abbrev pub AreRecorded : Run → List GraphTask → List TaskReceipt → Type 0
  AreRecorded run tasks receipts =
      map some receipts ≡ map (λ (task : GraphTask). lookup task.key run.receipts) tasks

  pub collect-AreRecorded :
      (run : Run) (tasks : List GraphTask) (receipts : List TaskReceipt)
      → collect run tasks ≡ some receipts
      → AreRecorded run tasks receipts
  unfolding collect
  collect-AreRecorded run [] receipts h = let e : [] ≡ receipts = cc in ap (map some) (sym e)
  collect-AreRecorded run (task ∷ tasks) receipts h =
      elim (Option-cases (lookup task.key run.receipts)) [
        | inl missing ↦ absurd (ground arith)
        | inr (r, found) ↦ elim (Option-cases (collect run tasks)) [
          | inl missing ↦ absurd (ground arith)
          | inr (rs, rest) ↦
              let e : r ∷ rs ≡ receipts = ground arith in
              ap (map some) (sym e)
              ∙ ap (λ o. o ∷ map some rs) (sym found)
              ∙ ap (λ os. lookup task.key run.receipts ∷ os) (collect-AreRecorded run tasks rs rest)
        ]
      ]

  module _ (context : RunContext) (world : World) (tasks : List GraphTask) (capacity : HostCapacity)
      (fuel : ℕ) where
    -- A summary without a reason comes from a loop that ended by its condition.
    attempt-clean :
        (summary : Summary)
        → attempt context world tasks capacity fuel ≡ ok summary
        → summary.reason ≡ none
        → (last : Run) × (run_loop context capacity fuel world.rounds 0 tasks (begin tasks)
            ≡ finished last)
          × (collect last tasks ≡ some summary.receipts)
          × (summary.status ≡ overall_status summary.receipts)
    unfolding attempt caught
    attempt-clean summary h clean = elim (Bool-cases (positive capacity)) [
      | inr invalid ↦ absurd (ground arith)
      | inl valid ↦
          elim (Ending-cases (run_loop context capacity fuel world.rounds 0 tasks (begin tasks))) [
            | inr (inl (message, run, e)) ↦ absurd (ground arith)
            | inr (inr out) ↦ absurd (ground arith)
            | inl (last, e) ↦ elim (Option-cases (collect last tasks)) [
              | inl missing ↦ absurd (ground arith)
              | inr (receipts, found) ↦ (last, e, ground arith, ground arith)
            ]
          ]
    ]

  pub select_tasks-facts :
      (graph : SdlcGraph) (selection : List JsString) (tasks : List GraphTask)
      → select_tasks graph selection ≡ ok tasks
      → (tasks ≡ chosen graph selection)
        × (length tasks ≡ length selection)
        × (assert_closed (keys_of tasks) tasks ≡ ok tt)
  unfolding select_tasks
  select_tasks-facts graph selection tasks h =
      let found = chosen graph selection in
      let closing : List GraphTask → Result (List GraphTask) =
        λ ts. assert_closed (keys_of ts) ts >> ok ts in
      elim (Bool-cases (length (set_of selection) == length selection)) [
        | inr twice ↦ absurd (ground arith)
        | inl unique ↦ elim (Bool-cases (length found == length selection)) [
          | inr unknown ↦ absurd (ground arith)
          | inl matched ↦
              let ran : closing found ≡ ok tasks = ground arith in
              let (u, closed, e) =
                >>=-eq-ok (assert_closed (keys_of found) found) (λ _. ok found) ran in
              let same : found ≡ tasks = cc in
              subst
                (λ ts.
                  (ts ≡ found)
                  × (length ts ≡ length selection)
                  × (assert_closed (keys_of ts) ts ≡ ok tt))
                same (refl, ground arith, closed)
        ]
      ]

  conclude-clean :
      (context : RunContext) (world : World) (graph : SdlcGraph) (tasks : List GraphTask)
      (summary : Summary)
      → (conclude context world graph tasks summary).status ≡ succeeded
      → (summary.reason ≡ none)
        × (summary.status ≡ succeeded)
        × (world.integrity ≡ true)
        × (world.cleanup ≡ removed)
        × ((conclude context world graph tasks summary).reason ≡ none)
        × ((conclude context world graph tasks summary).tasks ≡ summary.receipts)
  unfolding conclude
  conclude-clean context world graph tasks summary h =
      (ground arith, ground arith, ground arith, ground arith, ground arith, ground arith)

  pub run_graph-parts :
      (context : RunContext) (world : World) (graph : SdlcGraph) (selection : List JsString)
      (capacity : HostCapacity) (fuel : ℕ) (receipt : RunReceipt)
      → run_graph context world graph selection capacity fuel ≡ ok receipt
      → (tasks : List GraphTask) × (summary : Summary) × (select_tasks graph selection ≡ ok tasks)
        × (attempt context world tasks capacity fuel ≡ ok summary)
        × (conclude context world graph tasks summary ≡ receipt)
  unfolding run_graph
  run_graph-parts context world graph selection capacity fuel receipt h =
      let finish = λ (tasks : List GraphTask) (summary : Summary).
        ok (conclude context world graph tasks summary) in
      let running =
        λ (tasks : List GraphTask). attempt context world tasks capacity fuel >>= finish tasks in
      let (tasks, selected, rest) =
        >>=-eq-ok (select_tasks graph selection) (λ tasks. world.entry >> running tasks) h in
      let (u, entered, rest') = >>=-eq-ok world.entry (λ _. running tasks) rest in
      let (summary, tried, last) =
        >>=-eq-ok (attempt context world tasks capacity fuel) (finish tasks) rest' in
      (tasks, summary, selected, tried, cc)

  cleanup-conclude :
      (context : RunContext) (world : World) (graph : SdlcGraph) (tasks : List GraphTask)
      (summary : Summary)
      → (conclude context world graph tasks summary).scratch_cleanup ≡ world.cleanup
  unfolding conclude
  cleanup-conclude context world graph tasks summary = refl

  -- A run is reported as succeeded only if its loop ended by its condition with a succeeded receipt for
  -- each selected task, the receipts of the run are those, no error was caught, the bootstrap state was
  -- still intact at the end and the scratch directory is gone.
  pub run_graph-succeeded :
      (context : RunContext) (world : World) (graph : SdlcGraph) (selection : List JsString)
      (capacity : HostCapacity) (fuel : ℕ) (receipt : RunReceipt)
      → run_graph context world graph selection capacity fuel ≡ ok receipt
      → receipt.status ≡ succeeded
      → (last : Run) × (tasks : List GraphTask) × (select_tasks graph selection ≡ ok tasks)
        × (run_loop context capacity fuel world.rounds 0 tasks (begin tasks) ≡ finished last)
        × AreRecorded last tasks receipt.tasks
        × all (has_succeeded last) (keys_of tasks) ≡ true
        × (length tasks ≡ length selection)
        × (receipt.reason ≡ none)
        × (world.integrity ≡ true)
        × (receipt.scratch_cleanup ≡ removed)
  run_graph-succeeded context world graph selection capacity fuel receipt h good =
      let (tasks, summary, selected, tried, same) =
        run_graph-parts context world graph selection capacity fuel receipt h in
      let good' : (conclude context world graph tasks summary).status ≡ succeeded =
        ap (λ (r : RunReceipt). r.status) same ∙ good in
      let (clean, status, intact, gone, reason, receipts) =
        conclude-clean context world graph tasks summary good' in
      let (last, looped, collected, overall) =
        attempt-clean context world tasks capacity fuel summary tried clean in
      let recorded = collect-AreRecorded last tasks summary.receipts collected in
      (
        last,
        tasks,
        selected,
        looped,
        subst (λ (r : RunReceipt). AreRecorded last tasks r.tasks) same
            (ap (map some) receipts ∙ recorded),
        all_recorded last tasks summary.receipts recorded
            (overall_status-succeeded summary.receipts (sym overall ∙ status)),
        (select_tasks-facts graph selection tasks selected).1,
        sym (ap (λ (r : RunReceipt). r.reason) same) ∙ reason,
        intact,
        sym (ap (λ (r : RunReceipt). r.scratch_cleanup) same)
            ∙ cleanup-conclude context world graph tasks summary
            ∙ gone,
      )
    where
      head_of : Option TaskReceipt → List (Option TaskReceipt) → Option TaskReceipt
      head_of other [] = other
      head_of other (o ∷ os) = o

      rest_of : List (Option TaskReceipt) → List (Option TaskReceipt)
      rest_of [] = []
      rest_of (o ∷ os) = os

      all_recorded :
          (last : Run) (tasks : List GraphTask) (receipts : List TaskReceipt)
          → AreRecorded last tasks receipts
          → all (λ (r : TaskReceipt). is_success r.status) receipts ≡ true
          → all (has_succeeded last) (keys_of tasks) ≡ true
      all_recorded last [] receipts same good = refl
      all_recorded last (task ∷ tasks) [] same good =
          absurd
            (let never : false ≡ true = ap (λ os. elim os [ [] ↦ false | _ ∷ _ ↦ true ]) same in cc)
      all_recorded last (task ∷ tasks) (r ∷ receipts) same good =
          let found : some r ≡ lookup task.key last.receipts = ap (head_of none) same in
          let later = all_recorded last tasks receipts (ap rest_of same) (ground arith) in
          let here : has_succeeded last task.key ≡ true =
            rw (sym found, has_succeeded) (ground arith) in
          rw (here, later) refl
