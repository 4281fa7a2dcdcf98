-- ===== src/Runtime/Runs.antt =====
-- `runGraph` of packages/tc-sdlc/src/runtime/index.ts around its loop: the selection, the exception
-- handler, and the integrity and cleanup steps before the receipt is written.
pub mod Outcomes
pub mod Completion
use tc_pipelines.Base.{
  ℕ, zero, suc, ◌+◌, ◌*◌, Bool, true, false, ◌&&◌, ◌||◌, not, List, [], ◌∷◌, ◌++◌, map, Option,
  none, some, JsString, js, has, set_of, lookup, insert, any, all, keep, length, ltb, if◌then◌else◌,
  ◌==◌, nat_eq, list_eq, Result, ok, throws, exhausted, fail, throw_if, for_each, ◌>>=◌, ◌>>◌,
  run_selection_invalid,
}
use tc_pipelines.Schema.{GraphTask, SdlcGraph}
use tc_pipelines.Runtime.{
  TaskRunStatus, succeeded, failed, stalled, cancelled, skipped, EventType, terminal, RunEvent,
  TaskReceipt, ScratchCleanup, removed, retained, HostCapacity,
}
use tc_pipelines.Runtime.Receipts.{RunContext, is_success, skipped_receipt}
use tc_pipelines.Runtime.Scheduler.{
  Doubles, Run, Round, Ending, finished, aborted_by, run_loop, begin,
}

-- The digest of the bootstrap context and the name of the schema are left out.
pub record RunReceipt : Type 0 where
  pub declaration_digest : JsString
  pub lock_digest : JsString
  pub scratch_id : JsString
  pub scratch_cleanup : ScratchCleanup
  pub reason : Option JsString
  pub selection : List JsString
  pub status : TaskRunStatus
  pub tasks : List TaskReceipt

-- What the world outside `runGraph` does during one call.
pub record World : Type 0 where
  -- whether the identity of the execution context and its lease hold at the start
  pub entry : Result (Unit {0})
  pub rounds : ℕ → Round
  -- the receipts of `Promise.allSettled` in the exception handler; `none` for a rejection
  pub late : GraphTask → Option TaskReceipt
  -- whether `verifyIntegrity` and `assertCurrent` hold at the end
  pub integrity : Bool
  pub cleanup : ScratchCleanup

abbrev pub identity_of : GraphTask → JsString
identity_of task = task.identity

abbrev pub chosen : SdlcGraph → List JsString → List GraphTask
chosen graph selection = keep (λ (task : GraphTask). has selection task.identity) graph.tasks

-- The selection holds every dependency of the selected tasks.
unfoldable pub assert_closed : List JsString → List GraphTask → Result (Unit {0})
assert_closed selected_keys tasks =
    for_each
      (λ (task : GraphTask).
        for_each
          (λ dependency.
            throw_if (not (has selected_keys dependency)) run_selection_invalid
              (dependency ∷ task.key ∷ []))
          task.depends_on)
      tasks

unfoldable pub select_tasks : SdlcGraph → List JsString → Result (List GraphTask)
select_tasks graph selection =
    let tasks = chosen graph selection in
    throw_if (not (length (set_of selection) == length selection)) run_selection_invalid []
    >> (throw_if (not (length tasks == length selection)) run_selection_invalid []
        >> (assert_closed (map (λ (task : GraphTask). task.key) tasks) tasks >> ok tasks))

abbrev pub is_cancelled : TaskRunStatus → Bool
is_cancelled cancelled = true
is_cancelled _ = false

abbrev pub is_stalled : TaskRunStatus → Bool
is_stalled stalled = true
is_stalled _ = false

unfoldable pub overall_status : List TaskReceipt → TaskRunStatus
overall_status receipts =
    if any (λ (receipt : TaskReceipt). is_cancelled receipt.status) receipts
    then cancelled
    else if any (λ (receipt : TaskReceipt). is_stalled receipt.status) receipts
    then stalled
    else if all (λ (receipt : TaskReceipt). is_success receipt.status) receipts
    then succeeded
    else failed

-- What the `try` statement leaves in the local variables.
pub record Summary : Type 0 where
  pub receipts : List TaskReceipt
  pub status : TaskRunStatus
  pub reason : Option JsString

unfoldable pub collect : Run → List GraphTask → Option (List TaskReceipt)
collect run [] = some []
collect run (task ∷ tasks) =
    let rest = collect run tasks in
    elim (lookup task.key run.receipts) [
      | none ↦ none
      | some receipt ↦ elim rest [ none ↦ none | some receipts ↦ some (receipt ∷ receipts) ]
    ]

module _ ⦃numbers : Doubles⦄ where
  abbrev pub positive : HostCapacity → Bool
  positive capacity = numbers.greater capacity.cpu 0 && ltb 0 capacity.memory_mib

-- `receiptReason ??= reason`
abbrev pub or_reason : Option JsString → JsString → Option JsString
or_reason none reason = some reason
or_reason (some earlier) reason = some earlier

module _ (context : RunContext) (world : World) (tasks : List GraphTask) where
  unfoldable pub late_receipts :
      List GraphTask → List (JsString × TaskReceipt) → List (JsString × TaskReceipt)
  late_receipts [] receipts = receipts
  late_receipts (task ∷ running) receipts =
      late_receipts running (elim (world.late task) [
        | none ↦ receipts
        | some receipt ↦ insert task.key receipt receipts
      ])

  -- The `catch` clause.
  unfoldable pub caught : JsString → Run → Summary
  caught message run =
      let receipts = late_receipts run.running run.receipts in
      record {
        receipts =
            map
              (λ (task : GraphTask). elim (lookup task.key receipts) [
                | some receipt ↦ receipt
                | none ↦ skipped_receipt context task (js "run_aborted:" ++ message)
              ])
              tasks;
        status = failed;
        reason = some message;
      }

  abbrev pub capacity_message : JsString
  capacity_message = js "host capacity must be positive"

  abbrev pub missing_receipt : JsString
  missing_receipt = js "Cannot read properties of undefined (reading 'status')"

  module _ ⦃numbers : Doubles⦄ where
    unfoldable pub attempt : HostCapacity → ℕ → Result Summary
    attempt capacity fuel =
        if not (positive capacity)
        then ok (caught capacity_message (begin tasks))
        else elim (run_loop context capacity fuel world.rounds 0 tasks (begin tasks)) [
          | finished last ↦ elim (collect last tasks) [
            | some receipts ↦
                ok (record { receipts = receipts; status = overall_status receipts; reason = none })
            | none ↦ ok (caught missing_receipt last)
          ]
          | aborted_by message run ↦ ok (caught message run)
          | Ending.exhausted ↦ exhausted
        ]

abbrev pub is_terminal : EventType → Bool
is_terminal terminal = true
is_terminal _ = false

abbrev pub state_changed : JsString
state_changed = js "bootstrap_state_changed"

abbrev pub demote_event : RunEvent → RunEvent
demote_event event =
    if is_terminal event.type
    then record event { status = some failed; reason = some state_changed }
    else event

-- A receipt once the bootstrap state is known to have changed.
unfoldable pub demote : TaskReceipt → TaskReceipt
demote receipt =
    if is_success receipt.status
    then record receipt {
      status = failed;
      reason = some state_changed;
      exit_code = none;
      events = map demote_event receipt.events;
    }
    else receipt

abbrev pub is_removed : ScratchCleanup → Bool
is_removed removed = true
is_removed retained = false

-- The `finally` clause and what follows it.
unfoldable pub conclude : RunContext → World → SdlcGraph → List GraphTask → Summary → RunReceipt
conclude context world graph tasks summary =
    let kept = if world.integrity then summary.reason else or_reason summary.reason state_changed in
    let reason =
      if is_removed world.cleanup then kept else or_reason kept (js "scratch_cleanup_failed") in
    let status = if world.integrity then summary.status else failed in
    record {
      declaration_digest = graph.declaration_digest;
      lock_digest = graph.lock_digest;
      scratch_id = context.scratch_id;
      scratch_cleanup = world.cleanup;
      reason = reason;
      selection = map identity_of tasks;
      status = elim reason [ none ↦ status | some r ↦ failed ];
      tasks = if world.integrity then summary.receipts else map demote summary.receipts;
    }

module _ ⦃numbers : Doubles⦄ where
  unfoldable pub run_graph :
      RunContext → World → SdlcGraph → List JsString → HostCapacity → ℕ → Result RunReceipt
  run_graph context world graph selection capacity fuel = do
    tasks ← select_tasks graph selection
    world.entry
    summary ← attempt context world tasks capacity fuel
    ok (conclude context world graph tasks summary)
