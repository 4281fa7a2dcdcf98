-- ===== src/Runtime/Receipts.antt =====
-- The receipts of packages/tc-sdlc/src/runtime/index.ts for tasks that were never started.
use tc_pipelines.Base.{Bool, true, false, List, [], ◌∷◌, Option, none, some, JsString, js, map}
use tc_pipelines.Schema.{GraphTask, TaskEvidenceDeclaration, or_empty}
use tc_pipelines.Runtime.{
  TaskRunStatus, succeeded, failed, cancelled, skipped, EventType, cancellation, terminal, RunEvent,
  TaskReceipt,
}

-- What the receipts take from the run: the digest of the execution context, the name of the scratch
-- directory, and `posix.normalize` of node:path.
pub record RunContext : Type 0 where
  pub context_digest : JsString
  pub scratch_id : JsString
  pub posix_normalize : JsString → JsString

abbrev pub is_success : TaskRunStatus → Bool
is_success succeeded = true
is_success _ = false

module _ (context : RunContext) (task : GraphTask) where
  abbrev event : EventType → Option TaskRunStatus → JsString → RunEvent
  event type status reason = record {
    task_key = task.key;
    task_identity = task.identity;
    type = type;
    stream = none;
    text = none;
    status = status;
    reason = some reason;
  }

  abbrev unstarted : TaskRunStatus → JsString → List RunEvent → TaskReceipt
  unstarted status reason events = record {
    key = task.key;
    identity = task.identity;
    status = status;
    exit_code = none;
    reason = some reason;
    stdout = [];
    stderr = [];
    output_truncated = false;
    execution_context_digest = context.context_digest;
    scratch_id = context.scratch_id;
    resources = task.resources;
    evidence = [];
    missing_evidence =
        map (λ (item : TaskEvidenceDeclaration). context.posix_normalize item.path)
          (or_empty task.evidence);
    events = events;
    diagnostic = none;
  }

  unfoldable pub skipped_receipt : JsString → TaskReceipt
  skipped_receipt reason = unstarted skipped reason (event terminal (some skipped) reason ∷ [])

  unfoldable pub failed_admission_receipt : TaskReceipt
  failed_admission_receipt =
      let reason = js "resource_capacity_exceeded" in
      unstarted failed reason (event terminal (some failed) reason ∷ [])

  unfoldable pub cancelled_before_start_receipt : TaskReceipt
  cancelled_before_start_receipt =
      let reason = js "operator_abort" in
      unstarted cancelled reason
        (event cancellation none reason ∷ event terminal (some cancelled) reason ∷ [])
