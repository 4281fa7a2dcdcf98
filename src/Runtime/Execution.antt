-- ===== src/Runtime/Execution.antt =====
-- `executeTask` of packages/tc-sdlc/src/runtime/index.ts: the steps before the process is started,
-- the callbacks of its timers and streams, and the receipt when it is closed.
-- A callback is a function on the local variables of the promise, the record Execution; the event
-- loop's choice is the sequence of signals. A timer that was cleared no longer fires.
pub mod Start
pub mod Events
pub mod Outcome
use tc_pipelines.Base.{
  ℕ, zero, suc, ◌+◌, ◌-◌, Bool, true, false, ◌&&◌, ◌||◌, not, List, [], ◌∷◌, ◌++◌, map, Option,
  none, some, JsString, js, leb, if◌then◌else◌, ◌==◌, nat_eq, list_eq, Result, ok, throws,
  exhausted,
}
use tc_pipelines.Schema.{
  GraphTask, TaskEvidenceDeclaration, ExecutorContract, command_contract, fitness_contract,
  executor_contract, or_empty,
}
use tc_pipelines.Runtime.{
  TaskRunStatus, succeeded, failed, stalled, cancelled, EventType, start, heartbeat, output,
  cancellation, terminal, OutputStream, stdout, stderr, RunEvent, TaskReceiptEvidence, TaskReceipt,
  ProcessSample, ProcessDiagnostic, ℤ, pos, negsuc,
}
use tc_pipelines.Runtime.Output.{OutputCapture, nothing_captured, retained_output, capture_output}
use tc_pipelines.Runtime.Evidence.{EvidenceRoot, EvidenceRules, captured_task_evidence}
use tc_pipelines.Runtime.Receipts.{is_success}
use tc_pipelines.Runtime.Scheduler.{Settled, fulfilled, rejected}

pub record Forced : Type 0 where
  pub status : TaskRunStatus
  pub reason : JsString
  pub diagnostic : Option ProcessDiagnostic

pub record Execution : Type 0 where
  pub stdout_capture : OutputCapture
  pub stderr_capture : OutputCapture
  pub stdout_bytes : ℕ
  pub stderr_bytes : ℕ
  pub last_progress : ℕ
  pub forced : Option Forced
  pub heartbeat_runs : Bool
  pub phase_runs : Bool
  pub listens : Bool
  pub events : List RunEvent

-- What `child.pid`, `child.exitCode` and `captureProcessGroup` give.
pub record Diagnosis : Type 0 where
  pub pid : Option ℕ
  pub running : Bool
  pub processes : List ProcessSample

pub data Signal : Type 0 where
  heartbeat_tick : (now : ℕ) → Diagnosis → Signal
  phase_elapsed abort_requested : Signal
  data_arrived : OutputStream → (text : JsString) → (length now : ℕ) → Signal
  child_error : (message : JsString) → Signal

-- What an execution is given: `options.maxOutputBytes ?? 64 * 1024`, the secrets of
-- `taskRedactions`, and what the receipts take from the run.
pub record Setting : Type 0 where
  pub maximum_output : ℕ
  pub redactions : List JsString
  pub context_digest : JsString
  pub scratch_id : JsString

module _ (setting : Setting) (task : GraphTask) where
  abbrev pub plain_event : EventType → RunEvent
  plain_event type = record {
    task_key = task.key;
    task_identity = task.identity;
    type = type;
    stream = none;
    text = none;
    status = none;
    reason = none;
  }

  abbrev pub start_event : RunEvent
  start_event = plain_event start

  abbrev pub cancellation_event : JsString → RunEvent
  cancellation_event reason = record (plain_event cancellation) { reason = some reason }

  abbrev pub output_event : OutputStream → JsString → RunEvent
  output_event stream text = record (plain_event output) { stream = some stream; text = some text }

  abbrev pub terminal_event : TaskRunStatus → Option JsString → RunEvent
  terminal_event status reason = record (plain_event terminal) {
    status = some status;
    reason = reason;
  }

  abbrev pub emit : RunEvent → Execution → Execution
  emit event run = record run { events = run.events ++ event ∷ [] }

  -- A forced end: the first one wins.
  unfoldable pub force : Forced → Execution → Execution
  force why run = elim run.forced [
    | some earlier ↦ run
    | none ↦
        emit (cancellation_event why.reason)
          (record run { forced = some why; heartbeat_runs = false })
  ]

  abbrev pub captured_by : OutputStream → Execution → OutputCapture
  captured_by stdout run = run.stdout_capture
  captured_by stderr run = run.stderr_capture

  abbrev pub set_capture : OutputStream → OutputCapture → Execution → Execution
  set_capture stdout capture run = record run { stdout_capture = capture }
  set_capture stderr capture run = record run { stderr_capture = capture }

  abbrev pub emit_retained : OutputStream → JsString → Execution → Execution
  emit_retained stream [] run = run
  emit_retained stream (c ∷ retained) run = emit (output_event stream (c ∷ retained)) run

  -- `captureOutput`
  unfoldable pub capture : OutputStream → JsString → Bool → Execution → Execution
  capture stream text flush run =
      let before = captured_by stream run in
      let after = capture_output setting.maximum_output setting.redactions text flush before in
      let retained = retained_output setting.maximum_output setting.redactions text flush before in
      emit_retained stream retained (set_capture stream after run)

  abbrev pub count_bytes : OutputStream → ℕ → Execution → Execution
  count_bytes stdout n run = record run { stdout_bytes = run.stdout_bytes + n }
  count_bytes stderr n run = record run { stderr_bytes = run.stderr_bytes + n }

  abbrev pub diagnose : Diagnosis → Execution → ProcessDiagnostic
  diagnose found run = record {
    pid = found.pid;
    running = found.running;
    cpu = task.resources.cpu;
    memory_mib = task.resources.memory_mib;
    ports = task.resources.ports;
    exclusive = task.resources.exclusive;
    stdout_bytes = run.stdout_bytes;
    stderr_bytes = run.stderr_bytes;
    processes = found.processes;
  }

  abbrev pub no_progress : Diagnosis → Execution → Forced
  no_progress found run = record {
    status = stalled;
    reason = js "no_progress";
    diagnostic = some (diagnose found run);
  }

  abbrev pub over_budget : Forced
  over_budget = record { status = failed; reason = js "phase_budget_exceeded"; diagnostic = none }

  abbrev pub operator_abort : Forced
  operator_abort = record { status = cancelled; reason = js "operator_abort"; diagnostic = none }

  -- One callback.
  unfoldable pub deliver : Signal → Execution → Execution
  deliver (heartbeat_tick now found) run =
      let ticked = emit (plain_event heartbeat) run in
      if not run.heartbeat_runs
      then run
      else if leb task.budget.no_progress_ms (now - run.last_progress)
      then force (no_progress found ticked) ticked
      else ticked
  deliver phase_elapsed run =
      if run.phase_runs then force over_budget (record run { phase_runs = false }) else run
  deliver abort_requested run =
      if run.listens
      then elim run.forced [
        | none ↦ force operator_abort (record run { listens = false; phase_runs = false })
        | some earlier ↦ record run { listens = false }
      ]
      else run
  deliver (data_arrived stream text length now) run =
      capture stream text false (count_bytes stream length (record run { last_progress = now }))
  deliver (child_error message) run = capture stderr message false run

  unfoldable pub deliver_all : List Signal → Execution → Execution
  deliver_all [] run = run
  deliver_all (signal ∷ signals) run = deliver_all signals (deliver signal run)

  -- The local variables when the process was started at a time.
  abbrev pub launched_at : ℕ → Execution
  launched_at now = record {
    stdout_capture = nothing_captured;
    stderr_capture = nothing_captured;
    stdout_bytes = 0;
    stderr_bytes = 0;
    last_progress = now;
    forced = none;
    heartbeat_runs = true;
    phase_runs = true;
    listens = true;
    events = start_event ∷ [];
  }

  abbrev pub is_fitness : ExecutorContract → Bool
  is_fitness (fitness_contract profile tier config) = true
  is_fitness _ = false

  -- A status with its reason.
  abbrev pub Verdict : Type 0
  Verdict = TaskRunStatus × Option JsString

  -- `code === 0`
  abbrev pub is_zero : Option ℤ → Bool
  is_zero none = false
  is_zero (some (pos n)) = n == 0
  is_zero (some (negsuc n)) = false

  abbrev pub exit_verdict : Option ℤ → Verdict
  exit_verdict code =
      if is_zero code then (succeeded, none) else (failed, some (js "process_exit_nonzero"))

  abbrev pub first_verdict : Option Forced → Option ℤ → Verdict
  first_verdict none code = exit_verdict code
  first_verdict (some why) code = (why.status, some why.reason)

  -- What the world answers when the process is closed: its exit code, whether the fitness receipt
  -- could be written, and whether the execution context still holds.
  pub record Closing : Type 0 where
    pub code : Option ℤ
    pub fitness_written : Bool
    pub context_holds : Bool

  abbrev pub is_none {ℓ} : {A : Type ℓ} → List A → Bool
  is_none [] = true
  is_none (x ∷ xs) = false

  abbrev pub Captured : Type 0
  Captured = Result (List TaskReceiptEvidence × List JsString)

  -- The checks of the "close" callback, one after another.
  unfoldable pub final_verdict : Option Forced → Closing → Captured → Verdict
  final_verdict forced closing captured =
      let exited = first_verdict forced closing.code in
      let written =
        if is_fitness task.execution && not closing.fitness_written
        then (failed, some (js "fitness_evidence_write_failed"))
        else exited in
      let held =
        if closing.context_holds then written else (failed, some (js "bootstrap_state_changed")) in
      elim captured [
        | ok found ↦
            if is_success held.0 && not (is_none found.1)
            then (failed, some (js "task_evidence_invalid"))
            else held
        | throws error ↦ (failed, some (js "task_evidence_invalid"))
        | exhausted ↦ (failed, some (js "task_evidence_invalid"))
      ]

  abbrev pub declared_paths : EvidenceRules → List JsString
  declared_paths rules =
      map (λ (item : TaskEvidenceDeclaration). rules.posix_normalize item.path)
        (or_empty task.evidence)

  -- The evidence and the missing evidence of a receipt: as captured, or as declared.
  abbrev pub evidence_or : EvidenceRules → Captured → List TaskReceiptEvidence × List JsString
  evidence_or rules (ok found) = found
  evidence_or rules (throws error) = ([], declared_paths rules)
  evidence_or rules exhausted = ([], declared_paths rules)

  -- The receipt of an execution that fails before its process is started.
  abbrev pub early_receipt :
      JsString → JsString → List TaskReceiptEvidence × List JsString → TaskReceipt
  early_receipt reason message evidence = record {
    key = task.key;
    identity = task.identity;
    status = failed;
    exit_code = none;
    reason = some reason;
    stdout = [];
    stderr = message;
    output_truncated = false;
    execution_context_digest = setting.context_digest;
    scratch_id = setting.scratch_id;
    resources = task.resources;
    evidence = evidence.0;
    missing_evidence = evidence.1;
    events = start_event ∷ terminal_event failed (some reason) ∷ [];
    diagnostic = none;
  }

  -- The "close" callback.
  unfoldable pub close : EvidenceRules → Captured → Closing → Execution → TaskReceipt
  close rules captured closing run =
      let flushed = capture stderr [] true (capture stdout [] true run) in
      let verdict = final_verdict run.forced closing captured in
      let evidence = evidence_or rules captured in
      record {
        key = task.key;
        identity = task.identity;
        status = verdict.0;
        exit_code = elim run.forced [ none ↦ closing.code | some why ↦ none ];
        reason = verdict.1;
        stdout = flushed.stdout_capture.text;
        stderr = flushed.stderr_capture.text;
        output_truncated = flushed.stdout_capture.truncated || flushed.stderr_capture.truncated;
        execution_context_digest = setting.context_digest;
        scratch_id = setting.scratch_id;
        resources = task.resources;
        evidence = evidence.0;
        missing_evidence = evidence.1;
        events = flushed.events ++ terminal_event verdict.0 verdict.1 ∷ [];
        diagnostic = elim run.forced [ none ↦ none | some why ↦ why.diagnostic ];
      }
