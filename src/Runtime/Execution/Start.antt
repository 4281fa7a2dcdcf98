-- ===== src/Runtime/Execution/Start.antt =====
-- `executeTask` of packages/tc-sdlc/src/runtime/index.ts as a whole: what can fail before the process
-- is started, and otherwise its callbacks up to the receipt. Writing files, preparing the fitness
-- command and setting up the environment are answers of the world.
use tc_pipelines.Base.{
  ℕ, Bool, true, false, ◌&&◌, not, List, [], Option, none, some, JsString, js, if◌then◌else◌, ok,
  throws, exhausted,
}
use tc_pipelines.Schema.{
  GraphTask, ExecutorContract, command_contract, fitness_contract, executor_contract, or_empty,
}
use tc_pipelines.Runtime.{TaskReceiptEvidence}
use tc_pipelines.Runtime.Evidence.{EvidenceRoot, EvidenceRules, captured_task_evidence}
use tc_pipelines.Runtime.Scheduler.{Settled, fulfilled, rejected}
use tc_pipelines.Runtime.Execution.{
  Setting, Signal, deliver_all, launched_at, close, early_receipt, Captured, Closing, is_fitness,
  declared_paths, evidence_or,
}

-- `prepareFitnessExecution`: a prepared command, perhaps with a reason why it is not to be run.
pub data Preparation : Type 0 where
  prepared : (failure_reason : Option JsString) → Preparation
  preparation_failed : (message : JsString) → Preparation

-- `taskEnvironment`
pub data Environment : Type 0 where
  available : Environment
  forbidden_variable setup_failed : (message : JsString) → Environment

module _ (setting : Setting) (rules : EvidenceRules) (task : GraphTask) where
  -- What the world does during one execution.
  pub record Attempt : Type 0 where
    -- the message if the scratch directory cannot be made
    pub scratch_failure : Option JsString
    -- whether the execution context holds at the start
    pub entry_holds : Bool
    pub preparation : Preparation
    pub environment : Environment
    pub evidence_root : EvidenceRoot
    -- the message of an error that escapes from the capture of the evidence
    pub capture_message : JsString
    pub launched : ℕ
    pub signals : List Signal
    pub closing : Closing setting task

  abbrev pub captured_evidence : Attempt → Captured setting task
  captured_evidence attempt =
      captured_task_evidence rules attempt.evidence_root (or_empty task.evidence) setting.redactions

  abbrev pub uncaptured : List TaskReceiptEvidence × List JsString
  uncaptured = ([], declared_paths setting task rules)

  -- The evidence of a fitness task that fails early, if its receipt can be written.
  abbrev pub early_evidence : Attempt → List TaskReceiptEvidence × List JsString
  early_evidence attempt =
      if is_fitness setting task task.execution && attempt.closing.fitness_written
      then evidence_or setting task rules (captured_evidence attempt)
      else uncaptured

  abbrev pub is_captured : Captured setting task → Bool
  is_captured (ok found) = true
  is_captured (throws error) = false
  is_captured exhausted = false

  -- The reason, unless the fitness receipt cannot be written and captured.
  abbrev pub early_reason : Attempt → JsString → JsString
  early_reason attempt reason =
      if is_fitness setting task task.execution
        && not (attempt.closing.fitness_written && is_captured (captured_evidence attempt))
      then js "fitness_evidence_write_failed"
      else reason

  abbrev pub fails_early : Attempt → JsString → JsString → Settled
  fails_early attempt reason message =
      fulfilled
        (early_receipt setting task (early_reason attempt reason) message (early_evidence attempt))

  -- The process runs.
  unfoldable pub run_process : Attempt → Settled
  run_process attempt = fulfilled (
      close setting task rules (captured_evidence attempt) attempt.closing
        (deliver_all setting task attempt.signals (launched_at setting task attempt.launched)))

  -- A fitness command that is not to be run. An error of the capture is not caught here.
  unfoldable pub refuse_fitness : Attempt → JsString → Captured setting task → Settled
  refuse_fitness attempt failure_reason (ok found) =
      let reason =
        if attempt.closing.fitness_written
        then failure_reason
        else js "fitness_evidence_write_failed" in
      fulfilled (early_receipt setting task reason [] found)
  refuse_fitness attempt failure_reason (throws error) = rejected attempt.capture_message
  refuse_fitness attempt failure_reason exhausted = rejected attempt.capture_message

  -- `fitnessExecution?.failureReason`, and then the process
  unfoldable pub run_unless : Attempt → Option JsString → Settled
  run_unless attempt none = run_process attempt
  run_unless attempt (some failure_reason) =
      refuse_fitness attempt failure_reason (captured_evidence attempt)

  unfoldable pub after_environment : Attempt → Option JsString → Environment → Settled
  after_environment attempt failure_reason (forbidden_variable message) =
      fails_early attempt (js "task_environment_invalid") message
  after_environment attempt failure_reason (setup_failed message) =
      fails_early attempt (js "task_environment_setup_failed") message
  after_environment attempt failure_reason available = run_unless attempt failure_reason

  unfoldable pub prepare : Attempt → ExecutorContract → Preparation → Settled
  prepare attempt (executor_contract executor) preparation =
      fulfilled (early_receipt setting task (js "executor_not_available") [] uncaptured)
  prepare attempt (command_contract command) preparation =
      after_environment attempt none attempt.environment
  prepare attempt (fitness_contract profile tier config) (preparation_failed message) =
      fails_early attempt (js "task_environment_setup_failed") message
  prepare attempt (fitness_contract profile tier config) (prepared failure_reason) =
      after_environment attempt failure_reason attempt.environment

  unfoldable pub enter_context : Attempt → Bool → Settled
  enter_context attempt true = prepare attempt task.execution attempt.preparation
  enter_context attempt false =
      fulfilled
        (early_receipt setting task (js "bootstrap_state_changed") [] (early_evidence attempt))

  unfoldable pub execute_task : Attempt → Settled
  execute_task attempt = elim attempt.scratch_failure [
    | some message ↦ rejected message
    | none ↦ enter_context attempt attempt.entry_holds
  ]
