-- ===== src/Runtime/Execution/Outcome.antt =====
-- The receipt of `executeTask`: its events, its captured output, and when it is a success.
use tc_pipelines.Base.{
  ◌≤◌, ◌≡◌, inl, inr, refl, sym, ap, ◌∙◌, subst, arith, Bool, true, false, ◌&&◌, not, List, [], ◌∷◌,
  ◌++◌, Option, none, some, JsString, js, all, nat_eq, ◌==◌, eq_iff, if◌then◌else◌, Option-cases,
  ok, throws, exhausted,
}
use tc_pipelines.Schema.{
  GraphTask, ExecutorContract, command_contract, fitness_contract, executor_contract,
}
use tc_pipelines.Runtime.{
  succeeded, failed, stdout, stderr, RunEvent, TaskReceiptEvidence, TaskReceipt, ℤ, pos, negsuc,
}
use tc_pipelines.Runtime.Receipts.{is_success}
use tc_pipelines.Runtime.Scheduler.{Settled, fulfilled, rejected}
use tc_pipelines.Runtime.Output.{byte_length}
use tc_pipelines.Runtime.Evidence.{EvidenceRules}
use tc_pipelines.Runtime.Execution.{
  Forced, Execution, Setting, start_event, terminal_event, capture, deliver_all, launched_at, close,
  early_receipt, final_verdict, first_verdict, exit_verdict, Closing, Captured, is_fitness, is_none,
  evidence_or, Verdict,
}
use tc_pipelines.Runtime.Execution.Start.{
  Attempt, Preparation, prepared, preparation_failed, Environment, available, forbidden_variable,
  setup_failed, captured_evidence, execute_task, prepare, after_environment, refuse_fitness,
  run_process, run_unless, enter_context,
}
use tc_pipelines.Runtime.Execution.Events.{
  is_middle, replay, count_cancellations, launched-IsConsistent, deliver_all-IsConsistent,
  capture-IsConsistent, times_forced,
}

module _ (setting : Setting) (rules : EvidenceRules) (task : GraphTask) where
  -- The last state before the process is closed.
  abbrev last_state : Attempt setting rules task → Execution
  last_state attempt =
      deliver_all setting task attempt.signals (launched_at setting task attempt.launched)

  abbrev closed_receipt : Attempt setting rules task → TaskReceipt
  closed_receipt attempt =
      close setting task rules (captured_evidence setting rules task attempt) attempt.closing
        (last_state attempt)

  -- A settled execution has failed early or was closed.
  data Source (attempt : Attempt setting rules task) : Settled → Type 0 where
    early :
        (reason message : JsString) (evidence : List TaskReceiptEvidence × List JsString)
        → Source attempt (fulfilled (early_receipt setting task reason message evidence))
    closed : attempt.entry_holds ≡ true → Source attempt (fulfilled (closed_receipt attempt))
    thrown : (message : JsString) → Source attempt (rejected message)

  refuse_fitness-Source :
      (attempt : Attempt setting rules task) (reason : JsString) (c : Captured setting task)
      → Source attempt (refuse_fitness setting rules task attempt reason c)
  unfolding refuse_fitness
  refuse_fitness-Source attempt reason (ok found) = early _ _ _
  refuse_fitness-Source attempt reason (throws error) = thrown _
  refuse_fitness-Source attempt reason exhausted = thrown _

  after_environment-Source :
      (attempt : Attempt setting rules task) (reason : Option JsString) (environment : Environment)
      → attempt.entry_holds ≡ true
      → Source attempt (after_environment setting rules task attempt reason environment)
  unfolding after_environment run_unless run_process
  after_environment-Source attempt reason (forbidden_variable message) holds = early _ _ _
  after_environment-Source attempt reason (setup_failed message) holds = early _ _ _
  after_environment-Source attempt none available holds = closed holds
  after_environment-Source attempt (some reason) available holds =
      refuse_fitness-Source attempt reason (captured_evidence setting rules task attempt)

  prepare-Source :
      (attempt : Attempt setting rules task) (execution : ExecutorContract)
      (preparation : Preparation)
      → attempt.entry_holds ≡ true
      → Source attempt (prepare setting rules task attempt execution preparation)
  unfolding prepare
  prepare-Source attempt (executor_contract executor) preparation holds = early _ _ _
  prepare-Source attempt (command_contract command) preparation holds =
      after_environment-Source attempt none attempt.environment holds
  prepare-Source attempt (fitness_contract profile tier config) (preparation_failed message) holds =
      early _ _ _
  prepare-Source attempt (fitness_contract profile tier config) (prepared reason) holds =
      after_environment-Source attempt reason attempt.environment holds

  enter_context-Source :
      (attempt : Attempt setting rules task) (b : Bool)
      → attempt.entry_holds ≡ b
      → Source attempt (enter_context setting rules task attempt b)
  unfolding enter_context
  enter_context-Source attempt true holds =
      prepare-Source attempt task.execution attempt.preparation holds
  enter_context-Source attempt false lost = early _ _ _

  execute_task-Source :
      (attempt : Attempt setting rules task)
      → Source attempt (execute_task setting rules task attempt)
  unfolding execute_task
  execute_task-Source attempt = elim (Option-cases attempt.scratch_failure) [
    | inl made ↦
        let same : execute_task setting rules task attempt
            ≡ enter_context setting rules task attempt attempt.entry_holds =
          ground arith in
        subst (Source attempt) (sym same) (enter_context-Source attempt attempt.entry_holds refl)
    | inr (message, lost) ↦
        let same : execute_task setting rules task attempt ≡ rejected message = ground arith in
        subst (Source attempt) (sym same) (thrown message)
  ]

  -- What the streams of a receipt are: its events report both and both are within the limit, or nothing
  -- was started and the standard error is a message of this program.
  pub data StreamsAre (middle : List RunEvent) (receipt : TaskReceipt) : Type 0 where
    reported :
        replay stdout middle ≡ receipt.stdout
        → replay stderr middle ≡ receipt.stderr
        → byte_length receipt.stdout ≤ setting.maximum_output
        → byte_length receipt.stderr ≤ setting.maximum_output
        → StreamsAre middle receipt
    not_started :
        middle ≡ []
        → receipt.stdout ≡ []
        → receipt.exit_code ≡ none
        → receipt.status ≡ failed
        → StreamsAre middle receipt

  -- The events of a receipt: a start, then others, then one terminal event with the verdict.
  pub record IsReported (receipt : TaskReceipt) : Type 0 where
    pub middle : List RunEvent
    pub shape :
        receipt.events
        ≡ start_event setting task ∷ middle
          ++ terminal_event setting task receipt.status receipt.reason ∷ []
    pub inner : all is_middle middle ≡ true
    pub cancelled_once : count_cancellations middle ≤ 1
    pub streams : StreamsAre middle receipt

  closed-IsReported : (attempt : Attempt setting rules task) → IsReported (closed_receipt attempt)
  unfolding close
  closed-IsReported attempt =
      let run = last_state attempt in
      let c =
        deliver_all-IsConsistent setting task attempt.signals
          (launched_at setting task attempt.launched)
          (launched-IsConsistent setting task attempt.launched) in
      let flushed =
        capture-IsConsistent setting task stderr [] true (capture setting task stdout [] true run)
          (capture-IsConsistent setting task stdout [] true run c) in
      record {
        middle = flushed.log.middle;
        shape =
            ap
              (λ es.
                es
                ++ terminal_event setting task (closed_receipt attempt).status
                    (closed_receipt attempt).reason
                  ∷ [])
              flushed.log.shape;
        inner = flushed.log.inner;
        cancelled_once = omega (arith, flushed.log.cancelled_times, times_forced_le _);
        streams =
            reported flushed.log.out_replayed flushed.log.err_replayed
              (omega (arith, flushed.out_bounded.text_counted, flushed.out_bounded.within))
              (omega (arith, flushed.err_bounded.text_counted, flushed.err_bounded.within));
      }
    where
      times_forced_le : (o : Option Forced) → times_forced o ≤ 1
      times_forced_le none = omega arith
      times_forced_le (some why) = omega arith

  early-IsReported :
      (reason message : JsString) (evidence : List TaskReceiptEvidence × List JsString)
      → IsReported (early_receipt setting task reason message evidence)
  unfolding byte_length
  early-IsReported reason message evidence = record {
    middle = [];
    shape = refl;
    inner = refl;
    cancelled_once = omega arith;
    streams = not_started refl refl refl refl;
  }

  -- The receipt of an execution has a start event, other events with at most one cancellation, and one
  -- terminal event with its status and reason at the end. Either the output events of each stream
  -- together are that stream's text in the receipt and both texts are within the limit, or there are no
  -- other events and the receipt is a failure without an exit code and without standard output.
  pub execute_task-IsReported :
      (attempt : Attempt setting rules task) (receipt : TaskReceipt)
      → execute_task setting rules task attempt ≡ fulfilled receipt
      → IsReported receipt
  execute_task-IsReported attempt receipt h = from (execute_task-Source attempt) h
    where
      from : {s : Settled} → Source attempt s → s ≡ fulfilled receipt → IsReported receipt
      from (early reason message evidence) e =
          let same : early_receipt setting task reason message evidence ≡ receipt = cc in
          subst IsReported same (early-IsReported reason message evidence)
      from (closed holds) e =
          let same : closed_receipt attempt ≡ receipt = cc in
          subst IsReported same (closed-IsReported attempt)
      from (thrown message) e = absurd (cc)

  -- A verdict of a test that a failure replaces.
  unless-success :
      (b : Bool) (reason : JsString) (otherwise : Verdict setting task)
      → is_success (if b then (failed, some reason) else otherwise).0 ≡ true
      → (b ≡ false) × (is_success otherwise.0 ≡ true)
  unless-success true reason otherwise h = absurd (cc)
  unless-success false reason otherwise h = (refl, h)

  if-success :
      (b : Bool) (reason : JsString) (otherwise : Verdict setting task)
      → is_success (if b then otherwise else (failed, some reason)).0 ≡ true
      → (b ≡ true) × (is_success otherwise.0 ≡ true)
  if-success true reason otherwise h = (refl, h)
  if-success false reason otherwise h = absurd (cc)

  exit_verdict-success :
      (code : Option ℤ) → is_success (exit_verdict setting task code).0 ≡ true → code ≡ some (pos 0)
  exit_verdict-success none h = absurd (cc)
  exit_verdict-success (some (negsuc n)) h = absurd (cc)
  exit_verdict-success (some (pos n)) h =
      ap (λ m. some (pos m))
        ((eq_iff n 0).0 (if-success (n == 0) (js "process_exit_nonzero") (succeeded, none) h).0)

  -- What a successful verdict needs.
  pub record IsEarned (forced : Option Forced) (closing : Closing setting task)
      (captured : Captured setting task) : Type 0 where
    pub not_forced : forced ≡ none
    pub exited : closing.code ≡ some (pos 0)
    pub context_held : closing.context_holds ≡ true
    pub all_found : (evidence : List TaskReceiptEvidence) × (captured ≡ ok (evidence, []))

  first_verdict-success :
      (forced : Option Forced) (code : Option ℤ)
      → ((why : Forced) → forced ≡ some why → is_success why.status ≡ false)
      → is_success (first_verdict setting task forced code).0 ≡ true
      → (forced ≡ none) × (code ≡ some (pos 0))
  first_verdict-success none code bad h = (refl, exit_verdict-success code h)
  first_verdict-success (some why) code bad h = absurd (let no = bad why refl in cc)

  none_missing : (missing : List JsString) → is_none setting task missing ≡ true → missing ≡ []
  none_missing [] h = refl
  none_missing (path ∷ missing) h = absurd (cc)

  final_verdict-IsEarned :
      (forced : Option Forced) (closing : Closing setting task) (captured : Captured setting task)
      → ((why : Forced) → forced ≡ some why → is_success why.status ≡ false)
      → is_success (final_verdict setting task forced closing captured).0 ≡ true
      → IsEarned forced closing captured
  unfolding final_verdict
  final_verdict-IsEarned forced closing (throws error) bad h = absurd (cc)
  final_verdict-IsEarned forced closing exhausted bad h = absurd (cc)
  final_verdict-IsEarned forced closing (ok (evidence, missing)) bad h =
      let exited = first_verdict setting task forced closing.code in
      let unwritten = is_fitness setting task task.execution && not closing.fitness_written in
      let written : Verdict setting task =
        if unwritten then (failed, some (js "fitness_evidence_write_failed")) else exited in
      let held : Verdict setting task =
        if closing.context_holds then written else (failed, some (js "bootstrap_state_changed")) in
      let (complete, h1) =
        unless-success (is_success held.0 && not (is_none setting task missing))
          (js "task_evidence_invalid") held h in
      let (holds, h2) =
        if-success closing.context_holds (js "bootstrap_state_changed") written h1 in
      let (_, h3) = unless-success unwritten (js "fitness_evidence_write_failed") exited h2 in
      let (free, zero_code) = first_verdict-success forced closing.code bad h3 in
      let nothing : is_none setting task missing ≡ true =
        second_false (is_success held.0) (is_none setting task missing) h1 complete in
      record {
        not_forced = free;
        exited = zero_code;
        context_held = holds;
        all_found = (evidence, ap (λ m. ok (evidence, m)) (none_missing missing nothing));
      }
    where
      second_false : (a b : Bool) → a ≡ true → (a && not b) ≡ false → b ≡ true
      second_false true true h k = refl
      second_false true false h k = absurd (cc)
      second_false false b h k = absurd (cc)

  -- What a receipt of a success needs.
  pub record IsDeserved (attempt : Attempt setting rules task) (receipt : TaskReceipt)
      : Type 0 where
    pub entered : attempt.entry_holds ≡ true
    pub earned :
        IsEarned
          (last_state attempt).forced
          attempt.closing
          (captured_evidence setting rules task attempt)
    pub exit_code_zero : receipt.exit_code ≡ some (pos 0)
    pub none_missing : receipt.missing_evidence ≡ []

  closed-IsDeserved :
      (attempt : Attempt setting rules task)
      → attempt.entry_holds ≡ true
      → is_success (closed_receipt attempt).status ≡ true
      → IsDeserved attempt (closed_receipt attempt)
  unfolding close
  closed-IsDeserved attempt holds good =
      let c =
        deliver_all-IsConsistent setting task attempt.signals
          (launched_at setting task attempt.launched)
          (launched-IsConsistent setting task attempt.launched) in
      let earned =
        final_verdict-IsEarned (last_state attempt).forced attempt.closing
          (captured_evidence setting rules task attempt) c.no_success good in
      record {
        entered = holds;
        earned = earned;
        exit_code_zero =
            ap
              (λ (o : Option Forced). elim o as (λ x. Option ℤ) [
                | none ↦ attempt.closing.code
                | some why ↦ none
              ])
              earned.not_forced
            ∙ earned.exited;
        none_missing =
            ap (λ (k : Captured setting task). (evidence_or setting task rules k).1)
              earned.all_found.1;
      }

  -- An execution is a success only if the context held at the start and at the end, nothing forced
  -- its end, the process exited with 0 and all the declared evidence was captured.
  pub execute_task-succeeded :
      (attempt : Attempt setting rules task) (receipt : TaskReceipt)
      → execute_task setting rules task attempt ≡ fulfilled receipt
      → receipt.status ≡ succeeded
      → IsDeserved attempt receipt
  execute_task-succeeded attempt receipt h good = from (execute_task-Source attempt) h
    where
      from : {s : Settled} → Source attempt s → s ≡ fulfilled receipt → IsDeserved attempt receipt
      from (early reason message evidence) e =
          let same : early_receipt setting task reason message evidence ≡ receipt = cc in
          let status : failed ≡ succeeded = ap (λ (r : TaskReceipt). r.status) same ∙ good in
          absurd (let apart : false ≡ true = ap is_success status in cc)
      from (closed holds) e =
          let same : closed_receipt attempt ≡ receipt = cc in
          subst (IsDeserved attempt) same (
            closed-IsDeserved attempt holds
              (ap (λ (r : TaskReceipt). is_success r.status) same ∙ ap is_success good))
      from (thrown message) e = absurd (cc)
