-- ===== src/Runtime/Execution/Events.antt =====
-- The events of an execution, and the limits of its captured output, at every callback.
use tc_pipelines.Base.{
  ℕ, ◌+◌, ◌-◌, ◌≡◌, inl, inr, refl, sym, ap, ◌∙◌, subst, arith, Bool, true, false, not, List, [],
  ◌∷◌, ◌++◌, Option, none, some, JsString, all, leb, if◌then◌else◌, Option-cases,
}
use tc_pipelines.Schema.{GraphTask}
use tc_pipelines.Runtime.{
  start, heartbeat, output, cancellation, terminal, OutputStream, stdout, stderr, RunEvent,
}
use tc_pipelines.Runtime.Receipts.{is_success}
use tc_pipelines.Runtime.Output.{OutputCapture, capture_output, retained_output}
use tc_pipelines.Runtime.Output.Bounds.{
  IsBounded, nothing_captured-IsBounded, capture_output-IsBounded,
}
use tc_pipelines.Runtime.Output.Stream.{append_nil, append_assoc}
use tc_pipelines.Runtime.Execution.{
  Forced, Execution, Setting, Signal, heartbeat_tick, phase_elapsed, abort_requested, data_arrived,
  child_error, plain_event, start_event, cancellation_event, output_event, emit, force, capture,
  captured_by, count_bytes, emit_retained, set_capture, deliver, deliver_all, launched_at,
  no_progress, over_budget, operator_abort,
}

-- Neither the first event of an execution nor its last.
abbrev pub is_middle : RunEvent → Bool
is_middle event = elim event.type [
  | start ↦ false
  | terminal ↦ false
  | heartbeat ↦ true
  | output ↦ true
  | cancellation ↦ true
]

abbrev of_stream : OutputStream → OutputStream → JsString → JsString
of_stream stdout stdout text = text
of_stream stdout stderr text = []
of_stream stderr stdout text = []
of_stream stderr stderr text = text

-- The text that an event adds to a stream.
abbrev text_of : OutputStream → RunEvent → JsString
text_of stream event = elim event.stream [
  | none ↦ []
  | some written ↦ elim event.text [ none ↦ [] | some text ↦ of_stream stream written text ]
]

-- The output that the events report.
abbrev pub replay : OutputStream → List RunEvent → JsString
replay stream [] = []
replay stream (event ∷ events) = text_of stream event ++ replay stream events

abbrev cancels_of : RunEvent → ℕ
cancels_of event = elim event.type [
  | cancellation ↦ 1
  | start ↦ 0
  | terminal ↦ 0
  | heartbeat ↦ 0
  | output ↦ 0
]

abbrev pub count_cancellations : List RunEvent → ℕ
count_cancellations [] = 0
count_cancellations (event ∷ events) = cancels_of event + count_cancellations events

replay-snoc :
    (stream : OutputStream) (events : List RunEvent) (event : RunEvent)
    → replay stream (events ++ event ∷ []) ≡ replay stream events ++ text_of stream event
replay-snoc stream [] event = append_nil (text_of stream event)
replay-snoc stream (first ∷ events) event =
    ap (λ t. text_of stream first ++ t) (replay-snoc stream events event)
    ∙ sym (append_assoc (text_of stream first) (replay stream events) (text_of stream event))

count-snoc :
    (events : List RunEvent) (event : RunEvent)
    → count_cancellations (events ++ event ∷ []) ≡ count_cancellations events + cancels_of event
count-snoc [] event = omega arith
count-snoc (first ∷ events) event = omega (arith, count-snoc events event)

all-snoc :
    (events : List RunEvent) (event : RunEvent)
    → all is_middle events ≡ true
    → is_middle event ≡ true
    → all is_middle (events ++ event ∷ []) ≡ true
all-snoc [] event h k = rw k refl
all-snoc (first ∷ events) event h k = ground (arith, all-snoc events event)

-- A start event, then events that report this output and this many cancellations.
pub record Log (first : RunEvent) (events : List RunEvent) (out err : JsString) (cancels : ℕ)
    : Type 0 where
  pub middle : List RunEvent
  pub shape : events ≡ first ∷ middle
  pub inner : all is_middle middle ≡ true
  pub out_replayed : replay stdout middle ≡ out
  pub err_replayed : replay stderr middle ≡ err
  pub cancelled_times : count_cancellations middle ≡ cancels

Log-emit :
    (first : RunEvent) (events : List RunEvent) (out err : JsString) (cancels : ℕ)
    (event : RunEvent)
    → is_middle event ≡ true
    → Log first events out err cancels
    → Log first
        (events ++ event ∷ [])
        (out ++ text_of stdout event)
        (err ++ text_of stderr event)
        (cancels + cancels_of event)
Log-emit first events out err cancels event h log = record {
  middle = log.middle ++ event ∷ [];
  shape = ap (λ es. es ++ event ∷ []) log.shape;
  inner = all-snoc log.middle event log.inner h;
  out_replayed =
      replay-snoc stdout log.middle event ∙ ap (λ t. t ++ text_of stdout event) log.out_replayed;
  err_replayed =
      replay-snoc stderr log.middle event ∙ ap (λ t. t ++ text_of stderr event) log.err_replayed;
  cancelled_times =
      count-snoc log.middle event ∙ ap (λ n. n + cancels_of event) log.cancelled_times;
}

-- An event that reports no output.
Log-silent :
    (first : RunEvent) (events : List RunEvent) (out err : JsString) (cancels : ℕ)
    (event : RunEvent)
    → is_middle event ≡ true
    → text_of stdout event ≡ []
    → text_of stderr event ≡ []
    → Log first events out err cancels
    → Log first (events ++ event ∷ []) out err (cancels + cancels_of event)
Log-silent first events out err cancels event h no_out no_err log =
    let next = Log-emit first events out err cancels event h log in
    record {
      middle = next.middle;
      shape = next.shape;
      inner = next.inner;
      out_replayed = next.out_replayed ∙ ap (λ t. out ++ t) no_out ∙ append_nil out;
      err_replayed = next.err_replayed ∙ ap (λ t. err ++ t) no_err ∙ append_nil err;
      cancelled_times = next.cancelled_times;
    }

relog :
    {first : RunEvent} {events : List RunEvent} {out err out' err' : JsString}
    {cancels cancels' : ℕ}
    → Log first events out err cancels
    → out ≡ out'
    → err ≡ err'
    → cancels ≡ cancels'
    → Log first events out' err' cancels'
relog log o e c = record {
  middle = log.middle;
  shape = log.shape;
  inner = log.inner;
  out_replayed = log.out_replayed ∙ o;
  err_replayed = log.err_replayed ∙ e;
  cancelled_times = log.cancelled_times ∙ c;
}

abbrev pub times_forced : Option Forced → ℕ
times_forced none = 0
times_forced (some why) = 1

pub force-forced :
    (setting : Setting) (task : GraphTask) (why earlier : Forced) (run : Execution)
    → run.forced ≡ some earlier
    → force setting task why run ≡ run
unfolding force
force-forced setting task why earlier run old = ground arith

module _ (setting : Setting) (task : GraphTask) where
  -- What holds between the callbacks.
  pub record IsConsistent (run : Execution) : Type 0 where
    pub log :
        Log
          (start_event setting task)
          run.events
          run.stdout_capture.text
          run.stderr_capture.text
          (times_forced run.forced)
    pub out_bounded : IsBounded setting.maximum_output run.stdout_capture
    pub err_bounded : IsBounded setting.maximum_output run.stderr_capture
    pub no_success : (why : Forced) → run.forced ≡ some why → is_success why.status ≡ false

  pub launched-IsConsistent : (now : ℕ) → IsConsistent (launched_at setting task now)
  launched-IsConsistent now = record {
    log = record {
      middle = [];
      shape = refl;
      inner = refl;
      out_replayed = refl;
      err_replayed = refl;
      cancelled_times = refl;
    };
    out_bounded = nothing_captured-IsBounded setting.maximum_output;
    err_bounded = nothing_captured-IsBounded setting.maximum_output;
    no_success = λ why h. absurd (cc);
  }

  force-IsConsistent :
      (why : Forced) (run : Execution)
      → is_success why.status ≡ false
      → IsConsistent run
      → IsConsistent (force setting task why run)
  unfolding force
  force-IsConsistent why run bad c = elim (Option-cases run.forced) [
    | inr (earlier, old) ↦
        subst IsConsistent (sym (force-forced setting task why earlier run old)) c
    | inl free ↦ rw free (record {
      log =
          Log-silent (start_event setting task) run.events run.stdout_capture.text
            run.stderr_capture.text 0 (cancellation_event setting task why.reason) refl refl refl
            (rw free at c.log);
      out_bounded = c.out_bounded;
      err_bounded = c.err_bounded;
      no_success = λ other h. let same : why ≡ other = cc in rw (sym same) bad;
    })
  ]

  retained-IsConsistent :
      (stream : OutputStream) (retained : JsString) (after : OutputCapture) (run : Execution)
      → (captured_by setting task stream run).text ++ retained ≡ after.text
      → IsBounded setting.maximum_output after
      → IsConsistent run
      → IsConsistent
          (emit_retained setting task stream retained (set_capture setting task stream after run))
  retained-IsConsistent stdout [] after run e b c = record {
    log = relog c.log (sym (append_nil run.stdout_capture.text) ∙ e) refl refl;
    out_bounded = b;
    err_bounded = c.err_bounded;
    no_success = c.no_success;
  }
  retained-IsConsistent stderr [] after run e b c = record {
    log = relog c.log refl (sym (append_nil run.stderr_capture.text) ∙ e) refl;
    out_bounded = c.out_bounded;
    err_bounded = b;
    no_success = c.no_success;
  }
  retained-IsConsistent stdout (x ∷ retained) after run e b c = record {
    log =
        relog
          (Log-emit (start_event setting task) run.events run.stdout_capture.text
            run.stderr_capture.text (times_forced run.forced)
            (output_event setting task stdout (x ∷ retained)) refl c.log)
          e (append_nil run.stderr_capture.text) (omega arith);
    out_bounded = b;
    err_bounded = c.err_bounded;
    no_success = c.no_success;
  }
  retained-IsConsistent stderr (x ∷ retained) after run e b c = record {
    log =
        relog
          (Log-emit (start_event setting task) run.events run.stdout_capture.text
            run.stderr_capture.text (times_forced run.forced)
            (output_event setting task stderr (x ∷ retained)) refl c.log)
          (append_nil run.stdout_capture.text) e (omega arith);
    out_bounded = c.out_bounded;
    err_bounded = b;
    no_success = c.no_success;
  }

  captured_text :
      (text : JsString) (flush : Bool) (before : OutputCapture)
      → before.text ++ retained_output setting.maximum_output setting.redactions text flush before
        ≡ (capture_output setting.maximum_output setting.redactions text flush before).text
  unfolding capture_output
  captured_text text flush before = refl

  pub capture-IsConsistent :
      (stream : OutputStream) (text : JsString) (flush : Bool) (run : Execution)
      → IsConsistent run
      → IsConsistent (capture setting task stream text flush run)
  unfolding capture
  capture-IsConsistent stream text flush run c =
      let before = captured_by setting task stream run in
      retained-IsConsistent stream
        (retained_output setting.maximum_output setting.redactions text flush before)
        (capture_output setting.maximum_output setting.redactions text flush before) run
        (captured_text text flush before)
        (capture_output-IsBounded setting.maximum_output setting.redactions text flush before
          (bounded stream))
        c
    where
      bounded :
          (s : OutputStream) → IsBounded setting.maximum_output (captured_by setting task s run)
      bounded stdout = c.out_bounded
      bounded stderr = c.err_bounded

  -- The fields that the events do not depend on.
  silent_fields :
      (run next : Execution)
      → next.events ≡ run.events
      → next.stdout_capture ≡ run.stdout_capture
      → next.stderr_capture ≡ run.stderr_capture
      → next.forced ≡ run.forced
      → IsConsistent run
      → IsConsistent next
  silent_fields run next e o r f c = record {
    log =
        subst
          (λ es.
            Log (start_event setting task) es next.stdout_capture.text next.stderr_capture.text
              (times_forced next.forced))
          (sym e)
          (relog c.log (ap (λ (k : OutputCapture). k.text) (sym o))
            (ap (λ (k : OutputCapture). k.text) (sym r)) (ap times_forced (sym f)));
    out_bounded = subst (IsBounded setting.maximum_output) (sym o) c.out_bounded;
    err_bounded = subst (IsBounded setting.maximum_output) (sym r) c.err_bounded;
    no_success = λ why h. c.no_success why (sym f ∙ h);
  }

  heartbeat-IsConsistent :
      (run : Execution)
      → IsConsistent run
      → IsConsistent (emit setting task (plain_event setting task heartbeat) run)
  heartbeat-IsConsistent run c = record {
    log =
        relog
          (Log-silent (start_event setting task) run.events run.stdout_capture.text
            run.stderr_capture.text (times_forced run.forced) (plain_event setting task heartbeat)
            refl refl refl c.log)
          refl refl (omega arith);
    out_bounded = c.out_bounded;
    err_bounded = c.err_bounded;
    no_success = c.no_success;
  }

  counted-IsConsistent :
      (stream : OutputStream) (n now : ℕ) (run : Execution)
      → IsConsistent run
      → IsConsistent (count_bytes setting task stream n (record run { last_progress = now }))
  counted-IsConsistent stdout n now run c = silent_fields run _ refl refl refl refl c
  counted-IsConsistent stderr n now run c = silent_fields run _ refl refl refl refl c

  when :
      {x y : Execution} (b : Bool)
      → IsConsistent x
      → IsConsistent y
      → IsConsistent (if b then x else y)
  when true p q = p
  when false p q = q

  deliver-IsConsistent :
      (signal : Signal) (run : Execution)
      → IsConsistent run
      → IsConsistent (deliver setting task signal run)
  unfolding deliver
  deliver-IsConsistent (heartbeat_tick now found) run c =
      let ticked = emit setting task (plain_event setting task heartbeat) run in
      let beat = heartbeat-IsConsistent run c in
      when (not run.heartbeat_runs) c (
        when (leb task.budget.no_progress_ms (now - run.last_progress))
          (force-IsConsistent (no_progress setting task found ticked) ticked refl beat) beat)
  deliver-IsConsistent phase_elapsed run c =
      when run.phase_runs
        (force-IsConsistent (over_budget setting task) (record run { phase_runs = false }) refl
          (silent_fields run _ refl refl refl refl c))
        c
  deliver-IsConsistent abort_requested run c =
      when run.listens
        (elim run.forced
            as (λ o.
              run.forced ≡ o
              → IsConsistent (elim o [
                | none ↦
                    force setting task (operator_abort setting task)
                      (record run { listens = false; phase_runs = false })
                | some earlier ↦ record run { listens = false }
              ])) [
                | none ↦ λ e.
                    force-IsConsistent (operator_abort setting task)
                      (record run { listens = false; phase_runs = false }) refl
                      (silent_fields run _ refl refl refl refl c)
                | some earlier ↦ λ e. silent_fields run _ refl refl refl refl c
              ]
          refl)
        c
  deliver-IsConsistent (data_arrived stream text length now) run c =
      capture-IsConsistent stream text false
        (count_bytes setting task stream length (record run { last_progress = now }))
        (counted-IsConsistent stream length now run c)
  deliver-IsConsistent (child_error message) run c = capture-IsConsistent stderr message false run c

  pub deliver_all-IsConsistent :
      (signals : List Signal) (run : Execution)
      → IsConsistent run
      → IsConsistent (deliver_all setting task signals run)
  unfolding deliver_all
  deliver_all-IsConsistent [] run c = c
  deliver_all-IsConsistent (signal ∷ signals) run c =
      deliver_all-IsConsistent signals (deliver setting task signal run)
        (deliver-IsConsistent signal run c)
