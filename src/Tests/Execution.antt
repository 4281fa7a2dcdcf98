-- ===== src/Tests/Execution.antt =====
-- Executions of a task, with the capture of their output and evidence.
use tc_pipelines.Base.{
  ◌≤◌, ◌≡◌, refl, true, false, List, [], ◌∷◌, map, JsString, js, none, some, ok, insert, list_beq,
  set_of, delete, insert_sorted, sort_by, sorted, starts_with,
}
use tc_pipelines.Schema.{GraphTask, TaskEvidenceDeclaration, text_plain}
use tc_pipelines.Runtime.{TaskReceipt, TaskReceiptEvidence, stdout, succeeded, pos}
use tc_pipelines.Runtime.Scheduler.{fulfilled}
use tc_pipelines.Runtime.Output.{
  byte_length, shrink, utf8_prefix, json_escape, replace_from, redaction_variants, redacted,
  retreat, safe_boundary, retained_output, capture_output, nothing_captured,
}
use tc_pipelines.Runtime.Output.Stream.{
  concat, capture_chunks, capture_stream, capture_stream-conserved, capture_stream_plain,
}
use tc_pipelines.Runtime.Evidence.{
  EvidenceFile, EvidenceRules, real_directory, entry, no_entries, regular, declare, visit_entry,
  retain_text, retain, collect_evidence, captured_task_evidence,
}
use tc_pipelines.Runtime.Evidence.Partition.{
  IsCapture, entries_of, captured_task_evidence-IsCapture,
}
use tc_pipelines.Runtime.Execution.{
  Setting, heartbeat_tick, data_arrived, force, capture, deliver, deliver_all, final_verdict, close,
  launched_at,
}
use tc_pipelines.Runtime.Execution.Start.{
  Attempt, prepared, available, run_process, refuse_fitness, run_unless, after_environment, prepare,
  enter_context, execute_task,
}
use tc_pipelines.Runtime.Execution.Outcome.{
  IsReported, IsDeserved, execute_task-IsReported, execute_task-succeeded,
}
use tc_pipelines.Tests.Samples.{task}

output : Unit {0}
unfolding list_beq set_of delete insert_sorted sort_by sorted insert starts_with byte_length shrink
    utf8_prefix json_escape replace_from redaction_variants redacted retreat safe_boundary
    retained_output capture_output capture_chunks capture_stream
output = tt

execution : Unit {0}
unfolding output declare visit_entry retain_text retain collect_evidence captured_task_evidence
    force capture deliver deliver_all final_verdict close run_process refuse_fitness run_unless
    after_environment prepare enter_context execute_task
execution = tt

abbrev secret : List JsString
secret = js "pass" ∷ []

abbrev chunks : List JsString
chunks = js "my pa" ∷ js "ss and" ∷ js " more" ∷ []

-- A secret that two chunks share is redacted.
redacts_across : (capture_stream 64 secret chunks).text ≡ js "my [REDACTED] and more"
unfolding output
redacts_across = refl

capture_stream-conserved_example :
    (byte_length (capture_stream 64 secret chunks).text ≤ 64)
    × (pieces : List JsString) × (concat pieces ≡ concat chunks)
    × ((capture_stream 64 secret chunks).truncated ≡ false
        → (capture_stream 64 secret chunks).text
          ≡ concat (map (λ piece. redacted piece secret) pieces))
capture_stream-conserved_example = capture_stream-conserved 64 secret chunks

kept_all : (capture_stream 64 [] chunks).truncated ≡ false
unfolding output
kept_all = refl

capture_stream_plain_example : (capture_stream 64 [] chunks).text ≡ concat chunks
capture_stream_plain_example = capture_stream_plain 64 chunks kept_all

-- Two secrets that overlap: the first one's start is written out.
leak :
    (capture_output 64 (js "abcdef" ∷ js "fgh" ∷ []) (js "abcdefghXYZ") false nothing_captured).text
    ≡ js "abcde"
unfolding output
leak = refl

-- Once output is dropped, later output that fits is still appended.
hole : (capture_stream 3 [] (js "ab" ∷ (0x20ac ∷ []) ∷ js "c" ∷ [])).text ≡ js "abc"
unfolding output
hole = refl

abbrev report : TaskEvidenceDeclaration
report = record { path = js "report.txt"; media_type = text_plain }

abbrev audited : GraphTask
audited =
    let base = task (js "audit") 1 [] in
    record base { shape = record base.shape { evidence = some (report ∷ []) } }

abbrev rules : EvidenceRules
rules = record {
  posix_normalize = λ path. path;
  parses_as_json = λ text. true;
  text_digest = λ text. text;
}

abbrev setting : Setting
setting = record {
  maximum_output = 64;
  redactions = secret;
  context_digest = [];
  scratch_id = js "run";
}

abbrev written : EvidenceFile
written = record { size = 2; bytes_read = 2; decoded = some (js "ok"); bytes_digest = js "digest" }

abbrev good_attempt : Attempt setting rules audited
good_attempt = record {
  scratch_failure = none;
  entry_holds = true;
  preparation = prepared none;
  environment = available;
  evidence_root = real_directory (entry (js "report.txt") (regular written) no_entries);
  capture_message = [];
  launched = 0;
  signals =
      data_arrived stdout (js "hello pa") 8 1
      ∷ heartbeat_tick 2 (record { pid = some 7; running = true; processes = [] })
      ∷ data_arrived stdout (js "ss") 2 3
      ∷ [];
  closing = record { code = some (pos 0); fitness_written = true; context_holds = true };
}

abbrev found : List TaskReceiptEvidence
found =
    record {
      path = js "report.txt";
      source_digest = js "digest";
      content_digest = js "ok";
      media_type = js "text/plain";
      content = js "ok";
    }
    ∷ []

captured :
    captured_task_evidence rules good_attempt.evidence_root (report ∷ []) secret ≡ ok (found, [])
unfolding execution
captured = refl

captured_task_evidence-IsCapture_example :
    IsCapture rules secret
      (entries_of good_attempt.evidence_root)
      (declare rules (report ∷ []) [])
      found
      []
captured_task_evidence-IsCapture_example =
    captured_task_evidence-IsCapture rules good_attempt.evidence_root (report ∷ []) secret found []
      captured

abbrev receipt : TaskReceipt
receipt =
    close setting audited rules (ok (found, [])) good_attempt.closing
      (deliver_all setting audited good_attempt.signals (launched_at setting audited 0))

ran : execute_task setting rules audited good_attempt ≡ fulfilled receipt
unfolding execution
ran = refl

receipt_succeeded : receipt.status ≡ succeeded
unfolding execution
receipt_succeeded = refl

receipt_output : receipt.stdout ≡ js "hello [REDACTED]"
unfolding execution
receipt_output = refl

execute_task-IsReported_example : IsReported setting rules audited receipt
execute_task-IsReported_example =
    execute_task-IsReported setting rules audited good_attempt receipt ran

execute_task-succeeded_example : IsDeserved setting rules audited good_attempt receipt
execute_task-succeeded_example =
    execute_task-succeeded setting rules audited good_attempt receipt ran receipt_succeeded
