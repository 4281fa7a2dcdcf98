-- ===== src/Runtime.antt =====
-- packages/tc-sdlc/src/runtime/index.ts and the receipts of packages/tc-sdlc/src/evidence/index.ts.
pub mod Receipts
pub mod Scheduler
pub mod Output
pub mod Evidence
pub mod Execution
pub mod Runs
use tc_pipelines.Base.{ℕ, Bool, List, Option, JsString}
use tc_pipelines.Schema.{TaskResources}

-- `TaskRunStatus`. A run as a whole has one of the first four, its `RunStatus`.
pub data TaskRunStatus : Type 0 where
  succeeded failed stalled cancelled skipped : TaskRunStatus

pub data EventType : Type 0 where
  start heartbeat output cancellation terminal : EventType

pub data OutputStream : Type 0 where
  stdout stderr : OutputStream

pub record RunEvent : Type 0 where
  pub task_key : JsString
  pub task_identity : JsString
  pub type : EventType
  pub stream : Option OutputStream
  pub text : Option JsString
  pub status : Option TaskRunStatus
  pub reason : Option JsString

pub record TaskReceiptEvidence : Type 0 where
  pub path : JsString
  pub source_digest : JsString
  pub content_digest : JsString
  pub media_type : JsString
  pub content : JsString

-- The share of a processor is counted in a fixed unit.
pub record ProcessSample : Type 0 where
  pub pid : ℕ
  pub parent_pid : ℕ
  pub state : JsString
  pub elapsed : JsString
  pub cpu_percent : ℕ
  pub resident_memory_kib : ℕ

-- `pid` is `none` for the -1 of a process that has no identifier.
pub record ProcessDiagnostic : Type 0 where
  pub pid : Option ℕ
  pub running : Bool
  pub cpu : ℕ
  pub memory_mib : ℕ
  pub ports : List ℕ
  pub exclusive : List JsString
  pub stdout_bytes : ℕ
  pub stderr_bytes : ℕ
  pub processes : List ProcessSample

-- Exit codes: the close event of a process that was not started has a negative one.
pub data ℤ : Type 0 where
  pos : ℕ → ℤ
  negsuc : ℕ → ℤ

pub record TaskReceipt : Type 0 where
  pub key : JsString
  pub identity : JsString
  pub status : TaskRunStatus
  pub exit_code : Option ℤ
  pub reason : Option JsString
  pub stdout : JsString
  pub stderr : JsString
  pub output_truncated : Bool
  pub execution_context_digest : JsString
  pub scratch_id : JsString
  pub resources : TaskResources
  pub evidence : List TaskReceiptEvidence
  pub missing_evidence : List JsString
  pub events : List RunEvent
  pub diagnostic : Option ProcessDiagnostic

pub data ScratchCleanup : Type 0 where
  removed retained : ScratchCleanup

pub record HostCapacity : Type 0 where
  pub cpu : ℕ
  pub memory_mib : ℕ
