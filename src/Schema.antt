-- ===== src/Schema.antt =====
-- packages/tc-sdlc/src/schema/types.ts: declarations, tasks and the graph. An optional field is an
-- `Option`. A processor share is a whole number of a fixed unit, since there are no floats.
use tc_pipelines.Base.{ℕ, List, [], Option, none, some, JsString}

pub data TaskMode : Type 0 where
  prepare evaluate : TaskMode

pub data TrustBoundary : Type 0 where
  portable hosted live deployment : TrustBoundary

pub data TargetScope : Type 0 where
  project repository : TargetScope

pub data MediaType : Type 0 where
  application_json text_plain : MediaType

pub data PathCaseSensitivity : Type 0 where
  sensitive insensitive : PathCaseSensitivity

pub record TaskResources : Type 0 where
  pub cpu : ℕ
  pub memory_mib : ℕ
  pub ports : List ℕ
  pub exclusive : List JsString

pub record TaskBudget : Type 0 where
  pub phase_ms : ℕ
  pub no_progress_ms : ℕ
  pub heartbeat_ms : ℕ

pub record TaskEvidenceDeclaration : Type 0 where
  pub path : JsString
  pub media_type : MediaType

pub record ProjectDeclaration : Type 0 where
  pub name : JsString
  pub root : JsString
  pub depends_on : Option (List JsString)

pub record TargetDeclaration : Type 0 where
  pub mode : TaskMode
  pub trust_boundary : TrustBoundary
  pub scope : Option TargetScope
  pub command : Option JsString
  pub executor : Option JsString
  pub profile : Option JsString
  pub depends_on : Option (List JsString)
  pub inputs : Option (List JsString)
  pub shared_inputs : Option (List JsString)
  pub outputs : Option (List JsString)
  pub evidence : Option (List TaskEvidenceDeclaration)
  pub resources : Option TaskResources
  pub budget : Option TaskBudget

pub record SdlcFitness : Type 0 where
  pub package_name : JsString
  pub config : JsString
  pub profiles : List (JsString × JsString)
  -- What `profiles[name]` finds for a name that is not an own property, such as `constructor`.
  pub inherited : JsString → Option JsString

pub record SdlcDeclaration : Type 0 where
  pub project : JsString
  pub fitness : SdlcFitness
  pub projects : List ProjectDeclaration
  pub targets : List (JsString × TargetDeclaration)

pub record InputDigest : Type 0 where
  pub path : JsString
  pub digest : JsString
  pub mode : Option ℕ
  pub symlink : Option (Option JsString)

abbrev pub TaskInputDigests : Type 0
TaskInputDigests = List (JsString × List InputDigest)

-- `Omit<TaskDeclaration, "resources" | "budget">`, with the scope and the profile that
-- `buildPresetTasks` adds.
pub record TaskShape : Type 0 where
  pub project : JsString
  pub target : JsString
  pub project_root : JsString
  pub mode : TaskMode
  pub trust_boundary : TrustBoundary
  pub scope : Option TargetScope
  pub command : Option JsString
  pub executor : Option JsString
  pub profile : Option JsString
  pub depends_on : List JsString
  pub inputs : List JsString
  pub shared_inputs : Option (List JsString)
  pub outputs : List JsString
  pub evidence : Option (List TaskEvidenceDeclaration)

pub record TaskDeclaration : Type 0 where
  pub shape : TaskShape
  pub open shape use *
  pub resources : Option TaskResources
  pub budget : Option TaskBudget

-- packages/tc-sdlc/src/executors/index.ts
pub data ExecutorContract : Type 0 where
  command_contract : (command : JsString) → ExecutorContract
  fitness_contract : (profile tier config : JsString) → ExecutorContract
  executor_contract : (executor : JsString) → ExecutorContract

pub record GraphTask : Type 0 where
  pub shape : TaskShape
  pub open shape use *
  pub key : JsString
  pub identity : JsString
  pub input_digests : List InputDigest
  pub execution : ExecutorContract
  pub resources : TaskResources
  pub budget : TaskBudget

pub record GraphProject : Type 0 where
  pub name : JsString
  pub root : JsString
  pub depends_on : List JsString

pub record SdlcGraph : Type 0 where
  pub declaration_digest : JsString
  pub lock_digest : JsString
  pub projects : List GraphProject
  pub tasks : List GraphTask

-- `value ?? []`
abbrev pub or_empty {ℓ} : {A : Type ℓ} → Option (List A) → List A
or_empty none = []
or_empty (some xs) = xs
