-- ===== src/Tests/Samples.antt =====
-- A graph of three tasks, one behind another, and an event loop in which every task succeeds.
use tc_pipelines.Base.{
  ℕ, ◌+◌, ◌-◌, refl, inl, inr, arith, leb, ltb, Bool, false, List, [], ◌∷◌, none, some, JsString,
  js, ok,
}
use tc_pipelines.Schema.{GraphTask, evaluate, portable, command_contract, SdlcGraph, TaskResources}
use tc_pipelines.Runtime.{TaskReceipt, succeeded, pos, HostCapacity, removed}
use tc_pipelines.Runtime.Receipts.{RunContext}
use tc_pipelines.Runtime.Scheduler.{Doubles, Round, fulfilled}
use tc_pipelines.Runtime.Scheduler.Resources.{IsExactUpTo, SharesFit}
use tc_pipelines.Runtime.Runs.{World}

abbrev resources : ℕ → TaskResources
resources cpu = record { cpu = cpu; memory_mib = 256; ports = 8080 ∷ []; exclusive = js "db" ∷ [] }

abbrev pub task : JsString → ℕ → List JsString → GraphTask
task key cpu depends_on = record {
  shape = record {
    project = js "app";
    target = key;
    project_root = js "app";
    mode = evaluate;
    trust_boundary = portable;
    scope = none;
    command = some (js "make");
    executor = none;
    profile = none;
    depends_on = depends_on;
    inputs = [];
    shared_inputs = none;
    outputs = [];
    evidence = none;
  };
  key = key;
  identity = key;
  input_digests = [];
  execution = command_contract (js "make");
  resources = resources cpu;
  budget = record { phase_ms = 60000; no_progress_ms = 30000; heartbeat_ms = 5000 };
}

abbrev pub build : GraphTask
build = task (js "build") 2 []

abbrev pub check : GraphTask
check = task (js "check") 1 (js "build" ∷ [])

abbrev pub qualify : GraphTask
qualify = task (js "qualify") 1 (js "build" ∷ js "check" ∷ [])

-- Listed with the last task first.
abbrev pub chain : List GraphTask
chain = qualify ∷ check ∷ build ∷ []

abbrev pub chain_graph : SdlcGraph
chain_graph = record { declaration_digest = []; lock_digest = []; projects = []; tasks = chain }

abbrev pub selection : List JsString
selection = js "build" ∷ js "check" ∷ js "qualify" ∷ []

abbrev pub context : RunContext
context = record { context_digest = []; scratch_id = js "run"; posix_normalize = λ path. path }

abbrev pub capacity : HostCapacity
capacity = record { cpu = 2; memory_mib = 512 }

abbrev pub success : GraphTask → TaskReceipt
success t = record {
  key = t.key;
  identity = t.identity;
  status = succeeded;
  exit_code = some (pos 0);
  reason = none;
  stdout = [];
  stderr = [];
  output_truncated = false;
  execution_context_digest = [];
  scratch_id = js "run";
  resources = t.resources;
  evidence = [];
  missing_evidence = [];
  events = [];
  diagnostic = none;
}

abbrev pub round : Round
round = record { aborted = λ key. false; winner = 0; settles = λ t. fulfilled (success t) }

abbrev pub world : Bool → World
world integrity = record {
  entry = ok tt;
  rounds = λ n. round;
  late = λ t. none;
  integrity = integrity;
  cleanup = removed;
}

-- Doubles that stay below the limit, so that their arithmetic is exact.
instance abbrev pub exact : Doubles
exact = record {
  plus = λ a b. a + b;
  minus = λ a b. a - b;
  at_most = leb;
  greater = λ a b. ltb b a;
}

pub exact-IsExactUpTo : (limit : ℕ) → IsExactUpTo limit
exact-IsExactUpTo limit = record {
  plus_exact = λ a b h. refl;
  minus_exact = λ a b h l. refl;
  at_most_exact = λ a b h l. refl;
  greater_exact = λ a b h l. refl;
}

pub chain-SharesFit : SharesFit 100 capacity chain
chain-SharesFit t (inl e) = rw e (omega arith)
chain-SharesFit t (inr (inl e)) = rw e (omega arith)
chain-SharesFit t (inr (inr (inl e))) = rw e (omega arith)
chain-SharesFit t (inr (inr (inr never))) = elim never [ ]
