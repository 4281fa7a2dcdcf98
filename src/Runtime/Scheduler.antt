-- ===== src/Runtime/Scheduler.antt =====
-- The scheduling loop of `runGraph` in packages/tc-sdlc/src/runtime/index.ts.
-- What the event loop decides is an argument: a `Round` says whether the abort signal is set when
-- the scan reaches a task, which running task settles first, and how it settles.
pub mod Claims
pub mod Moves
pub mod Resources
pub mod Order
pub mod Progress
pub mod Liveness
use tc_pipelines.Base.{
  ℕ, zero, suc, ◌+◌, ◌-◌, ◌%◌, Bool, true, false, ◌&&◌, ◌||◌, not, List, [], ◌∷◌, ◌++◌, map, Option,
  none, some, JsString, js, has, add, delete, lookup, insert, any, all, keep, find, length,
  get_elem?, leb, ltb, if◌then◌else◌, ◌==◌, nat_eq, list_eq,
}
use tc_pipelines.Schema.{GraphTask}
use tc_pipelines.Runtime.{TaskReceipt, HostCapacity}
use tc_pipelines.Runtime.Receipts.{
  RunContext, is_success, skipped_receipt, failed_admission_receipt, cancelled_before_start_receipt,
}

pub record Allocation : Type 0 where
  pub cpu : ℕ
  pub memory_mib : ℕ
  pub ports : List ℕ
  pub exclusive : List JsString

-- The arithmetic of doubles, for processor shares. A double is a natural number that stands for it: a
-- multiple of a fixed power of two stands for itself as a count of that power, up to a limit, and
-- every other double has some number above the limit. The operations round as IEEE 754 says.
pub record Doubles : Type 0 where
  pub plus : ℕ → ℕ → ℕ
  pub minus : ℕ → ℕ → ℕ
  pub at_most : ℕ → ℕ → Bool
  pub greater : ℕ → ℕ → Bool

module _ {A : Type 0} (step : List A → A → List A) where
  -- A loop that adds or deletes each of some values.
  abbrev pub each : List A → List A → List A
  each held [] = held
  each held (value ∷ values) = each (step held value) values

-- The local state of the loop. `running` is the map of the started tasks in the order of insertion.
pub record Run : Type 0 where
  pub pending : List JsString
  pub running : List GraphTask
  pub receipts : List (JsString × TaskReceipt)
  pub allocation : Allocation

-- How the promise of `executeTask` settles: with a receipt, or with an error's message.
pub data Settled : Type 0 where
  fulfilled : TaskReceipt → Settled
  rejected : JsString → Settled

pub record Round : Type 0 where
  pub aborted : JsString → Bool
  pub winner : ℕ
  pub settles : GraphTask → Settled

abbrev pub is_settled : Run → JsString → Bool
is_settled run key = elim (lookup key run.receipts) [ none ↦ false | some receipt ↦ true ]

abbrev pub has_succeeded : Run → JsString → Bool
has_succeeded run key = elim (lookup key run.receipts) [
  | none ↦ false
  | some receipt ↦ is_success receipt.status
]

abbrev pub settle : GraphTask → TaskReceipt → Run → Run
settle task receipt run = record run {
  pending = delete run.pending task.key;
  receipts = insert task.key receipt run.receipts;
}

abbrev pub without : JsString → List GraphTask → List GraphTask
without key = keep (λ task. not (task.key == key))

-- How the loop ends: by its condition, by an exception with its message, or for want of fuel.
pub data Ending : Type 0 where
  finished : Run → Ending
  aborted_by : JsString → Run → Ending
  exhausted : Ending

abbrev pub unschedulable : JsString
unschedulable = js "selected task dependencies cannot be scheduled"

abbrev pub is_empty {ℓ} : {A : Type ℓ} → List A → Bool
is_empty [] = true
is_empty (x ∷ xs) = false

-- The running task that settles first. Every choice among the running tasks has its number.
abbrev pub race : Round → Run → Option GraphTask
race round run = get_elem? run.running (round.winner % length run.running)

abbrev pub idle : Allocation
idle = record { cpu = 0; memory_mib = 0; ports = []; exclusive = [] }

abbrev pub begin : List GraphTask → Run
begin tasks = record {
  pending = map (λ (task : GraphTask). task.key) tasks;
  running = [];
  receipts = [];
  allocation = idle;
}

module _ ⦃numbers : Doubles⦄ where
  unfoldable pub can_allocate : GraphTask → HostCapacity → Allocation → Bool
  can_allocate task capacity allocation =
      numbers.at_most (numbers.plus allocation.cpu task.resources.cpu) capacity.cpu
      && leb (allocation.memory_mib + task.resources.memory_mib) capacity.memory_mib
      && all (λ port. not (has allocation.ports port)) task.resources.ports
      && all (λ resource. not (has allocation.exclusive resource)) task.resources.exclusive

  unfoldable pub impossible : GraphTask → HostCapacity → Bool
  impossible task capacity =
      numbers.greater task.resources.cpu capacity.cpu
      || ltb capacity.memory_mib task.resources.memory_mib

  -- `allocate(task, allocation, 1)`
  unfoldable pub acquire : GraphTask → Allocation → Allocation
  acquire task allocation = record {
    cpu = numbers.plus allocation.cpu task.resources.cpu;
    memory_mib = allocation.memory_mib + task.resources.memory_mib;
    ports = each add allocation.ports task.resources.ports;
    exclusive = each add allocation.exclusive task.resources.exclusive;
  }

  -- `allocate(task, allocation, -1)`
  unfoldable pub release : GraphTask → Allocation → Allocation
  release task allocation = record {
    cpu = numbers.minus allocation.cpu task.resources.cpu;
    memory_mib = allocation.memory_mib - task.resources.memory_mib;
    ports = each delete allocation.ports task.resources.ports;
    exclusive = each delete allocation.exclusive task.resources.exclusive;
  }

  abbrev pub launch : GraphTask → Run → Run
  launch task run = record run {
    pending = delete run.pending task.key;
    running = run.running ++ task ∷ [];
    allocation = acquire task run.allocation;
  }

  -- The bookkeeping behind `Promise.race`.
  unfoldable pub complete : GraphTask → TaskReceipt → Run → Run
  complete task receipt run = record run {
    running = without task.key run.running;
    receipts = insert task.key receipt run.receipts;
    allocation = release task run.allocation;
  }

  module _ (context : RunContext) (capacity : HostCapacity) where
    -- One turn of the `for` loop: the new state, and whether the turn advanced.
    unfoldable pub scan_task : Round → GraphTask → Run → Run × Bool
    scan_task round task run =
        if not (has run.pending task.key)
        then (run, false)
        else if round.aborted task.key
        then (settle task (cancelled_before_start_receipt context task) run, true)
        else if any (λ key. not (is_settled run key)) task.depends_on
        then (run, false)
        else elim (find (λ key. not (has_succeeded run key)) task.depends_on) [
          | some key ↦ (
            settle task (skipped_receipt context task (js "dependency_failed:" ++ key)) run,
            true,
          )
          | none ↦
              if impossible task capacity
              then (settle task (failed_admission_receipt context task) run, true)
              else if can_allocate task capacity run.allocation
              then (launch task run, true)
              else (run, false)
        ]

    unfoldable pub scan : Round → List GraphTask → Run → Run × Bool
    scan round [] run = (run, false)
    scan round (task ∷ tasks) run =
        let (next, here) = scan_task round task run in
        let (last, later) = scan round tasks next in (last, here || later)

    unfoldable pub run_loop : ℕ → (ℕ → Round) → ℕ → List GraphTask → Run → Ending
    run_loop zero rounds n tasks run = exhausted
    run_loop (suc fuel) rounds n tasks run =
        let (scanned, advanced) = scan (rounds n) tasks run in
        let again = run_loop fuel rounds (suc n) tasks in
        let turn : Ending = elim (race (rounds n) scanned) [
          | some task ↦ elim ((rounds n).settles task) [
            | fulfilled receipt ↦ again (complete task receipt scanned)
            | rejected message ↦ aborted_by message scanned
          ]
          | none ↦
              let repeat = again scanned in
              if not (is_empty scanned.pending) && not advanced
              then aborted_by unschedulable scanned
              else repeat
        ] in
        if is_empty run.pending && is_empty run.running then finished run else turn
