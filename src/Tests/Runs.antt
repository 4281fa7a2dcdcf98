-- ===== src/Tests/Runs.antt =====
-- Runs of the scheduler over the sample graph.
use tc_pipelines.Base.{
  ◌≤◌, ◌≡◌, ◌≢◌, refl, inl, inr, Bool, true, false, List, [], ◌∷◌, js, none, ok, insert, add,
  delete, set_of, list_beq, length, all, any, Elem, list_eq, nat_eq, arith, ◌+◌, ◌-◌, ◌==◌,
  if◌then◌else◌,
}
use tc_pipelines.Schema.{GraphTask}
use tc_pipelines.Runtime.{HostCapacity, TaskReceipt, failed, succeeded, removed}
use tc_pipelines.Runtime.Receipts.{
  is_success, skipped_receipt, failed_admission_receipt, cancelled_before_start_receipt,
}
use tc_pipelines.Runtime.Scheduler.{
  Doubles, Run, finished, aborted_by, unschedulable, exhausted, can_allocate, impossible, acquire,
  release, complete, scan_task, scan, run_loop, begin, has_succeeded, is_settled,
}
use tc_pipelines.Runtime.Scheduler.Claims.{total, AreApart}
use tc_pipelines.Runtime.Scheduler.Moves.{
  Move, completed, Reach, here, next, scan-Reach, scan_task-Move,
}
use tc_pipelines.Runtime.Scheduler.Resources.{
  cpu_of, memory_of, ports_of, exclusive_of, Reach-within_capacity,
}
use tc_pipelines.Runtime.Scheduler.Order.{
  Visited, started, turned, won, Visited-dependencies_succeeded,
}
use tc_pipelines.Runtime.Scheduler.Progress.{run_loop_ends}
use tc_pipelines.Runtime.Scheduler.Liveness.{run_loop_settles}
use tc_pipelines.Runtime.Runs.{
  RunReceipt, assert_closed, select_tasks, overall_status, collect, late_receipts, caught, attempt,
  demote, conclude, run_graph,
}
use tc_pipelines.Runtime.Runs.Outcomes.{AreRecorded, run_graph-succeeded}
use tc_pipelines.Runtime.Runs.Completion.{HasRun, run_graph_completes, run_graph-state_changed}
use tc_pipelines.Graph.Acyclic.Keys.{keys_of}
use tc_pipelines.Tests.Acyclic.{
  chain_accepted, depth, chain-Distinct, chain-AreKnown, chain-IsRanked,
}
use tc_pipelines.Tests.Samples.{
  task, build, check, qualify, chain, chain_graph, selection, context, capacity, success, round,
  world, exact, exact-IsExactUpTo, chain-SharesFit,
}

loop : Unit {0}
unfolding run_loop scan scan_task can_allocate impossible acquire release complete insert add delete
    list_beq skipped_receipt failed_admission_receipt cancelled_before_start_receipt
loop = tt

runs : Unit {0}
unfolding loop run_graph select_tasks assert_closed set_of attempt collect overall_status conclude
    demote caught late_receipts
runs = tt

-- The first scan starts `build` alone.
abbrev first : Run
first = (scan context capacity round chain (begin chain)).0

abbrev second : Run
second = (scan context capacity round chain (complete build (success build) first)).0

first-Reach : Reach chain capacity first
first-Reach = scan-Reach context capacity chain round chain (begin chain) (λ t m. m) here

build_runs : Elem build first.running
unfolding loop
build_runs = inl refl

second-Reach : Reach chain capacity second
second-Reach =
    scan-Reach context capacity chain round chain (complete build (success build) first) (λ t m. m)
      (next first-Reach (completed build (success build) build_runs))

check_runs : Elem check second.running
unfolding loop
check_runs = inl refl

scan_task-Move_example :
    Move chain capacity (begin chain) (scan_task context capacity round build (begin chain)).0
scan_task-Move_example =
    scan_task-Move context capacity chain round build (begin chain) (inr (inr (inl refl)))

Reach-within_capacity_example :
    (total cpu_of first.running ≤ capacity.cpu)
    × (total memory_of first.running ≤ capacity.memory_mib)
    × AreApart ports_of first.running
    × AreApart exclusive_of first.running
Reach-within_capacity_example =
    Reach-within_capacity 100 chain capacity first (exact-IsExactUpTo 100) (omega arith)
      chain-SharesFit first-Reach

-- `build` is started and ends, and then `check` is started.
abbrev building : Run
building = (scan_task context capacity round build (begin chain)).0

abbrev checking : Run
checking = (scan_task context capacity round check (complete build (success build) building)).0

building_runs : Elem build building.running
unfolding loop
building_runs = inl refl

checking_runs : Elem check checking.running
unfolding loop
checking_runs = inl refl

checking-Visited : Visited context chain capacity checking
checking-Visited =
    turned round check (inr (inl refl))
      (won build (success build) building_runs (turned round build (inr (inr (inl refl))) started))

Visited-dependencies_succeeded_example : all (has_succeeded checking) (js "build" ∷ []) ≡ true
Visited-dependencies_succeeded_example =
    Visited-dependencies_succeeded context chain capacity checking check chain-Distinct
      checking-Visited (inr (inl refl)) (inl checking_runs)

run_loop_ends_example : run_loop context capacity 7 (λ n. round) 0 chain (begin chain) ≢ exhausted
run_loop_ends_example = run_loop_ends context capacity (λ n. round) chain

run_loop_settles_example :
    (last : Run) × (run_loop context capacity 7 (λ n. round) 0 chain (begin chain) ≡ finished last)
    × Reach chain capacity last
    × ((t : GraphTask) → Elem t chain → is_settled last t.key ≡ true)
run_loop_settles_example =
    run_loop_settles 100 context capacity depth chain (λ n. round) (exact-IsExactUpTo 100)
      (omega arith) chain-SharesFit chain-Distinct chain-AreKnown chain-IsRanked
      (λ n t. (success t, refl))

selected : select_tasks chain_graph selection ≡ ok chain
unfolding runs
selected = refl

abbrev outcome : Bool → RunReceipt
outcome integrity = conclude context (world integrity) chain_graph chain (record {
  receipts = success qualify ∷ success check ∷ success build ∷ [];
  status = succeeded;
  reason = none;
})

ran : run_graph context (world true) chain_graph selection capacity 7 ≡ ok (outcome true)
unfolding runs
ran = refl

ran_changed : run_graph context (world false) chain_graph selection capacity 7 ≡ ok (outcome false)
unfolding runs
ran_changed = refl

outcome_succeeded : (outcome true).status ≡ succeeded
unfolding conclude
outcome_succeeded = refl

run_graph_completes_example : HasRun context (world true) chain_graph selection capacity chain
run_graph_completes_example =
    run_graph_completes 100 context (world true) chain_graph selection capacity chain
      (exact-IsExactUpTo 100) (omega arith) chain-SharesFit chain_accepted selected refl refl
      (λ n t. (success t, refl)) refl refl

run_graph-succeeded_example :
    (last : Run) × (tasks : List GraphTask) × (select_tasks chain_graph selection ≡ ok tasks)
    × (run_loop context capacity 7 (world true).rounds 0 tasks (begin tasks) ≡ finished last)
    × AreRecorded last tasks (outcome true).tasks
    × all (has_succeeded last) (keys_of tasks) ≡ true
    × (length tasks ≡ length selection)
    × ((outcome true).reason ≡ none)
    × ((world true).integrity ≡ true)
    × ((outcome true).scratch_cleanup ≡ removed)
run_graph-succeeded_example =
    run_graph-succeeded context (world true) chain_graph selection capacity 7 (outcome true) ran
      outcome_succeeded

run_graph-state_changed_example :
    (any (λ (r : TaskReceipt). is_success r.status) (outcome false).tasks ≡ false)
    × ((outcome false).status ≡ failed)
    × ((outcome false).reason ≢ none)
run_graph-state_changed_example =
    run_graph-state_changed context (world false) chain_graph selection capacity 7 (outcome false)
      ran_changed refl

-- A task that asks for more than the host has is failed, and what depends on it is skipped.
abbrev too_large : List GraphTask
too_large = task (js "build") 3 [] ∷ check ∷ []

too_large_statuses :
    (last : Run) × (run_loop context capacity 5 (λ n. round) 0 too_large (begin too_large)
      ≡ finished last)
    × (has_succeeded last (js "build") ≡ false)
    × (is_settled last (js "check") ≡ true)
unfolding loop
too_large_statuses = (_, refl, refl, refl)

-- Doubles in which taking 1 away leaves a residue of 1.
abbrev rounding : Doubles
rounding = record exact { minus = λ a b. if b == 1 then a - b + 1 else a - b }

abbrev shares : List GraphTask
shares = task (js "a") 1 [] ∷ task (js "b") 4 (js "a" ∷ []) ∷ []

abbrev four : HostCapacity
four = record { cpu = 4; memory_mib = 512 }

-- A residue of the allocated processors makes the loop fail on a task that fits the idle host.
residue_blocks :
    (last : Run) × (run_loop ⦃numbers = rounding⦄ context four 5
        (λ n. round)
        0
        shares
        (begin shares)
      ≡ aborted_by unschedulable last)
unfolding loop
residue_blocks = (_, refl)
