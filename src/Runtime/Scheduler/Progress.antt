-- ===== src/Runtime/Scheduler/Progress.antt =====
-- How many rounds the loop of `runGraph` takes.
use tc_pipelines.Base.{
  ℕ, zero, suc, ◌+◌, ◌*◌, ◌%◌, ◌≤◌, ◌<◌, ◌≡◌, ◌≢◌, inl, inr, refl, sym, ap, ◌∙◌, subst, Bool, true,
  false, ◌&&◌, ◌||◌, not, List, [], ◌∷◌, ◌++◌, map, none, if◌then◌else◌, ◌==◌, nat_eq, list_eq,
  eq_iff, Elem, arith, Bool-cases, Option-cases, length, get_elem?, length-delete-lt,
  keep-length-le,
}
use tc_pipelines.Schema.{GraphTask}
use tc_pipelines.Graph.Acyclic.{key_of}
use tc_pipelines.Runtime.{TaskReceipt, HostCapacity}
use tc_pipelines.Runtime.Receipts.{RunContext}
use tc_pipelines.Runtime.Scheduler.{
  Run, Round, exhausted, complete, scan_task, scan, run_loop, race, begin, is_empty, without,
}
use tc_pipelines.Runtime.Scheduler.Moves.{
  Turn, kept, closed, opened, scan_task-Turn, Settled-cases, get_elem?-Elem,
}
use tc_pipelines.Runtime.Scheduler.{Doubles}

module _ ⦃numbers : Doubles⦄ where
  -- How many turns are left at most.
  pub weight : Run → ℕ
  weight run = 2 * length run.pending + length run.running

  length-snoc {ℓ} : {A : Type ℓ} (xs : List A) (x : A) → length (xs ++ x ∷ []) ≡ suc (length xs)
  length-snoc [] x = refl
  length-snoc (y ∷ xs) x = ap suc (length-snoc xs x)

  length-without-lt :
      (running : List GraphTask) (task : GraphTask)
      → Elem task running
      → length (without task.key running) < length running
  length-without-lt [] task m = elim m [ ]
  length-without-lt (u ∷ running) task (inl e) =
      let key : task.key ≡ u.key = ap key_of e in
      let rest = keep-length-le (λ (t : GraphTask). not (t.key == task.key)) running in
      ground (arith, eq_iff u.key task.key)
  length-without-lt (u ∷ running) task (inr m) = ground (arith, length-without-lt running task m)

  -- A turn that advances costs weight, and one that does not leaves the state.
  abbrev pub Costs : Run → Run → Bool → Type 0
  Costs run after advanced = if advanced then (weight after < weight run) else (after ≡ run)

  Turn-Costs :
      {capacity : HostCapacity} {run : Run} {task : GraphTask} {after : Run} {advanced : Bool}
      → Turn capacity run task after advanced
      → Costs run after advanced
  unfolding weight
  Turn-Costs (kept why) = refl
  Turn-Costs {run} {task} (closed receipt waits bad) =
      omega (arith, length-delete-lt run.pending task.key waits)
  Turn-Costs {run} {task} (opened waits ready free) =
      omega (arith, length-delete-lt run.pending task.key waits, length-snoc {0} run.running task)

  Costs-append : (r s t : Run) (a b : Bool) → Costs r s a → Costs s t b → Costs r t (a || b)
  Costs-append r s t true true h k = omega arith
  Costs-append r s t true false h k = subst (λ (x : Run). weight x < weight r) (sym k) h
  Costs-append r s t false true h k = subst (λ (x : Run). weight t < weight x) h k
  Costs-append r s t false false h k = k ∙ h

  pub Costs-le : (r s : Run) (a : Bool) → Costs r s a → weight s ≤ weight r
  Costs-le r s true h = omega arith
  Costs-le r s false h = subst (λ (x : Run). weight x ≤ weight r) (sym h) (omega arith)

  pub complete-weight :
      (task : GraphTask) (receipt : TaskReceipt) (run : Run)
      → Elem task run.running
      → weight (complete task receipt run) < weight run
  unfolding weight complete
  complete-weight task receipt run m = omega (arith, length-without-lt run.running task m)

  -- With nothing running, a scan that did not advance leaves the loop only if nothing was pending.
  pub goes-weight :
      (run scanned : Run) (advanced : Bool)
      → Costs run scanned advanced
      → (is_empty run.pending && is_empty run.running) ≡ false
      → is_empty scanned.running ≡ true
      → (not (is_empty scanned.pending) && not advanced) ≡ false
      → weight scanned < weight run
  goes-weight run scanned true h more quiet goes = h
  goes-weight run scanned false h more quiet goes =
      let same_pending = ap (λ (x : Run). is_empty x.pending) h in
      let same_running = ap (λ (x : Run). is_empty x.running) h in absurd (ground arith)

  module _ (context : RunContext) (capacity : HostCapacity) where
    pub scan-Costs :
        (round : Round) (tasks : List GraphTask) (run : Run)
        → let turns = scan context capacity round tasks run in Costs run turns.0 turns.1
    unfolding scan
    scan-Costs round [] run = refl
    scan-Costs round (task ∷ tasks) run =
        let first = scan_task context capacity round task run in
        let rest = scan context capacity round tasks first.0 in
        Costs-append run first.0 rest.0 first.1 rest.1
          (Turn-Costs (scan_task-Turn context capacity tasks round task run))
          (scan-Costs round tasks first.0)

    pub race-none :
        (round : Round) (run : Run) → race round run ≡ none → is_empty run.running ≡ true
    race-none round run h =
        no_elem run.running (round.winner % length run.running) (λ p. omega arith) h
      where
        no_elem :
            (ts : List GraphTask) (i : ℕ)
            → (0 < length ts → i < length ts)
            → get_elem? ts i ≡ none
            → is_empty ts ≡ true
        no_elem [] i f e = refl
        no_elem (t ∷ ts) i f e = absurd (inside (t ∷ ts) i (f (omega arith)) e)
          where
            inside : (us : List GraphTask) (j : ℕ) → j < length us → get_elem? us j ≢ none
            inside [] j lt e' = absurd (omega arith)
            inside (u ∷ us) zero lt e' = cc
            inside (u ∷ us) (suc j) lt e' = inside us j (omega arith) e'

    -- The loop ends whatever the event loop does: fuel above the weight is never used up.
    pub run_loop-ne-exhausted :
        (rounds : ℕ → Round) (tasks : List GraphTask) (fuel n : ℕ) (run : Run)
        → weight run < fuel
        → run_loop context capacity fuel rounds n tasks run ≢ exhausted
    unfolding run_loop
    run_loop-ne-exhausted rounds tasks zero n run w h = absurd (omega arith)
    run_loop-ne-exhausted rounds tasks (suc fuel) n run w h =
        let scanned = (scan context capacity (rounds n) tasks run).0 in
        let advanced = (scan context capacity (rounds n) tasks run).1 in
        let costs = scan-Costs (rounds n) tasks run in
        elim (Bool-cases (is_empty run.pending && is_empty run.running)) [
          | inl done ↦ absurd (ground arith)
          | inr more ↦ elim (Option-cases (race (rounds n) scanned)) [
            | inr (task, won) ↦ elim (Settled-cases ((rounds n).settles task)) [
              | inr (message, e) ↦ absurd (ground arith)
              | inl (receipt, e) ↦
                  let falls =
                    complete-weight task receipt scanned (get_elem?-Elem scanned.running _ won) in
                  let low = Costs-le run scanned advanced costs in
                  run_loop-ne-exhausted rounds tasks fuel (suc n) (complete task receipt scanned)
                    (omega arith) (ground arith)
            ]
            | inl none_runs ↦ elim (Bool-cases (not (is_empty scanned.pending) && not advanced)) [
              | inl stuck ↦ absurd (ground arith)
              | inr goes ↦
                  let falls =
                    goes-weight run scanned advanced costs more
                      (race-none (rounds n) scanned none_runs) goes in
                  run_loop-ne-exhausted rounds tasks fuel (suc n) scanned (omega arith)
                    (ground arith)
            ]
          ]
        ]

  length-keys : (tasks : List GraphTask) → length (map key_of tasks) ≡ length tasks
  length-keys [] = refl
  length-keys (t ∷ tasks) = ap suc (length-keys tasks)

  pub weight-begin : (tasks : List GraphTask) → weight (begin tasks) < suc (2 * length tasks)
  unfolding weight
  weight-begin tasks = omega (arith, length-keys tasks)

  -- Whatever the signal, the race and the executions do, the loop over n tasks ends within 2n + 1
  -- rounds.
  pub run_loop_ends :
      (context : RunContext) (capacity : HostCapacity) (rounds : ℕ → Round) (tasks : List GraphTask)
      → run_loop context capacity (suc (2 * length tasks)) rounds 0 tasks (begin tasks) ≢ exhausted
  run_loop_ends context capacity rounds tasks =
      run_loop-ne-exhausted context capacity rounds tasks (suc (2 * length tasks)) 0 (begin tasks)
        (weight-begin tasks)
