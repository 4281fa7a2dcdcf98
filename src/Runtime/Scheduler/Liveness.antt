-- ===== src/Runtime/Scheduler/Liveness.antt =====
-- The loop of `runGraph` on tasks whose dependencies have a rank.
use tc_pipelines.Base.{
  ℕ, zero, suc, ◌+◌, ◌*◌, ◌<◌, ◌≤◌, ◌≡◌, ap, ◌∙◌, inl, inr, refl, sym, subst, Bool, true, false,
  ◌&&◌, ◌||◌, not, List, [], ◌∷◌, JsString, has, all, nat_eq, list_eq, Eq, eq_iff, Elem, arith,
  Bool-cases, Option-cases, length, Distinct, Elem-any, Elem-of_map, has_iff, all_of_elems,
}
use tc_pipelines.Schema.{GraphTask}
use tc_pipelines.Graph.Acyclic.{key_of}
use tc_pipelines.Graph.Acyclic.Keys.{keys_of}
use tc_pipelines.Graph.Acyclic.Order.{IsRanked}
use tc_pipelines.Graph.Acyclic.Complete.{AreKnown}
use tc_pipelines.Runtime.{TaskReceipt, HostCapacity}
use tc_pipelines.Runtime.Receipts.{RunContext}
use tc_pipelines.Runtime.Scheduler.{
  Run, Round, fulfilled, finished, complete, is_settled, can_allocate, impossible, scan_task, scan,
  run_loop, race, begin, is_empty,
}
use tc_pipelines.Runtime.Scheduler.Claims.{running_keys, total, IsHeld}
use tc_pipelines.Runtime.Scheduler.Moves.{
  Turn, kept, closed, opened, StaysPending, scan_task-Turn, get_elem?-Elem, Reach, here, next,
  completed, scan-Reach, run_loop-Reach,
}
use tc_pipelines.Runtime.Scheduler.Resources.{
  IsExact, Reach-IsExact, IsExactUpTo, SharesFit, IsShared, Reach-IsShared, cpu_of, memory_of,
  ports_of, exclusive_of,
}
use tc_pipelines.Runtime.Scheduler.Order.{Reach-IsSound}
use tc_pipelines.Runtime.Scheduler.Progress.{
  weight, weight-begin, Costs, Costs-le, complete-weight, goes-weight, scan-Costs, race-none,
}
use tc_pipelines.Runtime.Scheduler.{Doubles}

module _ ⦃numbers : Doubles⦄ where
  Turn-kept :
      {capacity : HostCapacity} {run : Run} {task : GraphTask} {after : Run} {advanced : Bool}
      → Turn capacity run task after advanced
      → advanced ≡ false
      → StaysPending capacity run task × (after ≡ run)
  Turn-kept (kept why) h = (why, refl)
  Turn-kept (closed receipt waits bad) h = absurd (cc)
  Turn-kept (opened waits ready free) h = absurd (cc)

  total-quiet :
      (share : GraphTask → ℕ) (running : List GraphTask)
      → is_empty running ≡ true
      → total share running ≡ 0
  total-quiet share [] h = refl
  total-quiet share (t ∷ running) h = absurd (cc)

  none_held :
      {A : Type 0} ⦃e : Eq A⦄ (claim : GraphTask → List A) (held : List A)
      (running : List GraphTask)
      → IsHeld claim held running
      → is_empty running ≡ true
      → (values : List A) → all (λ a. not (has held a)) values ≡ true
  none_held claim held [] h quiet values =
      all_of_elems (λ a. not (has held a)) values (λ a m. rw (h a))
  none_held claim held (t ∷ running) h quiet values = absurd (cc)

  -- With nothing running, a task that fits the host can be started.
  can_allocate-quiet :
      {limit : ℕ} (exactly : IsExactUpTo limit) {capacity : HostCapacity} {run : Run}
      (task : GraphTask)
      → capacity.cpu + task.resources.cpu ≤ limit
      → IsExact capacity run
      → IsShared capacity run
      → is_empty run.running ≡ true
      → impossible task capacity ≡ false
      → can_allocate task capacity run.allocation ≡ true
  unfolding can_allocate impossible
  can_allocate-quiet exactly {capacity} {run} task small exact shared quiet fits =
      let nothing : run.allocation.cpu ≡ 0 =
        shared.cpu_exact ∙ total-quiet cpu_of run.running quiet in
      let sum : numbers.plus run.allocation.cpu task.resources.cpu ≡ task.resources.cpu =
        ap (λ n. numbers.plus n task.resources.cpu) nothing
        ∙ exactly.plus_exact 0 task.resources.cpu (omega (arith, small))
        ∙ omega arith in
      let more =
        exactly.greater_exact task.resources.cpu capacity.cpu (omega (arith, small))
          (omega (arith, small)) in
      let within =
        exactly.at_most_exact task.resources.cpu capacity.cpu (omega (arith, small))
          (omega (arith, small)) in
      let free : numbers.at_most (numbers.plus run.allocation.cpu task.resources.cpu) capacity.cpu
          ≡ true =
        ap (λ n. numbers.at_most n capacity.cpu) sum ∙ within ∙ ground (arith, fits, more) in
      ground (
        arith,
        free,
        exact.memory_exact,
        total-quiet memory_of run.running quiet,
        none_held ports_of run.allocation.ports run.running exact.ports_held quiet
            task.resources.ports,
        none_held exclusive_of run.allocation.exclusive run.running exact.exclusive_held quiet
            task.resources.exclusive,
      )

  no_keys :
      (running : List GraphTask) (k : JsString)
      → is_empty running ≡ true
      → has (running_keys running) k ≡ false
  no_keys [] k h = refl
  no_keys (t ∷ running) k h = absurd (cc)

  module _ (context : RunContext) (capacity : HostCapacity) where
    scan-kept :
        (round : Round) (tasks : List GraphTask) (run : Run)
        → (scan context capacity round tasks run).1 ≡ false
        → (task : GraphTask) → Elem task tasks
        → StaysPending capacity run task
    unfolding scan
    scan-kept round [] run h task m = elim m [ ]
    scan-kept round (t ∷ tasks) run h task (inl e) =
        subst (StaysPending capacity run) (sym e)
          (Turn-kept (scan_task-Turn context capacity tasks round t run) (ground arith)).0
    scan-kept round (t ∷ tasks) run h task (inr m) =
        let same =
          (Turn-kept (scan_task-Turn context capacity tasks round t run) (ground arith)).1 in
        let after = (scan_task context capacity round t run).0 in
        subst (λ (r : Run). StaysPending capacity r task) same
          (scan-kept round tasks after (ground arith) task m)

    module _ (rank : JsString → ℕ) (tasks : List GraphTask) (distinct : Distinct (keys_of tasks))
        (known : AreKnown tasks) (ranked : IsRanked rank tasks) {limit : ℕ}
        (exactly : IsExactUpTo limit) (small : capacity.cpu ≤ limit)
        (fitting : SharesFit limit capacity tasks) where
      task_with :
          (key : JsString)
          → has (keys_of tasks) key ≡ true
          → (task : GraphTask) × Elem task tasks × (task.key ≡ key)
      task_with key h =
          let (task, listed, named) =
            Elem-of_map key_of tasks key ((has_iff (keys_of tasks) key).0 h) in
          (task, listed, sym named)

      module _ {run : Run} (r : Reach tasks capacity run) (quiet : is_empty run.running ≡ true)
          (stays : (task : GraphTask) → Elem task tasks → StaysPending capacity run task) where
        -- Such a pending task has a pending dependency.
        pending_dependency :
            (task : GraphTask)
            → Elem task tasks
            → has run.pending task.key ≡ true
            → (dep : JsString) × Elem dep task.depends_on × (has run.pending dep ≡ true)
        pending_dependency task m waits = elim (stays task m) [
          | inl gone ↦ absurd (cc)
          | inr (inl early) ↦
              let (dep, listed, open_) =
                Elem-any (λ key. not (is_settled run key)) task.depends_on early in
              let (u, u_listed, named) = task_with dep (known task m dep listed) in
              let cover : (has run.pending dep
                    || has (running_keys run.running) dep
                    || is_settled run dep)
                  ≡ true =
                subst
                  (λ k.
                    (has run.pending k || has (running_keys run.running) k || is_settled run k)
                    ≡ true)
                  named ((Reach-IsSound distinct r).covered u u_listed) in
              (dep, listed, ground (arith, no_keys run.running dep quiet))
          | inr (inr (fits, busy)) ↦
              let free =
                can_allocate-quiet exactly task (fitting task m) (Reach-IsExact r)
                  (Reach-IsShared exactly small fitting r) quiet fits in
              absurd (cc)
        ]

        descent :
            (n : ℕ) (task : GraphTask)
            → Elem task tasks
            → has run.pending task.key ≡ true
            → rank task.key < n
            → ⊥
        descent zero task m waits low = omega arith
        descent (suc n) task m waits low =
            let (dep, listed, dep_waits) = pending_dependency task m waits in
            let (u, u_listed, named) = task_with dep (known task m dep listed) in
            let below = ranked task m dep listed in
            descent n u u_listed (rw named dep_waits) (rw named (omega arith))

        nothing_pending : is_empty run.pending ≡ true
        nothing_pending = elim (Bool-cases (is_empty run.pending)) [
          | inl none_left ↦ none_left
          | inr left ↦
              let (key, waits) = head_of run.pending left in
              let (task, m, named) =
                task_with key ((Reach-IsSound distinct r).pending_listed key waits) in
              absurd (descent (suc (rank task.key)) task m (rw named waits) (omega arith))
        ]
          where
            head_of :
                (keys : List JsString)
                → is_empty keys ≡ false
                → (key : JsString) × (has keys key ≡ true)
            head_of [] h = absurd (cc)
            head_of (key ∷ keys) h = (key, ground (arith, eq_iff key key))

      module _ (rounds : ℕ → Round)
          (settles : (n : ℕ) (task : GraphTask)
            → (receipt : TaskReceipt) × ((rounds n).settles task ≡ fulfilled receipt)) where
        run_loop_finishes_from :
            (fuel n : ℕ) (run : Run)
            → Reach tasks capacity run
            → weight run < fuel
            → (last : Run) × (run_loop context capacity fuel rounds n tasks run ≡ finished last)
        unfolding run_loop
        run_loop_finishes_from zero n run r w = absurd (omega arith)
        run_loop_finishes_from (suc fuel) n run r w =
            let scanned = (scan context capacity (rounds n) tasks run).0 in
            let advanced = (scan context capacity (rounds n) tasks run).1 in
            let costs = scan-Costs context capacity (rounds n) tasks run in
            let r' = scan-Reach context capacity tasks (rounds n) tasks run (λ t m. m) r in
            elim (Bool-cases (is_empty run.pending && is_empty run.running)) [
              | inl done ↦ (run, rw done)
              | inr more ↦ elim (Option-cases (race (rounds n) scanned)) [
                | inr (task, won) ↦
                    let (receipt, e) = settles n task in
                    let m = get_elem?-Elem scanned.running _ won in
                    let falls = complete-weight task receipt scanned m in
                    let low = Costs-le run scanned advanced costs in
                    let (last, h) =
                      run_loop_finishes_from fuel (suc n) (complete task receipt scanned)
                        (next r' (completed task receipt m)) (omega arith) in
                    (last, rw (more, won, e) h)
                | inl none_runs ↦
                    let quiet = race-none context capacity (rounds n) scanned none_runs in
                    let goes : (not (is_empty scanned.pending) && not advanced) ≡ false =
                      elim (Bool-cases advanced) [
                        | inl moved ↦ ground arith
                        | inr still ↦
                            let same = stays_same run scanned advanced costs still in
                            let quiet' : is_empty run.running ≡ true =
                              subst (λ (x : Run). is_empty x.running ≡ true) same quiet in
                            let empty =
                              nothing_pending r quiet' (scan-kept (rounds n) tasks run still) in
                            let empty' : is_empty scanned.pending ≡ true =
                              subst (λ (x : Run). is_empty x.pending ≡ true) (sym same) empty in
                            ground arith
                      ] in
                    let falls = goes-weight run scanned advanced costs more quiet goes in
                    let (last, h) = run_loop_finishes_from fuel (suc n) scanned r' (omega arith) in
                    (last, rw (more, none_runs, goes) h)
              ]
            ]
          where
            stays_same : (a b : Run) (flag : Bool) → Costs a b flag → flag ≡ false → b ≡ a
            stays_same a b true h e = absurd (cc)
            stays_same a b false h e = h

  all_settled :
      {tasks : List GraphTask} {capacity : HostCapacity} (run : Run)
      → Distinct (keys_of tasks)
      → Reach tasks capacity run
      → is_empty run.pending ≡ true
      → is_empty run.running ≡ true
      → (task : GraphTask) → Elem task tasks
      → is_settled run task.key ≡ true
  all_settled run distinct r no_pending no_running task m =
      let cover = (Reach-IsSound distinct r).covered task m in
      ground
        (arith, no_item run.pending task.key no_pending, no_keys run.running task.key no_running)
    where
      no_item : (keys : List JsString) (k : JsString) → is_empty keys ≡ true → has keys k ≡ false
      no_item [] k h = refl
      no_item (j ∷ keys) k h = absurd (cc)

  -- If doubles up to a limit are computed with exactly and the capacity with any one task's share stays
  -- below it, then with distinct keys, known dependencies, a rank that excludes cycles and no rejected execution, the
  -- loop ends by its condition within 2n + 1 rounds for n tasks, in a reachable state in which every
  -- task has a receipt: it never throws RUN_GRAPH_INVALID, whatever the signal and the race do.
  pub run_loop_settles :
      (limit : ℕ) (context : RunContext) (capacity : HostCapacity) (rank : JsString → ℕ)
      (tasks : List GraphTask) (rounds : ℕ → Round)
      → IsExactUpTo limit
      → capacity.cpu ≤ limit
      → SharesFit limit capacity tasks
      → Distinct (keys_of tasks)
      → AreKnown tasks
      → IsRanked rank tasks
      → ((n : ℕ) (task : GraphTask)
          → (receipt : TaskReceipt) × ((rounds n).settles task ≡ fulfilled receipt))
      → (last : Run) × (run_loop context capacity
            (suc (2 * length tasks))
            rounds
            0
            tasks
            (begin tasks)
          ≡ finished last)
        × Reach tasks capacity last
        × ((task : GraphTask) → Elem task tasks → is_settled last task.key ≡ true)
  run_loop_settles limit context capacity rank tasks rounds exactly small fitting distinct known
        ranked settles =
      let (last, h) =
        run_loop_finishes_from context capacity rank tasks distinct known ranked exactly small
          fitting rounds settles (suc (2 * length tasks)) 0 (begin tasks) here
          (weight-begin tasks) in
      let (r, no_pending, no_running) =
        run_loop-Reach context capacity tasks rounds (suc (2 * length tasks)) 0 (begin tasks) last
          here h in
      (last, h, r, all_settled last distinct r no_pending no_running)
