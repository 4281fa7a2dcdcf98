-- ===== src/Runtime/Scheduler/Moves.antt =====
-- The scheduler as a step relation, and the refinement of its moves by the scan.
use tc_pipelines.Base.{
  ℕ, zero, suc, ◌≡◌, ◌⊎◌, inl, inr, refl, subst, Bool, true, false, ◌&&◌, not, List, [], ◌∷◌, ◌++◌,
  JsString, js, none, some, has, any, all, find, nat_eq, list_eq, Elem, arith, Bool-cases,
  Option-cases, get_elem?,
}
use tc_pipelines.Schema.{GraphTask}
use tc_pipelines.Runtime.{TaskReceipt, HostCapacity}
use tc_pipelines.Runtime.Receipts.{
  RunContext, is_success, skipped_receipt, failed_admission_receipt, cancelled_before_start_receipt,
}
use tc_pipelines.Runtime.Scheduler.{
  Run, Round, Settled, fulfilled, rejected, finished, settle, launch, complete, is_settled,
  has_succeeded, can_allocate, impossible, scan_task, scan, run_loop, race, begin, is_empty,
}
use tc_pipelines.Runtime.Scheduler.{Doubles}

module _ ⦃numbers : Doubles⦄ where
  -- One change of the scheduler's state.
  pub data Move (tasks : List GraphTask) (capacity : HostCapacity) (run : Run) : Run → Type 0 where
    stay : Move tasks capacity run run
    settled :
        (task : GraphTask) (receipt : TaskReceipt)
        → Elem task tasks
        → has run.pending task.key ≡ true
        → is_success receipt.status ≡ false
        → Move tasks capacity run (settle task receipt run)
    launched :
        (task : GraphTask)
        → Elem task tasks
        → has run.pending task.key ≡ true
        → all (has_succeeded run) task.depends_on ≡ true
        → can_allocate task capacity run.allocation ≡ true
        → Move tasks capacity run (launch task run)
    completed :
        (task : GraphTask) (receipt : TaskReceipt)
        → Elem task run.running
        → Move tasks capacity run (complete task receipt run)

  -- The states that some sequence of moves leads to from the start of the loop.
  pub data Reach (tasks : List GraphTask) (capacity : HostCapacity) : Run → Type 0 where
    here : Reach tasks capacity (begin tasks)
    next : {r s : Run} → Reach tasks capacity r → Move tasks capacity r s → Reach tasks capacity s

  pub all_of_find-none :
      {A : Type 0} (p : A → Bool) (xs : List A) → find (λ x. not (p x)) xs ≡ none → all p xs ≡ true
  all_of_find-none p [] h = refl
  all_of_find-none p (x ∷ xs) h = ground (arith, all_of_find-none p xs)

  pub get_elem?-Elem :
      {A : Type 0} (xs : List A) (i : ℕ) {x : A} → get_elem? xs i ≡ some x → Elem x xs
  get_elem?-Elem [] i h = cc
  get_elem?-Elem (y ∷ xs) zero h = inl (ground arith)
  get_elem?-Elem (y ∷ xs) (suc i) h = inr (get_elem?-Elem xs i h)

  pub Settled-cases :
      (s : Settled)
      → ((receipt : TaskReceipt) × (s ≡ fulfilled receipt))
        ⊎ ((message : JsString) × (s ≡ rejected message))
  Settled-cases (fulfilled receipt) = inl (receipt, refl)
  Settled-cases (rejected message) = inr (message, refl)

  -- Why a turn leaves its task pending: it is not, or a dependency has no receipt, or its resources
  -- are taken.
  abbrev pub StaysPending : HostCapacity → Run → GraphTask → Type 0
  StaysPending capacity run task =
      (has run.pending task.key ≡ false)
      ⊎ ((any (λ key. not (is_settled run key)) task.depends_on ≡ true)
          ⊎ ((impossible task capacity ≡ false)
              × (can_allocate task capacity run.allocation ≡ false)))

  -- The outcomes of one turn of the scan, with the flag that it sets.
  pub data Turn (capacity : HostCapacity) (run : Run) (task : GraphTask) : Run → Bool → Type 0 where
    kept : StaysPending capacity run task → Turn capacity run task run false
    closed :
        (receipt : TaskReceipt)
        → has run.pending task.key ≡ true
        → is_success receipt.status ≡ false
        → Turn capacity run task (settle task receipt run) true
    opened :
        has run.pending task.key ≡ true
        → all (has_succeeded run) task.depends_on ≡ true
        → can_allocate task capacity run.allocation ≡ true
        → Turn capacity run task (launch task run) true

  Turn-Move :
      {tasks : List GraphTask} {capacity : HostCapacity} {run : Run} {task : GraphTask}
      {after : Run} {advanced : Bool}
      → Elem task tasks
      → Turn capacity run task after advanced
      → Move tasks capacity run after
  Turn-Move m (kept why) = stay
  Turn-Move {task} m (closed receipt waits bad) = settled task receipt m waits bad
  Turn-Move {task} m (opened waits ready free) = launched task m waits ready free

  module _ (context : RunContext) (capacity : HostCapacity) (tasks : List GraphTask) where
    -- What a turn does on each of its branches.
    pub scan_task-Turn :
        (round : Round) (task : GraphTask) (run : Run)
        → let turn = scan_task context capacity round task run in
          Turn capacity run task turn.0 turn.1
    unfolding scan_task skipped_receipt failed_admission_receipt cancelled_before_start_receipt
    scan_task-Turn round task run = elim (Bool-cases (has run.pending task.key)) [
      | inr gone ↦ rw gone (kept (inl gone))
      | inl waits ↦ rw waits (elim (Bool-cases (round.aborted task.key)) [
        | inl stopped ↦ rw stopped (closed (cancelled_before_start_receipt context task) waits refl)
        | inr runs ↦
            rw runs (elim (Bool-cases (any (λ key. not (is_settled run key)) task.depends_on)) [
              | inl early ↦ rw early (kept (inr (inl early)))
              | inr ready ↦
                  rw ready
                    (elim (Option-cases
                      (find (λ key. not (has_succeeded run key)) task.depends_on)) [
                        | inr (key, failed) ↦ rw failed (
                            closed (skipped_receipt context task (js "dependency_failed:" ++ key))
                              waits refl)
                        | inl none_failed ↦
                            rw none_failed (elim (Bool-cases (impossible task capacity)) [
                              | inl large ↦
                                  rw large
                                    (closed (failed_admission_receipt context task) waits refl)
                              | inr fits ↦
                                  rw fits
                                    (elim (Bool-cases (can_allocate task capacity run.allocation)) [
                                      | inr busy ↦ rw busy (kept (inr (inr (fits, busy))))
                                      | inl free ↦ rw free (
                                          opened waits
                                            (all_of_find-none (has_succeeded run) task.depends_on
                                              none_failed)
                                            free)
                                    ])
                            ])
                      ])
            ])
      ])
    ]

    -- A turn of the scan is a move.
    pub scan_task-Move :
        (round : Round) (task : GraphTask) (run : Run)
        → Elem task tasks
        → Move tasks capacity run (scan_task context capacity round task run).0
    scan_task-Move round task run m = Turn-Move m (scan_task-Turn round task run)

    pub scan-Reach :
        (round : Round) (some_tasks : List GraphTask) (run : Run)
        → ((task : GraphTask) → Elem task some_tasks → Elem task tasks)
        → Reach tasks capacity run
        → Reach tasks capacity (scan context capacity round some_tasks run).0
    unfolding scan
    scan-Reach round [] run sub r = r
    scan-Reach round (task ∷ rest) run sub r =
        scan-Reach round rest (scan_task context capacity round task run).0 (λ t m. sub t (inr m))
          (next r (scan_task-Move round task run (sub task (inl refl))))

    -- A loop that ends by its condition ends in a reachable state with nothing pending or running.
    pub run_loop-Reach :
        (rounds : ℕ → Round) (fuel n : ℕ) (run last : Run)
        → Reach tasks capacity run
        → run_loop context capacity fuel rounds n tasks run ≡ finished last
        → Reach tasks capacity last
          × (is_empty last.pending ≡ true)
          × (is_empty last.running ≡ true)
    unfolding run_loop
    run_loop-Reach rounds zero n run last r h = absurd (cc)
    run_loop-Reach rounds (suc fuel) n run last r h =
        let scanned = (scan context capacity (rounds n) tasks run).0 in
        let advanced = (scan context capacity (rounds n) tasks run).1 in
        let r' = scan-Reach (rounds n) tasks run (λ t m. m) r in
        elim (Bool-cases (is_empty run.pending && is_empty run.running)) [
          | inl done ↦
              let same : run ≡ last = ground arith in
              subst
                (λ (s : Run).
                  Reach tasks capacity s
                  × (is_empty s.pending ≡ true)
                  × (is_empty s.running ≡ true))
                same (r, ground arith, ground arith)
          | inr more ↦ elim (Option-cases (race (rounds n) scanned)) [
            | inl none_runs ↦ elim (Bool-cases (not (is_empty scanned.pending) && not advanced)) [
              | inl stuck ↦ absurd (ground arith)
              | inr goes ↦ run_loop-Reach rounds fuel (suc n) scanned last r' (ground arith)
            ]
            | inr (task, won) ↦ elim (Settled-cases ((rounds n).settles task)) [
              | inl (receipt, e) ↦
                  run_loop-Reach rounds fuel (suc n) (complete task receipt scanned) last
                    (next r' (completed task receipt (get_elem?-Elem scanned.running _ won)))
                    (ground arith)
              | inr (message, e) ↦ absurd (ground arith)
            ]
          ]
        ]
