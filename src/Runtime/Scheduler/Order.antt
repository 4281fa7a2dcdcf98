-- ===== src/Runtime/Scheduler/Order.antt =====
-- In which order tasks are started and what their receipts say of their dependencies.
use tc_pipelines.Base.{
  ◌≡◌, ◌⊎◌, inl, inr, refl, sym, ap, ◌∙◌, subst, Bool, true, false, ◌||◌, not, List, [], ◌∷◌, ◌++◌,
  JsString, none, has, all, ◌==◌, nat_eq, list_eq, eq_iff, Elem, Elem-append_cases, Elem-keep,
  Elem-map, arith, Bool-cases, lookup, insert, lookup-insert, Distinct, has-delete, has_iff,
}
use tc_pipelines.Schema.{GraphTask}
use tc_pipelines.Graph.Acyclic.{key_of}
use tc_pipelines.Graph.Acyclic.Keys.{keys_of}
use tc_pipelines.Runtime.{TaskReceipt, HostCapacity}
use tc_pipelines.Runtime.Receipts.{is_success}
use tc_pipelines.Runtime.Scheduler.{Run, settle, launch, complete, is_settled, has_succeeded}
use tc_pipelines.Runtime.Scheduler.Claims.{running_keys, has-without, key_of_Elem, Elem-without}
use tc_pipelines.Runtime.Scheduler.Moves.{
  Move, stay, settled, launched, completed, Reach, here, next,
}
use tc_pipelines.Runtime.Scheduler.Resources.{IsExact, Reach-IsExact, has_keys-snoc}
use tc_pipelines.Runtime.Scheduler.{Doubles, Round, scan_task, begin}
use tc_pipelines.Runtime.Scheduler.Moves.{scan_task-Move}
use tc_pipelines.Runtime.Receipts.{RunContext}

module _ ⦃numbers : Doubles⦄ where
  -- Every task is pending, running or settled, and what runs or has succeeded has only dependencies
  -- that have succeeded.
  pub record IsSound (tasks : List GraphTask) (run : Run) : Type 0 where
    pub pending_unsettled : (k : JsString) → has run.pending k ≡ true → lookup k run.receipts ≡ none
    pub pending_listed : (k : JsString) → has run.pending k ≡ true → has (keys_of tasks) k ≡ true
    pub running_unsettled : (t : GraphTask) → Elem t run.running → lookup t.key run.receipts ≡ none
    pub running_listed : (t : GraphTask) → Elem t run.running → Elem t tasks
    pub covered :
        (t : GraphTask)
        → Elem t tasks
        → (has run.pending t.key || has (running_keys run.running) t.key || is_settled run t.key)
          ≡ true
    pub running_ready :
        (t : GraphTask) → Elem t run.running → all (has_succeeded run) t.depends_on ≡ true
    pub succeeded_ready :
        (t : GraphTask)
        → Elem t tasks
        → has_succeeded run t.key ≡ true
        → all (has_succeeded run) t.depends_on ≡ true

  pub task_unique :
      (tasks : List GraphTask) (t u : GraphTask)
      → Distinct (keys_of tasks)
      → Elem t tasks
      → Elem u tasks
      → t.key ≡ u.key
      → t ≡ u
  task_unique [] t u d m n e = elim m [ ]
  task_unique (v ∷ tasks) t u (o, d) (inl m) (inl n) e = m ∙ sym n
  task_unique (v ∷ tasks) t u (o, d) (inl m) (inr n) e =
      let key : t.key ≡ v.key = ap key_of m in
      let listed = (has_iff (keys_of tasks) u.key).1 (Elem-map key_of tasks u n) in
      let same : u.key ≡ v.key = sym e ∙ key in
      let twice : has (keys_of tasks) v.key ≡ true = rw same at listed in absurd (cc)
  task_unique (v ∷ tasks) t u (o, d) (inr m) (inl n) e =
      let key : u.key ≡ v.key = ap key_of n in
      let listed = (has_iff (keys_of tasks) t.key).1 (Elem-map key_of tasks t m) in
      let same : t.key ≡ v.key = e ∙ key in
      let twice : has (keys_of tasks) v.key ≡ true = rw same at listed in absurd (cc)
  task_unique (v ∷ tasks) t u (o, d) (inr m) (inr n) e = task_unique tasks t u d m n e

  all_mono :
      (p q : JsString → Bool) (keys : List JsString)
      → ((k : JsString) → p k ≡ true → q k ≡ true)
      → all p keys ≡ true
      → all q keys ≡ true
  all_mono p q [] f h = refl
  all_mono p q (k ∷ keys) f h = ground (arith, f k, all_mono p q keys f)

  -- A receipt for a key that had none leaves every success as it was.
  success_kept :
      (run : Run) (key : JsString) (receipt : TaskReceipt) (k : JsString)
      → lookup key run.receipts ≡ none
      → has_succeeded run k ≡ true
      → has_succeeded (record run { receipts = insert key receipt run.receipts }) k ≡ true
  success_kept run key receipt k new h =
      ground (arith, lookup-insert key k receipt run.receipts, eq_iff key k)

  snoc_cases :
      (t task : GraphTask) (running : List GraphTask)
      → Elem t (running ++ task ∷ [])
      → Elem t running ⊎ (t ≡ task)
  snoc_cases t task running n = elim (Elem-append_cases t running (task ∷ []) n) [
    | inl old ↦ inl old
    | inr (inl same) ↦ inr same
    | inr (inr never) ↦ elim never [ ]
  ]

  launch-IsSound :
      {tasks : List GraphTask} {run : Run} (task : GraphTask)
      → Elem task tasks
      → has run.pending task.key ≡ true
      → all (has_succeeded run) task.depends_on ≡ true
      → IsSound tasks run
      → IsSound tasks (launch task run)
  launch-IsSound {run} task m waits ready inv = record {
    pending_unsettled =
        λ k h. ground (arith, has-delete run.pending task.key k, inv.pending_unsettled k);
    pending_listed =
        λ k h. inv.pending_listed k (ground (arith, has-delete run.pending task.key k));
    running_unsettled = λ t n. elim (snoc_cases t task run.running n) [
      | inl old ↦ inv.running_unsettled t old
      | inr same ↦ rw same (inv.pending_unsettled task.key waits)
    ];
    running_listed = λ t n. elim (snoc_cases t task run.running n) [
      | inl old ↦ inv.running_listed t old
      | inr same ↦ rw same m
    ];
    covered = λ t n. ground (
      arith,
      inv.covered t n,
      has-delete run.pending task.key t.key,
      has_keys-snoc run.running task t.key,
    );
    running_ready = λ t n. elim (snoc_cases t task run.running n) [
      | inl old ↦ inv.running_ready t old
      | inr same ↦ rw same ready
    ];
    succeeded_ready = inv.succeeded_ready;
  }

  module _ {tasks : List GraphTask} {capacity : HostCapacity}
      (distinct : Distinct (keys_of tasks)) where
    settle-IsSound :
        {run : Run} (task : GraphTask) (receipt : TaskReceipt)
        → has run.pending task.key ≡ true
        → is_success receipt.status ≡ false
        → IsExact capacity run
        → IsSound tasks run
        → IsSound tasks (settle task receipt run)
    settle-IsSound {run} task receipt waits bad exact inv =
        let new = inv.pending_unsettled task.key waits in
        let kept = λ (k : JsString). success_kept run task.key receipt k new in
        let found = λ (k : JsString). lookup-insert task.key k receipt run.receipts in
        record {
          pending_unsettled = λ k h.
              ground (arith, has-delete run.pending task.key k, inv.pending_unsettled k, found k);
          pending_listed =
              λ k h. inv.pending_listed k (ground (arith, has-delete run.pending task.key k));
          running_unsettled = λ t m. ground (
            arith,
            inv.running_unsettled t m,
            found t.key,
            eq_iff task.key t.key,
            key_of_Elem run.running t m,
            exact.waits task.key waits,
          );
          running_listed = inv.running_listed;
          covered = λ t m.
              ground (arith, inv.covered t m, has-delete run.pending task.key t.key, found t.key);
          running_ready = λ t m.
              all_mono (has_succeeded run) (has_succeeded (settle task receipt run)) t.depends_on
                kept (inv.running_ready t m);
          succeeded_ready = λ t m h.
              all_mono (has_succeeded run) (has_succeeded (settle task receipt run)) t.depends_on
                kept (inv.succeeded_ready t m (ground (arith, found t.key)));
        }

    complete-IsSound :
        {run : Run} (task : GraphTask) (receipt : TaskReceipt)
        → Elem task run.running
        → IsExact capacity run
        → IsSound tasks run
        → IsSound tasks (complete task receipt run)
    unfolding complete
    complete-IsSound {run} task receipt m exact inv =
        let new = inv.running_unsettled task m in
        let kept = λ (k : JsString). success_kept run task.key receipt k new in
        let found = λ (k : JsString). lookup-insert task.key k receipt run.receipts in
        let ready =
          all_mono (has_succeeded run) (has_succeeded (complete task receipt run)) task.depends_on
            kept (inv.running_ready task m) in
        record {
          pending_unsettled = λ k h. ground (
            arith,
            inv.pending_unsettled k h,
            found k,
            eq_iff task.key k,
            exact.waits k h,
            key_of_Elem run.running task m,
          );
          pending_listed = inv.pending_listed;
          running_unsettled = λ t n.
              let (old, other) =
                (Elem-keep (λ (u : GraphTask). not (u.key == task.key)) run.running t).0 n in
              ground (
                arith,
                inv.running_unsettled t old,
                found t.key,
                eq_iff task.key t.key,
                eq_iff t.key task.key,
              );
          running_listed = λ t n. inv.running_listed t (Elem-without task.key run.running t n);
          covered = λ t n.
              ground (arith, inv.covered t n, has-without task.key t.key run.running, found t.key);
          running_ready = λ t n.
              all_mono (has_succeeded run) (has_succeeded (complete task receipt run)) t.depends_on
                kept (inv.running_ready t (Elem-without task.key run.running t n));
          succeeded_ready = λ t n h. elim (Bool-cases (task.key == t.key)) [
            | inl same ↦
                let e =
                  task_unique tasks task t distinct (inv.running_listed task m) n
                    ((eq_iff task.key t.key).0 same) in
                subst
                  (λ (u : GraphTask).
                    all (has_succeeded (complete task receipt run)) u.depends_on ≡ true)
                  e ready
            | inr other ↦
                all_mono (has_succeeded run) (has_succeeded (complete task receipt run))
                  t.depends_on kept (inv.succeeded_ready t n (ground (arith, found t.key)))
          ];
        }

    Move-IsSound :
        {r s : Run}
        → Move tasks capacity r s
        → IsExact capacity r
        → IsSound tasks r
        → IsSound tasks s
    Move-IsSound stay exact inv = inv
    Move-IsSound (settled task receipt m waits bad) exact inv =
        settle-IsSound task receipt waits bad exact inv
    Move-IsSound (launched task m waits ready free) exact inv =
        launch-IsSound task m waits ready inv
    Move-IsSound (completed task receipt m) exact inv = complete-IsSound task receipt m exact inv

    pub Reach-IsSound : {run : Run} → Reach tasks capacity run → IsSound tasks run
    Reach-IsSound here = record {
      pending_unsettled = λ k h. refl;
      pending_listed = λ k h. h;
      running_unsettled = λ t m. refl;
      running_listed = λ t m. elim m [ ];
      covered = λ t m. rw ((has_iff (keys_of tasks) t.key).1 (Elem-map key_of tasks t m));
      running_ready = λ t m. elim m [ ];
      succeeded_ready = λ t m h. absurd (cc);
    }
    Reach-IsSound (next r m) = Move-IsSound m (Reach-IsExact r) (Reach-IsSound r)

  -- The states that the code passes through: turns of the scan and completions of running tasks.
  pub data Visited (context : RunContext) (tasks : List GraphTask) (capacity : HostCapacity)
      : Run → Type 0 where
    started : Visited context tasks capacity (begin tasks)
    turned :
        {run : Run} (round : Round) (task : GraphTask)
        → Elem task tasks
        → Visited context tasks capacity run
        → Visited context tasks capacity (scan_task context capacity round task run).0
    won :
        {run : Run} (task : GraphTask) (receipt : TaskReceipt)
        → Elem task run.running
        → Visited context tasks capacity run
        → Visited context tasks capacity (complete task receipt run)

  pub Visited-Reach :
      {context : RunContext} {tasks : List GraphTask} {capacity : HostCapacity} {run : Run}
      → Visited context tasks capacity run
      → Reach tasks capacity run
  Visited-Reach started = here
  Visited-Reach {context} {tasks} {capacity} (turned round task m v) =
      next (Visited-Reach v) (scan_task-Move context capacity tasks round task _ m)
  Visited-Reach (won task receipt m v) = next (Visited-Reach v) (completed task receipt m)

  -- If the keys of the tasks are distinct, then in every state that turns of the scan and completions
  -- of running tasks lead to, a task that runs or has succeeded has only dependencies that have
  -- succeeded.
  pub Visited-dependencies_succeeded :
      (context : RunContext) (tasks : List GraphTask) (capacity : HostCapacity) (run : Run)
      (task : GraphTask)
      → Distinct (keys_of tasks)
      → Visited context tasks capacity run
      → Elem task tasks
      → (Elem task run.running ⊎ (has_succeeded run task.key ≡ true))
      → all (has_succeeded run) task.depends_on ≡ true
  Visited-dependencies_succeeded context tasks capacity run task distinct v m (inl runs) =
      (Reach-IsSound distinct (Visited-Reach v)).running_ready task runs
  Visited-dependencies_succeeded context tasks capacity run task distinct v m (inr done) =
      (Reach-IsSound distinct (Visited-Reach v)).succeeded_ready task m done
