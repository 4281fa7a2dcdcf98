-- ===== src/Runtime/Scheduler/Resources.antt =====
-- What is allocated in every reachable state.
use tc_pipelines.Base.{
  ℕ, ◌+◌, ◌-◌, ◌≤◌, ◌≡◌, refl, sym, ap, ◌∙◌, subst, leb, ltb, true, false, ◌||◌, List, [], ◌∷◌,
  ◌++◌, JsString, has, ◌==◌, nat_eq, list_eq, eq_iff, Elem, arith, Distinct, has-delete,
}
use tc_pipelines.Schema.{GraphTask}
use tc_pipelines.Runtime.{TaskReceipt, HostCapacity}
use tc_pipelines.Runtime.Scheduler.{Run, settle, launch, complete, can_allocate, acquire, release}
use tc_pipelines.Runtime.Scheduler.Claims.{
  running_keys, total, total-snoc, total-without, AreApart, IsHeld, launch-IsHeld, launch-AreApart,
  without-AreApart, complete-IsHeld, has-without, without-Distinct,
}
use tc_pipelines.Runtime.Scheduler.Moves.{
  Move, stay, settled, launched, completed, Reach, here, next,
}
use tc_pipelines.Runtime.Scheduler.{Doubles}

module _ ⦃numbers : Doubles⦄ where
  abbrev pub cpu_of : GraphTask → ℕ
  cpu_of task = task.resources.cpu

  abbrev pub memory_of : GraphTask → ℕ
  memory_of task = task.resources.memory_mib

  abbrev pub ports_of : GraphTask → List ℕ
  ports_of task = task.resources.ports

  abbrev pub exclusive_of : GraphTask → List JsString
  exclusive_of task = task.resources.exclusive

  -- The allocation is exactly what the running tasks take, and it fits the host, but for processors.
  pub record IsExact (capacity : HostCapacity) (run : Run) : Type 0 where
    pub memory_exact : run.allocation.memory_mib ≡ total memory_of run.running
    pub memory_fits : run.allocation.memory_mib ≤ capacity.memory_mib
    pub ports_held : IsHeld ports_of run.allocation.ports run.running
    pub ports_apart : AreApart ports_of run.running
    pub exclusive_held : IsHeld exclusive_of run.allocation.exclusive run.running
    pub exclusive_apart : AreApart exclusive_of run.running
    pub once : Distinct (running_keys run.running)
    pub waits : (k : JsString) → has run.pending k ≡ true → has (running_keys run.running) k ≡ false

  pub has_keys-snoc :
      (running : List GraphTask) (task : GraphTask) (k : JsString)
      → has (running_keys (running ++ task ∷ [])) k
        ≡ (has (running_keys running) k || (task.key == k))
  has_keys-snoc [] task k = ground arith
  has_keys-snoc (u ∷ running) task k = ground (arith, has_keys-snoc running task k)

  Distinct-snoc :
      (running : List GraphTask) (task : GraphTask)
      → Distinct (running_keys running)
      → has (running_keys running) task.key ≡ false
      → Distinct (running_keys (running ++ task ∷ []))
  Distinct-snoc [] task d h = (refl, tt)
  Distinct-snoc (u ∷ running) task (o, d) h = (
    ground (arith, has_keys-snoc running task u.key, eq_iff u.key task.key, eq_iff task.key u.key),
    Distinct-snoc running task d (ground arith),
  )

  module _ {capacity : HostCapacity} where
    launch-IsExact :
        {run : Run} (task : GraphTask)
        → has run.pending task.key ≡ true
        → can_allocate task capacity run.allocation ≡ true
        → IsExact capacity run
        → IsExact capacity (launch task run)
    unfolding can_allocate acquire
    launch-IsExact {run} task waits free inv = record {
      memory_exact = omega (arith, inv.memory_exact, total-snoc memory_of run.running task);
      memory_fits = ground arith;
      ports_held = launch-IsHeld ports_of run.allocation.ports run.running task inv.ports_held;
      ports_apart =
          launch-AreApart ports_of run.allocation.ports run.running task inv.ports_held
            (ground arith) inv.ports_apart;
      exclusive_held =
          launch-IsHeld exclusive_of run.allocation.exclusive run.running task inv.exclusive_held;
      exclusive_apart =
          launch-AreApart exclusive_of run.allocation.exclusive run.running task inv.exclusive_held
            (ground arith) inv.exclusive_apart;
      once = Distinct-snoc run.running task inv.once (inv.waits task.key waits);
      waits = λ k h. ground (
        arith,
        has-delete run.pending task.key k,
        has_keys-snoc run.running task k,
        inv.waits k,
        eq_iff task.key k,
      );
    }

    complete-IsExact :
        {run : Run} (task : GraphTask) (receipt : TaskReceipt)
        → Elem task run.running
        → IsExact capacity run
        → IsExact capacity (complete task receipt run)
    unfolding complete release
    complete-IsExact {run} task receipt m inv =
        let memory = total-without memory_of run.running task inv.once m in
        record {
          memory_exact = omega (arith, inv.memory_exact, memory);
          memory_fits = omega (arith, inv.memory_fits);
          ports_held =
              complete-IsHeld ports_of run.allocation.ports run.running task inv.once
                inv.ports_apart m inv.ports_held;
          ports_apart = without-AreApart ports_of task.key run.running inv.ports_apart;
          exclusive_held =
              complete-IsHeld exclusive_of run.allocation.exclusive run.running task inv.once
                inv.exclusive_apart m inv.exclusive_held;
          exclusive_apart = without-AreApart exclusive_of task.key run.running inv.exclusive_apart;
          once = without-Distinct task.key run.running inv.once;
          waits = λ k h. ground (arith, has-without task.key k run.running, inv.waits k);
        }

    settle-IsExact :
        {run : Run} (task : GraphTask) (receipt : TaskReceipt)
        → IsExact capacity run
        → IsExact capacity (settle task receipt run)
    settle-IsExact {run} task receipt inv = record {
      memory_exact = inv.memory_exact;
      memory_fits = inv.memory_fits;
      ports_held = inv.ports_held;
      ports_apart = inv.ports_apart;
      exclusive_held = inv.exclusive_held;
      exclusive_apart = inv.exclusive_apart;
      once = inv.once;
      waits = λ k h. ground (arith, has-delete run.pending task.key k, inv.waits k);
    }

  module _ {tasks : List GraphTask} {capacity : HostCapacity} where
    Move-IsExact : {r s : Run} → Move tasks capacity r s → IsExact capacity r → IsExact capacity s
    Move-IsExact stay inv = inv
    Move-IsExact (settled task receipt m waits bad) inv = settle-IsExact task receipt inv
    Move-IsExact (launched task m waits ready free) inv = launch-IsExact task waits free inv
    Move-IsExact (completed task receipt m) inv = complete-IsExact task receipt m inv

    pub Reach-IsExact : {run : Run} → Reach tasks capacity run → IsExact capacity run
    Reach-IsExact here = record {
      memory_exact = refl;
      memory_fits = omega arith;
      ports_held = λ a. refl;
      ports_apart = tt;
      exclusive_held = λ a. refl;
      exclusive_apart = tt;
      once = tt;
      waits = λ k h. refl;
    }
    Reach-IsExact (next r m) = Move-IsExact m (Reach-IsExact r)

  -- Doubles up to a limit are computed with exactly.
  pub record IsExactUpTo (limit : ℕ) : Type 0 where
    pub plus_exact : (a b : ℕ) → a + b ≤ limit → numbers.plus a b ≡ a + b
    pub minus_exact : (a b : ℕ) → b ≤ a → a ≤ limit → numbers.minus a b ≡ a - b
    pub at_most_exact : (a b : ℕ) → a ≤ limit → b ≤ limit → numbers.at_most a b ≡ leb a b
    pub greater_exact : (a b : ℕ) → a ≤ limit → b ≤ limit → numbers.greater a b ≡ ltb b a

  -- The share of each task together with the capacity stays below the limit.
  abbrev pub SharesFit : ℕ → HostCapacity → List GraphTask → Type 0
  SharesFit limit capacity tasks =
      (task : GraphTask) → Elem task tasks → capacity.cpu + task.resources.cpu ≤ limit

  -- The allocated processors are those of the running tasks, and there are as many.
  pub record IsShared (capacity : HostCapacity) (run : Run) : Type 0 where
    pub cpu_exact : run.allocation.cpu ≡ total cpu_of run.running
    pub cpu_fits : run.allocation.cpu ≤ capacity.cpu

  module _ {limit : ℕ} (exact : IsExactUpTo limit) {tasks : List GraphTask}
      {capacity : HostCapacity} (small_host : capacity.cpu ≤ limit)
      (fits : SharesFit limit capacity tasks) where
    Move-IsShared :
        {r s : Run}
        → Move tasks capacity r s
        → IsExact capacity r
        → IsShared capacity r
        → IsShared capacity s
    unfolding can_allocate acquire complete release
    Move-IsShared stay claims inv = inv
    Move-IsShared (settled task receipt m waits bad) claims inv = record {
      cpu_exact = inv.cpu_exact;
      cpu_fits = inv.cpu_fits;
    }
    Move-IsShared {r} (launched task m waits ready free) claims inv =
        let small = fits task m in
        let fewer = inv.cpu_fits in
        let sum =
          exact.plus_exact r.allocation.cpu task.resources.cpu (omega (arith, small, fewer)) in
        let tested : numbers.at_most (numbers.plus r.allocation.cpu task.resources.cpu) capacity.cpu
            ≡ true =
          ground (arith, free) in
        let compared =
          exact.at_most_exact (r.allocation.cpu + task.resources.cpu) capacity.cpu
            (omega (arith, small, fewer)) (omega (arith, small)) in
        let within : leb (r.allocation.cpu + task.resources.cpu) capacity.cpu ≡ true =
          sym compared ∙ ap (λ n. numbers.at_most n capacity.cpu) (sym sum) ∙ tested in
        record {
          cpu_exact = sum ∙ omega (arith, inv.cpu_exact, total-snoc cpu_of r.running task);
          cpu_fits = subst (λ n. n ≤ capacity.cpu) (sym sum) (ground (arith, within));
        }
    Move-IsShared {r} (completed task receipt m) claims inv =
        let cpu = total-without cpu_of r.running task claims.once m in
        let listed = inv.cpu_exact in
        let fewer = inv.cpu_fits in
        let left =
          exact.minus_exact r.allocation.cpu task.resources.cpu (omega (arith, cpu, listed))
            (omega (arith, fewer, small_host)) in
        record {
          cpu_exact = left ∙ omega (arith, listed, cpu);
          cpu_fits = subst (λ n. n ≤ capacity.cpu) (sym left) (omega (arith, fewer));
        }

    pub Reach-IsShared : {run : Run} → Reach tasks capacity run → IsShared capacity run
    Reach-IsShared here = record { cpu_exact = refl; cpu_fits = omega arith }
    Reach-IsShared (next r m) = Move-IsShared m (Reach-IsExact r) (Reach-IsShared r)

  -- If doubles up to a limit are computed with exactly and the capacity with any one task's share stays
  -- below it, then in every reachable state the running tasks together stay within the host's
  -- processors and memory, and no two of them share a port or an exclusive resource.
  pub Reach-within_capacity :
      (limit : ℕ) (tasks : List GraphTask) (capacity : HostCapacity) (run : Run)
      → IsExactUpTo limit
      → capacity.cpu ≤ limit
      → SharesFit limit capacity tasks
      → Reach tasks capacity run
      → (total cpu_of run.running ≤ capacity.cpu)
        × (total memory_of run.running ≤ capacity.memory_mib)
        × AreApart ports_of run.running
        × AreApart exclusive_of run.running
  Reach-within_capacity limit tasks capacity run exact small fits r =
      let inv = Reach-IsExact r in
      let shared = Reach-IsShared exact small fits r in
      (
        omega (arith, shared.cpu_exact, shared.cpu_fits),
        omega (arith, inv.memory_exact, inv.memory_fits),
        inv.ports_apart,
        inv.exclusive_apart,
      )
