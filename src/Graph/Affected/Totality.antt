-- ===== src/Graph/Affected/Totality.antt =====
-- Lemmas on `selectTask` of `selectAffected`: when a call returns, and the weight of a selection.
use tc_pipelines.Base.{
  ℕ, zero, suc, ◌+◌, ◌-◌, ◌≤◌, ◌<◌, ◌≡◌, inl, inr, refl, ap, ◌∙◌, subst, arith, true, false, List,
  [], ◌∷◌, ◌++◌, map, flat_map, JsString, ◌==◌, nat_eq, list_eq, has, has_iff, add, has-add, eq_iff,
  length, Distinct, Elem, Elem-map, Elem-of_map, Elem-keep, Elem-of_flat_map, if◌then◌else◌, Result,
  ok, ◌>>=◌, Bool-cases,
}
use tc_pipelines.Schema.{GraphTask, PathCaseSensitivity}
use tc_pipelines.Graph.Selector.{CaseRules, resolve_project_path}
use tc_pipelines.Graph.Acyclic.{key_of}
use tc_pipelines.Graph.Acyclic.Keys.{keys_of, known_task}
use tc_pipelines.Graph.Acyclic.Complete.{AreKnown, free, free-add-lt}
use tc_pipelines.Graph.Affected.{
  Selection, each_in, enqueue_path, consumers_of, generated_consumers, output_selectors,
  visit_output, select_task, count_outputs,
}

-- The outputs of the tasks that are not selected.
pub unspent : List GraphTask → List JsString → ℕ
unspent [] selected = 0
unspent (t ∷ tasks) selected =
    if has selected t.key then unspent tasks selected else length t.outputs + unspent tasks selected

unspent-add-le :
    (tasks : List GraphTask) (v : List JsString) (k : JsString)
    → unspent tasks (add v k) ≤ unspent tasks v
unfolding unspent
unspent-add-le [] v k = omega arith
unspent-add-le (t ∷ tasks) v k = ground (arith, unspent-add-le tasks v k, has-add v k t.key)

unspent-add :
    (tasks : List GraphTask) (v : List JsString) (t : GraphTask)
    → Elem t tasks
    → has v t.key ≡ false
    → length t.outputs + unspent tasks (add v t.key) ≤ unspent tasks v
unfolding unspent
unspent-add [] v t m h = elim m [ ]
unspent-add (u ∷ tasks) v t (inl e) h =
    let key : t.key ≡ u.key = ap key_of e in
    let outs : length t.outputs ≡ length u.outputs = ap (λ (x : GraphTask). length x.outputs) e in
    ground (arith, unspent-add-le tasks v t.key, has-add v t.key u.key, eq_iff t.key u.key)
unspent-add (u ∷ tasks) v t (inr m) h =
    ground (arith, unspent-add tasks v t m h, has-add v t.key u.key)

pub unspent-nil-le : (tasks : List GraphTask) → unspent tasks [] ≤ count_outputs tasks
unfolding unspent
unspent-nil-le [] = omega arith
unspent-nil-le (t ∷ tasks) = omega (arith, unspent-nil-le tasks)

-- A bound on the paths that are still to be handled.
abbrev pub weight : List GraphTask → Selection → ℕ
weight tasks s = length s.pending_paths + unspent tasks s.selected

abbrev pub cost_of : {A : Type 0} → ℕ → List A → ℕ
cost_of c [] = 0
cost_of c (x ∷ xs) = c + cost_of c xs

pub cost_of_zero : {A : Type 0} (xs : List A) → cost_of 0 xs ≡ 0
cost_of_zero [] = refl
cost_of_zero (x ∷ xs) = omega (arith, cost_of_zero xs)

cost_of_outputs : {A B : Type 0} (f : A → B) (xs : List A) → cost_of 1 (map f xs) ≡ length xs
cost_of_outputs f [] = refl
cost_of_outputs f (x ∷ xs) = omega (arith, cost_of_outputs f xs)

length-snoc : {A : Type 0} (xs : List A) (x : A) → length (xs ++ x ∷ []) ≡ suc (length xs)
length-snoc [] x = refl
length-snoc (y ∷ xs) x = ap suc (length-snoc xs x)

module _ (rules : CaseRules) (case : PathCaseSensitivity) (tasks : List GraphTask) where
  abbrev pub IsKnown : JsString → Type 0
  IsKnown key = has (keys_of tasks) key ≡ true

  -- A call returns for at most n unselected tasks, and adds at most c to the weight.
  abbrev pub Returns :
      {A : Type 0} → (A → Type 0) → ℕ → ℕ → (A → Selection → Result Selection) → Type 0
  Returns {A} R n c call =
      (x : A) (s : Selection)
      → R x
      → free tasks s.selected ≤ n
      → (s' : Selection) × (call x s ≡ ok s')
        × (free tasks s'.selected ≤ free tasks s.selected)
        × (weight tasks s' ≤ c + weight tasks s)

  pub each_in-Returns :
      {A : Type 0} (R : A → Type 0) (n c : ℕ) (call : A → Selection → Result Selection)
      → Returns R n c call
      → (xs : List A) (s : Selection) → ((x : A) → Elem x xs → R x)
      → free tasks s.selected ≤ n
      → (s' : Selection) × (each_in call xs s ≡ ok s')
        × (free tasks s'.selected ≤ free tasks s.selected)
        × (weight tasks s' ≤ cost_of c xs + weight tasks s)
  unfolding each_in
  each_in-Returns R n c call one [] s h f = (s, refl, omega arith, omega arith)
  each_in-Returns R n c call one (x ∷ xs) s h f =
      let (t, e, less, light) = one x s (h x (inl refl)) f in
      let (u, e', less', light') =
        each_in-Returns R n c call one xs t (λ y m. h y (inr m)) (omega arith) in
      (u, rw e e', omega arith, omega arith)

  pub enqueue-weight :
      (path : JsString) (s : Selection)
      → ((enqueue_path rules case path s).selected ≡ s.selected)
        × (length (enqueue_path rules case path s).pending_paths ≤ suc (length s.pending_paths))
  unfolding enqueue_path
  enqueue-weight path s = (ground arith, ground (arith, length-snoc s.pending_paths path))

  pub key-IsKnown : (t : GraphTask) → Elem t tasks → IsKnown t.key
  key-IsKnown t m = (has_iff (keys_of tasks) t.key).1 (Elem-map key_of tasks t m)

  readers-IsKnown : (o k : JsString) → Elem k (generated_consumers rules case tasks o) → IsKnown k
  unfolding generated_consumers
  readers-IsKnown o k m =
      let (t, kept, e) = Elem-of_map key_of _ k m in
      rw e (key-IsKnown t ((Elem-keep _ tasks t).0 kept).0)

  output-Returns :
      (n : ℕ) (call : JsString → Selection → Result Selection)
      → Returns IsKnown n 0 call
      → Returns (λ o. Unit {0}) n 1 (visit_output rules case tasks call)
  output-Returns n call one o s u f =
      let readers = generated_consumers rules case tasks o in
      let queued = enqueue_path rules case o s in
      let (same, longer) = enqueue-weight o s in
      let same_free = ap (free tasks) same in
      let same_unspent = ap (unspent tasks) same in
      let (t, e, less, light) =
        each_in-Returns IsKnown n 0 call one readers queued (readers-IsKnown o) (omega arith) in
      let free_cost = cost_of_zero readers in (t, e, omega arith, omega arith)

  consumers-IsKnown : (key k : JsString) → Elem k (consumers_of tasks key) → IsKnown k
  unfolding consumers_of
  consumers-IsKnown key k m =
      let (t, listed, here) =
        Elem-of_flat_map
          (λ (u : GraphTask). flat_map (λ d. if d == key then u.key ∷ [] else []) u.depends_on)
          tasks k m in
      let (d, _, this) =
        Elem-of_flat_map (λ d. if d == key then t.key ∷ [] else []) t.depends_on k here in
      elim (Bool-cases (d == key)) [
        | inl same ↦
            let own : Elem k (t.key ∷ []) = rw same at this in
            elim own [ inl e ↦ rw e (key-IsKnown t listed) | inr never ↦ elim never [ ] ]
        | inr other ↦ let never : Elem k [] = rw other at this in elim never [ ]
      ]

  module _ (distinct : Distinct (keys_of tasks)) (known : AreKnown tasks) where
    -- A call with more fuel than there are unselected tasks returns, and no path is queued more
    -- often than the outputs allow.
    pub select_task-Returns :
        (fuel n : ℕ) → n < fuel → Returns IsKnown n 0 (select_task rules case tasks fuel)
    unfolding select_task
    select_task-Returns zero n enough key s k f = absurd (omega arith)
    select_task-Returns (suc fuel) n enough key s k f = elim (Bool-cases (has s.selected key)) [
      | inl old ↦ (s, ground arith, omega arith, omega arith)
      | inr new ↦
          let (task, listed, named, found) = known_task tasks distinct key k in
          let select = select_task rules case tasks fuel in
          let added : Selection = record s { selected = add s.selected key } in
          let fewer : free tasks (add s.selected key) < free tasks s.selected =
            subst (λ j. free tasks (add s.selected j) < free tasks s.selected) named
              (free-add-lt tasks s.selected task listed (ap (has s.selected) named ∙ new)) in
          let spent : length task.outputs + unspent tasks (add s.selected key)
              ≤ unspent tasks s.selected =
            subst
              (λ j.
                length task.outputs + unspent tasks (add s.selected j) ≤ unspent tasks s.selected)
              named (unspent-add tasks s.selected task listed (ap (has s.selected) named ∙ new)) in
          let one = select_task-Returns fuel (n - 1) (omega arith) in
          let outputs = each_in (visit_output rules case tasks select) (output_selectors task) in
          let (s1, e1, f1, w1) =
            each_in-Returns IsKnown (n - 1) 0 select one task.depends_on added (known task listed)
              (omega arith) in
          let (s2, e2, f2, w2) =
            each_in-Returns (λ o. Unit {0}) (n - 1) 1 (visit_output rules case tasks select)
              (output-Returns (n - 1) select one) (output_selectors task) s1 (λ o m. tt)
              (omega arith) in
          let (s3, e3, f3, w3) =
            each_in-Returns IsKnown (n - 1) 0 select one (consumers_of tasks key) s2
              (consumers-IsKnown key) (omega arith) in
          let c1 = cost_of_zero task.depends_on in
          let c2 = cost_of_outputs (resolve_project_path task.project_root) task.outputs in
          let c3 = cost_of_zero (consumers_of tasks key) in
          let ran : (each_in select task.depends_on added
                >>= outputs
                >>= each_in select (consumers_of tasks key))
              ≡ ok s3 =
            ap (λ r. r >>= outputs >>= each_in select (consumers_of tasks key)) e1
            ∙ ap (λ r. r >>= each_in select (consumers_of tasks key)) e2
            ∙ e3 in
          (s3, ground arith, omega arith, omega arith)
    ]
