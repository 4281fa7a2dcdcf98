-- ===== src/Graph/Affected/Spec.antt =====
-- What it means for a task to be affected, as a relation, and the selections that hold only such.
use tc_pipelines.Base.{
  ℕ, zero, suc, ◌≡◌, ◌⊎◌, inl, inr, refl, subst, arith, true, List, [], ◌∷◌, some, JsString, ◌==◌,
  nat_eq, list_eq, has, add, has-add, eq_iff, lookup, Elem, Elem-append_cases, Result, ok, ◌>>=◌,
  >>=-eq-ok, Bool-cases, Option-cases,
}
use tc_pipelines.Schema.{GraphTask, PathCaseSensitivity}
use tc_pipelines.Graph.Paths.{normalise_path}
use tc_pipelines.Graph.Selector.{CaseRules, path_identity}
use tc_pipelines.Graph.Acyclic.{index_tasks}
use tc_pipelines.Graph.Affected.{
  Selection, each_in, enqueue_path, consumers_of, generated_consumers, output_selectors,
  visit_output, select_task, directly_affected, drain,
}

pub data Node : Type 0 where
  at_task : JsString → Node
  at_path : JsString → Node

pub List-cases {ℓ} :
    {A : Type ℓ} (xs : List A) → (xs ≡ []) ⊎ ((x : A) × (r : List A) × (xs ≡ x ∷ r))
List-cases [] = inl refl
List-cases (x ∷ xs) = inr (x, xs, refl)

module _ (rules : CaseRules) (case : PathCaseSensitivity) (tasks : List GraphTask)
    (changed : List JsString) where
  -- A path is affected if it changed or an affected task generates it; a task if an affected path
  -- selects it, if an affected task depends on it or it on an affected task, or if it consumes what
  -- an affected task generates.
  pub data Traced : Node → Type 0 where
    changes : (path : JsString) → Elem path changed → Traced (at_path (normalise_path path))
    consumes :
        (path key : JsString)
        → Traced (at_path path)
        → Elem key (directly_affected rules case tasks path)
        → Traced (at_task key)
    depends :
        (key : JsString) (task : GraphTask) (dep : JsString)
        → Traced (at_task key)
        → lookup key (index_tasks tasks []) ≡ some task
        → Elem dep task.depends_on
        → Traced (at_task dep)
    generates :
        (key : JsString) (task : GraphTask) (selector : JsString)
        → Traced (at_task key)
        → lookup key (index_tasks tasks []) ≡ some task
        → Elem selector (output_selectors task)
        → Traced (at_path selector)
    reads :
        (key : JsString) (task : GraphTask) (selector reader : JsString)
        → Traced (at_task key)
        → lookup key (index_tasks tasks []) ≡ some task
        → Elem selector (output_selectors task)
        → Elem reader (generated_consumers rules case tasks selector)
        → Traced (at_task reader)
    follows :
        (key : JsString) (task : GraphTask) (consumer : JsString)
        → Traced (at_task key)
        → lookup key (index_tasks tasks []) ≡ some task
        → Elem consumer (consumers_of tasks key)
        → Traced (at_task consumer)

  -- All that the selection holds is affected.
  pub record IsGood (state : Selection) : Type 0 where
    pub tasks_good : (key : JsString) → has state.selected key ≡ true → Traced (at_task key)
    pub paths_good : (path : JsString) → Elem path state.pending_paths → Traced (at_path path)

  -- A call that keeps the selection good, for arguments with a property.
  abbrev Keeps : {A : Type 0} → (A → Type 0) → (A → Selection → Result Selection) → Type 0
  Keeps {A} R body = (x : A) (s s' : Selection) → R x → IsGood s → body x s ≡ ok s' → IsGood s'

  each_in-Keeps :
      {A : Type 0} (R : A → Type 0) (body : A → Selection → Result Selection)
      → Keeps R body
      → (xs : List A) (s s' : Selection) → ((x : A) → Elem x xs → R x)
      → IsGood s
      → each_in body xs s ≡ ok s'
      → IsGood s'
  unfolding each_in
  each_in-Keeps R body one [] s s' h g e = let same : s ≡ s' = cc in subst IsGood same g
  each_in-Keeps R body one (x ∷ xs) s s' h g e =
      let (t, first, rest) = >>=-eq-ok (body x s) (each_in body xs) e in
      each_in-Keeps R body one xs t s' (λ y m. h y (inr m)) (one x s t (h x (inl refl)) g first)
        rest

  pub enqueue-IsGood :
      (path : JsString) (s : Selection)
      → Traced (at_path path)
      → IsGood s
      → IsGood (enqueue_path rules case path s)
  unfolding enqueue_path
  enqueue-IsGood path s a g = elim (Bool-cases (has s.seen_paths (path_identity rules case path))) [
    | inl seen ↦ rw seen g
    | inr new ↦ rw new (record {
      tasks_good = g.tasks_good;
      paths_good = λ p m. elim (Elem-append_cases p s.pending_paths (path ∷ []) m) [
        | inl old ↦ g.paths_good p old
        | inr (inl same) ↦ rw same a
        | inr (inr never) ↦ elim never [ ]
      ];
    })
  ]

  abbrev GoodKey : JsString → Type 0
  GoodKey key = Traced (at_task key)

  -- An output selector of an affected task.
  GoodOutput : JsString → Type 0
  GoodOutput selector =
      (key : JsString) × (task : GraphTask) × Traced (at_task key)
      × (lookup key (index_tasks tasks []) ≡ some task)
      × Elem selector (output_selectors task)

  output-Keeps :
      (call : JsString → Selection → Result Selection)
      → Keeps GoodKey call
      → Keeps GoodOutput (visit_output rules case tasks call)
  unfolding GoodOutput
  output-Keeps call one selector s s' (key, task, a, found, m) g e =
      each_in-Keeps GoodKey call one (generated_consumers rules case tasks selector)
        (enqueue_path rules case selector s) s'
        (λ reader n. reads key task selector reader a found m n)
        (enqueue-IsGood selector s (generates key task selector a found m) g) e

  select_task-Keeps : (fuel : ℕ) → Keeps GoodKey (select_task rules case tasks fuel)
  unfolding select_task GoodOutput
  select_task-Keeps zero key s s' a g e = absurd (cc)
  select_task-Keeps (suc fuel) key s s' a g e = elim (Bool-cases (has s.selected key)) [
    | inl old ↦ let same : s ≡ s' = ground arith in subst IsGood same g
    | inr new ↦ elim (Option-cases (lookup key (index_tasks tasks []))) [
      | inl missing ↦ absurd (ground arith)
      | inr (task, found) ↦
          let select = select_task rules case tasks fuel in
          let keeps = select_task-Keeps fuel in
          let added : Selection = record s { selected = add s.selected key } in
          let ran : (each_in select task.depends_on added
                >>= each_in (visit_output rules case tasks select) (output_selectors task)
                >>= each_in select (consumers_of tasks key))
              ≡ ok s' =
            ground arith in
          let (s2, before, last) =
            >>=-eq-ok
              (each_in select task.depends_on added
                >>= each_in (visit_output rules case tasks select) (output_selectors task))
              (each_in select (consumers_of tasks key)) ran in
          let (s1, first, middle) =
            >>=-eq-ok (each_in select task.depends_on added)
              (each_in (visit_output rules case tasks select) (output_selectors task)) before in
          let g0 : IsGood added = record {
            tasks_good = λ k h. elim (Bool-cases (key == k)) [
              | inl same ↦ subst GoodKey ((eq_iff key k).0 same) a
              | inr other ↦ g.tasks_good k (ground (arith, has-add s.selected key k))
            ];
            paths_good = g.paths_good;
          } in
          let g1 =
            each_in-Keeps GoodKey select keeps task.depends_on added s1
              (λ d m. depends key task d a found m) g0 first in
          let g2 =
            each_in-Keeps GoodOutput (visit_output rules case tasks select)
              (output-Keeps select keeps) (output_selectors task) s1 s2
              (λ o m. (key, task, a, found, m)) g1 middle in
          each_in-Keeps GoodKey select keeps (consumers_of tasks key) s2 s'
            (λ c m. follows key task c a found m) g2 last
    ]
  ]

  pub drain-IsGood :
      (fuel depth : ℕ) (s s' : Selection)
      → IsGood s
      → drain rules case tasks fuel depth s ≡ ok s'
      → IsGood s'
  unfolding drain
  drain-IsGood zero depth s s' g e = absurd (cc)
  drain-IsGood (suc fuel) depth s s' g e = elim (List-cases s.pending_paths) [
    | inl done ↦ let same : s ≡ s' = ground arith in subst IsGood same g
    | inr (path, paths, more) ↦
        let popped : Selection = record s { pending_paths = paths } in
        let call =
          each_in (select_task rules case tasks depth) (directly_affected rules case tasks path)
            popped in
        let ran : (call >>= drain rules case tasks fuel depth) ≡ ok s' = ground arith in
        let (t, first, rest) = >>=-eq-ok call (drain rules case tasks fuel depth) ran in
        let a = g.paths_good path (rw more (inl refl)) in
        let g0 : IsGood popped = record {
          tasks_good = g.tasks_good;
          paths_good = λ p m. g.paths_good p (rw more (inr m));
        } in
        let g1 =
          each_in-Keeps GoodKey (select_task rules case tasks depth) (select_task-Keeps depth)
            (directly_affected rules case tasks path) popped t (λ k m. consumes path k a m) g0
            first in
        drain-IsGood fuel depth t s' g1 rest
  ]
