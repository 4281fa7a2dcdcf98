-- ===== src/Graph/Affected/Meaning.antt =====
-- What it means for a task of a graph to be affected by changed paths, said without the helper
-- functions of `selectAffected` (graph/index.ts), and that the relation of Spec says the same.
use tc_pipelines.Base.{
  ◌≡◌, ◌⊎◌, inl, inr, refl, sym, ap, ◌∙◌, subst, arith, Bool, true, false, ◌||◌, List, [], ◌∷◌,
  ◌++◌, JsString, js, slash, ◌==◌, nat_eq, list_eq, eq_iff, eq_refl, starts_with, if◌then◌else◌,
  flat_map, keep, any, Elem, Elem-map, Elem-of_map, Elem-keep, Elem-any, any-Elem, Elem-append_left,
  Elem-append_right, Elem-append_cases, Distinct, Bool-cases,
}
use tc_pipelines.Schema.{GraphTask, PathCaseSensitivity, or_empty}
use tc_pipelines.Graph.Paths.{normalise_path}
use tc_pipelines.Graph.Selector.{
  CaseRules, selects, path_identity, resolve_project_path, is_empty, task_consumes_path,
}
use tc_pipelines.Graph.Acyclic.Keys.{
  keys_of, known_task, lookup-index_tasks, lookup-index_tasks_sound,
}
use tc_pipelines.Graph.Acyclic.Complete.{AreKnown}
use tc_pipelines.Graph.Affected.{
  selectors_overlap, consumes_generated, consumers_of, generated_consumers, is_configuration,
  directly_affected,
}
use tc_pipelines.Graph.Affected.Spec.{
  Node, at_task, at_path, Traced, changes, consumes, depends, generates, reads, follows,
}

module _ (rules : CaseRules) (case : PathCaseSensitivity) where
  -- A task reads a path: an input or a shared input selects it, or the task has neither and the path
  -- is its project's root or below it.
  pub data IsReader (task : GraphTask) (path : JsString) : Type 0 where
    by_input :
        (input : JsString)
        → Elem input task.inputs
        → selects rules case (resolve_project_path task.project_root input) (normalise_path path)
          ≡ true
        → IsReader task path
    by_shared_input :
        (input : JsString)
        → Elem input (or_empty task.shared_inputs)
        → selects rules case input (normalise_path path) ≡ true
        → IsReader task path
    by_root :
        task.inputs ≡ []
        → or_empty task.shared_inputs ≡ []
        → (path_identity rules case (normalise_path path)
            ≡ path_identity rules case task.project_root)
          ⊎ (starts_with
                (path_identity rules case task.project_root ++ slash ∷ [])
                (path_identity rules case (normalise_path path))
              ≡ true)
        → IsReader task path

  -- A task reads what an output selector generates: an input or a shared input overlaps it.
  pub data IsGeneratedReader (task : GraphTask) (output : JsString) : Type 0 where
    by_generated_input :
        (input : JsString)
        → Elem input task.inputs
        → selectors_overlap rules case output (resolve_project_path task.project_root input) ≡ true
        → IsGeneratedReader task output
    by_generated_shared_input :
        (input : JsString)
        → Elem input (or_empty task.shared_inputs)
        → selectors_overlap rules case output input ≡ true
        → IsGeneratedReader task output

  module _ (tasks : List GraphTask) (changed : List JsString) where
    -- A path is affected if it changed or an affected task generates it. A task is affected if it reads
    -- an affected path, if an affected path is the declaration or the lock, if an affected task depends
    -- on it or it on an affected task, or if it reads what an affected task generates.
    pub data Affected : Node → Type 0 where
      by_change : (path : JsString) → Elem path changed → Affected (at_path (normalise_path path))
      by_reading :
          (path : JsString) (task : GraphTask)
          → Affected (at_path path)
          → Elem task tasks
          → IsReader task path
          → Affected (at_task task.key)
      by_configuration :
          (path : JsString) (task : GraphTask)
          → Affected (at_path path)
          → Elem task tasks
          → (path_identity rules case path ≡ js "sdlc.yaml")
            ⊎ (path_identity rules case path ≡ js "tc-sdlc.lock")
          → Affected (at_task task.key)
      by_dependent :
          (task : GraphTask) (dependency : JsString)
          → Affected (at_task task.key)
          → Elem task tasks
          → Elem dependency task.depends_on
          → Affected (at_task dependency)
      by_dependency :
          (task : GraphTask) (dependency : JsString)
          → Affected (at_task dependency)
          → Elem task tasks
          → Elem dependency task.depends_on
          → Affected (at_task task.key)
      by_generation :
          (task : GraphTask) (output : JsString)
          → Affected (at_task task.key)
          → Elem task tasks
          → Elem output task.outputs
          → Affected (at_path (resolve_project_path task.project_root output))
      by_generated :
          (task reader : GraphTask) (output : JsString)
          → Affected (at_task task.key)
          → Elem task tasks
          → Elem output task.outputs
          → Elem reader tasks
          → IsGeneratedReader reader (resolve_project_path task.project_root output)
          → Affected (at_task reader.key)

or_cases : (a b : Bool) → (a || b) ≡ true → (a ≡ true) ⊎ (b ≡ true)
or_cases true b h = inl refl
or_cases false b h = inr h

is_empty-nil : (xs : List JsString) → is_empty xs ≡ true → xs ≡ []
is_empty-nil [] h = refl
is_empty-nil (x ∷ xs) h = absurd (cc)

-- The dependencies of one task that are a key, each with the task's key.
abbrev matches : JsString → JsString → List JsString → List JsString
matches key consumer =
    flat_map (λ (dependency : JsString). if dependency == key then consumer ∷ [] else [])

matches_sound :
    (key consumer : JsString) (deps : List JsString) (k : JsString)
    → Elem k (matches key consumer deps)
    → Elem key deps × (k ≡ consumer)
matches_sound key consumer [] k m = elim m [ ]
matches_sound key consumer (d ∷ deps) k m = elim (Bool-cases (d == key)) [
  | inr other ↦
      let (found, same) = matches_sound key consumer deps k (rw other at m) in (inr found, same)
  | inl here ↦
      elim (Elem-append_cases k (consumer ∷ []) (matches key consumer deps) (rw here at m)) [
        | inl (inl same) ↦ (inl (sym ((eq_iff d key).0 here)), same)
        | inl (inr never) ↦ elim never [ ]
        | inr later ↦
            let (found, same) = matches_sound key consumer deps k later in (inr found, same)
      ]
]

matches_complete :
    (key consumer : JsString) (deps : List JsString)
    → Elem key deps
    → Elem consumer (matches key consumer deps)
matches_complete key consumer [] m = elim m [ ]
matches_complete key consumer (d ∷ deps) (inl e) =
    let here : (d == key) ≡ true = rw e (eq_refl d) in rw here (inl refl)
matches_complete key consumer (d ∷ deps) (inr m) =
    Elem-append_right consumer (if d == key then consumer ∷ [] else []) (matches key consumer deps)
      (matches_complete key consumer deps m)

consumers_of_sound :
    (tasks : List GraphTask) (key k : JsString)
    → Elem k (consumers_of tasks key)
    → (task : GraphTask) × Elem task tasks × Elem key task.depends_on × (k ≡ task.key)
unfolding consumers_of
consumers_of_sound [] key k m = elim m [ ]
consumers_of_sound (t ∷ tasks) key k m =
    elim (Elem-append_cases k (matches key t.key t.depends_on) (consumers_of tasks key) m) [
      | inl here ↦
          let (found, same) = matches_sound key t.key t.depends_on k here in
          (t, inl refl, found, same)
      | inr later ↦
          let (u, listed, found, same) = consumers_of_sound tasks key k later in
          (u, inr listed, found, same)
    ]

consumers_of_complete :
    (tasks : List GraphTask) (key : JsString) (task : GraphTask)
    → Elem task tasks
    → Elem key task.depends_on
    → Elem task.key (consumers_of tasks key)
unfolding consumers_of
consumers_of_complete [] key task m n = elim m [ ]
consumers_of_complete (t ∷ tasks) key task (inl e) n =
    Elem-append_left task.key (matches key t.key t.depends_on) (consumers_of tasks key) (
      subst (λ (u : GraphTask). Elem task.key (matches key u.key u.depends_on)) e
        (matches_complete key task.key task.depends_on n))
consumers_of_complete (t ∷ tasks) key task (inr m) n =
    Elem-append_right task.key (matches key t.key t.depends_on) (consumers_of tasks key)
      (consumers_of_complete tasks key task m n)

module _ (rules : CaseRules) (case : PathCaseSensitivity) where
  consumes_path_sound :
      (task : GraphTask) (path : JsString)
      → task_consumes_path rules case task.shape path ≡ true
      → IsReader rules case task path
  unfolding task_consumes_path
  consumes_path_sound task path h =
      let canonical = normalise_path path in
      let own = λ (input : JsString).
        selects rules case (resolve_project_path task.project_root input) canonical in
      let shared = λ (input : JsString). selects rules case input canonical in
      elim (Bool-cases (any own task.inputs)) [
        | inl hit ↦ let (input, m, e) = Elem-any own task.inputs hit in by_input input m e
        | inr missed ↦ elim (Bool-cases (any shared (or_empty task.shared_inputs))) [
          | inl hit ↦
              let (input, m, e) = Elem-any shared (or_empty task.shared_inputs) hit in
              by_shared_input input m e
          | inr none_shared ↦
              by_root (is_empty-nil task.inputs (ground arith))
                (is_empty-nil (or_empty task.shared_inputs) (ground arith))
                (elim (or_cases
                  (path_identity rules case canonical == path_identity rules case task.project_root)
                  (starts_with (path_identity rules case task.project_root ++ slash ∷ [])
                    (path_identity rules case canonical))
                  (ground arith)) [ inl same ↦ inl ((eq_iff _ _).0 same) | inr below ↦ inr below ])
        ]
      ]

  consumes_path_complete :
      (task : GraphTask) (path : JsString)
      → IsReader rules case task path
      → task_consumes_path rules case task.shape path ≡ true
  unfolding task_consumes_path
  consumes_path_complete task path (by_input input m e) =
      let found =
        any-Elem
          (λ (i : JsString).
            selects rules case (resolve_project_path task.project_root i) (normalise_path path))
          task.inputs input m e in
      ground (arith, found)
  consumes_path_complete task path (by_shared_input input m e) =
      let found =
        any-Elem (λ (i : JsString). selects rules case i (normalise_path path))
          (or_empty task.shared_inputs) input m e in
      ground (arith, found)
  consumes_path_complete task path (by_root no_input no_shared (inl same)) =
      let one = ap is_empty no_input in
      let two = ap is_empty no_shared in
      let three =
        (eq_iff (path_identity rules case (normalise_path path))
            (path_identity rules case task.project_root)).1
          same in
      ground (arith, one, two, three)
  consumes_path_complete task path (by_root no_input no_shared (inr below)) =
      let one = ap is_empty no_input in
      let two = ap is_empty no_shared in ground (arith, one, two, below)

  generated_sound :
      (task : GraphTask) (output : JsString)
      → consumes_generated rules case task output ≡ true
      → IsGeneratedReader rules case task output
  unfolding consumes_generated
  generated_sound task output h =
      let own = λ (input : JsString).
        selectors_overlap rules case output (resolve_project_path task.project_root input) in
      let shared = selectors_overlap rules case output in
      elim (or_cases (any own task.inputs) (any shared (or_empty task.shared_inputs)) h) [
        | inl hit ↦ let (input, m, e) = Elem-any own task.inputs hit in by_generated_input input m e
        | inr hit ↦
            let (input, m, e) = Elem-any shared (or_empty task.shared_inputs) hit in
            by_generated_shared_input input m e
      ]

  generated_complete :
      (task : GraphTask) (output : JsString)
      → IsGeneratedReader rules case task output
      → consumes_generated rules case task output ≡ true
  unfolding consumes_generated
  generated_complete task output (by_generated_input input m e) =
      let found =
        any-Elem
          (λ (i : JsString).
            selectors_overlap rules case output (resolve_project_path task.project_root i))
          task.inputs input m e in
      ground (arith, found)
  generated_complete task output (by_generated_shared_input input m e) =
      let found =
        any-Elem (selectors_overlap rules case output) (or_empty task.shared_inputs) input m e in
      ground (arith, found)

  module _ (tasks : List GraphTask) (changed : List JsString) where
    -- The keys that one path selects are those of its readers, or all for the configuration.
    direct_sound :
        (path key : JsString)
        → Affected rules case tasks changed (at_path path)
        → Elem key (directly_affected rules case tasks path)
        → Affected rules case tasks changed (at_task key)
    unfolding directly_affected
    direct_sound path key a m =
        let key_of = λ (t : GraphTask). t.key in
        let readers = λ (t : GraphTask). task_consumes_path rules case t.shape path in
        let identity = path_identity rules case path in
        elim (Bool-cases (is_configuration rules case path)) [
          | inr ordinary ↦
              let (task, kept, named) =
                Elem-of_map key_of (keep readers tasks) key (rw ordinary at m) in
              let (listed, read) = (Elem-keep readers tasks task).0 kept in
              subst (λ k. Affected rules case tasks changed (at_task k)) (sym named)
                (by_reading path task a listed (consumes_path_sound task path read))
          | inl special ↦
              let (task, listed, named) = Elem-of_map key_of tasks key (rw special at m) in
              let which =
                or_cases (identity == js "sdlc.yaml") (identity == js "tc-sdlc.lock") special in
              subst (λ k. Affected rules case tasks changed (at_task k)) (sym named)
                (by_configuration path task a listed
                  (elim which [ inl e ↦ inl ((eq_iff _ _).0 e) | inr e ↦ inr ((eq_iff _ _).0 e) ]))
        ]

    direct_configuration :
        (path : JsString) (task : GraphTask)
        → Elem task tasks
        → is_configuration rules case path ≡ true
        → Elem task.key (directly_affected rules case tasks path)
    unfolding directly_affected
    direct_configuration path task m special =
        rw special (Elem-map (λ (t : GraphTask). t.key) tasks task m)

    direct_reading :
        (path : JsString) (task : GraphTask)
        → Elem task tasks
        → IsReader rules case task path
        → Elem task.key (directly_affected rules case tasks path)
    unfolding directly_affected
    direct_reading path task m r =
        let readers = λ (t : GraphTask). task_consumes_path rules case t.shape path in
        let kept = (Elem-keep readers tasks task).1 (m, consumes_path_complete task path r) in
        elim (Bool-cases (is_configuration rules case path)) [
          | inl special ↦ rw special (Elem-map (λ (t : GraphTask). t.key) tasks task m)
          | inr ordinary ↦
              rw ordinary (Elem-map (λ (t : GraphTask). t.key) (keep readers tasks) task kept)
        ]

    configuration_test :
        (path : JsString)
        → (path_identity rules case path ≡ js "sdlc.yaml")
          ⊎ (path_identity rules case path ≡ js "tc-sdlc.lock")
        → is_configuration rules case path ≡ true
    configuration_test path (inl e) = let same = (eq_iff _ _).1 e in ground (arith, same)
    configuration_test path (inr e) = let same = (eq_iff _ _).1 e in ground (arith, same)

    pub Traced-Affected :
        {node : Node}
        → Traced rules case tasks changed node
        → Affected rules case tasks changed node
    unfolding generated_consumers
    Traced-Affected (changes path m) = by_change path m
    Traced-Affected (consumes path key a m) = direct_sound path key (Traced-Affected a) m
    Traced-Affected (depends key task dep a found m) =
        let (listed, named) = lookup-index_tasks_sound tasks key task found in
        by_dependent task dep
          (subst (λ k. Affected rules case tasks changed (at_task k)) (sym named)
            (Traced-Affected a))
          listed m
    Traced-Affected (generates key task selector a found m) =
        let (listed, named) = lookup-index_tasks_sound tasks key task found in
        let (output, n, same) =
          Elem-of_map (resolve_project_path task.project_root) task.outputs selector m in
        subst (λ k. Affected rules case tasks changed (at_path k)) (sym same)
          (by_generation task output
            (subst (λ k. Affected rules case tasks changed (at_task k)) (sym named)
              (Traced-Affected a))
            listed n)
    Traced-Affected (reads key task selector reader a found m r) =
        let (listed, named) = lookup-index_tasks_sound tasks key task found in
        let (output, n, same) =
          Elem-of_map (resolve_project_path task.project_root) task.outputs selector m in
        let test = λ (t : GraphTask). consumes_generated rules case t selector in
        let (other, kept, called) =
          Elem-of_map (λ (t : GraphTask). t.key) (keep test tasks) reader r in
        let (present, overlaps) = (Elem-keep test tasks other).0 kept in
        subst (λ k. Affected rules case tasks changed (at_task k)) (sym called)
          (by_generated task other output
            (subst (λ k. Affected rules case tasks changed (at_task k)) (sym named)
              (Traced-Affected a))
            listed n present
            (subst (IsGeneratedReader rules case other) same
              (generated_sound other selector overlaps)))
    Traced-Affected (follows key task consumer a found m) =
        let (other, listed, depends_on, called) = consumers_of_sound tasks key consumer m in
        subst (λ k. Affected rules case tasks changed (at_task k)) (sym called)
          (by_dependency other key (Traced-Affected a) listed depends_on)

    pub Affected-Traced :
        Distinct (keys_of tasks)
        → AreKnown tasks
        → {node : Node} → Affected rules case tasks changed node
        → Traced rules case tasks changed node
    unfolding generated_consumers
    Affected-Traced distinct known (by_change path m) = changes path m
    Affected-Traced distinct known (by_reading path task a m r) =
        consumes path task.key (Affected-Traced distinct known a) (direct_reading path task m r)
    Affected-Traced distinct known (by_configuration path task a m special) =
        consumes path task.key (Affected-Traced distinct known a)
          (direct_configuration path task m (configuration_test path special))
    Affected-Traced distinct known (by_dependent task dep a m n) =
        depends task.key task dep (Affected-Traced distinct known a)
          (lookup-index_tasks tasks task distinct m) n
    Affected-Traced distinct known (by_dependency task dep a m n) =
        let (other, _, _, found) = known_task tasks distinct dep (known task m dep n) in
        follows dep other task.key (Affected-Traced distinct known a) found
          (consumers_of_complete tasks dep task m n)
    Affected-Traced distinct known (by_generation task output a m n) =
        generates task.key task (resolve_project_path task.project_root output)
          (Affected-Traced distinct known a) (lookup-index_tasks tasks task distinct m)
          (Elem-map (resolve_project_path task.project_root) task.outputs output n)
    Affected-Traced distinct known (by_generated task reader output a m n present overlaps) =
        let selector = resolve_project_path task.project_root output in
        let test = λ (t : GraphTask). consumes_generated rules case t selector in
        reads task.key task selector reader.key (Affected-Traced distinct known a)
          (lookup-index_tasks tasks task distinct m)
          (Elem-map (resolve_project_path task.project_root) task.outputs output n)
          (Elem-map (λ (t : GraphTask). t.key) (keep test tasks) reader
            ((Elem-keep test tasks reader).1
              (present, generated_complete reader selector overlaps)))

    -- Paths that the platform does not tell apart are read by the same tasks.
    abbrev pub IsAlike : Type 0
    IsAlike =
        (p q : JsString) (task : GraphTask)
        → Elem task tasks
        → path_identity rules case p ≡ path_identity rules case q
        → IsReader rules case task p
        → IsReader rules case task q

    pub directly_alike :
        IsAlike
        → (p q key : JsString) → path_identity rules case p ≡ path_identity rules case q
        → Elem key (directly_affected rules case tasks p)
        → Elem key (directly_affected rules case tasks q)
    unfolding directly_affected
    directly_alike alike p q key same m =
        let readers = λ (r : JsString) (t : GraphTask). task_consumes_path rules case t.shape r in
        let equal : is_configuration rules case p ≡ is_configuration rules case q =
          ap (λ (i : JsString). i == js "sdlc.yaml" || i == js "tc-sdlc.lock") same in
        elim (Bool-cases (is_configuration rules case p)) [
          | inl special ↦ rw (sym equal ∙ special) (rw special at m)
          | inr ordinary ↦
              let (task, kept, named) =
                Elem-of_map (λ (t : GraphTask). t.key) (keep (readers p) tasks) key
                  (rw ordinary at m) in
              let (listed, read) = (Elem-keep (readers p) tasks task).0 kept in
              let other =
                consumes_path_complete task q
                  (alike p q task listed same (consumes_path_sound task p read)) in
              rw (sym equal ∙ ordinary, named)
                (Elem-map (λ (t : GraphTask). t.key) (keep (readers q) tasks) task
                  ((Elem-keep (readers q) tasks task).1 (listed, other)))
        ]
