-- ===== src/Graph/Affected/Closure.antt =====
-- Lemmas on `selectTask` of `selectAffected`: what a call adds to the selection.
use tc_pipelines.Base.{
  ℕ, zero, suc, ◌≡◌, ◌⊎◌, inl, inr, refl, sym, subst, arith, true, List, [], ◌∷◌, some, JsString,
  ◌==◌, nat_eq, list_eq, has, add, has-add, eq_iff, lookup, Elem, Elem-append_left,
  Elem-append_right, Result, ok, ◌>>=◌, >>=-eq-ok, Bool-cases, Option-cases,
}
use tc_pipelines.Schema.{GraphTask, PathCaseSensitivity}
use tc_pipelines.Graph.Selector.{CaseRules, path_identity}
use tc_pipelines.Graph.Acyclic.{index_tasks}
use tc_pipelines.Graph.Affected.{
  Selection, each_in, enqueue_path, consumers_of, generated_consumers, output_selectors,
  visit_output, select_task,
}

module _ (rules : CaseRules) (case : PathCaseSensitivity) (tasks : List GraphTask) where
  abbrev Found : JsString → GraphTask → Type 0
  Found key task = lookup key (index_tasks tasks []) ≡ some task

  -- All that a selected task with this key makes affected is in the selection.
  pub record IsClosed (state : Selection) (key : JsString) : Type 0 where
    pub deps_in :
        (task : GraphTask)
        → lookup key (index_tasks tasks []) ≡ some task
        → (d : JsString) → Elem d task.depends_on
        → has state.selected d ≡ true
    pub outputs_seen :
        (task : GraphTask)
        → lookup key (index_tasks tasks []) ≡ some task
        → (o : JsString) → Elem o (output_selectors task)
        → has state.seen_paths (path_identity rules case o) ≡ true
    pub readers_in :
        (task : GraphTask)
        → lookup key (index_tasks tasks []) ≡ some task
        → (o : JsString) → Elem o (output_selectors task)
        → (c : JsString) → Elem c (generated_consumers rules case tasks o)
        → has state.selected c ≡ true
    pub consumers_in :
        (c : JsString) → Elem c (consumers_of tasks key) → has state.selected c ≡ true

  -- A path with this identity waits in the queue.
  abbrev pub Queued : Selection → JsString → Type 0
  Queued state identity =
      (p : JsString) × Elem p state.pending_paths × (path_identity rules case p ≡ identity)

  -- Nothing is lost; what is newly seen waits in the queue, and what is newly selected is closed.
  pub record Extends (s s' : Selection) : Type 0 where
    pub keeps_selected : (k : JsString) → has s.selected k ≡ true → has s'.selected k ≡ true
    pub keeps_seen : (i : JsString) → has s.seen_paths i ≡ true → has s'.seen_paths i ≡ true
    pub keeps_pending : (p : JsString) → Elem p s.pending_paths → Elem p s'.pending_paths
    pub queues :
        (i : JsString) → has s'.seen_paths i ≡ true → (has s.seen_paths i ≡ true) ⊎ Queued s' i
    pub closes :
        (k : JsString) → has s'.selected k ≡ true → (has s.selected k ≡ true) ⊎ IsClosed s' k

  pub Extends-refl : (s : Selection) → Extends s s
  Extends-refl s = record {
    keeps_selected = λ k h. h;
    keeps_seen = λ i h. h;
    keeps_pending = λ p m. m;
    queues = λ i h. inl h;
    closes = λ k h. inl h;
  }

  pub IsClosed-mono :
      (s s' : Selection) (k : JsString) → Extends s s' → IsClosed s k → IsClosed s' k
  IsClosed-mono s s' k x c = record {
    deps_in = λ t f d m. x.keeps_selected d (c.deps_in t f d m);
    outputs_seen = λ t f o m. x.keeps_seen (path_identity rules case o) (c.outputs_seen t f o m);
    readers_in = λ t f o m r n. x.keeps_selected r (c.readers_in t f o m r n);
    consumers_in = λ r n. x.keeps_selected r (c.consumers_in r n);
  }

  Queued-mono : (s s' : Selection) (i : JsString) → Extends s s' → Queued s i → Queued s' i
  Queued-mono s s' i x (p, m, e) = (p, x.keeps_pending p m, e)

  pub Extends-trans : (s t u : Selection) → Extends s t → Extends t u → Extends s u
  Extends-trans s t u x y = record {
    keeps_selected = λ k h. y.keeps_selected k (x.keeps_selected k h);
    keeps_seen = λ i h. y.keeps_seen i (x.keeps_seen i h);
    keeps_pending = λ p m. y.keeps_pending p (x.keeps_pending p m);
    queues = λ i h. elim (y.queues i h) [
      | inr waits ↦ inr waits
      | inl old ↦ elim (x.queues i old) [
        | inl older ↦ inl older
        | inr waits ↦ inr (Queued-mono t u i y waits)
      ]
    ];
    closes = λ k h. elim (y.closes k h) [
      | inr closed ↦ inr closed
      | inl old ↦ elim (x.closes k old) [
        | inl older ↦ inl older
        | inr closed ↦ inr (IsClosed-mono t u k y closed)
      ]
    ];
  }

  -- A call extends the selection and leaves a property of its argument behind.
  abbrev pub Extending :
      {A : Type 0} → (A → Selection → Type 0) → (A → Selection → Result Selection) → Type 0
  Extending {A} Q body = (x : A) (s s' : Selection) → body x s ≡ ok s' → Extends s s' × Q x s'

  abbrev pub Monotone : {A : Type 0} → (A → Selection → Type 0) → Type 0
  Monotone {A} Q = (x : A) (s s' : Selection) → Extends s s' → Q x s → Q x s'

  pub each_in-Extends :
      {A : Type 0} (Q : A → Selection → Type 0) (body : A → Selection → Result Selection)
      → Monotone Q
      → Extending Q body
      → (xs : List A) (s s' : Selection) → each_in body xs s ≡ ok s'
      → Extends s s' × ((x : A) → Elem x xs → Q x s')
  unfolding each_in
  each_in-Extends Q body mono one [] s s' e =
      let same : s ≡ s' = cc in (subst (Extends s) same (Extends-refl s), λ x m. elim m [ ])
  each_in-Extends Q body mono one (x ∷ xs) s s' e =
      let (t, first, rest) = >>=-eq-ok (body x s) (each_in body xs) e in
      let (ext, here) = one x s t first in
      let (exts, later) = each_in-Extends Q body mono one xs t s' rest in
      (
        Extends-trans s t s' ext exts,
        λ y m. elim m [
          | inl same ↦ subst (λ z. Q z s') (sym same) (mono x t s' exts here)
          | inr tail ↦ later y tail
        ],
      )

  abbrev pub IsIn : JsString → Selection → Type 0
  IsIn key state = has state.selected key ≡ true

  pub IsIn-mono : Monotone IsIn
  IsIn-mono key s s' x h = x.keeps_selected key h

  pub enqueue-Extends :
      (path : JsString) (s : Selection)
      → Extends s (enqueue_path rules case path s)
        × (has (enqueue_path rules case path s).seen_paths (path_identity rules case path) ≡ true)
  unfolding enqueue_path
  enqueue-Extends path s = elim (Bool-cases (has s.seen_paths (path_identity rules case path))) [
    | inl seen ↦ rw seen (Extends-refl s, seen)
    | inr new ↦
        let i = path_identity rules case path in
        rw new (
          record {
            keeps_selected = λ k h. h;
            keeps_seen = λ j h. ground (arith, has-add s.seen_paths i j);
            keeps_pending = λ p m. Elem-append_left p s.pending_paths (path ∷ []) m;
            queues = λ j h. elim (Bool-cases (i == j)) [
              | inl same ↦ inr (
                path,
                Elem-append_right path s.pending_paths (path ∷ []) (inl refl),
                (eq_iff i j).0 same,
              )
              | inr other ↦ inl (ground (arith, has-add s.seen_paths i j))
            ];
            closes = λ k h. inl h;
          },
          ground (arith, has-add s.seen_paths i i, eq_iff i i),
        )
  ]

  -- What the loop over outputs leaves behind for one of them.
  abbrev Generated : JsString → Selection → Type 0
  Generated o state =
      (has state.seen_paths (path_identity rules case o) ≡ true)
      × ((c : JsString)
          → Elem c (generated_consumers rules case tasks o)
          → has state.selected c ≡ true)

  Generated-mono : Monotone Generated
  Generated-mono o s s' x (seen, readers) =
      (x.keeps_seen (path_identity rules case o) seen, λ c m. x.keeps_selected c (readers c m))

  output-Extending :
      (call : JsString → Selection → Result Selection)
      → Extending IsIn call
      → Extending Generated (visit_output rules case tasks call)
  output-Extending call one o s s' e =
      let (queued, seen) = enqueue-Extends o s in
      let (ext, readers) =
        each_in-Extends IsIn call IsIn-mono one (generated_consumers rules case tasks o)
          (enqueue_path rules case o s) s' e in
      (
        Extends-trans s (enqueue_path rules case o s) s' queued ext,
        (ext.keeps_seen (path_identity rules case o) seen, readers),
      )

  -- The key that was added first is closed in the end.
  finish_key :
      (s s' : Selection) (key : JsString)
      → Extends (record s { selected = add s.selected key }) s'
      → IsClosed s' key
      → Extends s s' × IsIn key s'
  finish_key s s' key x closed = (
    record {
      keeps_selected = λ k h. x.keeps_selected k (ground (arith, has-add s.selected key k));
      keeps_seen = x.keeps_seen;
      keeps_pending = x.keeps_pending;
      queues = x.queues;
      closes = λ k h. elim (x.closes k h) [
        | inr done ↦ inr done
        | inl old ↦ elim (Bool-cases (key == k)) [
          | inl same ↦ inr (subst (IsClosed s') ((eq_iff key k).0 same) closed)
          | inr other ↦ inl (ground (arith, has-add s.selected key k))
        ]
      ];
    },
    x.keeps_selected key (ground (arith, has-add s.selected key key, eq_iff key key)),
  )

  pub select_task-Extending : (fuel : ℕ) → Extending IsIn (select_task rules case tasks fuel)
  unfolding select_task
  select_task-Extending zero key s s' e = absurd (cc)
  select_task-Extending (suc fuel) key s s' e = elim (Bool-cases (has s.selected key)) [
    | inl old ↦
        let same : s ≡ s' = ground arith in
        subst (λ t. Extends s t × IsIn key t) same (Extends-refl s, old)
    | inr new ↦ elim (Option-cases (lookup key (index_tasks tasks []))) [
      | inl missing ↦ absurd (ground arith)
      | inr (task, found) ↦
          let select = select_task rules case tasks fuel in
          let one = select_task-Extending fuel in
          let added : Selection = record s { selected = add s.selected key } in
          let outputs = each_in (visit_output rules case tasks select) (output_selectors task) in
          let ran : (each_in select task.depends_on added
                >>= outputs
                >>= each_in select (consumers_of tasks key))
              ≡ ok s' =
            ground arith in
          let (s2, before, last) =
            >>=-eq-ok (each_in select task.depends_on added >>= outputs)
              (each_in select (consumers_of tasks key)) ran in
          let (s1, first, middle) =
            >>=-eq-ok (each_in select task.depends_on added) outputs before in
          let (x1, deps) =
            each_in-Extends IsIn select IsIn-mono one task.depends_on added s1 first in
          let (x2, outs) =
            each_in-Extends Generated (visit_output rules case tasks select) Generated-mono
              (output-Extending select one) (output_selectors task) s1 s2 middle in
          let (x3, cons) =
            each_in-Extends IsIn select IsIn-mono one (consumers_of tasks key) s2 s' last in
          let x23 = Extends-trans s1 s2 s' x2 x3 in
          finish_key s s' key (Extends-trans added s1 s' x1 x23) (record {
            deps_in = λ t f d m.
                x23.keeps_selected d
                  (deps d (subst (λ (u : GraphTask). Elem d u.depends_on) (only task t found f) m));
            outputs_seen = λ t f o m.
                (Generated-mono o s2 s' x3 (
                  outs o (
                    subst (λ (u : GraphTask). Elem o (output_selectors u)) (only task t found f)
                      m))).0;
            readers_in = λ t f o m.
                (Generated-mono o s2 s' x3 (
                  outs o (
                    subst (λ (u : GraphTask). Elem o (output_selectors u)) (only task t found f)
                      m))).1;
            consumers_in = cons;
          })
    ]
  ]
    where
      only :
          (t u : GraphTask)
          → lookup key (index_tasks tasks []) ≡ some t
          → lookup key (index_tasks tasks []) ≡ some u
          → u ≡ t
      only t u f g = cc

pub enqueue_selected :
    (rules : CaseRules) (case : PathCaseSensitivity) (path : JsString) (s : Selection)
    (k : JsString)
    → has (enqueue_path rules case path s).selected k ≡ has s.selected k
unfolding enqueue_path
enqueue_selected rules case path s k = ground arith
