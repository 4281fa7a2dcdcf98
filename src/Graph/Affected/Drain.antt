-- ===== src/Graph/Affected/Drain.antt =====
-- Lemmas on the loop over the pending paths of `selectAffected`: what it has seen and handled.
use tc_pipelines.Base.{
  ℕ, zero, suc, ◌≡◌, ◌⊎◌, inl, inr, sym, ap, ◌∙◌, subst, arith, true, false, List, [], ◌∷◌,
  JsString, js, nat_eq, list_eq, has, Elem, ok, ◌>>=◌, >>=-eq-ok,
}
use tc_pipelines.Schema.{GraphTask, PathCaseSensitivity}
use tc_pipelines.Graph.Paths.{normalise_path, assert_relative_path}
use tc_pipelines.Graph.Selector.{CaseRules, path_identity}
use tc_pipelines.Graph.Affected.{
  Selection, each_in, enqueue_path, select_task, directly_affected, drain, enqueue_changed,
}
use tc_pipelines.Graph.Affected.Spec.{
  Node, at_task, at_path, Traced, changes, consumes, depends, generates, reads, follows, List-cases,
}
use tc_pipelines.Graph.Affected.Closure.{
  IsClosed, Queued, Extends, IsClosed-mono, each_in-Extends, IsIn, IsIn-mono, enqueue-Extends,
  select_task-Extending, enqueue_selected,
}

module _ (rules : CaseRules) (case : PathCaseSensitivity) (tasks : List GraphTask) where
  -- A path with this identity has had its tasks selected.
  abbrev Handled : Selection → JsString → Type 0
  Handled state identity =
      (p : JsString) × (path_identity rules case p ≡ identity)
      × ((k : JsString)
          → Elem k (directly_affected rules case tasks p)
          → has state.selected k ≡ true)

  -- What holds at the head of the loop.
  pub record IsTracked (state : Selection) : Type 0 where
    pub closed : (k : JsString) → has state.selected k ≡ true → IsClosed rules case tasks state k
    pub tracked :
        (i : JsString)
        → has state.seen_paths i ≡ true
        → Queued rules case tasks state i ⊎ Handled state i

  Handled-mono :
      (s s' : Selection) (i : JsString) → Extends rules case tasks s s' → Handled s i → Handled s' i
  Handled-mono s s' i x (p, e, h) = (p, e, λ k m. x.keeps_selected k (h k m))

  Queued-cons :
      (s : Selection) (path : JsString) (paths : List JsString) (i : JsString)
      → s.pending_paths ≡ path ∷ paths
      → Queued rules case tasks s i
      → (path_identity rules case path ≡ i)
        ⊎ Queued rules case tasks (record s { pending_paths = paths }) i
  Queued-cons s path paths i e (p, m, named) = elim (subst (Elem p) e m) [
    | inl same ↦ inl (ap (path_identity rules case) (sym same) ∙ named)
    | inr later ↦ inr (p, later, named)
  ]

  -- One round of the loop.
  round-IsTracked :
      (s t : Selection) (path : JsString) (paths : List JsString)
      → s.pending_paths ≡ path ∷ paths
      → IsTracked s
      → Extends rules case tasks (record s { pending_paths = paths }) t
      → ((k : JsString)
          → Elem k (directly_affected rules case tasks path)
          → has t.selected k ≡ true)
      → IsTracked t
  round-IsTracked s t path paths more inv x reached =
      let popped : Selection = record s { pending_paths = paths } in
      record {
        closed = λ k h. elim (x.closes k h) [
          | inr done ↦ done
          | inl old ↦ IsClosed-mono rules case tasks popped t k x (still (inv.closed k old))
        ];
        tracked = λ i h. elim (x.queues i h) [
          | inr waits ↦ inl waits
          | inl old ↦ elim (inv.tracked i old) [
            | inr (p, e, done) ↦ inr (p, e, λ k m. x.keeps_selected k (done k m))
            | inl waits ↦ elim (Queued-cons s path paths i more waits) [
              | inl this ↦ inr (path, this, reached)
              | inr (p, m, e) ↦ inl (p, x.keeps_pending p m, e)
            ]
          ]
        ];
      }
    where
      still :
          {k : JsString}
          → IsClosed rules case tasks s k
          → IsClosed rules case tasks (record s { pending_paths = paths }) k
      still c = record {
        deps_in = c.deps_in;
        outputs_seen = c.outputs_seen;
        readers_in = c.readers_in;
        consumers_in = c.consumers_in;
      }

  pub drain-IsTracked :
      (fuel depth : ℕ) (s s' : Selection)
      → IsTracked s
      → drain rules case tasks fuel depth s ≡ ok s'
      → IsTracked s'
        × (s'.pending_paths ≡ [])
        × ((i : JsString) → has s.seen_paths i ≡ true → has s'.seen_paths i ≡ true)
  unfolding drain
  drain-IsTracked zero depth s s' inv e = absurd (cc)
  drain-IsTracked (suc fuel) depth s s' inv e = elim (List-cases s.pending_paths) [
    | inl done ↦
        let same : s ≡ s' = ground arith in
        subst
          (λ (t : Selection).
            IsTracked t
            × (t.pending_paths ≡ [])
            × ((i : JsString) → has s.seen_paths i ≡ true → has t.seen_paths i ≡ true))
          same (inv, done, λ i h. h)
    | inr (path, paths, more) ↦
        let popped : Selection = record s { pending_paths = paths } in
        let call =
          each_in (select_task rules case tasks depth) (directly_affected rules case tasks path)
            popped in
        let ran : (call >>= drain rules case tasks fuel depth) ≡ ok s' = ground arith in
        let (t, first, rest) = >>=-eq-ok call (drain rules case tasks fuel depth) ran in
        let (x, reached) =
          each_in-Extends rules case tasks (IsIn rules case tasks)
            (select_task rules case tasks depth) (IsIn-mono rules case tasks)
            (select_task-Extending rules case tasks depth) (directly_affected rules case tasks path)
            popped t first in
        let (inv', empty, kept) =
          drain-IsTracked fuel depth t s' (round-IsTracked s t path paths more inv x reached)
            rest in
        (inv', empty, λ i h. kept i (x.keeps_seen i h))
  ]

  pub enqueue_changed-IsTracked :
      (changed : List JsString) (s s' : Selection)
      → IsTracked s
      → ((k : JsString) → has s.selected k ≡ false)
      → enqueue_changed rules case tasks changed s ≡ ok s'
      → IsTracked s'
        × ((i : JsString) → has s.seen_paths i ≡ true → has s'.seen_paths i ≡ true)
        × ((p : JsString)
            → Elem p changed
            → has s'.seen_paths (path_identity rules case (normalise_path p)) ≡ true)
  unfolding enqueue_changed
  enqueue_changed-IsTracked [] s s' inv none_yet e =
      let same : s ≡ s' = cc in
      subst
        (λ (t : Selection).
          IsTracked t
          × ((i : JsString) → has s.seen_paths i ≡ true → has t.seen_paths i ≡ true)
          × ((p : JsString)
              → Elem p []
              → has t.seen_paths (path_identity rules case (normalise_path p)) ≡ true))
        same (inv, (λ i h. h), λ p m. elim m [ ])
  enqueue_changed-IsTracked (path ∷ changed) s s' inv none_yet e =
      let (u, valid, rest) =
        >>=-eq-ok (assert_relative_path path (js "changed path"))
          (λ _.
            enqueue_changed rules case tasks changed
              (enqueue_path rules case (normalise_path path) s))
          e in
      let t = enqueue_path rules case (normalise_path path) s in
      let (x, seen) = enqueue-Extends rules case tasks (normalise_path path) s in
      let none_then = same_selected (normalise_path path) s in
      let start : IsTracked t = record {
        closed = λ k h. absurd (let before = none_yet k in let now = none_then k in cc);
        tracked = λ i h. elim (x.queues i h) [
          | inr waits ↦ inl waits
          | inl old ↦ elim (inv.tracked i old) [
            | inl (p, m, named) ↦ inl (p, x.keeps_pending p m, named)
            | inr done ↦ inr (Handled-mono s t i x done)
          ]
        ];
      } in
      let (inv', kept, all_seen) =
        enqueue_changed-IsTracked changed t s' start (λ k. none_then k ∙ none_yet k) rest in
      (
        inv',
        (λ i h. kept i (x.keeps_seen i h)),
        λ p m. elim m [
          | inl same ↦
              subst (λ q. has s'.seen_paths (path_identity rules case (normalise_path q)) ≡ true)
                (sym same) (kept (path_identity rules case (normalise_path path)) seen)
          | inr later ↦ all_seen p later
        ],
      )
    where
      same_selected :
          (p : JsString) (r : Selection) (k : JsString)
          → has (enqueue_path rules case p r).selected k ≡ has r.selected k
      same_selected p r k = enqueue_selected rules case p r k

  -- With nothing left in the queue, all that is affected has been seen or selected, if paths with
  -- one identity affect the same tasks directly.
  pub Traced-reached :
      (changed : List JsString) (s : Selection)
      → ((p q k : JsString)
          → path_identity rules case p ≡ path_identity rules case q
          → Elem k (directly_affected rules case tasks p)
          → Elem k (directly_affected rules case tasks q))
      → IsTracked s
      → s.pending_paths ≡ []
      → ((p : JsString)
          → Elem p changed
          → has s.seen_paths (path_identity rules case (normalise_path p)) ≡ true)
      → (key : JsString) → Traced rules case tasks changed (at_task key)
      → has s.selected key ≡ true
  Traced-reached changed s alike inv empty start = task_reached
    where
      Reached : Node → Type 0
      Reached node = elim node [
        | at_task k ↦ has s.selected k ≡ true
        | at_path p ↦ has s.seen_paths (path_identity rules case p) ≡ true
      ]

      reached : {node : Node} → Traced rules case tasks changed node → Reached node
      reached (changes path m) = start path m
      reached (consumes path key a m) =
          elim (inv.tracked (path_identity rules case path) (reached a)) [
            | inl (p, listed, e) ↦ elim (subst (Elem p) empty listed) [ ]
            | inr (p, e, done) ↦ done key (alike path p key (sym e) m)
          ]
      reached (depends key task dep a f m) = (inv.closed key (reached a)).deps_in task f dep m
      reached (generates key task o a f m) = (inv.closed key (reached a)).outputs_seen task f o m
      reached (reads key task o reader a f m n) =
          (inv.closed key (reached a)).readers_in task f o m reader n
      reached (follows key task consumer a f m) =
          (inv.closed key (reached a)).consumers_in consumer m

      task_reached :
          (key : JsString)
          → Traced rules case tasks changed (at_task key)
          → has s.selected key ≡ true
      task_reached key a = reached a
