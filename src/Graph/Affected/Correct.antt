-- ===== src/Graph/Affected/Correct.antt =====
-- `selectAffected` (graph/index.ts) as a whole, against the relation of Meaning.
use tc_pipelines.Base.{
  ℕ, suc, ◌+◌, ◌≡◌, ◌↔◌, inl, inr, refl, ap, subst, arith, true, List, [], ◌∷◌, map, keep, JsString,
  js, nat_eq, list_eq, has, length, Distinct, Elem, Elem-map, Elem-of_map, Elem-keep, ok, >>=-eq-ok,
}
use tc_pipelines.Schema.{GraphTask, SdlcGraph, PathCaseSensitivity, sensitive}
use tc_pipelines.Graph.Paths.{normalise_path, assert_relative_path}
use tc_pipelines.Graph.Selector.{CaseRules}
use tc_pipelines.Graph.Acyclic.Keys.{keys_of}
use tc_pipelines.Graph.Acyclic.Complete.{AreKnown, free, free-le}
use tc_pipelines.Graph.Affected.{
  Selection, enqueue_path, drain, enqueue_changed, nothing_selected, count_outputs, select_affected,
}
use tc_pipelines.Graph.Affected.Spec.{at_task, changes, IsGood, enqueue-IsGood, drain-IsGood}
use tc_pipelines.Graph.Affected.Meaning.{
  Affected, IsReader, IsAlike, directly_alike, Traced-Affected, Affected-Traced,
}
use tc_pipelines.Graph.Affected.Drain.{
  IsTracked, drain-IsTracked, enqueue_changed-IsTracked, Traced-reached,
}
use tc_pipelines.Graph.Affected.Totality.{unspent, unspent-nil-le}
use tc_pipelines.Graph.Affected.Queue.{enqueue_changed-returns, drain-returns}

pub sensitive-IsAlike :
    (rules : CaseRules) (tasks : List GraphTask) (changed : List JsString)
    → IsAlike rules sensitive tasks changed
sensitive-IsAlike rules tasks changed p q task listed same r =
    subst (IsReader rules sensitive task) same r

module _ (rules : CaseRules) (case : PathCaseSensitivity) (tasks : List GraphTask)
    (changed : List JsString) where
  abbrev Good : Selection → Type 0
  Good state = IsGood rules case tasks changed state

  enqueue_changed-IsGood :
      (paths : List JsString) (s s' : Selection)
      → ((p : JsString) → Elem p paths → Elem p changed)
      → Good s
      → enqueue_changed rules case tasks paths s ≡ ok s'
      → Good s'
  unfolding enqueue_changed
  enqueue_changed-IsGood [] s s' h g e = let same : s ≡ s' = cc in subst Good same g
  enqueue_changed-IsGood (p ∷ paths) s s' h g e =
      let t = enqueue_path rules case (normalise_path p) s in
      let (u, valid, rest) =
        >>=-eq-ok (assert_relative_path p (js "changed path"))
          (λ _. enqueue_changed rules case tasks paths t) e in
      enqueue_changed-IsGood paths t s' (λ q m. h q (inr m))
        (enqueue-IsGood rules case tasks changed (normalise_path p) s (changes p (h p (inl refl)))
          g)
        rest

  abbrev fuel : ℕ
  fuel = suc (length changed + count_outputs tasks)

  -- The final selection exists and holds the keys of the affected tasks.
  selection-Affected :
      Distinct (keys_of tasks)
      → AreKnown tasks
      → ((p : JsString) → Elem p changed → assert_relative_path p (js "changed path") ≡ ok tt)
      → IsAlike rules case tasks changed
      → (start last : Selection) × (enqueue_changed rules case tasks changed nothing_selected
          ≡ ok start)
        × (drain rules case tasks fuel (suc (length tasks)) start ≡ ok last)
        × ((key : JsString)
            → (has last.selected key ≡ true) ↔ Affected rules case tasks changed (at_task key))
  selection-Affected distinct known valid alike =
      let (start, began, same, queue) =
        enqueue_changed-returns rules case tasks changed nothing_selected valid in
      let same_unspent = ap (unspent tasks) same in
      let same_free = ap (free tasks) same in
      let spent = unspent-nil-le tasks in
      let unmarked = free-le tasks in
      let (last, drained) =
        drain-returns rules case tasks distinct known fuel (suc (length tasks)) start (omega arith)
          (omega arith) in
      let fresh : IsTracked rules case tasks nothing_selected = record {
        closed = λ k h. absurd (cc);
        tracked = λ i h. absurd (cc);
      } in
      let (inv, _, seen) =
        enqueue_changed-IsTracked rules case tasks changed nothing_selected start fresh (λ k. refl)
          began in
      let (inv', empty, kept) =
        drain-IsTracked rules case tasks fuel (suc (length tasks)) start last inv drained in
      let clean : Good nothing_selected = record {
        tasks_good = λ k h. absurd (cc);
        paths_good = λ p m. elim m [ ];
      } in
      let good =
        drain-IsGood rules case tasks changed fuel (suc (length tasks)) start last
          (enqueue_changed-IsGood changed nothing_selected start (λ p m. m) clean began) drained in
      (
        start,
        last,
        began,
        drained,
        λ key. (
          λ h. Traced-Affected rules case tasks changed (good.tasks_good key h),
          λ a.
              Traced-reached rules case tasks changed last
                (directly_alike rules case tasks changed alike) inv' empty
                (λ p m. kept _ (seen p m)) key
                (Affected-Traced rules case tasks changed distinct known a),
        ),
      )

-- If the keys of the tasks are distinct, the dependencies known, the changed paths accepted and paths
-- of one identity read by the same tasks, then `selectAffected` returns the identities of exactly the
-- tasks that the changed paths affect: all, if the declaration or the lock is affected; readers of
-- affected paths, dependencies and dependents of affected tasks, and readers of what an affected task
-- generates, where `selectorsOverlap` finds that they read it.
pub select_affected-Affected :
    (rules : CaseRules) (case : PathCaseSensitivity) (graph : SdlcGraph) (changed : List JsString)
    → Distinct (keys_of graph.tasks)
    → AreKnown graph.tasks
    → ((p : JsString) → Elem p changed → assert_relative_path p (js "changed path") ≡ ok tt)
    → IsAlike rules case graph.tasks changed
    → (identities : List JsString) × (select_affected rules case graph changed ≡ ok identities)
      × ((identity : JsString)
          → Elem identity identities ↔ (
              (task : GraphTask) × Elem task graph.tasks
              × (identity ≡ task.identity)
              × Affected rules case graph.tasks changed (at_task task.key)))
unfolding select_affected
select_affected-Affected rules case graph changed distinct known valid alike =
    let (start, last, began, drained, exact) =
      selection-Affected rules case graph.tasks changed distinct known valid alike in
    let chosen = keep (λ (task : GraphTask). has last.selected task.key) graph.tasks in
    (
      map (λ (task : GraphTask). task.identity) chosen,
      rw (began, drained),
      λ identity. (
        λ m.
            let (task, kept, named) =
              Elem-of_map (λ (task : GraphTask). task.identity) chosen identity m in
            let (listed, selected) =
              (Elem-keep (λ (t : GraphTask). has last.selected t.key) graph.tasks task).0 kept in
            (task, listed, named, (exact task.key).0 selected),
        λ (task, listed, named, affected).
            let kept =
              (Elem-keep (λ (t : GraphTask). has last.selected t.key) graph.tasks task).1
                (listed, (exact task.key).1 affected) in
            rw named (Elem-map (λ (t : GraphTask). t.identity) chosen task kept),
      ),
    )
