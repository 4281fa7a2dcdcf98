-- ===== src/Graph/Affected/Queue.antt =====
-- Lemmas on the two loops over paths of `selectAffected`: when they return.
use tc_pipelines.Base.{
  ℕ, zero, suc, ◌+◌, ◌≤◌, ◌<◌, ◌≡◌, inl, inr, refl, ap, ◌∙◌, arith, Bool, true, false, List, [],
  ◌∷◌, map, keep, JsString, js, nat_eq, list_eq, length, Distinct, Elem, Elem-of_map, Elem-keep,
  if◌then◌else◌, ok, ◌>>=◌, ◌>>◌,
}
use tc_pipelines.Schema.{GraphTask, PathCaseSensitivity}
use tc_pipelines.Graph.Paths.{normalise_path, assert_relative_path}
use tc_pipelines.Graph.Selector.{CaseRules, task_consumes_path}
use tc_pipelines.Graph.Acyclic.{key_of}
use tc_pipelines.Graph.Acyclic.Keys.{keys_of}
use tc_pipelines.Graph.Acyclic.Complete.{AreKnown, free}
use tc_pipelines.Graph.Affected.{
  Selection, each_in, enqueue_path, select_task, directly_affected, drain, enqueue_changed,
  is_configuration,
}
use tc_pipelines.Graph.Affected.Spec.{List-cases}
use tc_pipelines.Graph.Affected.Totality.{
  IsKnown, key-IsKnown, weight, cost_of_zero, each_in-Returns, enqueue-weight, select_task-Returns,
}

module _ (rules : CaseRules) (case : PathCaseSensitivity) (tasks : List GraphTask) where
  affected-IsKnown :
      (path k : JsString)
      → Elem k (directly_affected rules case tasks path)
      → IsKnown rules case tasks k
  unfolding directly_affected
  affected-IsKnown path k m =
      among (is_configuration rules case path)
        (λ (t : GraphTask). task_consumes_path rules case t.shape path) k m
    where
      among :
          (b : Bool) (p : GraphTask → Bool) (k : JsString)
          → Elem k (map key_of (if b then tasks else keep p tasks))
          → IsKnown rules case tasks k
      among true p k m =
          let (t, listed, e) = Elem-of_map key_of tasks k m in
          rw e (key-IsKnown rules case tasks t listed)
      among false p k m =
          let (t, kept, e) = Elem-of_map key_of (keep p tasks) k m in
          rw e (key-IsKnown rules case tasks t ((Elem-keep p tasks t).0 kept).0)

  -- Changed paths that are accepted fill the queue, each with at most one entry.
  pub enqueue_changed-returns :
      (changed : List JsString) (s : Selection)
      → ((p : JsString) → Elem p changed → assert_relative_path p (js "changed path") ≡ ok tt)
      → (s' : Selection) × (enqueue_changed rules case tasks changed s ≡ ok s')
        × (s'.selected ≡ s.selected)
        × (length s'.pending_paths ≤ length changed + length s.pending_paths)
  unfolding enqueue_changed
  enqueue_changed-returns [] s h = (s, refl, refl, omega arith)
  enqueue_changed-returns (p ∷ changed) s h =
      let (same, longer) = enqueue-weight rules case tasks (normalise_path p) s in
      let (t, e, kept, bound) =
        enqueue_changed-returns changed (enqueue_path rules case (normalise_path p) s)
          (λ q m. h q (inr m)) in
      (
        t,
        ap
              (λ r.
                r
                >> enqueue_changed rules case tasks changed
                    (enqueue_path rules case (normalise_path p) s))
              (h p (inl refl))
            ∙ e,
        kept ∙ same,
        omega arith,
      )

  module _ (distinct : Distinct (keys_of tasks)) (known : AreKnown tasks) where
    -- The loop returns if its fuel exceeds the weight of the selection.
    pub drain-returns :
        (fuel depth : ℕ) (s : Selection)
        → weight tasks s < fuel
        → free tasks s.selected < depth
        → (s' : Selection) × (drain rules case tasks fuel depth s ≡ ok s')
    unfolding drain
    drain-returns zero depth s w d = absurd (omega arith)
    drain-returns (suc fuel) depth s w d = elim (List-cases s.pending_paths) [
      | inl done ↦ (s, ground arith)
      | inr (path, paths, more) ↦
          let popped : Selection = record s { pending_paths = paths } in
          let keys = directly_affected rules case tasks path in
          let n = free tasks s.selected in
          let shorter : length s.pending_paths ≡ suc (length paths) = ap length more in
          let (t, e, f, w') =
            each_in-Returns rules case tasks (IsKnown rules case tasks) n 0
              (select_task rules case tasks depth)
              (select_task-Returns rules case tasks distinct known depth n d) keys popped
              (affected-IsKnown path) (omega arith) in
          let no_cost = cost_of_zero keys in
          let (u, e') = drain-returns fuel depth t (omega arith) (omega arith) in
          let ran : (each_in (select_task rules case tasks depth) keys popped
                >>= drain rules case tasks fuel depth)
              ≡ ok u =
            ap (λ r. r >>= drain rules case tasks fuel depth) e ∙ e' in
          (u, ground arith)
    ]
