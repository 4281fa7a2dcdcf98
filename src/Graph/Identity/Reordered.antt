-- ===== src/Graph/Identity/Reordered.antt =====
-- The identity of a task does not depend on the order of its lists.
use mathlib.Core.List.{Permᴰ}
use mathlib.Core.List.Permᴰ.{nil, cons, swap, trans}
use tc_pipelines.Base.{
  ◌≡◌, refl, sym, ap, ◌∙◌, inl, inr, List, [], ◌∷◌, ◌++◌, map, JsString, js, Elem,
  Elem-append_cases, Elem-append_left, Elem-append_right, sorted, js_le, js_le-IsTotal,
  sort_by-Perm, Result, ok, for_each, for_each-ok, >>=-eq-ok, ◌>>=◌, ◌>>◌,
}
use tc_pipelines.Schema.{InputDigest, TaskDeclaration, TaskEvidenceDeclaration, or_empty}
use tc_pipelines.Canonical.{Hashing, digest}
use tc_pipelines.Graph.Paths.{normalise_path, assert_relative_path}
use tc_pipelines.Graph.Identity.{canonical_input_digests, task_json, identity_json, task_identity}
use tc_pipelines.Graph.Identity.Unordered.{canonical_input_digests-Perm}

Perm-map : {A B : Type 0} (f : A → B) {xs ys : List A} → Permᴰ xs ys → Permᴰ (map f xs) (map f ys)
Perm-map f nil = nil
Perm-map f (cons e p) = cons (ap f e) (Perm-map f p)
Perm-map f (swap d e) = swap (ap f d) (ap f e)
Perm-map f (trans p q) = trans (Perm-map f p) (Perm-map f q)

Perm-Elem : {A : Type 0} {xs ys : List A} (x : A) → Permᴰ xs ys → Elem x ys → Elem x xs
Perm-Elem x nil m = m
Perm-Elem x (cons e p) (inl h) = inl (h ∙ sym e)
Perm-Elem x (cons e p) (inr m) = inr (Perm-Elem x p m)
Perm-Elem x (swap d e) (inl h) = inr (inl (h ∙ sym e))
Perm-Elem x (swap d e) (inr (inl h)) = inl (h ∙ sym d)
Perm-Elem x (swap d e) (inr (inr m)) = inr (inr m)
Perm-Elem x (trans p q) m = Perm-Elem x p (Perm-Elem x q m)

for_each_intro :
    {A : Type 0} (body : A → Result (Unit {0})) (xs : List A)
    → ((x : A) → Elem x xs → body x ≡ ok tt)
    → for_each body xs ≡ ok tt
for_each_intro body [] f = refl
for_each_intro body (x ∷ xs) f =
    rw (f x (inl refl), for_each_intro body xs (λ y m. f y (inr m))) refl

sorted-Perm : {xs ys : List JsString} → Permᴰ xs ys → sorted xs ≡ sorted ys
unfolding sorted
sorted-Perm p = sort_by-Perm js_le js_le-IsTotal p

-- A task with its dependencies, inputs and outputs listed in another order.
abbrev pub reordered :
    TaskDeclaration → List JsString → List JsString → List JsString → TaskDeclaration
reordered task depends_on inputs outputs = record task {
  shape = record task.shape { depends_on = depends_on; inputs = inputs; outputs = outputs };
}

module _ (task : TaskDeclaration) {depends_on inputs outputs : List JsString}
    (depends : Permᴰ task.depends_on depends_on) (reads : Permᴰ task.inputs inputs)
    (writes : Permᴰ task.outputs outputs) where
  task_json-Perm : task_json (reordered task depends_on inputs outputs) ≡ task_json task
  unfolding task_json
  task_json-Perm =
      rw
        (
          sorted-Perm depends,
          sorted-Perm (Perm-map normalise_path reads),
          sorted-Perm (Perm-map normalise_path writes),
        )
        refl

  declared-Perm :
      (body : JsString → Result (Unit {0})) (shared : List JsString)
      → for_each body (task.inputs ++ shared ++ task.outputs) ≡ ok tt
      → for_each body (inputs ++ shared ++ outputs) ≡ ok tt
  declared-Perm body shared h =
      let all = task.inputs ++ shared ++ task.outputs in
      for_each_intro body (inputs ++ shared ++ outputs) (λ x m.
        for_each-ok body all x h (elim (Elem-append_cases x (inputs ++ shared) outputs m) [
          | inr last ↦
              Elem-append_right x (task.inputs ++ shared) task.outputs (Perm-Elem x writes last)
          | inl earlier ↦
              Elem-append_left x (task.inputs ++ shared) task.outputs
                (elim (Elem-append_cases x inputs shared earlier) [
                  | inl here ↦ Elem-append_left x task.inputs shared (Perm-Elem x reads here)
                  | inr middle ↦ Elem-append_right x task.inputs shared middle
                ])
        ]))

  -- A task that has an identity has the same one when its dependencies, inputs, outputs and input
  -- digests are given in another order.
  pub task_identity-Perm :
      (to_lower_case : JsString → JsString) (hashing : Hashing) (lock_digest identity : JsString)
      (digests digests' : List InputDigest)
      → Permᴰ digests digests'
      → task_identity to_lower_case hashing task digests lock_digest ≡ ok identity
      → task_identity to_lower_case hashing
          (reordered task depends_on inputs outputs)
          digests'
          lock_digest
        ≡ ok identity
  unfolding task_identity identity_json
  task_identity-Perm to_lower_case hashing lock_digest identity digests digests' resolved h =
      let declared = λ (path : JsString). assert_relative_path path (js "task declared path") in
      let written = λ (item : TaskEvidenceDeclaration).
        assert_relative_path item.path (js "task declared evidence path") in
      let paths = task.inputs ++ or_empty task.shared_inputs ++ task.outputs in
      let finish = λ (canonical : List InputDigest).
        digest hashing (identity_json task canonical lock_digest) in
      let third =
        canonical_input_digests to_lower_case digests >>= λ canonical. ok (finish canonical) in
      let second = for_each written (or_empty task.evidence) >> third in
      let (_, rooted, h1) =
        >>=-eq-ok (assert_relative_path task.project_root (js "task project root"))
          (λ _. for_each declared paths >> second) h in
      let (_, listed, h2) = >>=-eq-ok (for_each declared paths) (λ _. second) h1 in
      let (_, evident, h3) =
        >>=-eq-ok (for_each written (or_empty task.evidence)) (λ _. third) h2 in
      let (canonical, ran, last) =
        >>=-eq-ok (canonical_input_digests to_lower_case digests)
          (λ canonical. ok (finish canonical)) h3 in
      rw
        (
          rooted,
          declared-Perm declared (or_empty task.shared_inputs) listed,
          evident,
          canonical_input_digests-Perm to_lower_case digests digests' canonical resolved ran,
          task_json-Perm,
        )
        last
