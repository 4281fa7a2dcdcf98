-- ===== src/Graph/Acyclic/Complete.antt =====
-- Lemmas on the search of `assertAcyclic` (graph/index.ts): its fuel, and which tasks it accepts.
use tc_pipelines.Base.{
  ℕ, zero, suc, ◌≤◌, ◌<◌, ◌≡◌, ◌≢◌, inl, inr, refl, sym, ap, ◌∙◌, subst, true, false, not, List, [],
  ◌∷◌, map, JsString, length, has, add, lookup, has_iff, nat_eq, list_eq, ◌==◌, eq_iff, Elem,
  Distinct, has-add, has-delete, arith, Bool-cases, Option-cases, Result, ok, throws, exhausted,
  ◌>>=◌, >>=-eq-ok, keep, SdlcError, Result-cases,
}
use tc_pipelines.Schema.{GraphTask}
use tc_pipelines.Graph.Acyclic.{
  TaskMap, key_of, index_tasks, Marks, visit_all, enter, leave, visit, unmarked, assert_acyclic,
}
use tc_pipelines.Graph.Acyclic.Keys.{
  keys_of, known_task, lookup-index_tasks_sound, length-index-Distinct,
}
use tc_pipelines.Graph.Acyclic.Order.{IsRanked}

abbrev Same : List JsString → List JsString → Type 0
Same xs ys = (k : JsString) → has xs k ≡ has ys k

-- How many tasks are not on the path of the search.
pub free : List GraphTask → List JsString → ℕ
free tasks visiting = length (keep (λ t. not (has visiting t.key)) tasks)

free-Same : (tasks : List GraphTask) (v w : List JsString) → Same v w → free tasks v ≡ free tasks w
unfolding free
free-Same [] v w h = refl
free-Same (t ∷ tasks) v w h = ground (arith, free-Same tasks v w h, h t.key)

pub free-add-le :
    (tasks : List GraphTask) (v : List JsString) (k : JsString)
    → free tasks (add v k) ≤ free tasks v
unfolding free
free-add-le [] v k = omega arith
free-add-le (t ∷ tasks) v k = ground (arith, free-add-le tasks v k, has-add v k t.key)

pub free-add-lt :
    (tasks : List GraphTask) (v : List JsString) (t : GraphTask)
    → Elem t tasks
    → has v t.key ≡ false
    → free tasks (add v t.key) < free tasks v
unfolding free
free-add-lt [] v t m h = elim m [ ]
free-add-lt (u ∷ tasks) v t (inl e) h =
    let key : t.key ≡ u.key = ap key_of e in
    ground (arith, free-add-le tasks v t.key, has-add v t.key u.key, eq_iff t.key u.key)
free-add-lt (u ∷ tasks) v t (inr m) h =
    ground (arith, free-add-lt tasks v t m h, has-add v t.key u.key)

pub free-le : (tasks : List GraphTask) → free tasks [] ≤ length tasks
unfolding free
free-le [] = omega arith
free-le (t ∷ tasks) = ground (arith, free-le tasks)

abbrev Call : Type 0
Call = Marks → JsString → Result Marks

-- A call leaves the path as it was.
abbrev Returns : Call → Type 0
Returns call =
    (marks : Marks) (key : JsString) (after : Marks)
    → call marks key ≡ ok after
    → Same after.visiting marks.visiting

visit_all-Same :
    (call : Marks → JsString → Result Marks)
    → Returns call
    → (keys : List JsString) (marks after : Marks) → visit_all call marks keys ≡ ok after
    → Same after.visiting marks.visiting
unfolding visit_all
visit_all-Same call one [] marks after h k = let same : marks ≡ after = cc in cc
visit_all-Same call one (key ∷ keys) marks after h k =
    let (next, first, rest) = >>=-eq-ok (call marks key) (λ m. visit_all call m keys) h in
    visit_all-Same call one keys next after rest k ∙ one marks key next first k

visit-Returns : (by_key : TaskMap) (fuel : ℕ) → Returns (visit by_key fuel)
unfolding visit
visit-Returns by_key zero marks key after h k = absurd (cc)
visit-Returns by_key (suc fuel) marks key after h k = elim (Bool-cases (has marks.visiting key)) [
  | inl cyclic ↦ absurd (ground arith)
  | inr fresh ↦ elim (Bool-cases (has marks.visited key)) [
    | inl old ↦ let same : marks ≡ after = ground arith in cc
    | inr new ↦ elim (Option-cases (lookup key by_key)) [
      | inl missing ↦ absurd (ground arith)
      | inr (task, found) ↦
          let search = visit_all (visit by_key fuel) (enter marks key) task.depends_on in
          let ran : (search >>= λ m. ok (leave m key)) ≡ ok after = ground arith in
          let (inner, called, left) = >>=-eq-ok search (λ m. ok (leave m key)) ran in
          let same : leave inner key ≡ after = cc in
          let path =
            visit_all-Same (visit by_key fuel) (visit-Returns by_key fuel) task.depends_on
              (enter marks key) inner called k in
          subst (λ (a : Marks). has a.visiting k ≡ has marks.visiting k) same
            (ground (
              arith,
              path,
              has-add marks.visiting key k,
              has-delete inner.visiting key k,
              eq_iff key k,
            ))
    ]
  ]
]

module _ (tasks : List GraphTask) where
  abbrev by_key : TaskMap
  by_key = index_tasks tasks []

  -- With fuel above the number of tasks off the path a call ends.
  abbrev Ends : ℕ → Call → Type 0
  Ends fuel call =
      (marks : Marks) (key : JsString)
      → free tasks marks.visiting < fuel
      → call marks key ≢ exhausted

  visit_all-Ends :
      (fuel : ℕ) (call : Marks → JsString → Result Marks)
      → Returns call
      → Ends fuel call
      → (keys : List JsString) (marks : Marks) → free tasks marks.visiting < fuel
      → visit_all call marks keys ≢ exhausted
  unfolding visit_all
  visit_all-Ends fuel call same ends [] marks few h = cc
  visit_all-Ends fuel call same ends (key ∷ keys) marks few h =
      elim (Result-cases (call marks key)) [
        | inl (next, e) ↦
            let path = free-Same tasks next.visiting marks.visiting (same marks key next e) in
            visit_all-Ends fuel call same ends keys next (omega arith) (rw e at h)
        | inr (inl (err, e)) ↦ absurd (ground arith)
        | inr (inr e) ↦ ends marks key few e
      ]

  visit-Ends : (fuel : ℕ) → Ends fuel (visit by_key fuel)
  unfolding visit
  visit-Ends zero marks key few h = absurd (omega arith)
  visit-Ends (suc fuel) marks key few h = elim (Bool-cases (has marks.visiting key)) [
    | inl cyclic ↦ absurd (ground arith)
    | inr fresh ↦ elim (Bool-cases (has marks.visited key)) [
      | inl old ↦ absurd (ground arith)
      | inr new ↦ elim (Option-cases (lookup key by_key)) [
        | inl missing ↦ absurd (ground arith)
        | inr (task, found) ↦
            let (listed, named) = lookup-index_tasks_sound tasks key task found in
            let fewer : free tasks (add marks.visiting key) < free tasks marks.visiting =
              subst (λ k. free tasks (add marks.visiting k) < free tasks marks.visiting) named
                (free-add-lt tasks marks.visiting task listed (rw named fresh)) in
            elim (Result-cases (visit_all (visit by_key fuel) (enter marks key) task.depends_on)) [
              | inl (inner, e) ↦ absurd (ground arith)
              | inr (inl (err, e)) ↦ absurd (ground arith)
              | inr (inr e) ↦
                  visit_all-Ends fuel (visit by_key fuel) (visit-Returns by_key fuel)
                    (visit-Ends fuel) task.depends_on (enter marks key) (omega arith) e
            ]
      ]
    ]
  ]

-- The search ends on every list of tasks: the fuel is never used up.
pub assert_acyclic-ne-exhausted : (tasks : List GraphTask) → assert_acyclic tasks ≢ exhausted
unfolding assert_acyclic
assert_acyclic-ne-exhausted tasks h =
    let search =
      visit_all (visit (index_tasks tasks []) (suc (length tasks))) unmarked (map key_of tasks) in
    let start = free-le tasks in
    let ends =
      visit_all-Ends tasks (suc (length tasks)) (visit (index_tasks tasks []) (suc (length tasks)))
        (visit-Returns (index_tasks tasks []) (suc (length tasks)))
        (visit-Ends tasks (suc (length tasks))) (map key_of tasks) unmarked (omega arith) in
    elim (Result-cases search) [
      | inl (marks, e) ↦ ground arith
      | inr (inl (err, e)) ↦ ground arith
      | inr (inr e) ↦ ends e
    ]

-- Every dependency of every task is the key of a task.
abbrev pub AreKnown : List GraphTask → Type 0
AreKnown tasks =
    (task : GraphTask)
    → Elem task tasks
    → (dep : JsString) → Elem dep task.depends_on
    → has (keys_of tasks) dep ≡ true

module _ (rank : JsString → ℕ) (tasks : List GraphTask) (distinct : Distinct (keys_of tasks))
    (known : AreKnown tasks) (ranked : IsRanked rank tasks) where
  -- The key is known, and all keys on the path rank above it.
  abbrev IsBelow : List JsString → JsString → Type 0
  IsBelow visiting key =
      (has (keys_of tasks) key ≡ true)
      × ((k : JsString) → has visiting k ≡ true → rank key < rank k)

  abbrev Quiet : Call → Type 0
  Quiet call =
      (marks : Marks) (key : JsString) (e : SdlcError)
      → IsBelow marks.visiting key
      → call marks key ≢ throws e

  visit_all-Quiet :
      (call : Marks → JsString → Result Marks)
      → Returns call
      → Quiet call
      → (keys : List JsString) (marks : Marks) (e : SdlcError)
      → ((k : JsString) → Elem k keys → IsBelow marks.visiting k)
      → visit_all call marks keys ≢ throws e
  unfolding visit_all
  visit_all-Quiet call same quiet [] marks e below h = cc
  visit_all-Quiet call same quiet (key ∷ keys) marks e below h =
      elim (Result-cases (call marks key)) [
        | inl (next, first) ↦
            visit_all-Quiet call same quiet keys next e
              (λ k m.
                let (here, above) = below k (inr m) in
                (here, λ j on. above j (sym (same marks key next first j) ∙ on)))
              (rw first at h)
        | inr (inl (err, first)) ↦ quiet marks key err (below key (inl refl)) first
        | inr (inr out) ↦ absurd (ground arith)
      ]

  visit-Quiet : (fuel : ℕ) → Quiet (visit (index_tasks tasks []) fuel)
  unfolding visit
  visit-Quiet zero marks key e below h = cc
  visit-Quiet (suc fuel) marks key e (here, above) h =
      let (task, listed, named, found) = known_task tasks distinct key here in
      let deps_below : (k : JsString)
          → Elem k task.depends_on
          → IsBelow (add marks.visiting key) k =
        λ k m.
          let step = ranked task listed k m in
          let step' : rank k < rank key = rw named at step in
          (
            known task listed k m,
            λ j on. elim (Bool-cases (key == j)) [
              | inl same ↦ ground (arith, eq_iff key j)
              | inr other ↦
                  let up = above j (ground (arith, has-add marks.visiting key j)) in omega arith
            ],
          ) in
      elim (Bool-cases (has marks.visiting key)) [
        | inl cyclic ↦ let loop = above key cyclic in absurd (omega arith)
        | inr fresh ↦ elim (Bool-cases (has marks.visited key)) [
          | inl old ↦ absurd (ground arith)
          | inr new ↦
              elim (Result-cases
                (visit_all (visit (index_tasks tasks []) fuel) (enter marks key) task.depends_on)) [
                  | inl (inner, r) ↦ absurd (ground arith)
                  | inr (inl (err, r)) ↦
                      visit_all-Quiet (visit (index_tasks tasks []) fuel)
                        (visit-Returns (index_tasks tasks []) fuel) (visit-Quiet fuel)
                        task.depends_on (enter marks key) err deps_below r
                  | inr (inr r) ↦ absurd (ground arith)
                ]
        ]
      ]

-- The check accepts every list of tasks with distinct keys and known dependencies that some rank
-- puts strictly below their tasks, whatever the order of the list.
pub assert_acyclic_of_IsRanked :
    (rank : JsString → ℕ) (tasks : List GraphTask)
    → Distinct (keys_of tasks)
    → AreKnown tasks
    → IsRanked rank tasks
    → assert_acyclic tasks ≡ ok tt
unfolding assert_acyclic
assert_acyclic_of_IsRanked rank tasks distinct known ranked =
    let search =
      visit_all (visit (index_tasks tasks []) (suc (length tasks))) unmarked (map key_of tasks) in
    let same = length-index-Distinct tasks distinct in
    elim (Result-cases search) [
      | inl (marks, e) ↦ ground arith
      | inr (inl (err, e)) ↦ absurd (
          visit_all-Quiet rank tasks distinct known ranked
            (visit (index_tasks tasks []) (suc (length tasks)))
            (visit-Returns (index_tasks tasks []) (suc (length tasks)))
            (visit-Quiet rank tasks distinct known ranked (suc (length tasks))) (keys_of tasks)
            unmarked err (λ k m. ((has_iff (keys_of tasks) k).1 m, λ j on. cc)) e)
      | inr (inr e) ↦ let ends = assert_acyclic-ne-exhausted tasks in ground arith
    ]
