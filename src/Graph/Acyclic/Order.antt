-- ===== src/Graph/Acyclic/Order.antt =====
-- Lemmas on the search of `assertAcyclic` (graph/index.ts): the order in which it leaves the keys.
use tc_pipelines.Base.{
  ℕ, zero, suc, ◌<◌, ◌≡◌, ◌⊎◌, inl, inr, sym, subst, true, some, List, [], ◌∷◌, ◌++◌, map, JsString,
  length, has, add, lookup, nat_eq, list_eq, ◌==◌, eq_iff, if◌then◌else◌, Elem, Distinct,
  has-append, has-add, arith, Bool-cases, Option-cases, Result, ok, ◌>>=◌, >>=-eq-ok, Elem-map,
}
use tc_pipelines.Schema.{GraphTask}
use tc_pipelines.Graph.Acyclic.{
  TaskMap, key_of, index_tasks, Marks, visit_all, enter, leave, visit, unmarked, assert_acyclic,
}
use tc_pipelines.Graph.Acyclic.Keys.{keys_of, lookup-index_tasks, keys-Distinct}

-- Every key of `small` is one of `large`.
abbrev pub Within : List JsString → List JsString → Type 0
Within small large = (k : JsString) → has small k ≡ true → has large k ≡ true

abbrev pub Known : List JsString → List JsString → Type 0
Known seen keys = (k : JsString) → Elem k keys → has seen k ≡ true

module _ (by_key : TaskMap) where
  -- The key's task is there, and its dependencies stand in `seen`.
  abbrev pub IsBacked : List JsString → JsString → Type 0
  IsBacked seen key =
      (task : GraphTask) × (lookup key by_key ≡ some task) × Known seen task.depends_on

  -- Each key of the list is backed by `seen` and the keys before it.
  abbrev pub IsOrdered : List JsString → List JsString → Type 0
  IsOrdered seen [] = Unit
  IsOrdered seen (key ∷ keys) = IsBacked seen key × IsOrdered (key ∷ seen) keys

  IsBacked-mono :
      (seen more : List JsString) (key : JsString)
      → Within seen more
      → IsBacked seen key
      → IsBacked more key
  IsBacked-mono seen more key w (task, found, known) = (task, found, λ k m. w k (known k m))

  IsOrdered-snoc :
      (keys seen : List JsString) (key : JsString)
      → IsOrdered seen keys
      → IsBacked (keys ++ seen) key
      → IsOrdered seen (keys ++ key ∷ [])
  IsOrdered-snoc [] seen key o b = (b, tt)
  IsOrdered-snoc (k ∷ keys) seen key (b, o) last = (
    b,
    IsOrdered-snoc keys (k ∷ seen) key o (
        IsBacked-mono (k ∷ (keys ++ seen)) (keys ++ k ∷ seen) key
          (λ j h. ground (arith, has-append keys seen j, has-append keys (k ∷ seen) j)) last),
  )

  IsOrdered-add :
      (keys : List JsString) (key : JsString)
      → IsOrdered [] keys
      → IsBacked keys key
      → IsOrdered [] (add keys key)
  unfolding add
  IsOrdered-add keys key o b = elim (Bool-cases (has keys key)) [
    | inl old ↦ rw old o
    | inr new ↦ rw new (
        IsOrdered-snoc keys [] key o
          (IsBacked-mono keys (keys ++ []) key (λ j h. ground (arith, has-append keys [] j)) b))
  ]

  -- What a call does to the visited keys: they stay ordered, only grow, and hold the keys called for.
  pub record Grows (before after : List JsString) (keys : List JsString) : Type 0 where
    pub ordered : IsOrdered [] after
    pub kept : Within before after
    pub reached : Known after keys

  Visits : (Marks → JsString → Result Marks) → Type 0
  Visits call =
      (marks : Marks) (key : JsString) (after : Marks)
      → IsOrdered [] marks.visited
      → call marks key ≡ ok after
      → Grows marks.visited after.visited (key ∷ [])

  visit_all-Grows :
      (call : Marks → JsString → Result Marks)
      → Visits call
      → (keys : List JsString) (marks after : Marks) → IsOrdered [] marks.visited
      → visit_all call marks keys ≡ ok after
      → Grows marks.visited after.visited keys
  unfolding visit_all Visits
  visit_all-Grows call one [] marks after o h =
      let same : marks ≡ after = cc in
      subst (λ (a : Marks). Grows marks.visited a.visited []) same
        (record { ordered = o; kept = λ k e. e; reached = λ k m. elim m [ ] })
  visit_all-Grows call one (key ∷ keys) marks after o h =
      let (next, first, rest) = >>=-eq-ok (call marks key) (λ m. visit_all call m keys) h in
      let g = one marks key next o first in
      let gs = visit_all-Grows call one keys next after g.ordered rest in
      record {
        ordered = gs.ordered;
        kept = λ k e. gs.kept k (g.kept k e);
        reached = λ k m. elim m [
          | inl here ↦ gs.kept k (g.reached k (inl here))
          | inr later ↦ gs.reached k later
        ];
      }

  expand-Grows :
      (fuel : ℕ)
      → Visits (visit by_key fuel)
      → (marks : Marks) (key : JsString) (task : GraphTask) (after : Marks)
      → IsOrdered [] marks.visited
      → lookup key by_key ≡ some task
      → (visit_all (visit by_key fuel) (enter marks key) task.depends_on >>= λ m. ok (leave m key))
        ≡ ok after
      → Grows marks.visited after.visited (key ∷ [])
  expand-Grows fuel ih marks key task after o found h =
      let (inner, called, left) =
        >>=-eq-ok (visit_all (visit by_key fuel) (enter marks key) task.depends_on)
          (λ m. ok (leave m key)) h in
      let g =
        visit_all-Grows (visit by_key fuel) ih task.depends_on (enter marks key) inner o called in
      let same : leave inner key ≡ after = cc in
      subst (λ (a : Marks). Grows marks.visited a.visited (key ∷ [])) same
        (record {
          ordered = IsOrdered-add inner.visited key g.ordered (task, found, g.reached);
          kept = λ k e. let old = g.kept k e in ground (arith, has-add inner.visited key k);
          reached = λ k m. elim m [
            | inl here ↦ ground (arith, has-add inner.visited key k, eq_iff key k)
            | inr later ↦ elim later [ ]
          ];
        })

  visit-Grows : (fuel : ℕ) → Visits (visit by_key fuel)
  unfolding visit Visits
  visit-Grows zero marks key after o h = cc
  visit-Grows (suc fuel) marks key after o h = elim (Bool-cases (has marks.visiting key)) [
    | inl cyclic ↦ absurd (ground arith)
    | inr fresh ↦ elim (Bool-cases (has marks.visited key)) [
      | inl old ↦
          let same : marks ≡ after = ground arith in
          subst (λ (a : Marks). Grows marks.visited a.visited (key ∷ [])) same
            (record {
              ordered = o;
              kept = λ k e. e;
              reached = λ k m. elim m [ inl here ↦ rw here old | inr later ↦ elim later [ ] ];
            })
      | inr new ↦ elim (Option-cases (lookup key by_key)) [
        | inl missing ↦ absurd (ground arith)
        | inr (task, found) ↦
            expand-Grows fuel (visit-Grows fuel) marks key task after o found (ground arith)
      ]
    ]
  ]

-- The position of a key's first occurrence.
abbrev pub index_of : List JsString → JsString → ℕ
index_of [] k = 0
index_of (j ∷ keys) k = if j == k then 0 else suc (index_of keys k)

IsOrdered-index :
    (by_key : TaskMap) (keys seen : List JsString) (key : JsString) (task : GraphTask)
    (dep : JsString)
    → IsOrdered by_key seen keys
    → has keys key ≡ true
    → lookup key by_key ≡ some task
    → Elem dep task.depends_on
    → (has seen dep ≡ true) ⊎ (index_of keys dep < index_of keys key)
IsOrdered-index by_key [] seen key task dep o h found m = absurd (cc)
IsOrdered-index by_key (j ∷ keys) seen key task dep (b, o) h found m =
    elim (Bool-cases (j == key)) [
      | inl same ↦
          let e : j ≡ key = (eq_iff j key).0 same in
          let e' : b.0 ≡ task = cc (b.1) in
          inl (b.2 dep (subst (λ (t : GraphTask). Elem dep t.depends_on) (sym e') m))
      | inr other ↦
          elim (IsOrdered-index by_key keys (j ∷ seen) key task dep o (ground arith) found m) [
            | inl known ↦ elim (Bool-cases (j == dep)) [
              | inl head ↦ inr (ground arith)
              | inr tail ↦ inl (ground arith)
            ]
            | inr below ↦ inr (ground arith)
          ]
    ]

-- `rank` puts every dependency of a task strictly below the task.
abbrev pub IsRanked : (JsString → ℕ) → List GraphTask → Type 0
IsRanked rank tasks =
    (task : GraphTask)
    → Elem task tasks
    → (dep : JsString) → Elem dep task.depends_on
    → rank dep < rank task.key

accepted :
    (tasks : List GraphTask)
    → assert_acyclic tasks ≡ ok tt
    → (length (index_tasks tasks []) ≡ length tasks)
      × (marks : Marks) × (visit_all
            (visit (index_tasks tasks []) (suc (length tasks)))
            unmarked
            (map key_of tasks)
          ≡ ok marks)
unfolding assert_acyclic
accepted tasks h =
    let search =
      visit_all (visit (index_tasks tasks []) (suc (length tasks))) unmarked (map key_of tasks) in
    let done : Marks → Result (Unit {0}) = λ marks. ok tt in
    elim (Bool-cases (length (index_tasks tasks []) == length tasks)) [
      | inl same ↦
          let ran : (search >>= done) ≡ ok tt = ground arith in
          let (marks, e, _) = >>=-eq-ok search done ran in (ground arith, marks, e)
      | inr differ ↦ absurd (ground arith)
    ]

-- If the check accepts, then no key stands twice and some rank puts every dependency of every task
-- strictly below the task: the dependencies have no cycle.
pub assert_acyclic-IsRanked :
    (tasks : List GraphTask)
    → assert_acyclic tasks ≡ ok tt
    → Distinct (keys_of tasks) × (rank : JsString → ℕ) × IsRanked rank tasks
assert_acyclic-IsRanked tasks h =
    let by_key = index_tasks tasks [] in
    let (same, marks, visited) = accepted tasks h in
    let distinct = keys-Distinct tasks same in
    let g =
      visit_all-Grows by_key (visit by_key (suc (length tasks)))
        (visit-Grows by_key (suc (length tasks))) (keys_of tasks) unmarked marks tt visited in
    (
      distinct,
      index_of marks.visited,
      λ task m dep k.
          elim (IsOrdered-index by_key marks.visited [] task.key task dep g.ordered
            (g.reached task.key (Elem-map key_of tasks task m))
            (lookup-index_tasks tasks task distinct m) k) [
              | inl seen ↦ absurd (cc)
              | inr below ↦ below
            ],
    )
