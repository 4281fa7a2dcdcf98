-- ===== src/Graph/Acyclic/Keys.antt =====
-- The map from keys to tasks: what it finds, and what its size says of the keys.
use tc_pipelines.Base.{
  suc, ◌+◌, ◌≤◌, ◌≡◌, ◌⊎◌, inl, inr, refl, sym, ◌∙◌, Bool, true, false, none, some, List, [], ◌∷◌,
  map, JsString, length, has, has_iff, Elem-of_map, lookup, insert, nat_eq, list_eq, ◌==◌, eq_iff,
  if◌then◌else◌, Elem, Distinct, lookup-insert, arith, Bool-cases,
}
use tc_pipelines.Schema.{GraphTask}
use tc_pipelines.Graph.Acyclic.{TaskMap, key_of, index_tasks}

abbrev pub keys_of : List GraphTask → List JsString
keys_of tasks = map key_of tasks

abbrev is_key : JsString → TaskMap → Bool
is_key k m = elim (lookup k m) [ none ↦ false | some t ↦ true ]

length-insert :
    (k : JsString) (t : GraphTask) (m : TaskMap)
    → length (insert k t m) ≡ (if is_key k m then length m else suc (length m))
unfolding insert
length-insert k t [] = refl
length-insert k t ((j, u) ∷ m) = ground (arith, length-insert k t m)

length-insert-le :
    (k : JsString) (t : GraphTask) (m : TaskMap) → length (insert k t m) ≤ suc (length m)
length-insert-le k t m = ground (arith, length-insert k t m)

length-index_tasks-le :
    (tasks : List GraphTask) (m : TaskMap) → length (index_tasks tasks m) ≤ length tasks + length m
unfolding index_tasks
length-index_tasks-le [] m = omega arith
length-index_tasks-le (t ∷ tasks) m =
    omega (arith, length-index_tasks-le tasks (insert t.key t m), length-insert-le t.key t m)

-- The tasks' keys are distinct, and none of them is a key of the map.
abbrev AreNew : List GraphTask → TaskMap → Type 0
AreNew tasks m = (k : JsString) → has (keys_of tasks) k ≡ true → lookup k m ≡ none

fresh_key :
    (t : GraphTask) (tasks : List GraphTask) (m : TaskMap)
    → length (index_tasks (t ∷ tasks) m) ≡ length (t ∷ tasks) + length m
    → is_key t.key m ≡ false
unfolding index_tasks
fresh_key t tasks m h =
    ground (arith, length-index_tasks-le tasks (insert t.key t m), length-insert t.key t m)

index_tasks-AreNew :
    (tasks : List GraphTask) (m : TaskMap)
    → length (index_tasks tasks m) ≡ length tasks + length m
    → Distinct (keys_of tasks) × AreNew tasks m
unfolding index_tasks
index_tasks-AreNew [] m h = (tt, λ k e. cc)
index_tasks-AreNew (t ∷ tasks) m h =
    let new : is_key t.key m ≡ false = fresh_key t tasks m h in
    let more : length (insert t.key t m) ≡ suc (length m) =
      ground (arith, length-insert t.key t m) in
    let (distinct, rest) = index_tasks-AreNew tasks (insert t.key t m) (omega arith) in
    (
      (
        elim (Bool-cases (has (keys_of tasks) t.key)) [
          | inl twice ↦
              let gone = rest t.key twice in
              ground (arith, lookup-insert t.key t.key t m, eq_iff t.key t.key)
          | inr once ↦ once
        ],
        distinct,
      ),
      λ k e. elim (Bool-cases (t.key == k)) [
        | inl same ↦ ground (arith, eq_iff t.key k)
        | inr other ↦ let gone = rest k (ground arith) in ground (arith, lookup-insert t.key k t m)
      ],
    )

-- If the map is as long as the list, no key stands twice.
pub keys-Distinct :
    (tasks : List GraphTask)
    → length (index_tasks tasks []) ≡ length tasks
    → Distinct (keys_of tasks)
keys-Distinct tasks h = (index_tasks-AreNew tasks [] (omega arith)).0

length-index_tasks :
    (tasks : List GraphTask) (m : TaskMap)
    → Distinct (keys_of tasks)
    → AreNew tasks m
    → length (index_tasks tasks m) ≡ length tasks + length m
unfolding index_tasks
length-index_tasks [] m d new = omega arith
length-index_tasks (t ∷ tasks) m (once, d) new =
    let gone : lookup t.key m ≡ none = new t.key (ground (arith, eq_iff t.key t.key)) in
    let more : length (insert t.key t m) ≡ suc (length m) =
      ground (arith, length-insert t.key t m) in
    let later =
      length-index_tasks tasks (insert t.key t m) d
        λ k e. ground (arith, lookup-insert t.key k t m, eq_iff t.key k, new k) in
    omega arith

pub length-index-Distinct :
    (tasks : List GraphTask)
    → Distinct (keys_of tasks)
    → length (index_tasks tasks []) ≡ length tasks
length-index-Distinct tasks d = let e = length-index_tasks tasks [] d (λ k h. refl) in omega arith

-- What the map finds under a key is a task of the list with that key, or was in the map before.
lookup-index_tasks_cases :
    (tasks : List GraphTask) (m : TaskMap) (k : JsString) (t : GraphTask)
    → lookup k (index_tasks tasks m) ≡ some t
    → Elem t tasks × (t.key ≡ k) ⊎ (lookup k m ≡ some t)
unfolding index_tasks
lookup-index_tasks_cases [] m k t h = inr h
lookup-index_tasks_cases (u ∷ tasks) m k t h =
    elim (lookup-index_tasks_cases tasks (insert u.key u m) k t h) [
      | inl (m', e) ↦ inl (inr m', e)
      | inr old ↦ elim (Bool-cases (u.key == k)) [
        | inl same ↦
            let e : u ≡ t = ground (arith, lookup-insert u.key k u m) in
            inl (inl (sym e), ground (arith, eq_iff u.key k))
        | inr other ↦ inr (ground (arith, lookup-insert u.key k u m))
      ]
    ]

pub lookup-index_tasks_sound :
    (tasks : List GraphTask) (k : JsString) (t : GraphTask)
    → lookup k (index_tasks tasks []) ≡ some t
    → Elem t tasks × (t.key ≡ k)
lookup-index_tasks_sound tasks k t h = elim (lookup-index_tasks_cases tasks [] k t h) [
  | inl found ↦ found
  | inr old ↦ absurd (cc)
]

lookup-index_tasks_old :
    (tasks : List GraphTask) (m : TaskMap) (k : JsString)
    → has (keys_of tasks) k ≡ false
    → lookup k (index_tasks tasks m) ≡ lookup k m
unfolding index_tasks
lookup-index_tasks_old [] m k h = refl
lookup-index_tasks_old (u ∷ tasks) m k h =
    lookup-index_tasks_old tasks (insert u.key u m) k (ground arith)
    ∙ ground (arith, lookup-insert u.key k u m)

lookup-index_tasks_new :
    (tasks : List GraphTask) (m : TaskMap) (t : GraphTask)
    → Distinct (keys_of tasks)
    → Elem t tasks
    → lookup t.key (index_tasks tasks m) ≡ some t
unfolding index_tasks
lookup-index_tasks_new [] m t d e = elim e [ ]
lookup-index_tasks_new (u ∷ tasks) m t (once, d) (inl same) = rw same (
    lookup-index_tasks_old tasks (insert u.key u m) u.key once
    ∙ ground (arith, lookup-insert u.key u.key u m, eq_iff u.key u.key))
lookup-index_tasks_new (u ∷ tasks) m t (once, d) (inr later) =
    lookup-index_tasks_new tasks (insert u.key u m) t d later

-- With distinct keys the map finds every task under its key.
pub lookup-index_tasks :
    (tasks : List GraphTask) (t : GraphTask)
    → Distinct (keys_of tasks)
    → Elem t tasks
    → lookup t.key (index_tasks tasks []) ≡ some t
lookup-index_tasks tasks t = lookup-index_tasks_new tasks [] t

-- A known key is the key of a task, which the map finds.
pub known_task :
    (tasks : List GraphTask)
    → Distinct (keys_of tasks)
    → (key : JsString) → has (keys_of tasks) key ≡ true
    → (task : GraphTask) × Elem task tasks
      × (task.key ≡ key)
      × (lookup key (index_tasks tasks []) ≡ some task)
known_task tasks distinct key h =
    let (task, listed, named) = Elem-of_map key_of tasks key ((has_iff (keys_of tasks) key).0 h) in
    (task, listed, sym named, rw named (lookup-index_tasks tasks task distinct listed))
