-- ===== src/Graph/Acyclic.antt =====
-- `assertAcyclic` of packages/tc-sdlc/src/graph/index.ts: a depth-first search over the tasks' keys.
-- A call of `visit` takes one unit of fuel for each level of the recursion.
pub mod Keys
pub mod Order
pub mod Complete
use tc_pipelines.Base.{
  ℕ, zero, suc, ◌≡◌, Bool, true, false, not, Option, none, some, List, [], ◌∷◌, map, JsString,
  length, has, add, delete, lookup, insert, nat_eq, list_eq, ◌==◌, if◌then◌else◌, Result, ok,
  throws, exhausted, fail, throw_if, ◌>>=◌, ◌>>◌, graph_duplicate_identity, graph_cycle,
  graph_unknown_dependency,
}
use tc_pipelines.Schema.{GraphTask}

abbrev pub TaskMap : Type 0
TaskMap = List (JsString × GraphTask)

abbrev pub key_of : GraphTask → JsString
key_of task = task.key

-- `new Map(tasks.map((task) => [task.key, task]))`, on top of a map
unfoldable pub index_tasks : List GraphTask → TaskMap → TaskMap
index_tasks [] m = m
index_tasks (task ∷ tasks) m = index_tasks tasks (insert task.key task m)

pub record Marks : Type 0 where
  pub visiting : List JsString
  pub visited : List JsString

-- A `for … of` loop over keys that carries the two sets.
unfoldable pub visit_all : (Marks → JsString → Result Marks) → Marks → List JsString → Result Marks
visit_all visit marks [] = ok marks
visit_all visit marks (key ∷ keys) = visit marks key >>= λ next. visit_all visit next keys

abbrev pub enter : Marks → JsString → Marks
enter marks key = record marks { visiting = add marks.visiting key }

abbrev pub leave : Marks → JsString → Marks
leave marks key = record { visiting = delete marks.visiting key; visited = add marks.visited key }

unfoldable pub visit : TaskMap → ℕ → Marks → JsString → Result Marks
visit by_key zero marks key = exhausted
visit by_key (suc fuel) marks key =
    let found = lookup key by_key in
    let expand : Result Marks = elim found [
      | none ↦ fail graph_unknown_dependency (key ∷ [])
      | some task ↦ visit_all (visit by_key fuel) (enter marks key) task.depends_on >>= λ after.
          ok (leave after key)
    ] in
    if has marks.visiting key
    then fail graph_cycle (key ∷ [])
    else if has marks.visited key
    then ok marks
    else expand

abbrev pub unmarked : Marks
unmarked = record { visiting = []; visited = [] }

unfoldable pub assert_acyclic : List GraphTask → Result (Unit {0})
assert_acyclic tasks =
    let by_key = index_tasks tasks [] in
    throw_if (not (length by_key == length tasks)) graph_duplicate_identity []
    >> (visit_all (visit by_key (suc (length tasks))) unmarked (map key_of tasks) >>= λ marks.
        ok tt)
