-- ===== src/Tests/Acyclic.antt =====
-- The cycle check on the sample graph and on a cycle.
use tc_pipelines.Base.{
  ℕ, true, ◌<◌, All, All-elem, Elem, has, ◌≡◌, ◌≢◌, refl, List, [], ◌∷◌, JsString, js, ok,
  exhausted, fail, graph_cycle, insert, add, delete, list_beq, Distinct, arith, list_eq, nat_eq,
  ◌==◌, if◌then◌else◌,
}
use tc_pipelines.Schema.{GraphTask}
use tc_pipelines.Graph.Acyclic.{index_tasks, visit_all, visit, assert_acyclic}
use tc_pipelines.Graph.Acyclic.Keys.{keys_of}
use tc_pipelines.Graph.Acyclic.Order.{IsRanked, assert_acyclic-IsRanked}
use tc_pipelines.Graph.Acyclic.Complete.{
  AreKnown, assert_acyclic-ne-exhausted, assert_acyclic_of_IsRanked,
}
use tc_pipelines.Tests.Samples.{task, build, check, qualify, chain}

runs : Unit {0}
unfolding assert_acyclic visit visit_all index_tasks insert add delete list_beq
runs = tt

pub chain_accepted : assert_acyclic chain ≡ ok tt
unfolding runs
chain_accepted = refl

abbrev cycle : List GraphTask
cycle = task (js "a") 1 (js "b" ∷ []) ∷ task (js "b") 1 (js "a" ∷ []) ∷ []

cycle_rejected : assert_acyclic cycle ≡ fail graph_cycle (js "a" ∷ [])
unfolding runs
cycle_rejected = refl

assert_acyclic-IsRanked_example :
    Distinct (keys_of chain) × (rank : JsString → ℕ) × IsRanked rank chain
assert_acyclic-IsRanked_example = assert_acyclic-IsRanked chain chain_accepted

assert_acyclic-ne-exhausted_example : assert_acyclic cycle ≢ exhausted
assert_acyclic-ne-exhausted_example = assert_acyclic-ne-exhausted cycle

abbrev pub depth : JsString → ℕ
depth key = if key == js "build" then 0 else if key == js "check" then 1 else 2

pub chain-Distinct : Distinct (keys_of chain)
unfolding list_beq
chain-Distinct = (refl, (refl, (refl, tt)))

pub chain-AreKnown : AreKnown chain
unfolding list_beq
chain-AreKnown t m =
    All-elem
      (λ (u : GraphTask). (dep : JsString) → Elem dep u.depends_on → has (keys_of chain) dep ≡ true)
      chain t (deps qualify (refl, (refl, tt)), (deps check (refl, tt), (deps build tt, tt))) m
  where
    deps :
        (u : GraphTask)
        → All (λ d. has (keys_of chain) d ≡ true) u.depends_on
        → (dep : JsString) → Elem dep u.depends_on
        → has (keys_of chain) dep ≡ true
    deps u h dep n = All-elem (λ d. has (keys_of chain) d ≡ true) u.depends_on dep h n

pub chain-IsRanked : IsRanked depth chain
unfolding list_beq
chain-IsRanked t m =
    All-elem (λ (u : GraphTask). (dep : JsString) → Elem dep u.depends_on → depth dep < depth u.key)
      chain t
      (
        deps qualify (omega arith, (omega arith, tt)),
        (deps check (omega arith, tt), (deps build tt, tt)),
      )
      m
  where
    deps :
        (u : GraphTask)
        → All (λ d. depth d < depth u.key) u.depends_on
        → (dep : JsString) → Elem dep u.depends_on
        → depth dep < depth u.key
    deps u h dep n = All-elem (λ d. depth d < depth u.key) u.depends_on dep h n

assert_acyclic_of_IsRanked_example : assert_acyclic chain ≡ ok tt
assert_acyclic_of_IsRanked_example =
    assert_acyclic_of_IsRanked depth chain chain-Distinct chain-AreKnown chain-IsRanked
