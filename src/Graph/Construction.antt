-- ===== src/Graph/Construction.antt =====
-- `buildGraph` of packages/tc-sdlc/src/graph/index.ts. The checks of the declaration and the lock
-- against their schemas, the comparison of the lock with the declaration, and the digests of both are
-- arguments.
pub mod Runnable
use tc_pipelines.Base.{
  ℕ, List, [], ◌∷◌, map, Option, none, some, JsString, sorted, Result, ok, fail, ◌>>=◌, ◌>>◌,
  graph_context_invalid,
}
use tc_pipelines.Schema.{
  ProjectDeclaration, GraphProject, GraphTask, SdlcDeclaration, SdlcGraph, TaskInputDigests,
  or_empty,
}
use tc_pipelines.Canonical.{Hashing}
use tc_pipelines.Graph.Selector.{CaseRules}
use tc_pipelines.Graph.Declaration.{validate_declaration}
use tc_pipelines.Graph.Validation.{validate_graph_declaration}
use tc_pipelines.Graph.Acyclic.{assert_acyclic}
use tc_pipelines.Graph.Presets.{build_preset_tasks}

-- What `buildGraph` gets from its callees and from the map of bound locks.
pub record Planning : Type 0 where
  pub posix_normalize : JsString → JsString
  -- the schema check of `validateDeclaration`, and `validateLock(lockValue)` with the lock left out
  pub checked_declaration : Result (Unit {0})
  pub valid_lock : Result (Unit {0})
  -- the resolved inputs that the lock was bound with
  pub authority : Option TaskInputDigests
  -- `assertCurrentLock`
  pub current_lock : Result (Unit {0})
  pub declaration_digest : JsString
  pub lock_digest : JsString

abbrev pub graph_projects : SdlcDeclaration → List GraphProject
graph_projects declaration =
    map
      (λ (declared : ProjectDeclaration). record {
        name = declared.name;
        root = declared.root;
        depends_on = sorted (or_empty declared.depends_on);
      })
      declaration.projects

module _ (rules : CaseRules) (hashing : Hashing) (planning : Planning) where
  -- The graph, for a declaration and its inputs.
  unfoldable pub plan_graph : SdlcDeclaration → TaskInputDigests → Result SdlcGraph
  plan_graph declaration inputs =
      let projects = graph_projects declaration in
      build_preset_tasks declaration projects rules hashing planning.lock_digest inputs >>= λ tasks.
      assert_acyclic tasks
      >> ok (record {
        declaration_digest = planning.declaration_digest;
        lock_digest = planning.lock_digest;
        projects = projects;
        tasks = tasks;
      })

  unfoldable pub plan_with : SdlcDeclaration → Option TaskInputDigests → Result SdlcGraph
  plan_with declaration none = fail graph_context_invalid []
  plan_with declaration (some inputs) = planning.current_lock >> plan_graph declaration inputs

  -- `buildGraph(declarationValue, lockValue)`
  unfoldable pub build_graph : SdlcDeclaration → Result SdlcGraph
  build_graph raw =
      validate_declaration planning.posix_normalize planning.checked_declaration raw
      >>= λ declaration.
          planning.valid_lock
          >> (validate_graph_declaration rules.to_lower_case raw declaration
              >> plan_with declaration planning.authority)
