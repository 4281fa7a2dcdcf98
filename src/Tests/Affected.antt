-- ===== src/Tests/Affected.antt =====
-- The selection of affected tasks in a small repository: `lib` generates what `app` reads.
use tc_pipelines.Base.{
  ◌≡◌, ◌↔◌, refl, ap, subst, inl, inr, List, [], ◌∷◌, JsString, js, nat_eq, list_eq, Elem, Distinct,
  ok, list_beq, replace_all, split, join, starts_with, add, insert,
}
use tc_pipelines.Schema.{GraphTask, SdlcGraph, sensitive}
use tc_pipelines.Graph.Paths.{named_parts, normalise_path, assert_relative_path}
use tc_pipelines.Graph.Selector.{
  CaseRules, atom_at, skip_at, compile, selector_pattern, many, many_slash, test, selects,
  resolve_project_path, task_consumes_path,
}
use tc_pipelines.Graph.Acyclic.{index_tasks}
use tc_pipelines.Graph.Acyclic.Keys.{keys_of}
use tc_pipelines.Graph.Acyclic.Complete.{AreKnown}
use tc_pipelines.Graph.Affected.{
  has_wildcard, replacements_at, witnesses_from, selector_witnesses, each_in, consumers_of,
  selectors_overlap, consumes_generated, enqueue_path, generated_consumers, select_task,
  directly_affected, drain, enqueue_changed, select_affected,
}
use tc_pipelines.Graph.Affected.Spec.{at_task}
use tc_pipelines.Graph.Affected.Meaning.{Affected}
use tc_pipelines.Graph.Affected.Correct.{select_affected-Affected, sensitive-IsAlike}
use tc_pipelines.Tests.Samples.{task}

-- No letter has another case.
abbrev ascii : CaseRules
ascii = record { to_lower_case = λ s. s; canonicalize = λ c. c }

abbrev placed : JsString → JsString → List JsString → List JsString → GraphTask
placed root key inputs outputs =
    let base = task key 1 [] in
    record base {
      shape = record base.shape { project_root = root; inputs = inputs; outputs = outputs };
    }

-- With the outputs of `lib`.
abbrev repository : List JsString → SdlcGraph
repository outputs = record {
  declaration_digest = [];
  lock_digest = [];
  projects = [];
  tasks =
      placed (js "docs") (js "docs") (js "*.md" ∷ []) []
      ∷ placed (js ".") (js "app") (js "lib/out/*.js" ∷ []) []
      ∷ placed (js "lib") (js "lib") (js "src/**" ∷ []) outputs
      ∷ [];
}

abbrev scripts : SdlcGraph
scripts = repository (js "out/*.js" ∷ [])

abbrev changed : List JsString
changed = js "lib/src/a.ts" ∷ []

paths : Unit {0}
unfolding list_beq replace_all split join starts_with named_parts normalise_path
    assert_relative_path resolve_project_path
paths = tt

selectors : Unit {0}
unfolding paths atom_at skip_at compile selector_pattern many many_slash test selects
    task_consumes_path
selectors = tt

search : Unit {0}
unfolding selectors has_wildcard replacements_at witnesses_from selector_witnesses each_in
    consumers_of selectors_overlap consumes_generated enqueue_path generated_consumers select_task
    directly_affected drain enqueue_changed select_affected index_tasks insert add
search = tt

affected : select_affected ascii sensitive scripts changed ≡ ok (js "app" ∷ js "lib" ∷ [])
unfolding search
affected = refl

-- An output that names the directory does not reach a reader of the files in it.
directory_missed :
    select_affected ascii sensitive (repository (js "out" ∷ [])) changed ≡ ok (js "lib" ∷ [])
unfolding search
directory_missed = refl

scripts-Distinct : Distinct (keys_of scripts.tasks)
unfolding paths
scripts-Distinct = (refl, (refl, (refl, tt)))

scripts-AreKnown : AreKnown scripts.tasks
scripts-AreKnown t m dep n = elim m [
  | inl e ↦ elim (no_dependency t (ap (λ (u : GraphTask). u.depends_on) e) dep n) [ ]
  | inr (inl e) ↦ elim (no_dependency t (ap (λ (u : GraphTask). u.depends_on) e) dep n) [ ]
  | inr (inr (inl e)) ↦ elim (no_dependency t (ap (λ (u : GraphTask). u.depends_on) e) dep n) [ ]
  | inr (inr (inr never)) ↦ elim never [ ]
]
  where
    no_dependency :
        (u : GraphTask) → u.depends_on ≡ [] → (d : JsString) → Elem d u.depends_on → Elem d []
    no_dependency u e d n = subst (Elem d) e n

changed_accepted :
    (p : JsString) → Elem p changed → assert_relative_path p (js "changed path") ≡ ok tt
unfolding paths
changed_accepted p (inl e) = rw e refl
changed_accepted p (inr never) = elim never [ ]

select_affected-Affected_example :
    (identities : List JsString) × (select_affected ascii sensitive scripts changed ≡ ok identities)
    × ((identity : JsString)
        → Elem identity identities ↔ (
            (t : GraphTask) × Elem t scripts.tasks
            × (identity ≡ t.identity)
            × Affected ascii sensitive scripts.tasks changed (at_task t.key)))
select_affected-Affected_example =
    select_affected-Affected ascii sensitive scripts changed scripts-Distinct scripts-AreKnown
      changed_accepted (sensitive-IsAlike ascii scripts.tasks changed)
