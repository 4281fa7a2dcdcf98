-- ===== src/Graph/Validation.antt =====
-- `assertUniqueIdentities`, `assertUnambiguousPaths` and `validateGraphDeclaration` of
-- packages/tc-sdlc/src/graph/index.ts. `toLowerCase` is a parameter.
pub mod Unique
pub mod Accepted
use tc_pipelines.Base.{
  ℕ, Bool, true, false, ◌||◌, not, List, [], ◌∷◌, ◌++◌, map, Option, none, some, JsString, js, ◌==◌,
  nat_eq, list_eq, has, add, lookup, insert, any, ends_with, slash, Result, ok, throw_if, for_each,
  ◌>>=◌, ◌>>◌, graph_duplicate_identity, graph_platform_ambiguity, graph_evidence_invalid,
  graph_unknown_dependency,
}
use tc_pipelines.Schema.{
  ProjectDeclaration, TargetDeclaration, TaskEvidenceDeclaration, SdlcDeclaration, or_empty,
}
use tc_pipelines.Graph.Paths.{normalise_path, assert_relative_path, current_part}

-- `/[*?\[\]{}]/`
abbrev pub is_pattern_char : ℕ → Bool
is_pattern_char c = has (js "*?[]{}") c

abbrev pub is_inexact : JsString → Bool
is_inexact path = path == current_part || any is_pattern_char path || ends_with slash path

abbrev pub about : JsString → JsString → JsString
about name kind = js "target " ++ name ++ js " " ++ kind

-- Every name that the dependencies of some items hold is known.
unfoldable pub known_dependencies :
    List JsString → List (JsString × List JsString) → Result (Unit {0})
known_dependencies names = for_each (λ (item : JsString × List JsString).
    for_each
      (λ dependency.
        throw_if (not (has names dependency)) graph_unknown_dependency (item.0 ∷ dependency ∷ []))
      item.1)

abbrev pub project_names : SdlcDeclaration → List JsString
project_names declaration =
    map (λ (project : ProjectDeclaration). project.name) declaration.projects

abbrev pub target_names : SdlcDeclaration → List JsString
target_names declaration =
    map (λ (entry : JsString × TargetDeclaration). entry.0) declaration.targets

abbrev pub project_dependencies : SdlcDeclaration → List (JsString × List JsString)
project_dependencies declaration =
    map (λ (project : ProjectDeclaration). (project.name, or_empty project.depends_on))
      declaration.projects

abbrev pub target_dependencies : SdlcDeclaration → List (JsString × List JsString)
target_dependencies declaration =
    map (λ (entry : JsString × TargetDeclaration). (entry.0, or_empty entry.1.depends_on))
      declaration.targets

module _ (to_lower_case : JsString → JsString) where
  -- The loop of `assertUniqueIdentities`, with its two sets.
  unfoldable pub unique_from :
      List JsString → List JsString → List JsString → JsString → Result (Unit {0})
  unique_from exact folded [] kind = ok tt
  unique_from exact folded (value ∷ values) kind =
      throw_if (has exact value) graph_duplicate_identity (kind ∷ value ∷ [])
      >> (throw_if (has folded (to_lower_case value)) graph_platform_ambiguity (kind ∷ value ∷ [])
          >> unique_from (add exact value) (add folded (to_lower_case value)) values kind)

  unfoldable pub assert_unique_identities : List JsString → JsString → Result (Unit {0})
  assert_unique_identities values kind = unique_from [] [] values kind

  abbrev pub path_fold : JsString → JsString
  path_fold path = to_lower_case (normalise_path path)

  -- The loop of `assertUnambiguousPaths`, with its set.
  unfoldable pub unambiguous_from : List JsString → List JsString → JsString → Result (Unit {0})
  unambiguous_from identities [] context = ok tt
  unambiguous_from identities (value ∷ values) context =
      throw_if (has identities (path_fold value)) graph_platform_ambiguity (context ∷ value ∷ [])
      >> unambiguous_from (add identities (path_fold value)) values context

  unfoldable pub assert_unambiguous_paths : List JsString → JsString → Result (Unit {0})
  assert_unambiguous_paths values context = unambiguous_from [] values context

  -- The body of the loop over the targets.
  unfoldable pub validate_target : JsString × TargetDeclaration → Result (Unit {0})
  validate_target (name, target) =
      for_each (λ path. assert_relative_path path (about name (js "input")))
        (or_empty target.inputs)
      >> (for_each (λ path. assert_relative_path path (about name (js "shared input")))
            (or_empty target.shared_inputs)
          >> (for_each (λ path. assert_relative_path path (about name (js "output")))
                (or_empty target.outputs)
              >> (for_each
                    (λ (item : TaskEvidenceDeclaration).
                      assert_relative_path item.path (about name (js "evidence path"))
                      >> throw_if (is_inexact item.path) graph_evidence_invalid
                          (name ∷ item.path ∷ []))
                    (or_empty target.evidence)
                  >> (assert_unambiguous_paths (or_empty target.inputs) (about name (js "inputs"))
                      >> (assert_unambiguous_paths (or_empty target.shared_inputs)
                            (about name (js "shared inputs"))
                          >> (assert_unambiguous_paths (or_empty target.outputs)
                                (about name (js "outputs"))
                              >> assert_unambiguous_paths
                                  (map (λ (item : TaskEvidenceDeclaration). item.path)
                                    (or_empty target.evidence))
                                  (about name (js "evidence"))))))))

  -- The loop over the projects' roots, with its map.
  unfoldable pub distinct_roots :
      List (JsString × JsString) → List ProjectDeclaration → Result (Unit {0})
  distinct_roots roots [] = ok tt
  distinct_roots roots (project ∷ projects) =
      let platform_root = to_lower_case project.root in
      let rest = distinct_roots (insert platform_root project.root roots) projects in
      elim (lookup platform_root roots) [
        | some existing ↦ throw_if true graph_platform_ambiguity (existing ∷ project.root ∷ [])
        | none ↦ rest
      ]

  -- `raw` is the declaration as it was given, the other one has its paths normalised.
  unfoldable pub validate_graph_declaration : SdlcDeclaration → SdlcDeclaration → Result (Unit {0})
  validate_graph_declaration raw declaration =
      assert_unique_identities (project_names declaration) (js "project")
      >> (assert_unique_identities (target_names declaration) (js "target")
          >> (for_each
                (λ (project : ProjectDeclaration).
                  assert_relative_path project.root (js "project " ++ project.name ++ js " root"))
                raw.projects
              >> (for_each validate_target raw.targets
                  >> (distinct_roots [] declaration.projects
                      >> (known_dependencies (project_names declaration)
                            (project_dependencies declaration)
                          >> known_dependencies (target_names declaration)
                              (target_dependencies declaration))))))
