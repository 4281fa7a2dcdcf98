-- ===== src/Graph/Validation/Accepted.antt =====
-- What a declaration that `validateGraphDeclaration` accepts satisfies.
use tc_pipelines.Base.{
  ◌≡◌, inl, inr, arith, true, not, List, [], ◌∷◌, ◌++◌, map, JsString, js, has, nat_eq, list_eq,
  Distinct, Elem, Elem-map, Result, ok, throw_if, for_each, for_each-ok, ◌>>◌, >>=-eq-ok,
  Bool-cases, graph_unknown_dependency,
}
use tc_pipelines.Schema.{ProjectDeclaration, TargetDeclaration, SdlcDeclaration, or_empty}
use tc_pipelines.Graph.Paths.{assert_relative_path}
use tc_pipelines.Graph.Validation.{
  validate_target, known_dependencies, project_names, target_names, project_dependencies,
  target_dependencies, validate_graph_declaration, about,
}
use tc_pipelines.Graph.Validation.Unique.{assert_unique_identities_iff}

-- Two checks in a row that accept have both accepted.
both_ok : (m k : Result (Unit {0})) → (m >> k) ≡ ok tt → (m ≡ ok tt) × (k ≡ ok tt)
both_ok m k h = let (u, first, rest) = >>=-eq-ok m (λ _. k) h in (first, rest)

known_dependencies-has :
    (names : List JsString) (items : List (JsString × List JsString))
    (item : JsString × List JsString) (dep : JsString)
    → known_dependencies names items ≡ ok tt
    → Elem item items
    → Elem dep item.1
    → has names dep ≡ true
unfolding known_dependencies
known_dependencies-has names items item dep h m n =
    let inner =
      for_each-ok
        (λ (i : JsString × List JsString).
          for_each (λ d. throw_if (not (has names d)) graph_unknown_dependency (i.0 ∷ d ∷ [])) i.1)
        items item h m in
    let one =
      for_each-ok (λ d. throw_if (not (has names d)) graph_unknown_dependency (item.0 ∷ d ∷ []))
        item.1 dep inner n in
    elim (Bool-cases (has names dep)) [ inl known ↦ known | inr unknown ↦ absurd (ground arith) ]

module _ (lower : JsString → JsString) where
  -- What the theorem says of an accepted declaration.
  pub record IsAccepted (raw declaration : SdlcDeclaration) : Type 0 where
    pub projects_differ : Distinct (map lower (project_names declaration))
    pub targets_differ : Distinct (map lower (target_names declaration))
    pub roots_relative :
        (project : ProjectDeclaration)
        → Elem project raw.projects
        → assert_relative_path project.root (js "project " ++ project.name ++ js " root") ≡ ok tt
    pub inputs_relative :
        (name : JsString) (target : TargetDeclaration)
        → Elem (name, target) raw.targets
        → (path : JsString) → Elem path (or_empty target.inputs)
        → assert_relative_path path (about name (js "input")) ≡ ok tt
    pub shared_inputs_relative :
        (name : JsString) (target : TargetDeclaration)
        → Elem (name, target) raw.targets
        → (path : JsString) → Elem path (or_empty target.shared_inputs)
        → assert_relative_path path (about name (js "shared input")) ≡ ok tt
    pub outputs_relative :
        (name : JsString) (target : TargetDeclaration)
        → Elem (name, target) raw.targets
        → (path : JsString) → Elem path (or_empty target.outputs)
        → assert_relative_path path (about name (js "output")) ≡ ok tt
    pub projects_known :
        (project : ProjectDeclaration)
        → Elem project declaration.projects
        → (dep : JsString) → Elem dep (or_empty project.depends_on)
        → has (project_names declaration) dep ≡ true
    pub targets_known :
        (name : JsString) (target : TargetDeclaration)
        → Elem (name, target) declaration.targets
        → (dep : JsString) → Elem dep (or_empty target.depends_on)
        → has (target_names declaration) dep ≡ true

  validate_target-paths :
      (name : JsString) (target : TargetDeclaration)
      → validate_target lower (name, target) ≡ ok tt
      → (for_each (λ p. assert_relative_path p (about name (js "input"))) (or_empty target.inputs)
          ≡ ok tt)
        × (for_each
              (λ p. assert_relative_path p (about name (js "shared input")))
              (or_empty target.shared_inputs)
            ≡ ok tt)
        × (for_each
              (λ p. assert_relative_path p (about name (js "output")))
              (or_empty target.outputs)
            ≡ ok tt)
  unfolding validate_target
  validate_target-paths name target e =
      let (inputs, e1) = both_ok _ _ e in
      let (shared, e2) = both_ok _ _ e1 in
      let (outputs, e3) = both_ok _ _ e2 in (inputs, shared, outputs)

  -- If the validation accepts, then the names of the projects, and of the targets, stay distinct in
  -- lower case, the roots and the targets' inputs, shared inputs and outputs are relative paths, and every dependency of a
  -- project or a target names one that is declared.
  pub validate_graph_declaration-IsAccepted :
      (raw declaration : SdlcDeclaration)
      → validate_graph_declaration lower raw declaration ≡ ok tt
      → IsAccepted raw declaration
  unfolding validate_graph_declaration
  validate_graph_declaration-IsAccepted raw declaration h =
      let (projects, h1) = both_ok _ _ h in
      let (targets, h2) = both_ok _ _ h1 in
      let (roots, h3) = both_ok _ _ h2 in
      let (bodies, h4) = both_ok _ _ h3 in
      let (apart, h5) = both_ok _ _ h4 in
      let (of_projects, of_targets) = both_ok _ _ h5 in
      record {
        projects_differ =
            (assert_unique_identities_iff lower (project_names declaration) (js "project")).0
              projects;
        targets_differ =
            (assert_unique_identities_iff lower (target_names declaration) (js "target")).0 targets;
        roots_relative = λ project m. for_each-ok _ raw.projects project roots m;
        inputs_relative = λ name target m path n.
            for_each-ok (λ p. assert_relative_path p (about name (js "input")))
              (or_empty target.inputs) path
              (validate_target-paths name target
                (for_each-ok (validate_target lower) raw.targets (name, target) bodies m)).0
              n;
        shared_inputs_relative = λ name target m path n.
            for_each-ok (λ p. assert_relative_path p (about name (js "shared input")))
              (or_empty target.shared_inputs) path
              (validate_target-paths name target
                (for_each-ok (validate_target lower) raw.targets (name, target) bodies m)).1
              n;
        outputs_relative = λ name target m path n.
            for_each-ok (λ p. assert_relative_path p (about name (js "output")))
              (or_empty target.outputs) path
              (validate_target-paths name target
                (for_each-ok (validate_target lower) raw.targets (name, target) bodies m)).2
              n;
        projects_known = λ project m dep n.
            known_dependencies-has (project_names declaration) (project_dependencies declaration)
              (project.name, or_empty project.depends_on) dep of_projects
              (Elem-map (λ (p : ProjectDeclaration). (p.name, or_empty p.depends_on))
                declaration.projects project m)
              n;
        targets_known = λ name target m dep n.
            known_dependencies-has (target_names declaration) (target_dependencies declaration)
              (name, or_empty target.depends_on) dep of_targets
              (Elem-map (λ (e : JsString × TargetDeclaration). (e.0, or_empty e.1.depends_on))
                declaration.targets (name, target) m)
              n;
      }
