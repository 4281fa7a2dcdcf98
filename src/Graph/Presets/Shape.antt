-- ===== src/Graph/Presets/Shape.antt =====
-- What the shape of a task of `buildPresetTasks` (preset/index.ts) holds, said without its helpers.
use tc_pipelines.Base.{
  ◌≡◌, ◌≢◌, ◌⊎◌, ◌↔◌, inl, inr, refl, sym, ap, ◌∙◌, arith, Bool, true, false, List, [], map, Option,
  none, some, JsString, js, if◌then◌else◌, flat_map, nat_eq, list_eq, lookup, Elem, Elem-map,
  Elem-of_map, Elem-sorted, Elem-sort_by, Elem-flat_map, Elem-of_flat_map, Elem-append_cases,
  Elem-append_left, Elem-append_right, Bool-cases, Option-cases,
}
use tc_pipelines.Schema.{
  TargetDeclaration, TargetScope, project, repository, TaskShape, GraphProject, SdlcDeclaration,
  or_empty,
}
use tc_pipelines.Graph.Executors.{is_repository}
use tc_pipelines.Graph.Identity.{evidence_le}
use tc_pipelines.Graph.Presets.{
  Target, key_from, targets_repository, task_project, dependency_keys, task_dependencies,
  task_shape,
}

-- Lists with the same items.
abbrev pub SameItems : {A : Type 0} → List A → List A → Type 0
SameItems {A} xs ys = (x : A) → Elem x xs ↔ Elem x ys

is_repository-scope :
    (scope : Option TargetScope) → is_repository scope ≡ true → scope ≡ some repository
is_repository-scope none h = absurd (cc)
is_repository-scope (some project) h = absurd (cc)
is_repository-scope (some repository) h = refl

is_repository-other :
    (scope : Option TargetScope) → is_repository scope ≡ false → scope ≢ some repository
is_repository-other scope h e =
    let never : true ≡ false = sym (ap is_repository e) ∙ h in absurd (cc)

is_repository_no :
    (scope : Option TargetScope) → scope ≢ some repository → is_repository scope ≡ false
is_repository_no scope other = elim (Bool-cases (is_repository scope)) [
  | inl whole ↦ elim (other (is_repository-scope scope whole)) [ ]
  | inr part ↦ part
]

module _ (declaration : SdlcDeclaration) (projects : List GraphProject) where
  -- The declared target of a name has the scope of the repository.
  pub data IsWhole (name : JsString) : Type 0 where
    whole_target :
        (target : TargetDeclaration)
        → lookup name declaration.targets ≡ some target
        → target.scope ≡ some repository
        → IsWhole name

  -- The keys of the tasks that the task of a project and a target depends on.
  pub data IsDependency (owner : GraphProject) (entry : Target) (key : JsString) : Type 0 where
    on_repository :
        (name : JsString)
        → Elem name (or_empty entry.1.depends_on)
        → IsWhole name
        → key ≡ key_from declaration.project name
        → IsDependency owner entry key
    on_every_project :
        (name : JsString) (other : GraphProject)
        → Elem name (or_empty entry.1.depends_on)
        → (IsWhole name → ⊥)
        → entry.1.scope ≡ some repository
        → Elem other projects
        → key ≡ key_from other.name name
        → IsDependency owner entry key
    on_own_project :
        (name : JsString)
        → Elem name (or_empty entry.1.depends_on)
        → (IsWhole name → ⊥)
        → entry.1.scope ≢ some repository
        → key ≡ key_from owner.name name
        → IsDependency owner entry key
    on_other_project :
        (other : JsString)
        → entry.1.scope ≢ some repository
        → Elem other owner.depends_on
        → key ≡ key_from other entry.0
        → IsDependency owner entry key

  -- The project and the root of a task: the repository's, or those of its project.
  pub data IsPlaced (owner : GraphProject) (entry : Target) (shape : TaskShape) : Type 0 where
    in_repository :
        entry.1.scope ≡ some repository
        → shape.project ≡ declaration.project
        → shape.project_root ≡ js "."
        → IsPlaced owner entry shape
    in_project :
        entry.1.scope ≢ some repository
        → shape.project ≡ owner.name
        → shape.project_root ≡ owner.root
        → IsPlaced owner entry shape

  pub record HasParts (owner : GraphProject) (entry : Target) (shape : TaskShape) : Type 0 where
    pub placed : IsPlaced owner entry shape
    pub named : shape.target ≡ entry.0
    pub mode : shape.mode ≡ entry.1.mode
    pub trust_boundary : shape.trust_boundary ≡ entry.1.trust_boundary
    pub command : shape.command ≡ entry.1.command
    pub executor : shape.executor ≡ entry.1.executor
    pub profile : shape.profile ≡ entry.1.profile
    pub inputs : SameItems shape.inputs (or_empty entry.1.inputs)
    pub shared_inputs : SameItems (or_empty shape.shared_inputs) (or_empty entry.1.shared_inputs)
    pub outputs : SameItems shape.outputs (or_empty entry.1.outputs)
    pub evidence : SameItems (or_empty shape.evidence) (or_empty entry.1.evidence)
    pub depends_on : (key : JsString) → Elem key shape.depends_on ↔ IsDependency owner entry key

  targets_repository-IsWhole :
      (name : JsString) → targets_repository declaration name ≡ true → IsWhole name
  targets_repository-IsWhole name h = elim (Option-cases (lookup name declaration.targets)) [
    | inl lost ↦ absurd (ground arith)
    | inr (target, found) ↦
        whole_target target found
          (is_repository-scope target.scope (rw (found, targets_repository) at h))
  ]

  IsWhole-targets_repository :
      (name : JsString) → IsWhole name → targets_repository declaration name ≡ true
  IsWhole-targets_repository name (whole_target target found whole) =
      rw (found, targets_repository) (ap is_repository whole)

  not_whole : (name : JsString) → targets_repository declaration name ≡ false → IsWhole name → ⊥
  not_whole name h whole =
      let never : true ≡ false = sym (IsWhole-targets_repository name whole) ∙ h in absurd (cc)

  part_only : (name : JsString) → (IsWhole name → ⊥) → targets_repository declaration name ≡ false
  part_only name other = elim (Bool-cases (targets_repository declaration name)) [
    | inl whole ↦ elim (other (targets_repository-IsWhole name whole)) [ ]
    | inr part ↦ part
  ]

  abbrev keys_for : Bool → GraphProject → JsString → List JsString
  keys_for whole owner name =
      dependency_keys declaration projects whole (task_project declaration whole owner) name

  -- The keys that one dependency stands for.
  one_sound :
      (whole : Bool) (owner : GraphProject) (entry : Target) (name key : JsString)
      → is_repository entry.1.scope ≡ whole
      → Elem name (or_empty entry.1.depends_on)
      → Elem key (keys_for whole owner name)
      → IsDependency owner entry key
  one_sound true owner entry name key scope listed m =
      elim (Bool-cases (targets_repository declaration name)) [
        | inl on_all ↦ elim (rw on_all at m) [
          | inl same ↦ on_repository name listed (targets_repository-IsWhole name on_all) same
          | inr never ↦ elim never [ ]
        ]
        | inr part ↦
            let (other, present, same) =
              Elem-of_map (λ (p : GraphProject). key_from p.name name) projects key
                (rw part at m) in
            on_every_project name other listed (not_whole name part)
              (is_repository-scope entry.1.scope scope) present same
      ]
  one_sound false owner entry name key scope listed m =
      elim (Bool-cases (targets_repository declaration name)) [
        | inl on_all ↦ elim (rw on_all at m) [
          | inl same ↦ on_repository name listed (targets_repository-IsWhole name on_all) same
          | inr never ↦ elim never [ ]
        ]
        | inr part ↦ elim (rw part at m) [
          | inl same ↦
              on_own_project name listed (not_whole name part)
                (is_repository-other entry.1.scope scope) same
          | inr never ↦ elim never [ ]
        ]
      ]

  abbrev others_for : Bool → GraphProject → JsString → List JsString
  others_for whole owner name =
      if whole
      then []
      else map (λ dependency. key_from dependency name)
          (task_project declaration whole owner).depends_on

  others_sound :
      (whole : Bool) (owner : GraphProject) (entry : Target) (key : JsString)
      → is_repository entry.1.scope ≡ whole
      → Elem key (others_for whole owner entry.0)
      → IsDependency owner entry key
  others_sound true owner entry key scope m = elim m [ ]
  others_sound false owner entry key scope m =
      let (other, present, same) =
        Elem-of_map (λ (p : JsString). key_from p entry.0) owner.depends_on key m in
      on_other_project other (is_repository-other entry.1.scope scope) present same

  dependencies_sound :
      (whole : Bool) (owner : GraphProject) (entry : Target) (key : JsString)
      → is_repository entry.1.scope ≡ whole
      → Elem key (
          task_dependencies declaration projects whole (task_project declaration whole owner) entry)
      → IsDependency owner entry key
  unfolding task_dependencies
  dependencies_sound whole owner (name, target) key scope m =
      let own = or_empty target.depends_on in
      let mine = flat_map (keys_for whole owner) own in
      elim (Elem-append_cases key mine (others_for whole owner name) ((Elem-sorted _ key).0 m)) [
        | inl here ↦
            let (dep, listed, stands) = Elem-of_flat_map (keys_for whole owner) own key here in
            one_sound whole owner (name, target) dep key scope listed stands
        | inr there ↦ others_sound whole owner (name, target) key scope there
      ]

  dependencies_complete :
      (whole : Bool) (owner : GraphProject) (entry : Target) (key : JsString)
      → is_repository entry.1.scope ≡ whole
      → IsDependency owner entry key
      → Elem key (
          task_dependencies declaration projects whole (task_project declaration whole owner) entry)
  unfolding task_dependencies
  dependencies_complete whole owner (name, target) key scope d =
      let own = or_empty target.depends_on in
      (Elem-sorted _ key).1 (elim (from whole scope d) [
        | inl (dep, listed, stands) ↦
            Elem-append_left key (flat_map (keys_for whole owner) own) (others_for whole owner name)
              (Elem-flat_map (keys_for whole owner) own dep key listed stands)
        | inr there ↦
            Elem-append_right key (flat_map (keys_for whole owner) own)
              (others_for whole owner name) there
      ])
    where
      from :
          (w : Bool)
          → is_repository target.scope ≡ w
          → IsDependency owner (name, target) key
          → ((dep : JsString) × Elem dep (or_empty target.depends_on)
              × Elem key (keys_for w owner dep))
            ⊎ Elem key (others_for w owner name)
      from true s (on_repository dep listed all same) =
          inl (dep, listed, rw (IsWhole-targets_repository dep all) (inl same))
      from false s (on_repository dep listed all same) =
          inl (dep, listed, rw (IsWhole-targets_repository dep all) (inl same))
      from true s (on_every_project dep other listed part scoped present same) = inl (
        dep,
        listed,
        rw (part_only dep part, same)
            (Elem-map (λ (p : GraphProject). key_from p.name dep) projects other present),
      )
      from false s (on_every_project dep other listed part scoped present same) =
          elim (is_repository-other target.scope s scoped) [ ]
      from true s (on_own_project dep listed part scoped same) =
          elim (scoped (is_repository-scope target.scope s)) [ ]
      from false s (on_own_project dep listed part scoped same) =
          inl (dep, listed, rw (part_only dep part) (inl same))
      from true s (on_other_project other scoped present same) =
          elim (scoped (is_repository-scope target.scope s)) [ ]
      from false s (on_other_project other scoped present same) =
          inr
            (rw same (Elem-map (λ (p : JsString). key_from p name) owner.depends_on other present))

  shape_placed :
      (whole : Bool) (owner : GraphProject) (entry : Target)
      → is_repository entry.1.scope ≡ whole
      → IsPlaced owner entry (task_shape declaration projects owner entry)
  unfolding task_shape
  shape_placed true owner (name, target) scope =
      in_repository (is_repository-scope target.scope scope) (rw scope refl) (rw scope refl)
  shape_placed false owner (name, target) scope =
      in_project (is_repository-other target.scope scope) (rw scope refl) (rw scope refl)

  pub task_shape-HasParts :
      (owner : GraphProject) (entry : Target)
      → HasParts owner entry (task_shape declaration projects owner entry)
  unfolding task_shape
  task_shape-HasParts owner (name, target) = record {
    placed = shape_placed (is_repository target.scope) owner (name, target) refl;
    named = refl;
    mode = refl;
    trust_boundary = refl;
    command = refl;
    executor = refl;
    profile = refl;
    inputs = λ x. Elem-sorted (or_empty target.inputs) x;
    shared_inputs = λ x. Elem-sorted (or_empty target.shared_inputs) x;
    outputs = λ x. Elem-sorted (or_empty target.outputs) x;
    evidence = λ x. Elem-sort_by evidence_le (or_empty target.evidence) x;
    depends_on = λ key. (
      dependencies_sound (is_repository target.scope) owner (name, target) key refl,
      dependencies_complete (is_repository target.scope) owner (name, target) key refl,
    );
  }
