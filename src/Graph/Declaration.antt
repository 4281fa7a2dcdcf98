-- ===== src/Graph/Declaration.antt =====
-- packages/tc-sdlc/src/schema/declaration.ts: the normal form of a declaration. `posix.normalize` is a
-- parameter, and so is the result of the check against the JSON schema.
pub mod Normal
use tc_pipelines.Base.{
  Bool, List, [], ◌∷◌, map, Option, none, some, JsString, slash, backslash, replace_all, sort_by,
  sorted, leb, js_le, Result, ok, ◌>>◌, ◌>>=◌,
}
use tc_pipelines.Schema.{
  ProjectDeclaration, TargetDeclaration, TaskResources, TaskEvidenceDeclaration, SdlcDeclaration,
}
use tc_pipelines.Graph.Identity.{evidence_le}

abbrev pub if_given {ℓ κ} : {A : Type ℓ} {B : Type κ} → (A → B) → Option A → Option B
if_given f none = none
if_given f (some value) = some (f value)

abbrev pub name_le : ProjectDeclaration → ProjectDeclaration → Bool
name_le left right = js_le left.name right.name

abbrev pub normal_resources : TaskResources → TaskResources
normal_resources resources = record resources {
  ports = sort_by leb resources.ports;
  exclusive = sorted resources.exclusive;
}

module _ (posix_normalize : JsString → JsString) where
  -- `normalisePath` of this file
  abbrev pub normal_path : JsString → JsString
  normal_path value = posix_normalize (replace_all backslash slash value)

  abbrev pub normal_paths : List JsString → List JsString
  normal_paths paths = sorted (map normal_path paths)

  abbrev pub normal_item : TaskEvidenceDeclaration → TaskEvidenceDeclaration
  normal_item declared = record {
    path = normal_path declared.path;
    media_type = declared.media_type;
  }

  abbrev pub normal_items : List TaskEvidenceDeclaration → List TaskEvidenceDeclaration
  normal_items declared = sort_by evidence_le (map normal_item declared)

  abbrev pub normal_project : ProjectDeclaration → ProjectDeclaration
  normal_project project = record {
    name = project.name;
    root = normal_path project.root;
    depends_on = if_given sorted project.depends_on;
  }

  abbrev pub normal_target : JsString × TargetDeclaration → JsString × TargetDeclaration
  normal_target (name, target) = (
    name,
    record target {
      depends_on = if_given sorted target.depends_on;
      inputs = if_given normal_paths target.inputs;
      shared_inputs = if_given normal_paths target.shared_inputs;
      outputs = if_given normal_paths target.outputs;
      evidence = if_given normal_items target.evidence;
      resources = if_given normal_resources target.resources;
    },
  )

  -- `normalisePaths`
  unfoldable pub normalise_paths : SdlcDeclaration → SdlcDeclaration
  normalise_paths declaration = record declaration {
    projects = sort_by name_le (map normal_project declaration.projects);
    targets = map normal_target declaration.targets;
  }

  -- `validateDeclaration`, for the result of its schema check
  unfoldable pub validate_declaration : Result (Unit {0}) → SdlcDeclaration → Result SdlcDeclaration
  validate_declaration checked declaration = checked >> ok (normalise_paths declaration)
