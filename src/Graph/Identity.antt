-- ===== src/Graph/Identity.antt =====
-- packages/tc-sdlc/src/graph/identity.ts: the canonical input digests of a task, and its identity.
-- `toLowerCase` and the digest of a JSON value are parameters.
pub mod Unordered
pub mod Reordered
use tc_pipelines.Base.{
  ℕ, Bool, true, false, ◌&&◌, ◌||◌, not, List, [], ◌∷◌, ◌++◌, map, Option, none, some, JsString, js,
  ◌==◌, nat_eq, list_eq, list_beq, has, add, all, length, leb, starts_with, if◌then◌else◌, js_lt,
  js_le, sort_by, insert_sorted, sorted, Result, ok, fail, throw_if, for_each, ◌>>=◌, ◌>>◌,
  graph_input_digest_invalid,
}
use tc_pipelines.Schema.{
  InputDigest, TaskMode, prepare, evaluate, TrustBoundary, portable, hosted, live, deployment,
  MediaType, TaskResources, TaskBudget, TaskEvidenceDeclaration, TaskDeclaration, TaskShape,
  or_empty,
}
use tc_pipelines.Canonical.{
  Json, null, number, string, array, object, Items, no_items, item, Members, no_members, member,
  Hashing, digest, strings,
}
use tc_pipelines.Runtime.Output.{drop}
use tc_pipelines.Runtime.Evidence.{media_name}
use tc_pipelines.Graph.Paths.{normalise_path, assert_relative_path}

abbrev pub is_hex : ℕ → Bool
is_hex c = leb b'a' c && leb c b'f' || leb b'0' c && leb c b'9'

-- `/^sha256:[a-f0-9]{64}$/`
abbrev pub is_canonical_digest : JsString → Bool
is_canonical_digest value =
    starts_with (js "sha256:") value && (length (drop 7 value) == 64) && all is_hex (drop 7 value)

-- The comparison of two digests: is it not positive?
abbrev pub digest_le : InputDigest → InputDigest → Bool
digest_le left right =
    if left.path == right.path then js_le left.digest right.digest else js_lt left.path right.path

abbrev pub evidence_le : TaskEvidenceDeclaration → TaskEvidenceDeclaration → Bool
evidence_le left right = js_le left.path right.path

module _ (to_lower_case : JsString → JsString) where
  abbrev pub path_key : InputDigest → JsString
  path_key input = to_lower_case (normalise_path input.path)

  -- The loop of `canonicalInputDigests`, with its set.
  unfoldable pub canonical_from : List JsString → List InputDigest → Result (List InputDigest)
  canonical_from identities [] = ok []
  canonical_from identities (input ∷ inputs) =
      assert_relative_path input.path (js "task input digest path")
      >> (throw_if (not (is_canonical_digest input.digest)) graph_input_digest_invalid
            (input.digest ∷ [])
          >> (throw_if (has identities (path_key input)) graph_input_digest_invalid
                (normalise_path input.path ∷ [])
              >> (canonical_from (add identities (path_key input)) inputs >>= λ rest.
                  ok (record input { path = normalise_path input.path } ∷ rest))))

  unfoldable pub canonical_input_digests : List InputDigest → Result (List InputDigest)
  canonical_input_digests inputs =
      canonical_from [] inputs >>= λ canonical. ok (sort_by digest_le canonical)

-- An optional member of an object.
abbrev pub member_if : {A : Type 0} → JsString → (A → Json) → Option A → Members → Members
member_if key encode none rest = rest
member_if key encode (some value) rest = member key (encode value) rest

abbrev pub array_of : {A : Type 0} → (A → Json) → List A → Items
array_of encode [] = no_items
array_of encode (x ∷ xs) = item (encode x) (array_of encode xs)

abbrev pub string_array : List JsString → Json
string_array values = array (strings values)

abbrev pub mode_json : TaskMode → Json
mode_json prepare = string (js "prepare")
mode_json evaluate = string (js "evaluate")

abbrev pub trust_json : TrustBoundary → Json
trust_json portable = string (js "portable")
trust_json hosted = string (js "hosted")
trust_json live = string (js "live")
trust_json deployment = string (js "deployment")

abbrev pub symlink_json : Option JsString → Json
symlink_json none = null
symlink_json (some target) = string target

abbrev pub input_json : InputDigest → Json
input_json input = object (
    member (js "path") (string input.path) (
      member (js "digest") (string input.digest) (
        member_if (js "mode") number input.mode
          (member_if (js "symlink") symlink_json input.symlink no_members))))

abbrev pub evidence_json : TaskEvidenceDeclaration → Json
evidence_json declared = object (
    member (js "path") (string declared.path)
      (member (js "mediaType") (string (media_name declared.media_type)) no_members))

abbrev pub normal_evidence : TaskEvidenceDeclaration → TaskEvidenceDeclaration
normal_evidence declared = record {
  path = normalise_path declared.path;
  media_type = declared.media_type;
}

abbrev pub resources_json : TaskResources → Json
resources_json resources = object (
    member (js "cpu") (number resources.cpu) (
      member (js "memoryMiB") (number resources.memory_mib) (
        member (js "ports") (array (array_of number (sort_by leb resources.ports)))
          (member (js "exclusive") (string_array (sorted resources.exclusive)) no_members))))

abbrev pub budget_json : TaskBudget → Json
budget_json budget = object (
    member (js "phaseMs") (number budget.phase_ms) (
      member (js "noProgressMs") (number budget.no_progress_ms)
        (member (js "heartbeatMs") (number budget.heartbeat_ms) no_members)))

-- The value that `taskIdentity` takes the digest of: the task,
unfoldable pub task_json : TaskDeclaration → Json
task_json task = object (
    member (js "project") (string task.project) (
      member (js "target") (string task.target) (
        member (js "projectRoot") (string (normalise_path task.project_root)) (
          member (js "mode") (mode_json task.mode) (
            member (js "trustBoundary") (trust_json task.trust_boundary) (
              member_if (js "command") string task.command (
                member_if (js "executor") string task.executor (
                  member (js "dependsOn") (string_array (sorted task.depends_on)) (
                    member (js "inputs") (string_array (sorted (map normalise_path task.inputs))) (
                      member (js "sharedInputs")
                        (string_array (sorted (map normalise_path (or_empty task.shared_inputs))))
                        (member (js "outputs")
                          (string_array (sorted (map normalise_path task.outputs)))
                          (member (js "evidence")
                            (array (
                              array_of evidence_json (
                                sort_by evidence_le
                                  (map normal_evidence (or_empty task.evidence)))))
                            (member_if (js "resources") resources_json task.resources (
                              member_if (js "budget") budget_json task.budget
                                no_members))))))))))))))

-- and with it the canonical inputs and the lock.
unfoldable pub identity_json : TaskDeclaration → List InputDigest → JsString → Json
identity_json task canonical lock_digest = object (
    member (js "task") (task_json task) (
      member (js "inputs") (array (array_of input_json canonical))
        (member (js "lockDigest") (string lock_digest) no_members)))

module _ (to_lower_case : JsString → JsString) (hashing : Hashing) where
  unfoldable pub task_identity : TaskDeclaration → List InputDigest → JsString → Result JsString
  task_identity task inputs lock_digest =
      assert_relative_path task.project_root (js "task project root")
      >> (for_each (λ path. assert_relative_path path (js "task declared path"))
            (task.inputs ++ or_empty task.shared_inputs ++ task.outputs)
          >> (for_each
                (λ (declared : TaskEvidenceDeclaration).
                  assert_relative_path declared.path (js "task declared evidence path"))
                (or_empty task.evidence)
              >> (canonical_input_digests to_lower_case inputs >>= λ canonical.
                  ok (digest hashing (identity_json task canonical lock_digest)))))
