-- ===== src/Tests/Identity.antt =====
-- The identity of a task whose lists are given in two orders.
use mathlib.Core.List.{Permᴰ}
use mathlib.Core.List.Permᴰ.{nil, cons, swap}
use tc_pipelines.Base.{
  ◌≡◌, refl, List, [], ◌∷◌, ◌++◌, JsString, js, none, some, ok, throws, exhausted, Result, list_beq,
  add, replace_all, split, join, starts_with, sort_by, insert_sorted, sorted, js_lt,
}
use tc_pipelines.Schema.{TaskDeclaration, InputDigest, evaluate, portable}
use tc_pipelines.Graph.Paths.{named_parts, normalise_path, assert_relative_path}
use tc_pipelines.Graph.Identity.{
  canonical_from, canonical_input_digests, task_json, identity_json, task_identity,
}
use tc_pipelines.Graph.Identity.Unordered.{canonical_input_digests-Perm}
use tc_pipelines.Graph.Identity.Reordered.{reordered, task_identity-Perm}
use tc_pipelines.Canonical.{insert_member, sort_value, canonical_json, digest}
use tc_pipelines.Tests.Canonical.{flat}
use tc_pipelines.Tests.Planning.{lower, letters}

abbrev content : JsString → InputDigest
content path = record {
  path = path;
  digest = js "sha256:" ++ letters 64;
  mode = none;
  symlink = none;
}

abbrev digests : List InputDigest
digests = content (js "src/b.ts") ∷ content (js "./src//a.ts") ∷ []

abbrev digests_exchanged : List InputDigest
digests_exchanged = content (js "./src//a.ts") ∷ content (js "src/b.ts") ∷ []

digests_swap : Permᴰ digests digests_exchanged
digests_swap = swap refl refl

abbrev reader : TaskDeclaration
reader = record {
  shape = record {
    project = js "web";
    target = js "make";
    project_root = js "web";
    mode = evaluate;
    trust_boundary = portable;
    scope = none;
    command = some (js "make");
    executor = none;
    profile = none;
    depends_on = js "lib:make" ∷ js "all:make" ∷ [];
    inputs = js "src" ∷ js "doc" ∷ [];
    shared_inputs = none;
    outputs = js "out" ∷ [];
    evidence = none;
  };
  resources = none;
  budget = none;
}

steps : Unit {0}
unfolding named_parts normalise_path assert_relative_path list_beq add replace_all split join
    starts_with sort_by insert_sorted sorted js_lt canonical_from canonical_input_digests task_json
    identity_json task_identity insert_member sort_value canonical_json digest
steps = tt

abbrev canonical : List InputDigest
canonical = content (js "src/a.ts") ∷ content (js "src/b.ts") ∷ []

accepted : canonical_input_digests lower digests ≡ ok canonical
unfolding steps
accepted = refl

canonical_input_digests-Perm_example :
    canonical_input_digests lower digests_exchanged ≡ ok canonical
canonical_input_digests-Perm_example =
    canonical_input_digests-Perm lower digests digests_exchanged canonical digests_swap accepted

abbrev text_of : Result JsString → JsString
text_of (ok text) = text
text_of (throws error) = []
text_of exhausted = []

abbrev identity : JsString
identity = text_of (task_identity lower flat reader digests (js "l"))

identified : task_identity lower flat reader digests (js "l") ≡ ok identity
unfolding steps
identified = refl

task_identity-Perm_example :
    task_identity lower flat
      (reordered reader
        (js "all:make" ∷ js "lib:make" ∷ [])
        (js "doc" ∷ js "src" ∷ [])
        (js "out" ∷ []))
      digests_exchanged
      (js "l")
    ≡ ok identity
task_identity-Perm_example =
    task_identity-Perm reader (swap refl refl) (swap refl refl) (cons refl nil) lower flat (js "l")
      identity digests digests_exchanged digests_swap identified
