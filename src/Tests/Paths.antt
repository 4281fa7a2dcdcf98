-- ===== src/Tests/Paths.antt =====
-- Paths in and out of the repository.
use tc_pipelines.Base.{
  ◌≡◌, ◌≢◌, refl, [], ◌∷◌, JsString, js, All, slash, split, join, replace_all, starts_with,
  list_beq, ok, fail, arith, graph_path_invalid,
}
use tc_pipelines.Graph.Paths.{named_parts, normalise_path, assert_relative_path}
use tc_pipelines.Graph.Paths.Laws.{IsInside, normalise_path_idempotent, normalise_path-IsInside}
use tc_pipelines.Graph.Paths.Drives.{normalise_path_drive}

paths : Unit {0}
unfolding normalise_path named_parts assert_relative_path split join replace_all starts_with
    list_beq
paths = tt

abbrev messy : JsString
messy = js "./src//app/./main.ts"

normalise-messy : normalise_path messy ≡ js "src/app/main.ts"
unfolding paths
normalise-messy = refl

messy_accepted : assert_relative_path messy [] ≡ ok tt
unfolding paths
messy_accepted = refl

parent_rejected :
    assert_relative_path (js "src/../..") (js "input")
    ≡ fail graph_path_invalid (js "input" ∷ js "src/../.." ∷ [])
unfolding paths
parent_rejected = refl

normalise_path_idempotent_example : normalise_path (normalise_path messy) ≡ normalise_path messy
normalise_path_idempotent_example = normalise_path_idempotent messy

normalise_path-IsInside_example : All IsInside (split slash (normalise_path messy))
normalise_path-IsInside_example = normalise_path-IsInside messy [] messy_accepted

normalise_path_drive_example :
    (assert_relative_path (js "./C:x") [] ≡ ok tt)
    × (normalise_path (js "./C:x") ≡ js "C:x")
    × (assert_relative_path (js "C:x") [] ≢ ok tt)
normalise_path_drive_example =
    normalise_path_drive b'C' (js "x") [] refl (omega arith, omega arith, omega arith)
