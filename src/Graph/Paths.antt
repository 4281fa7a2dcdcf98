-- ===== src/Graph/Paths.antt =====
-- packages/tc-sdlc/src/graph/path.ts: repository paths and their normal form.
pub mod Laws
pub mod Drives
use tc_pipelines.Base.{
  ℕ, ◌≡◌, Bool, true, false, ◌&&◌, ◌||◌, not, List, [], ◌∷◌, JsString, js, slash, backslash, split,
  join, replace_all, starts_with, ◌==◌, list_eq, nat_eq, list_beq, has, keep, leb, Result, throw_if,
  graph_path_invalid,
}

abbrev pub parent_part : JsString
parent_part = js ".."

abbrev pub current_part : JsString
current_part = js "."

-- The parts that `normalisePath` keeps.
abbrev pub is_named : JsString → Bool
is_named part = not (part == []) && not (part == current_part)

unfoldable pub named_parts : JsString → List JsString
named_parts value = keep is_named (split slash (replace_all backslash slash value))

abbrev pub join_or_current : List JsString → JsString
join_or_current [] = current_part
join_or_current (part ∷ parts) = join slash (part ∷ parts)

unfoldable pub normalise_path : JsString → JsString
normalise_path value = join_or_current (named_parts value)

abbrev pub is_letter : ℕ → Bool
is_letter c = leb b'A' c && leb c b'Z' || leb b'a' c && leb c b'z'

-- `/^[A-Za-z]:/`
abbrev pub has_drive : JsString → Bool
has_drive [] = false
has_drive (c ∷ []) = false
has_drive (c ∷ d ∷ s) = is_letter c && d == b':'

-- The test of `assertRelativePath`, on the path with forward slashes.
abbrev pub is_ambiguous : JsString → Bool
is_ambiguous path =
    starts_with (slash ∷ []) path
    || has_drive path
    || has (split slash path) parent_part
    || has path 0

unfoldable pub assert_relative_path : JsString → JsString → Result (Unit {0})
assert_relative_path value context =
    throw_if (is_ambiguous (replace_all backslash slash value)) graph_path_invalid
      (context ∷ value ∷ [])
