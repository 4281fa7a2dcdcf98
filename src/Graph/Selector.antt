-- ===== src/Graph/Selector.antt =====
-- packages/tc-sdlc/src/graph/selector.ts: selectors, the regular expressions that they compile to,
-- and which tasks consume a path. Expressions are lists of the atoms that the source concatenates;
-- `test` is the backtracking matcher of ECMAScript for those atoms.
use tc_pipelines.Base.{
  ℕ, zero, suc, Bool, true, false, ◌&&◌, ◌||◌, not, List, [], ◌∷◌, ◌++◌, JsString, slash, ◌==◌,
  nat_eq, list_eq, if◌then◌else◌, any, starts_with,
}
use tc_pipelines.Schema.{TaskShape, PathCaseSensitivity, sensitive, insensitive, or_empty}
use tc_pipelines.Graph.Paths.{normalise_path, current_part}

abbrev pub is_empty : {A : Type 0} → List A → Bool
is_empty [] = true
is_empty (x ∷ xs) = false

-- The Unicode tables of the runtime: `toLowerCase` of a string, and the canonical code unit that the
-- "i" flag compares by.
pub record CaseRules : Type 0 where
  pub to_lower_case : JsString → JsString
  pub canonicalize : ℕ → ℕ

pub data Atom : Type 0 where
  -- (?:.*/)?   .*   [^/]*   [^/]   (?:/.*)?
  some_directories anything segment_run segment_char below : Atom
  literal : ℕ → Atom

abbrev pub star : ℕ
star = b'*'

abbrev pub question : ℕ
question = b'?'

abbrev pub head_is : ℕ → JsString → Bool
head_is c [] = false
head_is c (x ∷ s) = x == c

abbrev pub tail_of : JsString → JsString
tail_of [] = []
tail_of (x ∷ s) = s

-- The atom for the character at the index, with the rest of the selector behind it.
unfoldable pub atom_at : ℕ → JsString → Atom
atom_at c rest =
    if c == star && head_is star rest
    then (if head_is slash (tail_of rest) then some_directories else anything)
    else if c == star
    then segment_run
    else if c == question
    then segment_char
    else literal c

-- By how much the loop advances `index` on top of its own step.
unfoldable pub skip_at : ℕ → JsString → ℕ
skip_at c rest =
    if c == star && head_is star rest then (if head_is slash (tail_of rest) then 2 else 1) else 0

unfoldable pub compile : ℕ → JsString → List Atom
compile skip [] = []
compile zero (c ∷ rest) = atom_at c rest ∷ compile (skip_at c rest) rest
compile (suc skip) (c ∷ rest) = compile skip rest

unfoldable pub selector_pattern : JsString → List Atom
selector_pattern selector = compile 0 selector ++ below ∷ []

-- "." matches all but the line terminators.
abbrev pub is_dot : ℕ → Bool
is_dot c = not (c == 0x0a || c == 0x0d || c == 0x2028 || c == 0x2029)

module _ (accepts : ℕ → Bool) (continue : JsString → Bool) where
  -- x* and then the continuation, on the text
  unfoldable pub many : JsString → Bool
  many [] = continue []
  many (c ∷ s) = continue (c ∷ s) || (accepts c && many s)

  -- x*/ and then the continuation
  unfoldable pub many_slash : JsString → Bool
  many_slash [] = false
  many_slash (c ∷ s) = c == slash && continue s || (accepts c && many_slash s)

module _ (rules : CaseRules) (case : PathCaseSensitivity) where
  abbrev pub same_char : ℕ → ℕ → Bool
  same_char a b = elim case [
    | sensitive ↦ a == b
    | insensitive ↦ rules.canonicalize a == rules.canonicalize b
  ]

  abbrev pub in_segment : ℕ → Bool
  in_segment c = not (same_char slash c)

  unfoldable pub test : List Atom → JsString → Bool
  test [] s = is_empty s
  test (literal a ∷ atoms) [] = false
  test (literal a ∷ atoms) (c ∷ s) = same_char a c && test atoms s
  test (segment_char ∷ atoms) [] = false
  test (segment_char ∷ atoms) (c ∷ s) = in_segment c && test atoms s
  test (segment_run ∷ atoms) s = many in_segment (test atoms) s
  test (anything ∷ atoms) s = many is_dot (test atoms) s
  test (some_directories ∷ atoms) s = test atoms s || many_slash is_dot (test atoms) s
  test (below ∷ atoms) [] = test atoms []
  test (below ∷ atoms) (c ∷ s) =
      test atoms (c ∷ s) || (same_char slash c && many is_dot (test atoms) s)

  unfoldable pub selects : JsString → JsString → Bool
  selects selector path = test (selector_pattern selector) path

  abbrev pub path_identity : JsString → JsString
  path_identity path = elim case [ sensitive ↦ path | insensitive ↦ rules.to_lower_case path ]

unfoldable pub resolve_project_path : JsString → JsString → JsString
resolve_project_path root path =
    if path == current_part then root else normalise_path (root ++ slash ∷ path)

module _ (rules : CaseRules) (case : PathCaseSensitivity) where
  unfoldable pub task_consumes_path : TaskShape → JsString → Bool
  task_consumes_path task path =
      let canonical = normalise_path path in
      let identity = path_identity rules case canonical in
      let root = path_identity rules case task.project_root in
      any (λ input. selects rules case (resolve_project_path task.project_root input) canonical)
        task.inputs
      || any (λ input. selects rules case input canonical) (or_empty task.shared_inputs)
      || (is_empty task.inputs
          && is_empty (or_empty task.shared_inputs)
          && (identity == root || starts_with (root ++ slash ∷ []) identity))
