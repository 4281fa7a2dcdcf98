-- ===== src/Graph/Paths/Drives.antt =====
-- `assertRelativePath` and `normalisePath` (graph/path.ts) on paths with a drive letter.
use tc_pipelines.Base.{
  ℕ, ◌≡◌, refl, ap, ◌∙◌, ◌≢◌, true, false, [], ◌∷◌, arith, JsString, slash, backslash, split, join,
  replace_all, starts_with, list_eq, nat_eq, list_beq, has, Lacks, split-append, split_of_Lacks,
  replace_all_of_Lacks, ok,
}
use tc_pipelines.Graph.Paths.{
  current_part, named_parts, join_or_current, normalise_path, is_letter, is_ambiguous,
  assert_relative_path,
}

-- The text holds no separator and no NUL.
abbrev pub IsPlainText : JsString → Type 0
IsPlainText s = Lacks slash s × Lacks backslash s × Lacks 0 s

module _ (c : ℕ) (s : JsString) (letter : is_letter c ≡ true) (plain : IsPlainText s) where
  abbrev drive : JsString
  drive = c ∷ b':' ∷ s

  abbrev hidden : JsString
  hidden = b'.' ∷ slash ∷ drive

  drive-Lacks-slash : Lacks slash drive
  drive-Lacks-slash = (ground arith, (ground arith, plain.0))

  drive-Lacks-backslash : Lacks backslash drive
  drive-Lacks-backslash = (ground arith, (ground arith, plain.1))

  replace-hidden : replace_all backslash slash hidden ≡ hidden
  replace-hidden =
      replace_all_of_Lacks backslash slash hidden
        (ground arith, (ground arith, drive-Lacks-backslash))

  split-hidden : split slash hidden ≡ current_part ∷ drive ∷ []
  split-hidden =
      split-append slash current_part drive (ground arith, tt)
      ∙ ap (λ t. current_part ∷ t) (split_of_Lacks slash drive drive-Lacks-slash)

  no_zero : (t : JsString) → Lacks 0 t → has t 0 ≡ false
  no_zero [] h = refl
  no_zero (x ∷ t) (p, h) = ground (arith, no_zero t h)

  hidden-accepted : is_ambiguous hidden ≡ false
  unfolding list_beq starts_with
  hidden-accepted = rw split-hidden (ground (arith, no_zero s plain.2))

  named-drive : named_parts hidden ≡ drive ∷ []
  unfolding named_parts list_beq
  named-drive = rw (replace-hidden, split-hidden) (ground arith)

  normalise-hidden : normalise_path hidden ≡ drive
  unfolding normalise_path join
  normalise-hidden = ap join_or_current named-drive

  drive-rejected : (context : JsString) → assert_relative_path drive context ≢ ok tt
  unfolding assert_relative_path starts_with
  drive-rejected context h =
      let same = replace_all_of_Lacks backslash slash drive drive-Lacks-backslash in
      let drives : is_ambiguous drive ≡ true = ground arith in ground arith

-- For every drive letter and every plain text behind it, `assertRelativePath` accepts "./c:text"
-- although it rejects the path's normal form, "c:text".
pub normalise_path_drive :
    (c : ℕ) (s context : JsString)
    → is_letter c ≡ true
    → IsPlainText s
    → (assert_relative_path (b'.' ∷ slash ∷ c ∷ b':' ∷ s) context ≡ ok tt)
      × (normalise_path (b'.' ∷ slash ∷ c ∷ b':' ∷ s) ≡ c ∷ b':' ∷ s)
      × (assert_relative_path (c ∷ b':' ∷ s) context ≢ ok tt)
unfolding assert_relative_path
normalise_path_drive c s context letter plain = (
  rw (replace-hidden c s letter plain, hidden-accepted c s letter plain),
  normalise-hidden c s letter plain,
  drive-rejected c s letter plain context,
)
