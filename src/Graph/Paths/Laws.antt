-- ===== src/Graph/Paths/Laws.antt =====
-- The normal form of a path, and what the check of a relative path gives for it.
use tc_pipelines.Base.{
  ◌≡◌, refl, sym, ap, ◌∙◌, subst, ◌≢◌, true, false, List, [], ◌∷◌, arith, JsString, slash,
  backslash, split, join, replace_all, list_eq, nat_eq, list_beq, has, has_iff, keep, All, All-elem,
  All-intro, Elem, Elem-keep, Lacks, split-join, split-Lacks, split-Lacks_other, replace_all-Lacks,
  replace_all_of_Lacks, join-Lacks, ok,
}
use tc_pipelines.Graph.Paths.{
  parent_part, is_named, named_parts, join_or_current, normalise_path, is_ambiguous,
  assert_relative_path,
}

-- A part that names a file: neither empty nor ".", and with no separator in it.
abbrev pub IsNamed : JsString → Type 0
IsNamed part = (is_named part ≡ true) × Lacks slash part × Lacks backslash part

named_parts-IsNamed : (value : JsString) → All IsNamed (named_parts value)
unfolding named_parts
named_parts-IsNamed value = All-intro IsNamed (named_parts value) λ part m.
    let path = replace_all backslash slash value in
    let (listed, named) = (Elem-keep is_named (split slash path) part).0 m in
    let no_slash = All-elem (Lacks slash) (split slash path) part (split-Lacks slash path) listed in
    let whole = replace_all-Lacks backslash slash value (ground arith) in
    let parts = split-Lacks_other slash backslash path whole in
    (named, no_slash, All-elem (Lacks backslash) (split slash path) part parts listed)

keep-All : (parts : List JsString) → All IsNamed parts → keep is_named parts ≡ parts
keep-All [] h = refl
keep-All (part ∷ parts) (p, h) = rw p.0 (ap (λ t. part ∷ t) (keep-All parts h))

All-map {ℓ κ} :
    {P : JsString → Type ℓ} {Q : JsString → Type κ} (parts : List JsString)
    → ((s : JsString) → P s → Q s)
    → All P parts
    → All Q parts
All-map [] f h = tt
All-map (part ∷ parts) f (p, h) = (f part p, All-map parts f h)

-- Joined again, named parts are the named parts of the text.
named_parts-join :
    (parts : List JsString) → All IsNamed parts → named_parts (join_or_current parts) ≡ parts
unfolding named_parts replace_all split list_beq
named_parts-join [] h = refl
named_parts-join (part ∷ parts) h =
    let all = part ∷ parts in
    let clean : Lacks backslash (join slash all) =
      join-Lacks slash backslash all (ground arith) (All-map all (λ s p. p.2) h) in
    let same = replace_all_of_Lacks backslash slash (join slash all) clean in
    let parted = split-join slash part parts (All-map all (λ s p. p.1) h) in
    ap (λ t. keep is_named (split slash t)) same ∙ ap (keep is_named) parted ∙ keep-All all h

-- Normalising a path a second time changes nothing.
pub normalise_path_idempotent :
    (value : JsString) → normalise_path (normalise_path value) ≡ normalise_path value
unfolding normalise_path
normalise_path_idempotent value =
    ap join_or_current (named_parts-join (named_parts value) (named_parts-IsNamed value))

-- A part that stays inside the directory that it is resolved in.
abbrev pub IsInside : JsString → Type 0
IsInside part = (part ≢ []) × (part ≢ parent_part) × Lacks backslash part

is_named-ne-nil : (part : JsString) → is_named part ≡ true → part ≢ []
unfolding list_beq
is_named-ne-nil [] h = cc
is_named-ne-nil (c ∷ part) h = ground arith

ok_not_ambiguous :
    (value context : JsString)
    → assert_relative_path value context ≡ ok tt
    → is_ambiguous (replace_all backslash slash value) ≡ false
unfolding assert_relative_path
ok_not_ambiguous value context h = ground arith

no_parent :
    (path : JsString) → is_ambiguous path ≡ false → has (split slash path) parent_part ≡ false
no_parent path h = ground arith

module _ (value context : JsString) (accepted : assert_relative_path value context ≡ ok tt) where
  named_parts-ne-parent : (part : JsString) → Elem part (named_parts value) → part ≢ parent_part
  unfolding named_parts
  named_parts-ne-parent part m e =
      let path = replace_all backslash slash value in
      let listed = ((Elem-keep is_named (split slash path) part).0 m).0 in
      let found =
        (has_iff (split slash path) parent_part).1
          (subst (λ p. Elem p (split slash path)) e listed) in
      let absent = no_parent path (ok_not_ambiguous value context accepted) in cc

  named_parts-IsInside : All IsInside (named_parts value)
  named_parts-IsInside = All-intro IsInside (named_parts value) λ part m.
      let (named, _, clean) =
        All-elem IsNamed (named_parts value) part (named_parts-IsNamed value) m in
      (is_named-ne-nil part named, named_parts-ne-parent part m, clean)

IsInside-join :
    (parts : List JsString)
    → All IsNamed parts
    → All IsInside parts
    → All IsInside (split slash (join_or_current parts))
unfolding split
IsInside-join [] named h = ((cc, cc, (ground arith, tt)), tt)
IsInside-join (part ∷ parts) named h =
    subst (All IsInside)
      (sym (split-join slash part parts (All-map (part ∷ parts) (λ s p. p.1) named))) h

-- A path that `assertRelativePath` accepts has a normal form with no empty part, no ".." and no
-- backslash.
pub normalise_path-IsInside :
    (value context : JsString)
    → assert_relative_path value context ≡ ok tt
    → All IsInside (split slash (normalise_path value))
unfolding normalise_path
normalise_path-IsInside value context h =
    IsInside-join (named_parts value) (named_parts-IsNamed value)
      (named_parts-IsInside value context h)
