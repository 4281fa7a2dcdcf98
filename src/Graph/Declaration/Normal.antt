-- ===== src/Graph/Declaration/Normal.antt =====
-- The normal form of a declaration, a second time.
use tc_pipelines.Base.{
  ℕ, ◌≡◌, ◌≢◌, refl, sym, ap, ◌∙◌, subst, inl, inr, arith, Bool, true, false, List, [], ◌∷◌, map,
  Option, none, some, JsString, slash, backslash, replace_all, replace_all-Lacks, Lacks, sort_by,
  sorted, leb, js_le, js_le-IsTotal, sort_by_idempotent, Elem, Elem-of_map, Elem-sort_by, ◌==◌,
  nat_eq, eq_iff, Bool-cases, Result, ok, >>=-eq-ok,
}
use tc_pipelines.Schema.{
  ProjectDeclaration, TargetDeclaration, TaskResources, TaskEvidenceDeclaration, SdlcDeclaration,
}
use tc_pipelines.Graph.Identity.{evidence_le}
use tc_pipelines.Graph.Declaration.{
  if_given, name_le, normal_resources, normal_path, normal_paths, normal_item, normal_items,
  normal_project, normal_target, normalise_paths, validate_declaration,
}

map_fixed : {A : Type 0} (f : A → A) (xs : List A) → ((x : A) → Elem x xs → f x ≡ x) → map f xs ≡ xs
map_fixed f [] fixed = refl
map_fixed f (x ∷ xs) fixed =
    ap (λ y. y ∷ map f xs) (fixed x (inl refl))
    ∙ ap (λ ys. x ∷ ys) (map_fixed f xs (λ y m. fixed y (inr m)))

-- Sorting images of a function that changes them no more.
sort_again :
    {A : Type 0} (le : A → A → Bool) (total : (x y : A) → le x y ≡ false → le y x ≡ true)
    (f : A → A)
    → ((x : A) → f (f x) ≡ f x)
    → (xs : List A) → sort_by le (map f (sort_by le (map f xs))) ≡ sort_by le (map f xs)
sort_again le total f again xs =
    ap (sort_by le) (
      map_fixed f (sort_by le (map f xs)) (λ y m.
        let (x, k, e) = Elem-of_map f xs y ((Elem-sort_by le (map f xs) y).0 m) in
        ap f e ∙ again x ∙ sym e))
    ∙ sort_by_idempotent le total (map f xs)

if_given_again :
    {A : Type 0} (f : A → A)
    → ((x : A) → f (f x) ≡ f x)
    → (o : Option A) → if_given f (if_given f o) ≡ if_given f o
if_given_again f again none = refl
if_given_again f again (some value) = ap some (again value)

sorted_again : (xs : List JsString) → sorted (sorted xs) ≡ sorted xs
unfolding sorted
sorted_again xs = sort_by_idempotent js_le js_le-IsTotal.total xs

map_again :
    {A : Type 0} (f : A → A)
    → ((x : A) → f (f x) ≡ f x)
    → (xs : List A) → map f (map f xs) ≡ map f xs
map_again f again [] = refl
map_again f again (x ∷ xs) =
    ap (λ y. y ∷ map f (map f xs)) (again x) ∙ ap (λ ys. f x ∷ ys) (map_again f again xs)

unreplaced : (s : JsString) → Lacks backslash s → replace_all backslash slash s ≡ s
unfolding replace_all
unreplaced [] h = refl
unreplaced (c ∷ s) (apart, h) = elim (Bool-cases (c == backslash)) [
  | inl same ↦ absurd (apart ((eq_iff c backslash).0 same))
  | inr other ↦ rw other (ap (λ t. c ∷ t) (unreplaced s h))
]

normal_resources_again :
    (resources : TaskResources)
    → normal_resources (normal_resources resources) ≡ normal_resources resources
normal_resources_again resources =
    ap
      (λ (ports : List ℕ). record resources {
        ports = ports;
        exclusive = sorted (sorted resources.exclusive);
      })
      (sort_by_idempotent leb (λ x y h. ground arith) resources.ports)
    ∙ ap
        (λ (names : List JsString). record resources {
          ports = sort_by leb resources.ports;
          exclusive = names;
        })
        (sorted_again resources.exclusive)

module _ (posix_normalize : JsString → JsString)
    (normalises_once : (s : JsString) → posix_normalize (posix_normalize s) ≡ posix_normalize s)
    (adds_no_backslash : (s : JsString)
      → Lacks backslash s
      → Lacks backslash (posix_normalize s)) where
  normal_path_again :
      (value : JsString)
      → normal_path posix_normalize (normal_path posix_normalize value)
        ≡ normal_path posix_normalize value
  normal_path_again value =
      let plain = replace_all backslash slash value in
      ap posix_normalize (
        unreplaced (posix_normalize plain)
          (adds_no_backslash plain (replace_all-Lacks backslash slash value apart)))
      ∙ normalises_once plain
    where
      apart : slash ≢ backslash
      apart e = absurd (cc)

  normal_paths_again :
      (xs : List JsString)
      → normal_paths posix_normalize (normal_paths posix_normalize xs)
        ≡ normal_paths posix_normalize xs
  unfolding sorted
  normal_paths_again xs =
      sort_again js_le js_le-IsTotal.total (normal_path posix_normalize) normal_path_again xs

  normal_items_again :
      (xs : List TaskEvidenceDeclaration)
      → normal_items posix_normalize (normal_items posix_normalize xs)
        ≡ normal_items posix_normalize xs
  normal_items_again xs =
      sort_again evidence_le (λ x y. js_le-IsTotal.total x.path y.path)
        (normal_item posix_normalize)
        (λ item.
          ap (λ path. record { path = path; media_type = item.media_type })
            (normal_path_again item.path))
        xs

  normal_project_again :
      (p : ProjectDeclaration)
      → normal_project posix_normalize (normal_project posix_normalize p)
        ≡ normal_project posix_normalize p
  normal_project_again p =
      ap
        (λ root. record {
          name = p.name;
          root = root;
          depends_on = if_given sorted (if_given sorted p.depends_on);
        })
        (normal_path_again p.root)
      ∙ ap
          (λ names. record {
            name = p.name;
            root = normal_path posix_normalize p.root;
            depends_on = names;
          })
          (if_given_again sorted sorted_again p.depends_on)

  normal_target_again :
      (entry : JsString × TargetDeclaration)
      → normal_target posix_normalize (normal_target posix_normalize entry)
        ≡ normal_target posix_normalize entry
  normal_target_again (name, target) =
      rw
        (
          if_given_again sorted sorted_again target.depends_on,
          if_given_again (normal_paths posix_normalize) normal_paths_again target.inputs,
          if_given_again (normal_paths posix_normalize) normal_paths_again target.shared_inputs,
          if_given_again (normal_paths posix_normalize) normal_paths_again target.outputs,
          if_given_again (normal_items posix_normalize) normal_items_again target.evidence,
          if_given_again normal_resources normal_resources_again target.resources,
        )
        refl

  -- If posix.normalize changes nothing the second time and adds no backslash, then validating a
  -- declaration that validateDeclaration returned, with an accepted schema, returns it unchanged.
  pub validate_declaration_idempotent :
      (checked : Result (Unit {0})) (raw declaration : SdlcDeclaration)
      → validate_declaration posix_normalize checked raw ≡ ok declaration
      → validate_declaration posix_normalize (ok tt) declaration ≡ ok declaration
  unfolding validate_declaration normalise_paths
  validate_declaration_idempotent checked raw declaration h =
      let once = normalise_paths posix_normalize raw in
      let (_, _, made) = >>=-eq-ok checked (λ _. ok once) h in
      let same : once ≡ declaration = cc in
      subst (λ d. ok (normalise_paths posix_normalize d) ≡ ok d) same
        (ap ok (
          ap
            (λ projects. record once {
              projects = projects;
              targets = map (normal_target posix_normalize) once.targets;
            })
            (sort_again name_le (λ x y. js_le-IsTotal.total x.name y.name)
              (normal_project posix_normalize) normal_project_again raw.projects)
          ∙ ap (λ targets. record once { targets = targets })
              (map_again (normal_target posix_normalize) normal_target_again raw.targets)))
