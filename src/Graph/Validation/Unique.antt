-- ===== src/Graph/Validation/Unique.antt =====
-- What the checks of identities accept.
use tc_pipelines.Base.{
  ◌≡◌, ◌↔◌, inl, inr, refl, ap, ◌∙◌, subst, arith, true, false, List, [], ◌∷◌, map, JsString, ◌==◌,
  nat_eq, list_eq, has, has_iff, add, has-add, eq_iff, Distinct, Elem, Elem-map, Elem-of_map, ok,
  Bool-cases,
}
use tc_pipelines.Graph.Validation.{
  unique_from, assert_unique_identities, unambiguous_from, assert_unambiguous_paths, path_fold,
}

-- No value is in the set, and no two values have the same image.
abbrev Fresh : (JsString → JsString) → List JsString → List JsString → Type 0
Fresh fold seen values =
    Distinct (map fold values) × ((v : JsString) → Elem v values → has seen (fold v) ≡ false)

module _ (fold : JsString → JsString) (seen : List JsString) (value : JsString)
    (values : List JsString) where
  Fresh-cons :
      has seen (fold value) ≡ false
      → Fresh fold (add seen (fold value)) values
      → Fresh fold seen (value ∷ values)
  Fresh-cons new (distinct, later) = (
    (
      elim (Bool-cases (has (map fold values) (fold value))) [
        | inr other ↦ other
        | inl twice ↦
            let (w, m, same) =
              Elem-of_map fold values (fold value)
                ((has_iff (map fold values) (fold value)).0 twice) in
            let gone = later w m in
            absurd (
              ground
                (arith, gone, has-add seen (fold value) (fold w), eq_iff (fold value) (fold w)))
      ],
      distinct,
    ),
    λ v m. elim m [
      | inl e ↦ ap (λ x. has seen (fold x)) e ∙ new
      | inr n ↦ let gone = later v n in ground (arith, has-add seen (fold value) (fold v))
    ],
  )

  Fresh-tail : Fresh fold seen (value ∷ values) → Fresh fold (add seen (fold value)) values
  Fresh-tail ((apart, distinct), h) = (
    distinct,
    λ v m.
        let new = h v (inr m) in
        elim (Bool-cases (fold value == fold v)) [
          | inr other ↦ ground (arith, has-add seen (fold value) (fold v))
          | inl same ↦
              let listed : has (map fold values) (fold v) ≡ true =
                (has_iff (map fold values) (fold v)).1 (Elem-map fold values v m) in
              let e = (eq_iff (fold value) (fold v)).0 same in
              absurd (
                let here : has (map fold values) (fold v) ≡ false =
                  subst (λ x. has (map fold values) x ≡ false) e apart in
                cc)
        ],
  )

unambiguous_from-Fresh :
    (lower : JsString → JsString) (seen values : List JsString) (context : JsString)
    → (unambiguous_from lower seen values context ≡ ok tt) ↔ Fresh (path_fold lower) seen values
unfolding unambiguous_from
unambiguous_from-Fresh lower seen [] context = (λ h. (tt, λ v m. elim m [ ]), λ h. refl)
unambiguous_from-Fresh lower seen (value ∷ values) context =
    let next = unambiguous_from-Fresh lower (add seen (path_fold lower value)) values context in
    (
      λ h. elim (Bool-cases (has seen (path_fold lower value))) [
        | inl old ↦ absurd (ground arith)
        | inr new ↦ Fresh-cons (path_fold lower) seen value values new (next.0 (ground arith))
      ],
      λ fresh.
          let new = fresh.1 value (inl refl) in
          let rest = next.1 (Fresh-tail (path_fold lower) seen value values fresh) in ground arith,
    )

unique_from-Fresh :
    (lower : JsString → JsString) (exact seen values : List JsString) (kind : JsString)
    → ((v : JsString) → has exact v ≡ true → has seen (lower v) ≡ true)
    → (unique_from lower exact seen values kind ≡ ok tt) ↔ Fresh lower seen values
unfolding unique_from
unique_from-Fresh lower exact seen [] kind sub = (λ h. (tt, λ v m. elim m [ ]), λ h. refl)
unique_from-Fresh lower exact seen (value ∷ values) kind sub =
    let next =
      unique_from-Fresh lower (add exact value) (add seen (lower value)) values kind (λ v h.
        elim (Bool-cases (value == v)) [
          | inl same ↦
              let e = ap lower ((eq_iff value v).0 same) in
              ground (arith, has-add seen (lower value) (lower v), eq_iff (lower value) (lower v))
          | inr other ↦
              let old = sub v (ground (arith, has-add exact value v)) in
              ground (arith, has-add seen (lower value) (lower v))
        ]) in
    (
      λ h. elim (Bool-cases (has exact value)) [
        | inl old ↦ absurd (ground arith)
        | inr unseen ↦ elim (Bool-cases (has seen (lower value))) [
          | inl old ↦ absurd (ground arith)
          | inr new ↦ Fresh-cons lower seen value values new (next.0 (ground arith))
        ]
      ],
      λ fresh.
          let new = fresh.1 value (inl refl) in
          let rest = next.1 (Fresh-tail lower seen value values fresh) in
          elim (Bool-cases (has exact value)) [
            | inl old ↦ absurd (let folded = sub value old in cc)
            | inr unseen ↦ ground arith
          ],
    )

-- `assertUniqueIdentities` accepts exactly the names that stay distinct in lower case.
pub assert_unique_identities_iff :
    (lower : JsString → JsString) (values : List JsString) (kind : JsString)
    → (assert_unique_identities lower values kind ≡ ok tt) ↔ Distinct (map lower values)
unfolding assert_unique_identities
assert_unique_identities_iff lower values kind =
    let (to, from) = unique_from-Fresh lower [] [] values kind (λ v h. absurd (cc)) in
    (λ h. (to h).0, λ d. from (d, λ v m. refl))

-- `assertUnambiguousPaths` accepts exactly the paths whose normal forms stay distinct in lower case.
pub assert_unambiguous_paths_iff :
    (lower : JsString → JsString) (values : List JsString) (context : JsString)
    → (assert_unambiguous_paths lower values context ≡ ok tt)
      ↔ Distinct (map (path_fold lower) values)
unfolding assert_unambiguous_paths
assert_unambiguous_paths_iff lower values context =
    let (to, from) = unambiguous_from-Fresh lower [] values context in
    (λ h. (to h).0, λ d. from (d, λ v m. refl))
