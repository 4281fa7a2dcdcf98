-- ===== src/Base/Sorting.antt =====
-- `Array.prototype.sort` with a comparison: a stable sort.
use mathlib.Core.Path.{◌≡◌}
use mathlib.Core.Logic.{◌↔◌, ◌⊎◌, inl, inr}
use mathlib.Core.Bool.{Bool, not}
use mathlib.Core.List.{List, [], ◌∷◌}
use tc_pipelines.Base.Tests.{if◌then◌else◌, Bool-cases}
use tc_pipelines.Base.Lists.{Elem}
use tc_pipelines.Base.Text.{JsString, js_lt}

module _ {ℓ} {A : Type ℓ} (le : A → A → Bool) where
  unfoldable pub insert_sorted : A → List A → List A
  insert_sorted x [] = x ∷ []
  insert_sorted x (y ∷ ys) = if le x y then x ∷ y ∷ ys else y ∷ insert_sorted x ys

  -- An item that stood before another one stays before it, unless the order puts it behind.
  unfoldable pub sort_by : List A → List A
  sort_by [] = []
  sort_by (x ∷ xs) = insert_sorted x (sort_by xs)

abbrev pub js_le : JsString → JsString → Bool
js_le s t = not (js_lt t s)

-- The default order of strings, and that of `left < right ? -1 : left > right ? 1 : 0`.
unfoldable pub sorted : List JsString → List JsString
sorted = sort_by js_le

module _ {A : Type 0} (le : A → A → Bool) where
  Elem-insert_sorted :
      (x : A) (ys : List A) (a : A) → Elem a (insert_sorted le x ys) ↔ ((a ≡ x) ⊎ Elem a ys)
  unfolding insert_sorted
  Elem-insert_sorted x [] a = (λ m. m, λ m. m)
  Elem-insert_sorted x (y ∷ ys) a = elim (Bool-cases (le x y)) [
    | inl first ↦ rw first (λ m. m, λ m. m)
    | inr later ↦
        let rest = Elem-insert_sorted x ys a in
        rw later (
          λ m. elim m [
            | inl here ↦ inr (inl here)
            | inr there ↦ elim (rest.0 there) [ inl new ↦ inl new | inr old ↦ inr (inr old) ]
          ],
          λ m. elim m [
            | inl new ↦ inr (rest.1 (inl new))
            | inr (inl here) ↦ inl here
            | inr (inr old) ↦ inr (rest.1 (inr old))
          ],
        )
  ]

  -- Sorting neither adds nor drops an item.
  pub Elem-sort_by : (xs : List A) (a : A) → Elem a (sort_by le xs) ↔ Elem a xs
  unfolding sort_by
  Elem-sort_by [] a = (λ m. m, λ m. m)
  Elem-sort_by (x ∷ xs) a =
      let here = Elem-insert_sorted x (sort_by le xs) a in
      let rest = Elem-sort_by xs a in
      (
        λ m. elim (here.0 m) [ inl new ↦ inl new | inr old ↦ inr (rest.0 old) ],
        λ m. elim m [ inl new ↦ here.1 (inl new) | inr old ↦ here.1 (inr (rest.1 old)) ],
      )

pub Elem-sorted : (xs : List JsString) (a : JsString) → Elem a (sorted xs) ↔ Elem a xs
unfolding sorted
Elem-sorted xs a = Elem-sort_by js_le xs a
