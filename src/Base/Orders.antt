-- ===== src/Base/Orders.antt =====
-- What a sort returns does not depend on the order of its items, if the order is total.
use mathlib.Core.Path.{◌≡◌, refl, sym, ap, ◌∙◌, subst}
use mathlib.Core.Logic.{inl, inr}
use mathlib.Core.Bool.{Bool, true, false, not}
use mathlib.Core.List.{List, [], ◌∷◌}
use mathlib.Core.List.{Permᴰ}
use mathlib.Core.List.Permᴰ.{nil, cons, swap, trans}
use native.Mathlib.Omega.{arith}
use tc_pipelines.Base.Tests.{Bool-cases}
use tc_pipelines.Base.Text.{JsString, js_lt}
use tc_pipelines.Base.Sorting.{insert_sorted, sort_by, js_le}

-- A test that is a total preorder.
pub record IsPreorder {ℓ} {A : Type ℓ} (le : A → A → Bool) : Type ℓ where
  pub transitive : (x y z : A) → le x y ≡ true → le y z ≡ true → le x z ≡ true
  pub total : (x y : A) → le x y ≡ false → le y x ≡ true

-- Two items that are the same if each goes before the other.
abbrev pub AreOrdered {ℓ} : {A : Type ℓ} → (A → A → Bool) → A → A → Type ℓ
AreOrdered le x y = le x y ≡ true → le y x ≡ true → x ≡ y

-- A test that is a total order.
pub record IsTotal {ℓ} {A : Type ℓ} (le : A → A → Bool) : Type ℓ where
  pub preorder : IsPreorder le
  pub open preorder use *
  pub antisymmetric : (x y : A) → AreOrdered le x y

module _ {ℓ} {A : Type ℓ} (le : A → A → Bool) (order : IsPreorder le) where
  here : (x z : A) (zs : List A) → le x z ≡ true → insert_sorted le x (z ∷ zs) ≡ x ∷ z ∷ zs
  unfolding insert_sorted
  here x z zs h = rw h refl

  there :
      (x z : A) (zs : List A)
      → le x z ≡ false
      → insert_sorted le x (z ∷ zs) ≡ z ∷ insert_sorted le x zs
  unfolding insert_sorted
  there x z zs h = rw h refl

  -- Two items that go before the rest.
  both_first :
      (x y z : A) (zs : List A)
      → AreOrdered le x y
      → le x z ≡ true
      → le y z ≡ true
      → insert_sorted le x (y ∷ z ∷ zs) ≡ insert_sorted le y (x ∷ z ∷ zs)
  both_first x y z zs apart hx hy = elim (Bool-cases (le x y)) [
    | inr more ↦
        there x y (z ∷ zs) more
        ∙ ap (λ t. y ∷ t) (here x z zs hx)
        ∙ sym (here y x (z ∷ zs) (order.total x y more))
    | inl less ↦ elim (Bool-cases (le y x)) [
      | inl both ↦
          let same = apart less both in
          ap (λ w. insert_sorted le w (y ∷ z ∷ zs)) same
          ∙ ap (λ w. insert_sorted le y (w ∷ z ∷ zs)) (sym same)
      | inr only ↦
          here x y (z ∷ zs) less ∙ sym (there y x (z ∷ zs) only ∙ ap (λ t. x ∷ t) (here y z zs hy))
    ]
  ]

  -- An item before the rest, and one behind the first of it.
  around :
      (x y z : A) (zs : List A)
      → le x z ≡ true
      → le y z ≡ false
      → insert_sorted le x (z ∷ insert_sorted le y zs) ≡ insert_sorted le y (x ∷ z ∷ zs)
  around x y z zs hx hy = elim (Bool-cases (le y x)) [
    | inl less ↦ absurd (let through = order.transitive y x z less hx in cc)
    | inr more ↦
        here x z (insert_sorted le y zs) hx
        ∙ sym (there y x (z ∷ zs) more ∙ ap (λ t. x ∷ t) (there y z zs hy))
  ]

  pub insert_sorted_comm :
      (x y : A) (zs : List A)
      → AreOrdered le x y
      → insert_sorted le x (insert_sorted le y zs) ≡ insert_sorted le y (insert_sorted le x zs)
  unfolding insert_sorted
  insert_sorted_comm x y [] apart = elim (Bool-cases (le x y)) [
    | inr more ↦ rw (more, order.total x y more) refl
    | inl less ↦ elim (Bool-cases (le y x)) [
      | inl both ↦ rw (apart less both) refl
      | inr only ↦ rw (less, only) refl
    ]
  ]
  insert_sorted_comm x y (z ∷ zs) apart = elim (Bool-cases (le x z)) [
    | inl hx ↦ elim (Bool-cases (le y z)) [
      | inl hy ↦
          ap (insert_sorted le x) (here y z zs hy)
          ∙ both_first x y z zs apart hx hy
          ∙ sym (ap (insert_sorted le y) (here x z zs hx))
      | inr hy ↦
          ap (insert_sorted le x) (there y z zs hy)
          ∙ around x y z zs hx hy
          ∙ sym (ap (insert_sorted le y) (here x z zs hx))
    ]
    | inr hx ↦ elim (Bool-cases (le y z)) [
      | inl hy ↦
          ap (insert_sorted le x) (here y z zs hy)
          ∙ sym (around y x z zs hy hx)
          ∙ sym (ap (insert_sorted le y) (there x z zs hx))
      | inr hy ↦
          ap (insert_sorted le x) (there y z zs hy)
          ∙ there x z (insert_sorted le y zs) hx
          ∙ ap (λ t. z ∷ t) (insert_sorted_comm x y zs apart)
          ∙ sym (ap (insert_sorted le y) (there x z zs hx) ∙ there y z (insert_sorted le x zs) hy)
    ]
  ]

-- Each item goes before the next one.
data IsAscending {ℓ} {A : Type ℓ} (le : A → A → Bool) : List A → Type ℓ where
  nothing : IsAscending le []
  single : (x : A) → IsAscending le (x ∷ [])
  before :
      (x y : A) (ys : List A)
      → le x y ≡ true
      → IsAscending le (y ∷ ys)
      → IsAscending le (x ∷ y ∷ ys)

module _ {ℓ} {A : Type ℓ} (le : A → A → Bool) where
  insert_sorted-IsAscending :
      (total : (x y : A) → le x y ≡ false → le y x ≡ true) (x : A) {ys : List A}
      → IsAscending le ys
      → IsAscending le (insert_sorted le x ys)
  unfolding insert_sorted
  insert_sorted-IsAscending total x nothing = single x
  insert_sorted-IsAscending total x (single y) = elim (Bool-cases (le x y)) [
    | inl first ↦ rw first (before x y [] first (single y))
    | inr later ↦ rw later (before y x [] (total x y later) (single x))
  ]
  insert_sorted-IsAscending total x (before y z zs less rest) = elim (Bool-cases (le x y)) [
    | inl first ↦ rw first (before x y (z ∷ zs) first (before y z zs less rest))
    | inr later ↦
        let inner = insert_sorted-IsAscending total x rest in
        rw later (elim (Bool-cases (le x z)) [
          | inl middle ↦
              rw middle (before y x (z ∷ zs) (total x y later) (before x z zs middle rest))
          | inr last ↦ rw last (
              before y z (insert_sorted le x zs) less (subst (IsAscending le) (rw last refl) inner))
        ])
  ]

  sort_by-IsAscending :
      ((x y : A) → le x y ≡ false → le y x ≡ true) → (xs : List A) → IsAscending le (sort_by le xs)
  unfolding sort_by
  sort_by-IsAscending total [] = nothing
  sort_by-IsAscending total (x ∷ xs) =
      insert_sorted-IsAscending total x (sort_by-IsAscending total xs)

  sort_by_ascending : {xs : List A} → IsAscending le xs → sort_by le xs ≡ xs
  unfolding sort_by insert_sorted
  sort_by_ascending nothing = refl
  sort_by_ascending (single x) = refl
  sort_by_ascending (before x y ys less rest) =
      ap (insert_sorted le x) (sort_by_ascending rest) ∙ rw less refl

  -- Sorting a second time changes nothing.
  pub sort_by_idempotent :
      ((x y : A) → le x y ≡ false → le y x ≡ true)
      → (xs : List A) → sort_by le (sort_by le xs) ≡ sort_by le xs
  sort_by_idempotent total xs = sort_by_ascending (sort_by-IsAscending total xs)

module _ {ℓ} {A : Type ℓ} (le : A → A → Bool) (order : IsTotal le) where
  pub sort_by-Perm : {xs ys : List A} → Permᴰ xs ys → sort_by le xs ≡ sort_by le ys
  unfolding sort_by
  sort_by-Perm nil = refl
  sort_by-Perm (cons {a = a} {b = b} {l₁ = xs} e p) =
      ap (λ x. insert_sorted le x (sort_by le xs)) e ∙ ap (insert_sorted le b) (sort_by-Perm p)
  sort_by-Perm (swap {b = b} {a' = a'} {b' = b'} {l = l} e f) =
      ap (λ x. insert_sorted le x (insert_sorted le b (sort_by le l))) e
      ∙ ap (λ x. insert_sorted le b' (insert_sorted le x (sort_by le l))) f
      ∙ insert_sorted_comm le order.preorder b' a' (sort_by le l) (order.antisymmetric b' a')
  sort_by-Perm (trans p q) = sort_by-Perm p ∙ sort_by-Perm q

pub js_lt_trans : (s t u : JsString) → js_lt t s ≡ false → js_lt u t ≡ false → js_lt u s ≡ false
unfolding js_lt
js_lt_trans [] [] u h k = k
js_lt_trans [] (y ∷ t) [] h k = refl
js_lt_trans [] (y ∷ t) (z ∷ u) h k = refl
js_lt_trans (x ∷ s) [] u h k = absurd (cc)
js_lt_trans (x ∷ s) (y ∷ t) [] h k = absurd (cc)
js_lt_trans (x ∷ s) (y ∷ t) (z ∷ u) h k = ground (arith, js_lt_trans s t u)

pub js_lt_antisymm : (s t : JsString) → js_lt t s ≡ false → js_lt s t ≡ false → s ≡ t
unfolding js_lt
js_lt_antisymm [] [] h k = refl
js_lt_antisymm [] (y ∷ t) h k = absurd (cc)
js_lt_antisymm (x ∷ s) [] h k = absurd (cc)
js_lt_antisymm (x ∷ s) (y ∷ t) h k = ground (arith, js_lt_antisymm s t)

pub js_lt-asymm : (s t : JsString) → js_lt t s ≡ true → js_lt s t ≡ false
unfolding js_lt
js_lt-asymm [] [] h = absurd (cc)
js_lt-asymm [] (y ∷ t) h = absurd (cc)
js_lt-asymm (x ∷ s) [] h = refl
js_lt-asymm (x ∷ s) (y ∷ t) h = ground (arith, js_lt-asymm s t)

-- Strings are totally ordered by their code units.
pub js_le-IsTotal : IsTotal js_le
js_le-IsTotal = record {
  preorder = record {
    transitive = λ x y z h k. ap not (js_lt_trans x y z (not_true h) (not_true k));
    total = λ x y h. ap not (js_lt-asymm x y (not_false h));
  };
  antisymmetric = λ x y h k. js_lt_antisymm x y (not_true h) (not_true k);
}
  where
    not_true : {b : Bool} → not b ≡ true → b ≡ false
    not_true h = ground arith

    not_false : {b : Bool} → not b ≡ false → b ≡ true
    not_false h = ground arith
