-- ===== src/Base/Sets.antt =====
-- JavaScript's `Set` and `Map` as lists in the order of insertion.
use Prim.Native.Nat.{◌≤◌, ◌<◌}
use mathlib.Core.Path.{◌≡◌, refl, sym}
use mathlib.Core.Logic.{inl, inr, ◌↔◌}
use mathlib.Core.Bool.{Bool, true, false, ◌&&◌, ◌||◌, not}
use mathlib.Core.Option.{Option, none, some}
use mathlib.Core.List.{List, [], ◌∷◌, ◌++◌}
use native.Mathlib.Omega.{arith}
use tc_pipelines.Base.Tests.{if◌then◌else◌, Bool-cases, Eq}
use tc_pipelines.Base.Lists.{length, Elem}

module _ {ℓ} {A : Type ℓ} ⦃e : Eq A⦄ where
  abbrev pub has : List A → A → Bool
  has [] a = false
  has (x ∷ xs) a = e.equals x a || has xs a

  unfoldable pub add : List A → A → List A
  add xs a = if has xs a then xs else xs ++ a ∷ []

  unfoldable pub delete : List A → A → List A
  delete [] a = []
  delete (x ∷ xs) a = if e.equals x a then delete xs a else x ∷ delete xs a

  -- `new Set(values)`
  unfoldable pub set_of : List A → List A
  set_of [] = []
  set_of (x ∷ xs) = x ∷ delete (set_of xs) x

  pub has-append : (xs ys : List A) (a : A) → has (xs ++ ys) a ≡ (has xs a || has ys a)
  has-append [] ys a = refl
  has-append (x ∷ xs) ys a = ground (arith, has-append xs ys a)

  pub has-add : (xs : List A) (a b : A) → has (add xs a) b ≡ (e.equals a b || has xs b)
  unfolding add
  has-add xs a b = ground (arith, has-append xs (a ∷ []) b, e.equals_iff a b)

  pub has-delete : (xs : List A) (a b : A) → has (delete xs a) b ≡ (not (e.equals a b) && has xs b)
  unfolding delete
  has-delete [] a b = ground arith
  has-delete (x ∷ xs) a b =
      ground (arith, has-delete xs a b, e.equals_iff x a, e.equals_iff a b, e.equals_iff x b)

  pub length-delete-le : (xs : List A) (a : A) → length (delete xs a) ≤ length xs
  unfolding delete
  length-delete-le [] a = omega arith
  length-delete-le (x ∷ xs) a = ground (arith, length-delete-le xs a)

  pub length-delete-lt : (xs : List A) (a : A) → has xs a ≡ true → length (delete xs a) < length xs
  unfolding delete
  length-delete-lt [] a h = absurd (cc)
  length-delete-lt (x ∷ xs) a h = ground (arith, length-delete-lt xs a, length-delete-le xs a)

  -- No item stands twice.
  abbrev pub Distinct : List A → Type 0
  Distinct [] = Unit
  Distinct (x ∷ xs) = (has xs x ≡ false) × Distinct xs

pub has_iff : {A : Type 0} ⦃e : Eq A⦄ (xs : List A) (a : A) → (has xs a ≡ true) ↔ Elem a xs
has_iff [] a = ground arith
has_iff ⦃e⦄ (x ∷ xs) a = (
  λ h. elim (Bool-cases (e.equals x a)) [
    | inl same ↦ inl (sym ((e.equals_iff x a).0 same))
    | inr other ↦ inr ((has_iff xs a).0 (rw other at h))
  ],
  λ m. elim m [
    | inl same ↦ rw ((e.equals_iff x a).1 (sym same))
    | inr later ↦ rw ((has_iff xs a).1 later) (ground arith)
  ],
)

module _ {ℓ κ} {K : Type ℓ} {V : Type κ} ⦃e : Eq K⦄ where
  abbrev pub lookup : K → List (K × V) → Option V
  lookup k [] = none
  lookup k ((j, v) ∷ m) = if e.equals j k then some v else lookup k m

  unfoldable pub insert : K → V → List (K × V) → List (K × V)
  insert k v [] = (k, v) ∷ []
  insert k v ((j, w) ∷ m) = if e.equals j k then (j, v) ∷ m else (j, w) ∷ insert k v m

  pub lookup-insert :
      (k j : K) (v : V) (m : List (K × V))
      → lookup j (insert k v m) ≡ (if e.equals k j then some v else lookup j m)
  unfolding insert
  lookup-insert k j v [] = refl
  lookup-insert k j v ((i, w) ∷ m) =
      ground (arith, e.equals_iff i k, e.equals_iff i j, e.equals_iff k j, lookup-insert k j v m)
