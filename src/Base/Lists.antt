-- ===== src/Base/Lists.antt =====
-- Lists: the array methods that the program calls, and predicates over a list's items.
use Prim.Native.Nat.{ℕ, zero, suc, ◌≤◌}
use mathlib.Core.Path.{◌≡◌, refl, ap, subst}
use mathlib.Core.Logic.{◌⊎◌, inl, inr, ◌↔◌}
use mathlib.Core.Bool.{Bool, true, false, ◌&&◌, ◌||◌}
use mathlib.Core.Option.{Option, none, some}
use mathlib.Core.List.{List, [], ◌∷◌, ◌++◌, map}
use native.Mathlib.Omega.{arith}
use tc_pipelines.Base.Tests.{if◌then◌else◌, Bool-cases}

module _ {ℓ} {A : Type ℓ} where
  abbrev pub length : List A → ℕ
  length [] = 0
  length (x ∷ xs) = suc (length xs)

  abbrev pub get_elem? : List A → ℕ → Option A
  get_elem? [] i = none
  get_elem? (x ∷ xs) zero = some x
  get_elem? (x ∷ xs) (suc i) = get_elem? xs i

  -- `some`, `every` and `filter` of an array; a test is any function into `Bool`.
  abbrev pub any : (A → Bool) → List A → Bool
  any p [] = false
  any p (x ∷ xs) = p x || any p xs

  abbrev pub all : (A → Bool) → List A → Bool
  all p [] = true
  all p (x ∷ xs) = p x && all p xs

  abbrev pub keep : (A → Bool) → List A → List A
  keep p [] = []
  keep p (x ∷ xs) = if p x then x ∷ keep p xs else keep p xs

  abbrev pub find : (A → Bool) → List A → Option A
  find p [] = none
  find p (x ∷ xs) = if p x then some x else find p xs

  -- `xs.slice(0, n)` of an array
  abbrev pub take : ℕ → List A → List A
  take zero xs = []
  take (suc n) [] = []
  take (suc n) (x ∷ xs) = x ∷ take n xs

-- `x` stands in the list. As a sum it is read and built by the tactics.
abbrev pub Elem : {A : Type 0} → A → List A → Type 0
Elem x [] = ⊥
Elem x (y ∷ ys) = (x ≡ y) ⊎ Elem x ys

abbrev pub flat_map {ℓ κ} : {A : Type ℓ} {B : Type κ} → (A → List B) → List A → List B
flat_map f [] = []
flat_map f (x ∷ xs) = f x ++ flat_map f xs

module _ {κ} {A : Type 0} (P : A → Type κ) where
  abbrev pub All : List A → Type κ
  All [] = Unit
  All (x ∷ xs) = P x × All xs

  pub All-elem : (xs : List A) (x : A) → All xs → Elem x xs → P x
  All-elem [] x h m = elim m [ ]
  All-elem (y ∷ xs) x (p, h) (inl e) = rw e p
  All-elem (y ∷ xs) x (p, h) (inr m) = All-elem xs x h m

  pub All-append : (xs ys : List A) → All xs → All ys → All (xs ++ ys)
  All-append [] ys h k = k
  All-append (x ∷ xs) ys (p, h) k = (p, All-append xs ys h k)

  pub All-keep : (q : A → Bool) (xs : List A) → All xs → All (keep q xs)
  All-keep q [] h = tt
  All-keep q (x ∷ xs) (p, h) = ground (arith, All-keep q xs h)

pub All-intro {κ} :
    {A : Type 0} (P : A → Type κ) (xs : List A) → ((x : A) → Elem x xs → P x) → All P xs
All-intro P [] f = tt
All-intro P (x ∷ xs) f = (f x (inl refl), All-intro P xs (λ y m. f y (inr m)))

module _ {A : Type 0} where
  pub Elem-append_left : (x : A) (xs ys : List A) → Elem x xs → Elem x (xs ++ ys)
  Elem-append_left x [] ys m = elim m [ ]
  Elem-append_left x (y ∷ xs) ys (inl e) = inl e
  Elem-append_left x (y ∷ xs) ys (inr m) = inr (Elem-append_left x xs ys m)

  pub Elem-append_right : (x : A) (xs ys : List A) → Elem x ys → Elem x (xs ++ ys)
  Elem-append_right x [] ys m = m
  Elem-append_right x (y ∷ xs) ys m = inr (Elem-append_right x xs ys m)

  pub Elem-append_cases : (x : A) (xs ys : List A) → Elem x (xs ++ ys) → Elem x xs ⊎ Elem x ys
  Elem-append_cases x [] ys m = inr m
  Elem-append_cases x (y ∷ xs) ys (inl e) = inl (inl e)
  Elem-append_cases x (y ∷ xs) ys (inr m) = elim (Elem-append_cases x xs ys m) [
    | inl l ↦ inl (inr l)
    | inr r ↦ inr r
  ]

  pub any-Elem : (p : A → Bool) (xs : List A) (x : A) → Elem x xs → p x ≡ true → any p xs ≡ true
  any-Elem p [] x m h = elim m [ ]
  any-Elem p (y ∷ xs) x (inl e) h = ground arith
  any-Elem p (y ∷ xs) x (inr m) h = ground (arith, any-Elem p xs x m h)

  pub Elem-any : (p : A → Bool) (xs : List A) → any p xs ≡ true → (x : A) × Elem x xs × (p x ≡ true)
  Elem-any p [] h = absurd (cc)
  Elem-any p (y ∷ xs) h = elim (Bool-cases (p y)) [
    | inl here ↦ (y, inl refl, here)
    | inr not_here ↦ let (x, m, e) = Elem-any p xs (ground arith) in (x, inr m, e)
  ]

  pub all-Elem : (p : A → Bool) (xs : List A) (x : A) → all p xs ≡ true → Elem x xs → p x ≡ true
  all-Elem p [] x h m = elim m [ ]
  all-Elem p (y ∷ xs) x h (inl e) = ground arith
  all-Elem p (y ∷ xs) x h (inr m) = all-Elem p xs x (ground arith) m

  pub all_of_elems :
      (p : A → Bool) (xs : List A) → ((x : A) → Elem x xs → p x ≡ true) → all p xs ≡ true
  all_of_elems p [] f = refl
  all_of_elems p (x ∷ xs) f = rw (f x (inl refl), all_of_elems p xs (λ y m. f y (inr m)))

  pub Elem-keep :
      (p : A → Bool) (xs : List A) (x : A) → Elem x (keep p xs) ↔ (Elem x xs × (p x ≡ true))
  Elem-keep p [] x = ground arith
  Elem-keep p (y ∷ xs) x = ground (arith, Elem-keep p xs x)

  pub keep-length-le : (p : A → Bool) (xs : List A) → length (keep p xs) ≤ length xs
  keep-length-le p [] = omega arith
  keep-length-le p (x ∷ xs) = ground (arith, keep-length-le p xs)

pub Elem-map : {A B : Type 0} (f : A → B) (xs : List A) (x : A) → Elem x xs → Elem (f x) (map f xs)
Elem-map f [] x m = elim m [ ]
Elem-map f (y ∷ xs) x (inl e) = inl (ap f e)
Elem-map f (y ∷ xs) x (inr m) = inr (Elem-map f xs x m)

pub Elem-of_map :
    {A B : Type 0} (f : A → B) (xs : List A) (y : B)
    → Elem y (map f xs)
    → (x : A) × Elem x xs × (y ≡ f x)
Elem-of_map f [] y m = elim m [ ]
Elem-of_map f (x ∷ xs) y (inl e) = (x, inl refl, e)
Elem-of_map f (x ∷ xs) y (inr m) = let (z, k, e) = Elem-of_map f xs y m in (z, inr k, e)

pub Elem-of_flat_map :
    {A B : Type 0} (f : A → List B) (xs : List A) (y : B)
    → Elem y (flat_map f xs)
    → (x : A) × Elem x xs × Elem y (f x)
Elem-of_flat_map f [] y m = elim m [ ]
Elem-of_flat_map f (x ∷ xs) y m = elim (Elem-append_cases y (f x) (flat_map f xs) m) [
  | inl first ↦ (x, inl refl, first)
  | inr rest ↦ let (z, n, e) = Elem-of_flat_map f xs y rest in (z, inr n, e)
]

pub Elem-flat_map :
    {A B : Type 0} (f : A → List B) (xs : List A) (x : A) (y : B)
    → Elem x xs
    → Elem y (f x)
    → Elem y (flat_map f xs)
Elem-flat_map f [] x y m n = elim m [ ]
Elem-flat_map f (z ∷ xs) x y (inl e) n =
    Elem-append_left y (f z) (flat_map f xs) (subst (λ w. Elem y (f w)) e n)
Elem-flat_map f (z ∷ xs) x y (inr m) n =
    Elem-append_right y (f z) (flat_map f xs) (Elem-flat_map f xs x y m n)
