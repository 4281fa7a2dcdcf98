-- ===== src/Graph/Identity/Unordered.antt =====
-- The canonical input digests of a task do not depend on the order of the digests.
use mathlib.Core.List.{Permᴰ}
use mathlib.Core.List.Permᴰ.{nil, cons, swap, trans}
use tc_pipelines.Base.{
  ◌≡◌, ◌≢◌, refl, sym, ap, ◌∙◌, subst, inl, inr, arith, Bool, true, false, not, ◌||◌, List, [], ◌∷◌,
  JsString, js, has, has-add, add, ◌==◌, eq_iff, nat_eq, list_eq, Bool-cases, js_lt, js_le,
  js_lt_trans, js_lt_antisymm, js_lt-asymm, js_le-IsTotal, IsPreorder, AreOrdered, insert_sorted,
  sort_by, insert_sorted_comm, ok, throw_if, throw_if-ok, >>=-eq-ok, ◌>>=◌, ◌>>◌,
  graph_input_digest_invalid,
}
use tc_pipelines.Schema.{InputDigest}
use tc_pipelines.Graph.Paths.{normalise_path, assert_relative_path}
use tc_pipelines.Graph.Identity.{
  is_canonical_digest, digest_le, path_key, canonical_from, canonical_input_digests,
}

-- The order of the digests, by what is known of their paths.
module _ (x y : InputDigest) where
  same_path : x.path ≡ y.path → digest_le x y ≡ js_le x.digest y.digest
  same_path e = rw ((eq_iff x.path y.path).1 e, digest_le) refl

  other_path : (x.path == y.path) ≡ false → digest_le x y ≡ js_lt x.path y.path
  other_path e = rw (e, digest_le) refl

-- Different strings are ordered strictly.
strict : (s t : JsString) → (s == t) ≡ false → js_lt s t ≡ false → js_lt t s ≡ true
strict s t apart h = elim (Bool-cases (js_lt t s)) [
  | inl less ↦ less
  | inr more ↦
      absurd
        (let same = (eq_iff s t).1 (js_lt_antisymm s t more h) in let loop = sym apart ∙ same in cc)
]

strictly_trans : (s t u : JsString) → js_lt s t ≡ true → js_lt t u ≡ true → js_lt s u ≡ true
strictly_trans s t u h k = elim (Bool-cases (js_lt s u)) [
  | inl less ↦ less
  | inr more ↦
      absurd
        (let back = js_lt_trans u s t more (js_lt-asymm t s h) in let loop = sym k ∙ back in cc)
]

apart_paths : (s t : JsString) → js_lt s t ≡ true → (s == t) ≡ false
apart_paths s t h = elim (Bool-cases (s == t)) [
  | inr other ↦ other
  | inl same ↦
      let e = (eq_iff s t).0 same in
      let loop : js_lt t s ≡ true =
        subst (λ u. js_lt u s ≡ true) e (subst (λ u. js_lt s u ≡ true) (sym e) h) in
      absurd (let never = sym loop ∙ js_lt-asymm t s h in cc)
]

digest_le-trans_case :
    (x y z : InputDigest) (a b : Bool)
    → (x.path == y.path) ≡ a
    → (y.path == z.path) ≡ b
    → digest_le x y ≡ true
    → digest_le y z ≡ true
    → digest_le x z ≡ true
digest_le-trans_case x y z true true xy yz h k =
    let p = (eq_iff x.path y.path).0 xy in
    let q = (eq_iff y.path z.path).0 yz in
    same_path x z (p ∙ q)
    ∙ js_le-IsTotal.transitive x.digest y.digest z.digest (sym (same_path x y p) ∙ h)
        (sym (same_path y z q) ∙ k)
digest_le-trans_case x y z true false xy yz h k =
    let p = (eq_iff x.path y.path).0 xy in
    let less : js_lt x.path z.path ≡ true =
      subst (λ s. js_lt s z.path ≡ true) (sym p) (sym (other_path y z yz) ∙ k) in
    other_path x z (apart_paths x.path z.path less) ∙ less
digest_le-trans_case x y z false true xy yz h k =
    let q = (eq_iff y.path z.path).0 yz in
    let less : js_lt x.path z.path ≡ true =
      subst (λ s. js_lt x.path s ≡ true) q (sym (other_path x y xy) ∙ h) in
    other_path x z (apart_paths x.path z.path less) ∙ less
digest_le-trans_case x y z false false xy yz h k =
    let less =
      strictly_trans x.path y.path z.path (sym (other_path x y xy) ∙ h)
        (sym (other_path y z yz) ∙ k) in
    other_path x z (apart_paths x.path z.path less) ∙ less

digest_le-IsPreorder : IsPreorder digest_le
digest_le-IsPreorder = record {
  transitive = λ x y z h k. digest_le-trans_case x y z _ _ refl refl h k;
  total = λ x y h. elim (Bool-cases (x.path == y.path)) [
    | inl e ↦
        let p = (eq_iff x.path y.path).0 e in
        same_path y x (sym p) ∙ js_le-IsTotal.total x.digest y.digest (sym (same_path x y p) ∙ h)
    | inr apart ↦
        let less = strict x.path y.path apart (sym (other_path x y apart) ∙ h) in
        other_path y x (apart_paths y.path x.path less) ∙ less
  ];
}

-- Digests of different paths go strictly one before the other.
apart-AreOrdered : (x y : InputDigest) → x.path ≢ y.path → AreOrdered digest_le x y
apart-AreOrdered x y apart h k = elim (Bool-cases (x.path == y.path)) [
  | inl same ↦ absurd (apart ((eq_iff x.path y.path).0 same))
  | inr other ↦
      let first = sym (other_path x y other) ∙ h in
      let back : js_lt y.path x.path ≡ true = elim (Bool-cases (y.path == x.path)) [
        | inl same ↦ absurd (apart (sym ((eq_iff y.path x.path).0 same)))
        | inr different ↦ sym (other_path y x different) ∙ k
      ] in
      absurd (let never = sym back ∙ js_lt-asymm y.path x.path first in cc)
]

module _ (to_lower_case : JsString → JsString) where
  abbrev normal : InputDigest → InputDigest
  normal input = record input { path = normalise_path input.path }

  -- What the loop asks of one digest.
  record IsFit (identities : List JsString) (input : InputDigest) : Type 0 where
    relative : assert_relative_path input.path (js "task input digest path") ≡ ok tt
    sealed : not (is_canonical_digest input.digest) ≡ false
    fresh : has identities (path_key to_lower_case input) ≡ false

  -- The digests that the loop adds for the rest.
  record IsStep (identities : List JsString) (input : InputDigest) (inputs out : List InputDigest)
      : Type 0 where
    fit : IsFit identities input
    others : List InputDigest
    rest :
        canonical_from to_lower_case (add identities (path_key to_lower_case input)) inputs
        ≡ ok others
    added : normal input ∷ others ≡ out

  canonical_from-IsStep :
      (identities : List JsString) (input : InputDigest) (inputs out : List InputDigest)
      → canonical_from to_lower_case identities (input ∷ inputs) ≡ ok out
      → IsStep identities input inputs out
  unfolding canonical_from
  canonical_from-IsStep identities input inputs out h =
      let rest =
        canonical_from to_lower_case (add identities (path_key to_lower_case input)) inputs in
      let last = rest >>= λ others. ok (normal input ∷ others) in
      let third =
        throw_if (has identities (path_key to_lower_case input)) graph_input_digest_invalid
          (normalise_path input.path ∷ [])
        >> last in
      let second =
        throw_if (not (is_canonical_digest input.digest)) graph_input_digest_invalid
          (input.digest ∷ [])
        >> third in
      let (u, relative, h1) =
        >>=-eq-ok (assert_relative_path input.path (js "task input digest path")) (λ _. second) h in
      let (sealed, h2) =
        throw_if-ok (not (is_canonical_digest input.digest)) graph_input_digest_invalid
          (input.digest ∷ []) third h1 in
      let (fresh, h3) =
        throw_if-ok (has identities (path_key to_lower_case input)) graph_input_digest_invalid
          (normalise_path input.path ∷ []) last h2 in
      let (others, ran, h4) = >>=-eq-ok rest (λ others. ok (normal input ∷ others)) h3 in
      record {
        fit = record { relative = relative; sealed = sealed; fresh = fresh };
        others = others;
        rest = ran;
        added = cc;
      }

  canonical_from_cons :
      (identities : List JsString) (input : InputDigest) (inputs others : List InputDigest)
      → IsFit identities input
      → canonical_from to_lower_case (add identities (path_key to_lower_case input)) inputs
        ≡ ok others
      → canonical_from to_lower_case identities (input ∷ inputs) ≡ ok (normal input ∷ others)
  unfolding canonical_from
  canonical_from_cons identities input inputs others fit rest =
      rw (fit.relative, fit.sealed, fit.fresh, rest) refl

  -- The loop reads its set only by membership.
  canonical_from-same :
      (inputs : List InputDigest) (ids ids' : List JsString)
      → ((key : JsString) → has ids key ≡ has ids' key)
      → canonical_from to_lower_case ids inputs ≡ canonical_from to_lower_case ids' inputs
  unfolding canonical_from
  canonical_from-same [] ids ids' same = refl
  canonical_from-same (input ∷ inputs) ids ids' same =
      let key = path_key to_lower_case input in
      rw
        (
          same key,
          canonical_from-same inputs (add ids key) (add ids' key) (λ k.
              has-add ids key k ∙ ap (λ b. (key == k) || b) (same k) ∙ sym (has-add ids' key k)),
        )
        refl

  -- A list that the loop accepts as well, with the same sorted digests.
  abbrev Matches : List JsString → List InputDigest → List InputDigest → Type 0
  Matches identities inputs out =
      (out' : List InputDigest) × (canonical_from to_lower_case identities inputs ≡ ok out')
      × (sort_by digest_le out ≡ sort_by digest_le out')

  either_false : (a b : Bool) → (a || b) ≡ false → (a ≡ false) × (b ≡ false)
  either_false false false h = (refl, refl)
  either_false false true h = absurd (cc)
  either_false true b h = absurd (cc)

  exchange-Matches :
      (identities : List JsString) (x y : InputDigest) (inputs out : List InputDigest)
      → canonical_from to_lower_case identities (x ∷ y ∷ inputs) ≡ ok out
      → Matches identities (y ∷ x ∷ inputs) out
  unfolding sort_by
  exchange-Matches ids x y inputs out h =
      let kx = path_key to_lower_case x in
      let ky = path_key to_lower_case y in
      let first = canonical_from-IsStep ids x (y ∷ inputs) out h in
      let second = canonical_from-IsStep (add ids kx) y inputs first.others first.rest in
      let (apart, fresh) =
        either_false (kx == ky) (has ids ky) (sym (has-add ids kx ky) ∙ second.fit.fresh) in
      let different : kx ≢ ky =
        λ e. absurd (let same = (eq_iff kx ky).1 e in let never = sym apart ∙ same in cc) in
      let apart' : (ky == kx) ≡ false = elim (Bool-cases (ky == kx)) [
        | inl same ↦ absurd (different (sym ((eq_iff ky kx).0 same)))
        | inr other ↦ other
      ] in
      let fit_y : IsFit ids y = record {
        relative = second.fit.relative;
        sealed = second.fit.sealed;
        fresh = fresh;
      } in
      let fit_x : IsFit (add ids ky) x = record {
        relative = first.fit.relative;
        sealed = first.fit.sealed;
        fresh = has-add ids ky kx ∙ both_false (ky == kx) (has ids kx) apart' first.fit.fresh;
      } in
      let rest =
        canonical_from-same inputs (add (add ids ky) kx) (add (add ids kx) ky) (commutes ids ky kx)
        ∙ second.rest in
      (
        normal y ∷ normal x ∷ second.others,
        canonical_from_cons ids y (x ∷ inputs) (normal x ∷ second.others) fit_y
            (canonical_from_cons (add ids ky) x inputs second.others fit_x rest),
        ap (sort_by digest_le) (sym first.added ∙ ap (λ os. normal x ∷ os) (sym second.added))
            ∙ insert_sorted_comm digest_le digest_le-IsPreorder (normal x) (normal y)
                (sort_by digest_le second.others)
                (apart-AreOrdered (normal x) (normal y) (λ e. different (ap to_lower_case e))),
      )
    where
      both_false : (a b : Bool) → a ≡ false → b ≡ false → (a || b) ≡ false
      both_false a b h k = ground arith

      commutes :
          (is : List JsString) (j k : JsString) (i : JsString)
          → has (add (add is j) k) i ≡ has (add (add is k) j) i
      commutes is j k i =
          ground
            (arith, has-add (add is j) k i, has-add (add is k) j i, has-add is j i, has-add is k i)

  canonical_from-Perm :
      {xs ys : List InputDigest}
      → Permᴰ xs ys
      → (identities : List JsString) (out : List InputDigest)
      → canonical_from to_lower_case identities xs ≡ ok out
      → Matches identities ys out
  unfolding sort_by
  canonical_from-Perm nil ids out h = (out, h, refl)
  canonical_from-Perm (cons {a = a} {b = b} {l₁ = l₁} {l₂ = l₂} e p) ids out h =
      let step = canonical_from-IsStep ids a l₁ out h in
      let (others, ran, same) =
        canonical_from-Perm p (add ids (path_key to_lower_case a)) step.others step.rest in
      subst (λ x. Matches ids (x ∷ l₂) out) e
        (
          normal a ∷ others,
          canonical_from_cons ids a l₂ others step.fit ran,
          ap (sort_by digest_le) (sym step.added) ∙ ap (insert_sorted digest_le (normal a)) same,
        )
  canonical_from-Perm (swap {a = a} {b = b} {a' = a'} {l = l} e f) ids out h =
      subst (λ x. Matches ids (a' ∷ x ∷ l) out) e
        (subst (λ x. Matches ids (x ∷ a ∷ l) out) f (exchange-Matches ids a b l out h))
  canonical_from-Perm (trans p q) ids out h =
      let (mid, ran, same) = canonical_from-Perm p ids out h in
      let (last, ran', same') = canonical_from-Perm q ids mid ran in (last, ran', same ∙ same')

  -- If the input digests of a task are accepted in one order, they are accepted in every other order,
  -- with the same canonical digests.
  pub canonical_input_digests-Perm :
      (xs ys canonical : List InputDigest)
      → Permᴰ xs ys
      → canonical_input_digests to_lower_case xs ≡ ok canonical
      → canonical_input_digests to_lower_case ys ≡ ok canonical
  unfolding canonical_input_digests
  canonical_input_digests-Perm xs ys canonical p h =
      let (out, ran, sorts) =
        >>=-eq-ok (canonical_from to_lower_case [] xs) (λ c. ok (sort_by digest_le c)) h in
      let (out', ran', same) = canonical_from-Perm p [] out ran in
      let again : canonical_input_digests to_lower_case ys ≡ ok (sort_by digest_le out') =
        rw ran' refl in
      again ∙ ap ok (sym same) ∙ sorts
