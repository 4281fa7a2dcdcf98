-- ===== src/Canonical/Laws.antt =====
-- The canonical form of a JSON value, for values that differ in the order of their members.
use tc_pipelines.Base.{
  ◌≡◌, ◌≢◌, ◌⊎◌, inl, inr, refl, sym, ap, ◌∙◌, subst, true, false, JsString, js_le, js_lt,
  js_lt-asymm, js_le-IsTotal, Bool-cases, js, ◌++◌, ◌∷◌, [],
}
use tc_pipelines.Canonical.{
  Json, array, object, Items, no_items, item, Members, no_members, member, insert_member,
  sort_value, sort_items, sort_members, Hashing, canonical_json, digest,
}

-- Values that differ only in the order of the members of their objects.
mutual
  pub data Alike : Json → Json → Type 0 where
    same : (x : Json) → Alike x x
    alike_array : {xs ys : Items} → AlikeItems xs ys → Alike (array xs) (array ys)
    alike_object : {xs ys : Members} → AlikeMembers xs ys → Alike (object xs) (object ys)

  pub data AlikeItems : Items → Items → Type 0 where
    no_more : AlikeItems no_items no_items
    each_item :
        {x y : Json} {xs ys : Items}
        → Alike x y
        → AlikeItems xs ys
        → AlikeItems (item x xs) (item y ys)

  pub data AlikeMembers : Members → Members → Type 0 where
    same_members : (xs : Members) → AlikeMembers xs xs
    each_member :
        (key : JsString) {x y : Json} {xs ys : Members}
        → Alike x y
        → AlikeMembers xs ys
        → AlikeMembers (member key x xs) (member key y ys)
    exchanged :
        (j k : JsString) (x y : Json) (xs : Members)
        → j ≢ k
        → AlikeMembers (member j x (member k y xs)) (member k y (member j x xs))
    in_turn : {xs ys zs : Members} → AlikeMembers xs ys → AlikeMembers ys zs → AlikeMembers xs zs

js_lt-apart : (j k : JsString) → js_lt j k ≡ true → k ≢ j
js_lt-apart j k h e =
    let back = js_lt-asymm k j h in
    let loop : js_lt j k ≡ false =
      subst (λ x. js_lt x k ≡ false) e (subst (λ x. js_lt k x ≡ false) (sym e) back) in
    absurd (cc)

module _ (j k : JsString) (x y : Json) where
  first_member :
      (z : Json) (l : JsString) (xs : Members)
      → js_le j l ≡ true
      → insert_member j x (member l z xs) ≡ member j x (member l z xs)
  unfolding insert_member
  first_member z l xs h = rw h refl

  later_member :
      (z : Json) (l : JsString) (xs : Members)
      → js_le j l ≡ false
      → insert_member j x (member l z xs) ≡ member l z (insert_member j x xs)
  unfolding insert_member
  later_member z l xs h = rw h refl

-- Of two keys that differ, one goes first.
apart_le :
    (j k : JsString)
    → j ≢ k
    → ((js_le j k ≡ true) × (js_le k j ≡ false)) ⊎ ((js_le j k ≡ false) × (js_le k j ≡ true))
apart_le j k apart = elim (Bool-cases (js_le j k)) [
  | inr more ↦ inr (more, js_le-IsTotal.total j k more)
  | inl less ↦ elim (Bool-cases (js_le k j)) [
    | inl both ↦ absurd (apart (js_le-IsTotal.antisymmetric j k less both))
    | inr more ↦ inl (less, more)
  ]
]

module _ (j k : JsString) (x y : Json) (apart : j ≢ k) where
  both_first :
      (l : JsString) (z : Json) (xs : Members)
      → js_le j l ≡ true
      → js_le k l ≡ true
      → insert_member j x (member k y (member l z xs))
        ≡ insert_member k y (member j x (member l z xs))
  both_first l z xs hj hk = elim (apart_le j k apart) [
    | inl (less, more) ↦
        first_member j k x y y k (member l z xs) less
        ∙ sym (
            later_member k j y x x j (member l z xs) more
            ∙ ap (member j x) (first_member k j y x z l xs hk))
    | inr (more, less) ↦
        later_member j k x y y k (member l z xs) more
        ∙ ap (member k y) (first_member j k x y z l xs hj)
        ∙ sym (first_member k j y x x j (member l z xs) less)
  ]

around :
    (j k : JsString) (x y : Json) (l : JsString) (z : Json) (xs : Members)
    → js_le j l ≡ true
    → js_le k l ≡ false
    → insert_member j x (member l z (insert_member k y xs))
      ≡ insert_member k y (member j x (member l z xs))
around j k x y l z xs hj hk = elim (Bool-cases (js_le k j)) [
  | inl less ↦ absurd (let through = js_le-IsTotal.transitive k j l less hj in cc)
  | inr more ↦
      first_member j k x y z l (insert_member k y xs) hj
      ∙ sym (
          later_member k j y x x j (member l z xs) more
          ∙ ap (member j x) (later_member k j y x z l xs hk))
]

insert_member_comm :
    (j k : JsString) (x y : Json) (xs : Members)
    → j ≢ k
    → insert_member j x (insert_member k y xs) ≡ insert_member k y (insert_member j x xs)
unfolding insert_member
insert_member_comm j k x y no_members apart = elim (apart_le j k apart) [
  | inl (less, more) ↦ rw (less, more) refl
  | inr (more, less) ↦ rw (less, more) refl
]
insert_member_comm j k x y (member l z xs) apart = elim (Bool-cases (js_le j l)) [
  | inl hj ↦ elim (Bool-cases (js_le k l)) [
    | inl hk ↦
        ap (insert_member j x) (first_member k j y x z l xs hk)
        ∙ both_first j k x y apart l z xs hj hk
        ∙ sym (ap (insert_member k y) (first_member j k x y z l xs hj))
    | inr hk ↦
        ap (insert_member j x) (later_member k j y x z l xs hk)
        ∙ around j k x y l z xs hj hk
        ∙ sym (ap (insert_member k y) (first_member j k x y z l xs hj))
  ]
  | inr hj ↦ elim (Bool-cases (js_le k l)) [
    | inl hk ↦
        ap (insert_member j x) (first_member k j y x z l xs hk)
        ∙ sym (around k j y x l z xs hk hj)
        ∙ sym (ap (insert_member k y) (later_member j k x y z l xs hj))
    | inr hk ↦
        ap (insert_member j x) (later_member k j y x z l xs hk)
        ∙ later_member j k x y z l (insert_member k y xs) hj
        ∙ ap (member l z) (insert_member_comm j k x y xs apart)
        ∙ sym (
            ap (insert_member k y) (later_member j k x y z l xs hj)
            ∙ later_member k j y x z l (insert_member j x xs) hk)
  ]
]

-- Values that differ in the order of members have one sorted form.
mutual
  unfolding sort_value

  pub sort_value-Alike : {x y : Json} → Alike x y → sort_value x ≡ sort_value y
  sort_value-Alike (same x) = refl
  sort_value-Alike (alike_array xs) = ap array (sort_items-Alike xs)
  sort_value-Alike (alike_object xs) = ap object (sort_members-Alike xs)

  sort_items-Alike : {xs ys : Items} → AlikeItems xs ys → sort_items xs ≡ sort_items ys
  sort_items-Alike no_more = refl
  sort_items-Alike (each_item {x = x} {ys = ys} a alike) =
      ap (item (sort_value x)) (sort_items-Alike alike)
      ∙ ap (λ v. item v (sort_items ys)) (sort_value-Alike a)

  sort_members-Alike : {xs ys : Members} → AlikeMembers xs ys → sort_members xs ≡ sort_members ys
  sort_members-Alike (same_members xs) = refl
  sort_members-Alike (each_member key {x = x} {ys = ys} a alike) =
      ap (insert_member key (sort_value x)) (sort_members-Alike alike)
      ∙ ap (λ v. insert_member key v (sort_members ys)) (sort_value-Alike a)
  sort_members-Alike (exchanged j k x y xs apart) =
      insert_member_comm j k (sort_value x) (sort_value y) (sort_members xs) apart
  sort_members-Alike (in_turn p q) = sort_members-Alike p ∙ sort_members-Alike q

-- Values that differ only in the order of their members have the same digest.
pub digest-Alike :
    (hashing : Hashing) {x y : Json} → Alike x y → digest hashing x ≡ digest hashing y
unfolding digest canonical_json
digest-Alike hashing a =
    ap (λ v. js "sha256:" ++ hashing.sha256 (hashing.stringify v ++ 0x0a ∷ [])) (sort_value-Alike a)
