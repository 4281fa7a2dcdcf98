-- ===== src/Runtime/Scheduler/Claims.antt =====
-- What the running tasks hold together: sums of their shares, and claims on named resources that
-- no two of them share.
use tc_pipelines.Base.{
  ℕ, ◌+◌, ◌≡◌, inl, inr, refl, sym, ap, subst, true, false, ◌&&◌, ◌||◌, not, List, [], ◌∷◌, ◌++◌,
  map, JsString, has, add, delete, any, all, ◌==◌, nat_eq, list_eq, Eq, eq_iff, Elem,
  Elem-append_cases, Elem-keep, Elem-map, has-add, has-delete, Distinct, arith, Bool-cases, has_iff,
  all-Elem, any-Elem,
}
use tc_pipelines.Schema.{GraphTask}
use tc_pipelines.Runtime.Scheduler.{each, without}

abbrev pub running_keys : List GraphTask → List JsString
running_keys = map (λ (task : GraphTask). task.key)

without_absent :
    (key : JsString) (running : List GraphTask)
    → has (running_keys running) key ≡ false
    → without key running ≡ running
without_absent key [] h = refl
without_absent key (u ∷ running) h = let rest = without_absent key running in ground (arith, rest)

pub key_of_Elem :
    (running : List GraphTask) (task : GraphTask)
    → Elem task running
    → has (running_keys running) task.key ≡ true
key_of_Elem running task m =
    (has_iff (running_keys running) task.key).1 (Elem-map (λ (t : GraphTask). t.key) running task m)

-- The task that leaves is the head of the list, or the head stays.
without_head :
    (u task : GraphTask) (running : List GraphTask)
    → has (running_keys running) u.key ≡ false
    → task ≡ u
    → without task.key (u ∷ running) ≡ running
without_head u task running once e =
    let rest = without_absent u.key running once in
    subst (λ (t : GraphTask). without t.key (u ∷ running) ≡ running) (sym e)
      (ground (arith, eq_iff u.key u.key, rest))

without_tail :
    (u task : GraphTask) (running : List GraphTask)
    → has (running_keys running) u.key ≡ false
    → Elem task running
    → without task.key (u ∷ running) ≡ u ∷ without task.key running
without_tail u task running once m = elim (Bool-cases (u.key == task.key)) [
  | inl same ↦
      let listed = key_of_Elem running task m in
      let e : u.key ≡ task.key = (eq_iff u.key task.key).0 same in absurd (cc)
  | inr other ↦ rw other
]

pub Elem-without :
    (key : JsString) (running : List GraphTask) (u : GraphTask)
    → Elem u (without key running)
    → Elem u running
Elem-without key running u m = ((Elem-keep (λ (t : GraphTask). not (t.key == key)) running u).0 m).0

pub has-without :
    (key k : JsString) (running : List GraphTask)
    → has (running_keys (without key running)) k ≡ (not (key == k) && has (running_keys running) k)
has-without key k [] = ground arith
has-without key k (u ∷ running) =
    ground (arith, has-without key k running, eq_iff u.key key, eq_iff key k, eq_iff u.key k)

pub without-Distinct :
    (key : JsString) (running : List GraphTask)
    → Distinct (running_keys running)
    → Distinct (running_keys (without key running))
without-Distinct key [] d = tt
without-Distinct key (u ∷ running) (once, d) =
    ground (arith, without-Distinct key running d, has-without key u.key running)

module _ (share : GraphTask → ℕ) where
  abbrev pub total : List GraphTask → ℕ
  total [] = 0
  total (task ∷ running) = share task + total running

  pub total-snoc :
      (running : List GraphTask) (task : GraphTask)
      → total (running ++ task ∷ []) ≡ total running + share task
  total-snoc [] task = omega arith
  total-snoc (u ∷ running) task = omega (arith, total-snoc running task)

  pub total-without :
      (running : List GraphTask) (task : GraphTask)
      → Distinct (running_keys running)
      → Elem task running
      → total (without task.key running) + share task ≡ total running
  total-without [] task d m = elim m [ ]
  total-without (u ∷ running) task (once, d) (inl e) =
      let left = ap total (without_head u task running once e) in omega (arith, ap share e)
  total-without (u ∷ running) task (once, d) (inr m) =
      let left = ap total (without_tail u task running once m) in
      omega (arith, total-without running task d m)

module _ {A : Type 0} ⦃e : Eq A⦄ where
  pub has-each-add :
      (held values : List A) (a : A) → has (each add held values) a ≡ (has held a || has values a)
  has-each-add held [] a = ground arith
  has-each-add held (v ∷ values) a =
      ground (arith, has-each-add (add held v) values a, has-add held v a)

  pub has-each-delete :
      (held values : List A) (a : A)
      → has (each delete held values) a ≡ (has held a && not (has values a))
  has-each-delete held [] a = ground arith
  has-each-delete held (v ∷ values) a =
      ground (arith, has-each-delete (delete held v) values a, has-delete held v a)

  module _ (claim : GraphTask → List A) where
    -- The two tasks claim nothing in common.
    abbrev pub IsApart : GraphTask → GraphTask → Type 0
    IsApart t u = (a : A) → has (claim t) a ≡ true → has (claim u) a ≡ false

    abbrev pub AreApart : List GraphTask → Type 0
    AreApart [] = Unit
    AreApart (t ∷ running) = ((u : GraphTask) → Elem u running → IsApart t u) × AreApart running

    -- Exactly what some running task claims is held.
    abbrev pub IsHeld : List A → List GraphTask → Type 0
    IsHeld held running = (a : A) → has held a ≡ any (λ t. has (claim t) a) running

    any-snoc :
        (running : List GraphTask) (task : GraphTask) (a : A)
        → any (λ t. has (claim t) a) (running ++ task ∷ [])
          ≡ (any (λ t. has (claim t) a) running || has (claim task) a)
    any-snoc [] task a = ground arith
    any-snoc (u ∷ running) task a = ground (arith, any-snoc running task a)

    pub launch-IsHeld :
        (held : List A) (running : List GraphTask) (task : GraphTask)
        → IsHeld held running
        → IsHeld (each add held (claim task)) (running ++ task ∷ [])
    launch-IsHeld held running task h a =
        ground (arith, h a, has-each-add held (claim task) a, any-snoc running task a)

    AreApart-snoc :
        (running : List GraphTask) (task : GraphTask)
        → AreApart running
        → ((u : GraphTask) → Elem u running → IsApart u task)
        → AreApart (running ++ task ∷ [])
    AreApart-snoc [] task d h = ((λ u m. elim m [ ]), tt)
    AreApart-snoc (t ∷ running) task (here, d) h = (
      λ u m. elim (Elem-append_cases u running (task ∷ []) m) [
        | inl old ↦ here u old
        | inr new ↦ elim new [
          | inl same ↦ subst (IsApart t) (sym same) (h t (inl refl))
          | inr never ↦ elim never [ ]
        ]
      ],
      AreApart-snoc running task d (λ u m. h u (inr m)),
    )

    -- A task none of whose claims is held may join.
    pub launch-AreApart :
        (held : List A) (running : List GraphTask) (task : GraphTask)
        → IsHeld held running
        → all (λ a. not (has held a)) (claim task) ≡ true
        → AreApart running
        → AreApart (running ++ task ∷ [])
    launch-AreApart held running task h free d = AreApart-snoc running task d λ u m a claimed.
        let taken = any-Elem (λ t. has (claim t) a) running u m claimed in
        elim (Bool-cases (has (claim task) a)) [
          | inl both ↦
              let open_ =
                all-Elem (λ b. not (has held b)) (claim task) a free
                  ((has_iff (claim task) a).0 both) in
              ground (arith, h a)
          | inr apart ↦ apart
        ]

    pub without-AreApart :
        (key : JsString) (running : List GraphTask)
        → AreApart running
        → AreApart (without key running)
    without-AreApart key [] d = tt
    without-AreApart key (t ∷ running) (here, d) = elim (Bool-cases (t.key == key)) [
      | inl gone ↦ rw gone (without-AreApart key running d)
      | inr stays ↦
          rw stays ((λ u m. here u (Elem-without key running u m)), without-AreApart key running d)
    ]

    any_apart :
        (running : List GraphTask) (t : GraphTask) (a : A)
        → ((u : GraphTask) → Elem u running → IsApart t u)
        → has (claim t) a ≡ true
        → any (λ u. has (claim u) a) running ≡ false
    any_apart [] t a h c = refl
    any_apart (u ∷ running) t a h c =
        rw (h u (inl refl) a c) (any_apart running t a (λ v m. h v (inr m)) c)

    -- What the others claim once the task has left.
    any-without :
        (running : List GraphTask) (task : GraphTask) (a : A)
        → Distinct (running_keys running)
        → AreApart running
        → Elem task running
        → any (λ t. has (claim t) a) (without task.key running)
          ≡ (any (λ t. has (claim t) a) running && not (has (claim task) a))
    any-without [] task a d p m = elim m [ ]
    any-without (u ∷ running) task a (once, d) (here, p) (inl e') =
        let left = ap (any (λ t. has (claim t) a)) (without_head u task running once e') in
        let claims = ap (λ t. has (claim t) a) e' in
        elim (Bool-cases (has (claim u) a)) [
          | inl c ↦ let others = any_apart running u a here c in ground arith
          | inr c ↦ ground arith
        ]
    any-without (u ∷ running) task a (once, d) (here, p) (inr m) =
        let left = ap (any (λ t. has (claim t) a)) (without_tail u task running once m) in
        let apart = here task m a in ground (arith, any-without running task a d p m, apart)

    pub complete-IsHeld :
        (held : List A) (running : List GraphTask) (task : GraphTask)
        → Distinct (running_keys running)
        → AreApart running
        → Elem task running
        → IsHeld held running
        → IsHeld (each delete held (claim task)) (without task.key running)
    complete-IsHeld held running task d p m h a =
        ground (arith, h a, has-each-delete held (claim task) a, any-without running task a d p m)
