-- ===== src/Cache/Placed.antt =====
-- A publication that returns has put each output in its place.
use tc_pipelines.Base.{
  ℕ, suc, ◌≡◌, refl, sym, ap, ◌∙◌, subst, inl, inr, arith, Bool, true, false, ◌||◌, List, [], ◌∷◌,
  none, some, JsString, ◌==◌, eq_iff, eq_refl, nat_eq, list_eq, has, take, Distinct, Bool-cases,
  Elem, Elem-append_left, Elem-append_right,
}
use tc_pipelines.Cache.Publish.{
  file, Store, put, is_present, is_directory, make_directories, Platform, make_parent, write_file,
  change_mode, remove_backup, VerifiedOutput, Publication, Progress, tidy, escapes, parents_of,
  publication_for, write_outputs, move_output, move_outputs, remove_backups, attempt_all,
  publish_verified_outputs,
}
use tc_pipelines.Cache.Kept.{
  IsKept, as_it_was, IsKept-trans, IsKept-mono, make_directories-IsKept, unlisted-IsKept,
}
use tc_pipelines.Cache.Rollback.{
  scratch_names, all_names, tidy-frame, other_way, move_output-Outcome, moved-Outcome,
}
use tc_pipelines.Cache.Restored.{planned, all_parents, either_false, scratch_names-move_outputs}

-- A listed name is not one that the list lacks.
listed_apart :
    (names : List JsString) (q name : JsString)
    → has names q ≡ true
    → has names name ≡ false
    → (q == name) ≡ false
listed_apart names q name listed lacks = elim (Bool-cases (q == name)) [
  | inr apart ↦ apart
  | inl same ↦ absurd (
      let moved = ap (has names) ((eq_iff q name).0 same) in
      let never = sym lacks ∙ sym moved ∙ listed in cc)
]

-- A temporary file or a backup has a name.
scratch_within :
    (ps : List Publication) (q : JsString)
    → has (all_names ps) q ≡ false
    → has (scratch_names ps) q ≡ false
scratch_within [] q k = refl
scratch_within (p ∷ ps) q k =
    let (_, k1) =
      either_false (p.target == q) ((p.temporary == q) || ((p.backup == q) || has (all_names ps) q))
        k in
    let (k2, k3) = either_false (p.temporary == q) ((p.backup == q) || has (all_names ps) q) k1 in
    let (k4, k5) = either_false (p.backup == q) (has (all_names ps) q) k3 in
    rw (k2, k4) (scratch_within ps q k5)

module _ (platform : Platform) (root : JsString) where
  abbrev publication : ℕ → VerifiedOutput → Publication
  publication = publication_for platform root

  abbrev plans : ℕ → List VerifiedOutput → List Publication
  plans = planned platform root

  -- Each output stands at a name of its publication.
  abbrev pub Holds : (Publication → JsString) → Store → ℕ → List VerifiedOutput → Type 0
  Holds name store index [] = Unit
  Holds name store index (output ∷ outputs) =
      (store (name (publication index output)) ≡ some (file output.bytes output.mode))
      × Holds name store (suc index) outputs

  abbrev temporary_of : Publication → JsString
  temporary_of p = p.temporary

  abbrev pub target_of : Publication → JsString
  target_of p = p.target

  -- The names of the temporary files and of the targets are names.
  temporaries-agree :
      (index : ℕ) (outputs : List VerifiedOutput) (before after : Store)
      → ((q : JsString) → has (all_names (plans index outputs)) q ≡ true → after q ≡ before q)
      → Holds temporary_of before index outputs
      → Holds temporary_of after index outputs
  temporaries-agree index [] before after same h = tt
  temporaries-agree index (output ∷ outputs) before after same (here, later) =
      let p = publication index output in
      (
        same p.temporary (rw (eq_refl p.temporary) (ground arith)) ∙ here,
        temporaries-agree (suc index) outputs before after (λ q m. same q (rw m (ground arith)))
            later,
      )

  targets-agree :
      (index : ℕ) (outputs : List VerifiedOutput) (before after : Store)
      → ((q : JsString)
          → has (all_names (plans index outputs)) q ≡ true
          → has (scratch_names (plans index outputs)) q ≡ false
          → after q ≡ before q)
      → Distinct (all_names (plans index outputs))
      → Holds target_of before index outputs
      → Holds target_of after index outputs
  targets-agree index [] before after same distinct h = tt
  targets-agree index (output ∷ outputs) before after same distinct (here, later) =
      let p = publication index output in
      let rest = plans (suc index) outputs in
      let (t_m, more) =
        either_false (p.temporary == p.target)
          ((p.backup == p.target) || has (all_names rest) p.target) distinct.0 in
      let (t_b, t_rest) =
        either_false (p.backup == p.target) (has (all_names rest) p.target) more in
      let (_, m_rest) =
        either_false (p.backup == p.temporary) (has (all_names rest) p.temporary) distinct.1.0 in
      (
        same p.target (rw (eq_refl p.target) refl)
              (rw (t_m, t_b) (scratch_within rest p.target t_rest))
            ∙ here,
        targets-agree (suc index) outputs before after
            (λ q m k. same q (rw m (ground arith)) (
              rw
                (
                  other_way q p.temporary (listed_apart (all_names rest) q p.temporary m m_rest),
                  other_way q p.backup (listed_apart (all_names rest) q p.backup m distinct.1.1.0),
                )
                k))
            distinct.1.1.1 later,
      )

  -- No name of the publications is a directory that has an output below it.
  abbrev pub AreLaidOut : ℕ → List VerifiedOutput → Type 0
  AreLaidOut index outputs =
      (q : JsString)
      → Elem q (all_parents platform root outputs)
      → has (all_names (plans index outputs)) q ≡ false

  -- What the first loop has done, if it ends.
  abbrev IsWrittenOut : ℕ → Store → List VerifiedOutput → Progress → Type 0
  IsWrittenOut index store outputs progress =
      (progress.publications ≡ plans index outputs)
      × Holds temporary_of progress.store index outputs
      × ((q : JsString)
          → has (all_names (plans index outputs)) q ≡ false
          → IsKept (all_parents platform root outputs) q (store q) (progress.store q))

  -- What the second one has done.
  abbrev IsMovedIn : ℕ → Store → List VerifiedOutput → Progress → Type 0
  IsMovedIn index store outputs progress =
      Holds target_of progress.store index outputs
      × ((q : JsString)
          → has (all_names (plans index outputs)) q ≡ false
          → progress.store q ≡ store q)

  laid_out_later :
      (index : ℕ) (output : VerifiedOutput) (outputs : List VerifiedOutput)
      → AreLaidOut index (output ∷ outputs)
      → AreLaidOut (suc index) outputs
  laid_out_later index output outputs laid q m =
      let all = laid q (
        Elem-append_right q (parents_of platform root output) (all_parents platform root outputs)
          m) in
      ground (arith, all)

  written_temporaries :
      (index : ℕ) (store : Store) (outputs : List VerifiedOutput)
      → Distinct (all_names (plans index outputs))
      → AreLaidOut index outputs
      → (write_outputs platform root index store outputs).completed ≡ true
      → IsWrittenOut index store outputs (write_outputs platform root index store outputs)
  unfolding write_outputs
  written_temporaries index store [] distinct laid h = (refl, tt, λ q k. as_it_was refl)
  written_temporaries index store (output ∷ outputs) distinct laid h =
      let p = publication index output in
      let parents = parents_of platform root output in
      let ready = make_directories parents store in
      let partly = make_directories (take (platform.made p.target) parents) store in
      elim (Bool-cases (escapes platform root output.path)) [
        | inl outside ↦ absurd (let never : false ≡ true = rw outside at h in cc)
        | inr inside ↦ elim (Bool-cases (platform.fails make_parent p.target)) [
          | inl unmade ↦ absurd (let never : false ≡ true = rw (inside, unmade) at h in cc)
          | inr made ↦ elim (Bool-cases (is_directory (ready p.target))) [
            | inl refused ↦
                absurd (let never : false ≡ true = rw (inside, made, refused) at h in cc)
            | inr open_target ↦ elim (Bool-cases (is_present (ready p.temporary))) [
              | inl taken ↦
                  absurd
                    (let never : false ≡ true = rw (inside, made, open_target, taken) at h in cc)
              | inr free ↦
                  elim (Bool-cases (
                    platform.fails write_file p.temporary
                    || platform.fails change_mode p.temporary)) [
                      | inl broken ↦ absurd (
                          let never : false ≡ true =
                            rw (inside, made, open_target, free, broken) at h in
                          cc)
                      | inr fine ↦
                          let written =
                            put ready p.temporary (some (file output.bytes output.mode)) in
                          let tail = write_outputs platform root (suc index) written outputs in
                          let ended : tail.completed ≡ true =
                            rw (inside, made, open_target, free, fine) at h in
                          let whole : write_outputs platform root index store (output ∷ outputs)
                              ≡ record {
                                store = tail.store;
                                publications = p ∷ tail.publications;
                                completed = tail.completed;
                              } =
                            rw (inside, made, open_target, free, fine) refl in
                          subst (IsWrittenOut index store (output ∷ outputs)) (sym whole) (
                            written_with index store output outputs tail distinct laid (
                              written_temporaries (suc index) written outputs distinct.1.1.1
                                (laid_out_later index output outputs laid) ended))
                    ]
            ]
          ]
        ]
      ]
    where
      -- The file of the first output stays, and the other paths are as the later writes leave them.
      written_with :
          (i : ℕ) (before : Store) (o : VerifiedOutput) (os : List VerifiedOutput) (tail : Progress)
          → Distinct (all_names (plans i (o ∷ os)))
          → AreLaidOut i (o ∷ os)
          → IsWrittenOut
              (suc i)
              (put
                (make_directories (parents_of platform root o) before)
                (publication i o).temporary
                (some (file o.bytes o.mode)))
              os
              tail
          → IsWrittenOut i before (o ∷ os) (record {
            store = tail.store;
            publications = publication i o ∷ tail.publications;
            completed = tail.completed;
          })
      written_with i before o os tail distinct laid (same, held, frame) =
          let p = publication i o in
          let rest = plans (suc i) os in
          let parents = parents_of platform root o in
          let (_, m_rest) =
            either_false (p.backup == p.temporary) (has (all_names rest) p.temporary)
              distinct.1.0 in
          let no_parent : Elem p.temporary (all_parents platform root os) → ⊥ = λ m.
            let named =
              laid p.temporary
                (Elem-append_right p.temporary parents (all_parents platform root os) m) in
            absurd (let listed = eq_refl p.temporary in ground (arith, named, listed)) in
          (
            ap (λ ps. p ∷ ps) same,
            (
              unlisted-IsKept no_parent (frame p.temporary m_rest) ∙ rw (eq_refl p.temporary) refl,
              held,
            ),
            λ q k.
                let (_, k1) =
                  either_false (p.target == q)
                    ((p.temporary == q) || ((p.backup == q) || has (all_names rest) q)) k in
                let (k2, k3) =
                  either_false (p.temporary == q) ((p.backup == q) || has (all_names rest) q) k1 in
                let (_, k4) = either_false (p.backup == q) (has (all_names rest) q) k3 in
                IsKept-trans
                  (IsKept-mono (Elem-append_left q parents (all_parents platform root os))
                    (rw (other_way p.temporary q k2) (make_directories-IsKept parents before q)))
                  (IsKept-mono (Elem-append_right q parents (all_parents platform root os))
                    (frame q k4)),
          )

  moved_targets :
      (index : ℕ) (store : Store) (outputs : List VerifiedOutput)
      → Distinct (all_names (plans index outputs))
      → Holds temporary_of store index outputs
      → (move_outputs platform root store (plans index outputs)).completed ≡ true
      → IsMovedIn index store outputs (move_outputs platform root store (plans index outputs))
  unfolding move_outputs
  moved_targets index store [] distinct held h = (tt, λ q k. refl)
  moved_targets index store (output ∷ outputs) distinct (here, later) h =
      let p = publication index output in
      let rest = plans (suc index) outputs in
      let step = move_output platform root store p in
      let (t_m, more) =
        either_false (p.temporary == p.target)
          ((p.backup == p.target) || has (all_names rest) p.target) distinct.0 in
      let (t_b, t_rest) =
        either_false (p.backup == p.target) (has (all_names rest) p.target) more in
      let (m_b, m_rest) =
        either_false (p.backup == p.temporary) (has (all_names rest) p.temporary) distinct.1.0 in
      let away = other_way p.backup p.target t_b in
      let fresh = other_way p.temporary p.target t_m in
      let two = other_way p.backup p.temporary m_b in
      let outcome = move_output-Outcome platform root store p away fresh two in
      elim (Bool-cases step.completed) [
        | inr stuck ↦ absurd (let never : false ≡ true = rw stuck at h in cc)
        | inl done ↦
            let (placed, frame) = moved-Outcome platform root store p away fresh two outcome done in
            let ended : (move_outputs platform root step.store rest).completed ≡ true =
              rw done at h in
            let kept =
              temporaries-agree (suc index) outputs store step.store
                (λ q m.
                  frame q (listed_apart (all_names rest) q p.target m t_rest)
                    (listed_apart (all_names rest) q p.temporary m m_rest)
                    (listed_apart (all_names rest) q p.backup m distinct.1.1.0))
                later in
            let (targets, unchanged) =
              moved_targets (suc index) step.store outputs distinct.1.1.1 kept ended in
            let tail = move_outputs platform root step.store rest in
            let whole : move_outputs platform root store (p ∷ rest) ≡ record {
              store = tail.store;
              publications = step.publication ∷ tail.publications;
              completed = tail.completed;
            } =
              rw done refl in
            subst (IsMovedIn index store (output ∷ outputs)) (sym whole) (
              (unchanged p.target t_rest ∙ placed ∙ here, targets),
              λ q k.
                  let (k0, k1) =
                    either_false (p.target == q)
                      ((p.temporary == q) || ((p.backup == q) || has (all_names rest) q)) k in
                  let (k2, k3) =
                    either_false (p.temporary == q) ((p.backup == q) || has (all_names rest) q)
                      k1 in
                  let (k4, k5) = either_false (p.backup == q) (has (all_names rest) q) k3 in
                  unchanged q k5
                  ∙ frame q (other_way p.target q k0) (other_way p.temporary q k2)
                      (other_way p.backup q k4),
            )
      ]

  remove_backups-frame :
      (ps : List Publication) (store : Store) (q : JsString)
      → has (scratch_names ps) q ≡ false
      → (remove_backups platform root store ps).0 q ≡ store q
  unfolding remove_backups
  remove_backups-frame [] store q k = refl
  remove_backups-frame (p ∷ ps) store q k =
      let (_, k1) =
        either_false (p.temporary == q) ((p.backup == q) || has (scratch_names ps) q) k in
      let (k2, k3) = either_false (p.backup == q) (has (scratch_names ps) q) k1 in
      elim (Bool-cases p.backup_moved) [
        | inr kept ↦ rw kept (remove_backups-frame ps store q k3)
        | inl moved ↦ elim (Bool-cases (platform.fails remove_backup p.backup)) [
          | inl stuck ↦ rw (moved, stuck) refl
          | inr fine ↦
              rw (moved, fine)
                (remove_backups-frame ps (put store p.backup none) q k3
                  ∙ rw (other_way p.backup q k2) refl)
        ]
      ]

  -- Each output stands at its target, and every path that is no name of a publication is as it was or
  -- a directory that was made as a parent of an output.
  abbrev pub IsPlacedIn : Store → List VerifiedOutput → Store → Type 0
  IsPlacedIn store outputs after =
      Holds target_of after 0 outputs
      × ((q : JsString)
          → has (all_names (plans 0 outputs)) q ≡ false
          → IsKept (all_parents platform root outputs) q (store q) (after q))

  -- If the publication of outputs returns, and the names are distinct and none is a directory with an
  -- output below it, then each output stands at its target with its content and mode, and every path
  -- that is no name of a publication is as it was, or is a directory that was made, where nothing
  -- stood, as a parent of an output.
  pub publish_verified_outputs-places :
      (store : Store) (outputs : List VerifiedOutput)
      → Distinct (all_names (planned platform root 0 outputs))
      → AreLaidOut 0 outputs
      → (publish_verified_outputs platform root store outputs).1 ≡ true
      → IsPlacedIn store outputs (publish_verified_outputs platform root store outputs).0
  unfolding publish_verified_outputs attempt_all
  publish_verified_outputs-places store outputs distinct laid h =
      let written = write_outputs platform root 0 store outputs in
      let moved = move_outputs platform root written.store written.publications in
      let removed = remove_backups platform root moved.store moved.publications in
      elim (Bool-cases written.completed) [
        | inr broken ↦ absurd (let never : false ≡ true = rw broken at h in cc)
        | inl begun ↦ elim (Bool-cases moved.completed) [
          | inr stuck ↦ absurd (let never : false ≡ true = rw (begun, stuck) at h in cc)
          | inl done ↦
              let ended : removed.1 ≡ true = rw (begun, done) at h in
              let (same, held, fresh) = written_temporaries 0 store outputs distinct laid begun in
              let (targets, unchanged) = moved_targets 0 written.store outputs distinct held (
                subst (λ ps. (move_outputs platform root written.store ps).completed ≡ true) same
                  done) in
              let whole =
                subst
                  (λ ps.
                    Holds target_of (move_outputs platform root written.store ps).store 0 outputs)
                  (sym same) targets in
              let names : (q : JsString)
                  → has (scratch_names moved.publications) q
                    ≡ has (scratch_names (plans 0 outputs)) q =
                λ q.
                  scratch_names-move_outputs platform root written.publications written.store q
                  ∙ ap (λ ps. has (scratch_names ps) q) same in
              let quiet : (q : JsString)
                  → has (scratch_names (plans 0 outputs)) q ≡ false
                  → tidy moved.publications removed.0 q ≡ moved.store q =
                λ q k.
                  tidy-frame moved.publications removed.0 q (names q ∙ k)
                  ∙ remove_backups-frame moved.publications moved.store q (names q ∙ k) in
              let result : publish_verified_outputs platform root store outputs
                  ≡ (tidy moved.publications removed.0, true) =
                rw (begun, done, ended) refl in
              subst (IsPlacedIn store outputs) (sym (ap (λ (r : Store × Bool). r.0) result)) (
                targets-agree 0 outputs moved.store (tidy moved.publications removed.0)
                    (λ q m k. quiet q k) distinct whole,
                λ q k. IsKept-trans (fresh q k) (
                    as_it_was (
                      quiet q (scratch_within (plans 0 outputs) q k)
                      ∙ ap (λ ps. (move_outputs platform root written.store ps).store q) same
                      ∙ unchanged q k)),
              )
        ]
      ]
