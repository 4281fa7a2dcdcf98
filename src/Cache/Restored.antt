-- ===== src/Cache/Restored.antt =====
-- A publication that fails leaves the files as they were: the whole of it.
use tc_pipelines.Base.{
  ℕ, suc, ◌≡◌, refl, sym, ap, ◌∙◌, eq_refl, inl, inr, arith, Bool, true, false, ◌||◌, List, [], ◌∷◌,
  none, some, JsString, ◌==◌, nat_eq, list_eq, has, take, flat_map, Bool-cases, Elem-append_left,
  Elem-append_right,
}
use tc_pipelines.Cache.Publish.{
  Node, file, Store, put, is_present, is_link, is_directory, make_directories, Platform,
  make_parent, write_file, change_mode, move_aside, move_into, remove_backup, VerifiedOutput,
  Publication, Progress, Step, exists, escapes, parents_of, roll_back, publication_for,
  write_outputs, set_aside, move_output, move_outputs, remove_backups, attempt_all,
  publish_verified_outputs,
}
use tc_pipelines.Cache.Kept.{
  IsKept, as_it_was, IsKept-trans, IsKept-mono, make_directories-IsKept, plain-IsKept, Elem-take,
}
use tc_pipelines.Cache.Rollback.{
  scratch_names, all_names, AreApart, Unmoved, roll_back-Unmoved, tidy-frame, other_way,
  move_output-Outcome, undo-Outcome, plain-Outcome,
}

pub either_false : (a b : Bool) → (a || b) ≡ false → (a ≡ false) × (b ≡ false)
either_false false false h = (refl, refl)
either_false false true h = absurd (cc)
either_false true b h = absurd (cc)

module _ (platform : Platform) (root : JsString) where
  abbrev step_of : Store → Publication → Step
  step_of = move_output platform root

  abbrev moves : Store → List Publication → Progress
  moves = move_outputs platform root

  abbrev writes : ℕ → Store → List VerifiedOutput → Progress
  writes = write_outputs platform root

  -- The directories of the outputs with those above them.
  abbrev pub all_parents : List VerifiedOutput → List JsString
  all_parents = flat_map (parents_of platform root)

  -- No name of the publications holds a symbolic link.
  abbrev pub AreLinkless : Store → List Publication → Type 0
  AreLinkless store ps = (q : JsString) → has (all_names ps) q ≡ true → is_link (store q) ≡ false

  -- All the publications, if nothing fails.
  abbrev pub planned : ℕ → List VerifiedOutput → List Publication
  planned index [] = []
  planned index (output ∷ outputs) =
      publication_for platform root index output ∷ planned (suc index) outputs

  move_outputs-undone :
      (ps : List Publication) (store : Store)
      → AreApart ps
      → Unmoved ps
      → AreLinkless store ps
      → (moves store ps).completed ≡ false
      → (q : JsString) → has (scratch_names ps) q ≡ false
      → roll_back platform root (moves store ps).publications (moves store ps).store q ≡ store q
  unfolding move_outputs roll_back
  move_outputs-undone [] store apart unmoved plain h q away = absurd (cc)
  move_outputs-undone (p ∷ ps) store (tt_, tb, mb, target_apart, backup_apart, rest_apart)
        (kept, unset, rest_unmoved) plain h q away =
      let step = step_of store p in
      let outcome = move_output-Outcome platform root store p tb tt_ mb in
      let target_plain : is_link (store p.target) ≡ false =
        plain p.target (rw (eq_refl p.target) refl) in
      let temporary_plain : is_link (store p.temporary) ≡ false =
        plain p.temporary (rw (eq_refl p.temporary) (ground arith)) in
      let rest_plain : AreLinkless step.store ps = λ r m.
        plain-Outcome platform root store p tb tt_ mb outcome target_plain temporary_plain r
          (plain r (ground (arith, m))) in
      let (qt, more) =
        either_false (p.temporary == q) ((p.backup == q) || has (scratch_names ps) q) away in
      let (qb, later) = either_false (p.backup == q) (has (scratch_names ps) q) more in
      let back =
        λ (after : Store) (same_backup : after p.backup ≡ step.store p.backup)
            (same : after q ≡ step.store q).
          undo-Outcome platform root store p tb tt_ mb outcome target_plain kept unset after q
            (other_way p.temporary q qt) (other_way p.backup q qb) same_backup same in
      elim (Bool-cases step.completed) [
        | inr stuck ↦
            let idle = roll_back-Unmoved platform root ps step.store rest_unmoved in
            rw stuck (
              back (roll_back platform root ps step.store) (ap (λ (s : Store). s p.backup) idle)
                (ap (λ (s : Store). s q) idle))
        | inl done ↦
            let failed : (moves step.store ps).completed ≡ false = rw done at h in
            rw done (
              back
                (roll_back platform root (moves step.store ps).publications
                  (moves step.store ps).store)
                (move_outputs-undone ps step.store rest_apart rest_unmoved rest_plain failed
                  p.backup backup_apart)
                (move_outputs-undone ps step.store rest_apart rest_unmoved rest_plain failed q
                  later))
      ]

  -- What a write leaves behind.
  record IsWritten (index : ℕ) (store : Store) (outputs : List VerifiedOutput) (progress : Progress)
      : Type 0 where
    unmoved : Unmoved progress.publications
    within :
        (q : JsString)
        → has (scratch_names (planned index outputs)) q ≡ false
        → has (scratch_names progress.publications) q ≡ false
    named :
        (q : JsString)
        → has (all_names progress.publications) q ≡ true
        → has (all_names (planned index outputs)) q ≡ true
    apart : AreApart (planned index outputs) → AreApart progress.publications
    frame :
        (q : JsString)
        → has (scratch_names (planned index outputs)) q ≡ false
        → IsKept (all_parents outputs) q (store q) (progress.store q)
    plain : (q : JsString) → is_link (store q) ≡ false → is_link (progress.store q) ≡ false

  -- A write that leaves no publication.
  unstarted-IsWritten :
      (index : ℕ) (store after : Store) (outputs : List VerifiedOutput)
      → ((q : JsString) → IsKept (all_parents outputs) q (store q) (after q))
      → IsWritten index store outputs
          (record { store = after; publications = []; completed = false })
  unstarted-IsWritten index store after outputs kept = record {
    unmoved = tt;
    within = λ q h. refl;
    named = λ q h. absurd (cc);
    apart = λ a. tt;
    frame = λ q h. kept q;
    plain = λ q h. plain-IsKept (kept q) h;
  }

  -- A publication whose temporary file changed, or not, and the ones behind it.
  publication_for-IsWritten :
      (index : ℕ) (store base : Store) (output : VerifiedOutput) (outputs : List VerifiedOutput)
      (later : Progress)
      → ((q : JsString)
          → (publication_for platform root index output).temporary == q ≡ false
          → IsKept (all_parents (output ∷ outputs)) q (store q) (base q))
      → ((q : JsString) → is_link (store q) ≡ false → is_link (base q) ≡ false)
      → IsWritten (suc index) base outputs later
      → IsWritten index store (output ∷ outputs) (record {
        store = later.store;
        publications = publication_for platform root index output ∷ later.publications;
        completed = later.completed;
      })
  publication_for-IsWritten index store base output outputs later kept plain rest =
      let p = publication_for platform root index output in
      let split =
        λ (q : JsString) (h : has (scratch_names (planned index (output ∷ outputs))) q ≡ false).
          either_false (p.temporary == q)
            ((p.backup == q) || has (scratch_names (planned (suc index) outputs)) q) h in
      let split_later =
        λ (q : JsString) (h : has (scratch_names (planned index (output ∷ outputs))) q ≡ false).
          either_false (p.backup == q) (has (scratch_names (planned (suc index) outputs)) q)
            (split q h).1 in
      record {
        unmoved = (refl, refl, rest.unmoved);
        within = λ q h. rw ((split q h).0, (split_later q h).0) (rest.within q (split_later q h).1);
        named = λ q h. ground (arith, rest.named q);
        apart = λ (x, y, z, t, u, more).
            (x, y, z, rest.within p.target t, rest.within p.backup u, rest.apart more);
        frame = λ q h. IsKept-trans (kept q (split q h).0) (
            IsKept-mono
              (Elem-append_right q (parents_of platform root output) (all_parents outputs))
              (rest.frame q (split_later q h).1));
        plain = λ q h. rest.plain q (plain q h);
      }

  write_outputs-IsWritten :
      (index : ℕ) (store : Store) (outputs : List VerifiedOutput)
      → IsWritten index store outputs (writes index store outputs)
  unfolding write_outputs
  write_outputs-IsWritten index store [] = record {
    unmoved = tt;
    within = λ q h. h;
    named = λ q h. h;
    apart = λ a. a;
    frame = λ q h. as_it_was refl;
    plain = λ q h. h;
  }
  write_outputs-IsWritten index store (output ∷ outputs) =
      let p = publication_for platform root index output in
      let parents = parents_of platform root output in
      let ready = make_directories parents store in
      let partly = make_directories (take (platform.made p.target) parents) store in
      let made : (q : JsString) → IsKept (all_parents (output ∷ outputs)) q (store q) (ready q) =
        λ q.
          IsKept-mono (Elem-append_left q parents (all_parents outputs))
            (make_directories-IsKept parents store q) in
      let some_made : (q : JsString)
          → IsKept (all_parents (output ∷ outputs)) q (store q) (partly q) =
        λ q.
          IsKept-mono
            (λ m.
              Elem-append_left q parents (all_parents outputs)
                (Elem-take (platform.made p.target) parents q m))
            (make_directories-IsKept (take (platform.made p.target) parents) store q) in
      let with_file : (bytes : JsString) → Store =
        λ bytes. put ready p.temporary (some (file bytes output.mode)) in
      let file_kept : (bytes q : JsString)
          → (p.temporary == q) ≡ false
          → IsKept (all_parents (output ∷ outputs)) q (store q) (with_file bytes q) =
        λ bytes q k. rw (other_way p.temporary q k) (made q) in
      let file_plain : (bytes q : JsString)
          → is_link (store q) ≡ false
          → is_link (with_file bytes q) ≡ false =
        λ bytes q h.
          plain_put ready p.temporary (file bytes output.mode) refl q (plain-IsKept (made q) h) in
      elim (Bool-cases (escapes platform root output.path)) [
        | inl outside ↦
            rw outside
              (unstarted-IsWritten index store store (output ∷ outputs) (λ q. as_it_was refl))
        | inr inside ↦ elim (Bool-cases (platform.fails make_parent p.target)) [
          | inl unmade ↦
              rw (inside, unmade)
                (unstarted-IsWritten index store partly (output ∷ outputs) some_made)
          | inr made_all ↦ elim (Bool-cases (is_directory (ready p.target))) [
            | inl refused ↦
                rw (inside, made_all, refused)
                  (unstarted-IsWritten index store ready (output ∷ outputs) made)
            | inr free_target ↦ elim (Bool-cases (is_present (ready p.temporary))) [
              | inl taken ↦
                  rw (inside, made_all, free_target, taken)
                    (publication_for-IsWritten index store ready output outputs
                      (record { store = ready; publications = []; completed = false })
                      (λ q k. made q) (λ q h. plain-IsKept (made q) h)
                      (unstarted-IsWritten (suc index) ready ready outputs (λ q. as_it_was refl)))
              | inr free ↦
                  elim (Bool-cases (
                    platform.fails write_file p.temporary
                    || platform.fails change_mode p.temporary)) [
                      | inl broken ↦
                          rw (inside, made_all, free_target, free, broken)
                            (publication_for-IsWritten index store (with_file []) output outputs
                              (record {
                                store = with_file [];
                                publications = [];
                                completed = false;
                              })
                              (file_kept []) (file_plain [])
                              (unstarted-IsWritten (suc index) (with_file []) (with_file []) outputs
                                (λ q. as_it_was refl)))
                      | inr fine ↦
                          rw (inside, made_all, free_target, free, fine)
                            (publication_for-IsWritten index store (with_file output.bytes) output
                              outputs (writes (suc index) (with_file output.bytes) outputs)
                              (file_kept output.bytes) (file_plain output.bytes)
                              (write_outputs-IsWritten (suc index) (with_file output.bytes)
                                outputs))
                    ]
            ]
          ]
        ]
      ]
    where
      plain_put :
          (s : Store) (path : JsString) (n : Node)
          → is_link (some n) ≡ false
          → (q : JsString) → is_link (s q) ≡ false
          → is_link (put s path (some n) q) ≡ false
      plain_put s path n plain q h = elim (Bool-cases (q == path)) [
        | inl here ↦ rw here plain
        | inr other ↦ rw other h
      ]

  -- Moving the outputs keeps the names.
  scratch_names-move :
      (store : Store) (p : Publication)
      → scratch_names ((step_of store p).publication ∷ []) ≡ scratch_names (p ∷ [])
  unfolding move_output set_aside
  scratch_names-move store p = elim (Bool-cases (exists platform root store p.target)) [
    | inr empty ↦ elim (Bool-cases (platform.fails move_into p.temporary)) [
      | inl stuck ↦ rw (empty, stuck) refl
      | inr fine ↦ rw (empty, fine) refl
    ]
    | inl full ↦ elim (Bool-cases (platform.fails move_aside p.target)) [
      | inl stuck ↦ rw (full, stuck) refl
      | inr free ↦ elim (Bool-cases (platform.fails move_into p.temporary)) [
        | inl late ↦ rw (full, free, late) refl
        | inr fine ↦ rw (full, free, fine) refl
      ]
    ]
  ]

  pub scratch_names-move_outputs :
      (ps : List Publication) (store : Store) (q : JsString)
      → has (scratch_names (moves store ps).publications) q ≡ has (scratch_names ps) q
  unfolding move_outputs
  scratch_names-move_outputs [] store q = refl
  scratch_names-move_outputs (p ∷ ps) store q =
      let step = step_of store p in
      let front : (later : List Publication)
          → has (scratch_names (step.publication ∷ later)) q ≡ has (scratch_names (p ∷ later)) q =
        λ later.
          ap (λ names. has (front_of names (scratch_names later)) q) (scratch_names-move store p) in
      elim (Bool-cases step.completed) [
        | inr stuck ↦ rw stuck (front ps)
        | inl done ↦ rw done (
            front (moves step.store ps).publications
            ∙ ap (λ b. (p.temporary == q) || ((p.backup == q) || b))
                (scratch_names-move_outputs ps step.store q))
      ]
    where
      front_of : List JsString → List JsString → List JsString
      front_of [] later = later
      front_of (name ∷ names) later = name ∷ front_of names later

  remove_backups-completes :
      ((path : JsString) → platform.fails remove_backup path ≡ false)
      → (ps : List Publication) (store : Store) → (remove_backups platform root store ps).1 ≡ true
  unfolding remove_backups
  remove_backups-completes never [] store = refl
  remove_backups-completes never (p ∷ ps) store = elim (Bool-cases p.backup_moved) [
    | inl moved ↦
        rw (moved, never p.backup) (remove_backups-completes never ps (put store p.backup none))
    | inr kept ↦ rw kept (remove_backups-completes never ps store)
  ]

  -- If the publication of outputs fails, and no removal of a backup does, the names of the
  -- publications are not mixed up and none holds a symbolic link, then every path but the temporary
  -- names and the backups is as it was, or is a directory that was made, where nothing stood, as a
  -- parent of an output.
  pub publish_verified_outputs-restores :
      (store : Store) (outputs : List VerifiedOutput)
      → ((path : JsString) → platform.fails remove_backup path ≡ false)
      → AreApart (planned 0 outputs)
      → AreLinkless store (planned 0 outputs)
      → (publish_verified_outputs platform root store outputs).1 ≡ false
      → (q : JsString) → has (scratch_names (planned 0 outputs)) q ≡ false
      → IsKept
          (all_parents outputs)
          q
          (store q)
          ((publish_verified_outputs platform root store outputs).0 q)
  unfolding publish_verified_outputs attempt_all
  publish_verified_outputs-restores store outputs never apart plain h q away =
      let written = writes 0 store outputs in
      let facts = write_outputs-IsWritten 0 store outputs in
      let moved = moves written.store written.publications in
      let quiet = facts.within q away in
      let plain' : AreLinkless written.store written.publications =
        λ r m. facts.plain r (plain r (facts.named r m)) in
      elim (Bool-cases written.completed) [
        | inr broken ↦ rw broken (
            IsKept-trans (facts.frame q away) (
              as_it_was (
                tidy-frame written.publications
                  (roll_back platform root written.publications written.store) q quiet
                ∙ ap (λ (s : Store). s q)
                    (roll_back-Unmoved platform root written.publications written.store
                      facts.unmoved))))
        | inl begun ↦ elim (Bool-cases moved.completed) [
          | inr stuck ↦
              rw (begun, stuck)
                (IsKept-trans (facts.frame q away) (
                  as_it_was (
                    tidy-frame moved.publications
                      (roll_back platform root moved.publications moved.store) q
                      (scratch_names-move_outputs written.publications written.store q ∙ quiet)
                    ∙ move_outputs-undone written.publications written.store (facts.apart apart)
                        facts.unmoved plain' stuck q quiet)))
          | inl done ↦
              let removed = remove_backups-completes never moved.publications moved.store in
              let failed : (remove_backups platform root moved.store moved.publications).1 ≡ false =
                rw (begun, done) at h in
              absurd (let never_both = sym removed ∙ failed in cc)
        ]
      ]
