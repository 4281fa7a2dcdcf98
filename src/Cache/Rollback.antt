-- ===== src/Cache/Rollback.antt =====
-- A publication that fails leaves the files as they were.
use tc_pipelines.Base.{
  ◌≡◌, refl, sym, ap, ◌∙◌, inl, inr, arith, true, false, List, [], ◌∷◌, Option, none, some,
  JsString, ◌==◌, eq_iff, eq_refl, nat_eq, list_eq, has, Bool-cases,
}
use tc_pipelines.Cache.Publish.{
  Node, Store, put, rename, is_present, is_link, exists, Platform, move_aside, move_into,
  Publication, Step, return_backup, undo, roll_back, tidy, set_aside, move_output,
}

-- The names of the temporary files and backups.
abbrev pub scratch_names : List Publication → List JsString
scratch_names [] = []
scratch_names (publication ∷ publications) =
    publication.temporary ∷ publication.backup ∷ scratch_names publications

-- Names that are not mixed up: those of a publication differ, and its target and backup are no
-- temporary files or backups of a later one.
abbrev pub AreApart : List Publication → Type 0
AreApart [] = Unit
AreApart (p ∷ ps) =
    ((p.target == p.temporary) ≡ false)
    × ((p.target == p.backup) ≡ false)
    × ((p.temporary == p.backup) ≡ false)
    × (has (scratch_names ps) p.target ≡ false)
    × (has (scratch_names ps) p.backup ≡ false)
    × AreApart ps

-- All the names of publications.
abbrev pub all_names : List Publication → List JsString
all_names [] = []
all_names (p ∷ ps) = p.target ∷ p.temporary ∷ p.backup ∷ all_names ps

-- Publications that were not moved are undone by doing nothing.
abbrev pub Unmoved : List Publication → Type 0
Unmoved [] = Unit
Unmoved (p ∷ ps) = (p.backup_moved ≡ false) × (p.output_moved ≡ false) × Unmoved ps

module _ (platform : Platform) (root : JsString) where
  pub roll_back-Unmoved :
      (ps : List Publication) (store : Store)
      → Unmoved ps
      → roll_back platform root ps store ≡ store
  unfolding roll_back undo return_backup
  roll_back-Unmoved [] store u = refl
  roll_back-Unmoved (p ∷ ps) store (kept, unset, rest) =
      rw (kept, unset) (roll_back-Unmoved ps store rest)

  -- Where no link stands, something exists if it is there.
  exists_plain :
      (store : Store) (path : JsString)
      → is_link (store path) ≡ false
      → exists platform root store path ≡ is_present (store path)
  unfolding exists
  exists_plain store path plain = rw plain refl

present-none : (o : Option Node) → is_present o ≡ false → o ≡ none
present-none none h = refl
present-none (some n) h = absurd (cc)

-- The finally clause touches only scratch names.
pub tidy-frame :
    (ps : List Publication) (store : Store) (q : JsString)
    → has (scratch_names ps) q ≡ false
    → tidy ps store q ≡ store q
unfolding tidy
tidy-frame [] store q h = refl
tidy-frame (p ∷ ps) store q h =
    tidy-frame ps (put (put store p.temporary none) p.backup none) q (ground arith)
    ∙ ground
        (arith, eq_iff p.temporary q, eq_iff q p.temporary, eq_iff p.backup q, eq_iff q p.backup)

pub other_way : (s t : JsString) → (s == t) ≡ false → (t == s) ≡ false
other_way s t h = elim (Bool-cases (t == s)) [
  | inr apart ↦ apart
  | inl same ↦
      absurd (let e = (eq_iff s t).1 (sym ((eq_iff t s).0 same)) in let never = sym h ∙ e in cc)
]

module _ (platform : Platform) (root : JsString) (store : Store) (p : Publication)
    (away : (p.target == p.backup) ≡ false) (fresh : (p.target == p.temporary) ≡ false)
    (two : (p.temporary == p.backup) ≡ false) where
  set_aside_store : Store
  set_aside_store = rename p.target p.backup store

  abbrev moved_store : Store → Store
  moved_store s = rename p.temporary p.target s

  -- The backup holds the old file.
  aside_backup : rename p.target p.backup store p.backup ≡ store p.target
  aside_backup = rw (other_way p.target p.backup away, eq_refl p.backup) refl

  aside_frame :
      (q : JsString)
      → (q == p.backup) ≡ false
      → (q == p.target) ≡ false
      → rename p.target p.backup store q ≡ store q
  aside_frame q h k = rw (h, k) refl

  moved_frame :
      (s : Store) (q : JsString)
      → (q == p.temporary) ≡ false
      → (q == p.target) ≡ false
      → rename p.temporary p.target s q ≡ s q
  moved_frame s q h k = rw (h, k) refl

  -- A backup is moved to its target.
  returned :
      (s : Store) (q : JsString)
      → (q == p.backup) ≡ false
      → s p.backup ≡ store p.target
      → ((q == p.target) ≡ false → s q ≡ store q)
      → rename p.backup p.target s q ≡ store q
  returned s q h kept same = elim (Bool-cases (q == p.target)) [
    | inl here ↦ rw (h, here) (kept ∙ ap store (sym ((eq_iff q p.target).0 here)))
    | inr there ↦ rw (h, there) (same there)
  ]

  -- The three stores in which `move_output` can leave off.
  pub data Outcome : Step → Type 0 where
    untouched : Outcome (record { store = store; publication = p; completed = false })
    only_aside :
        exists platform root store p.target ≡ true
        → Outcome (record {
          store = rename p.target p.backup store;
          publication = record p { backup_moved = true };
          completed = false;
        })
    fresh_target :
        exists platform root store p.target ≡ false
        → Outcome (record {
          store = rename p.temporary p.target store;
          publication = record p { output_moved = true };
          completed = true;
        })
    replaced :
        exists platform root store p.target ≡ true
        → Outcome (record {
          store = rename p.temporary p.target (rename p.target p.backup store);
          publication = record p { backup_moved = true; output_moved = true };
          completed = true;
        })

  pub move_output-Outcome : Outcome (move_output platform root store p)
  unfolding move_output set_aside
  move_output-Outcome = elim (Bool-cases (exists platform root store p.target)) [
    | inr empty ↦ elim (Bool-cases (platform.fails move_into p.temporary)) [
      | inl stuck ↦ rw (empty, stuck) untouched
      | inr free ↦ rw (empty, free) (fresh_target empty)
    ]
    | inl full ↦ elim (Bool-cases (platform.fails move_aside p.target)) [
      | inl stuck ↦ rw (full, stuck) untouched
      | inr free ↦ elim (Bool-cases (platform.fails move_into p.temporary)) [
        | inl late ↦ rw (full, free, late) (only_aside full)
        | inr fine ↦ rw (full, free, fine) (replaced full)
      ]
    ]
  ]

  back_again :
      (publication : Publication) (s : Store)
      → publication.backup_moved ≡ true
      → exists platform root s publication.backup ≡ true
      → return_backup platform root publication s ≡ rename publication.backup publication.target s
  unfolding return_backup
  back_again publication s moved there = rw (moved, there) refl

  -- The backup exists as the target did.
  backup_exists :
      (s : Store)
      → is_link (store p.target) ≡ false
      → exists platform root store p.target ≡ true
      → s p.backup ≡ store p.target
      → exists platform root s p.backup ≡ true
  backup_exists s plain full held =
      exists_plain platform root s p.backup (ap is_link held ∙ plain)
      ∙ ap is_present held
      ∙ sym (exists_plain platform root store p.target plain)
      ∙ full

  -- Undoing a publication restores each path, in a store that agrees with the one it was left in.
  pub undo-Outcome :
      {step : Step}
      → Outcome step
      → is_link (store p.target) ≡ false
      → p.backup_moved ≡ false
      → p.output_moved ≡ false
      → (after : Store) (q : JsString) → (q == p.temporary) ≡ false
      → (q == p.backup) ≡ false
      → after p.backup ≡ step.store p.backup
      → after q ≡ step.store q
      → undo platform root step.publication after q ≡ store q
  unfolding undo return_backup
  undo-Outcome untouched plain kept unset after q ht hb backup same = rw (kept, unset) same
  undo-Outcome (only_aside full) plain kept unset after q ht hb backup same =
      let held = backup ∙ aside_backup in
      rw unset (
        ap (λ (s : Store). s q)
          (back_again (record p { backup_moved = true }) after refl
            (backup_exists after plain full held))
        ∙ returned after q hb held (λ there. same ∙ aside_frame q hb there))
  undo-Outcome (fresh_target empty) plain kept unset after q ht hb backup same =
      let none_there : store p.target ≡ none =
        present-none (store p.target)
          (sym (exists_plain platform root store p.target plain) ∙ empty) in
      elim (Bool-cases (q == p.target)) [
        | inl here ↦ rw (kept, here) (sym none_there ∙ ap store (sym ((eq_iff q p.target).0 here)))
        | inr there ↦ rw (kept, there) (same ∙ moved_frame store q ht there)
      ]
  undo-Outcome (replaced full) plain kept unset after q ht hb backup same =
      let apart = other_way p.target p.backup away in
      let cleared = put after p.target none in
      let held : cleared p.backup ≡ store p.target = rw apart (
        backup
        ∙ moved_frame (rename p.target p.backup store) p.backup (other_way p.temporary p.backup two)
            apart
        ∙ aside_backup) in
      let restored : (q == p.target) ≡ false → cleared q ≡ store q = λ there.
        rw there (
          same
          ∙ moved_frame (rename p.target p.backup store) q ht there
          ∙ aside_frame q hb there) in
      ap (λ (s : Store). s q)
        (back_again (record p { backup_moved = true; output_moved = true }) cleared refl
          (backup_exists cleared plain full held))
      ∙ returned cleared q hb held restored

  -- An output that was moved stands at its target, and the other paths are as they were.
  pub moved-Outcome :
      {step : Step}
      → Outcome step
      → step.completed ≡ true
      → (step.store p.target ≡ store p.temporary)
        × ((q : JsString)
            → (q == p.target) ≡ false
            → (q == p.temporary) ≡ false
            → (q == p.backup) ≡ false
            → step.store q ≡ store q)
  moved-Outcome untouched h = absurd (cc)
  moved-Outcome (only_aside full) h = absurd (cc)
  moved-Outcome (fresh_target empty) h =
      (rw (fresh, eq_refl p.target) refl, λ q a b c. moved_frame store q b a)
  moved-Outcome (replaced full) h = (
    rw (fresh, eq_refl p.target)
        (aside_frame p.temporary two (other_way p.target p.temporary fresh)),
    λ q a b c. moved_frame (rename p.target p.backup store) q b a ∙ aside_frame q c a,
  )

  rename_plain :
      (from into : JsString) (s : Store) (q : JsString)
      → is_link (s from) ≡ false
      → is_link (s q) ≡ false
      → is_link (rename from into s q) ≡ false
  rename_plain from into s q moved here = elim (Bool-cases (q == from)) [
    | inl gone ↦ rw gone refl
    | inr other ↦ elim (Bool-cases (q == into)) [
      | inl there ↦ rw (other, there) moved
      | inr apart ↦ rw (other, apart) here
    ]
  ]

  -- Moving an output makes no link.
  pub plain-Outcome :
      {step : Step}
      → Outcome step
      → is_link (store p.target) ≡ false
      → is_link (store p.temporary) ≡ false
      → (q : JsString) → is_link (store q) ≡ false
      → is_link (step.store q) ≡ false
  plain-Outcome untouched t m q h = h
  plain-Outcome (only_aside full) t m q h = rename_plain p.target p.backup store q t h
  plain-Outcome (fresh_target empty) t m q h = rename_plain p.temporary p.target store q m h
  plain-Outcome (replaced full) t m q h =
      rename_plain p.temporary p.target (rename p.target p.backup store) q
        (rename_plain p.target p.backup store p.temporary t m)
        (rename_plain p.target p.backup store q t h)
