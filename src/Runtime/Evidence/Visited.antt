-- ===== src/Runtime/Evidence/Visited.antt =====
-- What the walk of `capturedTaskEvidence` (runtime/index.ts) over the evidence directory finds.
use tc_pipelines.Base.{
  ◌≡◌, ◌⊎◌, inl, inr, refl, sym, ap, ◌∙◌, subst, arith, ◌≤◌, ◌||◌, not, Bool, true, false, List, [],
  ◌∷◌, map, none, some, JsString, ltb, has, lookup, insert, lookup-insert, ◌==◌, eq_iff, list_eq,
  nat_eq, ok, throw_if, ◌>>◌, >>=-eq-ok, throw_if-ok, task_evidence_invalid, Bool-cases,
}
use tc_pipelines.Schema.{TaskEvidenceDeclaration}
use tc_pipelines.Runtime.Evidence.{
  EvidenceFile, EvidenceRules, Entry, Entries, regular, directory, symbolic_link, special,
  no_entries, entry, FoundFiles, Declared, below, visit_entry, visit_entries, maximum_file_bytes,
  maximum_total_bytes,
}

abbrev pub declared_keys : Declared → List JsString
declared_keys = map (λ (d : JsString × TaskEvidenceDeclaration). d.0)

-- A regular file stands at a path below a directory.
mutual
  pub data HasFile : JsString → Entry → JsString → EvidenceFile → Type 0 where
    file_itself : {path : JsString} (file : EvidenceFile) → HasFile path (regular file) path file
    file_inside :
        {path q : JsString} {file : EvidenceFile} (entries : Entries)
        → HasFiles path entries q file
        → HasFile path (directory entries) q file

  pub data HasFiles : JsString → Entries → JsString → EvidenceFile → Type 0 where
    file_here :
        {prefix q : JsString} {file : EvidenceFile} (name : JsString) (item : Entry)
        (rest : Entries)
        → HasFile (below prefix name) item q file
        → HasFiles prefix (entry name item rest) q file
    file_later :
        {prefix q : JsString} {file : EvidenceFile} (name : JsString) (item : Entry)
        (rest : Entries)
        → HasFiles prefix rest q file
        → HasFiles prefix (entry name item rest) q file

-- Nothing but regular files and directories stands below a directory.
mutual
  pub data IsPlain : Entry → Type 0 where
    plain_file : (file : EvidenceFile) → IsPlain (regular file)
    plain_directory : {entries : Entries} → ArePlain entries → IsPlain (directory entries)

  pub data ArePlain : Entries → Type 0 where
    nothing_listed : ArePlain no_entries
    also_plain :
        {name : JsString} {item : Entry} {rest : Entries}
        → IsPlain item
        → ArePlain rest
        → ArePlain (entry name item rest)

itself :
    {path q : JsString} {file f : EvidenceFile}
    → HasFile path (regular file) q f
    → (q ≡ path) × (f ≡ file)
itself (file_itself file) = (refl, refl)

inside :
    {path q : JsString} {entries : Entries} {f : EvidenceFile}
    → HasFile path (directory entries) q f
    → HasFiles path entries q f
inside (file_inside _ m) = m

here_or_later :
    {prefix q name : JsString} {item : Entry} {rest : Entries} {f : EvidenceFile}
    → HasFiles prefix (entry name item rest) q f
    → HasFile (below prefix name) item q f ⊎ HasFiles prefix rest q f
here_or_later (file_here name item rest m) = inl m
here_or_later (file_later name item rest m) = inr m

no_file : {prefix q : JsString} {f : EvidenceFile} → HasFiles prefix no_entries q f → ⊥
no_file m = elim m [ ]

abbrev pub is_found : FoundFiles → JsString → Bool
is_found found key = elim (lookup key found) [ none ↦ false | some file ↦ true ]

module _ (rules : EvidenceRules) (declared : Declared) where
  -- What holds of a file that the walk accepts.
  abbrev pub IsAllowed : JsString → EvidenceFile → Type 0
  IsAllowed path file =
      (file.size ≤ maximum_file_bytes)
      × (has (declared_keys declared) (rules.posix_normalize path) ≡ true)

  -- What the walk did, for the files that it went through.
  record IsWalked (Listed : JsString → EvidenceFile → Type 0) (before after : FoundFiles)
      : Type 0 where
    allowed : (path : JsString) (file : EvidenceFile) → Listed path file → IsAllowed path file
    noted :
        (path : JsString) (file : EvidenceFile)
        → Listed path file
        → is_found after (rules.posix_normalize path) ≡ true
    kept : (key : JsString) → is_found before key ≡ true → is_found after key ≡ true
    sound :
        (key : JsString) (file : EvidenceFile)
        → lookup key after ≡ some file
        → (lookup key before ≡ some file)
          ⊎ ((path : JsString) × Listed path file × (rules.posix_normalize path ≡ key))

  regular-IsWalked :
      (path : JsString) (file : EvidenceFile) (before : FoundFiles)
      → file.size ≤ maximum_file_bytes
      → has (declared_keys declared) (rules.posix_normalize path) ≡ true
      → IsWalked
          (HasFile path (regular file))
          before
          (insert (rules.posix_normalize path) file before)
  regular-IsWalked path file before small listed =
      let key = rules.posix_normalize path in
      record {
        allowed = λ p f m.
            let (same_path, same_file) = itself m in
            (
              subst (λ (g : EvidenceFile). g.size ≤ maximum_file_bytes) (sym same_file) small,
              subst (λ q. has (declared_keys declared) (rules.posix_normalize q) ≡ true)
                  (sym same_path) listed,
            );
        noted = λ p f m.
            let (same_path, _) = itself m in
            subst (λ q. is_found (insert key file before) (rules.posix_normalize q) ≡ true)
              (sym same_path) (ground (arith, lookup-insert key key file before, eq_iff key key));
        kept = λ k e. ground (arith, lookup-insert key k file before);
        sound = λ k f e. elim (Bool-cases (key == k)) [
          | inr other ↦ inl (ground (arith, lookup-insert key k file before))
          | inl same ↦
              let stored : file ≡ f = ground (arith, lookup-insert key k file before) in
              inr (
                path,
                subst (HasFile path (regular file) path) stored (file_itself file),
                (eq_iff key k).0 same,
              )
        ];
      }

  mutual
    unfolding visit_entry visit_entries

    entry-IsWalked :
        (path : JsString) (item : Entry) (before after : FoundFiles)
        → visit_entry rules declared path item before ≡ ok after
        → IsPlain item × IsWalked (HasFile path item) before after
    entry-IsWalked path symbolic_link before after h = absurd (cc)
    entry-IsWalked path special before after h = absurd (cc)
    entry-IsWalked path (directory entries) before after h =
        let (plain, w) = entries-IsWalked path entries before after h in
        (
          plain_directory plain,
          record {
            allowed = λ p f m. w.allowed p f (inside m);
            noted = λ p f m. w.noted p f (inside m);
            kept = w.kept;
            sound = λ k f e. elim (w.sound k f e) [
              | inl old ↦ inl old
              | inr (p, m, same) ↦ inr (p, file_inside entries m, same)
            ];
          },
        )
    entry-IsWalked path (regular file) before after h =
        let key = rules.posix_normalize path in
        let (small, h1) =
          throw_if-ok (ltb maximum_file_bytes file.size || ltb maximum_total_bytes file.size)
            task_evidence_invalid (path ∷ [])
            (throw_if (not (has (declared_keys declared) key)) task_evidence_invalid (path ∷ [])
              >> ok (insert key file before))
            h in
        let (listed, h2) =
          throw_if-ok (not (has (declared_keys declared) key)) task_evidence_invalid (path ∷ [])
            (ok (insert key file before)) h1 in
        let same : insert key file before ≡ after = cc in
        (
          plain_file file,
          subst (IsWalked (HasFile path (regular file)) before) same
              (regular-IsWalked path file before (ground (arith, small)) (ground (arith, listed))),
        )

    entries-IsWalked :
        (prefix : JsString) (entries : Entries) (before after : FoundFiles)
        → visit_entries rules declared prefix entries before ≡ ok after
        → ArePlain entries × IsWalked (HasFiles prefix entries) before after
    entries-IsWalked prefix no_entries before after h =
        let same : before ≡ after = cc in
        (
          nothing_listed,
          record {
            allowed = λ p f m. elim (no_file m) [ ];
            noted = λ p f m. elim (no_file m) [ ];
            kept = λ k e. subst (λ m. is_found m k ≡ true) same e;
            sound = λ k f e. inl (ap (lookup k) same ∙ e);
          },
        )
    entries-IsWalked prefix (entry name item rest) before after h =
        let (middle, first, later) =
          >>=-eq-ok (visit_entry rules declared (below prefix name) item before)
            (visit_entries rules declared prefix rest) h in
        let (plain, w) = entry-IsWalked (below prefix name) item before middle first in
        let (others, v) = entries-IsWalked prefix rest middle after later in
        (
          also_plain plain others,
          record {
            allowed = λ p f m. elim (here_or_later m) [
              | inl here ↦ w.allowed p f here
              | inr there ↦ v.allowed p f there
            ];
            noted = λ p f m. elim (here_or_later m) [
              | inl here ↦ v.kept (rules.posix_normalize p) (w.noted p f here)
              | inr there ↦ v.noted p f there
            ];
            kept = λ k e. v.kept k (w.kept k e);
            sound = λ k f e. elim (v.sound k f e) [
              | inl old ↦ elim (w.sound k f old) [
                | inl older ↦ inl older
                | inr (p, m, same) ↦ inr (p, file_here name item rest m, same)
              ]
              | inr (p, m, same) ↦ inr (p, file_later name item rest m, same)
            ];
          },
        )

  -- The walk of the whole directory.
  pub walk-facts :
      (entries : Entries) (found : FoundFiles)
      → visit_entries rules declared [] entries [] ≡ ok found
      → ArePlain entries
        × ((path : JsString) (file : EvidenceFile)
            → HasFiles [] entries path file
            → IsAllowed path file)
        × ((path : JsString) (file : EvidenceFile)
            → HasFiles [] entries path file
            → is_found found (rules.posix_normalize path) ≡ true)
        × ((key : JsString) (file : EvidenceFile)
            → lookup key found ≡ some file
            → (path : JsString) × HasFiles [] entries path file
              × (rules.posix_normalize path ≡ key))
  walk-facts entries found h =
      let (plain, w) = entries-IsWalked [] entries [] found h in
      (
        plain,
        w.allowed,
        w.noted,
        λ key file e. elim (w.sound key file e) [ inl never ↦ absurd (cc) | inr there ↦ there ],
      )
