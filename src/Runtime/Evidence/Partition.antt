-- ===== src/Runtime/Evidence/Partition.antt =====
-- What `capturedTaskEvidence` returns: each declared path is retained or missing.
use tc_pipelines.Base.{
  ℕ, ◌+◌, ◌≡◌, ◌≢◌, refl, Bool, true, false, ◌≤◌, ◌↔◌, ◌⊎◌, inl, inr, sym, ap, ◌∙◌, subst, arith,
  ◌&&◌, ◌||◌, not, List, [], ◌∷◌, map, Option, none, some, JsString, ltb, lookup, list_eq, nat_eq,
  Elem, Elem-sorted, sorted, Result, ok, throw_if, ◌>>=◌, ◌>>◌, >>=-eq-ok, throw_if-ok,
  task_evidence_invalid, Option-cases,
}
use tc_pipelines.Schema.{TaskEvidenceDeclaration}
use tc_pipelines.Runtime.{TaskReceiptEvidence}
use tc_pipelines.Runtime.Output.{redacted}
use tc_pipelines.Runtime.Evidence.Visited.{
  declared_keys, HasFiles, ArePlain, nothing_listed, IsAllowed, is_found, walk-facts,
}
use tc_pipelines.Runtime.Evidence.{
  Entries, no_entries, EvidenceFile, EvidenceRules, EvidenceRoot, absent, not_directory,
  real_directory, FoundFiles, Declared, declare, retain, retain_text, collect_evidence,
  visit_entries, captured_task_evidence, is_json, media_name, maximum_file_bytes,
  maximum_total_bytes,
}

abbrev pub paths_of : List TaskReceiptEvidence → List JsString
paths_of = map (λ (item : TaskReceiptEvidence). item.path)

-- The evidence, and the paths that are missing.
abbrev Kept : Type 0
Kept = List TaskReceiptEvidence × List JsString

ok_pair :
    (k k' : List TaskReceiptEvidence) (g g' : List JsString)
    → ◌≡◌ {A = Result (List TaskReceiptEvidence × List JsString)} (ok (k, g)) (ok (k', g'))
    → (k ≡ k') × (g ≡ g')
ok_pair k k' g g' e =
    let same : ◌≡◌ {A = List TaskReceiptEvidence × List JsString} (k, g) (k', g') = cc in
    (
      ap (λ (p : List TaskReceiptEvidence × List JsString). p.0) same,
      ap (λ (p : List TaskReceiptEvidence × List JsString). p.1) same,
    )

module _ (rules : EvidenceRules) (redactions : List JsString) where
  -- An item is what is retained of a file for one of the declarations: its text with the secrets
  -- redacted, which is JSON, before and after that, where JSON is declared.
  pub record IsContent (declared : Declared) (file : EvidenceFile) (item : TaskReceiptEvidence)
      : Type 0 where
    pub declaration : TaskEvidenceDeclaration
    pub text : JsString
    pub listed : Elem (item.path, declaration) declared
    pub decoded : file.decoded ≡ some text
    pub small : file.bytes_read ≤ maximum_file_bytes
    pub redacts : item.content ≡ redacted text redactions
    pub source : item.source_digest ≡ file.bytes_digest
    pub digested : item.content_digest ≡ rules.text_digest item.content
    pub media : item.media_type ≡ media_name declaration.media_type
    pub parsed :
        is_json declaration.media_type ≡ true
        → (rules.parses_as_json text ≡ true) × (rules.parses_as_json item.content ≡ true)

  later-IsContent :
      {d : JsString × TaskEvidenceDeclaration} {declared : Declared} {file : EvidenceFile}
      {item : TaskReceiptEvidence}
      → IsContent declared file item
      → IsContent (d ∷ declared) file item
  later-IsContent c = record {
    declaration = c.declaration;
    text = c.text;
    listed = inr c.listed;
    decoded = c.decoded;
    small = c.small;
    redacts = c.redacts;
    source = c.source;
    digested = c.digested;
    media = c.media;
    parsed = c.parsed;
  }

  retain_text-facts :
      (path : JsString) (declaration : TaskEvidenceDeclaration) (file : EvidenceFile)
      (text : Option JsString) (declared : Declared) (item : TaskReceiptEvidence)
      → file.decoded ≡ text
      → file.bytes_read ≤ maximum_file_bytes
      → retain_text rules redactions path declaration file text ≡ ok item
      → (item.path ≡ path) × IsContent ((path, declaration) ∷ declared) file item
  unfolding retain_text
  retain_text-facts path declaration file none declared item read fits h = absurd (cc)
  retain_text-facts path declaration file (some text) declared item read fits h =
      let retained = redacted text redactions in
      let kept : TaskReceiptEvidence = record {
        path = path;
        source_digest = file.bytes_digest;
        content_digest = rules.text_digest retained;
        media_type = media_name declaration.media_type;
        content = retained;
      } in
      let checked =
        throw_if (is_json declaration.media_type && not (rules.parses_as_json retained))
          task_evidence_invalid (path ∷ [])
        >> ok kept in
      let (before, h1) =
        throw_if-ok (is_json declaration.media_type && not (rules.parses_as_json text))
          task_evidence_invalid (path ∷ []) checked h in
      let (after, h2) =
        throw_if-ok (is_json declaration.media_type && not (rules.parses_as_json retained))
          task_evidence_invalid (path ∷ []) (ok kept) h1 in
      let same : kept ≡ item = cc in
      subst
        (λ (i : TaskReceiptEvidence).
          (i.path ≡ path) × IsContent ((path, declaration) ∷ declared) file i)
        same
        (
          refl,
          record {
            declaration = declaration;
            text = text;
            listed = inl refl;
            decoded = read;
            small = fits;
            redacts = refl;
            source = refl;
            digested = refl;
            media = refl;
            parsed = λ j. (guarded _ _ j before, guarded _ _ j after);
          },
        )
    where
      guarded : (a b : Bool) → a ≡ true → (a && not b) ≡ false → b ≡ true
      guarded true true j k = refl
      guarded true false j k = absurd (cc)
      guarded false b j k = absurd (cc)

  retain-facts :
      (total : ℕ) (path : JsString) (declaration : TaskEvidenceDeclaration) (file : EvidenceFile)
      (declared : Declared) (item : TaskReceiptEvidence)
      → retain rules redactions total path declaration file ≡ ok item
      → (total + file.bytes_read ≤ maximum_total_bytes)
        × (item.path ≡ path)
        × IsContent ((path, declaration) ∷ declared) file item
  unfolding retain
  retain-facts total path declaration file declared item h =
      let large =
        ltb maximum_file_bytes file.bytes_read
        || ltb maximum_total_bytes (total + file.bytes_read) in
      let (small, h1) =
        throw_if-ok large task_evidence_invalid (path ∷ [])
          (retain_text rules redactions path declaration file file.decoded) h in
      let (named, content) =
        retain_text-facts path declaration file file.decoded declared item refl
          (ground (arith, small)) h1 in
      (ground (arith, small), named, content)

  -- The bytes that were read for the evidence, of the files that were found.
  abbrev bytes_of : Option EvidenceFile → ℕ
  bytes_of none = 0
  bytes_of (some file) = file.bytes_read

  abbrev pub bytes_retained : FoundFiles → List JsString → ℕ
  bytes_retained found [] = 0
  bytes_retained found (path ∷ paths) = bytes_of (lookup path found) + bytes_retained found paths

  -- What the loop returns for the declared paths.
  pub record IsPartition (found : FoundFiles) (total : ℕ) (declared : Declared)
      (evidence : List TaskReceiptEvidence) (missing : List JsString) : Type 0 where
    pub each_once :
        (path : JsString)
        → Elem path (declared_keys declared) ↔ (Elem path (paths_of evidence) ⊎ Elem path missing)
    pub retains :
        (item : TaskReceiptEvidence)
        → Elem item evidence
        → (file : EvidenceFile) × (lookup item.path found ≡ some file)
          × IsContent declared file item
    pub lost : (path : JsString) → Elem path missing → lookup path found ≡ none
    pub within : total + bytes_retained found (declared_keys declared) ≤ maximum_total_bytes

  collect_evidence-IsPartition :
      (found : FoundFiles) (total : ℕ) (declared : Declared) (evidence : List TaskReceiptEvidence)
      (missing : List JsString)
      → total ≤ maximum_total_bytes
      → collect_evidence rules redactions found total declared ≡ ok (evidence, missing)
      → IsPartition found total declared evidence missing
  unfolding collect_evidence
  collect_evidence-IsPartition found total [] evidence missing small h =
      let (none_kept, none_lost) = ok_pair [] evidence [] missing h in
      record {
        each_once = λ path. (
          λ m. elim m [ ],
          λ m. elim m [
            | inl e ↦ subst (λ xs. Elem path (paths_of xs)) (sym none_kept) e
            | inr e ↦ subst (Elem path) (sym none_lost) e
          ],
        );
        retains = λ item m. elim (subst (Elem item) (sym none_kept) m) [ ];
        lost = λ path m. elim (subst (Elem path) (sym none_lost) m) [ ];
        within = omega arith;
      }
  collect_evidence-IsPartition found total ((path, declaration) ∷ declared) evidence missing small
        h =
      elim (Option-cases (lookup path found)) [
        | inl lost ↦
            let call = collect_evidence rules redactions found total declared in
            let next : Kept → Result Kept = λ rest. ok (rest.0, path ∷ rest.1) in
            let ran : (call >>= next) ≡ ok (evidence, missing) = ground arith in
            let ((kept, gone), before, last) = >>=-eq-ok call next ran in
            let (same_kept, same_gone) = ok_pair kept evidence (path ∷ gone) missing last in
            let rest = collect_evidence-IsPartition found total declared kept gone small before in
            subst (λ k. IsPartition found total ((path, declaration) ∷ declared) k missing)
              same_kept
              (subst (IsPartition found total ((path, declaration) ∷ declared) kept) same_gone
                (record {
                  each_once = λ p. (
                    λ m. elim m [
                      | inl e ↦ inr (inl e)
                      | inr later ↦ elim ((rest.each_once p).0 later) [
                        | inl k ↦ inl k
                        | inr g ↦ inr (inr g)
                      ]
                    ],
                    λ m. elim m [
                      | inl k ↦ inr ((rest.each_once p).1 (inl k))
                      | inr (inl e) ↦ inl e
                      | inr (inr g) ↦ inr ((rest.each_once p).1 (inr g))
                    ],
                  );
                  retains = λ i m.
                      let (file, stored, content) = rest.retains i m in
                      (file, stored, later-IsContent content);
                  lost = λ p m. elim m [ inl e ↦ rw e lost | inr later ↦ rest.lost p later ];
                  within =
                      subst
                        (λ o.
                          total + (bytes_of o + bytes_retained found (declared_keys declared))
                          ≤ maximum_total_bytes)
                        (sym lost) (omega (arith, rest.within));
                }))
        | inr (file, here) ↦
            let call = retain rules redactions total path declaration file in
            let tail = collect_evidence rules redactions found (total + file.bytes_read) declared in
            let join : TaskReceiptEvidence → Kept → Result Kept =
              λ item rest. ok (item ∷ rest.0, rest.1) in
            let next : TaskReceiptEvidence → Result Kept = λ item. tail >>= join item in
            let ran : (call >>= next) ≡ ok (evidence, missing) = ground arith in
            let (item, retained, more) = >>=-eq-ok call next ran in
            let ((kept, gone), before, last) = >>=-eq-ok tail (join item) more in
            let (same_kept, same_gone) = ok_pair (item ∷ kept) evidence gone missing last in
            let (fits, named, content) =
              retain-facts total path declaration file declared item retained in
            let rest =
              collect_evidence-IsPartition found (total + file.bytes_read) declared kept gone fits
                before in
            subst (λ k. IsPartition found total ((path, declaration) ∷ declared) k missing)
              same_kept
              (subst (IsPartition found total ((path, declaration) ∷ declared) (item ∷ kept))
                same_gone
                (record {
                  each_once = λ p. (
                    λ m. elim m [
                      | inl e ↦ inl (inl (e ∙ sym named))
                      | inr later ↦ elim ((rest.each_once p).0 later) [
                        | inl k ↦ inl (inr k)
                        | inr g ↦ inr g
                      ]
                    ],
                    λ m. elim m [
                      | inl (inl e) ↦ inl (e ∙ named)
                      | inl (inr k) ↦ inr ((rest.each_once p).1 (inl k))
                      | inr g ↦ inr ((rest.each_once p).1 (inr g))
                    ],
                  );
                  retains = λ i m. elim m [
                    | inl e ↦
                        subst
                          (λ (j : TaskReceiptEvidence).
                            (f : EvidenceFile) × (lookup j.path found ≡ some f)
                            × IsContent ((path, declaration) ∷ declared) f j)
                          (sym e) (file, ap (λ k. lookup k found) named ∙ here, content)
                    | inr later ↦
                        let (f, stored, old) = rest.retains i later in
                        (f, stored, later-IsContent old)
                  ];
                  lost = rest.lost;
                  within =
                      subst
                        (λ o.
                          total + (bytes_of o + bytes_retained found (declared_keys declared))
                          ≤ maximum_total_bytes)
                        (sym here) (omega (arith, rest.within));
                }))
      ]

abbrev pub entries_of : EvidenceRoot → Entries
entries_of absent = no_entries
entries_of not_directory = no_entries
entries_of (real_directory entries) = entries

-- What `capturedTaskEvidence` returns for the files of a directory.
pub record IsCapture (rules : EvidenceRules) (redactions : List JsString) (entries : Entries)
    (declared : Declared) (evidence : List TaskReceiptEvidence) (missing : List JsString)
    : Type 0 where
  pub plain : ArePlain entries
  pub allowed :
      (path : JsString) (file : EvidenceFile)
      → HasFiles [] entries path file
      → IsAllowed rules declared path file
  pub each_once :
      (key : JsString)
      → Elem key (declared_keys declared) ↔ (Elem key (paths_of evidence) ⊎ Elem key missing)
  pub retains :
      (item : TaskReceiptEvidence)
      → Elem item evidence
      → (path : JsString) × (file : EvidenceFile) × HasFiles [] entries path file
        × (rules.posix_normalize path ≡ item.path)
        × IsContent rules redactions declared file item
  pub not_found :
      (key : JsString)
      → Elem key missing
      → (path : JsString) (file : EvidenceFile) → HasFiles [] entries path file
      → rules.posix_normalize path ≢ key

sorted_missing :
    (rules : EvidenceRules) (redactions : List JsString) (entries : Entries) (declared : Declared)
    (evidence : List TaskReceiptEvidence) (missing : List JsString)
    → IsCapture rules redactions entries declared evidence missing
    → IsCapture rules redactions entries declared evidence (sorted missing)
sorted_missing rules redactions es declared evidence missing c = record {
  plain = c.plain;
  allowed = c.allowed;
  each_once = λ path. (
    λ m. elim ((c.each_once path).0 m) [
      | inl k ↦ inl k
      | inr g ↦ inr ((Elem-sorted missing path).1 g)
    ],
    λ m. elim m [
      | inl k ↦ (c.each_once path).1 (inl k)
      | inr g ↦ (c.each_once path).1 (inr ((Elem-sorted missing path).0 g))
    ],
  );
  retains = c.retains;
  not_found = λ key m. c.not_found key ((Elem-sorted missing key).0 m);
}

-- What the walk found and the loop returned, together.
collected-IsCapture :
    (rules : EvidenceRules) (redactions : List JsString) (entries : Entries) (declared : Declared)
    (found : FoundFiles) (evidence : List TaskReceiptEvidence) (missing : List JsString)
    → visit_entries rules declared [] entries [] ≡ ok found
    → IsPartition rules redactions found 0 declared evidence missing
    → IsCapture rules redactions entries declared evidence missing
collected-IsCapture rules redactions entries declared found evidence missing walked parts =
    let (plain, allowed, noted, sound) = walk-facts rules declared entries found walked in
    record {
      plain = plain;
      allowed = allowed;
      each_once = parts.each_once;
      retains = λ item m.
          let (file, stored, content) = parts.retains item m in
          let (path, there, named) = sound item.path file stored in
          (path, file, there, named, content);
      not_found = λ key m path file there same.
          let gone = parts.lost key m in
          let here = subst (λ k. is_found found k ≡ true) same (noted path file there) in
          absurd (ground (arith, gone, here));
    }

-- If the capture of a task's evidence returns, then nothing but regular files and directories stands
-- in the directory, each file has an accepted size and is declared, and exactly the declared paths are
-- retained or missing. Each retained item is the redacted text of a file that stands at its path, with
-- the digests of the two, and valid JSON where JSON is declared; no file stands at a missing path.
pub captured_task_evidence-IsCapture :
    (rules : EvidenceRules) (root : EvidenceRoot) (declarations : List TaskEvidenceDeclaration)
    (redactions : List JsString) (evidence : List TaskReceiptEvidence) (missing : List JsString)
    → captured_task_evidence rules root declarations redactions ≡ ok (evidence, missing)
    → IsCapture rules redactions (entries_of root) (declare rules declarations []) evidence missing
unfolding captured_task_evidence
captured_task_evidence-IsCapture rules absent declarations redactions evidence missing h =
    let declared = declare rules declarations [] in
    let (kept, gone) = ok_pair [] evidence (sorted (declared_keys declared)) missing h in
    subst (λ k. IsCapture rules redactions no_entries declared k missing) kept
      (subst (IsCapture rules redactions no_entries declared []) gone (
        sorted_missing rules redactions no_entries declared [] (declared_keys declared) (record {
          plain = nothing_listed;
          allowed = λ path file m. elim m [ ];
          each_once = λ path. (λ m. inr m, λ m. elim m [ inl never ↦ elim never [ ] | inr m ↦ m ]);
          retains = λ item m. elim m [ ];
          not_found = λ key m path file there. elim there [ ];
        })))
captured_task_evidence-IsCapture rules not_directory declarations redactions evidence missing h =
    absurd (cc)
captured_task_evidence-IsCapture rules (real_directory entries) declarations redactions evidence
      missing h =
    let declared = declare rules declarations [] in
    let visited = visit_entries rules declared [] entries [] in
    let finish : Kept → Result Kept = λ rest. ok (rest.0, sorted rest.1) in
    let next : FoundFiles → Result Kept =
      λ found. collect_evidence rules redactions found 0 declared >>= finish in
    let (found, walked, more) = >>=-eq-ok visited next h in
    let ((kept, gone), collected, last) =
      >>=-eq-ok (collect_evidence rules redactions found 0 declared) finish more in
    let (same_kept, same_gone) = ok_pair kept evidence (sorted gone) missing last in
    let parts =
      collect_evidence-IsPartition rules redactions found 0 declared kept gone (omega arith)
        collected in
    subst (λ k. IsCapture rules redactions entries declared k missing) same_kept
      (subst (IsCapture rules redactions entries declared kept) same_gone (
        sorted_missing rules redactions entries declared kept gone
          (collected-IsCapture rules redactions entries declared found kept gone walked parts)))
