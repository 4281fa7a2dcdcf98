-- ===== src/Runtime/Evidence.antt =====
-- `capturedTaskEvidence` of packages/tc-sdlc/src/runtime/index.ts: which files of a task's evidence
-- directory are retained.
pub mod Visited
pub mod Partition
use tc_pipelines.Base.{
  ℕ, ◌+◌, ◌*◌, Bool, true, false, ◌&&◌, ◌||◌, not, List, [], ◌∷◌, ◌++◌, map, Option, none, some,
  JsString, js, slash, ltb, if◌then◌else◌, has, lookup, insert, nat_eq, list_eq, sorted, Result, ok,
  fail, throw_if, ◌>>=◌, ◌>>◌, task_evidence_invalid,
}
use tc_pipelines.Schema.{MediaType, application_json, text_plain, TaskEvidenceDeclaration}
use tc_pipelines.Runtime.{TaskReceiptEvidence}
use tc_pipelines.Runtime.Output.{redacted}

-- A regular file: its size in the directory, its size when it is read, its text if it is valid UTF-8,
-- and the SHA-256 digest of its bytes.
pub record EvidenceFile : Type 0 where
  pub size : ℕ
  pub bytes_read : ℕ
  pub decoded : Option JsString
  pub bytes_digest : JsString

-- A directory lists its entries in the order of `readdirSync(…).sort()`.
mutual
  pub data Entry : Type 0 where
    regular : EvidenceFile → Entry
    directory : Entries → Entry
    symbolic_link special : Entry

  pub data Entries : Type 0 where
    no_entries : Entries
    entry : (name : JsString) → Entry → Entries → Entries

-- What stands at the path of the evidence directory.
pub data EvidenceRoot : Type 0 where
  absent not_directory : EvidenceRoot
  real_directory : Entries → EvidenceRoot

-- `posix.normalize`, `JSON.parse` and the digest of a text's UTF-8 bytes.
pub record EvidenceRules : Type 0 where
  pub posix_normalize : JsString → JsString
  pub parses_as_json : JsString → Bool
  pub text_digest : JsString → JsString

abbrev pub maximum_file_bytes : ℕ
maximum_file_bytes = 2 * 1024 * 1024

abbrev pub maximum_total_bytes : ℕ
maximum_total_bytes = 4 * 1024 * 1024

abbrev pub FoundFiles : Type 0
FoundFiles = List (JsString × EvidenceFile)

abbrev pub Declared : Type 0
Declared = List (JsString × TaskEvidenceDeclaration)

abbrev pub media_name : MediaType → JsString
media_name application_json = js "application/json"
media_name text_plain = js "text/plain"

abbrev pub is_json : MediaType → Bool
is_json application_json = true
is_json text_plain = false

abbrev pub below : JsString → JsString → JsString
below [] name = name
below (c ∷ prefix) name = (c ∷ prefix) ++ slash ∷ name

module _ (rules : EvidenceRules) where
  -- `new Map(declarations.map(…))`, on top of a map
  unfoldable pub declare : List TaskEvidenceDeclaration → Declared → Declared
  declare [] declared = declared
  declare (item ∷ items) declared =
      declare items (insert (rules.posix_normalize item.path) item declared)

  -- `visit`, for an entry and for the rest of a directory.
  unfoldable mutual
    pub visit_entry : Declared → JsString → Entry → FoundFiles → Result FoundFiles
    visit_entry declared path symbolic_link found = fail task_evidence_invalid (path ∷ [])
    visit_entry declared path (directory entries) found = visit_entries declared path entries found
    visit_entry declared path special found = fail task_evidence_invalid (path ∷ [])
    visit_entry declared path (regular file) found =
        throw_if (ltb maximum_file_bytes file.size || ltb maximum_total_bytes file.size)
          task_evidence_invalid (path ∷ [])
        >> (throw_if
              (not (
                has (map (λ (d : JsString × TaskEvidenceDeclaration). d.0) declared)
                  (rules.posix_normalize path)))
              task_evidence_invalid (path ∷ [])
            >> ok (insert (rules.posix_normalize path) file found))

    pub visit_entries : Declared → JsString → Entries → FoundFiles → Result FoundFiles
    visit_entries declared prefix no_entries found = ok found
    visit_entries declared prefix (entry name item rest) found =
        visit_entry declared (below prefix name) item found >>= visit_entries declared prefix rest

  -- What is retained of a declared file's text.
  unfoldable pub retain_text :
      List JsString
      → JsString
      → TaskEvidenceDeclaration
      → EvidenceFile
      → Option JsString
      → Result TaskReceiptEvidence
  retain_text redactions path declaration file none = fail task_evidence_invalid (path ∷ [])
  retain_text redactions path declaration file (some text) =
      let retained = redacted text redactions in
      throw_if (is_json declaration.media_type && not (rules.parses_as_json text))
        task_evidence_invalid (path ∷ [])
      >> (throw_if (is_json declaration.media_type && not (rules.parses_as_json retained))
            task_evidence_invalid (path ∷ [])
          >> ok (record {
            path = path;
            source_digest = file.bytes_digest;
            content_digest = rules.text_digest retained;
            media_type = media_name declaration.media_type;
            content = retained;
          }))

  unfoldable pub retain :
      List JsString
      → ℕ
      → JsString
      → TaskEvidenceDeclaration
      → EvidenceFile
      → Result TaskReceiptEvidence
  retain redactions total path declaration file =
      throw_if
        (ltb maximum_file_bytes file.bytes_read
          || ltb maximum_total_bytes (total + file.bytes_read))
        task_evidence_invalid (path ∷ [])
      >> retain_text redactions path declaration file file.decoded

  -- The loop over the declared files, with the bytes read so far.
  unfoldable pub collect_evidence :
      List JsString → FoundFiles → ℕ → Declared → Result (List TaskReceiptEvidence × List JsString)
  collect_evidence redactions found total [] = ok ([], [])
  collect_evidence redactions found total ((path, declaration) ∷ declared) =
      elim (lookup path found) [
        | none ↦
            collect_evidence redactions found total declared >>= λ rest. ok (rest.0, path ∷ rest.1)
        | some file ↦ retain redactions total path declaration file >>= λ item.
            collect_evidence redactions found (total + file.bytes_read) declared >>= λ rest.
            ok (item ∷ rest.0, rest.1)
      ]

  unfoldable pub captured_task_evidence :
      EvidenceRoot
      → List TaskEvidenceDeclaration
      → List JsString
      → Result (List TaskReceiptEvidence × List JsString)
  captured_task_evidence root declarations redactions =
      let declared = declare declarations [] in
      elim root [
        | absent ↦ ok ([], sorted (map (λ (d : JsString × TaskEvidenceDeclaration). d.0) declared))
        | not_directory ↦ fail task_evidence_invalid []
        | real_directory entries ↦ visit_entries declared [] entries [] >>= λ found.
            collect_evidence redactions found 0 declared >>= λ rest. ok (rest.0, sorted rest.1)
      ]
