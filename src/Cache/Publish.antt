-- ===== src/Cache/Publish.antt =====
-- `publishVerifiedOutputs` of packages/tc-sdlc/src/cache/index.ts: outputs are written beside their
-- targets, moved into place with the old files set aside, and rolled back if anything fails.
-- Which operations of the file system fail is an argument; those of the rollback do not. Which error
-- is thrown is left out. A path stands for itself: a link among its parents is left out.
use tc_pipelines.Base.{
  ℕ, zero, suc, ◌+◌, ◌/◌, ◌%◌, ltb, Bool, true, false, ◌&&◌, ◌||◌, not, List, [], ◌∷◌, ◌++◌, Option,
  none, some, JsString, js, ◌==◌, nat_eq, list_eq, if◌then◌else◌, take, starts_with,
}

pub data Node : Type 0 where
  file : (bytes : JsString) (mode : ℕ) → Node
  directory : Node
  symbolic_link : (text : JsString) → Node

-- What stands at each absolute path.
abbrev pub Store : Type 0
Store = JsString → Option Node

abbrev pub put : Store → JsString → Option Node → Store
put store path node = λ other. if other == path then node else store other

-- `renameSync`, of what is no directory with entries.
abbrev pub rename : JsString → JsString → Store → Store
rename from into store = put (put store into (store from)) from none

-- Whether anything stands at a path, be it a link that leads nowhere.
abbrev pub is_present : Option Node → Bool
is_present none = false
is_present (some node) = true

abbrev pub is_link : Option Node → Bool
is_link none = false
is_link (some (symbolic_link text)) = true
is_link (some (file bytes mode)) = false
is_link (some directory) = false

abbrev pub is_directory : Option Node → Bool
is_directory none = false
is_directory (some directory) = true
is_directory (some (file bytes mode)) = false
is_directory (some (symbolic_link text)) = false

pub data Operation : Type 0 where
  make_parent write_file change_mode move_aside move_into remove_backup : Operation

-- What the code takes from Node and its host: which operations fail, `resolve` with one and with two
-- arguments, `relative`, `dirname`, `basename` and `sep` of node:path, the process's number and the
-- time as the nonce, a directory with those above it from the root down, how many of them
-- `mkdirSync` makes before it fails, and whether the link at a path leads to something.
pub record Platform : Type 0 where
  pub fails : Operation → JsString → Bool
  pub absolute : JsString → JsString
  pub resolve : JsString → JsString → JsString
  pub relative : JsString → JsString → JsString
  pub dirname : JsString → JsString
  pub basename : JsString → JsString
  pub sep : JsString
  pub nonce : JsString
  pub ancestors : JsString → List JsString
  pub made : JsString → ℕ
  pub leads : Store → JsString → Bool

-- The digits of a number, before those that are given.
abbrev pub digits : ℕ → ℕ → JsString → JsString
digits zero n after = after
digits (suc fuel) n after =
    let last = b'0' + n % 10 in
    let more = digits fuel (n / 10) (last ∷ after) in if ltb n 10 then last ∷ after else more

abbrev pub decimal : ℕ → JsString
decimal n = digits (suc n) n []

pub record VerifiedOutput : Type 0 where
  pub path : JsString
  pub mode : ℕ
  pub bytes : JsString

pub record Publication : Type 0 where
  pub target : JsString
  pub temporary : JsString
  pub backup : JsString
  pub backup_moved : Bool
  pub output_moved : Bool

-- The store and the publications after a loop, and whether it ended without an error.
pub record Progress : Type 0 where
  pub store : Store
  pub publications : List Publication
  pub completed : Bool

-- The same for one publication.
pub record Step : Type 0 where
  pub store : Store
  pub publication : Publication
  pub completed : Bool

-- The finally clause.
unfoldable pub tidy : List Publication → Store → Store
tidy [] store = store
tidy (publication ∷ publications) store =
    tidy publications (put (put store publication.temporary none) publication.backup none)

-- `mkdirSync` with `recursive`: the directories that are absent are made.
unfoldable pub make_directories : List JsString → Store → Store
make_directories [] store = store
make_directories (path ∷ paths) store =
    make_directories paths
      (if is_present (store path) then store else put store path (some directory))

module _ (platform : Platform) (root : JsString) where
  -- `existsSync` follows a symbolic link.
  unfoldable pub exists : Store → JsString → Bool
  exists store path =
      if is_link (store path) then platform.leads store path else is_present (store path)

  -- A backup that was made goes back to its target.
  unfoldable pub return_backup : Publication → Store → Store
  return_backup publication store =
      if publication.backup_moved && exists store publication.backup
      then rename publication.backup publication.target store
      else store

  -- What the catch clause does for a publication.
  unfoldable pub undo : Publication → Store → Store
  undo publication store =
      return_backup publication
        (if publication.output_moved then put store publication.target none else store)

  -- The loop over the reversed list: the last publication is undone first.
  unfoldable pub roll_back : List Publication → Store → Store
  roll_back [] store = store
  roll_back (publication ∷ publications) store = undo publication (roll_back publications store)

  -- The test of `safe(root, path)` and its result.
  unfoldable pub escapes : JsString → Bool
  escapes path =
      let value = platform.relative (platform.absolute root) (platform.resolve root path) in
      value == js ".." || starts_with (js ".." ++ platform.sep) value

  abbrev pub publication_for : ℕ → VerifiedOutput → Publication
  publication_for index output =
      let target = platform.resolve root output.path in
      let temporary = platform.resolve (platform.dirname target) (
        js "."
        ++ platform.basename target
        ++ js ".tc-sdlc-"
        ++ platform.nonce
        ++ js "-"
        ++ decimal index
        ++ js ".tmp") in
      record {
        target = target;
        temporary = temporary;
        backup = temporary ++ js ".backup";
        backup_moved = false;
        output_moved = false;
      }

  -- The directory of an output with those above it.
  abbrev pub parents_of : VerifiedOutput → List JsString
  parents_of output = platform.ancestors (platform.dirname (platform.resolve root output.path))

  -- The first loop. A write that fails leaves an empty file.
  unfoldable pub write_outputs : ℕ → Store → List VerifiedOutput → Progress
  write_outputs index store [] = record { store = store; publications = []; completed = true }
  write_outputs index store (output ∷ outputs) =
      let publication = publication_for index output in
      let parents = parents_of output in
      let partly = make_directories (take (platform.made publication.target) parents) store in
      let ready = make_directories parents store in
      let written = put ready publication.temporary (some (file output.bytes output.mode)) in
      let broken = put ready publication.temporary (some (file [] output.mode)) in
      let rest = write_outputs (suc index) written outputs in
      if escapes output.path
      then record { store = store; publications = []; completed = false }
      else if platform.fails make_parent publication.target
      then record { store = partly; publications = []; completed = false }
      else if is_directory (ready publication.target)
      then record { store = ready; publications = []; completed = false }
      else if is_present (ready publication.temporary)
      then record { store = ready; publications = publication ∷ []; completed = false }
      else if platform.fails write_file publication.temporary
          || platform.fails change_mode publication.temporary
      then record { store = broken; publications = publication ∷ []; completed = false }
      else record {
        store = rest.store;
        publications = publication ∷ rest.publications;
        completed = rest.completed;
      }

  -- The second loop sets the old file aside,
  unfoldable pub set_aside : Store → Publication → Step
  set_aside store publication =
      if not (exists store publication.target)
      then record { store = store; publication = publication; completed = true }
      else if platform.fails move_aside publication.target
      then record { store = store; publication = publication; completed = false }
      else record {
        store = rename publication.target publication.backup store;
        publication = record publication { backup_moved = true };
        completed = true;
      }

  -- and moves the new one, which the first loop wrote, to its place.
  unfoldable pub move_output : Store → Publication → Step
  move_output store publication =
      let aside = set_aside store publication in
      if not aside.completed
      then aside
      else if platform.fails move_into publication.temporary
      then record { store = aside.store; publication = aside.publication; completed = false }
      else record {
        store = rename publication.temporary publication.target aside.store;
        publication = record aside.publication { output_moved = true };
        completed = true;
      }

  unfoldable pub move_outputs : Store → List Publication → Progress
  move_outputs store [] = record { store = store; publications = []; completed = true }
  move_outputs store (publication ∷ publications) =
      let step = move_output store publication in
      let rest = move_outputs step.store publications in
      if step.completed
      then record {
        store = rest.store;
        publications = step.publication ∷ rest.publications;
        completed = rest.completed;
      }
      else record {
        store = step.store;
        publications = step.publication ∷ publications;
        completed = false;
      }

  -- The third loop.
  unfoldable pub remove_backups : Store → List Publication → Store × Bool
  remove_backups store [] = (store, true)
  remove_backups store (publication ∷ publications) =
      let kept = remove_backups store publications in
      let cleared = remove_backups (put store publication.backup none) publications in
      if not publication.backup_moved
      then kept
      else if platform.fails remove_backup publication.backup
      then (store, false)
      else cleared

  -- The result of the try block, the store with its publications.
  unfoldable pub attempt_all : Store → List VerifiedOutput → Progress
  attempt_all store outputs =
      let written = write_outputs 0 store outputs in
      let moved = move_outputs written.store written.publications in
      let removed = remove_backups moved.store moved.publications in
      if not written.completed
      then written
      else if not moved.completed
      then moved
      else record { store = removed.0; publications = moved.publications; completed = removed.1 }

  -- `publishVerifiedOutputs`: the store at the end, and whether it returns.
  unfoldable pub publish_verified_outputs : Store → List VerifiedOutput → Store × Bool
  publish_verified_outputs store outputs =
      let tried = attempt_all store outputs in
      let restored =
        if tried.completed then tried.store else roll_back tried.publications tried.store in
      (tidy tried.publications restored, tried.completed)
