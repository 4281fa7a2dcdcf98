-- ===== src/Tests/Cache.antt =====
-- Publications of two outputs, with one operation that fails.
use tc_pipelines.Base.{
  Distinct, true, ◌≡◌, refl, inl, inr, subst, sym, Bool, false, List, [], ◌∷◌, ◌++◌, none, some,
  JsString, js, slash, ◌==◌, ◌||◌, nat_eq, list_eq, list_beq, has, starts_with, if◌then◌else◌,
}
use tc_pipelines.Cache.Publish.{
  file, directory, symbolic_link, Store, make_directories, Platform, Operation, move_into,
  remove_backup, VerifiedOutput, exists, escapes, return_backup, undo, roll_back, tidy,
  write_outputs, set_aside, move_output, move_outputs, remove_backups, attempt_all,
  publish_verified_outputs, is_link,
}
use tc_pipelines.Cache.Kept.{IsKept}
use tc_pipelines.Cache.Rollback.{scratch_names, all_names, AreApart}
use tc_pipelines.Cache.Placed.{IsPlacedIn, AreLaidOut, publish_verified_outputs-places}
use tc_pipelines.Cache.Restored.{
  planned, all_parents, AreLinkless, publish_verified_outputs-restores,
}

-- A path before its last slash, and behind it.
abbrev parent : JsString → JsString
parent [] = []
parent (c ∷ path) = let rest = parent path in if has path slash then c ∷ rest else []

abbrev last_part : JsString → JsString
last_part [] = []
last_part (c ∷ path) =
    let rest = last_part path in
    if has path slash then rest else if c == slash then path else c ∷ path

abbrev behind : JsString → JsString → JsString
behind [] path = path
behind (c ∷ prefix) [] = []
behind (c ∷ prefix) (d ∷ path) = behind prefix path

-- A host on which the operations that a test gives fail, and no link leads anywhere.
abbrev host : (Operation → JsString → Bool) → Platform
host fails = record {
  fails = fails;
  absolute = λ path. path;
  resolve = λ base path. base ++ slash ∷ path;
  relative = λ base path. behind (base ++ slash ∷ []) path;
  dirname = parent;
  basename = last_part;
  sep = slash ∷ [];
  nonce = js "n";
  ancestors = λ path. js "/r" ∷ path ∷ [];
  made = λ path. 0;
  leads = λ store path. false;
}

abbrev root : JsString
root = js "/r"

abbrev output : JsString → VerifiedOutput
output path = record { path = path; mode = 420; bytes = js "new" }

abbrev outputs : List VerifiedOutput
outputs = output (js "a") ∷ output (js "sub/b") ∷ []

abbrev old_file : JsString → Store
old_file name path =
    if path == root
    then some directory
    else if path == js "/r/a" || path == name
    then some (file (js "old") 420)
    else none

abbrev old : Store
old = old_file (js "/r/c")

-- The second output cannot be moved to its place.
abbrev stuck : Operation → JsString → Bool
stuck move_into path = path == js "/r/sub/.b.tc-sdlc-n-1.tmp"
stuck _ path = false

-- The second backup cannot be removed.
abbrev locked : Operation → JsString → Bool
locked remove_backup path = path == js "/r/.b.tc-sdlc-n-1.tmp.backup"
locked _ path = false

steps : Unit {0}
unfolding list_beq return_backup undo roll_back tidy write_outputs set_aside move_output
    move_outputs remove_backups attempt_all publish_verified_outputs make_directories exists escapes
    starts_with
steps = tt

apart : AreApart (planned (host stuck) root 0 outputs)
unfolding steps
apart = (refl, refl, refl, refl, refl, (refl, refl, refl, refl, refl, tt))

fails_late : (publish_verified_outputs (host stuck) root old outputs).1 ≡ false
unfolding steps
fails_late = refl

unscratched : has (scratch_names (planned (host stuck) root 0 outputs)) (js "/r/sub") ≡ false
unfolding steps
unscratched = refl

-- A store with files and directories only has no link at any path.
old_linkless :
    (platform : Platform) → AreLinkless platform root old (planned platform root 0 outputs)
old_linkless platform q m = plain (q == root) (q == js "/r/a" || q == js "/r/c")
  where
    plain :
        (a b : Bool)
        → is_link (if a then some directory else if b then some (file (js "old") 420) else none)
          ≡ false
    plain true b = refl
    plain false true = refl
    plain false false = refl

publish_verified_outputs-restores_example :
    IsKept
      (all_parents (host stuck) root outputs)
      (js "/r/sub")
      (old (js "/r/sub"))
      ((publish_verified_outputs (host stuck) root old outputs).0 (js "/r/sub"))
publish_verified_outputs-restores_example =
    publish_verified_outputs-restores (host stuck) root old outputs (λ path. refl) apart
      (old_linkless (host stuck)) fails_late (js "/r/sub") unscratched

-- The old file is back, and the directory that was made stays.
after_failure :
    ((publish_verified_outputs (host stuck) root old outputs).0 (js "/r/a")
      ≡ some (file (js "old") 420))
    × ((publish_verified_outputs (host stuck) root old outputs).0 (js "/r/sub") ≡ some directory)
unfolding steps
after_failure = (refl, refl)

-- A link that leads nowhere is not set aside: the rollback removes it.
abbrev dangling : Store
dangling path = if path == js "/r/a" then some (symbolic_link (js "gone")) else none

link_lost : (publish_verified_outputs (host stuck) root dangling outputs).0 (js "/r/a") ≡ none
unfolding steps
link_lost = refl

abbrev pair : List VerifiedOutput
pair = output (js "a") ∷ output (js "b") ∷ []

abbrev both : Store
both = old_file (js "/r/b")

-- A backup that cannot be removed: the rollback removes both outputs, and the first backup is gone.
lost :
    ((publish_verified_outputs (host locked) root both pair).1 ≡ false)
    × ((publish_verified_outputs (host locked) root both pair).0 (js "/r/a") ≡ none)
    × ((publish_verified_outputs (host locked) root both pair).0 (js "/r/b")
        ≡ some (file (js "old") 420))
unfolding steps
lost = (refl, refl, refl)

abbrev calm : Operation → JsString → Bool
calm operation path = false

names_apart : Distinct (all_names (planned (host calm) root 0 outputs))
unfolding steps
names_apart = (refl, (refl, (refl, (refl, (refl, (refl, tt))))))

root_free : has (all_names (planned (host calm) root 0 outputs)) root ≡ false
unfolding steps
root_free = refl

sub_free : has (all_names (planned (host calm) root 0 outputs)) (js "/r/sub") ≡ false
unfolding steps
sub_free = refl

laid_out : AreLaidOut (host calm) root 0 outputs
laid_out q (inl e) =
    subst (λ p. has (all_names (planned (host calm) root 0 outputs)) p ≡ false) (sym e) root_free
laid_out q (inr (inl e)) =
    subst (λ p. has (all_names (planned (host calm) root 0 outputs)) p ≡ false) (sym e) root_free
laid_out q (inr (inr (inl e))) =
    subst (λ p. has (all_names (planned (host calm) root 0 outputs)) p ≡ false) (sym e) root_free
laid_out q (inr (inr (inr (inl e)))) =
    subst (λ p. has (all_names (planned (host calm) root 0 outputs)) p ≡ false) (sym e) sub_free
laid_out q (inr (inr (inr (inr never)))) = elim never [ ]

returns : (publish_verified_outputs (host calm) root old outputs).1 ≡ true
unfolding steps
returns = refl

publish_verified_outputs-places_example :
    IsPlacedIn
      (host calm)
      root
      old
      outputs
      (publish_verified_outputs (host calm) root old outputs).0
publish_verified_outputs-places_example =
    publish_verified_outputs-places (host calm) root old outputs names_apart laid_out returns
