-- ===== src/Cache/Kept.antt =====
-- What `mkdirSync` of `publishVerifiedOutputs` (cache/index.ts) changes: absent parents.
use tc_pipelines.Base.{
  ℕ, zero, suc, ◌≡◌, refl, sym, ap, ◌∙◌, inl, inr, true, false, List, [], ◌∷◌, Option, none, some,
  JsString, ◌==◌, eq_iff, nat_eq, list_eq, Elem, Bool-cases, take, if◌then◌else◌, ◌⊎◌,
}
use tc_pipelines.Cache.Publish.{Node, directory, Store, put, is_present, is_link, make_directories}

-- What stands at a path is what stood there, or a directory that was made where nothing stood, as one
-- of the listed parents.
pub data IsKept (parents : List JsString) (path : JsString) (old new : Option Node) : Type 0 where
  as_it_was : new ≡ old → IsKept parents path old new
  made_parent : old ≡ none → new ≡ some directory → Elem path parents → IsKept parents path old new

pub IsKept-trans :
    {parents : List JsString} {path : JsString} {a b c : Option Node}
    → IsKept parents path a b
    → IsKept parents path b c
    → IsKept parents path a c
IsKept-trans (as_it_was e) (as_it_was f) = as_it_was (f ∙ e)
IsKept-trans (as_it_was e) (made_parent f g m) = made_parent (sym e ∙ f) g m
IsKept-trans (made_parent e f m) (as_it_was g) = made_parent e (g ∙ f) m
IsKept-trans (made_parent e f m) (made_parent g h n) = made_parent e h n

pub IsKept-mono :
    {parents others : List JsString} {path : JsString} {a b : Option Node}
    → (Elem path parents → Elem path others)
    → IsKept parents path a b
    → IsKept others path a b
IsKept-mono f (as_it_was e) = as_it_was e
IsKept-mono f (made_parent e g m) = made_parent e g (f m)

pub make_directories-IsKept :
    (paths : List JsString) (store : Store) (q : JsString)
    → IsKept paths q (store q) (make_directories paths store q)
unfolding make_directories
make_directories-IsKept [] store q = as_it_was refl
make_directories-IsKept (path ∷ paths) store q =
    IsKept-trans (first (Bool-cases (is_present (store path)))) (
      IsKept-mono (λ m. inr m)
        (make_directories-IsKept paths
          (if is_present (store path) then store else put store path (some directory)) q))
  where
    absent : (o : Option Node) → is_present o ≡ false → o ≡ none
    absent none h = refl
    absent (some n) h = absurd (cc)

    first :
        (is_present (store path) ≡ true) ⊎ (is_present (store path) ≡ false)
        → IsKept
            (path ∷ paths)
            q
            (store q)
            ((if is_present (store path) then store else put store path (some directory)) q)
    first (inl there) = as_it_was (rw there refl)
    first (inr lost) = elim (Bool-cases (q == path)) [
      | inl here ↦
          let same : q ≡ path = (eq_iff q path).0 here in
          made_parent (ap store same ∙ absent (store path) lost) (rw (lost, here) refl) (inl same)
      | inr other ↦ as_it_was (rw (lost, other) refl)
    ]

-- No parent that is made is a link.
pub plain-IsKept :
    {parents : List JsString} {path : JsString} {old new : Option Node}
    → IsKept parents path old new
    → is_link old ≡ false
    → is_link new ≡ false
plain-IsKept (as_it_was e) h = ap is_link e ∙ h
plain-IsKept (made_parent e f m) h = ap is_link f

pub unlisted-IsKept :
    {parents : List JsString} {path : JsString} {old new : Option Node}
    → (Elem path parents → ⊥)
    → IsKept parents path old new
    → new ≡ old
unlisted-IsKept away (as_it_was e) = e
unlisted-IsKept away (made_parent e f m) = elim (away m) [ ]

pub Elem-take : (n : ℕ) (xs : List JsString) (x : JsString) → Elem x (take n xs) → Elem x xs
Elem-take zero xs x m = elim m [ ]
Elem-take (suc n) [] x m = elim m [ ]
Elem-take (suc n) (y ∷ xs) x (inl e) = inl e
Elem-take (suc n) (y ∷ xs) x (inr m) = inr (Elem-take n xs x m)
