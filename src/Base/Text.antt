-- ===== src/Base/Text.antt =====
-- JavaScript strings as lists of UTF-16 code units, and the string methods that the program calls.
use Prim.Native.Nat.{ℕ}
use Prim.Native.Char.{code}
use Prim.Native.String.{String}
use mathlib.Core.Path.{◌≡◌, refl, ap, ◌∙◌}
use mathlib.Core.Logic.{◌≢◌, inl, inr}
use mathlib.Core.Bool.{Bool, true, false, ◌&&◌, ◌||◌}
use mathlib.Core.List.{List, [], ◌∷◌, ◌++◌}
use native.Mathlib.Omega.{arith}
use tc_pipelines.Base.Tests.{if◌then◌else◌, ltb, ◌==◌, nat_eq, list_eq, Bool-cases}
use tc_pipelines.Base.Lists.{All}

abbrev pub JsString : Type 0
JsString = List ℕ

-- A literal. Its code points are its code units, since every literal here is ASCII.
abbrev pub js : String → JsString
js String.[] = []
js (String.◌∷◌ c s) = code c ∷ js s

abbrev pub slash : ℕ
slash = b'/'

abbrev pub backslash : ℕ
backslash = 0x5c

abbrev cons_head : ℕ → List JsString → List JsString
cons_head x [] = (x ∷ []) ∷ []
cons_head x (part ∷ parts) = (x ∷ part) ∷ parts

-- `s.split(c)` for a separator of one code unit
unfoldable pub split : ℕ → JsString → List JsString
split c [] = [] ∷ []
split c (x ∷ s) = if x == c then [] ∷ split c s else cons_head x (split c s)

-- `parts.join(c)`
unfoldable pub join : ℕ → List JsString → JsString
join c [] = []
join c (part ∷ []) = part
join c (part ∷ parts) = part ++ c ∷ join c parts

-- `s.replaceAll(c, d)` for two code units
unfoldable pub replace_all : ℕ → ℕ → JsString → JsString
replace_all c d [] = []
replace_all c d (x ∷ s) = (if x == c then d else x) ∷ replace_all c d s

-- `s.startsWith(prefix)`
unfoldable pub starts_with : JsString → JsString → Bool
starts_with [] s = true
starts_with (c ∷ p) [] = false
starts_with (c ∷ p) (x ∷ s) = c == x && starts_with p s

-- `s.endsWith(suffix)` for a suffix of one code unit
unfoldable pub ends_with : ℕ → JsString → Bool
ends_with c [] = false
ends_with c (x ∷ []) = x == c
ends_with c (x ∷ y ∷ s) = ends_with c (y ∷ s)

-- `left < right`: the lexicographic order of code units
unfoldable pub js_lt : JsString → JsString → Bool
js_lt [] [] = false
js_lt [] (y ∷ t) = true
js_lt (x ∷ s) [] = false
js_lt (x ∷ s) (y ∷ t) = ltb x y || (x == y && js_lt s t)

-- The code unit stands nowhere in the text.
abbrev pub Lacks : ℕ → JsString → Type 0
Lacks c s = All (λ x. x ≢ c) s

pub split-append :
    (c : ℕ) (part s : JsString) → Lacks c part → split c (part ++ c ∷ s) ≡ part ∷ split c s
unfolding split
split-append c [] s h = ground arith
split-append c (x ∷ part) s (p, h) = rw (split-append c part s h) (ground arith)

pub split_of_Lacks : (c : ℕ) (part : JsString) → Lacks c part → split c part ≡ part ∷ []
unfolding split
split_of_Lacks c [] h = refl
split_of_Lacks c (x ∷ part) (p, h) = rw (split_of_Lacks c part h) (ground arith)

-- Parts without the separator come back from their join.
pub split-join :
    (c : ℕ) (part : JsString) (parts : List JsString)
    → All (Lacks c) (part ∷ parts)
    → split c (join c (part ∷ parts)) ≡ part ∷ parts
unfolding join
split-join c part [] (h, _) = split_of_Lacks c part h
split-join c part (next ∷ parts) (h, k) =
    split-append c part (join c (next ∷ parts)) h ∙ ap (λ t. part ∷ t) (split-join c next parts k)

cons_head-All :
    (c x : ℕ) (parts : List JsString)
    → x ≢ c
    → All (Lacks c) parts
    → All (Lacks c) (cons_head x parts)
cons_head-All c x [] p h = ((p, tt), tt)
cons_head-All c x (part ∷ parts) p (h, k) = ((p, h), k)

pub split-Lacks : (c : ℕ) (s : JsString) → All (Lacks c) (split c s)
unfolding split
split-Lacks c [] = (tt, tt)
split-Lacks c (x ∷ s) = elim (Bool-cases (x == c)) [
  | inl same ↦ rw same (tt, split-Lacks c s)
  | inr other ↦ rw other (cons_head-All c x (split c s) (ground arith) (split-Lacks c s))
]

pub replace_all-Lacks : (c d : ℕ) (s : JsString) → d ≢ c → Lacks c (replace_all c d s)
unfolding replace_all
replace_all-Lacks c d [] h = tt
replace_all-Lacks c d (x ∷ s) h = (ground arith, replace_all-Lacks c d s h)

pub replace_all_of_Lacks : (c d : ℕ) (s : JsString) → Lacks c s → replace_all c d s ≡ s
unfolding replace_all
replace_all_of_Lacks c d [] h = refl
replace_all_of_Lacks c d (x ∷ s) (p, h) = rw (replace_all_of_Lacks c d s h) (ground arith)

-- What stands nowhere in a text stands in no part of it.
pub split-Lacks_other : (c d : ℕ) (s : JsString) → Lacks d s → All (Lacks d) (split c s)
unfolding split
split-Lacks_other c d [] h = (tt, tt)
split-Lacks_other c d (x ∷ s) (p, h) = elim (Bool-cases (x == c)) [
  | inl same ↦ rw same (tt, split-Lacks_other c d s h)
  | inr other ↦ rw other (cons_head-All d x (split c s) p (split-Lacks_other c d s h))
]

Lacks-append : (d : ℕ) (s t : JsString) → Lacks d s → Lacks d t → Lacks d (s ++ t)
Lacks-append d [] t h k = k
Lacks-append d (x ∷ s) t (p, h) k = (p, Lacks-append d s t h k)

pub join-Lacks :
    (c d : ℕ) (parts : List JsString) → c ≢ d → All (Lacks d) parts → Lacks d (join c parts)
unfolding join
join-Lacks c d [] n h = tt
join-Lacks c d (part ∷ []) n (h, _) = h
join-Lacks c d (part ∷ next ∷ parts) n (h, k) =
    Lacks-append d part (c ∷ join c (next ∷ parts)) h (n, join-Lacks c d (next ∷ parts) n k)
