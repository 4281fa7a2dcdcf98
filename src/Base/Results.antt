-- ===== src/Base/Results.antt =====
-- packages/tc-sdlc/src/errors.ts, and the results of code that may throw.
use mathlib.Core.Path.{◌≡◌, refl}
use mathlib.Core.List.{List, [], ◌∷◌}
use mathlib.Core.Bool.{Bool, true, false}
use mathlib.Core.Logic.{◌⊎◌, inl, inr}
use tc_pipelines.Base.Text.{JsString}
use tc_pipelines.Base.Lists.{Elem}

-- The codes of the errors that the modelled code throws.
pub data ErrorCode : Type 0 where
  graph_context_invalid graph_duplicate_identity graph_platform_ambiguity : ErrorCode
  graph_evidence_invalid graph_unknown_dependency graph_cycle graph_path_invalid : ErrorCode
  graph_input_digest_invalid graph_budget_invalid graph_executor_invalid : ErrorCode
  run_selection_invalid run_graph_invalid run_capacity_invalid : ErrorCode
  task_evidence_invalid task_environment_invalid : ErrorCode
  lock_stale coordinated_upgrade_required catalogue_incoherent schema_invalid : ErrorCode
  cache_path_invalid cache_entry_invalid cache_corrupt cache_candidate_mismatch : ErrorCode
  cache_output_mismatch : ErrorCode

-- `SdlcError`: its code, and the values that its message interpolates.
pub record SdlcError : Type 0 where
  pub code : ErrorCode
  pub details : List JsString

infixl 5 ◌>>=◌ ◌>>◌
-- What a call of the program gives. `exhausted` is the model's own: its fuel ran out.
pub data Result {ℓ} (A : Type ℓ) : Type ℓ where
  ok : A → Result A
  throws : SdlcError → Result A
  exhausted : Result A

abbrev pub fail {ℓ} : {A : Type ℓ} → ErrorCode → List JsString → Result A
fail code details = throws (record { code = code; details = details })

abbrev pub ◌>>=◌ {ℓ κ} : {A : Type ℓ} {B : Type κ} → Result A → (A → Result B) → Result B
exhausted >>= next = exhausted
throws error >>= next = throws error
ok value >>= next = next value

abbrev pub ◌>>◌ {ℓ κ} : {A : Type ℓ} {B : Type κ} → Result A → Result B → Result B
first >> second = first >>= λ _. second

-- `if (condition) throw …`
abbrev pub throw_if : Bool → ErrorCode → List JsString → Result (Unit {0})
throw_if true code details = fail code details
throw_if false code details = ok tt

-- A `for … of` loop whose body may throw.
abbrev pub for_each {ℓ} : {A : Type ℓ} → (A → Result (Unit {0})) → List A → Result (Unit {0})
for_each body [] = ok tt
for_each body (x ∷ xs) = body x >> for_each body xs

-- A chain of calls that returns has returned from its first call.
module _ {ℓ κ} {A : Type ℓ} {B : Type κ} {result : B} where
  pub >>=-eq-ok :
      (call : Result A) (next : A → Result B)
      → (call >>= next) ≡ ok result
      → (value : A) × (call ≡ ok value) × (next value ≡ ok result)
  >>=-eq-ok exhausted next returns = cc
  >>=-eq-ok (throws error) next returns = cc
  >>=-eq-ok (ok value) next returns = (value, refl, returns)

-- A test that did not throw.
pub throw_if-ok {ℓ} :
    {A : Type ℓ} (b : Bool) (code : ErrorCode) (details : List JsString) (next : Result A)
    {value : A}
    → (throw_if b code details >> next) ≡ ok value
    → (b ≡ false) × (next ≡ ok value)
throw_if-ok true code details next h = cc
throw_if-ok false code details next h = (refl, h)

pub Result-cases {ℓ} :
    {A : Type ℓ} (r : Result A)
    → ((a : A) × (r ≡ ok a)) ⊎ (((e : SdlcError) × (r ≡ throws e)) ⊎ (r ≡ exhausted))
Result-cases (ok a) = inl (a, refl)
Result-cases (throws e) = inr (inl (e, refl))
Result-cases exhausted = inr (inr refl)

-- A loop that completes has completed its body for every item.
pub for_each-ok :
    {A : Type 0} (body : A → Result (Unit {0})) (xs : List A) (x : A)
    → for_each body xs ≡ ok tt
    → Elem x xs
    → body x ≡ ok tt
for_each-ok body [] x h m = elim m [ ]
for_each-ok body (y ∷ xs) x h (inl e) =
    let (u, first, rest) = >>=-eq-ok (body y) (λ _. for_each body xs) h in rw e first
for_each-ok body (y ∷ xs) x h (inr m) =
    let (u, first, rest) = >>=-eq-ok (body y) (λ _. for_each body xs) h in
    for_each-ok body xs x rest m
