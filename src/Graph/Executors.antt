-- ===== src/Graph/Executors.antt =====
-- packages/tc-sdlc/src/executors/index.ts: how a target is executed. A profile may be an own or an
-- inherited property of the object of the profiles.
use tc_pipelines.Base.{
  Bool, true, false, ◌&&◌, not, [], Option, none, some, JsString, js, ◌==◌, nat_eq, list_eq,
  list_beq, lookup, any, if◌then◌else◌, Result, ok, fail, throw_if, throw_if-ok, ◌>>◌,
  graph_executor_invalid, ◌≡◌, ◌∙◌, refl, sym, ap, subst, inl, inr, ◌↔◌, Option-cases, Bool-cases,
  eq_iff, arith, List, Elem, Elem-any, any-Elem,
}
use tc_pipelines.Schema.{
  TargetDeclaration, TargetScope, project, repository, application_json, text_plain, MediaType,
  TaskEvidenceDeclaration, SdlcFitness, ExecutorContract, command_contract, fitness_contract,
  executor_contract, or_empty,
}

abbrev pub fitness_executor : JsString
fitness_executor = js "tc-sdlc:fitness"

abbrev pub is_repository : Option TargetScope → Bool
is_repository none = false
is_repository (some project) = false
is_repository (some repository) = true

abbrev pub is_fitness_evidence : TaskEvidenceDeclaration → Bool
is_fitness_evidence item =
    item.path == js "fitness.json"
    && elim item.media_type [ application_json ↦ true | text_plain ↦ false ]

-- `fitness.profiles[name]`
abbrev pub read_profile : SdlcFitness → JsString → Option JsString
read_profile fitness name = elim (lookup name fitness.profiles) [
  | none ↦ fitness.inherited name
  | some tier ↦ some tier
]

abbrev pub tier_of :
    Option JsString → Option SdlcFitness → Option (JsString × JsString × SdlcFitness)
tier_of none fitness = none
tier_of (some profile) none = none
tier_of (some profile) (some fitness) = elim (read_profile fitness profile) [
  | none ↦ none
  | some tier ↦ some (profile, tier, fitness)
]

-- The contract for a profile with its tier.
abbrev pub fitness_with :
    Bool → Option (JsString × JsString × SdlcFitness) → Result ExecutorContract
fitness_with admitted none = fail graph_executor_invalid []
fitness_with admitted (some (profile, tier, fitness)) =
    throw_if (not admitted) graph_executor_invalid []
    >> ok (fitness_contract profile tier fitness.config)

unfoldable pub resolve_fitness : TargetDeclaration → Option SdlcFitness → Result ExecutorContract
resolve_fitness target fitness =
    fitness_with (is_repository target.scope && any is_fitness_evidence (or_empty target.evidence))
      (tier_of target.profile fitness)

-- A command, an executor, neither or both.
unfoldable pub resolve_choice :
    TargetDeclaration
    → Option SdlcFitness
    → Option JsString
    → Option JsString
    → Result ExecutorContract
resolve_choice target fitness (some command) none = ok (command_contract command)
resolve_choice target fitness none (some executor) =
    if executor == fitness_executor
    then resolve_fitness target fitness
    else ok (executor_contract executor)
resolve_choice target fitness none none = fail graph_executor_invalid []
resolve_choice target fitness (some command) (some executor) = fail graph_executor_invalid []

unfoldable pub resolve_executor_contract :
    TargetDeclaration → Option SdlcFitness → Result ExecutorContract
resolve_executor_contract target fitness =
    resolve_choice target fitness target.command target.executor

-- The profiles have a tier under a name of their own or under an inherited one.
pub data IsTier (fitness : SdlcFitness) (name tier : JsString) : Type 0 where
  own_name : lookup name fitness.profiles ≡ some tier → IsTier fitness name tier
  inherited_name :
      lookup name fitness.profiles ≡ none
      → fitness.inherited name ≡ some tier
      → IsTier fitness name tier

-- Which contracts a target may have.
pub data IsContract (target : TargetDeclaration)
    : Option SdlcFitness → ExecutorContract → Type 0 where
  by_command :
      {fitness : Option SdlcFitness} (command : JsString)
      → target.command ≡ some command
      → target.executor ≡ none
      → IsContract target fitness (command_contract command)
  by_executor :
      {fitness : Option SdlcFitness} (executor : JsString)
      → target.command ≡ none
      → target.executor ≡ some executor
      → (executor == fitness_executor) ≡ false
      → IsContract target fitness (executor_contract executor)
  by_fitness :
      (fitness : SdlcFitness) (profile tier : JsString)
      → target.command ≡ none
      → target.executor ≡ some fitness_executor
      → target.scope ≡ some repository
      → target.profile ≡ some profile
      → IsTier fitness profile tier
      → (item : TaskEvidenceDeclaration) → Elem item (or_empty target.evidence)
      → item.path ≡ js "fitness.json"
      → item.media_type ≡ application_json
      → IsContract target (some fitness) (fitness_contract profile tier fitness.config)

tier_found :
    (profile tier : JsString) (fitness : SdlcFitness)
    → read_profile fitness profile ≡ some tier
    → tier_of (some profile) (some fitness) ≡ some (profile, tier, fitness)
tier_found profile tier fitness found = rw (found, tier_of) refl

read_profile-IsTier :
    (fitness : SdlcFitness) (name tier : JsString)
    → read_profile fitness name ≡ some tier
    → IsTier fitness name tier
read_profile-IsTier fitness name tier h = elim (Option-cases (lookup name fitness.profiles)) [
  | inl lost ↦ inherited_name lost (rw (lost, read_profile) at h)
  | inr (other, found) ↦ own_name (found ∙ rw (found, read_profile) at h)
]

IsTier-read_profile :
    (fitness : SdlcFitness) (name tier : JsString)
    → IsTier fitness name tier
    → read_profile fitness name ≡ some tier
IsTier-read_profile fitness name tier (own_name found) = rw (found, read_profile) refl
IsTier-read_profile fitness name tier (inherited_name lost found) = rw (lost, read_profile) found

fitness_evidence :
    (item : TaskEvidenceDeclaration)
    → is_fitness_evidence item ≡ true
    → (item.path ≡ js "fitness.json") × (item.media_type ≡ application_json)
fitness_evidence item h =
    ((eq_iff item.path (js "fitness.json")).0 (ground arith), media item.media_type (ground arith))
  where
    media :
        (m : MediaType)
        → elim m [ application_json ↦ true | text_plain ↦ false ] ≡ true
        → m ≡ application_json
    media application_json k = refl
    media text_plain k = absurd (cc)

evidence_admits :
    (items : List TaskEvidenceDeclaration) (item : TaskEvidenceDeclaration)
    → Elem item items
    → item.path ≡ js "fitness.json"
    → item.media_type ≡ application_json
    → any is_fitness_evidence items ≡ true
evidence_admits items item m path media =
    any-Elem is_fitness_evidence items item m
      (let named = (eq_iff item.path (js "fitness.json")).1 path in rw (named, media) refl)

module _ (target : TargetDeclaration) where
  resolve_fitness-IsContract :
      (fitness : Option SdlcFitness) (contract : ExecutorContract)
      → target.command ≡ none
      → target.executor ≡ some fitness_executor
      → resolve_fitness target fitness ≡ ok contract
      → IsContract target fitness contract
  unfolding resolve_fitness
  resolve_fitness-IsContract none contract no_command by h = elim (Option-cases target.profile) [
    | inl lost ↦ absurd (ground arith)
    | inr (profile, named) ↦ absurd (ground arith)
  ]
  resolve_fitness-IsContract (some fitness) contract no_command by h =
      elim (Option-cases target.profile) [
        | inl lost ↦ absurd (ground arith)
        | inr (profile, named) ↦ elim (Option-cases (read_profile fitness profile)) [
          | inl unknown ↦ absurd (ground arith)
          | inr (tier, found) ↦
              let admitted =
                is_repository target.scope && any is_fitness_evidence (or_empty target.evidence) in
              let ran : (throw_if (not admitted) graph_executor_invalid []
                    >> ok (fitness_contract profile tier fitness.config))
                  ≡ ok contract =
                sym (
                  ap (fitness_with admitted) (
                    ap (λ (o : Option JsString). tier_of o (some fitness)) named
                    ∙ tier_found profile tier fitness found))
                ∙ h in
              let (admits, same) =
                throw_if-ok (not admitted) graph_executor_invalid []
                  (ok (fitness_contract profile tier fitness.config)) ran in
              let (item, listed, good) =
                Elem-any is_fitness_evidence (or_empty target.evidence) (ground arith) in
              let (path, media) = fitness_evidence item good in
              let contracts : fitness_contract profile tier fitness.config ≡ contract = cc in
              subst (IsContract target (some fitness)) contracts (
                by_fitness fitness profile tier no_command by
                  (is_repository-scope target.scope (ground arith)) named
                  (read_profile-IsTier fitness profile tier found) item listed path media)
        ]
      ]
    where
      is_repository-scope :
          (scope : Option TargetScope) → is_repository scope ≡ true → scope ≡ some repository
      is_repository-scope none h = absurd (cc)
      is_repository-scope (some project) h = absurd (cc)
      is_repository-scope (some repository) h = refl

  resolve_choice-IsContract :
      (fitness : Option SdlcFitness) (contract : ExecutorContract)
      (command executor : Option JsString)
      → target.command ≡ command
      → target.executor ≡ executor
      → resolve_choice target fitness command executor ≡ ok contract
      → IsContract target fitness contract
  unfolding resolve_choice
  resolve_choice-IsContract fitness contract (some command) none c e h =
      subst (IsContract target fitness) (cc) (by_command command c e)
  resolve_choice-IsContract fitness contract (some command) (some executor) c e h = absurd (cc)
  resolve_choice-IsContract fitness contract none none c e h = absurd (cc)
  resolve_choice-IsContract fitness contract none (some executor) c e h =
      elim (Bool-cases (executor == fitness_executor)) [
        | inl special ↦
            resolve_fitness-IsContract fitness contract c
              (e ∙ ap some ((eq_iff executor fitness_executor).0 special)) (ground arith)
        | inr other ↦
            subst (IsContract target fitness) (ground arith) (by_executor executor c e other)
      ]

  -- The contract of a target is resolved exactly if the target has it: by its one command, by its one
  -- executor, or, for the fitness executor, in the scope of the repository, by a profile that the
  -- profiles have under an own or an inherited name, with a piece of evidence whose path is
  -- fitness.json and whose media type is application/json.
  pub resolve_executor_contract_iff :
      (fitness : Option SdlcFitness) (contract : ExecutorContract)
      → (resolve_executor_contract target fitness ≡ ok contract)
        ↔ IsContract target fitness contract
  unfolding resolve_executor_contract resolve_choice resolve_fitness list_beq
  resolve_executor_contract_iff fitness contract = (
    λ h. resolve_choice-IsContract fitness contract target.command target.executor refl refl h,
    λ c. complete c,
  )
    where
      complete :
          {f : Option SdlcFitness} {k : ExecutorContract}
          → IsContract target f k
          → resolve_executor_contract target f ≡ ok k
      complete (by_command command c e) = rw (c, e) refl
      complete (by_executor executor c e other) = rw (c, e, other) refl
      complete (by_fitness f profile tier c e scope named found item listed path media) =
          let tier_there = tier_found profile tier f (IsTier-read_profile f profile tier found) in
          let evidence = evidence_admits (or_empty target.evidence) item listed path media in
          rw (c, e, scope, named, tier_there, evidence) refl
