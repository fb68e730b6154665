-- ===== src/Policy.antt =====
-- policy.py: routing, capacity and credential choice.
pub mod Capacity
pub mod Credentials
pub mod Least
pub mod Matching
pub mod Totality
pub mod Selection
use agent_workflow_superviso.Prelude.{
  ℕ, suc, String, ◌<>◌, Bool, true, false, not, ◌&&◌, ◌||◌, Option, none, some, List, [], ◌∷◌,
}
use agent_workflow_superviso.Prelude.{
  if◌then◌else◌, ◌==◌, contains, option_eq, string_eq, nat_eq, any, all, count_if, first, nonempty,
  ltb,
}
use agent_workflow_superviso.Prelude.Dict
use agent_workflow_superviso.Prelude.Dict.{Dict}
use agent_workflow_superviso.Result.{key_error, assertion_error, Result, ok, ◌>>=◌, or_raise}
use agent_workflow_superviso.Models.{WorkItem, AgentSession, active, verdict_eq}
use agent_workflow_superviso.Config.{
  CredentialProfileConfig, RouteRule, automatic, manual, PolicyConfig, AppConfig,
}

pub record ModelSelection : Type 0 where
  pub profile : Option String
  pub harness : String
  pub model : Option String
  pub capacity : Option ℕ
  pub provider : Option String

-- `bool(a & b)`
unfoldable pub intersects : List String → List String → Bool
unfolding any
intersects a b = any (contains b) a

-- `a <= b`
unfoldable pub is_subset : List String → List String → Bool
unfolding all
is_subset a b = all (contains b) a

unfoldable pub selection_for_profile : String → PolicyConfig → Result ModelSelection
selection_for_profile name policy = do
  profile ← or_raise (Dict.get name policy.model_profiles) key_error
  ok (record {
    profile = some name;
    harness = profile.harness;
    model = some profile.model;
    capacity = some profile.capacity;
    provider = profile.provider;
  })

-- `ModelSelection(None, harness, policy.models.get(harness))`
unfoldable pub selection_for_harness : String → PolicyConfig → ModelSelection
selection_for_harness harness policy = record {
  profile = none;
  harness = harness;
  model = Dict.get harness policy.models;
  capacity = none;
  provider = none;
}

unfoldable pub rule_matches : WorkItem → RouteRule → Bool
rule_matches item rule =
    (not (nonempty rule.labels_any) || intersects item.labels rule.labels_any)
    && (not (nonempty rule.labels_all) || is_subset rule.labels_all item.labels)

unfoldable pub selection_for_rule : RouteRule → PolicyConfig → Result ModelSelection
selection_for_rule rule policy = elim rule.profile [
  | some name ↦ selection_for_profile name policy
  | none ↦ do
    harness ← or_raise rule.harness assertion_error
    ok (selection_for_harness harness policy)
]

-- The `for` loop over `policy.routes`: the first rule that matches.
unfoldable pub first_rule : WorkItem → List RouteRule → Option RouteRule
unfolding rule_matches first
first_rule item = first (rule_matches item)

-- The `for` loop over `policy.model_profiles`: the first profile with an `agent:` label.
unfoldable pub labelled_profile : WorkItem → List String → Option String
unfolding first
labelled_profile item = first (λ name. contains item.labels ("agent:" <> name))

unfoldable pub select_default : PolicyConfig → Result ModelSelection
select_default policy = elim policy.default_model_profile [
  | some name ↦ selection_for_profile name policy
  | none ↦ ok (selection_for_harness policy.default_harness policy)
]

unfoldable pub select_model : WorkItem → PolicyConfig → Result (Option ModelSelection)
select_model item policy = if intersects item.labels policy.skip_labels then ok none else do
  selection ← elim (first_rule item policy.routes) [
    | some rule ↦ selection_for_rule rule policy
    | none ↦ elim (labelled_profile item (Dict.keys policy.model_profiles)) [
      | some name ↦ selection_for_profile name policy
      | none ↦ select_default policy
    ]
  ]
  ok (some selection)

unfoldable pub route_work_item : WorkItem → PolicyConfig → Result (Option String)
route_work_item item policy = do
  selection ← select_model item policy
  ok (elim selection [ none ↦ none | some s ↦ some s.harness ])

unfoldable pub is_active_worker : String → AgentSession → Bool
is_active_worker harness session =
    session.role == "worker" && session.harness == harness && active session

unfoldable pub active_count : List AgentSession → String → ℕ
unfolding count_if is_active_worker
active_count sessions harness = count_if (is_active_worker harness) sessions

unfoldable pub has_capacity : List AgentSession → String → PolicyConfig → Bool
has_capacity sessions harness policy = elim (Dict.get harness policy.capacity) [
  | none ↦ true
  | some limit ↦ ltb (active_count sessions harness) limit
]

unfoldable pub has_model_capacity : List AgentSession → ModelSelection → PolicyConfig → Bool
has_model_capacity sessions selection policy =
    if not (has_capacity sessions selection.harness policy)
    then false
    else elim selection.capacity [
      | none ↦ true
      | some capacity ↦ ltb (active_count sessions selection.harness) capacity
    ]

unfoldable pub requires_approval : WorkItem → PolicyConfig → Bool
requires_approval item policy =
    elim policy.merge_mode [ manual ↦ true | automatic ↦ false ]
    || intersects item.labels policy.approval_labels

-- An entry of `candidates`; `choice` is what stands behind the count and the order.
pub record Candidate {ℓ} (A : Type ℓ) : Type ℓ where
  pub count : ℕ
  pub order : ℕ
  pub choice : A

module _ {ℓ} {A : Type ℓ} where
  -- Tuples compare by the count, then by the order, which no two candidates share.
  unfoldable pub precedes : Candidate A → Candidate A → Bool
  precedes a b = ltb a.count b.count || (a.count == b.count && ltb a.order b.order)

  -- `min` keeps the first of the least.
  unfoldable pub least_from : Candidate A → List (Candidate A) → Candidate A
  least_from best [] = best
  least_from best (c ∷ cs) = least_from (if precedes c best then c else best) cs

  unfoldable pub least : List (Candidate A) → Option (Candidate A)
  unfolding least_from precedes
  least [] = none
  least (c ∷ cs) = some (least_from c cs)

unfoldable pub is_profile_worker : String → CredentialProfileConfig → AgentSession → Bool
is_profile_worker harness profile session =
    session.role == "worker"
    && session.harness == harness
    && session.project_id == some profile.execution_project_id
    && active session

abbrev pub Choice : Type 0
Choice = String × CredentialProfileConfig

-- The `for` loop over the enumerated names.
unfoldable pub eligible :
    List AgentSession
    → String
    → Dict String CredentialProfileConfig
    → ℕ
    → List String
    → Result (List (Candidate Choice))
eligible sessions harness profiles order [] = ok []
eligible sessions harness profiles order (name ∷ names) = do
  profile ← or_raise (Dict.get name profiles) key_error
  rest ← eligible sessions harness profiles (suc order) names
  let count = count_if (is_profile_worker harness profile) sessions
  ok (
      if ltb count profile.max_workers
      then record { count = count; order = order; choice = (name, profile) } ∷ rest
      else rest)

-- `config.policy.credential_profiles.get(harness, [])`
unfoldable pub credential_names : AppConfig → String → List String
credential_names config harness = elim (Dict.get harness config.policy.credential_profiles) [
  | none ↦ []
  | some names ↦ names
]

unfoldable pub select_credential_profile :
    List AgentSession → String → AppConfig → Result (Option Choice)
select_credential_profile sessions harness config = do
  candidates ← eligible sessions harness config.profiles 0 (credential_names config harness)
  ok (elim (least candidates) [ none ↦ none | some c ↦ some c.choice ])
