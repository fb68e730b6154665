-- ===== src/Config.antt =====
-- config.py: the fields that routing and the graph read, and the validators over them.
-- Durations are in microseconds. Field ranges (`ge`, `min_length`) are what pydantic checks.
use agent_workflow_superviso.Prelude.{
  ℕ, String, Bool, true, false, not, ◌&&◌, ◌||◌, Option, none, some, List, [], ◌∷◌,
}
use agent_workflow_superviso.Prelude.{contains, option_eq, string_eq, nat_eq, all, nonempty}
use agent_workflow_superviso.Prelude.Dict
use agent_workflow_superviso.Prelude.Dict.{Dict}
use agent_workflow_superviso.Result.{
  value_error, key_error, Result, ok, ◌>>=◌, ◌>>◌, or_raise, raise_if, traverse,
}
use agent_workflow_superviso.Models.{verdict_eq}

pub record SupervisorConfig : Type 0 where
  pub review_timeout : ℕ
  pub review_max_attempts : ℕ
  pub shadow_mode : Bool

pub record CredentialProfileConfig : Type 0 where
  pub execution_project_id : String
  pub max_workers : ℕ
  pub claude_config_dir : Option String

pub record ModelProfileConfig : Type 0 where
  pub harness : String
  pub model : String
  pub provider : Option String
  pub capacity : ℕ

pub record RouteRule : Type 0 where
  pub profile : Option String
  pub harness : Option String
  pub labels_any : List String
  pub labels_all : List String

-- `require_matcher`
unfoldable pub require_matcher : RouteRule → Result (Unit {0})
require_matcher rule = do
  raise_if (not (nonempty rule.labels_any) && not (nonempty rule.labels_all)) value_error
  raise_if
      (elim rule.profile [
        | none ↦ elim rule.harness [ none ↦ true | some _ ↦ false ]
        | some _ ↦ elim rule.harness [ none ↦ false | some _ ↦ true ]
      ])
      value_error

pub data MergeMode : Type 0 where
  automatic manual : MergeMode

pub record PolicyConfig : Type 0 where
  pub merge_mode : MergeMode
  pub default_harness : String
  pub default_model_profile : Option String
  pub skip_labels : List String
  pub approval_labels : List String
  pub capacity : Dict String ℕ
  pub models : Dict String String
  pub report_only_harnesses : List String
  pub model_profiles : Dict String ModelProfileConfig
  pub credential_profiles : Dict String (List String)
  pub routes : List RouteRule

pub record AppConfig : Type 0 where
  pub supervisor : SupervisorConfig
  pub project_id : String
  pub repository : String
  pub review_credential_profile : Option String
  pub profiles : Dict String CredentialProfileConfig
  pub policy : PolicyConfig

-- `len(xs) != len(set(xs))`
unfoldable pub has_duplicates : List String → Bool
has_duplicates [] = false
has_duplicates (x ∷ xs) = contains xs x || has_duplicates xs

unfoldable pub is_configured {ℓ} : {V : Type ℓ} → Dict String V → String → Bool
unfolding Dict.get
is_configured d name = elim (Dict.get name d) [ none ↦ false | some _ ↦ true ]

-- A model profile that is named must be configured.
unfoldable pub is_known_profile : PolicyConfig → Option String → Bool
is_known_profile policy none = true
is_known_profile policy (some name) = is_configured policy.model_profiles name

project_id_of : AppConfig → String → Result String
project_id_of config name = do
  profile ← or_raise (Dict.get name config.profiles) key_error
  ok profile.execution_project_id

-- One round of the loop over `policy.credential_profiles`.
unfoldable pub validate_credential_names : AppConfig → List String → Result (Unit {0})
unfolding project_id_of is_configured all has_duplicates traverse
validate_credential_names config names = do
  raise_if (has_duplicates names) value_error
  raise_if (not (all (is_configured config.profiles) names)) value_error
  project_ids ← traverse (project_id_of config) names
  raise_if (has_duplicates project_ids) value_error

unfoldable pub validate_each : AppConfig → Dict String (List String) → Result (Unit {0})
validate_each config [] = ok tt
validate_each config ((harness, names) ∷ rest) = do
  validate_credential_names config names
  validate_each config rest

unfoldable pub validate_credential_profiles : AppConfig → Result (Unit {0})
validate_credential_profiles config = do
  validate_each config config.policy.credential_profiles
  raise_if (not (is_known_profile config.policy config.policy.default_model_profile)) value_error
  raise_if (not (all (λ rule. is_known_profile config.policy rule.profile) config.policy.routes))
      value_error
  raise_if
      (elim config.review_credential_profile [
        | none ↦ false
        | some name ↦ not (is_configured config.profiles name)
      ])
      value_error

-- `RouteRule` validates each rule as the configuration is read, before `AppConfig` validates itself.
unfoldable pub validate_routes : List RouteRule → Result (Unit {0})
validate_routes [] = ok tt
validate_routes (rule ∷ rules) = do require_matcher rule; validate_routes rules
