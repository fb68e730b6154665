-- ===== src/Tests/Policy.antt =====
-- The theorems on routing and capacity at concrete inputs.
use agent_workflow_superviso.Policy.{Choice}
use agent_workflow_superviso.Result.{ok}
use agent_workflow_superviso.Prelude.{ℕ, Option, [], ◌∷◌, ◌≡◌, refl, none, some, false, true, ◌↔◌}
use agent_workflow_superviso.Prelude.{string_eq, option_eq, nat_eq}
use agent_workflow_superviso.Prelude.Dict
use agent_workflow_superviso.Config.{
  validate_routes, validate_credential_profiles, require_matcher, validate_each,
  validate_credential_names, is_known_profile,
}
use agent_workflow_superviso.Policy.{
  ModelSelection, select_model, has_model_capacity, intersects, first_rule, labelled_profile,
  select_default, selection_for_profile, select_credential_profile,
}
use agent_workflow_superviso.Policy.Selection.{Selects, select_model-Selects}
use agent_workflow_superviso.Policy.Totality.{Returns, select_model_total}
use agent_workflow_superviso.Policy.Capacity.{Room, Counts, has_model_capacity_lem}
use agent_workflow_superviso.Policy.Credentials.{BestChoice, select_credential_profile-BestChoice}
use agent_workflow_superviso.Tests.Setup.{policy, config, item, worker}

abbrev fast : ModelSelection
fast = record {
  profile = some "fast";
  harness = "claude-code";
  model = some "m";
  capacity = some 2;
  provider = none;
}

select_model-Selects_example : Selects policy item (some fast)
unfolding select_model intersects first_rule labelled_profile Dict.keys select_default
    selection_for_profile Dict.get string_eq option_eq nat_eq
select_model-Selects_example = select_model-Selects policy item (some fast) refl

select_model_total_example : Returns (select_model item policy)
unfolding validate_routes validate_credential_profiles require_matcher validate_each
    validate_credential_names is_known_profile string_eq option_eq nat_eq
select_model_total_example = select_model_total (config false) item refl refl

has_model_capacity_lem_example :
    (n : ℕ) × Counts "claude-code" (worker ∷ []) n
    × ((has_model_capacity (worker ∷ []) fast policy ≡ true)
        ↔ (Room n (Dict.get "claude-code" policy.capacity) × Room n (some 2)))
has_model_capacity_lem_example = has_model_capacity_lem (worker ∷ []) fast policy

select_credential_profile-BestChoice_example :
    (answer : Option Choice) × (select_credential_profile [] "claude-code" (config false)
      ≡ ok answer)
    × BestChoice [] "claude-code" (config false) answer
unfolding validate_credential_profiles validate_each validate_credential_names is_known_profile
    string_eq option_eq nat_eq
select_credential_profile-BestChoice_example =
    select_credential_profile-BestChoice [] "claude-code" (config false) refl
