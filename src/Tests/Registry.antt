-- ===== src/Tests/Registry.antt =====
-- A registry with one model profile and one project.
use agent_workflow_superviso.Prelude.Text.{is_digit}
use agent_workflow_superviso.Registry.Consistency.{consistent}
use agent_workflow_superviso.Prelude.{String, Option, none, some, List, [], ◌∷◌, ◌≡◌, refl}
use agent_workflow_superviso.Prelude.{if◌then◌else◌, ◌==◌, string_eq, option_eq, nat_eq, all}
use agent_workflow_superviso.Prelude.Dict.{keys, values}
use agent_workflow_superviso.Prelude.Text.{strip}
use agent_workflow_superviso.Result.{Result, ok, err}
use agent_workflow_superviso.Graph.State.{or_none}
use agent_workflow_superviso.Registry.Stored.{Stored, ensure_registry, edit, validate_name, is_name}
use agent_workflow_superviso.Registry.Records.{
  ModelProfileRecord, register_model_profile, get_model_profile, check_profile,
}
use agent_workflow_superviso.Registry.Projects.{
  Changes, ProjectRecord, get_project, set_project_model_profiles,
}
use agent_workflow_superviso.Registry.Consistency.{IsConsistent}
use agent_workflow_superviso.Registry.Edits.{
  Edit, profile, project, pool, kept, checked, run_edit, AllFit, run_edits, run_edits-IsConsistent,
}
use agent_workflow_superviso.Registry.RoundTrip.{IsNormalized, get-register}
use agent_workflow_superviso.Registry.Pools.{
  get_project-get_model_profile, get-set_project_model_profiles,
}

abbrev empty : Stored
empty = record { accounts = none; models = none; projects = none }

abbrev fast : ModelProfileRecord
fast = record {
  name = "fast";
  harness = " codex ";
  model = "m";
  provider = some "OpenAI";
  capacity = 2;
}

abbrev same_path : String → String
same_path path = path

abbrev given : Option (List String) → Option (Option String) → Changes
given names default_profile = record {
  config_path = "/config";
  accounts = none;
  model_profiles = names;
  default_model_profile = default_profile;
}

abbrev edits : List (Edit same_path)
edits =
    profile fast
    ∷ project "p" (given none none)
    ∷ pool "p" ("fast" ∷ []) "fast"
    ∷ pool "p" [] "fast"
    ∷ project "p" (given (some ("fast" ∷ [])) (some (some "fast")))
    ∷ []

run_edits-IsConsistent_example : IsConsistent (run_edits same_path edits empty)
unfolding AllFit run_edit ensure_registry all consistent values string_eq is_digit
run_edits-IsConsistent_example =
    run_edits-IsConsistent same_path edits empty
      (kept refl refl, (checked ("fast" ∷ []) (some "fast") refl refl refl refl, tt)) refl

abbrev returned : {A : Type 0} → Result A → A → A
returned (ok a) other = a
returned (err e) other = other

abbrev registered : ModelProfileRecord
registered = returned (register_model_profile fast empty).0 fast

get-register_example :
    IsNormalized fast registered
    × ((get_model_profile "fast" (register_model_profile fast empty).1).0 ≡ (
        if ◌==◌ {A = String} "fast" "fast"
        then ok registered
        else (get_model_profile "fast" empty).0))
unfolding register_model_profile check_profile edit validate_name ensure_registry all strip is_name
    string_eq consistent values is_digit
get-register_example = get-register fast empty registered "fast" refl refl

-- The registry with the profile, the project and its pool.
abbrev filled : Stored
filled = record {
  accounts = none;
  models = some (
      (
        "fast",
        record { harness = some "codex"; model = some "m"; provider = none; capacity = some 2 },
      )
      ∷ []);
  projects = some (
      (
        "p",
        record {
          config_path = some "/config";
          accounts = some ("work" ∷ []);
          models = some ("fast" ∷ []);
          default_model = some "fast";
        },
      )
      ∷ []);
}

abbrev looked_up : ProjectRecord
looked_up = record {
  project_id = "p";
  config_path = "/config";
  accounts = "work" ∷ [];
  model_profiles = "fast" ∷ [];
  default_model_profile = some "fast";
}

get_project-get_model_profile_example :
    (m : ModelProfileRecord) × ((get_model_profile "fast" filled).0 ≡ ok m) × (m.name ≡ "fast")
unfolding get_project ensure_registry string_eq all consistent values keys
get_project-get_model_profile_example =
    get_project-get_model_profile same_path "p" "fast" filled looked_up refl refl refl

abbrev assigned : Result ProjectRecord × Stored
assigned = set_project_model_profiles same_path "p" ("fast" ∷ []) "fast" filled

get-set_project_model_profiles_example :
    ((get_project same_path "p" assigned.1).0 ≡ ok looked_up)
    × (looked_up.model_profiles ≡ "fast" ∷ [])
    × (looked_up.default_model_profile ≡ or_none (some "fast"))
    × ((before : ProjectRecord) × ((get_project same_path "p" filled).0 ≡ ok before)
        × (looked_up.accounts ≡ before.accounts))
unfolding set_project_model_profiles ensure_registry string_eq all consistent values
get-set_project_model_profiles_example =
    get-set_project_model_profiles same_path same_path "p" ("fast" ∷ []) "fast" filled looked_up
      refl refl
