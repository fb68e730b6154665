-- ===== src/Registry/Projects.antt =====
-- registry.py: projects and the model profiles assigned to them. `resolve` is `expanduser().resolve()` of
-- a path, and `expanduser` the method of that name.
use agent_workflow_superviso.Prelude.{String, not, Option, none, some, List, []}
use agent_workflow_superviso.Prelude.{◌==◌, contains, first, any, nonempty, option_eq, string_eq}
use agent_workflow_superviso.Prelude.Dict.{get, put, keys}
use agent_workflow_superviso.Result.{
  value_error, key_error, Result, ok, or_raise, raise_if, traverse,
}
use agent_workflow_superviso.Result.{◌>>=◌ as ◌>>=◌, ◌>>◌ as ◌>>◌}
use agent_workflow_superviso.Config.{has_duplicates}
use agent_workflow_superviso.Exec.{Exec}
use agent_workflow_superviso.Graph.State.{or_none, or_default}
use agent_workflow_superviso.Registry.Stored.{
  ProjectTable, Stored, Registry, edit, view, validate_name,
}

pub record ProjectRecord : Type 0 where
  pub project_id : String
  pub config_path : String
  pub accounts : List String
  pub model_profiles : List String
  pub default_model_profile : Option String

-- `selected`, and `selected_models`: what is given, or else what the project has
unfoldable pub selected : Option (List String) → Option (List String) → List String
selected none existing = or_default existing []
selected (some given) existing = given

-- `selected_default`: `none` stands for `_UNSET`
unfoldable pub selected_default : Option (Option String) → Option String → Option String
unfolding or_none
selected_default none existing = or_none existing
selected_default (some given) existing = or_none given

-- What `_set_project_record` is given beside the project's id.
pub record Changes : Type 0 where
  pub config_path : String
  pub accounts : Option (List String)
  pub model_profiles : Option (List String)
  pub default_model_profile : Option (Option String)

unfoldable pub empty_project : ProjectTable
empty_project = record { config_path = none; accounts = none; models = none; default_model = none }

module _ (resolve : String → String) where
  -- The table that `_set_project_record` writes over `existing`.
  unfoldable pub project_table : Changes → ProjectTable → ProjectTable
  unfolding selected selected_default
  project_table given existing = record {
    config_path = some (resolve given.config_path);
    accounts = some (selected given.accounts existing.accounts);
    models = some (selected given.model_profiles existing.models);
    default_model = selected_default given.default_model_profile existing.default_model;
  }

  -- `_set_project_record`
  unfoldable pub set_project_record : String → Changes → Registry → ProjectRecord × Registry
  unfolding get put project_table selected selected_default empty_project
  set_project_record project_id given value =
      let existing = or_default (get project_id value.projects) empty_project in
      (
        record {
          project_id = project_id;
          config_path = resolve given.config_path;
          accounts = selected given.accounts existing.accounts;
          model_profiles = selected given.model_profiles existing.models;
          default_model_profile =
              selected_default given.default_model_profile existing.default_model;
        },
        record value { projects = put project_id (project_table given existing) value.projects },
      )

  unfoldable pub register_project : String → Changes → Exec Stored ProjectRecord
  unfolding validate_name edit set_project_record
  register_project project_id given file = elim (validate_name project_id) [
    | Result.err e ↦ (Result.err e, file)
    | ok _ ↦ edit (λ value. ok (set_project_record project_id given value)) file
  ]

  -- The guards of `set_project_model_profiles`
  unfoldable pub check_pool : List String → String → Result (Unit {0})
  unfolding has_duplicates
  check_pool profile_names default_profile = do
    raise_if (not (nonempty profile_names)) value_error
    raise_if (has_duplicates profile_names) value_error
    raise_if (not (contains profile_names default_profile)) value_error

  unfoldable pub assign_pool :
      String → List String → String → Registry → Result (ProjectRecord × Registry)
  unfolding any keys get set_project_record
  assign_pool project_id profile_names default_profile value = do
    raise_if (any (λ name. not (contains (keys value.models) name)) profile_names) key_error
    raw_project ← or_raise (get project_id value.projects) key_error
    config_path ← or_raise raw_project.config_path key_error
    ok (
        set_project_record project_id
          (record {
            config_path = config_path;
            accounts = some (or_default raw_project.accounts []);
            model_profiles = some profile_names;
            default_model_profile = some (some default_profile);
          })
          value)

  unfoldable pub set_project_model_profiles :
      String → List String → String → Exec Stored ProjectRecord
  unfolding check_pool edit assign_pool
  set_project_model_profiles project_id profile_names default_profile file =
      elim (check_pool profile_names default_profile) [
        | Result.err e ↦ (Result.err e, file)
        | ok _ ↦ edit (assign_pool project_id profile_names default_profile) file
      ]

module _ (expanduser : String → String) where
  -- The body of the loop of `list_projects`
  unfoldable pub read_project : String × ProjectTable → Result ProjectRecord
  unfolding or_none
  read_project (project_id, raw) = do
    config_path ← or_raise raw.config_path key_error
    ok (record {
      project_id = project_id;
      config_path = expanduser config_path;
      accounts = or_default raw.accounts [];
      model_profiles = or_default raw.models [];
      default_model_profile = or_none raw.default_model;
    })

  unfoldable pub list_projects : Exec Stored (List ProjectRecord)
  unfolding view traverse read_project
  list_projects = view (λ value. traverse read_project value.projects)

  unfoldable pub get_project : String → Exec Stored ProjectRecord
  unfolding view traverse read_project first
  get_project project_id = view λ value. do
    projects ← traverse read_project value.projects
    or_raise (first (λ p. p.project_id == project_id) projects) key_error
