-- ===== src/Registry/Edits.antt =====
-- registry.py: each edit of the registry keeps it consistent.
use agent_workflow_superviso.Prelude.{
  String, true, Option, none, some, List, [], ◌∷◌, ◌≡◌, refl, sym, inl, inr,
}
use agent_workflow_superviso.Prelude.{option_eq, string_eq, contains, all}
use agent_workflow_superviso.Prelude.Dict.{get, keys}
use agent_workflow_superviso.Result.{Result-cases}
use agent_workflow_superviso.Graph.State.{or_default}
use agent_workflow_superviso.Registry.Stored.{Stored, ensure_registry, validate_name}
use agent_workflow_superviso.Registry.Records.{
  ModelProfileRecord, add_account, add_profile, register_account, check_profile, profile_table,
  register_model_profile,
}
use agent_workflow_superviso.Registry.Projects.{
  Changes, project_table, empty_project, set_project_record, register_project, check_pool,
  assign_pool, set_project_model_profiles,
}
use agent_workflow_superviso.Registry.Consistency.{
  is_some, default_assigned, good_project, complete_profile, IsConsistent, edit_at-IsConsistent,
  edit-IsConsistent, edit_ok-IsConsistent, put_account, put_profile,
}
use agent_workflow_superviso.Registry.Assignments.{
  given-good, kept-good, existing-good, consistent-projects, set-consistent, check_pool-default,
  assignment, assign_pool-eq-ok, pool-good,
}

module _ (resolve : String → String) where
  -- The calls that change the registry.
  pub data Edit : Type 0 where
    account : String → Option String → String → Edit
    profile : ModelProfileRecord → Edit
    project : String → Changes → Edit
    pool : String → List String → String → Edit

  unfoldable pub run_edit : Edit → Stored → Stored
  unfolding register_account register_model_profile register_project set_project_model_profiles
  run_edit (account name config_dir provider) file =
      (register_account resolve name config_dir provider file).1
  run_edit (profile p) file = (register_model_profile p file).1
  run_edit (project id given) file = (register_project resolve id given file).1
  run_edit (pool id names default_profile) file =
      (set_project_model_profiles resolve id names default_profile file).1

  unfoldable pub run_edits : List Edit → Stored → Stored
  unfolding run_edit
  run_edits [] file = file
  run_edits (e ∷ rest) file = run_edits rest (run_edit e file)

  -- The pool that a project is registered with, which `register_project` does not check: none is given, and
  -- no default, or the profiles given are registered, and the default given is one of them or none.
  pub data IsFit (given : Changes) (file : Stored) : Type 0 where
    kept : given.model_profiles ≡ none → given.default_model_profile ≡ none → IsFit given file
    checked :
        (names : List String) (d : Option String)
        → given.model_profiles ≡ some names
        → given.default_model_profile ≡ some d
        → all (contains (keys (ensure_registry file).models)) names ≡ true
        → default_assigned names d ≡ true
        → IsFit given file

  -- Each project is registered with a pool that fits the registry then.
  unfoldable pub AllFit : List Edit → Stored → Type 0
  unfolding run_edit
  AllFit [] file = Unit
  AllFit (project id given ∷ rest) file =
      IsFit given file × AllFit rest (run_edit (project id given) file)
  AllFit (e ∷ rest) file = AllFit rest (run_edit e file)

  account-IsConsistent :
      (name : String) (config_dir : Option String) (provider : String) (file : Stored)
      → IsConsistent file
      → IsConsistent (register_account resolve name config_dir provider file).1
  unfolding register_account add_account
  account-IsConsistent name config_dir provider file h = elim (Result-cases (validate_name name)) [
    | inr (e, raised) ↦ rw (raised, register_account) h
    | inl (u, valid) ↦
        rw (valid, register_account)
          (edit_ok-IsConsistent (add_account resolve name config_dir provider) file
            (λ value c. put_account value name _ c) h)
  ]

  profile_table_complete : (p : ModelProfileRecord) → complete_profile (profile_table p) ≡ true
  unfolding profile_table complete_profile is_some
  profile_table_complete p = refl

  pub profile-IsConsistent :
      (p : ModelProfileRecord) (file : Stored)
      → IsConsistent file
      → IsConsistent (register_model_profile p file).1
  unfolding register_model_profile add_profile
  profile-IsConsistent p file h = elim (Result-cases (check_profile p)) [
    | inr (e, raised) ↦ rw (raised, register_model_profile) h
    | inl (u, valid) ↦
        rw (valid, register_model_profile)
          (edit_ok-IsConsistent (add_profile p) file
            (λ value c. put_profile value p.name (profile_table p) (profile_table_complete p) c) h)
  ]

  fit-good :
      (id : String) (given : Changes) (file : Stored)
      → IsFit given file
      → IsConsistent file
      → good_project (keys (ensure_registry file).models) (
          project_table resolve given
            (or_default (get id (ensure_registry file).projects) empty_project))
        ≡ true
  fit-good id given file (kept m d) h =
      let value = ensure_registry file in
      kept-good resolve (keys value.models) given (or_default (get id value.projects) empty_project)
        m d
        (existing-good resolve (keys value.models) id (resolve given.config_path) value.projects
          (consistent-projects resolve value h))
  fit-good id given file (checked names d m e a c) h =
      given-good resolve (keys (ensure_registry file).models) names d given _ m e a c

  project-IsConsistent :
      (id : String) (given : Changes) (file : Stored)
      → IsFit given file
      → IsConsistent file
      → IsConsistent (register_project resolve id given file).1
  unfolding register_project
  project-IsConsistent id given file fit h = elim (Result-cases (validate_name id)) [
    | inr (e, raised) ↦ rw (raised, register_project) h
    | inl (u, valid) ↦
        rw (valid, register_project)
          (edit_at-IsConsistent (set_project_record resolve id given) file (
            set-consistent resolve id given (ensure_registry file) (fit-good id given file fit h)
              h))
  ]

  pub pool-IsConsistent :
      (id : String) (names : List String) (default_profile : String) (file : Stored)
      → IsConsistent file
      → IsConsistent (set_project_model_profiles resolve id names default_profile file).1
  unfolding set_project_model_profiles
  pool-IsConsistent id names default_profile file h =
      elim (Result-cases (check_pool resolve names default_profile)) [
        | inr (e, raised) ↦ rw (raised, set_project_model_profiles) h
        | inl (u, valid) ↦
            rw (valid, set_project_model_profiles)
              (edit-IsConsistent (assign_pool resolve id names default_profile) file
                (λ value value' r done c.
                  let (registered, (raw, path, found, has_path, set)) =
                    assign_pool-eq-ok resolve id names default_profile value value' r done in
                  let given = assignment resolve names default_profile raw path in
                  let good =
                    pool-good resolve (keys value.models) names default_profile path raw
                      (or_default (get id value.projects) empty_project) registered
                      (check_pool-default resolve names default_profile valid) in
                  let e : (set_project_record resolve id given value).1 ≡ value' = cc in
                  rw (sym e) (set-consistent resolve id given value good c))
                h)
      ]

  -- However often accounts, profiles, projects and pools are registered, and whichever of these calls
  -- raise, where each project is registered with a pool that fits the registry then, or with none: if each
  -- model profile has a harness and a model, each project a path, and each project's pool names registered
  -- profiles with the default among them, then this is so afterwards.
  pub run_edits-IsConsistent :
      (edits : List Edit) (file : Stored)
      → AllFit edits file
      → IsConsistent file
      → IsConsistent (run_edits edits file)
  unfolding run_edits run_edit AllFit
  run_edits-IsConsistent [] file fit h = h
  run_edits-IsConsistent (account name config_dir provider ∷ rest) file fit h =
      run_edits-IsConsistent rest _ fit (account-IsConsistent name config_dir provider file h)
  run_edits-IsConsistent (profile p ∷ rest) file fit h =
      run_edits-IsConsistent rest _ fit (profile-IsConsistent p file h)
  run_edits-IsConsistent (project id given ∷ rest) file (fits, fit) h =
      run_edits-IsConsistent rest _ fit (project-IsConsistent id given file fits h)
  run_edits-IsConsistent (pool id names default_profile ∷ rest) file fit h =
      run_edits-IsConsistent rest _ fit (pool-IsConsistent id names default_profile file h)
