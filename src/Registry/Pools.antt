-- ===== src/Registry/Pools.antt =====
-- registry.py: projects and their pools of model profiles, as the lookups give them.
use agent_workflow_superviso.Prelude.{
  String, true, Option, none, some, List, [], ◌≡◌, refl, sym, inl, inr, arith, ap, ◌∙◌,
}
use agent_workflow_superviso.Prelude.{contains, option_eq, string_eq}
use agent_workflow_superviso.Prelude.Dict.{get, keys, get-put_same}
use agent_workflow_superviso.Result.{Error, Result, ok, err, Result-cases}
use agent_workflow_superviso.Graph.State.{or_none, or_default}
use agent_workflow_superviso.Registry.Stored.{
  ProjectTable, Stored, Registry, ensure_registry, stored, or_table, edit,
}
use agent_workflow_superviso.Registry.Records.{ModelProfileRecord, get_model_profile}
use agent_workflow_superviso.Registry.Projects.{
  ProjectRecord, Changes, empty_project, set_project_record, check_pool, assign_pool,
  set_project_model_profiles, get_project, project_table, selected, selected_default,
}
use agent_workflow_superviso.Registry.Lookup.{all-get, contains-get}
use agent_workflow_superviso.Registry.Consistency.{good_project, consistent, IsConsistent}
use agent_workflow_superviso.Registry.Edits.{pool-IsConsistent}
use agent_workflow_superviso.Registry.Assignments.{assign_pool-eq-ok, assignment}
use agent_workflow_superviso.Registry.RoundTrip.{get_model_profile_lem, make_profile, ok-injective}
use agent_workflow_superviso.Registry.ProjectLookup.{
  make_project, project_at, get_project_lem, project_at-eq-ok, all-contains,
}

module _ (expanduser : String → String) where
  -- In a consistent registry, each model profile in the pool of a project that can be looked up can be
  -- looked up itself.
  pub get_project-get_model_profile :
      (id name : String) (file : Stored) (r : ProjectRecord)
      → IsConsistent file
      → (get_project expanduser id file).0 ≡ ok r
      → contains r.model_profiles name ≡ true
      → (m : ModelProfileRecord) × ((get_model_profile name file).0 ≡ ok m) × (m.name ≡ name)
  unfolding consistent ensure_registry good_project make_project make_profile
  get_project-get_model_profile id name file r c h pooled =
      let (p, found, made) =
        project_at-eq-ok expanduser id (get id (or_table file.projects)) r
          (sym (get_project_lem expanduser id file c) ∙ h) in
      let good =
        all-get (good_project (keys (or_table file.models))) id p (or_table file.projects)
          (ground arith) found in
      let in_pool : contains (or_default p.models []) name ≡ true = cc in
      let registered =
        all-contains expanduser (contains (keys (or_table file.models))) (or_default p.models [])
          name (ground arith) in_pool in
      let (m, there) = contains-get name (or_table file.models) registered in
      (make_profile (name, m), get_model_profile_lem name file c ∙ rw there refl, refl)

  or_none_twice : (o : Option String) → or_none (or_none o) ≡ or_none o
  unfolding or_none
  or_none_twice none = refl
  or_none_twice (some s) = ground arith

  module _ (resolve : String → String) where
    -- What `_set_project_record` returns is what it stores, but for the path's `expanduser`.
    set-make :
        (id : String) (given : Changes) (value : Registry)
        → project_at expanduser id (get id (set_project_record resolve id given value).1.projects)
          ≡ ok (record (set_project_record resolve id given value).0 {
            config_path = expanduser (set_project_record resolve id given value).0.config_path;
          })
    unfolding set_project_record project_table make_project selected_default
    set-make id given value =
        let existing = or_default (get id value.projects) empty_project in
        rw (get-put_same id (project_table resolve given existing) value.projects)
          (rw (selected_twice given.default_model_profile existing.default_model) refl)
      where
        selected_twice :
            (given : Option (Option String)) (existing : Option String)
            → or_none (selected_default given existing) ≡ selected_default given existing
        selected_twice none existing = or_none_twice existing
        selected_twice (some given) existing = or_none_twice given

    unchecked :
        (id : String) (names : List String) (default_profile : String) (file : Stored) (e : Error)
        → check_pool resolve names default_profile ≡ err e
        → (set_project_model_profiles resolve id names default_profile file).0 ≡ err e
    unfolding set_project_model_profiles
    unchecked id names default_profile file e raised = rw (raised, set_project_model_profiles) refl

    checked :
        (id : String) (names : List String) (default_profile : String) (file : Stored)
        (u : Unit {0})
        → check_pool resolve names default_profile ≡ ok u
        → set_project_model_profiles resolve id names default_profile file
          ≡ edit (assign_pool resolve id names default_profile) file
    unfolding set_project_model_profiles
    checked id names default_profile file u valid = rw (valid, set_project_model_profiles) refl

    edit-eq-ok :
        {A : Type 0} (f : Registry → Result (A × Registry)) (file : Stored) (a : A)
        → (edit f file).0 ≡ ok a
        → (value : Registry) × (f (ensure_registry file) ≡ ok (a, value))
          × ((edit f file).1 ≡ stored value)
    unfolding edit
    edit-eq-ok f file a h = elim (Result-cases (f (ensure_registry file))) [
      | inr (e, raised) ↦
          absurd (let failed : (edit f file).0 ≡ err e = rw (raised, edit) refl in cc)
      | inl ((b, value), done) ↦
          let given : (edit f file).0 ≡ ok b = rw (done, edit) refl in
          let same : b ≡ a = ok-injective (sym given ∙ h) in
          (value, done ∙ ap (λ c. ok (c, value)) same, rw (done, edit) refl)
    ]

    set-eq-ok :
        (id : String) (names : List String) (default_profile : String) (file : Stored)
        (r : ProjectRecord)
        → (set_project_model_profiles resolve id names default_profile file).0 ≡ ok r
        → (value : Registry) × (assign_pool resolve id names default_profile (ensure_registry file)
            ≡ ok (r, value))
          × ((set_project_model_profiles resolve id names default_profile file).1 ≡ stored value)
    set-eq-ok id names default_profile file r h =
        elim (Result-cases (check_pool resolve names default_profile)) [
          | inr (e, raised) ↦
              absurd (let failed = unchecked id names default_profile file e raised in cc)
          | inl (u, valid) ↦
              let same = checked id names default_profile file u valid in
              rw same
                (edit-eq-ok (assign_pool resolve id names default_profile) file r (rw⁻¹ same h))
        ]

    -- What an assignment keeps and what it sets.
    set-fields :
        (id : String) (names : List String) (default_profile : String) (raw : ProjectTable)
        (path : String) (value : Registry)
        → let r =
            (set_project_record resolve id
              (assignment resolve names default_profile raw path)
              value).0 in
          (r.model_profiles ≡ names)
          × (r.accounts ≡ or_default raw.accounts [])
          × (r.default_model_profile ≡ or_none (some default_profile))
    unfolding set_project_record selected selected_default
    set-fields id names default_profile raw path value = (refl, refl, refl)

    -- An assignment of a pool that succeeds on a consistent registry gives the project's new record. The
    -- lookup then gives this record, its path read with `expanduser`. The record has the assigned pool,
    -- the default that was given, and the accounts that the project had.
    pub get-set_project_model_profiles :
        (id : String) (names : List String) (default_profile : String) (file : Stored)
        (r : ProjectRecord)
        → IsConsistent file
        → (set_project_model_profiles resolve id names default_profile file).0 ≡ ok r
        → ((get_project expanduser id
              (set_project_model_profiles resolve id names default_profile file).1).0
            ≡ ok (record r { config_path = expanduser r.config_path }))
          × (r.model_profiles ≡ names)
          × (r.default_model_profile ≡ or_none (some default_profile))
          × ((before : ProjectRecord) × ((get_project expanduser id file).0 ≡ ok before)
              × (r.accounts ≡ before.accounts))
    unfolding stored or_table ensure_registry make_project
    get-set_project_model_profiles id names default_profile file r c h =
        let (value, assigned, written) = set-eq-ok id names default_profile file r h in
        let (registered, (raw, path, found, has, set)) =
          assign_pool-eq-ok resolve id names default_profile (ensure_registry file) value r
            assigned in
        let given = assignment resolve names default_profile raw path in
        let (a, b, d) = set-fields id names default_profile raw path (ensure_registry file) in
        let e : (set_project_record resolve id given (ensure_registry file)).0 ≡ r =
          ap (λ t. t.0) set in
        let e' : (set_project_record resolve id given (ensure_registry file)).1 ≡ value =
          ap (λ t. t.1) set in
        let after =
          get_project_lem expanduser id _
            (pool-IsConsistent resolve id names default_profile file c) in
        let got : (get_project expanduser id
              (set_project_model_profiles resolve id names default_profile file).1).0
            ≡ ok (record r { config_path = expanduser r.config_path }) =
          after
          ∙ ap (λ (t : Stored). project_at expanduser id (get id (or_table t.projects))) written
          ∙ ap (λ (t : Registry). project_at expanduser id (get id t.projects)) (sym e')
          ∙ set-make id given (ensure_registry file)
          ∙ ap (λ (t : ProjectRecord). ok (record t { config_path = expanduser t.config_path }))
              e in
        (
          got,
          ap (λ (t : ProjectRecord). t.model_profiles) (sym e) ∙ a,
          ap (λ (t : ProjectRecord). t.default_model_profile) (sym e) ∙ d,
          (
            make_project expanduser (id, raw),
            get_project_lem expanduser id file c ∙ ap (project_at expanduser id) found,
            ap (λ (t : ProjectRecord). t.accounts) (sym e) ∙ b,
          ),
        )
