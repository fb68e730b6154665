-- ===== src/Registry/Assignments.antt =====
-- registry.py: what a project's new table keeps of its pool, and what an assignment checks.
use agent_workflow_superviso.Prelude.{
  String, true, not, Option, none, some, List, [], ◌≡◌, refl, inl, inr, arith, Option-cases,
  Bool-cases,
}
use agent_workflow_superviso.Prelude.{◌==◌, contains, option_eq, string_eq, all, any, nonempty}
use agent_workflow_superviso.Prelude.Dict.{Dict, get, keys, values}
use agent_workflow_superviso.Result.{
  ok, value_error, key_error, raise_if, or_raise, >>=-eq-ok, raise_if-eq-ok, or_raise-eq-ok,
}
use agent_workflow_superviso.Result.{◌>>=◌ as ◌>>=◌, ◌>>◌ as ◌>>◌}
use agent_workflow_superviso.Config.{has_duplicates}
use agent_workflow_superviso.Graph.State.{or_none, or_default}
use agent_workflow_superviso.Registry.Stored.{ProjectTable, Registry}
use agent_workflow_superviso.Registry.Projects.{
  ProjectRecord, Changes, selected, selected_default, empty_project, project_table,
  set_project_record, check_pool, assign_pool,
}
use agent_workflow_superviso.Registry.Lookup.{all-get, all-any-not}
use agent_workflow_superviso.Registry.Consistency.{
  is_some, default_assigned, good_project, consistent, put_project,
}

module _ (resolve : String → String) where
  empty-good :
      (registered : List String) (path : String)
      → good_project registered (record empty_project { config_path = some path }) ≡ true
  unfolding good_project empty_project is_some all default_assigned
  empty-good registered path = refl

  pub kept-good :
      (registered : List String) (given : Changes) (existing : ProjectTable)
      → given.model_profiles ≡ none
      → given.default_model_profile ≡ none
      → good_project registered (record existing { config_path = some (resolve given.config_path) })
        ≡ true
      → good_project registered (project_table resolve given existing) ≡ true
  unfolding good_project project_table selected selected_default or_none is_some default_assigned
      all
  kept-good registered given existing m d g =
      rw (m, d)
        (elim (Option-cases existing.default_model) [
          | inl missing ↦ rw missing (ground (arith, missing))
          | inr (name, e) ↦ elim (Bool-cases (name == "")) [
            | inl blank ↦ ground (arith)
            | inr named ↦ ground arith
          ]
        ])

  -- A pool that is given with no default, or with one of its own.
  pub given-good :
      (registered names : List String) (d : Option String) (given : Changes)
      (existing : ProjectTable)
      → given.model_profiles ≡ some names
      → given.default_model_profile ≡ some d
      → all (contains registered) names ≡ true
      → default_assigned names d ≡ true
      → good_project registered (project_table resolve given existing) ≡ true
  unfolding good_project project_table selected selected_default or_none is_some default_assigned
  given-good registered names none given existing m e a c = rw (m, e) (ground arith)
  given-good registered names (some d) given existing m e a c = rw (m, e) (ground arith)

  moved-good :
      (registered : List String) (path : String) (p : ProjectTable)
      → good_project registered p ≡ true
      → good_project registered (record p { config_path = some path }) ≡ true
  unfolding good_project is_some
  moved-good registered path p g = ground arith

  pub consistent-projects :
      (value : Registry)
      → consistent value ≡ true
      → all (good_project (keys value.models)) (values value.projects) ≡ true
  unfolding consistent
  consistent-projects value c = ground arith

  pub existing-good :
      (registered : List String) (id path : String) (projects : Dict String ProjectTable)
      → all (good_project registered) (values projects) ≡ true
      → good_project registered
          (record (or_default (get id projects) empty_project) { config_path = some path })
        ≡ true
  existing-good registered id path projects h = elim (Option-cases (get id projects)) [
    | inl missing ↦ rw missing (empty-good registered path)
    | inr (p, found) ↦
        rw found
          (moved-good registered path p (all-get (good_project registered) id p projects h found))
  ]

  pub set-consistent :
      (id : String) (given : Changes) (value : Registry)
      → good_project
          (keys value.models)
          (project_table resolve given (or_default (get id value.projects) empty_project))
        ≡ true
      → consistent value ≡ true
      → consistent (set_project_record resolve id given value).1 ≡ true
  unfolding set_project_record
  set-consistent id given value g h = put_project value id _ g h

  pub check_pool-default :
      (names : List String) (default_profile : String) {u : Unit {0}}
      → check_pool resolve names default_profile ≡ ok u
      → contains names default_profile ≡ true
  unfolding check_pool
  check_pool-default names default_profile h =
      let (u, one, rest) =
        >>=-eq-ok (raise_if (not (nonempty names)) value_error)
          (λ _.
            raise_if (has_duplicates names) value_error
            >> raise_if (not (contains names default_profile)) value_error)
          h in
      let (v, two, last) =
        >>=-eq-ok (raise_if (has_duplicates names) value_error)
          (λ _. raise_if (not (contains names default_profile)) value_error) rest in
      let e = raise_if-eq-ok (not (contains names default_profile)) value_error last in ground arith

  -- What an assignment of profiles sets.
  abbrev pub assignment : List String → String → ProjectTable → String → Changes
  assignment names default_profile raw path = record {
    config_path = path;
    accounts = some (or_default raw.accounts []);
    model_profiles = some names;
    default_model_profile = some (some default_profile);
  }

  pub assign_pool-eq-ok :
      (id : String) (names : List String) (default_profile : String) (value value' : Registry)
      (r : ProjectRecord)
      → assign_pool resolve id names default_profile value ≡ ok (r, value')
      → (all (contains (keys value.models)) names ≡ true)
        × ((raw : ProjectTable) × (path : String) × (get id value.projects ≡ some raw)
            × (raw.config_path ≡ some path)
            × (set_project_record resolve id (assignment names default_profile raw path) value
                ≡ (r, value')))
  unfolding assign_pool
  assign_pool-eq-ok id names default_profile value value' r h =
      let registers = λ (raw : ProjectTable) (path : String).
        ok (set_project_record resolve id (assignment names default_profile raw path) value) in
      let finds = λ (raw : ProjectTable). or_raise raw.config_path key_error >>= registers raw in
      let (u, one, rest) =
        >>=-eq-ok (raise_if (any (λ name. not (contains (keys value.models) name)) names) key_error)
          (λ _. or_raise (get id value.projects) key_error >>= finds) h in
      let (raw, two, last) = >>=-eq-ok (or_raise (get id value.projects) key_error) finds rest in
      let (path, three, done) =
        >>=-eq-ok (or_raise raw.config_path key_error) (registers raw) last in
      (
        all-any-not (contains (keys value.models)) names (raise_if-eq-ok _ key_error one),
        (raw, path, or_raise-eq-ok _ key_error two, or_raise-eq-ok _ key_error three, cc),
      )

  pub pool-good :
      (registered names : List String) (default_profile path : String) (raw existing : ProjectTable)
      → all (contains registered) names ≡ true
      → contains names default_profile ≡ true
      → good_project registered
          (project_table resolve (assignment names default_profile raw path) existing)
        ≡ true
  unfolding good_project project_table selected selected_default or_none is_some default_assigned
  pool-good registered names default_profile path raw existing a c = ground arith
