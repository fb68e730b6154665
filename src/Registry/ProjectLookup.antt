-- ===== src/Registry/ProjectLookup.antt =====
-- registry.py: what the lookup of a project finds, in terms of the tables of the file.
use agent_workflow_superviso.Prelude.{
  String, Bool, true, Option, none, some, List, [], ◌∷◌, ◌≡◌, refl, inl, inr, arith, Option-cases,
}
use agent_workflow_superviso.Prelude.{◌==◌, contains, option_eq, string_eq, all, first}
use agent_workflow_superviso.Prelude.Dict.{get, keys, values}
use agent_workflow_superviso.Result.{Result, ok, err, key_error}
use agent_workflow_superviso.Graph.State.{or_none, or_default}
use agent_workflow_superviso.Registry.Stored.{
  ProjectTable, Stored, Registry, ensure_registry, or_table, view,
}
use agent_workflow_superviso.Registry.Projects.{ProjectRecord, read_project, get_project}
use agent_workflow_superviso.Registry.Lookup.{first-read, all_mono}
use agent_workflow_superviso.Registry.Consistency.{is_some, good_project, consistent, IsConsistent}
use agent_workflow_superviso.Registry.RoundTrip.{ok-injective}

unfoldable has_path : ProjectTable → Bool
unfolding is_some
has_path p = is_some p.config_path

module _ (expanduser : String → String) where
  unfoldable pub make_project : String × ProjectTable → ProjectRecord
  unfolding or_none
  make_project (id, p) = record {
    project_id = id;
    config_path = expanduser (or_default p.config_path "");
    accounts = or_default p.accounts [];
    model_profiles = or_default p.models [];
    default_model_profile = or_none p.default_model;
  }

  read_project-path :
      (id : String) (p : ProjectTable)
      → has_path p ≡ true
      → read_project expanduser (id, p) ≡ ok (make_project (id, p))
  unfolding read_project make_project has_path
  read_project-path id p h = elim (Option-cases p.config_path) [
    | inl missing ↦ absurd (ground arith)
    | inr (path, a) ↦ rw a refl
  ]

  abbrev pub project_at : String → Option ProjectTable → Result ProjectRecord
  project_at id none = err key_error
  project_at id (some p) = ok (make_project (id, p))

  all-has_path :
      (value : Registry) → consistent value ≡ true → all has_path (values value.projects) ≡ true
  unfolding consistent good_project has_path
  all-has_path value c =
      all_mono (good_project (keys value.models)) has_path (values value.projects)
        (λ p g. ground arith) (ground arith)

  pub get_project_lem :
      (id : String) (file : Stored)
      → IsConsistent file
      → (get_project expanduser id file).0 ≡ project_at id (get id (or_table file.projects))
  unfolding get_project view ensure_registry make_project
  get_project_lem id file h =
      let (projects, done, found) =
        first-read (read_project expanduser) make_project (λ p. p.project_id) has_path
          read_project-path (λ n m. refl) (or_table file.projects) id
          (all-has_path (ensure_registry file) h) in
      elim (Option-cases (get id (or_table file.projects))) [
        | inl missing ↦
            let none_found : first (λ p. p.project_id == id) projects ≡ none = cc in
            rw (done, none_found, missing) refl
        | inr (m, there) ↦
            let one_found : first (λ p. p.project_id == id) projects ≡ some (make_project (id, m)) =
              cc in
            rw (done, one_found, there) refl
      ]

  pub project_at-eq-ok :
      (id : String) (found : Option ProjectTable) (r : ProjectRecord)
      → project_at id found ≡ ok r
      → (p : ProjectTable) × (found ≡ some p) × (make_project (id, p) ≡ r)
  project_at-eq-ok id none r h = absurd (cc)
  project_at-eq-ok id (some p) r h = (p, refl, ok-injective h)

  pub all-contains :
      (p : String → Bool) (names : List String) (name : String)
      → all p names ≡ true
      → contains names name ≡ true
      → p name ≡ true
  unfolding all
  all-contains p [] name a c = absurd (cc)
  all-contains p (n ∷ names) name a c = ground (arith, all-contains p names name)
