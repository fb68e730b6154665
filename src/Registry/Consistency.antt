-- ===== src/Registry/Consistency.antt =====
-- registry.py: what holds of the registry however it is edited.
use agent_workflow_superviso.Prelude.{
  String, Bool, true, false, ◌&&◌, Option, none, some, List, [], ◌≡◌, refl, sym, inl, inr, arith,
}
use agent_workflow_superviso.Prelude.{contains, option_eq, string_eq, all}
use agent_workflow_superviso.Prelude.Dict.{Dict, put, keys, values}
use agent_workflow_superviso.Result.{Result, ok, Result-cases}
use agent_workflow_superviso.Graph.State.{or_default}
use agent_workflow_superviso.Registry.Stored.{
  AccountTable, ModelTable, ProjectTable, Stored, Registry, or_table, ensure_registry, stored, edit,
}
use agent_workflow_superviso.Registry.Lookup.{all-put, contains-put, all_mono}

unfoldable pub is_some : {A : Type 0} → Option A → Bool
is_some none = false
is_some (some _) = true

unfoldable pub complete_profile : ModelTable → Bool
unfolding is_some
complete_profile m = is_some m.harness && is_some m.model

unfoldable pub default_assigned : List String → Option String → Bool
default_assigned models none = true
default_assigned models (some d) = contains models d

-- The project has a path, its profiles are among the registered, and its default among its own.
unfoldable pub good_project : List String → ProjectTable → Bool
unfolding is_some all default_assigned
good_project registered p =
    is_some p.config_path
    && all (contains registered) (or_default p.models [])
    && default_assigned (or_default p.models []) p.default_model

unfoldable pub consistent : Registry → Bool
unfolding all complete_profile good_project
consistent value =
    all complete_profile (values value.models)
    && all (good_project (keys value.models)) (values value.projects)

abbrev pub IsConsistent : Stored → Type 0
IsConsistent file = consistent (ensure_registry file) ≡ true

stored-consistent :
    (value : Registry) → consistent (ensure_registry (stored value)) ≡ consistent value
unfolding stored ensure_registry or_table consistent
stored-consistent value = refl

-- An edit keeps consistency when what it makes of the tables does.
pub edit-IsConsistent :
    {A : Type 0} (f : Registry → Result (A × Registry)) (file : Stored)
    → ((value value' : Registry) (a : A)
        → f value ≡ ok (a, value')
        → consistent value ≡ true
        → consistent value' ≡ true)
    → IsConsistent file
    → IsConsistent (edit f file).1
unfolding edit consistent
edit-IsConsistent f file kf h = elim (Result-cases (f (ensure_registry file))) [
  | inr (e, raised) ↦ rw (raised, edit, stored-consistent (ensure_registry file)) h
  | inl ((a, value'), done) ↦
      rw (done, edit, stored-consistent value') (kf (ensure_registry file) value' a done h)
]

pub edit_ok-IsConsistent :
    {A : Type 0} (g : Registry → A × Registry) (file : Stored)
    → ((value : Registry) → consistent value ≡ true → consistent (g value).1 ≡ true)
    → IsConsistent file
    → IsConsistent (edit (λ value. ok (g value)) file).1
edit_ok-IsConsistent g file kg h =
    edit-IsConsistent (λ value. ok (g value)) file
      (λ value value' a done c. let e : (g value).1 ≡ value' = cc in rw (sym e) (kg value c)) h

-- As `edit_ok-IsConsistent`, for the tables of this file.
pub edit_at-IsConsistent :
    {A : Type 0} (g : Registry → A × Registry) (file : Stored)
    → consistent (g (ensure_registry file)).1 ≡ true
    → IsConsistent (edit (λ value. ok (g value)) file).1
unfolding edit
edit_at-IsConsistent g file h = rw (stored-consistent (g (ensure_registry file)).1) h

pub put_account :
    (value : Registry) (name : String) (a : AccountTable)
    → consistent value ≡ true
    → consistent (record value { accounts = put name a value.accounts }) ≡ true
unfolding consistent
put_account value name a h = h

good-put :
    (registered : List String) (name : String) (m : ModelTable) (models : Dict String ModelTable)
    (p : ProjectTable)
    → good_project (keys models) p ≡ true
    → good_project (keys (put name m models)) p ≡ true
unfolding good_project
good-put registered name m models p h =
    let kept =
      all_mono (contains (keys models)) (contains (keys (put name m models)))
        (or_default p.models []) (λ n c. contains-put n name m models c) in
    ground (arith, kept)

pub put_profile :
    (value : Registry) (name : String) (m : ModelTable)
    → complete_profile m ≡ true
    → consistent value ≡ true
    → consistent (record value { models = put name m value.models }) ≡ true
unfolding consistent
put_profile value name m c h =
    let a = all-put complete_profile name m value.models c in
    let b = all_mono _ _ (values value.projects) (good-put [] name m value.models) in
    ground (arith, a, b)

pub put_project :
    (value : Registry) (id : String) (p : ProjectTable)
    → good_project (keys value.models) p ≡ true
    → consistent value ≡ true
    → consistent (record value { projects = put id p value.projects }) ≡ true
unfolding consistent
put_project value id p g h =
    let a = all-put (good_project (keys value.models)) id p value.projects g in ground (arith, a)
