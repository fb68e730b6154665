-- ===== src/Graph/Capacity.antt =====
-- graph.py: which sessions and reservations count against a limit.
use agent_workflow_superviso.Prelude.{
  ℕ, suc, ◌+◌, min, String, ◌<>◌, Bool, true, false, not, ◌&&◌, Option, none, some, List, [], ◌∷◌,
  ◌++◌, map,
}
use agent_workflow_superviso.Prelude.{
  if◌then◌else◌, ◌==◌, ◌!=◌, contains, option_eq, string_eq, nat_eq, length, any, select, count_if,
  dedup, ltb,
}
use agent_workflow_superviso.Prelude.Dict
use agent_workflow_superviso.Prelude.Dict.{Dict}
use agent_workflow_superviso.Result.{key_error, Result, ok, err, ◌>>=◌, or_raise}
use agent_workflow_superviso.Models.{AgentSession, active, verdict_eq}
use agent_workflow_superviso.Config.{AppConfig, CredentialProfileConfig}
use agent_workflow_superviso.Policy.{ModelSelection, Candidate, least, credential_names}
use agent_workflow_superviso.Identifiers.{canonical_github_issue_id}
use agent_workflow_superviso.Locking.{
  Files, AcquisitionRecord, ReservationState, execution_credential_identity,
}

-- `list_all_acquisition_records` gives the project, the work item and the record.
abbrev pub Reservation : Type 0
Reservation = String × String × AcquisitionRecord

-- `session.project_id in {None, project_id}`
unfoldable pub is_in_project : String → AgentSession → Bool
is_in_project project_id session = elim session.project_id [
  | none ↦ true
  | some p ↦ p == project_id
]

unfoldable pub execution_project_ids : AppConfig → List String
unfolding dedup Dict.values
execution_project_ids config =
    dedup [] (config.project_id ∷ map (λ p. p.execution_project_id) (Dict.values config.profiles))

-- The loop of `profile_for_project`.
unfoldable pub first_profile :
    Dict String CredentialProfileConfig → Option String → List String → Result (Option String)
first_profile profiles project_id [] = ok none
first_profile profiles project_id (name ∷ names) = do
  profile ← or_raise (Dict.get name profiles) key_error
  let rest = first_profile profiles project_id names
  elim (project_id == some profile.execution_project_id) [ true ↦ ok (some name) | false ↦ rest ]

unfoldable pub profile_for_project : AppConfig → Option String → String → Result (Option String)
unfolding first_profile
profile_for_project config project_id harness =
    first_profile config.profiles project_id (credential_names config harness)

module _ (sha256 resolve : String → String) where
  unfoldable pub credential_resource_key : AppConfig → Files → String → String → Result String
  credential_resource_key config files profile_name harness = do
    profile ← or_raise (Dict.get profile_name config.profiles) key_error
    (bound, bound_config_dir) ←
        execution_credential_identity sha256 profile.execution_project_id files
    let config_dir = if bound then bound_config_dir else profile.claude_config_dir
    let identity : String = elim config_dir [ none ↦ "default" | some d ↦ resolve d ]
    ok (harness <> (":claude-config:" <> identity))

-- The sessions that a pending reservation may already have led to.
unfoldable pub fits_reservation : String → AcquisitionRecord → AgentSession → Bool
unfolding is_in_project
fits_reservation work_item_id r session =
    active session
    && session.role == "worker"
    && session.work_item_id == some work_item_id
    && session.harness == r.harness
    && is_in_project r.execution_project_id session

unfoldable pub is_pending : AcquisitionRecord → Bool
is_pending r = elim r.state [ ReservationState.pending ↦ true | ReservationState.worker ↦ false ]

-- The ids that one matching record stands for.
unfoldable pub represented_by : List AgentSession → Reservation → List String
unfolding fits_reservation is_pending select
represented_by sessions (_, work_item_id, r) =
    elim r.worker_id [ none ↦ [] | some id ↦ id ∷ [] ]
    ++ (if is_pending r
        then map (λ (s : AgentSession). s.id) (select (fits_reservation work_item_id r) sessions)
        else [])

unfoldable pub represented_ids : List AgentSession → List Reservation → List String
unfolding represented_by
represented_ids sessions [] = []
represented_ids sessions (r ∷ rs) = represented_by sessions r ++ represented_ids sessions rs

-- An active worker that no matching record stands for.
unfoldable pub is_unreserved : (AgentSession → Bool) → List String → AgentSession → Bool
is_unreserved session_matches represented session =
    active session
    && session.role == "worker"
    && not (contains represented session.id)
    && session_matches session

unfoldable pub matching : (AcquisitionRecord → Bool) → List Reservation → List Reservation
unfolding select
matching record_matches = select (λ (_, _, r). record_matches r)

unfoldable pub global_resource_count :
    List Reservation → List AgentSession → (AcquisitionRecord → Bool) → (AgentSession → Bool) → ℕ
unfolding matching represented_ids is_unreserved count_if
global_resource_count records sessions record_matches session_matches =
    let matching_records = matching record_matches records in
    length matching_records
    + count_if (is_unreserved session_matches (represented_ids sessions matching_records)) sessions

-- `min([limit] + [c for the records that carry a limit])`
unfoldable pub effective_capacity : ℕ → (AcquisitionRecord → Option ℕ) → List Reservation → ℕ
effective_capacity limit carried [] = limit
effective_capacity limit carried ((_, _, r) ∷ rs) =
    let rest = effective_capacity limit carried rs in
    elim (carried r) [ none ↦ rest | some c ↦ min c rest ]

-- A record of the profile, or of no profile on its harness.
unfoldable pub matches_model : String → String → AcquisitionRecord → Bool
matches_model profile harness r = elim r.model_profile [
  | some p ↦ p == profile
  | none ↦ r.harness == harness
]

unfoldable pub has_global_model_capacity :
    List AgentSession → List Reservation → ModelSelection → Bool
unfolding matches_model effective_capacity matching global_resource_count
has_global_model_capacity sessions records selection = elim selection.capacity [
  | none ↦ true
  | some capacity ↦ elim selection.profile [
    | none ↦ true
    | some profile ↦
        let matches = matches_model profile selection.harness in
        ltb (global_resource_count records sessions matches (λ s. s.harness == selection.harness))
          (effective_capacity capacity (λ r. r.model_capacity) (matching matches records))
  ]
]

-- A record of the login, or of no login on its execution project and harness.
unfoldable pub matches_credential : String → String → String → AcquisitionRecord → Bool
matches_credential key project_id harness r = elim r.credential_key [
  | some k ↦ k == key
  | none ↦ r.execution_project_id == project_id && r.harness == harness
]

abbrev pub GlobalChoice : Type 0
GlobalChoice = String × CredentialProfileConfig × String

module _ (sha256 resolve : String → String) (config : AppConfig) (files : Files) where
  -- The occupied and the allowed number of workers of one login.
  unfoldable pub credential_load :
      List AgentSession → List Reservation → String → CredentialProfileConfig → String → ℕ × ℕ
  unfolding matches_credential global_resource_count effective_capacity matching
  credential_load sessions records harness profile key =
      let matches = matches_credential key profile.execution_project_id harness in
      (
        global_resource_count records sessions matches
            (λ s. s.harness == harness && s.project_id == some profile.execution_project_id),
        effective_capacity profile.max_workers (λ r. r.credential_capacity)
            (matching matches records),
      )

  unfoldable pub global_candidates :
      List AgentSession
      → List Reservation
      → String
      → ℕ
      → List String
      → Result (List (Candidate GlobalChoice))
  unfolding credential_load credential_resource_key
  global_candidates sessions records harness order [] = ok []
  global_candidates sessions records harness order (name ∷ names) = do
    profile ← or_raise (Dict.get name config.profiles) key_error
    key ← credential_resource_key sha256 resolve config files name harness
    rest ← global_candidates sessions records harness (suc order) names
    let (count, limit) = credential_load sessions records harness profile key
    ok (
        if ltb count limit
        then record { count = count; order = order; choice = (name, profile, key) } ∷ rest
        else rest)

  unfoldable pub select_global_credential_profile :
      List AgentSession → List Reservation → String → Result (Option GlobalChoice)
  unfolding global_candidates
  select_global_credential_profile sessions records harness = do
    candidates ← global_candidates sessions records harness 0 (credential_names config harness)
    ok (elim (least candidates) [ none ↦ none | some c ↦ some c.choice ])

-- The session names the same work item, once both names are canonical.
unfoldable pub is_worker_of : String → String → AgentSession → Bool
is_worker_of repository canonical_id session =
    session.role == "worker"
    && elim session.work_item_id [
      | none ↦ false
      | some id ↦ elim (canonical_github_issue_id id repository false) [
        | ok c ↦ c == canonical_id
        | err _ ↦ false
      ]
    ]
    && active session

unfoldable pub active_workers_for_item :
    AppConfig → List AgentSession → String → Result (List AgentSession)
unfolding is_worker_of select
active_workers_for_item config sessions work_item_id = do
  canonical_id ← canonical_github_issue_id work_item_id config.repository true
  ok (select (is_worker_of config.repository canonical_id) sessions)

-- The session that stands for a reservation that no visible session represents.
unfoldable pub reserved_session : String → AcquisitionRecord → AgentSession
reserved_session work_item_id r = record {
  id = "reservation:" <> work_item_id;
  role = "worker";
  status = "reserved";
  harness = r.harness;
  terminated = false;
  work_item_id = some work_item_id;
  project_id = some r.execution_project_id;
  display_name = "";
  created_at = "";
  updated_at = "";
  last_activity_at = "";
}

unfoldable pub active_ids : List AgentSession → List String
unfolding select
active_ids sessions = map (λ (s : AgentSession). s.id) (select active sessions)

-- The reservation is of another work item, and no visible session represents it.
unfoldable pub is_hidden : List AgentSession → String → String × AcquisitionRecord → Bool
unfolding fits_reservation active_ids is_pending any
is_hidden sessions current (work_item_id, r) =
    work_item_id != current
    && not (elim r.worker_id [ none ↦ false | some id ↦ contains (active_ids sessions) id ])
    && not (is_pending r && any (fits_reservation work_item_id r) sessions)

unfoldable pub sessions_with_capacity_reservations :
    List (String × AcquisitionRecord) → List AgentSession → String → List AgentSession
unfolding is_hidden reserved_session select
sessions_with_capacity_reservations records sessions current =
    sessions ++ map (λ (id, r). reserved_session id r) (select (is_hidden sessions current) records)

-- Whether `worker_conflict` reports one: workers there are, and not exactly one, of the right harness.
unfoldable pub worker_conflict : List AgentSession → String → Bool
worker_conflict [] expected_harness = false
worker_conflict (worker ∷ []) expected_harness = worker.harness != expected_harness
worker_conflict (_ ∷ _ ∷ _) expected_harness = true

unfoldable pub worker_names : List AgentSession → String
worker_names [] = ""
worker_names (w ∷ []) = w.id <> (" (" <> (w.harness <> ")"))
worker_names (w ∷ v ∷ ws) = (w.id <> (" (" <> (w.harness <> "), "))) <> worker_names (v ∷ ws)
