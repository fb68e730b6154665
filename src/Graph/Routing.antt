-- ===== src/Graph/Routing.antt =====
-- graph.py: the nodes up to the choice of a worker: `guard_existing_state`, `load_work_item`,
-- `select_route` and `check_capacity`, and the listing of sessions.
use agent_workflow_superviso.Prelude.{
  Option, String, ◌<>◌, Bool, true, not, none, some, List, [], ◌++◌,
}
use agent_workflow_superviso.Prelude.{
  if◌then◌else◌, ◌==◌, ◌!=◌, contains, option_eq, string_eq, nat_eq, nonempty, dedup,
}
use agent_workflow_superviso.Result.{key_error, runtime_error, Result, ok, err, or_raise, raise_if}
use agent_workflow_superviso.Models.{WorkItem, AgentSession, verdict_eq}
use agent_workflow_superviso.Config.{AppConfig}
use agent_workflow_superviso.Policy.{
  ModelSelection, select_model, has_model_capacity, requires_approval, credential_names,
  select_credential_profile,
}
use agent_workflow_superviso.Identifiers.{canonical_github_issue_id}
use agent_workflow_superviso.Graph.State.{
  Status, SupervisorState, or_default, or_none, positive, truthy_or, event, status_text,
}
use agent_workflow_superviso.Graph.World.{SupervisorDependencies, Call, World, call}
use agent_workflow_superviso.Exec.{case_option, case_list, Exec, pure, lift, for_each}
use agent_workflow_superviso.Exec.{◌>>=◌ as ◌>>=◌, ◌>>◌ as ◌>>◌}
use agent_workflow_superviso.Graph.Capacity.{
  execution_project_ids, profile_for_project, active_workers_for_item,
}

-- `_item_from_state`
unfoldable pub item_from_state : SupervisorState → Result WorkItem
item_from_state s = elim s.work_item_id [
  | none ↦ err key_error
  | some id ↦ ok (record {
    id = id;
    title = or_default s.title "";
    body = or_default s.body "";
    labels = or_default s.labels [];
    url = or_default s.work_item_url "";
  })
]

-- `o or state["project_id"]`
unfoldable pub project_or_own : Option String → SupervisorState → Result String
unfolding or_none
project_or_own o s = elim (or_none o) [ some p ↦ ok p | none ↦ or_raise s.project_id key_error ]

-- `ModelSelection(profile, harness, model, capacity)` from what the state holds
unfoldable pub selection_from_state : SupervisorState → String → ModelSelection
unfolding or_none positive
selection_from_state s harness = record {
  profile = or_none s.model_profile;
  harness = harness;
  model = or_none s.model;
  capacity = positive s.model_capacity;
  provider = none;
}

unfoldable pub is_report_only : AppConfig → String → Bool
is_report_only config harness = contains config.policy.report_only_harnesses harness

-- The state behind `select_route`, once the policy has selected.
unfoldable pub routed_state :
    AppConfig → WorkItem → ModelSelection → SupervisorState → SupervisorState
unfolding event is_report_only
routed_state config item selection s =
    let profile_note : String = elim selection.profile [
      | none ↦ ""
      | some p ↦ if p == "" then "" else " via profile " <> p
    ] in
    event ("routed to " <> (selection.harness <> profile_note)) (record s {
      harness = some selection.harness;
      model = some (or_default selection.model "");
      provider = some (or_default selection.provider "");
      model_profile = some (or_default selection.profile "");
      model_capacity = some (or_default selection.capacity 0);
      requires_approval = some (requires_approval item config.policy);
      report_only = some (is_report_only config selection.harness);
      status = some Status.routed;
    })

module _ {E : Type 0} (deps : SupervisorDependencies E) where
  -- `all_sessions`
  unfoldable pub all_sessions : List String → Exec (World E) (List AgentSession)
  all_sessions extra_project_ids = do
    sessions ←
        for_each (λ id. call (Call.list_sessions id) (deps.list_sessions id))
          (dedup [] (execution_project_ids deps.config ++ extra_project_ids))
    pure (mathlib.Core.List.flatten sessions)

  unfoldable pub guard_existing_state : SupervisorState → Exec (World E) SupervisorState
  guard_existing_state s = pure (event ("resuming from " <> status_text s.status) s)

  unfoldable pub load_work_item : SupervisorState → Exec (World E) SupervisorState
  load_work_item s = do
    id ← lift (or_raise s.work_item_id key_error)
    requested_id ← lift (canonical_github_issue_id id deps.config.repository true)
    item ← call (Call.get_work_item requested_id) (deps.get_work_item requested_id)
    resolved_id ← lift (canonical_github_issue_id item.id deps.config.repository true)
    lift (raise_if (resolved_id != requested_id) runtime_error)
    -- The source sorts the labels; they are a set to all that reads them.
    pure (
        event ("loaded work item " <> item.id) (record s {
          project_id = some (or_default s.project_id deps.config.project_id);
          work_item_id = some resolved_id;
          title = some item.title;
          body = some item.body;
          labels = some item.labels;
          work_item_url = some item.url;
          last_error = some "";
          status = some Status.loaded;
        }))

  unfoldable pub select_route : SupervisorState → Exec (World E) SupervisorState
  select_route s = do
    item ← lift (item_from_state s)
    selection ← lift (select_model item deps.config.policy)
    pure (elim selection [
      | none ↦ event "policy skipped work item" (record s { status = some Status.skipped })
      | some chosen ↦ routed_state deps.config item chosen s
    ])

  -- `check_capacity` for an item with an active worker
  unfoldable pub worker_found :
      SupervisorState → AgentSession → String → Exec (World E) SupervisorState
  worker_found s worker harness = do
    project_id ← lift (project_or_own worker.project_id s)
    profile ← lift (profile_for_project deps.config worker.project_id harness)
    pure (
        event ("found worker candidate " <> worker.id) (record s {
          worker_id = some worker.id;
          worker_status = some worker.status;
          execution_project_id = some project_id;
          credential_profile = some (truthy_or profile "");
          status = some Status.worker_candidate;
        }))

  -- `check_capacity` for an item with none: the limits, then the login.
  unfoldable pub capacity_checked :
      SupervisorState → List AgentSession → String → Exec (World E) SupervisorState
  capacity_checked s sessions harness =
      if not (has_model_capacity sessions (selection_from_state s harness) deps.config.policy)
      then pure (
          event ("waiting for " <> (truthy_or s.model_profile harness <> " capacity"))
            (record s { status = some Status.waiting_capacity }))
      else do
        selected ← lift (select_credential_profile sessions harness deps.config)
        case_option selected
            (if nonempty (credential_names deps.config harness)
              then pure (
                  event ("waiting for " <> (harness <> " credential profile capacity"))
                    (record s { status = some Status.waiting_profile_capacity }))
              else (do
                project_id ← lift (or_raise s.project_id key_error)
                pure (
                    event "capacity available" (record s {
                      execution_project_id = some project_id;
                      credential_profile = some "";
                      status = some Status.capacity_available;
                    }))))
            λ (profile_name, profile). pure (
              event ("selected credential profile " <> profile_name) (record s {
                execution_project_id = some profile.execution_project_id;
                credential_profile = some profile_name;
                status = some Status.capacity_available;
              }))

  unfoldable pub check_capacity : SupervisorState → Exec (World E) SupervisorState
  check_capacity s = do
    sessions ← all_sessions []
    harness ← lift (or_raise s.harness key_error)
    id ← lift (or_raise s.work_item_id key_error)
    active_workers ← lift (active_workers_for_item deps.config sessions id)
    case_list active_workers (capacity_checked s sessions harness)
        λ worker. worker_found s worker harness
