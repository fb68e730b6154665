-- ===== src/Graph/Spawn.antt =====
-- graph.py: the last part of `ensure_worker`, where no worker of the item is active and none is
-- reserved: the final checks of capacity, and the spawn.
use agent_workflow_superviso.Prelude.{
  ℕ, String, ◌<>◌, Bool, true, false, not, ◌&&◌, Option, none, some, List,
}
use agent_workflow_superviso.Prelude.{if◌then◌else◌, ◌==◌, option_eq, string_eq, nat_eq, nonempty}
use agent_workflow_superviso.Models.{WorkItem, AgentSession, verdict_eq}
use agent_workflow_superviso.Policy.{has_capacity, credential_names}
use agent_workflow_superviso.Locking.{
  AcquisitionRecord, ReservationState, write_acquisition_record, list_acquisition_records,
  list_all_acquisition_records,
}
use agent_workflow_superviso.Graph.State.{
  Status, SupervisorState, or_default, or_none, positive, truthy_or, event,
}
use agent_workflow_superviso.Graph.World.{
  SpawnRequest, SupervisorDependencies, Call, World, call, from_files, set_files,
}
use agent_workflow_superviso.Exec.{Exec, pure, lift, gets}
use agent_workflow_superviso.Exec.{◌>>=◌ as ◌>>=◌, ◌>>◌ as ◌>>◌}
use agent_workflow_superviso.Graph.Capacity.{
  has_global_model_capacity, GlobalChoice, select_global_credential_profile,
  sessions_with_capacity_reservations,
}
use agent_workflow_superviso.Graph.Routing.{item_from_state, selection_from_state}

-- `record_pending_acquisition`, `record_acquired_worker`: `pid` is that of the process.
module _ {E : Type 0} (deps : SupervisorDependencies E) where
  unfoldable pub record_acquisition :
      String → String → AcquisitionRecord → Exec (World E) (Unit {0})
  record_acquisition project_id work_item_id r = do
    files ← gets (λ w. w.files)
    set_files (write_acquisition_record deps.sha256 deps.pid project_id work_item_id r files)

-- Where a worker would run: the execution project, the login's name, key and capacity.
pub record Allocation : Type 0 where
  pub execution_project_id : String
  pub credential_profile : String
  pub credential_key : Option String
  pub credential_capacity : Option ℕ

unfoldable pub allocation_for : String → Option GlobalChoice → Allocation
allocation_for project_id none = record {
  execution_project_id = project_id;
  credential_profile = "";
  credential_key = none;
  credential_capacity = none;
}
allocation_for project_id (some (name, profile, key)) = record {
  execution_project_id = profile.execution_project_id;
  credential_profile = name;
  credential_key = some key;
  credential_capacity = some profile.max_workers;
}

abbrev is_none : Option GlobalChoice → Bool
is_none none = true
is_none (some _) = false

unfoldable pub prompt_for : WorkItem → Bool → String
prompt_for item report_only =
    if report_only
    then "Research work item "
      <> (item.id
          <> (": "
              <> (item.title
                  <> ". Read its complete description and discussion. Do not modify repository files, implement code, create a PR, make art, or review a PR. Produce an evidence-backed report with source links and actionable recommendations. Post the final report to the work item's tracker discussion before finishing; if tracker posting is unavailable, leave the complete report in the session output.")))
    else "Handle work item "
      <> (item.id
          <> (": "
              <> (item.title
                  <> ". Read its complete description and discussion before acting. Follow the target project's own instructions.")))

-- The record of a reservation that the state and the allocation describe.
unfoldable pub reservation_for :
    SupervisorState
    → Allocation
    → ReservationState
    → String
    → String
    → Option String
    → AcquisitionRecord
unfolding or_none positive
reservation_for s a state execution_project_id harness worker_id = record {
  state = state;
  execution_project_id = execution_project_id;
  harness = harness;
  worker_id = worker_id;
  model_profile = or_none s.model_profile;
  model_capacity = positive s.model_capacity;
  credential_key = a.credential_key;
  credential_capacity = a.credential_capacity;
}

unfoldable pub planned_state : SupervisorState → Allocation → String → SupervisorState
unfolding event or_none
planned_state s a harness =
    let profile_note =
      if a.credential_profile == "" then "" else " with profile " <> a.credential_profile in
    let model_note : String = elim (or_none s.model_profile) [
      | none ↦ ""
      | some p ↦ " using model profile " <> p
    ] in
    event ("shadow: would spawn " <> (harness <> (" worker" <> (profile_note <> model_note))))
      (record s {
        execution_project_id = some a.execution_project_id;
        credential_profile = some a.credential_profile;
        status = some Status.planned_worker;
      })

module _ {E : Type 0} (deps : SupervisorDependencies E) where
  -- The pending record is written before the spawn and replaced behind it: a spawn that raises leaves
  -- it pending.
  unfoldable pub spawn_worker :
      SupervisorState → String → String → String → Allocation → Exec (World E) SupervisorState
  spawn_worker s project_id work_item_id harness a = do
    item ← lift (item_from_state s)
    record_acquisition deps project_id work_item_id
        (reservation_for s a ReservationState.pending a.execution_project_id harness none)
    let request : SpawnRequest = record {
      project_id = a.execution_project_id;
      work_item = item;
      harness = harness;
      model = or_none s.model;
      provider = or_none s.provider;
      credential_profile = or_none (some a.credential_profile);
      prompt = prompt_for item (or_default s.report_only false);
    }
    worker ← call (Call.spawn_worker request) (deps.spawn_worker request)
    let execution_project_id = truthy_or worker.project_id a.execution_project_id
    record_acquisition deps project_id work_item_id (
        reservation_for s a ReservationState.worker execution_project_id worker.harness
          (some worker.id))
    pure (
        event ("spawned worker " <> worker.id) (record s {
          worker_id = some worker.id;
          worker_status = some worker.status;
          execution_project_id = some execution_project_id;
          credential_profile = some a.credential_profile;
          report_started = some false;
          report_idle_observations = some 0;
          status = some Status.worker_running;
        }))

  -- What follows the choice of a login: a plan in shadow mode, a worker otherwise.
  unfoldable pub allocate :
      SupervisorState
      → String
      → String
      → String
      → Option GlobalChoice
      → Exec (World E) SupervisorState
  allocate s project_id work_item_id harness selected_profile =
      if nonempty (credential_names deps.config harness) && is_none selected_profile
      then pure (
          event ("waiting for " <> (harness <> " credential profile capacity"))
            (record s { status = some Status.waiting_profile_capacity }))
      else if deps.config.supervisor.shadow_mode
      then pure (planned_state s (allocation_for project_id selected_profile) harness)
      else spawn_worker s project_id work_item_id harness
          (allocation_for project_id selected_profile)

  -- The limits that every project shares, then the login.
  unfoldable pub check_global :
      SupervisorState
      → String
      → String
      → String
      → List AgentSession
      → Exec (World E) SupervisorState
  check_global s project_id work_item_id harness sessions = do
    records ← from_files list_all_acquisition_records
    if not (has_global_model_capacity sessions records (selection_from_state s harness))
        then pure (
            event ("waiting for " <> (or_default s.model_profile "" <> " global capacity"))
              (record s { status = some Status.waiting_capacity }))
        else do
          selected_profile ← from_files (λ files.
              select_global_credential_profile deps.sha256 deps.resolve deps.config files sessions
                records harness)
          allocate s project_id work_item_id harness selected_profile

  -- The project's limit, counting the reservations that no session shows.
  unfoldable pub check_and_allocate :
      SupervisorState
      → String
      → String
      → String
      → List AgentSession
      → Exec (World E) SupervisorState
  check_and_allocate s project_id work_item_id harness sessions = do
    records ← from_files (list_acquisition_records deps.config.project_id)
    let occupied = sessions_with_capacity_reservations records sessions work_item_id
    if not (has_capacity occupied harness deps.config.policy)
        then pure (
            event ("waiting for " <> (truthy_or s.model_profile harness <> " capacity"))
              (record s { status = some Status.waiting_capacity }))
        else check_global s project_id work_item_id harness sessions
