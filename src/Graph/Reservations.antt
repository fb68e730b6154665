-- ===== src/Graph/Reservations.antt =====
-- What a failed spawn leaves behind.
use agent_workflow_superviso.Prelude.{◌≡◌, ◌≢◌, false, none, some, String, arith}
use agent_workflow_superviso.Prelude.{string_eq, option_eq, nat_eq}
use agent_workflow_superviso.Result.{Error, ok, err}
use agent_workflow_superviso.Models.{WorkItem}
use agent_workflow_superviso.Exec.{◌>>=◌}
use agent_workflow_superviso.Locking.{ReservationState, read_acquisition_record}
use agent_workflow_superviso.Locking.RoundTrip.{IsValid, read_written}
use agent_workflow_superviso.Graph.State.{SupervisorState, or_default, or_none}
use agent_workflow_superviso.Graph.World.{
  SupervisorDependencies, SpawnRequest, World, perform, call, set_files,
}
use agent_workflow_superviso.Graph.Routing.{item_from_state}
use agent_workflow_superviso.Graph.Spawn.{
  record_acquisition, Allocation, reservation_for, spawn_worker, prompt_for,
}

module _ {E : Type 0} (deps : SupervisorDependencies E) where
  -- If the runner raises on every request to spawn in this environment, the acquisition of a worker
  -- for a known item raises the same, and the next read of the item's reservation returns the pending
  -- record, for nonempty names and a valid record.
  pub spawn_worker_fails :
      (s : SupervisorState) (project_id work_item_id harness : String) (a : Allocation)
      (w : World E) (item : WorkItem) (e : Error)
      → item_from_state s ≡ ok item
      → ((request : SpawnRequest) → (deps.spawn_worker request w.env).0 ≡ err e)
      → project_id ≢ ""
      → work_item_id ≢ ""
      → IsValid (reservation_for s a ReservationState.pending a.execution_project_id harness none)
      → ((spawn_worker deps s project_id work_item_id harness a w).0 ≡ err e)
        × (read_acquisition_record deps.sha256 project_id work_item_id
              (spawn_worker deps s project_id work_item_id harness a w).1.files
            ≡ ok (
                some (
                  reservation_for s a ReservationState.pending a.execution_project_id harness
                    none)))
  unfolding spawn_worker ◌>>=◌ perform record_acquisition call set_files
  spawn_worker_fails s project_id work_item_id harness a w item e known raises p i v =
      let r = reservation_for s a ReservationState.pending a.execution_project_id harness none in
      let written = read_written deps.sha256 deps.pid project_id work_item_id r w.files p i v in
      let raised = raises (record {
        project_id = a.execution_project_id;
        work_item = item;
        harness = harness;
        model = or_none s.model;
        provider = or_none s.provider;
        credential_profile = or_none (some a.credential_profile);
        prompt = prompt_for item (or_default s.report_only false);
      }) in
      (ground (arith, known, raised), ground (arith, known, raised, written))
