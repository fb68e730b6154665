-- ===== src/Graph/Effects/Settle.antt =====
-- What `ensure_worker` may do to the world before a spawn: as in Nodes, for the reservation and a worker
-- that is reused.
use agent_workflow_superviso.Prelude.{Option, String, List}
use agent_workflow_superviso.Result.{Result}
use agent_workflow_superviso.Models.{AgentSession}
use agent_workflow_superviso.Locking.{Files, AcquisitionRecord}
use agent_workflow_superviso.Exec.Relates.{IsPreorder, Relates, relates_rules}
use agent_workflow_superviso.Graph.State.{SupervisorState}
use agent_workflow_superviso.Graph.World.{
  SupervisorDependencies, Call, World, call, from_files, set_files,
}
use agent_workflow_superviso.Graph.Routing.{all_sessions}
use agent_workflow_superviso.Graph.Spawn.{record_acquisition}
use agent_workflow_superviso.Graph.Acquire.{
  settle_found, settle_worker, settle_pending, settle, matching_login, reuse_worker,
}
use agent_workflow_superviso.Graph.Effects.Calls.{IsRead}

module _ {E : Type 0} (deps : SupervisorDependencies E) (R : World E → World E → Type 0)
    (order : IsPreorder R)
    (on_read : (A : Type 0) (c : Call) (f : E → Result A × E) → IsRead c → Relates R (call c f))
    (on_files : (files : Files) → Relates R (set_files files)) where
  pub Relates-from_files : (A : Type 0) (f : Files → Result A) → Relates R (from_files f)
  unfolding from_files
  Relates-from_files A f = record { at = order.same }

  pub sessions-Relates : (ids : List String) → Relates R (all_sessions deps ids)
  unfolding all_sessions
  sessions-Relates ids = search (relates_rules) depth 8

  pub record-Relates :
      (project_id work_item_id : String) (r : AcquisitionRecord)
      → Relates R (record_acquisition deps project_id work_item_id r)
  unfolding record_acquisition
  record-Relates project_id work_item_id r = search (relates_rules) depth 8

  settle_found-Relates :
      (s : SupervisorState) (project_id work_item_id : String) (r : AcquisitionRecord)
      (worker : AgentSession) (workers : List AgentSession)
      → Relates R (settle_found deps s project_id work_item_id r worker workers)
  unfolding settle_found
  settle_found-Relates s project_id work_item_id r worker workers =
      search (relates_rules, Relates-from_files) depth 12

  pub settle-Relates :
      (s : SupervisorState) (project_id work_item_id : String) (r : Option AcquisitionRecord)
      (workers : List AgentSession)
      → Relates R (settle deps s project_id work_item_id r workers)
  unfolding settle settle_worker settle_pending
  settle-Relates s project_id work_item_id r workers =
      search (relates_rules, Relates-from_files, settle_found-Relates, record-Relates) depth 14

  pub reuse-Relates :
      (s : SupervisorState) (project_id work_item_id harness : String)
      (r : Option AcquisitionRecord) (worker : AgentSession)
      → Relates R (reuse_worker deps s project_id work_item_id harness r worker)
  unfolding reuse_worker matching_login
  reuse-Relates s project_id work_item_id harness r worker =
      search (relates_rules, Relates-from_files, record-Relates) depth 14
