-- ===== src/Graph/Effects/Ensure.antt =====
-- What `ensure_worker` may do to the world: as in the parent, with a rule for the spawn.
use agent_workflow_superviso.Prelude.{◌≡◌, false, Option, String, List}
use agent_workflow_superviso.Result.{Result}
use agent_workflow_superviso.Models.{AgentSession}
use agent_workflow_superviso.Locking.{Files, AcquisitionRecord}
use agent_workflow_superviso.Exec.{Exec}
use agent_workflow_superviso.Exec.Relates.{IsPreorder, Relates, relates_rules}
use agent_workflow_superviso.Graph.State.{SupervisorState}
use agent_workflow_superviso.Graph.World.{
  SpawnRequest, SupervisorDependencies, Lock, Call, World, call, with_lock, set_files,
}
use agent_workflow_superviso.Graph.Capacity.{GlobalChoice}
use agent_workflow_superviso.Graph.Spawn.{
  Allocation, spawn_worker, allocate, check_global, check_and_allocate,
}
use agent_workflow_superviso.Graph.Acquire.{
  Settled, stop, go_on, after_switch, acquire_new, acquire_settled, acquire_locked, ensure_worker,
}
use agent_workflow_superviso.Graph.Effects.Calls.{IsRead}
use agent_workflow_superviso.Graph.Effects.Settle.{
  Relates-from_files, sessions-Relates, record-Relates, settle-Relates, reuse-Relates,
}

module _ {E : Type 0} (deps : SupervisorDependencies E) (R : World E → World E → Type 0)
    (order : IsPreorder R)
    (on_read : (A : Type 0) (c : Call) (f : E → Result A × E) → IsRead c → Relates R (call c f))
    (on_spawn : (A : Type 0) (request : SpawnRequest) (f : E → Result A × E)
      → deps.config.supervisor.shadow_mode ≡ false
      → Relates R (call (Call.spawn_worker request) f))
    (on_files : (files : Files) → Relates R (set_files files))
    (on_lock : (A : Type 0) (l : Lock) (m : Exec (World E) A)
      → Relates R m
      → Relates R (with_lock l m)) where
  spawn-Relates :
      (s : SupervisorState) (project_id work_item_id harness : String) (a : Allocation)
      → deps.config.supervisor.shadow_mode ≡ false
      → Relates R (spawn_worker deps s project_id work_item_id harness a)
  unfolding spawn_worker
  spawn-Relates s project_id work_item_id harness a live =
      let recorded = record-Relates deps R order on_read on_files in
      search (relates_rules, recorded) depth 14

  allocate-Relates :
      (s : SupervisorState) (project_id work_item_id harness : String)
      (choice : Option GlobalChoice)
      → Relates R (allocate deps s project_id work_item_id harness choice)
  unfolding allocate
  allocate-Relates s project_id work_item_id harness choice =
      search (relates_rules, spawn-Relates) depth 10

  global-Relates :
      (s : SupervisorState) (project_id work_item_id harness : String)
      (sessions : List AgentSession)
      → Relates R (check_global deps s project_id work_item_id harness sessions)
  unfolding check_global
  global-Relates s project_id work_item_id harness sessions =
      let files = Relates-from_files deps R order on_read on_files in
      search (relates_rules, files, allocate-Relates) depth 10

  limits-Relates :
      (s : SupervisorState) (project_id work_item_id harness : String)
      (sessions : List AgentSession)
      → Relates R (check_and_allocate deps s project_id work_item_id harness sessions)
  unfolding check_and_allocate
  limits-Relates s project_id work_item_id harness sessions =
      let files = Relates-from_files deps R order on_read on_files in
      search (relates_rules, files, global-Relates) depth 10

  new-Relates :
      (s : SupervisorState) (project_id work_item_id harness : String)
      (r : Option AcquisitionRecord) (sessions : List AgentSession)
      → Relates R (acquire_new deps s project_id work_item_id harness r sessions)
  unfolding acquire_new after_switch
  new-Relates s project_id work_item_id harness r sessions =
      let files = Relates-from_files deps R order on_read on_files in
      search (relates_rules, files, limits-Relates) depth 14

  settled-Relates :
      (s : SupervisorState) (project_id work_item_id : String) (sessions : List AgentSession)
      (settled : Settled)
      → Relates R (acquire_settled deps s project_id work_item_id sessions settled)
  unfolding acquire_settled
  settled-Relates s project_id work_item_id sessions (stop s') = search relates_rules
  settled-Relates s project_id work_item_id sessions (go_on r workers) =
      let reused = reuse-Relates deps R order on_read on_files in
      search (relates_rules, reused, new-Relates) depth 12

  pub locked-Relates :
      (s : SupervisorState) (project_id work_item_id : String)
      → Relates R (acquire_locked deps s project_id work_item_id)
  unfolding acquire_locked
  locked-Relates s project_id work_item_id =
      let files = Relates-from_files deps R order on_read on_files in
      let sessions = sessions-Relates deps R order on_read on_files in
      let settled = settle-Relates deps R order on_read on_files in
      search (relates_rules, files, sessions, settled, settled-Relates) depth 14

  pub ensure-Relates : (s : SupervisorState) → Relates R (ensure_worker deps s)
  unfolding ensure_worker
  ensure-Relates s = search (relates_rules, locked-Relates) depth 12
