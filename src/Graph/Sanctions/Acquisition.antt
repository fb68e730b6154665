-- ===== src/Graph/Sanctions/Acquisition.antt =====
-- graph.py: `ensure_worker` keeps the recorded approval.
use agent_workflow_superviso.Prelude.{String, Option, refl, List}
use agent_workflow_superviso.Prelude.{string_eq, option_eq}
use agent_workflow_superviso.Models.{AgentSession}
use agent_workflow_superviso.Graph.Acquire.{
  Settled, stop, go_on, unverified_state, conflict_state, route_conflict_state, held_back_state,
  settle_found, settle_worker, settle_pending, settle, reuse_worker, after_switch, acquire_new,
  acquire_settled, acquire_locked, ensure_worker,
}
use agent_workflow_superviso.Graph.Spawn.{
  Allocation, planned_state, spawn_worker, allocate, check_global, check_and_allocate,
}
use agent_workflow_superviso.Graph.Capacity.{GlobalChoice}
use agent_workflow_superviso.Locking.{AcquisitionRecord}
use agent_workflow_superviso.Graph.World.{Lock, with_lock}
use agent_workflow_superviso.Exec.{Exec}
use agent_workflow_superviso.Exec.Yields.{
  Yields, Yields-pure, Yields-if, Yields-bind, Yields-with, Yields-case_option, Yields-case_list,
  Yields-case_one,
}
use agent_workflow_superviso.Graph.State.{SupervisorState, event}
use agent_workflow_superviso.Graph.World.{SupervisorDependencies, World}
use agent_workflow_superviso.Graph.Sanctions.{SameApproval}

module _ {E : Type 0} (deps : SupervisorDependencies E) (s : SupervisorState) where
  planned-Same : (a : Allocation) (harness : String) → SameApproval s (planned_state s a harness)
  unfolding planned_state event
  planned-Same a harness = (refl, refl, refl)

  spawn-Same :
      (p i h : String) (a : Allocation) → Yields (SameApproval s) (spawn_worker deps s p i h a)
  unfolding spawn_worker event
  spawn-Same p i h a = search (Yields-pure, Yields-bind) depth 12

  allocate-Same :
      (p i h : String) (c : Option GlobalChoice) → Yields (SameApproval s) (allocate deps s p i h c)
  unfolding allocate event
  allocate-Same p i h c = search (Yields-pure, Yields-if, planned-Same, spawn-Same) depth 8

  global-Same :
      (p i h : String) (sessions : List AgentSession)
      → Yields (SameApproval s) (check_global deps s p i h sessions)
  unfolding check_global event
  global-Same p i h sessions = search (Yields-pure, Yields-if, Yields-bind, allocate-Same) depth 10

  limits-Same :
      (p i h : String) (sessions : List AgentSession)
      → Yields (SameApproval s) (check_and_allocate deps s p i h sessions)
  unfolding check_and_allocate event
  limits-Same p i h sessions = search (Yields-pure, Yields-if, Yields-bind, global-Same) depth 10

  switch-Same :
      (p i h : String) (sessions : List AgentSession)
      → Yields (SameApproval s) (after_switch deps s p i h sessions)
  unfolding after_switch event
  switch-Same p i h sessions = search (Yields-pure, Yields-if, Yields-bind, limits-Same) depth 12

  new-Same :
      (p i h : String) (r : Option AcquisitionRecord) (sessions : List AgentSession)
      → Yields (SameApproval s) (acquire_new deps s p i h r sessions)
  unfolding acquire_new held_back_state event
  new-Same p i h r sessions = search (Yields-pure, Yields-if, switch-Same) depth 8

  reuse-Same :
      (p i h : String) (r : Option AcquisitionRecord) (worker : AgentSession)
      → Yields (SameApproval s) (reuse_worker deps s p i h r worker)
  unfolding reuse_worker event
  reuse-Same p i h r worker = search (Yields-pure, Yields-bind) depth 10

  abbrev SettledSame : Settled → Type 0
  SettledSame (stop s') = SameApproval s s'
  SettledSame (go_on r workers) = Unit

  settle_found-Same :
      (p i : String) (r : AcquisitionRecord) (worker : AgentSession) (workers : List AgentSession)
      → Yields SettledSame (settle_found deps s p i r worker workers)
  unfolding settle_found conflict_state event
  settle_found-Same p i r worker workers = search (Yields-pure, Yields-if, Yields-bind) depth 12

  settle_worker-Same :
      (p i : String) (r : AcquisitionRecord) (workers : List AgentSession)
      → Yields SettledSame (settle_worker deps s p i r workers)
  unfolding settle_worker unverified_state event
  settle_worker-Same p i r workers =
      search (Yields-pure, Yields-bind, Yields-case_option, settle_found-Same) depth 12

  settle_pending-Same :
      (p i : String) (r : AcquisitionRecord) (workers : List AgentSession)
      → Yields SettledSame (settle_pending deps p i r workers)
  unfolding settle_pending
  settle_pending-Same p i r workers =
      Yields-case_one _ _ _
        (λ worker one. Yields-bind _ _ λ _. Yields-bind _ _ λ again. Yields-pure _ tt)
        (Yields-pure _ tt)

  settle-Same :
      (p i : String) (r : Option AcquisitionRecord) (workers : List AgentSession)
      → Yields SettledSame (settle deps s p i r workers)
  unfolding settle
  settle-Same p i r workers =
      search (Yields-pure, Yields-if, Yields-case_option, settle_worker-Same, settle_pending-Same)
        depth 10

  settled-Same :
      (p i : String) (sessions : List AgentSession) (settled : Settled)
      → SettledSame settled
      → Yields (SameApproval s) (acquire_settled deps s p i sessions settled)
  unfolding acquire_settled route_conflict_state event
  settled-Same p i sessions (stop s') k = Yields-pure s' k
  settled-Same p i sessions (go_on r workers) k =
      search (Yields-pure, Yields-if, Yields-bind, Yields-case_list, new-Same, reuse-Same) depth 10

  locked-Same : (p i : String) → Yields (SameApproval s) (acquire_locked deps s p i)
  unfolding acquire_locked
  locked-Same p i = Yields-bind _ _ λ r. Yields-bind _ _ λ sessions. Yields-bind _ _ λ workers.
      Yields-with {Q = SettledSame} _ _ (settle-Same p i r workers) (settled-Same p i sessions)

  lock-Yields :
      (l : Lock) (m : Exec (World E) SupervisorState)
      → Yields (SameApproval s) m
      → Yields (SameApproval s) (with_lock l m)
  unfolding with_lock
  lock-Yields l m k = record { at = λ w a h. k.at _ a h }

  pub ensure-Same : Yields (SameApproval s) (ensure_worker deps s)
  unfolding ensure_worker
  ensure-Same = search (Yields-bind, lock-Yields, locked-Same) depth 10
