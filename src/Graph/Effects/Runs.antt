-- ===== src/Graph/Effects/Runs.antt =====
-- What a whole run may do to the world, from a rule for each primitive action.
use agent_workflow_superviso.Prelude.{ℕ, zero, suc, ◌≡◌, false, String}
use agent_workflow_superviso.Result.{Result}
use agent_workflow_superviso.Models.{ChangeRequest}
use agent_workflow_superviso.Locking.{Files}
use agent_workflow_superviso.Exec.{Exec}
use agent_workflow_superviso.Exec.Relates.{IsPreorder, Relates}
use agent_workflow_superviso.Graph.State.{SupervisorState}
use agent_workflow_superviso.Graph.World.{
  SpawnRequest, SupervisorDependencies, Lock, Call, World, perform, call, with_lock, set_files,
  read_clock,
}
use agent_workflow_superviso.Graph.Delivery.{interrupt}
use agent_workflow_superviso.Graph.Run.{
  Node, guard, load, route, check, ensure, inspect, feedback, verify, approve, merge, cleanup, body,
  Outcome, Move, halt, go_to, move, follow, run,
}
use agent_workflow_superviso.Graph.Effects.Calls.{IsRead, IsChange}
use agent_workflow_superviso.Graph.Effects.Nodes.{
  guard-Relates, load-Relates, route-Relates, check-Relates, inspect-Relates, feedback-Relates,
  verify-Relates, approve-Relates, merge-Relates, cleanup-Relates,
}
use agent_workflow_superviso.Graph.Effects.Ensure.{ensure-Relates}

module _ {E : Type 0} (deps : SupervisorDependencies E) (R : World E → World E → Type 0)
    (order : IsPreorder R)
    (on_read : (A : Type 0) (c : Call) (f : E → Result A × E) → IsRead c → Relates R (call c f))
    (on_change : (A : Type 0) (c : Call) (f : E → Result A × E)
      → IsChange c
      → deps.config.supervisor.shadow_mode ≡ false
      → Relates R (call c f))
    (on_spawn : (A : Type 0) (request : SpawnRequest) (f : E → Result A × E)
      → deps.config.supervisor.shadow_mode ≡ false
      → Relates R (call (Call.spawn_worker request) f))
    (on_merge : (A : Type 0) (id sha : String) (f : E → Result A × E)
      → deps.config.supervisor.shadow_mode ≡ false
      → Relates R (call (Call.merge_change id sha) f))
    (on_get_change : (id : String) (f : E → Result ChangeRequest × E)
      → Relates R (perform (Call.get_change id) f))
    (on_files : (files : Files) → Relates R (set_files files))
    (on_clock : (f : E → ℕ × E) → Relates R (read_clock f))
    (on_lock : (A : Type 0) (l : Lock) (m : Exec (World E) A)
      → Relates R m
      → Relates R (with_lock l m))
    (on_interrupt : Relates R interrupt) where
  pub body-Relates : (n : Node) (s : SupervisorState) → Relates R (body deps n s)
  unfolding body
  body-Relates guard s =
      guard-Relates deps R order on_read on_change on_get_change on_files on_clock on_lock
        on_interrupt s
  body-Relates load s =
      load-Relates deps R order on_read on_change on_get_change on_files on_clock on_lock
        on_interrupt s
  body-Relates route s =
      route-Relates deps R order on_read on_change on_get_change on_files on_clock on_lock
        on_interrupt s
  body-Relates check s =
      check-Relates deps R order on_read on_change on_get_change on_files on_clock on_lock
        on_interrupt s
  body-Relates ensure s = ensure-Relates deps R order on_read on_spawn on_files on_lock s
  body-Relates inspect s =
      inspect-Relates deps R order on_read on_change on_get_change on_files on_clock on_lock
        on_interrupt s
  body-Relates feedback s =
      feedback-Relates deps R order on_read on_change on_get_change on_files on_clock on_lock
        on_interrupt s
  body-Relates verify s =
      verify-Relates deps R order on_read on_change on_get_change on_files on_clock on_lock
        on_interrupt s
  body-Relates approve s =
      approve-Relates deps R order on_read on_change on_get_change on_files on_clock on_lock
        on_interrupt s
  body-Relates merge s = merge-Relates deps R order on_merge s
  body-Relates cleanup s =
      cleanup-Relates deps R order on_read on_change on_get_change on_files on_clock on_lock
        on_interrupt s

module _ {E : Type 0} (deps : SupervisorDependencies E) (R : World E → World E → Type 0)
    (order : IsPreorder R)
    (on_body : (n : Node) (s : SupervisorState) → Relates R (body deps n s)) where
  follow-Relates :
      (rest : Node → SupervisorState → World E → Outcome × World E)
      → ((n : Node) (s : SupervisorState) (w : World E) → R w (rest n s w).1)
      → (m : Move) (w : World E) → R w (follow rest m w).1
  unfolding follow
  follow-Relates rest h (halt o) w = order.same w
  follow-Relates rest h (go_to n s) w = h n s w

  pub run-Relates :
      (fuel : ℕ) (n : Node) (s : SupervisorState) (w : World E) → R w (run deps fuel n s w).1
  unfolding run
  run-Relates zero n s w = order.same w
  run-Relates (suc fuel) n s w =
      let (r, w') = body deps n s w in
      order.trans w w' _ ((on_body n s).at w)
        (follow-Relates (run deps fuel) (run-Relates fuel) (move n s r) w')
