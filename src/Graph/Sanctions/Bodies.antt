-- ===== src/Graph/Sanctions/Bodies.antt =====
-- graph.py: only the approval gate changes the recorded approval.
use agent_workflow_superviso.Prelude.{◌≡◌, ◌≢◌, refl}
use agent_workflow_superviso.Result.{ok}
use agent_workflow_superviso.Exec.Yields.{Yields}
use agent_workflow_superviso.Graph.State.{SupervisorState}
use agent_workflow_superviso.Graph.World.{SupervisorDependencies, World}
use agent_workflow_superviso.Graph.Run.{
  Node, guard, load, route, check, ensure, inspect, feedback, verify, approve, merge, cleanup, body,
}
use agent_workflow_superviso.Graph.Sanctions.{SameApproval}
use agent_workflow_superviso.Graph.Sanctions.Nodes.{
  guard-Same, load-Same, route-Same, check-Same, feedback-Same, verify-Same, merge-Same,
  cleanup-Same,
}
use agent_workflow_superviso.Graph.Sanctions.Inspection.{inspect-Keeps}
use agent_workflow_superviso.Graph.Sanctions.Acquisition.{ensure-Same}

module _ {E : Type 0} (deps : SupervisorDependencies E) where
  body-Same :
      (n : Node) (s : SupervisorState) → n ≢ approve → Yields (SameApproval s) (body deps n s)
  unfolding body
  body-Same guard s h = guard-Same deps s
  body-Same load s h = load-Same deps s
  body-Same route s h = route-Same deps s
  body-Same check s h = check-Same deps s
  body-Same ensure s h = ensure-Same deps s
  body-Same inspect s h = inspect-Keeps deps s
  body-Same feedback s h = feedback-Same deps s
  body-Same verify s h = verify-Same deps s
  body-Same approve s h = absurd (h refl)
  body-Same merge s h = merge-Same deps s
  body-Same cleanup s h = cleanup-Same deps s

  -- A node other than the approval gate, whatever it does and however the runner and the tracker answer,
  -- returns a state with the same recorded approval: the decision, and the change and head it was for.
  pub body-SameApproval :
      (n : Node) (s s' : SupervisorState) (w : World E)
      → n ≢ approve
      → (body deps n s w).0 ≡ ok s'
      → SameApproval s s'
  body-SameApproval n s s' w h returned = (body-Same n s h).at w s' returned
