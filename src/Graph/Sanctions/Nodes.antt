-- ===== src/Graph/Sanctions/Nodes.antt =====
-- graph.py: the nodes that route, verify, merge and clean up keep the recorded approval.
use agent_workflow_superviso.Prelude.{
  String, Bool, true, false, Option, none, some, refl, arith, List,
}
use agent_workflow_superviso.Prelude.{if◌then◌else◌, string_eq, option_eq}
use agent_workflow_superviso.Models.{ChangeRequest, WorkItem, AgentSession, ReviewResult}
use agent_workflow_superviso.Policy.{ModelSelection}
use agent_workflow_superviso.Graph.Review.{deliver_feedback, return_review_feedback}
use agent_workflow_superviso.Exec.Yields.{
  Yields, Yields-pure, Yields-if, Yields-bind, Yields-case_option, Yields-case_list,
}
use agent_workflow_superviso.Graph.State.{Status, SupervisorState, event}
use agent_workflow_superviso.Graph.World.{SupervisorDependencies}
use agent_workflow_superviso.Graph.Routing.{
  guard_existing_state, load_work_item, select_route, routed_state, check_capacity,
  capacity_checked, worker_found,
}
use agent_workflow_superviso.Graph.Delivery.{
  verify_change, verified_state, merge_change, cleanup_worker,
}
use agent_workflow_superviso.Graph.Sanctions.{SameApproval}

module _ {E : Type 0} (deps : SupervisorDependencies E) (s : SupervisorState) where
  pub guard-Same : Yields (SameApproval s) (guard_existing_state deps s)
  unfolding guard_existing_state event
  guard-Same = search (Yields-pure) depth 12

  pub load-Same : Yields (SameApproval s) (load_work_item deps s)
  unfolding load_work_item event
  load-Same = search (Yields-pure, Yields-bind) depth 12

  routed-Same :
      (item : WorkItem) (selection : ModelSelection)
      → SameApproval s (routed_state deps.config item selection s)
  unfolding routed_state event
  routed-Same item selection = (refl, refl, refl)

  chosen-Same :
      (item : WorkItem) (selection : Option ModelSelection)
      → SameApproval s (elim selection [
        | none ↦ event "policy skipped work item" (record s { status = some Status.skipped })
        | some chosen ↦ routed_state deps.config item chosen s
      ])
  unfolding event
  chosen-Same item none = (refl, refl, refl)
  chosen-Same item (some selection) = routed-Same item selection

  pub route-Same : Yields (SameApproval s) (select_route deps s)
  unfolding select_route
  route-Same =
      Yields-bind _ _
        λ item. Yields-bind _ _ λ selection. Yields-pure _ (chosen-Same item selection)

  found-Same :
      (worker : AgentSession) (harness : String)
      → Yields (SameApproval s) (worker_found deps s worker harness)
  unfolding worker_found event
  found-Same worker harness = search (Yields-pure, Yields-bind) depth 8

  capacity-Same :
      (sessions : List AgentSession) (harness : String)
      → Yields (SameApproval s) (capacity_checked deps s sessions harness)
  unfolding capacity_checked event
  capacity-Same sessions harness =
      search (Yields-pure, Yields-if, Yields-bind, Yields-case_option) depth 10

  pub check-Same : Yields (SameApproval s) (check_capacity deps s)
  unfolding check_capacity
  check-Same = search (Yields-bind, Yields-case_list, found-Same, capacity-Same) depth 10

  sent-Same :
      (delivered : Bool) (a b : SupervisorState)
      → SameApproval s a
      → SameApproval s b
      → SameApproval s (if delivered then a else b)
  sent-Same true a b x y = x
  sent-Same false a b x y = y

  deliver-Same :
      (id : String) (review : ReviewResult)
      → Yields (SameApproval s) (deliver_feedback deps s id review)
  unfolding deliver_feedback event
  deliver-Same id review =
      Yields-bind _ _
        λ delivered. Yields-pure _ (sent-Same delivered _ _ (refl, refl, refl) (refl, refl, refl))

  pub feedback-Same : Yields (SameApproval s) (return_review_feedback deps s)
  unfolding return_review_feedback event
  feedback-Same = search (Yields-pure, Yields-bind, Yields-case_option, deliver-Same) depth 10

  verified-Same : (sha : String) (c : ChangeRequest) → SameApproval s (verified_state s sha c)
  unfolding verified_state event
  verified-Same sha c = (ground arith, ground arith, ground arith)

  pub verify-Same : Yields (SameApproval s) (verify_change deps s)
  unfolding verify_change event
  verify-Same = search (Yields-pure, Yields-if, Yields-bind, verified-Same) depth 12

  pub merge-Same : Yields (SameApproval s) (merge_change deps s)
  unfolding merge_change event
  merge-Same = search (Yields-pure, Yields-if, Yields-bind) depth 12

  pub cleanup-Same : Yields (SameApproval s) (cleanup_worker deps s)
  unfolding cleanup_worker event
  cleanup-Same = search (Yields-pure, Yields-bind) depth 12
