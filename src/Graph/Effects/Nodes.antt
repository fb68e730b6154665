-- ===== src/Graph/Effects/Nodes.antt =====
-- What the nodes but `ensure_worker` may do to the world, for any relation between the world before and after: one lemma for
-- each part of the graph, from a rule for each primitive action.
use agent_workflow_superviso.Prelude.{ℕ, ◌≡◌, false, String, List}
use agent_workflow_superviso.Result.{Result}
use agent_workflow_superviso.Models.{AgentSession, ReviewResult, ChangeRequest}
use agent_workflow_superviso.Locking.{Files}
use agent_workflow_superviso.Exec.{Exec}
use agent_workflow_superviso.Exec.Relates.{IsPreorder, Relates, relates_rules}
use agent_workflow_superviso.Graph.State.{SupervisorState}
use agent_workflow_superviso.Graph.World.{
  SupervisorDependencies, Lock, Call, World, perform, call, from_files, with_lock, set_files,
  read_clock,
}
use agent_workflow_superviso.Graph.Routing.{
  all_sessions, guard_existing_state, load_work_item, select_route, worker_found, capacity_checked,
  check_capacity,
}
use agent_workflow_superviso.Graph.Watch.{
  Watch, iso_now, or_now, review_timed_out, unless_shadow, trigger_review, restarted,
  missing_timed_out, initial_review, without_review,
}
use agent_workflow_superviso.Graph.Review.{
  review_failed, review_needed, review_running, review_expired, refreshed, adopted, watch_review,
  with_review_record, inspect_active, inspect_worker, send_feedback, deliver_feedback,
  return_review_feedback,
}
use agent_workflow_superviso.Graph.Delivery.{
  interrupt, verify_change, approval_gate, merge_change, cleanup_locked, cleanup_worker,
}
use agent_workflow_superviso.Graph.Effects.Calls.{IsRead, IsChange}

module _ {E : Type 0} (deps : SupervisorDependencies E) (R : World E → World E → Type 0)
    (order : IsPreorder R)
    (on_read : (A : Type 0) (c : Call) (f : E → Result A × E) → IsRead c → Relates R (call c f))
    (on_change : (A : Type 0) (c : Call) (f : E → Result A × E)
      → IsChange c
      → deps.config.supervisor.shadow_mode ≡ false
      → Relates R (call c f))
    (on_get_change : (id : String) (f : E → Result ChangeRequest × E)
      → Relates R (perform (Call.get_change id) f))
    (on_files : (files : Files) → Relates R (set_files files))
    (on_clock : (f : E → ℕ × E) → Relates R (read_clock f))
    (on_lock : (A : Type 0) (l : Lock) (m : Exec (World E) A)
      → Relates R m
      → Relates R (with_lock l m))
    (on_interrupt : Relates R interrupt) where
  Relates-from_files : (A : Type 0) (f : Files → Result A) → Relates R (from_files f)
  unfolding from_files
  Relates-from_files A f = record { at = order.same }

  all_sessions-Relates : (ids : List String) → Relates R (all_sessions deps ids)
  unfolding all_sessions
  all_sessions-Relates ids = search (relates_rules) depth 8

  -- The nodes before the worker.
  pub guard-Relates : (s : SupervisorState) → Relates R (guard_existing_state deps s)
  unfolding guard_existing_state
  guard-Relates s = search (relates_rules) depth 8

  pub load-Relates : (s : SupervisorState) → Relates R (load_work_item deps s)
  unfolding load_work_item
  load-Relates s = search (relates_rules) depth 12

  pub route-Relates : (s : SupervisorState) → Relates R (select_route deps s)
  unfolding select_route
  route-Relates s = search (relates_rules) depth 12

  pub check-Relates : (s : SupervisorState) → Relates R (check_capacity deps s)
  unfolding check_capacity worker_found capacity_checked
  check-Relates s = search (relates_rules, all_sessions-Relates) depth 14

  -- The nodes behind the review.
  pub verify-Relates : (s : SupervisorState) → Relates R (verify_change deps s)
  unfolding verify_change
  verify-Relates s = search (relates_rules) depth 12

  pub approve-Relates : (s : SupervisorState) → Relates R (approval_gate deps s)
  unfolding approval_gate
  approve-Relates s = search (relates_rules) depth 14

  pub cleanup-Relates : (s : SupervisorState) → Relates R (cleanup_worker deps s)
  unfolding cleanup_worker cleanup_locked
  cleanup-Relates s = search (relates_rules, Relates-from_files) depth 14

  -- The watchdog and the review.
  iso_now-Relates : Relates R (iso_now deps)
  unfolding iso_now
  iso_now-Relates = search (relates_rules) depth 8

  or_now-Relates : (t : String) → Relates R (or_now deps t)
  unfolding or_now
  or_now-Relates t = search (relates_rules, iso_now-Relates) depth 8

  timed_out-Relates : (t : String) → Relates R (review_timed_out deps t)
  unfolding review_timed_out
  timed_out-Relates t = search (relates_rules) depth 10

  trigger_review-Relates :
      (id : String)
      → deps.config.supervisor.shadow_mode ≡ false
      → Relates R (trigger_review deps id)
  unfolding trigger_review
  trigger_review-Relates id live = search (relates_rules) depth 8

  restarted-Relates :
      (worker : AgentSession) (key : String) (n : ℕ) (kind : String) (s : SupervisorState)
      → deps.config.supervisor.shadow_mode ≡ false
      → Relates R (restarted deps worker key n kind s)
  unfolding restarted
  restarted-Relates worker key n kind s live =
      search (relates_rules, trigger_review-Relates, iso_now-Relates) depth 10

  missing-Relates :
      (worker : AgentSession) (key : String) (n : ℕ) (s : SupervisorState)
      → Relates R (missing_timed_out deps worker key n s)
  unfolding missing_timed_out
  missing-Relates worker key n s =
      search (relates_rules, restarted-Relates, iso_now-Relates) depth 10

  initial-Relates :
      (worker : AgentSession) (s : SupervisorState) → Relates R (initial_review deps worker s)
  unfolding initial_review unless_shadow
  initial-Relates worker s =
      search (relates_rules, trigger_review-Relates, iso_now-Relates) depth 10

  without_review-Relates :
      (worker : AgentSession) (s : SupervisorState) → Relates R (without_review deps worker s)
  unfolding without_review
  without_review-Relates worker s =
      search (relates_rules, initial-Relates, missing-Relates, timed_out-Relates) depth 12

  failed-Relates :
      (worker : AgentSession) (review : ReviewResult) (key : String) (watch : Watch)
      (s : SupervisorState)
      → Relates R (review_failed deps worker review key watch s)
  unfolding review_failed
  failed-Relates worker review key watch s =
      search (relates_rules, or_now-Relates, restarted-Relates) depth 12

  needed-Relates :
      (worker : AgentSession) (key : String) (s : SupervisorState)
      → Relates R (review_needed deps worker key s)
  unfolding review_needed unless_shadow
  needed-Relates worker key s =
      search (relates_rules, trigger_review-Relates, iso_now-Relates) depth 12

  running-Relates :
      (worker : AgentSession) (review : ReviewResult) (key : String) (watch : Watch)
      (s : SupervisorState)
      → Relates R (review_running deps worker review key watch s)
  unfolding review_running review_expired
  running-Relates worker review key watch s =
      search (relates_rules, timed_out-Relates, restarted-Relates) depth 14

  watch-Relates :
      (s : SupervisorState) (worker : AgentSession) (review : ReviewResult) (base : SupervisorState)
      → Relates R (watch_review deps s worker review base)
  unfolding watch_review refreshed adopted
  watch-Relates s worker review base =
      search (relates_rules, failed-Relates, needed-Relates, running-Relates, or_now-Relates) depth
        14

  pub inspect-Relates : (s : SupervisorState) → Relates R (inspect_worker deps s)
  unfolding inspect_worker inspect_active with_review_record
  inspect-Relates s = search (relates_rules, watch-Relates, without_review-Relates) depth 14

  pub feedback-Relates : (s : SupervisorState) → Relates R (return_review_feedback deps s)
  unfolding return_review_feedback deliver_feedback send_feedback
  feedback-Relates s = search (relates_rules) depth 14

module _ {E : Type 0} (deps : SupervisorDependencies E) (R : World E → World E → Type 0)
    (order : IsPreorder R)
    (on_merge : (A : Type 0) (id sha : String) (f : E → Result A × E)
      → deps.config.supervisor.shadow_mode ≡ false
      → Relates R (call (Call.merge_change id sha) f)) where
  pub merge-Relates : (s : SupervisorState) → Relates R (merge_change deps s)
  unfolding merge_change
  merge-Relates s = search (relates_rules) depth 12
