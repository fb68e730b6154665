-- ===== src/Graph/Sanctions/Inspection.antt =====
-- graph.py: `inspect_worker` keeps the recorded approval.
use agent_workflow_superviso.Prelude.{String, some, refl, arith}
use agent_workflow_superviso.Prelude.{string_eq, option_eq}
use agent_workflow_superviso.Models.{AgentSession, ReviewResult}
use agent_workflow_superviso.Prelude.{ℕ}
use agent_workflow_superviso.Graph.Watch.{
  inspected, report_state, Watch, watched, stalled, restarted, missing_timed_out, initial_review,
  without_review,
}
use agent_workflow_superviso.Graph.Review.{
  with_review, changes_state, approved_state, review_failed, review_needed, review_expired,
  review_running, watch_review, with_review_record, inspect_active, inspect_worker,
}
use agent_workflow_superviso.Exec.Yields.{
  Yields, Yields-pure, Yields-if, Yields-bind, Yields-case_option,
}
use agent_workflow_superviso.Graph.State.{SupervisorState, event}
use agent_workflow_superviso.Graph.World.{SupervisorDependencies}
use agent_workflow_superviso.Graph.Sanctions.{SameApproval}

module _ {E : Type 0} (deps : SupervisorDependencies E) (s : SupervisorState) where
  abbrev Keeps : SupervisorState → Type 0
  Keeps = SameApproval s

  report-Keeps :
      (worker : AgentSession) (b : SupervisorState) → Keeps b → Keeps (report_state worker b)
  unfolding report_state inspected event
  report-Keeps worker b (x, y, z) = (ground arith, ground arith, ground arith)

  changes-Keeps :
      (s' : SupervisorState) (worker : AgentSession) (review : ReviewResult) (b : SupervisorState)
      → Keeps b
      → Keeps (changes_state s' worker review b)
  unfolding changes_state inspected event
  changes-Keeps s' worker review b (x, y, z) = (ground arith, ground arith, ground arith)

  approved-Keeps :
      (worker : AgentSession) (review : ReviewResult) (id : String) (b : SupervisorState)
      → Keeps b
      → Keeps (approved_state worker review id b)
  unfolding approved_state inspected event
  approved-Keeps worker review id b (x, y, z) = (ground arith, ground arith, ground arith)

  restarted-Keeps :
      (worker : AgentSession) (key : String) (attempts : ℕ) (kind : String) (b : SupervisorState)
      → Keeps b
      → Yields Keeps (restarted deps worker key attempts kind b)
  unfolding restarted event watched
  restarted-Keeps worker key attempts kind b k = search (Yields-pure, Yields-bind, k) depth 10

  missing-Keeps :
      (worker : AgentSession) (key : String) (attempts : ℕ) (b : SupervisorState)
      → Keeps b
      → Yields Keeps (missing_timed_out deps worker key attempts b)
  unfolding missing_timed_out event stalled
  missing-Keeps worker key attempts b k =
      search (Yields-pure, Yields-if, Yields-bind, restarted-Keeps, k) depth 10

  initial-Keeps :
      (worker : AgentSession) (b : SupervisorState)
      → Keeps b
      → Yields Keeps (initial_review deps worker b)
  unfolding initial_review event watched
  initial-Keeps worker b k = search (Yields-pure, Yields-bind, k) depth 10

  without-Keeps :
      (worker : AgentSession) (b : SupervisorState)
      → Keeps b
      → Yields Keeps (without_review deps worker b)
  unfolding without_review inspected event
  without-Keeps worker b k =
      search (Yields-pure, Yields-if, Yields-bind, initial-Keeps, missing-Keeps, k) depth 12

  failed-Keeps :
      (worker : AgentSession) (review : ReviewResult) (key : String) (watch : Watch)
      (b : SupervisorState)
      → Keeps b
      → Yields Keeps (review_failed deps worker review key watch b)
  unfolding review_failed event watched stalled
  failed-Keeps worker review key watch b k =
      search (Yields-pure, Yields-if, Yields-bind, restarted-Keeps, k) depth 10

  needed-Keeps :
      (worker : AgentSession) (key : String) (b : SupervisorState)
      → Keeps b
      → Yields Keeps (review_needed deps worker key b)
  unfolding review_needed event watched
  needed-Keeps worker key b k = search (Yields-pure, Yields-bind, k) depth 10

  running-Keeps :
      (worker : AgentSession) (review : ReviewResult) (key : String) (watch : Watch)
      (b : SupervisorState)
      → Keeps b
      → Yields Keeps (review_running deps worker review key watch b)
  unfolding review_running review_expired event watched inspected stalled
  running-Keeps worker review key watch b k =
      search (Yields-pure, Yields-if, Yields-bind, restarted-Keeps, k) depth 14

  watch-Keeps :
      (s' : SupervisorState) (worker : AgentSession) (review : ReviewResult) (b : SupervisorState)
      → Keeps b
      → Yields Keeps (watch_review deps s' worker review b)
  unfolding watch_review
  watch-Keeps s' worker review b k =
      search (Yields-if, Yields-bind, failed-Keeps, needed-Keeps, running-Keeps, k) depth 12

  record-Keeps :
      (s' : SupervisorState) (worker : AgentSession) (review : ReviewResult) (b : SupervisorState)
      → Keeps b
      → Yields Keeps (with_review_record deps s' worker review b)
  unfolding with_review_record
  record-Keeps s' worker review b k =
      search
        (Yields-pure, Yields-if, Yields-case_option, changes-Keeps, approved-Keeps, watch-Keeps, k)
        depth 10

  active-Keeps : (worker : AgentSession) → Yields Keeps (inspect_active deps s worker)
  unfolding inspect_active with_review
  active-Keeps worker =
      let reported =
        report-Keeps worker (record s { worker_status = some worker.status }) (refl, refl, refl) in
      search
        (
          Yields-pure, Yields-if, Yields-bind, Yields-case_option, without-Keeps, record-Keeps,
          reported,
        )
        depth 12

  pub inspect-Keeps : Yields Keeps (inspect_worker deps s)
  unfolding inspect_worker event
  inspect-Keeps = search (Yields-pure, Yields-bind, Yields-case_option, active-Keeps) depth 10
