-- ===== src/Graph/Run.antt =====
-- graph.py: the edges of the graph, and a run along them.
-- LangGraph runs one node at a time, merges what it returns into the state, and follows the edge. The
-- state that it has checkpointed stands beside an exception or an interrupt, with the node to repeat.
use agent_workflow_superviso.Prelude.{ℕ, zero, suc, Option, none, some}
use agent_workflow_superviso.Result.{Error, interrupted, Result, ok, err}
use agent_workflow_superviso.Exec.{Exec}
use agent_workflow_superviso.Graph.State.{Status, SupervisorState}
use agent_workflow_superviso.Graph.World.{SupervisorDependencies, World}
use agent_workflow_superviso.Graph.Routing.{
  guard_existing_state, load_work_item, select_route, check_capacity,
}
use agent_workflow_superviso.Graph.Acquire.{ensure_worker}
use agent_workflow_superviso.Graph.Review.{inspect_worker, return_review_feedback}
use agent_workflow_superviso.Graph.Delivery.{
  verify_change, approval_gate, merge_change, cleanup_worker,
}

pub data Node : Type 0 where
  guard load route check ensure inspect feedback verify approve merge cleanup : Node

unfoldable pub body :
    {E : Type 0}
    → SupervisorDependencies E
    → Node
    → SupervisorState
    → Exec (World E) SupervisorState
body deps guard = guard_existing_state deps
body deps load = load_work_item deps
body deps route = select_route deps
body deps check = check_capacity deps
body deps ensure = ensure_worker deps
body deps inspect = inspect_worker deps
body deps feedback = return_review_feedback deps
body deps verify = verify_change deps
body deps approve = approval_gate deps
body deps merge = merge_change deps
body deps cleanup = cleanup_worker deps

after_guard : Option Status → Option Node
after_guard (some Status.merged) = some cleanup
after_guard (some Status.completed) = none
after_guard (some Status.approval_rejected) = none
after_guard _ = some load

after_route : Option Status → Option Node
after_route (some Status.skipped) = none
after_route _ = some check

after_check : Option Status → Option Node
after_check (some Status.worker_candidate) = some ensure
after_check (some Status.capacity_available) = some ensure
after_check _ = none

after_ensure : Option Status → Option Node
after_ensure (some Status.worker_running) = some inspect
after_ensure _ = none

after_inspect : Option Status → Option Node
after_inspect (some Status.report_completed) = some cleanup
after_inspect (some Status.changes_requested) = some feedback
after_inspect (some Status.review_approved) = some verify
after_inspect _ = none

after_verify : Option Status → Option Node
after_verify (some Status.awaiting_approval) = some approve
after_verify (some Status.ready_to_merge) = some merge
after_verify _ = none

after_approve : Option Status → Option Node
after_approve (some Status.approval_recorded) = some verify
after_approve _ = none

after_merge : Option Status → Option Node
after_merge (some Status.merged) = some cleanup
after_merge _ = none

-- The edge that leaves a node, by the status that the node has written; `none` is END.
unfoldable pub next : Node → Option Status → Option Node
unfolding after_guard after_route after_check after_ensure after_inspect after_verify after_approve
    after_merge
next guard = after_guard
next load = λ _. some route
next route = after_route
next check = after_check
next ensure = after_ensure
next inspect = after_inspect
next feedback = λ _. none
next verify = after_verify
next approve = after_approve
next merge = after_merge
next cleanup = λ _. none

-- How a run ends: at END, at an interrupt, by an exception, or for want of fuel.
pub data Outcome : Type 0 where
  finished paused : SupervisorState → Outcome
  failed : Error → Node → SupervisorState → Outcome
  out_of_fuel : Outcome

-- Where a node's result leads.
pub data Move : Type 0 where
  halt : Outcome → Move
  go_to : Node → SupervisorState → Move

unfoldable pub move : Node → SupervisorState → Result SupervisorState → Move
move n s (err interrupted) = halt (paused s)
move n s (err e) = halt (failed e n s)
move n s (ok s') = elim (next n s'.status) [ none ↦ halt (finished s') | some m ↦ go_to m s' ]

module _ {E : Type 0} where
  unfoldable pub follow :
      (Node → SupervisorState → World E → Outcome × World E) → Move → World E → Outcome × World E
  follow rest (halt o) w = (o, w)
  follow rest (go_to n s) w = rest n s w

module _ {E : Type 0} (deps : SupervisorDependencies E) where
  unfoldable pub run : ℕ → Node → SupervisorState → World E → Outcome × World E
  run zero n s w = (out_of_fuel, w)
  run (suc fuel) n s w = let (r, w') = body deps n s w in follow (run fuel) (move n s r) w'

-- The longest path visits ten nodes, and an answered interrupt repeats two.
abbrev pub enough_fuel : ℕ
enough_fuel = 13

-- `graph.invoke` on a thread at rest: the run starts at the edge from START.
unfoldable pub invoke :
    {E : Type 0} → SupervisorDependencies E → SupervisorState → World E → Outcome × World E
invoke deps = run deps enough_fuel guard

-- `Command(resume=…)` on a thread paused at its gate: the interrupted node is run again.
unfoldable pub resume_gate :
    {E : Type 0} → SupervisorDependencies E → SupervisorState → World E → Outcome × World E
resume_gate deps = run deps enough_fuel approve
