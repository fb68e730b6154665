-- ===== src/Service/Reconcile.antt =====
-- service.py: `reconcile_job` and the rounds of `serve`, over a runtime of graphs.
-- `GraphRuntime` is what `graph_runtime` yields: LangGraph with its checkpoints, and the clock. Each
-- resumption of a gate is written down.
use agent_workflow_superviso.Prelude.{
  String, ◌<>◌, Bool, true, false, not, ◌||◌, Option, none, some, List, ◌∷◌,
}
use agent_workflow_superviso.Prelude.{if◌then◌else◌, ◌==◌, contains, option_eq, string_eq}
use agent_workflow_superviso.Result.{Error, runtime_error, Result, ok, err}
use agent_workflow_superviso.Config.{AppConfig}
use agent_workflow_superviso.Identifiers.{canonical_github_issue_id}
use agent_workflow_superviso.Graph.State.{or_none, truthy_or}
use agent_workflow_superviso.Exec.{Exec, lift, case_option, except}
use agent_workflow_superviso.Exec.{◌>>=◌ as ◌>>=◌, ◌>>◌ as ◌>>◌}
use agent_workflow_superviso.Service.Jobs.{QueuedWork, Jobs, claim_approval, clear_approval}
use agent_workflow_superviso.Service.Outcomes.{update_result, terminal_statuses}

-- What `get_state` tells: whether the gate is among the next nodes, and the values it is bound to.
pub record Snapshot : Type 0 where
  pub at_gate : Bool
  pub change_id : Option String
  pub change_head_sha : Option String

-- What `invoke` returns.
pub record GraphResult : Type 0 where
  pub interrupted : Bool
  pub change_id : Option String
  pub change_head_sha : Option String
  pub status : Option String
  pub last_error : Option String

-- The first argument is the thread's id. A resumption gets the action, an invocation the work item.
pub record GraphRuntime (G : Type 0) : Type 0 where
  pub get_state : String → G → Result Snapshot × G
  pub resume : String → String → G → Result GraphResult × G
  pub invoke : String → String → G → Result GraphResult × G
  pub utc_now : G → String
  pub describe : Error → String

-- A resumed gate: the work item of the job, the decision, and what the gate was bound to.
pub record Resumed : Type 0 where
  pub work_item_id : String
  pub decision : String
  pub change_id : String
  pub target_sha : String

pub record Service (G : Type 0) : Type 0 where
  pub jobs : Jobs
  pub graphs : G
  -- The latest first.
  pub resumed : List Resumed

-- `workflow_thread_id`
unfoldable pub workflow_thread_id : AppConfig → String → Result String
workflow_thread_id config work_item_id =
    elim (canonical_github_issue_id work_item_id config.repository true) [
      | err e ↦ err e
      | ok id ↦ ok (config.project_id <> (":" <> id))
    ]

module _ {G A : Type 0} where
  unfoldable pub graph_call : (G → Result A × G) → Exec (Service G) A
  graph_call f w = let (r, g) = f w.graphs in (r, record w { graphs = g })

module _ {G : Type 0} where
  -- A change of the store, which may raise and then changes nothing.
  unfoldable pub change_jobs :
      (String → Jobs → Result Jobs) → (G → String) → Exec (Service G) (Unit {0})
  change_jobs f now w = elim (f (now w.graphs) w.jobs) [
    | err e ↦ (err e, w)
    | ok jobs ↦ (ok tt, record w { jobs = jobs })
  ]

  unfoldable pub claim : String → String → String → (G → String) → Exec (Service G) (Option String)
  claim id change_id target_sha now w =
      let (decision, jobs) = claim_approval (now w.graphs) id change_id target_sha w.jobs in
      (ok decision, record w { jobs = jobs })

  -- `graph.invoke(Command(resume=…))`
  unfoldable pub resume_graph : GraphRuntime G → String → Resumed → Exec (Service G) GraphResult
  resume_graph runtime thread r w =
      let (result, g) = runtime.resume thread r.decision w.graphs in
      (result, record w { graphs = g; resumed = r ∷ w.resumed })

-- `str(values.get(k) or "")` of both, and `all(gate)`
unfoldable pub gate_of : Option String → Option String → Result (String × String)
unfolding truthy_or
gate_of change_id head_sha =
    let change = truthy_or change_id "" in
    let sha = truthy_or head_sha "" in
    if change == "" || sha == "" then err runtime_error else ok (change, sha)

module _ {G : Type 0} (config : AppConfig) (runtime : GraphRuntime G) where
  unfoldable pub save :
      String
      → String
      → Bool
      → Option String
      → Bool
      → Option (String × String)
      → Exec (Service G) (Unit {0})
  save id status active last_error clears gate =
      change_jobs (λ now. update_result now id status active last_error clears gate) runtime.utc_now

  -- What a run of the graph came to. A published gate starts with no decision.
  unfoldable pub publish : String → GraphResult → Exec (Service G) (Unit {0})
  publish id result =
      if result.interrupted
      then (do
        gate ← lift (gate_of result.change_id result.change_head_sha)
        save id "awaiting_approval" (not (contains terminal_statuses "awaiting_approval"))
            (or_none result.last_error) true (some gate))
      else let status = truthy_or result.status "unknown" in
        save id status (not (contains terminal_statuses status)) (or_none result.last_error) true
          none

  -- The job's graph waits at its gate: a decision for this very gate resumes it.
  unfoldable pub at_gate : String → String → Snapshot → Exec (Service G) (Unit {0})
  at_gate id thread snapshot = do
    gate ← lift (gate_of snapshot.change_id snapshot.change_head_sha)
    decision ← claim id gate.0 gate.1 runtime.utc_now
    case_option decision (save id "awaiting_approval" true none true (some gate)) λ d. do
      result ←
          resume_graph runtime thread
            (record { work_item_id = id; decision = d; change_id = gate.0; target_sha = gate.1 })
      publish id result

  -- The job's graph is elsewhere: what was decided before is dropped, and the graph runs from its start.
  unfoldable pub off_gate : String → String → String → Exec (Service G) (Unit {0})
  off_gate id thread canonical = do
    change_jobs (λ now jobs. ok (clear_approval now id jobs)) runtime.utc_now
    result ← graph_call (runtime.invoke thread canonical)
    publish id result

  unfoldable pub reconcile_attempt : QueuedWork → Exec (Service G) (Unit {0})
  reconcile_attempt job = do
    canonical ← lift (canonical_github_issue_id job.work_item_id config.repository true)
    thread ← lift (workflow_thread_id config canonical)
    snapshot ← graph_call (runtime.get_state thread)
    if snapshot.at_gate
        then at_gate job.work_item_id thread snapshot
        else off_gate job.work_item_id thread canonical

  unfoldable pub reconcile_job : QueuedWork → Exec (Service G) (Unit {0})
  reconcile_job job =
      except (reconcile_attempt job) λ e.
        save job.work_item_id "retrying_after_error" true (some (runtime.describe e)) false none
