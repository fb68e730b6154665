-- ===== src/Service/System.antt =====
-- The service with the commands that change its store: `dispatch` and `approve` of cli.py, and the
-- rounds of `serve`.
use agent_workflow_superviso.Prelude.{String, true, false, Option, none, some, List, [], ◌∷◌}
use agent_workflow_superviso.Result.{ok, err}
use agent_workflow_superviso.Config.{AppConfig}
use agent_workflow_superviso.Service.Jobs.{QueuedWork, Jobs, dispatch, approve, initialize}
use agent_workflow_superviso.Service.Outcomes.{mark_notified, record_notification_error}
use agent_workflow_superviso.Service.Reconcile.{GraphRuntime, Resumed, Service, save, reconcile_job}

-- The service and its store beside the decisions that persons have had accepted, the latest first.
pub record System (G : Type 0) : Type 0 where
  pub service : Service G
  pub given : List Resumed

-- What happens to the store: the commands `dispatch` and `approve`, and what the service does.
pub data Action : Type 0 where
  dispatched : String → String → Option String → Action
  decided : String → Resumed → Action
  reconciled : QueuedWork → Action
  runner_waiting : String → String → Action
  notified : String → String → Action
  not_notified : String → String → String → Action
  restarted : Action

unfoldable pub with_jobs : {G : Type 0} → System G → Jobs → System G
with_jobs y jobs = record y { service = record y.service { jobs = jobs } }

module _ {G : Type 0} (config : AppConfig) (runtime : GraphRuntime G) where
  unfoldable pub act : Action → System G → System G
  unfolding with_jobs
  act (dispatched now id origin) y = elim (dispatch now id origin y.service.jobs) [
    | err e ↦ y
    | ok (job, jobs) ↦ with_jobs y jobs
  ]
  act (decided now r) y =
      elim (approve now r.work_item_id r.decision r.change_id r.target_sha y.service.jobs) [
        | err e ↦ y
        | ok (job, jobs) ↦ record (with_jobs y jobs) { given = r ∷ y.given }
      ]
  act (reconciled job) y = record y { service = (reconcile_job config runtime job y.service).1 }
  act (runner_waiting id error) y = record y {
    service = (save config runtime id "waiting_for_ao" true (some error) false none y.service).1;
  }
  act (notified id key) y = with_jobs y (mark_notified id key y.service.jobs)
  act (not_notified id key error) y =
      with_jobs y (record_notification_error id key error y.service.jobs)
  act restarted y = with_jobs y (initialize y.service.jobs)

  unfoldable pub act_all : List Action → System G → System G
  act_all [] y = y
  act_all (a ∷ rest) y = act_all rest (act a y)

-- A new installation.
unfoldable pub new_system : {G : Type 0} → G → System G
new_system g = record { service = record { jobs = []; graphs = g; resumed = [] }; given = [] }
