-- ===== src/Tests/Notices.antt =====
-- One notice, for the orchestrator that dispatched the work item.
use agent_workflow_superviso.Exec.{case_option}
use agent_workflow_superviso.Exec.{except}
use agent_workflow_superviso.Exec.{for_each}
use agent_workflow_superviso.Exec.{◌>>=◌ as ◌>>=◌}
use agent_workflow_superviso.Models.{active}
use agent_workflow_superviso.Service.Notices.{ask}
use agent_workflow_superviso.Service.Notices.{change_jobs}
use agent_workflow_superviso.Service.Notices.{deliver}
use agent_workflow_superviso.Service.Notices.{deliver_one}
use agent_workflow_superviso.Service.Notices.{is_bound_to}
use agent_workflow_superviso.Service.Notices.{log_sent}
use agent_workflow_superviso.Service.Notices.{notification_message}
use agent_workflow_superviso.Service.Notices.{notification_target}
use agent_workflow_superviso.Service.Notices.{notify}
use agent_workflow_superviso.Prelude.{ℕ, true, false, none, some, List, [], ◌∷◌, ◌≡◌, ◌⊎◌, refl}
use agent_workflow_superviso.Prelude.{any, all, option_eq, string_eq}
use agent_workflow_superviso.Prelude.Members.{Member, here}
use agent_workflow_superviso.Result.{ok, err, external}
use agent_workflow_superviso.Models.{AgentSession}
use agent_workflow_superviso.Exec.{gets}
use agent_workflow_superviso.Service.Jobs.{QueuedWork}
use agent_workflow_superviso.Service.Outcomes.{pending_notifications}
use agent_workflow_superviso.Service.Notices.{
  Messenger, Message, Desk, deliver_pending_notifications,
}
use agent_workflow_superviso.Service.Delivery.{is_proper, unsettled, deliver-settles}
use agent_workflow_superviso.Service.Targets.{IsNotice, sent-IsNotice}

abbrev orchestrator : AgentSession
orchestrator = record {
  id = "o1";
  role = "orchestrator";
  status = "working";
  harness = "codex";
  terminated = false;
  work_item_id = none;
  project_id = some "p";
  display_name = "";
  created_at = "";
  updated_at = "";
  last_activity_at = "";
}

abbrev messenger : Messenger ℕ
messenger = record {
  get_session = λ id e. (ok (some orchestrator), e);
  list_sessions = λ project e. (err external, e);
  send = λ target text e. (ok true, e);
  describe = λ e. "error";
}

abbrev done : QueuedWork
done = record {
  work_item_id = "7";
  active = false;
  status = "completed";
  approval = none;
  approval_change_id = none;
  approval_target_sha = none;
  last_error = none;
  origin_session_id = some "o1";
  notification_key = some "completed";
  notified_key = none;
  notification_error = none;
  created_at = "t";
  updated_at = "t";
}

abbrev desk : Desk ℕ
desk = record { jobs = done ∷ []; env = 0; sent = [] }

abbrev after : Desk ℕ
after = (deliver_pending_notifications messenger "p" true desk).1

deliver-settles_example :
    ((units : List (Unit {0})) × ((deliver_pending_notifications messenger "p" true desk).0
        ≡ ok units))
    × (any unsettled after.jobs ≡ false)
unfolding all is_proper string_eq option_eq
deliver-settles_example = deliver-settles messenger "p" desk refl

abbrev told : Message
told = record {
  target = "o1";
  text =
      "Durable supervisor update for work item #7: the workflow completed successfully. Run `oa status --project p --work-item 7` and summarize the final delivery for the user, including the pull request and merge result. Do not redispatch it.";
}

sent-IsNotice_example : Member told desk.sent ⊎ IsNotice messenger "p" desk.jobs told
unfolding deliver_pending_notifications gets string_eq option_eq ◌>>=◌ for_each
    pending_notifications deliver_one deliver except notify notification_target ask case_option
    is_bound_to active log_sent change_jobs notification_message
sent-IsNotice_example = sent-IsNotice messenger "p" true desk told here
