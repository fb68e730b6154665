-- ===== src/Tests/Relay.antt =====
-- The relay on one worker that comes to rest, and the orchestrator of its project.
use agent_workflow_superviso.Prelude.{List, nat_eq}
use agent_workflow_superviso.Relay.Messages.{is_orchestrator_of}
use agent_workflow_superviso.Prelude.{ℕ, String, true, false, none, some, [], ◌∷◌, ◌≡◌, ◌⊎◌, refl}
use agent_workflow_superviso.Prelude.{any, select, option_eq, string_eq, nat_eq}
use agent_workflow_superviso.Prelude.Text.{str}
use agent_workflow_superviso.Prelude.Members.{Member, here}
use agent_workflow_superviso.Result.{ok}
use agent_workflow_superviso.Models.{AgentSession}
use agent_workflow_superviso.Relay.Store
use agent_workflow_superviso.Exec.{for_each, case_option, gets, except, ◌>>=◌ as ◌>>=◌}
use agent_workflow_superviso.Relay.Store.{
  open_workers, pending_notifications, RelayWorker, Workers, observe, mark_notified,
}
use agent_workflow_superviso.Relay.Messages.{
  is_terminal, latest_provider_report, notification_key, message, header,
}
use agent_workflow_superviso.Relay.Rounds.{
  RelayRunner, Sent, Relay, ask, survey, deliver_all, discover, watch, session_of, watch_session,
  rebind, last_messages, needs_messages, change, note_unbound, deliver, tell, delivery_target,
  log_sent, reconcile_locked,
}
use agent_workflow_superviso.Relay.Repeats.{status_of, repeats, told_once}
use agent_workflow_superviso.Relay.Targets.{IsRelayed, sent-IsRelayed}

abbrev session : String → String → String → AgentSession
session id role status = record {
  id = id;
  role = role;
  status = status;
  harness = "codex";
  terminated = false;
  work_item_id = none;
  project_id = some "p";
  display_name = "";
  created_at = "c";
  updated_at = "";
  last_activity_at = "a";
}

abbrev tracked : RelayWorker
tracked = record {
  worker_id = "w";
  project_id = "p";
  orchestrator_id = some "o";
  binding_source = some "unique_project_orchestrator";
  last_status = "working";
  seen_active = true;
  last_message_sequence = 0;
  notification_key = none;
  notified_key = none;
  notification_error = none;
  created_at = "c";
  updated_at = "c";
}

told_once_example :
    any (repeats (session "w" "worker" "idle") 3) (
      mark_notified "u" "w" "idle:3:a" 3 (
        observe "t" "w"
          (status_of (session "w" "worker" "idle"))
          true
          (some "idle:3:a")
          (tracked ∷ [])))
    ≡ false
unfolding notification_key is_terminal string_eq option_eq str nat_eq
told_once_example =
    told_once "t" "u" (session "w" "worker" "idle") tracked 3 true "idle:3:a" refl (tracked ∷ [])

abbrev runner : RelayRunner ℕ
runner = record {
  list_active_sessions =
      λ e. (ok (session "w" "worker" "idle" ∷ session "o" "orchestrator" "working" ∷ []), e);
  get_session = λ id e. (ok (some (session "w" "worker" "idle")), e);
  conversation_messages = λ id e. (ok [], e);
  send = λ target text e. (ok true, e);
  utc_now = λ e. "t";
  parse_time = λ text. none;
  describe = λ e. "error";
}

abbrev relay : Relay ℕ
relay = record { workers = tracked ∷ []; env = 0; sent = [] }

abbrev told : Sent
told = record {
  target = "o";
  text =
      "Automatic native AO worker update (read-only): worker w (w) is now `idle`. No structured final response is available from this session mode. Inspect the worker panel and external artifacts before taking action.";
}

sent-IsRelayed_example :
    Member told relay.sent
    ⊎ ((sessions : List AgentSession) × ((runner.list_active_sessions relay.env).0 ≡ ok sessions)
        × IsRelayed runner sessions
            (pending_notifications
              (survey runner 0 sessions
                (record relay { env = (runner.list_active_sessions relay.env).1 })).1.workers)
            told)
unfolding reconcile_locked ◌>>=◌ ask survey deliver_all for_each select string_eq option_eq discover
    case_option Store.get open_workers watch session_of watch_session rebind last_messages
    needs_messages change gets latest_provider_report notification_key is_terminal str observe
    note_unbound pending_notifications deliver tell delivery_target any log_sent message header
    except nat_eq is_orchestrator_of
sent-IsRelayed_example = sent-IsRelayed runner 0 relay told here
