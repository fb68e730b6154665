-- ===== src/Service/Notices.antt =====
-- service.py: `_notification_message`, `_notification_target` and `deliver_pending_notifications`.
-- `Messenger` is what the code uses of AoRunner, which runs the command `ao`; its calls may raise. Each
-- message that was sent is written down.
use agent_workflow_superviso.Prelude.{String, ◌<>◌, Bool, ◌&&◌, Option, none, some, List, [], ◌∷◌}
use agent_workflow_superviso.Prelude.{if◌then◌else◌, ◌==◌, contains, select, option_eq, string_eq}
use agent_workflow_superviso.Result.{Error, runtime_error, assertion_error, Result, ok, or_raise}
use agent_workflow_superviso.Models.{AgentSession, active}
use agent_workflow_superviso.Exec.{
  Exec, pure, lift, gets, raise, case_option, case_one, except, for_each,
}
use agent_workflow_superviso.Exec.{◌>>=◌ as ◌>>=◌, ◌>>◌ as ◌>>◌}
use agent_workflow_superviso.Service.Jobs.{QueuedWork, Jobs}
use agent_workflow_superviso.Service.Outcomes.{
  pending_notifications, mark_notified, record_notification_error,
}

-- `describe` gives `f"{type(error).__name__}: {error}"`.
pub record Messenger (E : Type 0) : Type 0 where
  pub get_session : String → E → Result (Option AgentSession) × E
  pub list_sessions : String → E → Result (List AgentSession) × E
  pub send : String → String → E → Result Bool × E
  pub describe : Error → String

pub record Message : Type 0 where
  pub target : String
  pub text : String

pub record Desk (E : Type 0) : Type 0 where
  pub jobs : Jobs
  pub env : E
  -- The latest first.
  pub sent : List Message

unfoldable pub orchestrates : AgentSession → Bool
orchestrates s = active s && s.role == "orchestrator"

unfoldable pub is_bound_to : String → AgentSession → Bool
unfolding orchestrates
is_bound_to project s = orchestrates s && contains (none ∷ some project ∷ []) s.project_id

-- `f"{o}"` of an optional text
unfoldable pub formatted : Option String → String
formatted none = "None"
formatted (some s) = s

-- `f" Error: {job.last_error}" if job.last_error else ""`
unfoldable pub error_detail : Option String → String
error_detail none = ""
error_detail (some e) = if e == "" then "" else " Error: " <> e

-- `_notification_message`
unfoldable pub notification_message : String → QueuedWork → String
unfolding formatted error_detail
notification_message project job =
    let about =
      "Durable supervisor update for work item #" <> (job.work_item_id <> ": the workflow ") in
    let status_command =
      "oa status --project " <> (project <> (" --work-item " <> job.work_item_id)) in
    if job.status == "awaiting_approval"
    then about
      <> ("is waiting for approval of change #"
          <> (formatted job.approval_change_id
              <> (" at head "
                  <> (formatted job.approval_target_sha
                      <> (". Inform the user and ask them to explicitly approve or reject this exact gate. Run `"
                          <> (status_command
                              <> "` first if you need the current details. Do not approve, reject, or redispatch on the user's behalf."))))))
    else if job.status == "completed"
    then about
      <> ("completed successfully. Run `"
          <> (status_command
              <> "` and summarize the final delivery for the user, including the pull request and merge result. Do not redispatch it."))
    else if contains ("approval_rejected" ∷ "skipped" ∷ []) job.status
    then about
      <> ("ended with status `"
          <> (job.status
              <> ("`. Run `"
                  <> (status_command
                      <> "` and summarize the outcome for the user. Do not redispatch it unless the user explicitly asks."))))
    else about
      <> ("needs attention at status `"
          <> (job.status
              <> ("`."
                  <> (error_detail job.last_error
                      <> (" Run `"
                          <> (status_command
                              <> "` and explain the blocker and safest next action to the user. Do not mutate or redispatch anything without explicit authorization."))))))

module _ {E : Type 0} where
  unfoldable pub ask : {A : Type 0} → (E → Result A × E) → Exec (Desk E) A
  ask f d = let (r, e) = f d.env in (r, record d { env = e })

  unfoldable pub change_jobs : (Jobs → Jobs) → Exec (Desk E) (Unit {0})
  change_jobs f d = (ok tt, record d { jobs = f d.jobs })

  unfoldable pub log_sent : Message → Exec (Desk E) (Unit {0})
  log_sent m d = (ok tt, record d { sent = m ∷ d.sent })

module _ {E : Type 0} (messenger : Messenger E) (project : String) where
  -- The second half: the only active orchestrator of the project.
  unfoldable pub only_orchestrator : List AgentSession → Exec (Desk E) String
  only_orchestrator sessions =
      case_one (select orchestrates sessions) (λ s. pure s.id) (raise runtime_error)

  unfoldable pub replacement : Exec (Desk E) String
  replacement = do sessions ← ask (messenger.list_sessions project); only_orchestrator sessions

  -- `_notification_target`
  unfoldable pub notification_target : String → Exec (Desk E) String
  notification_target preferred_id = do
    preferred ← ask (messenger.get_session preferred_id)
    case_option preferred replacement λ s. if is_bound_to project s then pure s.id else replacement

  unfoldable pub notify : QueuedWork → String → Exec (Desk E) (Unit {0})
  notify job origin = do
    target ← notification_target origin
    let text = notification_message project job
    ask (messenger.send target text)
    log_sent (record { target = target; text = text })

  -- The `try` of the loop's body.
  unfoldable pub deliver : QueuedWork → String → String → Exec (Desk E) (Unit {0})
  deliver job origin key =
      except (notify job origin >> change_jobs (mark_notified job.work_item_id key))
        λ e. change_jobs (record_notification_error job.work_item_id key (messenger.describe e))

  unfoldable pub deliver_one : QueuedWork → Exec (Desk E) (Unit {0})
  deliver_one job = do
    origin ← lift (or_raise job.origin_session_id assertion_error)
    key ← lift (or_raise job.notification_key assertion_error)
    deliver job origin key

  -- `deliver_pending_notifications`, where the runner is AO; another runner has no notices.
  unfoldable pub deliver_pending_notifications : Bool → Exec (Desk E) (List (Unit {0}))
  deliver_pending_notifications is_ao =
      if is_ao
      then (do pending ← gets (λ d. pending_notifications d.jobs); for_each deliver_one pending)
      else pure []
