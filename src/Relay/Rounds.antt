-- ===== src/Relay/Rounds.antt =====
-- ao_relay.py: `_delivery_target` and `_reconcile_locked`, which runs under the relay's lock.
-- `RelayRunner` is what the code uses of AoRunner, which runs the command `ao`, and the clock; its calls
-- may raise. Each message that was sent is written down.
use agent_workflow_superviso.Prelude.{
  ℕ, ◌+◌, String, Bool, true, false, not, ◌&&◌, ◌||◌, Option, none, some, List, [], ◌∷◌,
}
use agent_workflow_superviso.Prelude.{
  if◌then◌else◌, ◌==◌, ◌<>◌, contains, select, any, leb, nonempty, option_eq, string_eq,
}
use agent_workflow_superviso.Prelude.Text.{str}
use agent_workflow_superviso.Result.{Error, runtime_error, assertion_error, Result, ok, or_raise}
use agent_workflow_superviso.Models.{AgentSession}
use agent_workflow_superviso.Exec.{
  Exec, pure, lift, gets, raise, case_option, case_one, except, for_each,
}
use agent_workflow_superviso.Exec.{◌>>=◌ as ◌>>=◌, ◌>>◌ as ◌>>◌}
use agent_workflow_superviso.Graph.State.{or_default}
use agent_workflow_superviso.Relay.Store.{
  active_states, attention_states, RelayWorker, Workers, get, open_workers, pending_notifications,
  insert_worker, bind, observe, mark_notified, record_error,
}
use agent_workflow_superviso.Relay.Messages.{
  Message, latest_provider_report, resolve_orchestrator, is_terminal, notification_key,
  is_orchestrator_of, message,
}

pub record RelayRunner (E : Type 0) : Type 0 where
  pub list_active_sessions : E → Result (List AgentSession) × E
  pub get_session : String → E → Result (Option AgentSession) × E
  pub conversation_messages : String → E → Result (List Message) × E
  pub send : String → String → E → Result Bool × E
  pub utc_now : E → String
  -- `_parse_time`, in microseconds
  pub parse_time : String → Option ℕ
  pub describe : Error → String

pub record Sent : Type 0 where
  pub target : String
  pub text : String

pub record Relay (E : Type 0) : Type 0 where
  pub workers : Workers
  pub env : E
  -- The latest first.
  pub sent : List Sent

module _ {E : Type 0} where
  unfoldable pub ask : {A : Type 0} → (E → Result A × E) → Exec (Relay E) A
  ask f w = let (r, e) = f w.env in (r, record w { env = e })

  unfoldable pub log_sent : Sent → Exec (Relay E) (Unit {0})
  log_sent m w = (ok tt, record w { sent = m ∷ w.sent })

module _ {E : Type 0} (runner : RelayRunner E) where
  unfoldable pub change : (String → Workers → Workers) → Exec (Relay E) (Unit {0})
  change f w = (ok tt, record w { workers = f (runner.utc_now w.env) w.workers })

  unfoldable pub choose : RelayWorker → List AgentSession → Exec (Relay E) String
  choose pending candidates =
      case_one candidates
        (λ s. do
          change (λ now. bind now pending.worker_id s.id "replacement_project_orchestrator")
          pure s.id)
        (raise runtime_error)

  -- `_delivery_target`
  unfoldable pub delivery_target : RelayWorker → List AgentSession → Exec (Relay E) String
  delivery_target pending sessions =
      let candidates = select (is_orchestrator_of (some pending.project_id)) sessions in
      case_option pending.orchestrator_id (choose pending candidates)
        λ id. if any (λ s. s.id == id) candidates then pure id else choose pending candidates

  -- A key without an orchestrator to tell is an error of the worker.
  unfoldable pub note_unbound : String → Option String → Bool → Exec (Relay E) (Unit {0})
  note_unbound id key bound = case_option key (pure tt) λ k.
      if bound
      then pure tt
      else change (λ now.
        record_error now id k "RuntimeError: no unambiguous active orchestrator is available")

  -- `_is_recent_new_session`, with `started_at`
  unfoldable pub is_recent : ℕ → AgentSession → Bool
  is_recent started_at session = elim (runner.parse_time session.created_at) [
    | none ↦ false
    | some created ↦ leb started_at (created + 10000000)
  ]

  unfoldable pub discovered_key : ℕ → AgentSession → ℕ × String → Option String
  discovered_key started_at session report =
      if session.status == "idle" && not (report.1 == "") && is_recent started_at session
      then some ("idle:" <> (str report.0 <> (":" <> session.last_activity_at)))
      else none

  -- The first loop's body: a worker that is new is tracked.
  unfoldable pub discover : ℕ → List AgentSession → AgentSession → Exec (Relay E) (Unit {0})
  discover started_at sessions session = do
    tracked ← gets (λ w. get session.id w.workers)
    case_option tracked
        (do
          messages ← ask (runner.conversation_messages session.id)
          let binding = resolve_orchestrator session sessions messages
          let key = discovered_key started_at session (latest_provider_report messages)
          change
              (λ now. insert_worker now session binding (contains active_states session.status) key)
          note_unbound session.id key (elim binding [ none ↦ false | some _ ↦ true ]))
        λ _. pure tt

  unfoldable pub needs_messages : AgentSession → Bool
  needs_messages s = contains attention_states s.status || s.status == "idle" || is_terminal s

  -- A worker without an orchestrator may get one now: the messages that were read, and its row then.
  unfoldable pub rebind :
      RelayWorker → AgentSession → List AgentSession → Exec (Relay E) (List Message × RelayWorker)
  rebind tracked session sessions =
      case_option tracked.orchestrator_id
        (do
          messages ← ask (runner.conversation_messages session.id)
          case_option (resolve_orchestrator session sessions messages) (pure (messages, tracked))
              λ b. if b.0 == "" then pure (messages, tracked) else do
                change (λ now. bind now session.id b.0 b.1)
                found ← gets (λ w. get session.id w.workers)
                pure (messages, or_default found tracked))
        λ _. pure ([], tracked)

  unfoldable pub last_messages : List Message → AgentSession → Exec (Relay E) (List Message)
  last_messages messages session =
      if not (nonempty messages) && needs_messages session
      then ask (runner.conversation_messages session.id)
      else pure messages

  -- `active_by_id.get(…)`: of the sessions with the id, the last.
  unfoldable pub session_of : String → List AgentSession → Option AgentSession
  session_of id [] = none
  session_of id (s ∷ rest) =
      let later = session_of id rest in
      elim later [ some found ↦ some found | none ↦ if s.id == id then some s else none ]

  unfoldable pub watch_session :
      List AgentSession → RelayWorker → AgentSession → Exec (Relay E) (Unit {0})
  watch_session sessions opened session = do
    rebound ← rebind opened session sessions
    messages ← last_messages rebound.0 session
    let tracked = rebound.1
    let key = notification_key session tracked (latest_provider_report messages).0
    let seen_active = tracked.seen_active || contains active_states session.status
    change (λ now.
        observe now session.id (if session.terminated then "terminated" else session.status)
          seen_active key)
    note_unbound session.id key (elim tracked.orchestrator_id [ none ↦ false | some _ ↦ true ])

  -- The second loop's body.
  unfoldable pub watch : List AgentSession → RelayWorker → Exec (Relay E) (Unit {0})
  watch sessions opened = do
    found ←
        case_option (session_of opened.worker_id sessions)
          (ask (runner.get_session opened.worker_id)) λ s. pure (some s)
    case_option found (pure tt) (watch_session sessions opened)

  unfoldable pub tell :
      List AgentSession → RelayWorker → AgentSession → ℕ × String → Exec (Relay E) (Unit {0})
  tell sessions pending session report = do
    target ← delivery_target pending sessions
    ask (runner.send target (message session report.1))
    log_sent (record { target = target; text = message session report.1 })

  -- The third loop's body.
  unfoldable pub deliver : List AgentSession → RelayWorker → Exec (Relay E) (Unit {0})
  deliver sessions pending = do
    found ← ask (runner.get_session pending.worker_id)
    case_option found (pure tt) λ session. do
      messages ← ask (runner.conversation_messages session.id)
      let report = latest_provider_report messages
      key ← lift (or_raise pending.notification_key assertion_error)
      except
          (tell sessions pending session report
            >> change (λ now. mark_notified now pending.worker_id key report.0))
          λ e. change (λ now. record_error now pending.worker_id key (runner.describe e))

  -- The first two loops.
  unfoldable pub survey : ℕ → List AgentSession → Exec (Relay E) (Unit {0})
  survey started_at sessions = do
    for_each (discover started_at sessions) (select (λ s. s.role == "worker") sessions)
    opened ← gets (λ w. open_workers w.workers)
    for_each (watch sessions) opened
    pure tt

  -- The third loop.
  unfoldable pub deliver_all : List AgentSession → Exec (Relay E) (Unit {0})
  deliver_all sessions = do
    pending ← gets (λ w. pending_notifications w.workers)
    for_each (deliver sessions) pending
    pure tt

  -- `_reconcile_locked`
  unfoldable pub reconcile_locked : ℕ → Exec (Relay E) (Unit {0})
  reconcile_locked started_at = do
    sessions ← ask runner.list_active_sessions
    survey started_at sessions
    deliver_all sessions
