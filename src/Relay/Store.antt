-- ===== src/Relay/Store.antt =====
-- ao_relay.py: `AoRelayStore`, the table of the workers that the relay watches. `now` is what
-- `_utc_now()` gives.
use agent_workflow_superviso.Prelude.{
  ℕ, String, Bool, not, ◌&&◌, ◌||◌, Option, none, some, List, [], ◌∷◌, ◌++◌, map,
}
use agent_workflow_superviso.Prelude.{
  if◌then◌else◌, ◌==◌, ◌!=◌, contains, select, first, any, option_eq, string_eq,
}
use agent_workflow_superviso.Models.{AgentSession}
use agent_workflow_superviso.Graph.State.{or_none, or_default}
use agent_workflow_superviso.Tables.{update, order_by, coalesce, is_null, is_due}

abbrev pub active_states : List String
active_states = "active" ∷ "working" ∷ []

abbrev pub attention_states : List String
attention_states = "blocked" ∷ "waiting_input" ∷ []

abbrev pub terminal_states : List String
terminal_states =
    "completed" ∷ "done" ∷ "error" ∷ "exited" ∷ "failed" ∷ "merged" ∷ "terminated" ∷ []

-- A row of `native_ao_workers`, and the value that `_row` makes of it.
pub record RelayWorker : Type 0 where
  pub worker_id : String
  pub project_id : String
  pub orchestrator_id : Option String
  pub binding_source : Option String
  pub last_status : String
  pub seen_active : Bool
  pub last_message_sequence : ℕ
  pub notification_key : Option String
  pub notified_key : Option String
  pub notification_error : Option String
  pub created_at : String
  pub updated_at : String

abbrev pub Workers : Type 0
Workers = List RelayWorker

-- `_row`
unfoldable pub row : RelayWorker → RelayWorker
unfolding or_none
row r = record r {
  orchestrator_id = or_none r.orchestrator_id;
  binding_source = or_none r.binding_source;
  notification_key = or_none r.notification_key;
  notified_key = or_none r.notified_key;
  notification_error = or_none r.notification_error;
}

unfoldable pub is_worker : String → RelayWorker → Bool
is_worker id r = r.worker_id == id

unfoldable pub get : String → Workers → Option RelayWorker
unfolding first row is_worker
get id rows = elim (first (is_worker id) rows) [ none ↦ none | some r ↦ some (row r) ]

-- The `WHERE` of `open_workers`
unfoldable pub is_open : RelayWorker → Bool
unfolding is_due
is_open r =
    not (contains terminal_states r.last_status)
    || (is_null r.orchestrator_id && is_due r.notification_key r.notified_key)

unfoldable pub open_workers : Workers → Workers
unfolding select order_by row is_open
open_workers rows = map row (order_by (λ r. r.created_at) (select is_open rows))

-- The `WHERE` of `pending_notifications`
unfoldable pub is_pending : RelayWorker → Bool
unfolding is_due
is_pending r = not (is_null r.orchestrator_id) && is_due r.notification_key r.notified_key

unfoldable pub pending_notifications : Workers → Workers
unfolding select order_by row is_pending
pending_notifications rows = map row (order_by (λ r. r.updated_at) (select is_pending rows))

-- The `INSERT` of `track`: a worker that is there already is left as it is.
unfoldable pub insert_worker :
    String → AgentSession → Option (String × String) → Bool → Option String → Workers → Workers
unfolding any is_worker
insert_worker now session binding seen_active key rows =
    if any (is_worker session.id) rows
    then rows
    else rows
      ++ (record {
        worker_id = session.id;
        project_id = or_default session.project_id "";
        orchestrator_id = elim binding [ none ↦ none | some b ↦ some b.0 ];
        binding_source = elim binding [ none ↦ none | some b ↦ some b.1 ];
        last_status = session.status;
        seen_active = seen_active;
        last_message_sequence = 0;
        notification_key = key;
        notified_key = none;
        notification_error = none;
        created_at = if session.created_at == "" then now else session.created_at;
        updated_at = now;
      })
        ∷ []

unfoldable pub bind : String → String → String → String → Workers → Workers
unfolding update is_worker
bind now id orchestrator_id source = update (is_worker id) (λ r. record r {
  orchestrator_id = some orchestrator_id;
  binding_source = some source;
  notification_error = none;
  updated_at = now;
})

-- What `observe` sets in a row.
unfoldable pub observed : String → String → Bool → Option String → RelayWorker → RelayWorker
unfolding coalesce
observed now status seen_active key r = record r {
  last_status = status;
  seen_active = seen_active;
  notification_key = coalesce key r.notification_key;
  notification_error =
      if not (is_null key) && r.notification_key != key then none else r.notification_error;
  updated_at = now;
}

unfoldable pub observe : String → String → String → Bool → Option String → Workers → Workers
unfolding update is_worker observed
observe now id status seen_active key = update (is_worker id) (observed now status seen_active key)

unfoldable pub has_notice : String → String → RelayWorker → Bool
unfolding is_worker
has_notice id key r = is_worker id r && r.notification_key == some key

unfoldable pub mark_notified : String → String → String → ℕ → Workers → Workers
unfolding update has_notice
mark_notified now id key sequence = update (has_notice id key) (λ r. record r {
  notified_key = some key;
  last_message_sequence = sequence;
  notification_error = none;
  updated_at = now;
})

unfoldable pub record_error : String → String → String → String → Workers → Workers
unfolding update has_notice
record_error now id key error =
    update (has_notice id key) (λ r. record r { notification_error = some error; updated_at = now })
