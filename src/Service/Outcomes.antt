-- ===== src/Service/Outcomes.antt =====
-- service.py: the second half of `JobStore`, what a run of the graph came to and the notices of it.
-- `now` is what `utc_now()` gives.
use agent_workflow_superviso.Prelude.{
  String, ◌<>◌, Bool, true, false, not, ◌&&◌, Option, none, some, List, [], ◌∷◌, ◌++◌, map,
}
use agent_workflow_superviso.Prelude.{
  if◌then◌else◌, ◌==◌, ◌!=◌, contains, option_eq, string_eq, select,
}
use agent_workflow_superviso.Result.{value_error, Result, ok, ◌>>◌, raise_if}
use agent_workflow_superviso.Graph.State.{or_default}
use agent_workflow_superviso.Tables.{update, order_by, coalesce, is_null, is_due}
use agent_workflow_superviso.Service.Jobs.{QueuedWork, Jobs, row, is_job}

-- The rows that `pending_notifications` selects.
unfoldable pub is_pending : QueuedWork → Bool
unfolding is_due
is_pending r = not (is_null r.origin_session_id) && is_due r.notification_key r.notified_key

unfoldable pub pending_notifications : Jobs → Jobs
unfolding select order_by row is_pending
pending_notifications jobs = map row (order_by (λ r. r.updated_at) (select is_pending jobs))

unfoldable pub has_notice : String → String → QueuedWork → Bool
unfolding is_job
has_notice id key r = is_job id r && r.notification_key == some key

unfoldable pub mark_notified : String → String → Jobs → Jobs
unfolding update has_notice
mark_notified id key =
    update (has_notice id key)
      (λ r. record r { notified_key = some key; notification_error = none })

unfoldable pub record_notification_error : String → String → String → Jobs → Jobs
unfolding update has_notice
record_notification_error id key error =
    update (has_notice id key) (λ r. record r { notification_error = some error })

abbrev pub terminal_statuses : List String
terminal_statuses =
    "approval_rejected" ∷ "completed" ∷ "planned_merge" ∷ "planned_worker" ∷ "skipped" ∷ []

abbrev pub notifiable_statuses : List String
notifiable_statuses =
    terminal_statuses
    ++ "awaiting_approval" ∷ "review_stalled" ∷ "worker_acquisition_pending"
      ∷ "worker_reservation_conflict" ∷ "worker_reservation_unverified" ∷ "worker_route_conflict"
      ∷ "worker_unhealthy" ∷ []

-- `_notification_key`
unfoldable pub notification_key : String → Option (String × String) → Option String
notification_key status gate =
    if not (contains notifiable_statuses status)
    then none
    else if status == "awaiting_approval"
    then (let (change_id, target_sha) = or_default gate ("", "") in
        some (status <> (":" <> (change_id <> (":" <> target_sha)))))
    else some status

-- What `update_result` sets in a row.
unfoldable pub with_result :
    String
    → String
    → Bool
    → Option String
    → Bool
    → Option (String × String)
    → QueuedWork
    → QueuedWork
unfolding notification_key coalesce
with_result now status active last_error clears gate r =
    let key = notification_key status gate in
    record r {
      status = status;
      active = active;
      last_error = last_error;
      updated_at = now;
      approval_change_id = elim gate [ none ↦ none | some g ↦ some g.0 ];
      approval_target_sha = elim gate [ none ↦ none | some g ↦ some g.1 ];
      notification_key = coalesce key r.notification_key;
      notification_error =
          if not (is_null key) && r.notification_key != key then none else r.notification_error;
      approval = if clears then none else r.approval;
    }

unfoldable pub update_result :
    String
    → String
    → String
    → Bool
    → Option String
    → Bool
    → Option (String × String)
    → Jobs
    → Result Jobs
unfolding is_job update with_result
update_result now id status active last_error clears gate jobs = do
  raise_if (status == "awaiting_approval" && elim gate [ none ↦ true | some _ ↦ false ]) value_error
  ok (update (is_job id) (with_result now status active last_error clears gate) jobs)
