-- ===== src/Service/Jobs.antt =====
-- service.py: `JobStore`, the table of dispatched work items with the decisions queued for them.
-- `now` is what `utc_now()` gives. The schema of older releases is not modelled: rows have all columns.
use agent_workflow_superviso.Prelude.{
  String, Bool, true, not, ◌&&◌, ◌||◌, Option, none, some, List, [], ◌∷◌, ◌++◌, map,
}
use agent_workflow_superviso.Prelude.{
  if◌then◌else◌, ◌==◌, ◌!=◌, contains, option_eq, string_eq, any, select, first,
}
use agent_workflow_superviso.Result.{
  value_error, key_error, assertion_error, Result, ok, ◌>>=◌, ◌>>◌, or_raise, raise_if,
}
use agent_workflow_superviso.Graph.State.{or_none}
use agent_workflow_superviso.Tables.{update, order_by, coalesce, is_null}

-- A row of `supervisor_jobs`, and the value that `_row` makes of it.
pub record QueuedWork : Type 0 where
  pub work_item_id : String
  pub active : Bool
  pub status : String
  pub approval : Option String
  pub approval_change_id : Option String
  pub approval_target_sha : Option String
  pub last_error : Option String
  pub origin_session_id : Option String
  pub notification_key : Option String
  pub notified_key : Option String
  pub notification_error : Option String
  pub created_at : String
  pub updated_at : String

abbrev pub Jobs : Type 0
Jobs = List QueuedWork

-- `_row`
unfoldable pub row : QueuedWork → QueuedWork
unfolding or_none
row r = record r {
  approval = or_none r.approval;
  approval_change_id = or_none r.approval_change_id;
  approval_target_sha = or_none r.approval_target_sha;
  last_error = or_none r.last_error;
  origin_session_id = or_none r.origin_session_id;
  notification_key = or_none r.notification_key;
  notified_key = or_none r.notified_key;
  notification_error = or_none r.notification_error;
}

unfoldable pub is_job : String → QueuedWork → Bool
is_job id r = r.work_item_id == id

-- The migration of `_initialize`: a decision without a binding is dropped.
unfoldable pub initialize : Jobs → Jobs
unfolding update
initialize =
    update
      (λ r.
        not (is_null r.approval) && (is_null r.approval_change_id || is_null r.approval_target_sha))
      (λ r. record r { approval = none })

unfoldable pub get : String → Jobs → Option QueuedWork
unfolding first row is_job
get id jobs = elim (first (is_job id) jobs) [ none ↦ none | some r ↦ some (row r) ]

-- `VALUES (?, 1, 'queued', …)`
unfoldable pub queued : String → String → Option String → QueuedWork
queued now id origin = record {
  work_item_id = id;
  active = true;
  status = "queued";
  approval = none;
  approval_change_id = none;
  approval_target_sha = none;
  last_error = none;
  origin_session_id = origin;
  notification_key = none;
  notified_key = none;
  notification_error = none;
  created_at = now;
  updated_at = now;
}

-- `ON CONFLICT(work_item_id) DO UPDATE`: work that has ended starts afresh.
unfoldable pub requeued : String → Option String → QueuedWork → QueuedWork
unfolding coalesce
requeued now origin r =
    let ended = contains ("completed" ∷ "skipped" ∷ []) r.status in
    record r {
      active = true;
      status = if ended then "queued" else r.status;
      approval = if ended then none else r.approval;
      approval_change_id = if ended then none else r.approval_change_id;
      approval_target_sha = if ended then none else r.approval_target_sha;
      origin_session_id = coalesce origin r.origin_session_id;
      notification_key = if ended then none else r.notification_key;
      notified_key = if ended then none else r.notified_key;
      notification_error = if ended then none else r.notification_error;
      last_error = none;
      updated_at = now;
    }

-- The statement of `dispatch`
unfoldable pub insert_job : String → String → Option String → Jobs → Jobs
unfolding any is_job queued requeued update
insert_job now id origin jobs =
    if any (is_job id) jobs
    then update (is_job id) (requeued now origin) jobs
    else jobs ++ queued now id origin ∷ []

unfoldable pub dispatch : String → String → Option String → Jobs → Result (QueuedWork × Jobs)
unfolding insert_job get
dispatch now id origin jobs = do
  let jobs' = insert_job now id origin jobs
  job ← or_raise (get id jobs') assertion_error
  ok (job, jobs')

-- The row waits for a decision on this change at this head.
unfoldable pub is_gate : String → String → String → QueuedWork → Bool
unfolding is_job
is_gate id change_id target_sha r =
    is_job id r
    && r.status == "awaiting_approval"
    && r.approval_change_id == some change_id
    && r.approval_target_sha == some target_sha

-- `approve` of a row that is there
unfoldable pub check_decision : String → String → String → QueuedWork → Result (Unit {0})
check_decision decision change_id target_sha job = do
  raise_if
      (not job.active
        || job.status != "awaiting_approval"
        || job.approval_change_id != some change_id
        || job.approval_target_sha != some target_sha)
      value_error
  raise_if (not (is_null job.approval) && job.approval != some decision) value_error

-- The `UPDATE` of `approve`
unfoldable pub queue_decision : String → String → String → String → String → Jobs → Jobs
unfolding update is_gate
queue_decision now id decision change_id target_sha =
    update (is_gate id change_id target_sha)
      (λ r. record r { active = true; approval = some decision; updated_at = now })

-- The tests of `approve`
unfoldable pub check_request : String → String → String → String → Jobs → Result (Unit {0})
unfolding first row check_decision
check_request id decision change_id target_sha jobs = do
  raise_if (not (contains ("approve" ∷ "reject" ∷ []) decision)) value_error
  raise_if (change_id == "" || target_sha == "") value_error
  r ← or_raise (first (is_job id) jobs) key_error
  check_decision decision change_id target_sha (row r)

unfoldable pub approve :
    String → String → String → String → String → Jobs → Result (QueuedWork × Jobs)
unfolding get check_request queue_decision
approve now id decision change_id target_sha jobs = do
  check_request id decision change_id target_sha jobs
  let jobs' = queue_decision now id decision change_id target_sha jobs
  job ← or_raise (get id jobs') assertion_error
  ok (job, jobs')

-- The `SELECT` of `claim_approval`
unfoldable pub is_claimable : String → String → String → QueuedWork → Bool
unfolding is_gate
is_claimable id change_id target_sha r =
    r.active && is_gate id change_id target_sha r && not (is_null r.approval)

-- The `UPDATE` of `claim_approval` names the gate's ids, and not its status.
unfoldable pub is_bound : String → String → String → QueuedWork → Bool
unfolding is_job
is_bound id change_id target_sha r =
    is_job id r
    && r.approval_change_id == some change_id
    && r.approval_target_sha == some target_sha

unfoldable pub consume_decision : String → String → String → String → Jobs → Jobs
unfolding update is_bound
consume_decision now id change_id target_sha =
    update (is_bound id change_id target_sha)
      (λ r. record r { approval = none; status = "approval_resuming"; updated_at = now })

unfoldable pub claim_approval : String → String → String → String → Jobs → Option String × Jobs
unfolding first is_claimable consume_decision
claim_approval now id change_id target_sha jobs =
    elim (first (is_claimable id change_id target_sha) jobs) [
      | none ↦ (none, jobs)
      | some r ↦ (r.approval, consume_decision now id change_id target_sha jobs)
    ]

unfoldable pub clear_approval : String → String → Jobs → Jobs
unfolding is_job update
clear_approval now id = update (is_job id) (λ r. record r {
  approval = none;
  approval_change_id = none;
  approval_target_sha = none;
  updated_at = now;
})

-- `list`
unfoldable pub list_jobs : Bool → Jobs → Jobs
unfolding select order_by row
list_jobs active_only jobs =
    map row
      (order_by (λ r. r.created_at) (if active_only then select (λ r. r.active) jobs else jobs))
