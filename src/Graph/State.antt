-- ===== src/Graph/State.antt =====
-- graph.py: `SupervisorState`, the dictionary that the checkpoints keep. A field that no node has
-- written is `none`. The values of "status" that the nodes write are a data type; `event` appends to
-- the list of events as the reducer `add` does.
use agent_workflow_superviso.Prelude.{
  ℕ, zero, suc, String, Bool, Option, none, some, List, [], ◌∷◌, ◌++◌,
}
use agent_workflow_superviso.Prelude.{if◌then◌else◌, ◌==◌, option_eq, string_eq, nat_eq}
use agent_workflow_superviso.Models.{ReviewVerdict}

pub data Status : Type 0 where
  loaded skipped routed worker_candidate capacity_available waiting_capacity : Status
  waiting_profile_capacity worker_reservation_unverified worker_reservation_conflict : Status
  worker_route_conflict worker_running worker_acquisition_pending waiting_account_switch : Status
  planned_worker worker_unhealthy report_completed review_pending review_stalled : Status
  changes_requested review_invalid review_approved review_stale waiting_change_gate : Status
  awaiting_approval ready_to_merge approval_recorded approval_rejected planned_merge : Status
  merged completed : Status

pub data Approval : Type 0 where
  approved rejected : Approval

pub record SupervisorState : Type 0 where
  pub project_id : Option String
  pub work_item_id : Option String
  pub title : Option String
  pub body : Option String
  pub labels : Option (List String)
  pub work_item_url : Option String
  pub harness : Option String
  pub model : Option String
  pub provider : Option String
  pub model_profile : Option String
  pub model_capacity : Option ℕ
  pub credential_profile : Option String
  pub execution_project_id : Option String
  pub worker_id : Option String
  pub worker_status : Option String
  pub review_status : Option String
  pub review_verdict : Option ReviewVerdict
  pub review_target_sha : Option String
  pub review_triggered_for_sha : Option String
  pub review_worker_id : Option String
  pub review_run_id : Option String
  pub review_started_at : Option String
  pub review_attempts : Option ℕ
  pub change_id : Option String
  pub change_url : Option String
  pub change_head_sha : Option String
  pub requires_approval : Option Bool
  pub report_only : Option Bool
  pub report_started : Option Bool
  pub report_idle_observations : Option ℕ
  pub approval : Option Approval
  pub approval_change_id : Option String
  pub approval_target_sha : Option String
  pub status : Option Status
  pub last_error : Option String
  pub events : List String

-- `state.get(k, default)`
abbrev pub or_default {ℓ} : {A : Type ℓ} → Option A → A → A
or_default none d = d
or_default (some a) d = a

-- `o or None`, where the empty text and 0 are false
unfoldable pub or_none : Option String → Option String
or_none none = none
or_none (some s) = if s == "" then none else some s

unfoldable pub positive : Option ℕ → Option ℕ
positive none = none
positive (some zero) = none
positive (some (suc n)) = some (suc n)

-- `o or default`
unfoldable pub truthy_or : Option String → String → String
unfolding or_none
truthy_or o default = or_default (or_none o) default

unfoldable pub event : String → SupervisorState → SupervisorState
event message s = record s { events = s.events ++ message ∷ [] }

unfoldable pub status_text : Option Status → String
status_text none = "new"
status_text (some Status.loaded) = "loaded"
status_text (some Status.skipped) = "skipped"
status_text (some Status.routed) = "routed"
status_text (some Status.worker_candidate) = "worker_candidate"
status_text (some Status.capacity_available) = "capacity_available"
status_text (some Status.waiting_capacity) = "waiting_capacity"
status_text (some Status.waiting_profile_capacity) = "waiting_profile_capacity"
status_text (some Status.worker_reservation_unverified) = "worker_reservation_unverified"
status_text (some Status.worker_reservation_conflict) = "worker_reservation_conflict"
status_text (some Status.worker_route_conflict) = "worker_route_conflict"
status_text (some Status.worker_running) = "worker_running"
status_text (some Status.worker_acquisition_pending) = "worker_acquisition_pending"
status_text (some Status.waiting_account_switch) = "waiting_account_switch"
status_text (some Status.planned_worker) = "planned_worker"
status_text (some Status.worker_unhealthy) = "worker_unhealthy"
status_text (some Status.report_completed) = "report_completed"
status_text (some Status.review_pending) = "review_pending"
status_text (some Status.review_stalled) = "review_stalled"
status_text (some Status.changes_requested) = "changes_requested"
status_text (some Status.review_invalid) = "review_invalid"
status_text (some Status.review_approved) = "review_approved"
status_text (some Status.review_stale) = "review_stale"
status_text (some Status.waiting_change_gate) = "waiting_change_gate"
status_text (some Status.awaiting_approval) = "awaiting_approval"
status_text (some Status.ready_to_merge) = "ready_to_merge"
status_text (some Status.approval_recorded) = "approval_recorded"
status_text (some Status.approval_rejected) = "approval_rejected"
status_text (some Status.planned_merge) = "planned_merge"
status_text (some Status.merged) = "merged"
status_text (some Status.completed) = "completed"
