-- ===== src/Graph/Delivery.antt =====
-- graph.py: the nodes `verify_change`, `approval_gate`, `merge_change` and `cleanup_worker`.
use agent_workflow_superviso.Prelude.{String, ◌<>◌, Bool, true, false, not, ◌&&◌, none, some}
use agent_workflow_superviso.Prelude.{if◌then◌else◌, ◌==◌, ◌!=◌, option_eq, string_eq, nat_eq}
use agent_workflow_superviso.Result.{key_error, interrupted, ok, err, or_raise}
use agent_workflow_superviso.Models.{verdict_eq, ChangeRequest, ready}
use agent_workflow_superviso.Locking.{clear_acquisition_record}
use agent_workflow_superviso.Graph.State.{Status, Approval, SupervisorState, or_default, event}
use agent_workflow_superviso.Graph.World.{
  SupervisorDependencies, Lock, Call, Response, World, perform, call, from_files, with_lock,
  set_files,
}
use agent_workflow_superviso.Exec.{Exec, pure, lift}
use agent_workflow_superviso.Exec.{◌>>=◌ as ◌>>=◌, ◌>>◌ as ◌>>◌}

-- The recorded approval is of this very change and head.
unfoldable pub approval_matches : SupervisorState → ChangeRequest → Bool
approval_matches s change =
    elim s.approval [ some Approval.approved ↦ true | _ ↦ false ]
    && s.approval_change_id == some change.id
    && s.approval_target_sha == some change.head_sha

unfoldable pub verified_state : SupervisorState → String → ChangeRequest → SupervisorState
unfolding event approval_matches
verified_state s expected_sha change =
    if change.head_sha != expected_sha
    then event "review is stale for current change head" (record s {
      status = some Status.review_stale;
      change_head_sha = some change.head_sha;
      last_error = some "review target no longer matches change head";
    })
    else if not (ready change)
    then event "change is not ready to merge" (record s {
      status = some Status.waiting_change_gate;
      change_head_sha = some change.head_sha;
    })
    else event "change gates passed" (record s {
      change_head_sha = some change.head_sha;
      change_url = some change.url;
      status = some (
          if or_default s.requires_approval false && not (approval_matches s change)
          then Status.awaiting_approval
          else Status.ready_to_merge);
    })

-- `response.get("action")` of a dictionary, `str(response)` of anything else
unfoldable pub is_approval : Response → Bool
is_approval (Response.action none) = false
is_approval (Response.action (some a)) = a == "approve"
is_approval (Response.value v) = v == "approve"

-- `interrupt(…)`: without an answer the run is interrupted; an answer is taken once.
unfoldable pub interrupt : {E : Type 0} → Exec (World E) Response
interrupt w = elim w.resume [
  | none ↦ (err interrupted, w)
  | some response ↦ (ok response, record w { resume = none })
]

unfoldable pub answered : Response → SupervisorState → String → String → SupervisorState
unfolding event is_approval
answered response s change_id head_sha =
    if is_approval response
    then event "human approved change for merge" (record s {
      approval = some Approval.approved;
      approval_change_id = some change_id;
      approval_target_sha = some head_sha;
      status = some Status.approval_recorded;
    })
    else event "human rejected protected change"
        (record s { approval = some Approval.rejected; status = some Status.approval_rejected })

module _ {E : Type 0} (deps : SupervisorDependencies E) where
  unfoldable pub verify_change : SupervisorState → Exec (World E) SupervisorState
  verify_change s =
      let expected_sha = or_default s.review_target_sha "" in
      if expected_sha == ""
      then pure (
          event "rejected approval without a target head SHA" (record s {
            status = some Status.review_invalid;
            last_error = some "approved review did not identify its target head SHA";
          }))
      else do
        change_id ← lift (or_raise s.change_id key_error)
        change ← perform (Call.get_change change_id) (deps.get_change change_id)
        pure (verified_state s expected_sha change)

  unfoldable pub approval_gate : SupervisorState → Exec (World E) SupervisorState
  approval_gate s = do
    lift (or_raise s.work_item_id key_error)
    change_id ← lift (or_raise s.change_id key_error)
    response ← interrupt
    if is_approval response
        then (do
          head_sha ← lift (or_raise s.change_head_sha key_error)
          pure (answered response s change_id head_sha))
        else pure (answered response s change_id "")

  unfoldable pub merge_change : SupervisorState → Exec (World E) SupervisorState
  merge_change s = do
    change_id ← lift (or_raise s.change_id key_error)
    if deps.config.supervisor.shadow_mode
        then pure (
            event ("shadow: would merge change " <> change_id)
              (record s { status = some Status.planned_merge }))
        else (do
          head_sha ← lift (or_raise s.change_head_sha key_error)
          call (Call.merge_change change_id head_sha) (deps.merge_change change_id head_sha)
          pure (event ("merged change " <> change_id) (record s { status = some Status.merged })))

  -- `cleanup_worker` under its lock: the worker goes, then its reservation.
  unfoldable pub cleanup_locked : SupervisorState → String → String → Exec (World E) (Unit {0})
  cleanup_locked s project_id work_item_id = do
    let execution_project_id = or_default s.execution_project_id project_id
    if deps.config.supervisor.shadow_mode then pure tt else (do
      worker_id ← lift (or_raise s.worker_id key_error)
      call (Call.terminate execution_project_id worker_id)
          (deps.terminate execution_project_id worker_id))
    worker_id ← lift (or_raise s.worker_id key_error)
    files ←
        from_files (clear_acquisition_record deps.sha256 project_id work_item_id (some worker_id))
    set_files files

  unfoldable pub cleanup_worker : SupervisorState → Exec (World E) SupervisorState
  cleanup_worker s = do
    project_id ← lift (or_raise s.project_id key_error)
    work_item_id ← lift (or_raise s.work_item_id key_error)
    with_lock (Lock.work_item project_id work_item_id) (cleanup_locked s project_id work_item_id)
    worker_id ← lift (or_raise s.worker_id key_error)
    pure (event ("cleaned worker " <> worker_id) (record s { status = some Status.completed }))
