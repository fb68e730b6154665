-- ===== src/Graph/Review.antt =====
-- graph.py: `inspect_worker` with a review record, and `return_review_feedback`.
use agent_workflow_superviso.Prelude.{String, ◌<>◌, Bool, true, false, ◌&&◌, Option, none, some}
use agent_workflow_superviso.Prelude.{
  if◌then◌else◌, ◌==◌, contains, option_eq, string_eq, nat_eq, ltb, leb,
}
use agent_workflow_superviso.Prelude.Text
use agent_workflow_superviso.Result.{key_error, or_raise}
use agent_workflow_superviso.Models.{
  AgentSession, active, approved, changes_requested, pending, verdict_eq, ReviewResult,
}
use agent_workflow_superviso.Graph.State.{Status, SupervisorState, or_default, or_none, event}
use agent_workflow_superviso.Graph.World.{SupervisorDependencies, Call, World, call}
use agent_workflow_superviso.Exec.{case_option, Exec, pure, lift}
use agent_workflow_superviso.Exec.{◌>>=◌ as ◌>>=◌, ◌>>◌ as ◌>>◌}
use agent_workflow_superviso.Graph.Watch.{
  failure_statuses, inspected, report_state, Watch, watched, stalled, or_text, carried, is_new_run,
  review_key_of, attempts_text, iso_now, or_now, review_timed_out, unless_shadow, trigger_review,
  restarted, without_review,
}

-- `base.update(review_status=…, review_verdict=…, review_target_sha=…)`
unfoldable pub with_review : ReviewResult → SupervisorState → SupervisorState
with_review review base = record base {
  review_status = some review.status;
  review_verdict = some review.verdict;
  review_target_sha = some review.target_sha;
}

-- The feedback of this very review was sent before.
unfoldable pub feedback_already_sent : SupervisorState → ReviewResult → Bool
feedback_already_sent s review =
    s.review_status == some "feedback_sent"
    && s.review_target_sha == some review.target_sha
    && or_default s.review_run_id "" == review.run_id

-- `inspect_worker` on a review that asks for changes; `s` is the state before, `base` after.
unfoldable pub changes_state :
    SupervisorState → AgentSession → ReviewResult → SupervisorState → SupervisorState
unfolding event inspected feedback_already_sent
changes_state s worker review base =
    if feedback_already_sent s review
    then event ("waiting for " <> (worker.id <> " to address review feedback")) (record base {
      review_status = some "feedback_sent";
      review_run_id = some review.run_id;
      status = some Status.worker_running;
    })
    else inspected worker (record base {
      review_worker_id = some worker.id;
      review_run_id = some "";
      review_triggered_for_sha = some "";
      review_started_at = some "";
      review_attempts = some 0;
      status = some Status.changes_requested;
    })

-- `inspect_worker` on an approval of a change: it must name the head that was reviewed.
unfoldable pub approved_state :
    AgentSession → ReviewResult → String → SupervisorState → SupervisorState
unfolding event inspected
approved_state worker review change_id base =
    let found = record base { change_id = some change_id; change_url = some review.change_url } in
    if review.target_sha == ""
    then event "rejected approval without a target head SHA" (record found {
      status = some Status.review_invalid;
      last_error = some "approved review did not identify its target head SHA";
    })
    else inspected worker (record found { status = some Status.review_approved })

-- The feedback of the review, or the sentence that stands for it.
unfoldable pub feedback_text : ReviewResult → String
unfolding or_text Text.strip
feedback_text review =
    or_text (Text.strip review.feedback)
      "The independent review requested changes. Inspect the latest review attached to the pull request and address every blocking finding."

-- A session that is there and active.
unfoldable pub healthy : Option AgentSession → Option AgentSession
healthy none = none
healthy (some worker) = if active worker then some worker else none

-- A review that is there and asks for changes.
unfoldable pub with_changes : Option ReviewResult → Option ReviewResult
with_changes none = none
with_changes (some review) = if review.verdict == changes_requested then some review else none

-- `review.verdict == "approved" and review.change_id`
unfoldable pub approved_change : ReviewResult → Option String
unfolding or_none
approved_change review = if review.verdict == approved then or_none review.change_id else none

module _ {E : Type 0} (deps : SupervisorDependencies E) where
  -- A review that ended without a verdict.
  unfoldable pub review_failed :
      AgentSession
      → ReviewResult
      → String
      → Watch
      → SupervisorState
      → Exec (World E) SupervisorState
  review_failed worker review key watch base = do
    let attempts = if ltb watch.attempts 1 then 1 else watch.attempts
    if deps.config.supervisor.shadow_mode
        then (do
          started_at ← or_now deps review.started_at
          pure (
              event ("shadow: would restart failed review for " <> worker.id) (
                watched worker key
                  (record { attempts = attempts; started_at = started_at; run_id = review.run_id })
                  Status.review_pending base)))
        else if leb deps.config.supervisor.review_max_attempts attempts
        then (do
          started_at ← or_now deps (or_text watch.started_at review.started_at)
          pure (
              stalled
                ("review for "
                  <> (worker.id
                      <> (" at "
                          <> (key
                              <> (" ended as "
                                  <> (Text.casefold review.status
                                      <> (" after " <> attempts_text attempts)))))))
                (watched worker key
                  (record { attempts = attempts; started_at = started_at; run_id = review.run_id })
                  Status.review_stalled base)))
        else restarted deps worker key attempts "failed" base

  -- A review that waits to be started, and was not.
  unfoldable pub review_needed :
      AgentSession → String → SupervisorState → Exec (World E) SupervisorState
  review_needed worker key base = do
    unless_shadow deps (trigger_review deps worker.id)
    now ← iso_now deps
    let action = if deps.config.supervisor.shadow_mode then "shadow: would trigger" else "triggered"
    pure (
        event (action <> (" review for " <> (worker.id <> " (attempt 1)"))) (
          watched worker key (record { attempts = 1; started_at = now; run_id = "" })
            Status.review_pending base))

  -- A running review that has timed out: its budget is spent, or it is cancelled and restarted.
  unfoldable pub review_expired :
      AgentSession
      → ReviewResult
      → String
      → Watch
      → SupervisorState
      → Exec (World E) SupervisorState
  review_expired worker review key watch base =
      if leb deps.config.supervisor.review_max_attempts watch.attempts
      then pure (
          stalled
            ("review for "
              <> (worker.id
                  <> (" at " <> (key <> (" timed out after " <> attempts_text watch.attempts)))))
            (watched worker key (record watch { run_id = or_text watch.run_id review.run_id })
              Status.review_stalled base))
      else (do
        if Text.casefold review.status == "needs_review"
            then pure tt
            else call (Call.cancel_review worker.id) (deps.cancel_review worker.id)
        restarted deps worker key watch.attempts "timed-out" base)

  -- A running review, seen for the first time or again.
  unfoldable pub review_running :
      AgentSession
      → ReviewResult
      → String
      → Watch
      → SupervisorState
      → Exec (World E) SupervisorState
  review_running worker review key watch base =
      let kept = record watch { run_id = or_text watch.run_id review.run_id } in
      let going_on = inspected worker (watched worker key kept Status.review_pending base) in
      if deps.config.supervisor.shadow_mode then pure going_on else (do
        timed_out ← review_timed_out deps watch.started_at
        if timed_out then review_expired worker review key watch base else pure going_on)

  -- The watch of an earlier look, brought up to date: a run from outside has a budget of its own.
  unfoldable pub refreshed : Watch → ReviewResult → Exec (World E) Watch
  refreshed watch review =
      if is_new_run watch review
      then (do
        started_at ← or_now deps review.started_at
        pure (record { attempts = 1; started_at = started_at; run_id = review.run_id }))
      else pure watch

  -- A first look adopts a review that AO started.
  unfoldable pub adopted : Watch → ReviewResult → Exec (World E) Watch
  adopted watch review =
      if watch.attempts == 0
      then (do
        started_at ← or_now deps review.started_at
        pure (record { attempts = 1; started_at = started_at; run_id = review.run_id }))
      else pure watch

  -- `inspect_worker` on a review with neither verdict
  unfoldable pub watch_review :
      SupervisorState
      → AgentSession
      → ReviewResult
      → SupervisorState
      → Exec (World E) SupervisorState
  watch_review s worker review base = do
    let key = review_key_of worker review
    watch ← refreshed (carried s worker key) review
    if contains failure_statuses (Text.casefold review.status)
        then review_failed worker review key watch base
        else if Text.casefold review.status == "needs_review" && watch.attempts == 0
        then review_needed worker key base
        else (do kept ← adopted watch review; review_running worker review key kept base)

  unfoldable pub with_review_record :
      SupervisorState
      → AgentSession
      → ReviewResult
      → SupervisorState
      → Exec (World E) SupervisorState
  with_review_record s worker review base =
      if review.verdict == changes_requested
      then pure (changes_state s worker review base)
      else case_option (approved_change review) (watch_review s worker review base)
          λ change_id. pure (approved_state worker review change_id base)

  -- `inspect_worker` on an active worker
  unfoldable pub inspect_active : SupervisorState → AgentSession → Exec (World E) SupervisorState
  inspect_active s worker = do
    let base = record s { worker_status = some worker.status }
    if or_default s.report_only false then pure (report_state worker base) else (do
      review ← call (Call.get_review worker.id) (deps.get_review worker.id)
      case_option review (without_review deps worker base)
          λ r. with_review_record s worker r (with_review r base))

  unfoldable pub inspect_worker : SupervisorState → Exec (World E) SupervisorState
  inspect_worker s = do
    id ← lift (or_raise s.worker_id key_error)
    found ← call (Call.get_session id) (deps.get_session id)
    case_option (healthy found)
        (pure (
          event "worker health check failed" (record s {
            status = some Status.worker_unhealthy;
            last_error = some "worker session is missing or inactive";
          })))
        λ worker. inspect_active s worker

  -- `runner.send`, which shadow mode takes for done
  unfoldable pub send_feedback : String → ReviewResult → Exec (World E) Bool
  send_feedback worker_id review =
      if deps.config.supervisor.shadow_mode
      then pure true
      else let message =
          "Review changes were requested for "
          <> (or_text review.change_url (or_default review.change_id "None")
              <> (". "
                  <> (feedback_text review
                      <> "\n\nFix the findings, verify the result, and push updates to the same pull request."))) in
        call (Call.send worker_id message) (deps.send worker_id message)

  unfoldable pub deliver_feedback :
      SupervisorState → String → ReviewResult → Exec (World E) SupervisorState
  deliver_feedback s worker_id review = do
    delivered ← send_feedback worker_id review
    let action = if deps.config.supervisor.shadow_mode then "shadow: would return" else "returned"
    pure (
        if delivered
        then event (action <> (" review feedback to " <> worker_id)) (record s {
          review_status = some "feedback_sent";
          review_verdict = some pending;
          review_target_sha = some review.target_sha;
          review_triggered_for_sha = some "";
          review_worker_id = some worker_id;
          review_run_id = some review.run_id;
          review_started_at = some "";
          review_attempts = some 0;
          status = some Status.worker_running;
        })
        else event ("waiting to deliver review feedback to " <> worker_id) (record s {
          review_status = some "feedback_starting";
          review_verdict = some changes_requested;
          review_target_sha = some review.target_sha;
          review_worker_id = some worker_id;
          review_run_id = some review.run_id;
          status = some Status.changes_requested;
        }))

  unfoldable pub return_review_feedback : SupervisorState → Exec (World E) SupervisorState
  return_review_feedback s = do
    worker_id ← lift (or_raise s.worker_id key_error)
    found ← call (Call.get_review worker_id) (deps.get_review worker_id)
    case_option (with_changes found)
        (pure (
          event "review feedback was no longer available"
            (record s { status = some Status.review_pending })))
        λ review. deliver_feedback s worker_id review
