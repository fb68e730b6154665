-- ===== src/Graph/Watch.antt =====
-- graph.py: the nodes `inspect_worker` and `return_review_feedback`, with the watchdog of reviews.
-- Of each return, the state keeps the fields that the source does not name.
use agent_workflow_superviso.Prelude.{
  ℕ, ◌+◌, String, ◌<>◌, Bool, false, not, ◌&&◌, ◌||◌, some, List, [], ◌∷◌,
}
use agent_workflow_superviso.Prelude.{
  if◌then◌else◌, ◌==◌, ◌!=◌, contains, option_eq, string_eq, nat_eq, ltb, leb,
}
use agent_workflow_superviso.Prelude.Text
use agent_workflow_superviso.Models.{AgentSession, verdict_eq, ReviewResult}
use agent_workflow_superviso.Graph.State.{Status, SupervisorState, or_default, event}
use agent_workflow_superviso.Graph.World.{SupervisorDependencies, Call, World, call, read_clock}
use agent_workflow_superviso.Exec.{case_option, Exec, pure}
use agent_workflow_superviso.Exec.{◌>>=◌ as ◌>>=◌, ◌>>◌ as ◌>>◌}

-- `worker.status.casefold()` is one of these while a worker shows no activity.
abbrev quiet_statuses : List String
quiet_statuses = "idle" ∷ "pending" ∷ "queued" ∷ "starting" ∷ "unknown" ∷ []

abbrev pub failure_statuses : List String
failure_statuses = "cancelled" ∷ "canceled" ∷ "error" ∷ "failed" ∷ "terminated" ∷ []

-- The event that `base` carries.
unfoldable pub inspected : AgentSession → SupervisorState → SupervisorState
unfolding event
inspected worker = event ("inspected worker " <> (worker.id <> (": " <> worker.status)))

-- A worker that only reports: it is done when idle after activity, or idle twice.
unfoldable pub report_state : AgentSession → SupervisorState → SupervisorState
unfolding event inspected
report_state worker base =
    let observations = or_default base.report_idle_observations 0 + 1 in
    let started = or_default base.report_started false in
    if worker.status == "idle"
    then if not started && ltb observations 2
      then event ("waiting for report-only worker " <> (worker.id <> " to begin or remain idle"))
          (record base {
            report_idle_observations = some observations;
            status = some Status.worker_running;
          })
      else event ("report-only worker " <> (worker.id <> " completed")) (record base {
        report_idle_observations = some observations;
        status = some Status.report_completed;
      })
    else inspected worker (record base {
      report_started =
          some (started || not (contains quiet_statuses (Text.casefold worker.status)));
      report_idle_observations = some 0;
      status = some Status.worker_running;
    })

-- What the watchdog knows of the current review.
pub record Watch : Type 0 where
  pub attempts : ℕ
  pub started_at : String
  pub run_id : String

-- The watchdog's fields as a state keeps them.
unfoldable pub watched : AgentSession → String → Watch → Status → SupervisorState → SupervisorState
watched worker review_key watch status s = record s {
  review_worker_id = some worker.id;
  review_run_id = some watch.run_id;
  review_triggered_for_sha = some review_key;
  review_started_at = some watch.started_at;
  review_attempts = some watch.attempts;
  status = some status;
}

unfoldable pub stalled : String → SupervisorState → SupervisorState
unfolding event
stalled error s =
    event "review watchdog exhausted its retry budget" (record s { last_error = some error })

-- `a or b`, for texts
unfoldable pub or_text : String → String → String
or_text a b = if a == "" then b else a

-- A known review of the same worker and key carries its watch over; another review starts afresh.
unfoldable pub carried : SupervisorState → AgentSession → String → Watch
carried s worker review_key =
    if s.review_worker_id == some worker.id && s.review_triggered_for_sha == some review_key
    then record {
      attempts = or_default s.review_attempts 0;
      started_at = or_default s.review_started_at "";
      run_id = or_default s.review_run_id "";
    }
    else record { attempts = 0; started_at = ""; run_id = "" }

-- A run that was created outside the supervisor.
unfoldable pub is_new_run : Watch → ReviewResult → Bool
is_new_run watch review = watch.run_id != "" && review.run_id != "" && watch.run_id != review.run_id

unfoldable pub review_key_of : AgentSession → ReviewResult → String
unfolding or_text
review_key_of worker review = or_text review.target_sha (worker.id <> ":unknown")

unfoldable pub attempts_text : ℕ → String
attempts_text n = Text.str n <> " attempt(s)"

module _ {E : Type 0} (deps : SupervisorDependencies E) where
  unfoldable pub iso_now : Exec (World E) String
  iso_now = do t ← read_clock deps.now; pure (deps.isoformat t)

  -- `review.started_at or iso_now()`
  unfoldable pub or_now : String → Exec (World E) String
  or_now started_at = if started_at == "" then iso_now else pure started_at

  unfoldable pub review_timed_out : String → Exec (World E) Bool
  review_timed_out started_at =
      if started_at == ""
      then pure false
      else case_option (deps.fromisoformat started_at) (pure false) λ parsed. do
        now ← read_clock deps.now
        pure (leb (parsed + deps.config.supervisor.review_timeout) now)

  -- A mutation that shadow mode leaves out.
  unfoldable pub unless_shadow : Exec (World E) (Unit {0}) → Exec (World E) (Unit {0})
  unless_shadow m = if deps.config.supervisor.shadow_mode then pure tt else m

  unfoldable pub trigger_review : String → Exec (World E) (Unit {0})
  trigger_review id = call (Call.trigger_review id) (deps.trigger_review id)

  -- A restart of the review that is watched: its attempts grow by one.
  unfoldable pub restarted :
      AgentSession → String → ℕ → String → SupervisorState → Exec (World E) SupervisorState
  restarted worker review_key attempts kind base = do
    trigger_review worker.id
    now ← iso_now
    pure (
        event
          ("restarted "
            <> (kind
                <> (" review for "
                    <> (worker.id <> (" (attempt " <> (Text.str (attempts + 1) <> ")"))))))
          (watched worker review_key
            (record { attempts = attempts + 1; started_at = now; run_id = "" })
            Status.review_pending base))

  -- There is no review record, and one was triggered before; it has timed out.
  unfoldable pub missing_timed_out :
      AgentSession → String → ℕ → SupervisorState → Exec (World E) SupervisorState
  missing_timed_out worker review_key attempts base =
      if deps.config.supervisor.shadow_mode
      then (do
        now ← iso_now
        pure (
            event ("shadow: would restart missing review for " <> worker.id)
              (record base { review_started_at = some now; status = some Status.review_pending })))
      else if leb deps.config.supervisor.review_max_attempts attempts
      then pure (
          stalled
            ("review for "
              <> (worker.id
                  <> (" at "
                      <> (review_key
                          <> (" disappeared or did not complete after "
                              <> attempts_text attempts)))))
            (record base { status = some Status.review_stalled }))
      else restarted worker review_key attempts "missing" base

  -- The first review of a worker whose change is open.
  unfoldable pub initial_review : AgentSession → SupervisorState → Exec (World E) SupervisorState
  initial_review worker base = do
    unless_shadow (trigger_review worker.id)
    now ← iso_now
    let action = if deps.config.supervisor.shadow_mode then "shadow: would trigger" else "triggered"
    pure (
        event (action <> (" initial review for PR-open worker " <> worker.id)) (
          watched worker (worker.id <> ":unknown")
            (record { attempts = 1; started_at = now; run_id = "" }) Status.review_pending base))

  -- `inspect_worker` without a review record
  unfoldable pub without_review : AgentSession → SupervisorState → Exec (World E) SupervisorState
  without_review worker base = do
    let review_key = or_default base.review_triggered_for_sha ""
    let attempts = or_default base.review_attempts 0
    let is_watched = base.review_worker_id == some worker.id && review_key != "" && attempts != 0
    if Text.casefold worker.status == "pr_open" && not is_watched
        then initial_review worker base
        else if not is_watched
        then pure (inspected worker (record base { status = some Status.worker_running }))
        else (do
          timed_out ← review_timed_out (or_default base.review_started_at "")
          if timed_out
              then missing_timed_out worker review_key attempts base
              else pure (inspected worker (record base { status = some Status.review_pending })))
