-- ===== src/Service/Decisions.antt =====
-- service.py: how often a person's decision is used. The system is the service with its store, and the
-- command line that dispatches work and queues decisions.
use agent_workflow_superviso.Prelude.{
  ℕ, ◌≤◌, String, Bool, true, false, not, ◌&&◌, Option, some, ◌≡◌, sym, inl, inr, arith, Bool-cases,
}
use agent_workflow_superviso.Prelude.{if◌then◌else◌, ◌==◌, option_eq, string_eq, any}
use agent_workflow_superviso.Result.{ok, >>=-eq-ok, or_raise, assertion_error}
use agent_workflow_superviso.Service.Jobs.{
  QueuedWork, Jobs, is_job, is_gate, queued, requeued, dispatch, clear_approval, insert_job, get,
  initialize,
}
use agent_workflow_superviso.Service.Outcomes.{
  mark_notified, record_notification_error, with_result, update_result,
}
use agent_workflow_superviso.Service.Reconcile.{Resumed}
use agent_workflow_superviso.Tables.{update}
use agent_workflow_superviso.Tables.Queries.{any-update, any_append}

unfoldable pub same : Resumed → Resumed → Bool
same k r =
    r.work_item_id == k.work_item_id
    && r.decision == k.decision
    && r.change_id == k.change_id
    && r.target_sha == k.target_sha

-- The row holds this decision for the gate that it shows.
unfoldable pub pends : Resumed → QueuedWork → Bool
unfolding is_gate is_job
pends k r = is_gate k.work_item_id k.change_id k.target_sha r && r.approval == some k.decision

abbrev pub pending_uses : Resumed → Jobs → ℕ
pending_uses k jobs = if any (pends k) jobs then 1 else 0

module _ (k : Resumed) where
  pub pending_uses-le :
      (jobs jobs' : Jobs)
      → (any (pends k) jobs' ≡ true → any (pends k) jobs ≡ true)
      → pending_uses k jobs' ≤ pending_uses k jobs
  pending_uses-le jobs jobs' f = ground (arith, f)

  pub clear-pending_uses :
      (now id : String) (jobs : Jobs)
      → pending_uses k (clear_approval now id jobs) ≤ pending_uses k jobs
  unfolding clear_approval pends
  clear-pending_uses now id jobs =
      pending_uses-le jobs _ (any-update (pends k) _ _ jobs (λ r w p. ground arith))

  pub save-pending_uses :
      (now id status : String) (active : Bool) (last_error : Option String) (clears : Bool)
      (gate : Option (String × String)) (jobs jobs' : Jobs)
      → (not clears && status == "awaiting_approval") ≡ false
      → update_result now id status active last_error clears gate jobs ≡ ok jobs'
      → pending_uses k jobs' ≤ pending_uses k jobs
  unfolding update_result pends with_result
  save-pending_uses now id status active last_error clears gate jobs jobs' safe h =
      let e : update (is_job id) (with_result now status active last_error clears gate) jobs
          ≡ jobs' =
        ground arith in
      rw (sym e)
        (pending_uses-le jobs _ (any-update (pends k) _ _ jobs (λ r w p. absurd (ground arith))))

  pub initialize-pending_uses :
      (jobs : Jobs) → pending_uses k (initialize jobs) ≤ pending_uses k jobs
  unfolding initialize pends
  initialize-pending_uses jobs =
      pending_uses-le jobs _ (any-update (pends k) _ _ jobs (λ r w p. ground arith))

  pub notified-pending_uses :
      (id key : String) (jobs : Jobs)
      → pending_uses k (mark_notified id key jobs) ≤ pending_uses k jobs
  unfolding mark_notified pends
  notified-pending_uses id key jobs =
      pending_uses-le jobs _ (any-update (pends k) _ _ jobs (λ r w p. ground arith))

  pub noted-pending_uses :
      (id key error : String) (jobs : Jobs)
      → pending_uses k (record_notification_error id key error jobs) ≤ pending_uses k jobs
  unfolding record_notification_error pends
  noted-pending_uses id key error jobs =
      pending_uses-le jobs _ (any-update (pends k) _ _ jobs (λ r w p. ground arith))

  requeued-pends :
      (now : String) (origin : Option String) (r : QueuedWork)
      → pends k (requeued now origin r) ≡ true
      → pends k r ≡ true
  unfolding requeued pends
  requeued-pends now origin r p = ground arith

  queued-pends : (now id : String) (origin : Option String) → pends k (queued now id origin) ≡ false
  unfolding queued pends
  queued-pends now id origin = ground arith

  pub insert-pending_uses :
      (now id : String) (origin : Option String) (jobs : Jobs)
      → pending_uses k (insert_job now id origin jobs) ≤ pending_uses k jobs
  unfolding insert_job
  insert-pending_uses now id origin jobs = elim (Bool-cases (any (is_job id) jobs)) [
    | inl there ↦
        let kept = pending_uses-le jobs _ (
          any-update (pends k) (is_job id) (requeued now origin) jobs
            (λ r w p. requeued-pends now origin r p)) in
        ground (arith, kept)
    | inr new ↦
        let appended = any_append (pends k) jobs (queued now id origin) in
        ground (arith, appended, queued-pends now id origin)
  ]

  pub dispatch-pending_uses :
      (now id : String) (origin : Option String) (jobs jobs' : Jobs) (job : QueuedWork)
      → dispatch now id origin jobs ≡ ok (job, jobs')
      → pending_uses k jobs' ≤ pending_uses k jobs
  unfolding dispatch
  dispatch-pending_uses now id origin jobs jobs' job h =
      let (j, got, e) =
        >>=-eq-ok (or_raise (get id (insert_job now id origin jobs)) assertion_error)
          (λ j. ok (j, insert_job now id origin jobs)) h in
      let same_jobs : insert_job now id origin jobs ≡ jobs' = cc in
      rw (sym same_jobs) (insert-pending_uses now id origin jobs)
