-- ===== src/Service/Claims.antt =====
-- service.py: a decision that is queued, and one that is claimed.
use agent_workflow_superviso.Prelude.{
  ◌+◌, ◌≤◌, String, Bool, true, false, not, ◌&&◌, Option, none, some, List, [], ◌∷◌, ◌≡◌, inl, inr,
  refl, arith, Bool-cases, Option-cases,
}
use agent_workflow_superviso.Prelude.{◌==◌, option_eq, string_eq, any, first, count_if}
use agent_workflow_superviso.Result.{Result, ok, err, ◌>>=◌, or_raise, assertion_error}
use agent_workflow_superviso.Service.Jobs.{
  QueuedWork, Jobs, is_job, is_gate, is_claimable, is_bound, approve, check_request, claim_approval,
  queue_decision, consume_decision, get,
}
use agent_workflow_superviso.Service.Reconcile.{Resumed}
use agent_workflow_superviso.Tables.Queries.{any-update, any-update_none, first-any}
use agent_workflow_superviso.Service.Decisions.{same, pends, pending_uses, pending_uses-le}

module _ (k : Resumed) where
  consume-pending_uses :
      (now id change_id target_sha : String) (jobs : Jobs)
      → pending_uses k (consume_decision now id change_id target_sha jobs) ≤ pending_uses k jobs
  unfolding consume_decision pends
  consume-pending_uses now id change_id target_sha jobs =
      pending_uses-le k jobs _ (any-update (pends k) _ _ jobs (λ r w p. ground arith))

  consumed :
      (now : String) (jobs : Jobs)
      → any (pends k) (consume_decision now k.work_item_id k.change_id k.target_sha jobs) ≡ false
  unfolding consume_decision pends is_bound
  consumed now jobs = any-update_none (pends k) _ _ jobs (λ r w. ground arith) (λ r w. ground arith)

  claimable-pends :
      (r : QueuedWork)
      → is_claimable k.work_item_id k.change_id k.target_sha r ≡ true
      → r.approval ≡ some k.decision
      → pends k r ≡ true
  unfolding is_claimable pends
  claimable-pends r c d = ground arith

  -- A claimed decision was pending_uses, and is no more.
  pub claim-pending_uses :
      (now : String) (jobs : Jobs)
      → (claim_approval now k.work_item_id k.change_id k.target_sha jobs).0 ≡ some k.decision
      → pending_uses k (claim_approval now k.work_item_id k.change_id k.target_sha jobs).1 + 1
        ≤ pending_uses k jobs
  unfolding claim_approval
  claim-pending_uses now jobs h =
      elim (Option-cases (first (is_claimable k.work_item_id k.change_id k.target_sha) jobs)) [
        | inl missing ↦ absurd (ground arith)
        | inr (r, found) ↦
            let (held, _) = first-any _ (λ _. true) jobs found refl in
            let there =
              first-any (is_claimable k.work_item_id k.change_id k.target_sha) (pends k) jobs found
                (claimable-pends r held (ground arith)) in
            ground (arith, there, consumed now jobs)
      ]

  pub claim-pending_uses-same :
      (now id change_id target_sha : String) (jobs : Jobs) (decision : String)
      → (claim_approval now id change_id target_sha jobs).0 ≡ some decision
      → same k (record {
        work_item_id = id;
        decision = decision;
        change_id = change_id;
        target_sha = target_sha;
      })
        ≡ true
      → pending_uses k (claim_approval now id change_id target_sha jobs).1 + 1 ≤ pending_uses k jobs
  unfolding same
  claim-pending_uses-same now id change_id target_sha jobs decision h s =
      let a : id ≡ k.work_item_id = ground arith in
      let b : change_id ≡ k.change_id = ground arith in
      let c : target_sha ≡ k.target_sha = ground arith in
      let d : decision ≡ k.decision = ground arith in
      rw (a, b, c) (claim-pending_uses now jobs (cc))

  -- A claim never brings a decision back.
  pub claim-pending_uses-le :
      (now id change_id target_sha : String) (jobs : Jobs)
      → pending_uses k (claim_approval now id change_id target_sha jobs).1 ≤ pending_uses k jobs
  unfolding claim_approval
  claim-pending_uses-le now id change_id target_sha jobs =
      elim (Option-cases (first (is_claimable id change_id target_sha) jobs)) [
        | inl missing ↦ rw (missing, claim_approval) (omega arith)
        | inr (r, found) ↦
            rw (found, claim_approval) (consume-pending_uses now id change_id target_sha jobs)
      ]

  queued-same :
      (now : String) (r : QueuedWork) (id decision change_id target_sha : String)
      → is_gate id change_id target_sha r ≡ true
      → pends k (record r { active = true; approval = some decision; updated_at = now }) ≡ true
      → same k (record {
        work_item_id = id;
        decision = decision;
        change_id = change_id;
        target_sha = target_sha;
      })
        ≡ true
  unfolding pends same is_gate is_job
  queued-same now r id decision change_id target_sha w p = ground arith

  pub queue-pending_uses :
      (now id decision change_id target_sha : String) (jobs : Jobs)
      → pending_uses k (queue_decision now id decision change_id target_sha jobs)
        ≤ pending_uses k jobs
          + count_if (same k) (
              record {
                work_item_id = id;
                decision = decision;
                change_id = change_id;
                target_sha = target_sha;
              }
              ∷ [])
  unfolding queue_decision count_if
  queue-pending_uses now id decision change_id target_sha jobs =
      let given : Resumed = record {
        work_item_id = id;
        decision = decision;
        change_id = change_id;
        target_sha = target_sha;
      } in
      elim (Bool-cases (same k given)) [
        | inl is_same ↦ ground arith
        | inr other ↦
            let kept = pending_uses-le k jobs _ (
              any-update (pends k) (is_gate id change_id target_sha) _ jobs
                (λ (r : QueuedWork) (w : is_gate id change_id target_sha r ≡ true)
                    (p : pends k
                        (record r { active = true; approval = some decision; updated_at = now })
                      ≡ true).
                  absurd (
                    ground
                      (arith, queued-same now r id decision change_id target_sha w p, other)))) in
            ground (arith, kept)
      ]

pub count-cons :
    {A : Type 0} (p : A → Bool) (a : A) (rows : List A)
    → count_if p (a ∷ rows) ≡ count_if p (a ∷ []) + count_if p rows
unfolding count_if
count-cons p a rows = ground arith

answered :
    (found : Option QueuedWork) (after jobs' : Jobs) (job : QueuedWork)
    → ◌>>=◌ {B = QueuedWork × Jobs} (or_raise found assertion_error) (λ j. ok (j, after))
      ≡ ok (job, jobs')
    → after ≡ jobs'
answered none after jobs' job h = absurd (cc)
answered (some r) after jobs' job h = cc

checked :
    {A : Type 0} (call : Result (Unit {0})) (rest : Result A) {a : A}
    → (call >>= λ _. rest) ≡ ok a
    → rest ≡ ok a
checked (err e) rest h = absurd (cc)
checked (ok u) rest h = h

pub approve-eq-ok :
    (now id decision change_id target_sha : String) (jobs jobs' : Jobs) (job : QueuedWork)
    → approve now id decision change_id target_sha jobs ≡ ok (job, jobs')
    → queue_decision now id decision change_id target_sha jobs ≡ jobs'
unfolding approve
approve-eq-ok now id decision change_id target_sha jobs jobs' job h =
    let after = queue_decision now id decision change_id target_sha jobs in
    answered (get id after) after jobs' job
      (checked (check_request id decision change_id target_sha jobs) _ h)

pub waiting_lem : (not false && ◌==◌ {A = String} "waiting_for_ao" "awaiting_approval") ≡ false
unfolding string_eq
waiting_lem = refl
