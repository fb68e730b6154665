-- ===== src/Graph/Approvals.antt =====
-- What the approval gate does with each answer of a person.
use agent_workflow_superviso.Prelude.{
  ◌≡◌, refl, subst, ℕ, suc, false, true, none, some, String, ◌⊎◌, inl, inr, arith, Bool-cases,
}
use agent_workflow_superviso.Prelude.{string_eq, option_eq, Option-cases}
use agent_workflow_superviso.Result.{ok, err, interrupted}
use agent_workflow_superviso.Exec.{◌>>=◌}
use agent_workflow_superviso.Graph.State.{Status, Approval, SupervisorState, event}
use agent_workflow_superviso.Graph.World.{SupervisorDependencies, Response, World}
use agent_workflow_superviso.Graph.Run.{
  approve, verify, body, next, finished, paused, move, follow, run,
}
use agent_workflow_superviso.Graph.Delivery.{approval_gate, is_approval, answered, interrupt}

-- The approval is of the change and the head that the state held when the person answered.
pub record IsRecorded (s s' : SupervisorState) : Type 0 where
  pub status : s'.status ≡ some Status.approval_recorded
  pub approval : s'.approval ≡ some Approval.approved
  pub change : s'.approval_change_id ≡ s.change_id
  pub head : s'.approval_target_sha ≡ s.change_head_sha

pub record IsRejected (s' : SupervisorState) : Type 0 where
  pub status : s'.status ≡ some Status.approval_rejected
  pub approval : s'.approval ≡ some Approval.rejected

-- The answers that approve: the dictionary's action, or the text itself, is "approve".
pub data Approves : Response → Type 0 where
  by_action : Approves (Response.action (some "approve"))
  by_text : Approves (Response.value "approve")

approves_lem : (response : Response) → is_approval response ≡ true → Approves response
unfolding is_approval
approves_lem (Response.action none) h = absurd (cc)
approves_lem (Response.action (some a)) h =
    let same : "approve" ≡ a = ground arith in
    subst (λ t. Approves (Response.action (some t))) same by_action
approves_lem (Response.value v) h =
    let same : "approve" ≡ v = ground arith in subst (λ t. Approves (Response.value t)) same by_text

Approves-is_approval : (response : Response) → Approves response → is_approval response ≡ true
unfolding is_approval string_eq
Approves-is_approval _ by_action = refl
Approves-is_approval _ by_text = refl

module _ {E : Type 0} (deps : SupervisorDependencies E) where
  answered-IsRecorded :
      (s : SupervisorState) (response : Response) (change_id head_sha : String)
      → s.change_id ≡ some change_id
      → s.change_head_sha ≡ some head_sha
      → is_approval response ≡ true
      → IsRecorded s (answered response s change_id head_sha)
  unfolding answered event
  answered-IsRecorded s response change_id head_sha c h approves = record {
    status = ground arith;
    approval = ground arith;
    change = ground arith;
    head = ground arith;
  }

  answered-IsRejected :
      (s : SupervisorState) (response : Response) (change_id sha : String)
      → is_approval response ≡ false
      → IsRejected (answered response s change_id sha)
  unfolding answered event
  answered-IsRejected s response change_id sha reject = record {
    status = ground arith;
    approval = ground arith;
  }

  module _ (s : SupervisorState) (w : World E) (work_item_id change_id : String)
      (i : s.work_item_id ≡ some work_item_id) (c : s.change_id ≡ some change_id) where
    gate_pauses : w.resume ≡ none → approval_gate deps s w ≡ (err interrupted, w)
    unfolding approval_gate interrupt ◌>>=◌
    gate_pauses e = ground arith

    gate_approves :
        (response : Response) (head_sha : String)
        → s.change_head_sha ≡ some head_sha
        → w.resume ≡ some response
        → is_approval response ≡ true
        → approval_gate deps s w
          ≡ (ok (answered response s change_id head_sha), record w { resume = none })
    unfolding approval_gate interrupt ◌>>=◌
    gate_approves response head_sha h e approves = ground arith

    gate_rejects :
        (response : Response)
        → w.resume ≡ some response
        → is_approval response ≡ false
        → approval_gate deps s w
          ≡ (ok (answered response s change_id ""), record w { resume = none })
    unfolding approval_gate interrupt ◌>>=◌
    gate_rejects response e rejects = ground arith

  -- A run at the gate of a known change pauses there unchanged while there is no answer. An answer is
  -- taken once. If it approves, the run goes on to the verification, with an approval recorded for this
  -- change at this head. If it is any other answer, the run is finished with a rejection recorded and
  -- nothing else done to the world.
  pub run-approval_gate :
      (fuel : ℕ) (s : SupervisorState) (w : World E) (work_item_id change_id head_sha : String)
      → s.work_item_id ≡ some work_item_id
      → s.change_id ≡ some change_id
      → s.change_head_sha ≡ some head_sha
      → ((w.resume ≡ none) × (run deps (suc fuel) approve s w ≡ (paused s, w)))
        ⊎ ((response : Response) × (s' : SupervisorState) × (w.resume ≡ some response)
            × ((Approves response
                  × IsRecorded s s'
                  × (run deps (suc fuel) approve s w
                      ≡ run deps fuel verify s' (record w { resume = none })))
                ⊎ ((¬ Approves response)
                    × IsRejected s'
                    × (run deps (suc fuel) approve s w
                        ≡ (finished s', record w { resume = none })))))
  unfolding run body follow move next
  run-approval_gate fuel s w work_item_id change_id head_sha i c h = elim (Option-cases w.resume) [
    | inl e ↦ inl (e, rw (gate_pauses s w work_item_id change_id i c e) refl)
    | inr (response, e) ↦ elim (Bool-cases (is_approval response)) [
      | inl approves ↦
          let recorded = answered-IsRecorded s response change_id head_sha c h approves in
          let status = recorded.status in
          inr (
            response,
            answered response s change_id head_sha,
            e,
            inl (
              approves_lem response approves,
              recorded,
              rw
                  (
                    gate_approves s w work_item_id change_id i c response head_sha h e approves,
                    status,
                  )
                  refl,
            ),
          )
      | inr rejects ↦
          let rejected = answered-IsRejected s response change_id "" rejects in
          let status = rejected.status in
          inr (
            response,
            answered response s change_id "",
            e,
            inr (
              (λ a. let e = Approves-is_approval response a in cc),
              rejected,
              rw (gate_rejects s w work_item_id change_id i c response e rejects, status) refl,
            ),
          )
    ]
  ]
