-- ===== src/Graph/Watchdog/Budget.antt =====
-- The reviews that are triggered, and the attempts that are counted.
use agent_workflow_superviso.Prelude.{
  ℕ, ◌+◌, suc, ◌≤◌, String, ◌≡◌, ◌≢◌, ◌⊎◌, inl, inr, refl, some, List, [], ◌∷◌, arith, Bool-cases,
}
use agent_workflow_superviso.Prelude.{◌==◌, string_eq, option_eq, nat_eq}
use agent_workflow_superviso.Result.{Result, ok}
use agent_workflow_superviso.Models.{AgentSession, ReviewResult, ReviewVerdict, verdict_eq}
use agent_workflow_superviso.Exec.Relates.{IsPreorder, Relates}
use agent_workflow_superviso.Exec.Yields.{Yields}
use agent_workflow_superviso.Exec.Costs.{Same, Grows}
use agent_workflow_superviso.Graph.State.{SupervisorState, or_default}
use agent_workflow_superviso.Graph.World.{
  SupervisorDependencies, Call, Entry, World, perform, call, read_clock,
}
use agent_workflow_superviso.Graph.Watch.{Watch, carried}

-- The number of reviews that were triggered.
unfoldable pub triggers : List Entry → ℕ
triggers [] = 0
triggers (e ∷ entries) =
    let rest = triggers entries in elim e.call [ Call.trigger_review id ↦ suc rest | _ ↦ rest ]

module _ {E : Type 0} where
  abbrev pub count : World E → ℕ
  count w = triggers w.calls

  pub Same-order : IsPreorder (Same count)
  Same-order = record { same = λ w. refl; trans = λ w w' w'' a b. cc }

  pub clock-Same : (f : E → ℕ × E) → Relates (Same count) (read_clock f)
  unfolding read_clock
  clock-Same f = record { at = λ w. refl }

  pub review-Same :
      {A : Type 0} (id : String) (f : E → Result A × E)
      → Relates (Same count) (call (Call.get_review id) f)
  unfolding call perform triggers
  review-Same id f = record { at = λ w. refl }

  pub session-Same :
      {A : Type 0} (id : String) (f : E → Result A × E)
      → Relates (Same count) (call (Call.get_session id) f)
  unfolding call perform triggers
  session-Same id f = record { at = λ w. refl }

  pub cancel-Same :
      {A : Type 0} (id : String) (f : E → Result A × E)
      → Relates (Same count) (call (Call.cancel_review id) f)
  unfolding call perform triggers
  cancel-Same id f = record { at = λ w. refl }

  pub trigger-Grows :
      {A : Type 0} (id : String) (f : E → Result A × E)
      → Relates (Grows count) (call (Call.trigger_review id) f)
  unfolding call perform triggers
  trigger-Grows id f = record { at = λ w. refl }

  -- What the call returns is an answer of the runner.
  pub review-Yields :
      {A : Type 0} (id : String) (f : E → Result A × E)
      → Yields (λ a. (e : E) × ((f e).0 ≡ ok a)) (call (Call.get_review id) f)
  unfolding call perform
  review-Yields id f = record { at = λ w a h. (w.env, h) }

module _ {E : Type 0} (deps : SupervisorDependencies E) where
  -- How many attempts at a review the state before has counted for the state after. They are those
  -- it has, if both are of the same worker and target, and none if they are of another. The count
  -- starts afresh behind a verdict that asks for changes. A run of another origin than the known one
  -- counts as one attempt.
  pub data Counted (s s' : SupervisorState) : ℕ → Type 0 where
    same :
        s'.review_worker_id ≡ s.review_worker_id
        → s'.review_triggered_for_sha ≡ s.review_triggered_for_sha
        → Counted s s' (or_default s.review_attempts 0)
    other :
        (s'.review_worker_id ≢ s.review_worker_id)
          ⊎ (s'.review_triggered_for_sha ≢ s.review_triggered_for_sha)
        → Counted s s' 0
    asked :
        (id : String) (e : E) (review : ReviewResult)
        → (deps.get_review id e).0 ≡ ok (some review)
        → review.verdict ≡ ReviewVerdict.changes_requested
        → Counted s s' 0
    outside :
        (id : String) (e : E) (review : ReviewResult)
        → (deps.get_review id e).0 ≡ ok (some review)
        → review.run_id ≢ ""
        → or_default s.review_run_id "" ≢ ""
        → or_default s.review_run_id "" ≢ review.run_id
        → Counted s s' 1

  -- Every review that was triggered is paid for by an attempt, and the attempts are within the limit.
  pub record IsPaid (s : SupervisorState) (n : ℕ) (s' : SupervisorState) : Type 0 where
    pub counted : ℕ
    pub is_counted : Counted s s' counted
    pub pays : n + counted ≤ or_default s'.review_attempts 0
    pub bound : or_default s'.review_attempts 0 ≤ deps.config.supervisor.review_max_attempts

  module _ (s : SupervisorState) (one : 1 ≤ deps.config.supervisor.review_max_attempts)
      (fits : or_default s.review_attempts 0 ≤ deps.config.supervisor.review_max_attempts) where
    -- The watchdog's fields are those of the state before.
    pub record IsKept (base : SupervisorState) : Type 0 where
      pub worker : base.review_worker_id ≡ s.review_worker_id
      pub target : base.review_triggered_for_sha ≡ s.review_triggered_for_sha
      pub attempts : base.review_attempts ≡ s.review_attempts

    pub kept-IsPaid : (s' : SupervisorState) → IsKept s' → IsPaid s 0 s'
    kept-IsPaid s' k =
        let a = k.attempts in
        record {
          counted = or_default s.review_attempts 0;
          is_counted = same k.worker k.target;
          pays = ground (arith, a, fits);
          bound = ground (arith, a, fits);
        }

    -- So much is counted for any state that watches the worker and the key.
    abbrev pub Knows : AgentSession → String → ℕ → Type 0
    Knows worker key k =
        (s' : SupervisorState)
        → s'.review_worker_id ≡ some worker.id
        → s'.review_triggered_for_sha ≡ some key
        → Counted s s' k

    pub paid :
        (n k : ℕ) (worker : AgentSession) (key : String) (attempts : ℕ)
        → Knows worker key k
        → n + k ≤ attempts
        → attempts ≤ deps.config.supervisor.review_max_attempts
        → (s' : SupervisorState) → s'.review_worker_id ≡ some worker.id
        → s'.review_triggered_for_sha ≡ some key
        → s'.review_attempts ≡ some attempts
        → IsPaid s n s'
    paid n k worker key attempts knows pays bound s' w t a = record {
      counted = k;
      is_counted = knows s' w t;
      pays = ground (arith, a, pays);
      bound = ground (arith, a, bound);
    }

    -- A watch whose attempts are counted and within the limit.
    pub record IsGood (worker : AgentSession) (key : String) (watch : Watch) : Type 0 where
      pub counted : ℕ
      pub knows : Knows worker key counted
      pub fewer : counted ≤ watch.attempts
      pub bound : watch.attempts ≤ deps.config.supervisor.review_max_attempts

    pub carried-Knows :
        (worker : AgentSession) (key : String) → Knows worker key (carried s worker key).attempts
    unfolding carried
    carried-Knows worker key s' w t = elim (Bool-cases (s.review_worker_id == some worker.id)) [
      | inr differs ↦ rw differs (other (inl (λ e. ground (arith, w, e))))
      | inl holds ↦ elim (Bool-cases (s.review_triggered_for_sha == some key)) [
        | inr differs ↦ rw (holds, differs) (other (inr (λ e. ground (arith, t, e))))
        | inl target ↦ rw (holds, target) (same (ground (arith, w)) (ground (arith, t)))
      ]
    ]

    pub carried-IsGood :
        (worker : AgentSession) (key : String) → IsGood worker key (carried s worker key)
    unfolding carried
    carried-IsGood worker key = record {
      counted = (carried s worker key).attempts;
      knows = carried-Knows worker key;
      fewer = omega arith;
      bound = ground (arith, fits);
    }
