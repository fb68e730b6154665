-- ===== src/Relay/Choice.antt =====
-- ao_relay.py: whom `_delivery_target` chooses.
use agent_workflow_superviso.Prelude.{
  String, true, false, some, List, ◌≡◌, ◌≢◌, sym, subst, ap, ◌∙◌, arith,
}
use agent_workflow_superviso.Prelude.{◌==◌, string_eq, select, any}
use agent_workflow_superviso.Prelude.Members.{
  Member, any-eq-true, any-select_both, any-Member, Member-select, select-one,
}
use agent_workflow_superviso.Result.{runtime_error}
use agent_workflow_superviso.Models.{AgentSession, active}
use agent_workflow_superviso.Exec.Yields.{
  Yields, Yields-pure, Yields-raise, Yields-if, Yields-bind, Yields-case_one, Yields-some,
}
use agent_workflow_superviso.Relay.Store.{RelayWorker}
use agent_workflow_superviso.Relay.Messages.{is_orchestrator_of}
use agent_workflow_superviso.Relay.Rounds.{RelayRunner, choose, delivery_target}

-- An active orchestrator of the project.
pub record IsOrchestratorOf (project : String) (s : AgentSession) : Type 0 where
  pub role : s.role ≡ "orchestrator"
  pub active : active s ≡ true
  pub place : s.project_id ≡ some project

orchestrator_lem :
    (project : String) (s : AgentSession)
    → is_orchestrator_of (some project) s ≡ true
    → IsOrchestratorOf project s
unfolding is_orchestrator_of
orchestrator_lem project s h = record {
  role = ground arith;
  active = ground arith;
  place = ground arith;
}

IsOrchestratorOf-is_orchestrator :
    (project : String) (s : AgentSession)
    → IsOrchestratorOf project s
    → is_orchestrator_of (some project) s ≡ true
unfolding is_orchestrator_of
IsOrchestratorOf-is_orchestrator project s o =
    let r = o.role in let a = o.active in let p = o.place in ground (arith, r, a, p)

-- Who may be told of the worker: the active orchestrator of its project that it is bound to. When it is
-- bound to none of these, the only active orchestrator of its project.
pub data IsTarget (sessions : List AgentSession) (pending : RelayWorker) : String → Type 0 where
  own :
      (s : AgentSession)
      → Member s sessions
      → IsOrchestratorOf pending.project_id s
      → pending.orchestrator_id ≡ some s.id
      → IsTarget sessions pending s.id
  only :
      (s : AgentSession)
      → ((o : AgentSession)
          → Member o sessions
          → IsOrchestratorOf pending.project_id o
          → pending.orchestrator_id ≢ some o.id)
      → Member s sessions
      → IsOrchestratorOf pending.project_id s
      → ((o : AgentSession) → Member o sessions → IsOrchestratorOf pending.project_id o → o ≡ s)
      → IsTarget sessions pending s.id

module _ {E : Type 0} (runner : RelayRunner E) where
  module _ (sessions : List AgentSession) (pending : RelayWorker)
      (unbound : (o : AgentSession)
        → Member o sessions
        → IsOrchestratorOf pending.project_id o
        → pending.orchestrator_id ≢ some o.id) where
    choose-Yields :
        Yields
          (IsTarget sessions pending)
          (choose runner pending (select (is_orchestrator_of (some pending.project_id)) sessions))
    unfolding choose
    choose-Yields =
        Yields-case_one (select (is_orchestrator_of (some pending.project_id)) sessions) _ _
          (λ s one.
            let (m, holds, unique) = select-one _ sessions s one in
            Yields-bind _ _ (λ u. Yields-pure s.id (
              only s unbound m (orchestrator_lem pending.project_id s holds)
                (λ o n k. unique o n (IsOrchestratorOf-is_orchestrator pending.project_id o k)))))
          (Yields-raise runtime_error)

  own-IsTarget :
      (sessions : List AgentSession) (pending : RelayWorker) (id : String)
      → pending.orchestrator_id ≡ some id
      → any (λ s. s.id == id) (select (is_orchestrator_of (some pending.project_id)) sessions)
        ≡ true
      → IsTarget sessions pending id
  own-IsTarget sessions pending id bound found =
      let (s, m, holds) = any-eq-true _ sessions (
        any-select_both (is_orchestrator_of (some pending.project_id)) (λ s. s.id == id) sessions
          found) in
      let same : s.id ≡ id = ground arith in
      subst (IsTarget sessions pending) same (
        own s m (orchestrator_lem pending.project_id s (ground arith)) (bound ∙ ap some (sym same)))

  not_own :
      (sessions : List AgentSession) (pending : RelayWorker) (id : String)
      → pending.orchestrator_id ≡ some id
      → any (λ s. s.id == id) (select (is_orchestrator_of (some pending.project_id)) sessions)
        ≡ false
      → (o : AgentSession) → Member o sessions
      → IsOrchestratorOf pending.project_id o
      → pending.orchestrator_id ≢ some o.id
  not_own sessions pending id bound missing o m k same =
      let found =
        any-Member (λ s. s.id == id) o
          (select (is_orchestrator_of (some pending.project_id)) sessions)
          (Member-select _ sessions o m (IsOrchestratorOf-is_orchestrator pending.project_id o k))
          (let e : o.id ≡ id = cc in ground (arith, e)) in
      cc

  pub target-Yields :
      (sessions : List AgentSession) (pending : RelayWorker)
      → Yields (IsTarget sessions pending) (delivery_target runner pending sessions)
  unfolding delivery_target
  target-Yields sessions pending =
      Yields-some pending.orchestrator_id _ _
        (λ none_bound. choose-Yields sessions pending (λ o m k same. absurd (cc)))
        λ id bound.
          Yields-if
            (any (λ s. s.id == id) (select (is_orchestrator_of (some pending.project_id)) sessions))
            _ _ (λ found. Yields-pure id (own-IsTarget sessions pending id bound found))
            (λ missing. choose-Yields sessions pending (not_own sessions pending id bound missing))
