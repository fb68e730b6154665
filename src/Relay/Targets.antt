-- ===== src/Relay/Targets.antt =====
-- ao_relay.py: to whom the relay writes, and what.
use agent_workflow_superviso.Prelude.{
  String, some, List, ◌∷◌, ◌≡◌, refl, subst, ◌⊎◌, inl, inr, ap, ◌∙◌, ℕ,
}
use agent_workflow_superviso.Prelude.{string_eq}
use agent_workflow_superviso.Prelude.Members.{Member, here, there}
use agent_workflow_superviso.Result.{Result, ok, Result-cases}
use agent_workflow_superviso.Exec.{for_each, gets, ◌>>=◌, ◌>>◌ as ◌>>◌, continue, pure}
use agent_workflow_superviso.Models.{AgentSession}
use agent_workflow_superviso.Exec.Relates.{
  IsPreorder, Relates, relates_rules, Relates-bind, Relates-pure, Relates-some, Relates-members,
}
use agent_workflow_superviso.Exec.Yields.{Yields, Relates-with}
use agent_workflow_superviso.Relay.Store.{RelayWorker, Workers, pending_notifications}
use agent_workflow_superviso.Relay.Messages.{message}
use agent_workflow_superviso.Relay.Rounds.{
  RelayRunner, Sent, Relay, ask, log_sent, change, choose, delivery_target, note_unbound, discover,
  rebind, last_messages, watch_session, watch, tell, deliver, survey, deliver_all, reconcile_locked,
}
use agent_workflow_superviso.Relay.Choice.{IsTarget, target-Yields}

module _ {E : Type 0} (runner : RelayRunner E) where
  -- A message of the relay: what the runner reports of the worker of one of the rows, to one who may be told.
  pub data IsRelayed (sessions : List AgentSession) (rows : Workers) : Sent → Type 0 where
    relayed :
        (pending : RelayWorker) (e : E) (worker : AgentSession) (target report : String)
        → Member pending rows
        → (runner.get_session pending.worker_id e).0 ≡ ok (some worker)
        → IsTarget sessions pending target
        → IsRelayed sessions rows (record { target = target; text = message worker report })

  ask-Yields :
      {A : Type 0} (f : E → Result A × E)
      → Yields {S = Relay E} (λ a. (e : E) × ((f e).0 ≡ ok a)) (ask f)
  unfolding ask
  ask-Yields f = record { at = λ w a h. (w.env, h) }

  -- The survey sends nothing.
  abbrev SameSent : Relay E → Relay E → Type 0
  SameSent w w' = w'.sent ≡ w.sent

  SameSent-order : IsPreorder SameSent
  SameSent-order = record { same = λ w. refl; trans = λ w w' w'' a b. b ∙ a }

  ask-SameSent : {A : Type 0} (f : E → Result A × E) → Relates SameSent (ask f)
  unfolding ask
  ask-SameSent f = record { at = λ w. refl }

  change-SameSent : (f : String → Workers → Workers) → Relates SameSent (change runner f)
  unfolding change
  change-SameSent f = record { at = λ w. refl }

  discover-SameSent :
      (started_at : ℕ) (sessions : List AgentSession) (session : AgentSession)
      → Relates SameSent (discover runner started_at sessions session)
  unfolding discover note_unbound
  discover-SameSent started_at sessions session =
      search (relates_rules, SameSent-order, ask-SameSent, change-SameSent) depth 14

  watch-SameSent :
      (sessions : List AgentSession) (opened : RelayWorker)
      → Relates SameSent (watch runner sessions opened)
  unfolding watch watch_session rebind last_messages note_unbound
  watch-SameSent sessions opened =
      search (relates_rules, SameSent-order, ask-SameSent, change-SameSent) depth 20

  survey-SameSent :
      (started_at : ℕ) (sessions : List AgentSession)
      → Relates SameSent (survey runner started_at sessions)
  unfolding survey
  survey-SameSent started_at sessions =
      search (relates_rules, SameSent-order, discover-SameSent, watch-SameSent) depth 14

  module _ (sessions : List AgentSession) (rows : Workers) where
    abbrev Adds : Relay E → Relay E → Type 0
    Adds w w' = (m : Sent) → Member m w'.sent → Member m w.sent ⊎ IsRelayed sessions rows m

    Adds-order : IsPreorder Adds
    Adds-order = record {
      same = λ w m earlier. inl earlier;
      trans =
          λ w w' w'' a b m new. elim (b m new) [ inl earlier ↦ a m earlier | inr told ↦ inr told ];
    }

    ask-Adds : {A : Type 0} (f : E → Result A × E) → Relates Adds (ask f)
    unfolding ask
    ask-Adds f = record { at = λ w m new. inl new }

    change-Adds : (f : String → Workers → Workers) → Relates Adds (change runner f)
    unfolding change
    change-Adds f = record { at = λ w m new. inl new }

    log-Adds : (m : Sent) → IsRelayed sessions rows m → Relates Adds (log_sent m)
    unfolding log_sent
    log-Adds m told = record { at = λ w n new. added w n new }
      where
        added :
            (w : Relay E) (n : Sent)
            → Member n (m ∷ w.sent)
            → Member n w.sent ⊎ IsRelayed sessions rows n
        added w _ here = inr told
        added w n (there earlier) = inl earlier

    target-Adds : (pending : RelayWorker) → Relates Adds (delivery_target runner pending sessions)
    unfolding delivery_target choose
    target-Adds pending = search (relates_rules, Adds-order, change-Adds) depth 10

    tell-Adds :
        (pending : RelayWorker) (worker : AgentSession) (e : E) (report : ℕ × String)
        → Member pending rows
        → (runner.get_session pending.worker_id e).0 ≡ ok (some worker)
        → Relates Adds (tell runner sessions pending worker report)
    unfolding tell
    tell-Adds pending worker e report waits got =
        Relates-with Adds-order {Q = IsTarget sessions pending}
          (delivery_target runner pending sessions) _ (target-Adds pending)
          (target-Yields runner sessions pending)
          (λ target fits.
            Relates-bind Adds-order _ _ (ask-Adds (runner.send target (message worker report.1)))
              (λ _. log-Adds _ (relayed pending e worker target report.1 waits got fits)))

    deliver-Adds :
        (pending : RelayWorker)
        → Member pending rows
        → Relates Adds (deliver runner sessions pending)
    unfolding deliver
    deliver-Adds pending waits =
        Relates-with Adds-order (ask (runner.get_session pending.worker_id)) _
          (ask-Adds (runner.get_session pending.worker_id))
          (ask-Yields (runner.get_session pending.worker_id))
          (λ found (e, got). Relates-some found _ _ (Relates-pure Adds-order tt) λ worker is_worker.
            let tells = λ (report : ℕ × String).
              tell-Adds pending worker e report waits (got ∙ ap ok is_worker) in
            search (relates_rules, Adds-order, ask-Adds, change-Adds, tells) depth 14)

    loop-Adds : Relates Adds (for_each (deliver runner sessions) rows)
    loop-Adds = Relates-members Adds-order (deliver runner sessions) rows deliver-Adds

  deliver_all-Adds :
      (sessions : List AgentSession) (w : Relay E)
      → Adds sessions (pending_notifications w.workers) w (deliver_all runner sessions w).1
  unfolding deliver_all gets ◌>>=◌ continue pure
  deliver_all-Adds sessions w =
      (Relates-bind (Adds-order sessions (pending_notifications w.workers)) _ _
          (loop-Adds sessions (pending_notifications w.workers))
          (λ _. Relates-pure (Adds-order sessions (pending_notifications w.workers)) tt)).at
        w

  round-Adds :
      (started_at : ℕ) (sessions : List AgentSession) (w : Relay E) (m : Sent)
      → Member m ((survey runner started_at sessions >> deliver_all runner sessions) w).1.sent
      → Member m w.sent
        ⊎ IsRelayed sessions
            (pending_notifications (survey runner started_at sessions w).1.workers)
            m
  unfolding ◌>>=◌ continue
  round-Adds started_at sessions w m new =
      let kept = (survey-SameSent started_at sessions).at w in
      elim (Result-cases (survey runner started_at sessions w).0) [
        | inr (e, raised) ↦ inl (subst (Member m) (rw raised kept) new)
        | inl (u, done) ↦
            subst
              (λ (v : List Sent).
                Member m v
                ⊎ IsRelayed sessions
                    (pending_notifications (survey runner started_at sessions w).1.workers) m)
              kept
              (deliver_all-Adds sessions (survey runner started_at sessions w).1 m
                (subst (Member m) (rw done refl) new))
      ]

  -- Each message that a round of the relay sends tells of a worker whose row waits when the round comes
  -- to its deliveries, and says how a session is that the runner has reported for this worker. It goes to
  -- the active orchestrator of the row's project that the row is bound to, among the sessions that the
  -- round began with. When the row is bound to none of these, it goes to the only active orchestrator of
  -- the row's project.
  pub sent-IsRelayed :
      (started_at : ℕ) (w : Relay E) (m : Sent)
      → Member m (reconcile_locked runner started_at w).1.sent
      → Member m w.sent
        ⊎ ((sessions : List AgentSession) × ((runner.list_active_sessions w.env).0 ≡ ok sessions)
            × IsRelayed sessions
                (pending_notifications
                  (survey runner started_at sessions
                    (record w { env = (runner.list_active_sessions w.env).1 })).1.workers)
                m)
  unfolding reconcile_locked ask ◌>>=◌ continue
  sent-IsRelayed started_at w m new = elim (Result-cases (runner.list_active_sessions w.env).0) [
    | inr (e, raised) ↦ inl (subst (Member m) (rw raised refl) new)
    | inl (sessions, listed) ↦
        let w' = record w { env = (runner.list_active_sessions w.env).1 } in
        elim (round-Adds started_at sessions w' m (subst (Member m) (rw listed refl) new)) [
          | inl earlier ↦ inl earlier
          | inr told ↦ inr (sessions, listed, told)
        ]
  ]
