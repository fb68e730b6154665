-- ===== src/Service/Targets.antt =====
-- service.py: to whom the delivery of notices writes.
use agent_workflow_superviso.Exec.Relates.{Relates-except}
use agent_workflow_superviso.Service.Outcomes.{mark_notified, record_notification_error}
use agent_workflow_superviso.Prelude.{Option}
use agent_workflow_superviso.Result.{Error, or_raise, or_raise-eq-ok, assertion_error}
use agent_workflow_superviso.Exec.{lift}
use agent_workflow_superviso.Exec.Relates.{Relates-lift}
use agent_workflow_superviso.Prelude.{
  String, Bool, true, false, Option, none, some, List, ◌∷◌, ◌≡◌, ◌⊎◌, inl, inr, ap, ◌∙◌, arith,
  subst, Option-cases,
}
use agent_workflow_superviso.Prelude.{select, string_eq, option_eq}
use agent_workflow_superviso.Prelude.Members.{Member, here, there, select-one}
use agent_workflow_superviso.Result.{Result, ok, runtime_error}
use agent_workflow_superviso.Models.{AgentSession, active}
use agent_workflow_superviso.Exec.{pure, gets, continue, ◌>>=◌ as ◌>>=◌}
use agent_workflow_superviso.Exec.Relates.{
  IsPreorder, Relates, relates_rules, Relates-bind, Relates-members,
}
use agent_workflow_superviso.Exec.Yields.{
  Yields, Yields-pure, Yields-raise, Yields-case_one, Yields-some, Yields-if, Yields-with,
  Relates-with,
}
use agent_workflow_superviso.Service.Jobs.{QueuedWork, Jobs}
use agent_workflow_superviso.Service.Outcomes.{pending_notifications}
use agent_workflow_superviso.Service.Notices.{
  Messenger, Message, Desk, orchestrates, is_bound_to, notification_message, ask, change_jobs,
  log_sent, only_orchestrator, replacement, notification_target, notify, deliver, deliver_one,
  deliver_pending_notifications,
}

module _ {E : Type 0} (messenger : Messenger E) (project : String) where
  -- An active orchestrator.
  pub record IsOrchestrator (s : AgentSession) : Type 0 where
    pub role : s.role ≡ "orchestrator"
    pub active : active s ≡ true

  -- An active orchestrator bound to the project or to none.
  pub record IsBound (s : AgentSession) : Type 0 where
    pub orchestrator : IsOrchestrator s
    pub place : (s.project_id ≡ none) ⊎ (s.project_id ≡ some project)

  -- The preferred session when it is reported and bound. When it is reported as missing or not bound,
  -- the only active orchestrator among the reported sessions.
  pub data IsTarget (preferred : String) : String → Type 0 where
    bound :
        (e : E) (s : AgentSession)
        → (messenger.get_session preferred e).0 ≡ ok (some s)
        → IsBound s
        → IsTarget preferred s.id
    only :
        (e e' : E) (found : Option AgentSession) (sessions : List AgentSession) (s : AgentSession)
        → (messenger.get_session preferred e).0 ≡ ok found
        → ((p : AgentSession) → found ≡ some p → ¬ IsBound p)
        → (messenger.list_sessions project e').0 ≡ ok sessions
        → Member s sessions
        → IsOrchestrator s
        → ((o : AgentSession) → Member o sessions → IsOrchestrator o → o ≡ s)
        → IsTarget preferred s.id

  bound_lem : (s : AgentSession) → is_bound_to project s ≡ true → IsBound s
  unfolding is_bound_to orchestrates
  bound_lem s h = record {
    orchestrator = record { role = ground arith; active = ground arith };
    place = elim (Option-cases s.project_id) [
      | inl missing ↦ inl missing
      | inr (id, given) ↦ inr (ground (arith, given))
    ];
  }

  unbound_lem : (s : AgentSession) → is_bound_to project s ≡ false → ¬ IsBound s
  unfolding is_bound_to orchestrates
  unbound_lem s h b =
      let r = b.orchestrator.role in
      let a = b.orchestrator.active in
      elim b.place [
        | inl missing ↦ ground (arith, r, a, missing)
        | inr given ↦ ground (arith, r, a, given)
      ]

  orchestrates-eq-true : (s : AgentSession) → orchestrates s ≡ true → IsOrchestrator s
  unfolding orchestrates
  orchestrates-eq-true s h = record { role = ground arith; active = ground arith }

  IsOrchestrator-orchestrates : (s : AgentSession) → IsOrchestrator s → orchestrates s ≡ true
  unfolding orchestrates
  IsOrchestrator-orchestrates s o = let r = o.role in let a = o.active in ground (arith, r, a)

  ask-Yields :
      {A : Type 0} (f : E → Result A × E)
      → Yields {S = Desk E} (λ a. (e : E) × ((f e).0 ≡ ok a)) (ask f)
  unfolding ask
  ask-Yields f = record { at = λ d a h. (d.env, h) }

  lift-Yields :
      (o : Option String) (x : Error) → Yields {S = Desk E} (λ a. o ≡ some a) (lift (or_raise o x))
  unfolding lift
  lift-Yields o x = record { at = λ d a h. or_raise-eq-ok o x h }

  module _ (preferred : String) (e : E) (found : Option AgentSession)
      (got : (messenger.get_session preferred e).0 ≡ ok found)
      (unfit : (p : AgentSession) → found ≡ some p → ¬ IsBound p) where
    only-Yields :
        (e' : E) (sessions : List AgentSession)
        → (messenger.list_sessions project e').0 ≡ ok sessions
        → Yields (IsTarget preferred) (only_orchestrator messenger project sessions)
    unfolding only_orchestrator
    only-Yields e' sessions listed =
        Yields-case_one (select orchestrates sessions) _ _
          (λ s one.
            let (m, holds, unique) = select-one orchestrates sessions s one in
            Yields-pure s.id (
              only e e' found sessions s got unfit listed m (orchestrates-eq-true s holds)
                (λ o n k. unique o n (IsOrchestrator-orchestrates o k))))
          (Yields-raise runtime_error)

    replacement-Yields : Yields (IsTarget preferred) (replacement messenger project)
    unfolding replacement
    replacement-Yields =
        Yields-with (ask (messenger.list_sessions project)) _
          (ask-Yields (messenger.list_sessions project))
          (λ (sessions : List AgentSession) (e', listed). only-Yields e' sessions listed)

  IsTarget-Yields :
      (preferred : String)
      → Yields (IsTarget preferred) (notification_target messenger project preferred)
  unfolding notification_target
  IsTarget-Yields preferred =
      Yields-with (ask (messenger.get_session preferred)) _
        (ask-Yields (messenger.get_session preferred))
        λ (found : Option AgentSession) (e, got).
          Yields-some found _ _
            (λ missing. replacement-Yields preferred e found got (λ p is_p. absurd (cc)))
            λ s is_some.
              Yields-if (is_bound_to project s) _ _
                (λ fits. Yields-pure s.id (bound e s (got ∙ ap ok is_some) (bound_lem s fits)))
                (λ fails. replacement-Yields preferred e found got (λ p is_p.
                  let same : s ≡ p = cc in subst (λ q. ¬ IsBound q) same (unbound_lem s fails)))

  -- A message of the delivery: it tells of a waiting notice, to who dispatched the work item if that is
  -- possible.
  pub data IsNotice (jobs : Jobs) : Message → Type 0 where
    notice :
        (job : QueuedWork) (origin target : String)
        → Member job (pending_notifications jobs)
        → job.origin_session_id ≡ some origin
        → IsTarget origin target
        → IsNotice jobs (record { target = target; text = notification_message project job })

  module _ (jobs : Jobs) where
    abbrev Adds : Desk E → Desk E → Type 0
    Adds d d' = (m : Message) → Member m d'.sent → Member m d.sent ⊎ IsNotice jobs m

    Adds-order : IsPreorder Adds
    Adds-order = record {
      same = λ d m there_already. inl there_already;
      trans =
          λ d d' d'' a b m new. elim (b m new) [ inl earlier ↦ a m earlier | inr told ↦ inr told ];
    }

    log-Adds : (m : Message) → IsNotice jobs m → Relates Adds (log_sent m)
    unfolding log_sent
    log-Adds m told = record { at = λ d n new. added d n new }
      where
        added :
            (d : Desk E) (n : Message) → Member n (m ∷ d.sent) → Member n d.sent ⊎ IsNotice jobs n
        added d _ here = inr told
        added d n (there earlier) = inl earlier

    ask-Adds : {A : Type 0} (f : E → Result A × E) → Relates Adds (ask f)
    unfolding ask
    ask-Adds f = record { at = λ d m new. inl new }

    change-Adds : (f : Jobs → Jobs) → Relates Adds (change_jobs {E = E} f)
    unfolding change_jobs
    change-Adds f = record { at = λ d m new. inl new }

    target-Adds :
        (preferred : String) → Relates Adds (notification_target messenger project preferred)
    unfolding notification_target replacement only_orchestrator
    target-Adds preferred = search (relates_rules, Adds-order, ask-Adds) depth 10

    notify-Adds :
        (job : QueuedWork) (origin : String)
        → Member job (pending_notifications jobs)
        → job.origin_session_id ≡ some origin
        → Relates Adds (notify messenger project job origin)
    unfolding notify
    notify-Adds job origin waits dispatched =
        Relates-with Adds-order {Q = IsTarget origin} (notification_target messenger project origin)
          _ (target-Adds origin) (IsTarget-Yields origin)
          (λ target ok_target.
            Relates-bind Adds-order _ _
              (ask-Adds (messenger.send target (notification_message project job)))
              (λ _. log-Adds _ (notice job origin target waits dispatched ok_target)))

    deliver-Adds :
        (job : QueuedWork) (origin key : String)
        → Member job (pending_notifications jobs)
        → job.origin_session_id ≡ some origin
        → Relates Adds (deliver messenger project job origin key)
    unfolding deliver
    deliver-Adds job origin key waits dispatched =
        Relates-except Adds-order _ _
          (Relates-bind Adds-order _ _ (notify-Adds job origin waits dispatched)
            (λ _. change-Adds (mark_notified job.work_item_id key)))
          (λ e. change-Adds (record_notification_error job.work_item_id key (messenger.describe e)))

    deliver_one-Adds :
        (job : QueuedWork)
        → Member job (pending_notifications jobs)
        → Relates Adds (deliver_one messenger project job)
    unfolding deliver_one
    deliver_one-Adds job waits =
        Relates-with Adds-order (lift (or_raise job.origin_session_id assertion_error)) _
          (Relates-lift Adds-order (or_raise job.origin_session_id assertion_error))
          (lift-Yields job.origin_session_id assertion_error)
          (λ origin dispatched.
            Relates-bind Adds-order _ _
              (Relates-lift Adds-order (or_raise job.notification_key assertion_error))
              (λ key. deliver-Adds job origin key waits dispatched))

  -- Each message that the delivery sends tells of a notice that waited when it began, and goes to an
  -- active orchestrator which the runner has reported: the one that dispatched the work item, if it is
  -- bound to this project or to none, or else the only one of the project.
  pub sent-IsNotice :
      (is_ao : Bool) (d : Desk E) (m : Message)
      → Member m (deliver_pending_notifications messenger project is_ao d).1.sent
      → Member m d.sent ⊎ IsNotice d.jobs m
  unfolding deliver_pending_notifications gets ◌>>=◌ continue pure
  sent-IsNotice true d m new =
      (Relates-members (Adds-order d.jobs) (deliver_one messenger project)
          (pending_notifications d.jobs) (deliver_one-Adds d.jobs)).at
        d m new
  sent-IsNotice false d m new = inl new
