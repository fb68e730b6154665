-- ===== src/Service/Delivery.antt =====
-- service.py: what the delivery of notices comes to.
use agent_workflow_superviso.Prelude.{
  String, Bool, true, false, not, ◌&&◌, ◌||◌, Option, none, some, List, [], ◌∷◌, ◌≡◌, sym, inl, inr,
  refl, arith, Bool-cases, Option-cases, ◌∙◌,
}
use agent_workflow_superviso.Prelude.{◌==◌, ◌!=◌, any, all, select, option_eq, string_eq}
use agent_workflow_superviso.Prelude.Members.{
  any-none, any-select, any-select_none, any-map, all-Member,
}
use agent_workflow_superviso.Result.{Error, Result, ok, Result-cases, or_raise, assertion_error}
use agent_workflow_superviso.Models.{AgentSession}
use agent_workflow_superviso.Exec.{Exec, lift, gets, except, recover, for_each, continue, pure}
use agent_workflow_superviso.Exec.{◌>>=◌ as ◌>>=◌}
use agent_workflow_superviso.Exec.Relates.{IsPreorder, Relates, relates_rules}
use agent_workflow_superviso.Tables.{order_by, is_null, is_due}
use agent_workflow_superviso.Tables.Queries.{any-update_moved, any-order_by}
use agent_workflow_superviso.Service.Jobs.{QueuedWork, Jobs, row, is_job}
use agent_workflow_superviso.Service.Outcomes.{
  has_notice, is_pending, pending_notifications, mark_notified, record_notification_error,
}
use agent_workflow_superviso.Graph.State.{or_none}
use agent_workflow_superviso.Service.Notices.{
  Messenger, Message, Desk, ask, change_jobs, log_sent, only_orchestrator, replacement,
  notification_target, notify, deliver, deliver_one, deliver_pending_notifications,
}

-- No column holds an empty text where it should hold NULL.
unfoldable pub is_proper : QueuedWork → Bool
is_proper r = r.origin_session_id != some "" && r.notification_key != some ""

-- The notice waits, and no failure is written down for it.
unfoldable pub unsettled : QueuedWork → Bool
unfolding is_pending
unsettled r = is_pending r && is_null r.notification_error

-- Two rows stand for the same notice.
same_notice : QueuedWork → QueuedWork → Bool
same_notice r l = r.work_item_id == l.work_item_id && r.notification_key == l.notification_key

left : List QueuedWork → QueuedWork → Bool
unfolding unsettled same_notice
left queue r = unsettled r && not (any (same_notice r) queue)

lacking : QueuedWork → Bool
lacking l = is_null l.origin_session_id || is_null l.notification_key

row-lacking : (r : QueuedWork) → is_proper r ≡ true → is_pending r ≡ true → lacking (row r) ≡ false
unfolding is_proper is_pending lacking row or_none is_due
row-lacking r p h = ground arith

row-same_notice :
    (r : QueuedWork) → is_proper r ≡ true → is_pending r ≡ true → same_notice r (row r) ≡ true
unfolding is_proper is_pending same_notice row or_none is_due
row-same_notice r p h = ground arith

module _ (jobs : Jobs) (proper : all is_proper jobs ≡ true) where
  any-pending :
      (p : QueuedWork → Bool)
      → any p (pending_notifications jobs) ≡ any (λ r. p (row r)) (select is_pending jobs)
  unfolding pending_notifications
  any-pending p =
      any-map p row (order_by (λ r. r.updated_at) (select is_pending jobs))
      ∙ any-order_by (λ r. p (row r)) (λ r. r.updated_at) (select is_pending jobs)

  pending-lacking : any lacking (pending_notifications jobs) ≡ false
  pending-lacking =
      any-pending lacking
      ∙ any-select_none (λ r. lacking (row r)) is_pending jobs
          (λ a m h. row-lacking a (all-Member is_proper a jobs m proper) h)

  pending-left : any (left (pending_notifications jobs)) jobs ≡ false
  unfolding left unsettled
  pending-left = any-none (left (pending_notifications jobs)) jobs λ a m.
      elim (Bool-cases (is_pending a)) [
        | inr settled ↦ ground arith
        | inl waits ↦
            let found = any-pending (same_notice a) in
            let in_queue =
              any-select (λ r. same_notice a (row r)) is_pending a jobs m waits
                (row-same_notice a (all-Member is_proper a jobs m proper) waits) in
            ground (arith, found, in_queue)
      ]

module _ (l : QueuedWork) (queue : List QueuedWork) (id key : String)
    (same_id : id ≡ l.work_item_id) (same_key : l.notification_key ≡ some key) where
  same-has : (r : QueuedWork) → same_notice r l ≡ has_notice id key r
  unfolding same_notice has_notice is_job
  same-has r = rw (same_key, same_id) refl

  elsewhere :
      (r : QueuedWork)
      → has_notice id key r ≡ false
      → left queue r ≡ true
      → left (l ∷ queue) r ≡ true
  unfolding left any
  elsewhere r other h = ground (arith, same-has r)

  mark-left :
      (jobs : Jobs)
      → any (left (l ∷ queue)) jobs ≡ false
      → any (left queue) (mark_notified id key jobs) ≡ false
  unfolding mark_notified left unsettled is_pending is_due has_notice
  mark-left jobs h =
      any-update_moved (left (l ∷ queue)) (left queue) (has_notice id key) _ jobs
        (λ r w. ground arith) elsewhere h

  note-left :
      (error : String) (jobs : Jobs)
      → any (left (l ∷ queue)) jobs ≡ false
      → any (left queue) (record_notification_error id key error jobs) ≡ false
  unfolding record_notification_error left unsettled
  note-left error jobs h =
      any-update_moved (left (l ∷ queue)) (left queue) (has_notice id key) _ jobs
        (λ r w. ground arith) elsewhere h

lift-some :
    {S A B : Type 0} (o : Option A) {a : A} (e : Error) (f : A → Exec S B)
    → o ≡ some a
    → (lift (or_raise o e) >>= f) ≡ f a
unfolding lift ◌>>=◌ continue
lift-some none e f h = absurd (cc)
lift-some (some b) {a} e f h = let same : b ≡ a = cc in rw same refl

module _ {E : Type 0} (messenger : Messenger E) (project : String) where
  abbrev SameJobs : Desk E → Desk E → Type 0
  SameJobs d d' = d'.jobs ≡ d.jobs

  same_order : IsPreorder SameJobs
  same_order = record { same = λ d. refl; trans = λ d d' d'' a b. b ∙ a }

  ask-SameJobs : {A : Type 0} (f : E → Result A × E) → Relates SameJobs (ask f)
  unfolding ask
  ask-SameJobs f = record { at = λ d. refl }

  log-SameJobs : (m : Message) → Relates SameJobs (log_sent m)
  unfolding log_sent
  log-SameJobs m = record { at = λ d. refl }

  only-SameJobs :
      (sessions : List AgentSession)
      → Relates SameJobs (only_orchestrator messenger project sessions)
  unfolding only_orchestrator
  only-SameJobs sessions = search (relates_rules, same_order) depth 4

  notify-SameJobs :
      (job : QueuedWork) (origin : String) → Relates SameJobs (notify messenger project job origin)
  unfolding notify notification_target replacement
  notify-SameJobs job origin =
      search (relates_rules, same_order, ask-SameJobs, log-SameJobs, only-SameJobs) depth 12

  -- What became of one notice.
  data Settles (id key : String) (jobs jobs' : Jobs) : Type 0 where
    told : jobs' ≡ mark_notified id key jobs → Settles id key jobs jobs'
    noted :
        (error : String)
        → jobs' ≡ record_notification_error id key error jobs
        → Settles id key jobs jobs'

  deliver-Settles :
      (l : QueuedWork) (d : Desk E) (origin key : String)
      → ((deliver messenger project l origin key d).0 ≡ ok tt)
        × Settles l.work_item_id key d.jobs (deliver messenger project l origin key d).1.jobs
  unfolding deliver except ◌>>=◌ recover change_jobs
  deliver-Settles l d origin key =
      let kept = (notify-SameJobs l origin).at d in
      elim (Result-cases (notify messenger project l origin d).0) [
        | inl (u, sent) ↦ rw sent (refl, told (rw kept refl))
        | inr (e, raised) ↦ rw raised (refl, noted (messenger.describe e) (rw kept refl))
      ]

  deliver_one_lem :
      (l : QueuedWork) (d : Desk E)
      → lacking l ≡ false
      → (key : String) × (l.notification_key ≡ some key)
        × ((deliver_one messenger project l d).0 ≡ ok tt)
        × Settles l.work_item_id key d.jobs (deliver_one messenger project l d).1.jobs
  unfolding deliver_one lacking
  deliver_one_lem l d whole = elim (Option-cases l.origin_session_id) [
    | inl missing ↦ absurd (ground arith)
    | inr (origin, has_origin) ↦ elim (Option-cases l.notification_key) [
      | inl missing ↦ absurd (ground arith)
      | inr (key, has_key) ↦
          let same =
            lift-some l.origin_session_id assertion_error
              (λ o. do
                key ← lift (or_raise l.notification_key assertion_error)
                deliver messenger project l o key)
              has_origin
            ∙ lift-some l.notification_key assertion_error (deliver messenger project l origin)
                has_key in
          let (done, settled) = deliver-Settles l d origin key in
          (key, has_key, rw same done, rw same settled)
    ]
  ]

  deliver_all :
      (queue : List QueuedWork) (d : Desk E)
      → any lacking queue ≡ false
      → any (left queue) d.jobs ≡ false
      → let after = for_each (deliver_one messenger project) queue d in
        ((units : List (Unit {0})) × (after.0 ≡ ok units)) × (any (left []) after.1.jobs ≡ false)
  unfolding for_each pure any ◌>>=◌ continue
  deliver_all [] d whole h = (([], refl), h)
  deliver_all (l ∷ queue) d whole h =
      let (key, has_key, done, settled) = deliver_one_lem l d (ground arith) in
      let d' = (deliver_one messenger project l d).1 in
      let h' : any (left queue) d'.jobs ≡ false = elim settled [
        | told e ↦ rw e (mark-left l queue l.work_item_id key refl has_key d.jobs h)
        | noted error e ↦ rw e (note-left l queue l.work_item_id key refl has_key error d.jobs h)
      ] in
      let ((units, told_all), none_left) = deliver_all queue d' (ground arith) h' in
      rw (done, told_all) ((tt ∷ units, refl), none_left)

  left_none : (r : QueuedWork) → left [] r ≡ unsettled r
  unfolding left any
  left_none r = ground arith

  any-left_none : (jobs : Jobs) → any (left []) jobs ≡ any unsettled jobs
  unfolding any
  any-left_none [] = refl
  any-left_none (r ∷ jobs) = ground (arith, left_none r, any-left_none jobs)

  -- Where the runner is AO and no row holds an empty text as its session or its notice, the delivery
  -- returns whatever the runner does, and then no notice waits for which no failure is written down.
  pub deliver-settles :
      (d : Desk E)
      → all is_proper d.jobs ≡ true
      → let after = deliver_pending_notifications messenger project true d in
        ((units : List (Unit {0})) × (after.0 ≡ ok units)) × (any unsettled after.1.jobs ≡ false)
  unfolding deliver_pending_notifications gets ◌>>=◌ continue
  deliver-settles d proper =
      let (done, settled) =
        deliver_all (pending_notifications d.jobs) d (pending-lacking d.jobs proper)
          (pending-left d.jobs proper) in
      (done, sym (any-left_none _) ∙ settled)
