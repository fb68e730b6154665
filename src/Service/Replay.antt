-- ===== src/Service/Replay.antt =====
-- service.py and the commands `dispatch` and `approve`: no decision is used more often than it is given.
use agent_workflow_superviso.Prelude.{
  ℕ, ◌+◌, ◌≤◌, String, Bool, true, false, not, ◌&&◌, Option, none, some, List, [], ◌∷◌, ◌≡◌, sym,
  inl, inr, refl, arith, Bool-cases, Option-cases,
}
use agent_workflow_superviso.Prelude.{◌==◌, option_eq, string_eq, any, count_if}
use agent_workflow_superviso.Result.{Error, Result, ok, Result-cases}
use agent_workflow_superviso.Config.{AppConfig}
use agent_workflow_superviso.Exec.{Exec, ◌>>=◌ as ◌>>=◌, case_option}
use agent_workflow_superviso.Exec.Relates.{
  IsPreorder, Relates, relates_rules, Relates-after, Relates-bind,
}
use agent_workflow_superviso.Service.Jobs.{
  QueuedWork, Jobs, approve, dispatch, claim_approval, clear_approval,
}
use agent_workflow_superviso.Service.Reconcile.{
  GraphRuntime, GraphResult, Snapshot, Resumed, Service, graph_call, change_jobs, claim,
  resume_graph, save, publish, at_gate, off_gate, reconcile_attempt, reconcile_job,
}
use agent_workflow_superviso.Service.System.{
  System, Action, with_jobs, act, act_all, new_system, dispatched, decided, reconciled,
  runner_waiting, notified, not_notified, restarted,
}
use agent_workflow_superviso.Service.Decisions.{
  same, pending_uses, clear-pending_uses, save-pending_uses, initialize-pending_uses,
  notified-pending_uses, noted-pending_uses, dispatch-pending_uses,
}
use agent_workflow_superviso.Service.Claims.{
  claim-pending_uses-same, claim-pending_uses-le, queue-pending_uses, approve-eq-ok, waiting_lem,
  count-cons,
}

module _ {G : Type 0} (k : Resumed) where
  -- The uses of the decision, and the one that is queued.
  abbrev pub used : Service G → ℕ
  used w = count_if (same k) w.resumed + pending_uses k w.jobs

  abbrev Spends : Service G → Service G → Type 0
  Spends w w' = used w' ≤ used w

  Spends-order : IsPreorder Spends
  Spends-order = record { same = λ w. omega arith; trans = λ w w' w'' a b. omega arith }

  graph_call-Spends : {A : Type 0} (f : G → Result A × G) → Relates Spends (graph_call f)
  unfolding graph_call
  graph_call-Spends f = record { at = λ w. omega arith }

  change-Spends :
      (f : String → Jobs → Result Jobs) (now : G → String)
      → ((t : String) (jobs jobs' : Jobs)
          → f t jobs ≡ ok jobs'
          → pending_uses k jobs' ≤ pending_uses k jobs)
      → Relates Spends (change_jobs f now)
  unfolding change_jobs
  change-Spends f now kf = record {
    at = λ w. elim (Result-cases (f (now w.graphs) w.jobs)) [
      | inr (e, raised) ↦ rw (raised, change_jobs) (omega arith)
      | inl (jobs, done) ↦
          rw (done, change_jobs) (omega (arith, kf (now w.graphs) w.jobs jobs done))
    ];
  }

  module _ (config : AppConfig) (runtime : GraphRuntime G) where
    pub save-Spends :
        (id status : String) (active : Bool) (last_error : Option String) (clears : Bool)
        (gate : Option (String × String))
        → (not clears && status == "awaiting_approval") ≡ false
        → Relates Spends (save config runtime id status active last_error clears gate)
    unfolding save
    save-Spends id status active last_error clears gate safe = change-Spends _ _ (λ t jobs jobs'.
        save-pending_uses k t id status active last_error clears gate jobs jobs' safe)

    publish-Spends :
        (id : String) (result : GraphResult) → Relates Spends (publish config runtime id result)
    unfolding publish
    publish-Spends id result =
        let saves =
          λ (status : String) (active : Bool) (e : Option String) (g : Option (String × String)).
            save-Spends id status active e true g refl in
        search (relates_rules, Spends-order, saves) depth 10

    off_gate-Spends :
        (id thread canonical : String)
        → Relates Spends (off_gate config runtime id thread canonical)
    unfolding off_gate
    off_gate-Spends id thread canonical =
        let cleared =
          change-Spends (λ now jobs. ok (clear_approval now id jobs)) runtime.utc_now
            (λ t jobs jobs' e.
              let same_jobs : clear_approval t id jobs ≡ jobs' = cc in
              rw (sym same_jobs) (clear-pending_uses k t id jobs)) in
        Relates-bind Spends-order _ _ cleared λ _.
          Relates-bind Spends-order _ _ (graph_call-Spends (runtime.invoke thread canonical))
            (publish-Spends id)

    -- The rest of the gate's visit, behind the claim.
    abbrev behind_claim :
        String → String → String × String → Option String → Exec (Service G) (Unit {0})
    behind_claim id thread gate decision =
        case_option decision (save config runtime id "awaiting_approval" true none true (some gate))
          λ d. do
            result ← resume_graph runtime thread (record {
              work_item_id = id;
              decision = d;
              change_id = gate.0;
              target_sha = gate.1;
            })
            publish config runtime id result

    resume-used :
        (thread : String) (r : Resumed) (w w' : Service G)
        → w'.resumed ≡ w.resumed
        → pending_uses k w'.jobs ≤ pending_uses k w.jobs
        → (same k r ≡ true → pending_uses k w'.jobs + 1 ≤ pending_uses k w.jobs)
        → used (resume_graph runtime thread r w').1 ≤ used w
    unfolding resume_graph count_if
    resume-used thread r w w' kept le claimed = elim (Bool-cases (same k r)) [
      | inl is_same ↦ ground (arith, claimed is_same)
      | inr other ↦ ground arith
    ]

    claim-used :
        (id thread : String) (gate : String × String)
        → Relates Spends (claim id gate.0 gate.1 runtime.utc_now >>= behind_claim id thread gate)
    unfolding ◌>>=◌ claim case_option
    claim-used id thread gate = record {
      at = λ w.
          let now = runtime.utc_now w.graphs in
          let after : Service G = record w {
            jobs = (claim_approval now id gate.0 gate.1 w.jobs).1;
          } in
          let le = claim-pending_uses-le k now id gate.0 gate.1 w.jobs in
          elim (Option-cases (claim_approval now id gate.0 gate.1 w.jobs).0) [
            | inl e ↦
                rw (e, behind_claim)
                  (omega (
                    arith,
                    le,
                    (save-Spends id "awaiting_approval" true none true (some gate) refl).at after,
                  ))
            | inr (d, e) ↦
                let r : Resumed = record {
                  work_item_id = id;
                  decision = d;
                  change_id = gate.0;
                  target_sha = gate.1;
                } in
                let rest =
                  Relates-after Spends-order (resume_graph runtime thread r)
                    (publish config runtime id) after (publish-Spends id) in
                let resumed =
                  resume-used thread r w after refl le
                    (λ s. claim-pending_uses-same k now id gate.0 gate.1 w.jobs d e s) in
                rw (e, behind_claim) (omega (arith, rest, resumed))
          ];
    }

    at_gate-Spends :
        (id thread : String) (snapshot : Snapshot)
        → Relates Spends (at_gate config runtime id thread snapshot)
    unfolding at_gate
    at_gate-Spends id thread snapshot = search (relates_rules, Spends-order, claim-used) depth 6

    pub reconcile_job-Spends :
        (job : QueuedWork) → Relates Spends (reconcile_job config runtime job)
    unfolding reconcile_job reconcile_attempt string_eq
    reconcile_job-Spends job =
        let handled = λ (e : Error).
          save-Spends job.work_item_id "retrying_after_error" true (some (runtime.describe e)) false
            none refl in
        search
          (relates_rules, Spends-order, graph_call-Spends, at_gate-Spends, off_gate-Spends, handled)
          depth 10

module _ {G : Type 0} (config : AppConfig) (runtime : GraphRuntime G) (k : Resumed) where
  Covered : System G → Type 0
  Covered y = used k y.service ≤ count_if (same k) y.given

  act-Covered : (a : Action) (y : System G) → Covered y → Covered (act config runtime a y)
  unfolding act Covered with_jobs
  act-Covered (dispatched now id origin) y c =
      elim (Result-cases (dispatch now id origin y.service.jobs)) [
        | inr (e, raised) ↦ rw (raised, act) c
        | inl ((job, jobs), done) ↦
            rw (done, act)
              (omega (arith, c, dispatch-pending_uses k now id origin y.service.jobs jobs job done))
      ]
  act-Covered (decided now r) y c =
      elim (Result-cases
        (approve now r.work_item_id r.decision r.change_id r.target_sha y.service.jobs)) [
          | inr (e, raised) ↦ rw (raised, act) c
          | inl ((job, jobs), done) ↦
              let queued =
                approve-eq-ok now r.work_item_id r.decision r.change_id r.target_sha y.service.jobs
                  jobs job done in
              let one = count-cons (same k) r y.given in
              let le =
                queue-pending_uses k now r.work_item_id r.decision r.change_id r.target_sha
                  y.service.jobs in
              rw (done, act) (ground (arith, c, le, queued, one))
        ]
  act-Covered (reconciled job) y c =
      omega (arith, c, (reconcile_job-Spends k config runtime job).at y.service)
  act-Covered (runner_waiting id error) y c = omega (
    arith,
    c,
    (save-Spends k config runtime id "waiting_for_ao" true (some error) false none waiting_lem).at
        y.service,
  )
  act-Covered (notified id key) y c =
      omega (arith, c, notified-pending_uses k id key y.service.jobs)
  act-Covered (not_notified id key error) y c =
      omega (arith, c, noted-pending_uses k id key error y.service.jobs)
  act-Covered restarted y c = omega (arith, c, initialize-pending_uses k y.service.jobs)

  acts-Covered :
      (actions : List Action) (y : System G)
      → Covered y
      → Covered (act_all config runtime actions y)
  unfolding act_all
  acts-Covered [] y c = c
  acts-Covered (a ∷ rest) y c = acts-Covered rest (act config runtime a y) (act-Covered a y c)

  -- From a new installation, whatever is dispatched, decided and done by the service, in any order and
  -- for any runtime of graphs, a gate is resumed with a decision at most as often as persons have had
  -- this decision accepted for the same work item, change and head.
  pub resumed-le-given :
      (actions : List Action) (g : G)
      → let y = act_all config runtime actions (new_system g) in
        count_if (same k) y.service.resumed ≤ count_if (same k) y.given
  unfolding new_system Covered count_if any
  resumed-le-given actions g = omega (arith, acts-Covered actions (new_system g) (omega arith))
