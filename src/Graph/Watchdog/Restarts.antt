-- ===== src/Graph/Watchdog/Restarts.antt =====
-- The parts of the watchdog that may trigger a review.
use agent_workflow_superviso.Prelude.{
  ℕ, ◌+◌, suc, ◌≤◌, String, ◌<>◌, ◌≡◌, inl, inr, refl, ◌∙◌, true, false, some, arith, Bool-cases,
}
use agent_workflow_superviso.Prelude.{leb, ltb, ◌==◌, string_eq, option_eq, nat_eq, if◌then◌else◌}
use agent_workflow_superviso.Prelude.Text
use agent_workflow_superviso.Result.{ok}
use agent_workflow_superviso.Models.{AgentSession, ReviewResult, verdict_eq}
use agent_workflow_superviso.Exec.{Exec, ◌>>=◌ as ◌>>=◌, pure}
use agent_workflow_superviso.Exec.Relates.{Relates, relates_rules}
use agent_workflow_superviso.Exec.Yields.{Yields, Yields-pure, Yields-if, Yields-bind}
use agent_workflow_superviso.Exec.Costs.{
  Costs, Same, Grows, Costs-pure, Costs-if, Costs-free, Costs-one,
}
use agent_workflow_superviso.Graph.State.{SupervisorState, or_default, event}
use agent_workflow_superviso.Graph.World.{SupervisorDependencies, Call, World, call}
use agent_workflow_superviso.Graph.Watch.{
  inspected, Watch, watched, stalled, carried, is_new_run, iso_now, or_now, review_timed_out,
  trigger_review, unless_shadow, restarted, missing_timed_out, initial_review,
}
use agent_workflow_superviso.Graph.Review.{
  review_failed, review_needed, review_expired, review_running, refreshed, adopted,
}
use agent_workflow_superviso.Graph.Watchdog.Budget.{
  count, Same-order, clock-Same, cancel-Same, trigger-Grows, outside, IsPaid, IsKept, kept-IsPaid,
  Knows, paid, IsGood, carried-IsGood,
}

module _ {E : Type 0} (deps : SupervisorDependencies E) (s : SupervisorState)
    (one : 1 ≤ deps.config.supervisor.review_max_attempts)
    (fits : or_default s.review_attempts 0 ≤ deps.config.supervisor.review_max_attempts) where
  pub iso_now-Same : Relates (Same count) (iso_now deps)
  unfolding iso_now
  iso_now-Same = search (relates_rules, Same-order, clock-Same) depth 8

  pub or_now-Same : (t : String) → Relates (Same count) (or_now deps t)
  unfolding or_now
  or_now-Same t = search (relates_rules, Same-order, iso_now-Same) depth 8

  pub timed_out-Same : (t : String) → Relates (Same count) (review_timed_out deps t)
  unfolding review_timed_out
  timed_out-Same t = search (relates_rules, Same-order, clock-Same) depth 10

  pub restarted-Costs :
      (worker : AgentSession) (key : String) (attempts k : ℕ) (kind : String)
      (base : SupervisorState)
      → Knows deps s one fits worker key k
      → k ≤ attempts
      → leb deps.config.supervisor.review_max_attempts attempts ≡ false
      → Costs count (IsPaid deps s) (restarted deps worker key attempts kind base)
  unfolding restarted trigger_review event watched
  restarted-Costs worker key attempts k kind base knows fewer left =
      Costs-one count _ _ (trigger-Grows worker.id (deps.trigger_review worker.id)) λ _.
        Costs-free count _ _ iso_now-Same λ now. Costs-pure count _ (
          paid deps s one fits 1 k worker key (attempts + 1) knows (omega arith) (ground arith) _
            refl refl refl)

  pub missing-Costs :
      (worker : AgentSession) (key : String) (attempts : ℕ) (base : SupervisorState)
      → IsKept deps s one fits base
      → Knows deps s one fits worker key attempts
      → Costs count (IsPaid deps s) (missing_timed_out deps worker key attempts base)
  unfolding missing_timed_out event stalled
  missing-Costs worker key attempts base kept knows =
      let keeps =
        λ (s' : SupervisorState) (w : s'.review_worker_id ≡ base.review_worker_id)
            (t : s'.review_triggered_for_sha ≡ base.review_triggered_for_sha)
            (a : s'.review_attempts ≡ base.review_attempts).
          kept-IsPaid deps s one fits s' (record {
            worker = w ∙ kept.worker;
            target = t ∙ kept.target;
            attempts = a ∙ kept.attempts;
          }) in
      Costs-if count deps.config.supervisor.shadow_mode _ _
        (λ shadow.
          Costs-free count _ _ iso_now-Same λ now. Costs-pure count _ (keeps _ refl refl refl))
        (λ live.
          Costs-if count (leb deps.config.supervisor.review_max_attempts attempts) _ _
            (λ spent. Costs-pure count _ (keeps _ refl refl refl))
            (λ left.
              restarted-Costs worker key attempts attempts "missing" base knows (omega arith) left))

  unless-Same :
      (id : String)
      → deps.config.supervisor.shadow_mode ≡ true
      → Relates (Same count) (unless_shadow deps (trigger_review deps id))
  unfolding unless_shadow pure
  unless-Same id shadow = rw shadow (record { at = λ w. refl })

  unless-Grows :
      (id : String)
      → deps.config.supervisor.shadow_mode ≡ false
      → Relates (Grows count) (unless_shadow deps (trigger_review deps id))
  unfolding unless_shadow trigger_review
  unless-Grows id live = rw live (trigger-Grows id (deps.trigger_review id))

  -- A first review is an attempt, in shadow mode too, where it is not triggered.
  pub first-Costs :
      (id : String) (f : Unit {0} → Exec (World E) SupervisorState)
      → ((u : Unit {0}) → Costs count (IsPaid deps s) (f u))
      → ((u : Unit {0}) → Costs count (λ n s'. IsPaid deps s (suc n) s') (f u))
      → Costs count (IsPaid deps s) (unless_shadow deps (trigger_review deps id) >>= f)
  first-Costs id f k0 k1 = elim (Bool-cases deps.config.supervisor.shadow_mode) [
    | inl shadow ↦ Costs-free count _ f (unless-Same id shadow) k0
    | inr live ↦ Costs-one count _ f (unless-Grows id live) k1
  ]

  pub initial-Costs :
      (worker : AgentSession) (base : SupervisorState)
      → Knows deps s one fits worker (worker.id <> ":unknown") 0
      → Costs count (IsPaid deps s) (initial_review deps worker base)
  unfolding initial_review event watched
  initial-Costs worker base knows =
      let pays = λ (n : ℕ) (few : n ≤ 1).
        paid deps s one fits n 0 worker (worker.id <> ":unknown") 1 knows (omega (arith, few))
          one in
      first-Costs worker.id _
        (λ u.
          Costs-free count _ _ iso_now-Same
            λ now. Costs-pure count _ (pays 0 (omega arith) _ refl refl refl))
        (λ u.
          Costs-free count _ _ iso_now-Same
            λ now. Costs-pure count _ (pays 1 (omega arith) _ refl refl refl))

  pub needed-Costs :
      (worker : AgentSession) (key : String) (base : SupervisorState)
      → Knows deps s one fits worker key 0
      → Costs count (IsPaid deps s) (review_needed deps worker key base)
  unfolding review_needed event watched
  needed-Costs worker key base knows =
      let pays = λ (n : ℕ) (few : n ≤ 1).
        paid deps s one fits n 0 worker key 1 knows (omega (arith, few)) one in
      first-Costs worker.id _
        (λ u.
          Costs-free count _ _ iso_now-Same
            λ now. Costs-pure count _ (pays 0 (omega arith) _ refl refl refl))
        (λ u.
          Costs-free count _ _ iso_now-Same
            λ now. Costs-pure count _ (pays 1 (omega arith) _ refl refl refl))

  pub failed-Costs :
      (worker : AgentSession) (review : ReviewResult) (key : String) (watch : Watch)
      (base : SupervisorState)
      → IsGood deps s one fits worker key watch
      → Costs count (IsPaid deps s) (review_failed deps worker review key watch base)
  unfolding review_failed event watched stalled
  failed-Costs worker review key watch base g =
      let attempts = if ltb watch.attempts 1 then 1 else watch.attempts in
      let fewer = g.fewer in
      let bound = g.bound in
      let counted : g.counted ≤ attempts = ground (arith, fewer) in
      let clipped : attempts ≤ deps.config.supervisor.review_max_attempts =
        ground (arith, bound, one) in
      let pays =
        paid deps s one fits 0 g.counted worker key attempts g.knows (omega (arith, counted))
          clipped in
      Costs-if count deps.config.supervisor.shadow_mode _ _
        (λ shadow.
          Costs-free count _ _ (or_now-Same _) λ t. Costs-pure count _ (pays _ refl refl refl))
        (λ live.
          Costs-if count (leb deps.config.supervisor.review_max_attempts attempts) _ _
            (λ spent.
              Costs-free count _ _ (or_now-Same _) λ t. Costs-pure count _ (pays _ refl refl refl))
            (λ left.
              restarted-Costs worker key attempts g.counted "failed" base g.knows counted left))

  cancelled-Same :
      (worker : AgentSession) (review : ReviewResult)
      → Relates (Same count) (
          if Text.casefold review.status == "needs_review"
          then pure tt
          else call (Call.cancel_review worker.id) (deps.cancel_review worker.id))
  cancelled-Same worker review = search (relates_rules, Same-order, cancel-Same) depth 8

  pub expired-Costs :
      (worker : AgentSession) (review : ReviewResult) (key : String) (watch : Watch)
      (base : SupervisorState)
      → IsGood deps s one fits worker key watch
      → Costs count (IsPaid deps s) (review_expired deps worker review key watch base)
  unfolding review_expired event watched stalled
  expired-Costs worker review key watch base g =
      let f = g.fewer in
      let fewer : 0 + g.counted ≤ watch.attempts = omega (arith, f) in
      Costs-if count (leb deps.config.supervisor.review_max_attempts watch.attempts) _ _
        (λ spent. Costs-pure count _ (
          paid deps s one fits 0 g.counted worker key watch.attempts g.knows fewer g.bound _ refl
            refl refl))
        (λ left. Costs-free count _ _ (cancelled-Same worker review) λ _.
          restarted-Costs worker key watch.attempts g.counted "timed-out" base g.knows g.fewer left)

  pub running-Costs :
      (worker : AgentSession) (review : ReviewResult) (key : String) (watch : Watch)
      (base : SupervisorState)
      → IsGood deps s one fits worker key watch
      → Costs count (IsPaid deps s) (review_running deps worker review key watch base)
  unfolding review_running event watched inspected
  running-Costs worker review key watch base g =
      let goes_on =
        paid deps s one fits 0 g.counted worker key watch.attempts g.knows
          (let f = g.fewer in omega (arith, f)) g.bound in
      Costs-if count deps.config.supervisor.shadow_mode _ _
        (λ shadow. Costs-pure count _ (goes_on _ refl refl refl))
        (λ live. Costs-free count _ _ (timed_out-Same watch.started_at) λ timed_out.
          Costs-if count timed_out _ _ (λ late. expired-Costs worker review key watch base g)
            (λ early. Costs-pure count _ (goes_on _ refl refl refl)))

  pub adopted-IsGood :
      (worker : AgentSession) (key : String) (watch : Watch) (review : ReviewResult)
      → IsGood deps s one fits worker key watch
      → Yields (IsGood deps s one fits worker key) (adopted deps watch review)
  unfolding adopted
  adopted-IsGood worker key watch review g =
      Yields-if (watch.attempts == 0) _ _
        (λ unseen.
          let fewer = g.fewer in
          Yields-bind _ _ λ t. Yields-pure _ (record {
            counted = g.counted;
            knows = g.knows;
            fewer = ground (arith, fewer, unseen);
            bound = one;
          }))
        (λ seen. Yields-pure watch g)

  pub adopted-Same :
      (watch : Watch) (review : ReviewResult) → Relates (Same count) (adopted deps watch review)
  unfolding adopted
  adopted-Same watch review = search (relates_rules, Same-order, or_now-Same) depth 8

  pub refreshed-Same :
      (watch : Watch) (review : ReviewResult) → Relates (Same count) (refreshed deps watch review)
  unfolding refreshed
  refreshed-Same watch review = search (relates_rules, Same-order, or_now-Same) depth 8

  pub refreshed-IsGood :
      (worker : AgentSession) (key id : String) (e : E) (review : ReviewResult)
      → (deps.get_review id e).0 ≡ ok (some review)
      → Yields (IsGood deps s one fits worker key) (refreshed deps (carried s worker key) review)
  unfolding refreshed is_new_run carried
  refreshed-IsGood worker key id e review got =
      Yields-if (is_new_run (carried s worker key) review) _ _
        (λ new. Yields-bind _ _ λ t. Yields-pure _ (record {
          counted = 1;
          knows = λ s' w a.
              outside id e review got (λ h. ground (arith, new, h)) (λ h. ground (arith, new, h))
                (λ h. ground (arith, new, h));
          fewer = omega arith;
          bound = one;
        }))
        (λ known. Yields-pure _ (carried-IsGood deps s one fits worker key))
