-- ===== src/Graph/Watchdog/Inspection.antt =====
-- How often the watchdog of reviews starts a review again.
use text.Mathlib.TextLemmas.{cons-append}
use Prim.Native.String.{[] as ε, ◌∷◌ as ◌∷∷◌}
use agent_workflow_superviso.Prelude.{
  ap, Bool, ℕ, ◌+◌, ◌≤◌, String, ◌<>◌, ◌≡◌, ◌≢◌, inl, inr, refl, sym, ◌∙◌, subst, false, not, ◌&&◌,
  Option, some, arith, Bool-cases, Option-cases,
}
use agent_workflow_superviso.Prelude.{◌==◌, ◌!=◌, string_eq, option_eq, nat_eq, contains}
use agent_workflow_superviso.Prelude.Text
use agent_workflow_superviso.Result.{Result, ok}
use agent_workflow_superviso.Models.{AgentSession, ReviewResult, ReviewVerdict, verdict_eq}
use agent_workflow_superviso.Exec.{lift}
use agent_workflow_superviso.Exec.Relates.{Relates, Relates-lift}
use agent_workflow_superviso.Exec.Costs.{
  Costs, Same, Costs-pure, Costs-if, Costs-some, Costs-with, Costs-free,
}
use agent_workflow_superviso.Graph.State.{SupervisorState, or_default, event}
use agent_workflow_superviso.Graph.World.{SupervisorDependencies, World}
use agent_workflow_superviso.Graph.Watch.{
  inspected, report_state, failure_statuses, review_key_of, without_review,
}
use agent_workflow_superviso.Graph.Review.{
  with_review, feedback_already_sent, changes_state, approved_state, watch_review,
  with_review_record, inspect_active, inspect_worker, healthy,
}
use agent_workflow_superviso.Graph.Watchdog.Budget.{
  triggers, count, Same-order, review-Same, session-Same, review-Yields, same, other, asked, IsPaid,
  Counted, IsKept, kept-IsPaid, Knows,
}
use agent_workflow_superviso.Graph.Watchdog.Restarts.{
  timed_out-Same, missing-Costs, initial-Costs, needed-Costs, failed-Costs, running-Costs,
  adopted-IsGood, adopted-Same, refreshed-Same, refreshed-IsGood,
}

module _ {E : Type 0} (deps : SupervisorDependencies E) (s : SupervisorState)
    (one : 1 ≤ deps.config.supervisor.review_max_attempts)
    (fits : or_default s.review_attempts 0 ≤ deps.config.supervisor.review_max_attempts) where
  watch_review-Costs :
      (worker : AgentSession) (id : String) (e : E) (review : ReviewResult) (base : SupervisorState)
      → (deps.get_review id e).0 ≡ ok (some review)
      → Costs count (IsPaid deps s) (watch_review deps s worker review base)
  unfolding watch_review
  watch_review-Costs worker id e review base got =
      let key = review_key_of worker review in
      Costs-with count _ _ (refreshed-Same deps s one fits _ review)
        (refreshed-IsGood deps s one fits worker key id e review got)
        λ watch g.
          Costs-if count (contains failure_statuses (Text.casefold review.status)) _ _
            (λ failed. failed-Costs deps s one fits worker review key watch base g)
            (λ going.
              Costs-if count (Text.casefold review.status == "needs_review" && watch.attempts == 0)
                _ _
                (λ first.
                  let fewer = g.fewer in
                  let none_counted : g.counted ≡ 0 = ground (arith, fewer, first) in
                  needed-Costs deps s one fits worker key base
                    (subst (Knows deps s one fits worker key) none_counted g.knows))
                (λ seen.
                  Costs-with count _ _ (adopted-Same deps s one fits watch review)
                    (adopted-IsGood deps s one fits worker key watch review g)
                    (λ kept good. running-Costs deps s one fits worker review key kept base good)))

  changes-IsPaid :
      (worker : AgentSession) (id : String) (e : E) (review : ReviewResult) (base : SupervisorState)
      → (deps.get_review id e).0 ≡ ok (some review)
      → review.verdict ≡ ReviewVerdict.changes_requested
      → IsKept deps s one fits base
      → IsPaid deps s 0 (changes_state s worker review base)
  unfolding changes_state inspected event
  changes-IsPaid worker id e review base got verdict kept =
      elim (Bool-cases (feedback_already_sent s review)) [
        | inl sent ↦ rw sent (
            kept-IsPaid deps s one fits _
              (record { worker = kept.worker; target = kept.target; attempts = kept.attempts }))
        | inr new ↦ rw new (record {
          counted = 0;
          is_counted = asked id e review got verdict;
          pays = omega arith;
          bound = omega arith;
        })
      ]

  approved-IsPaid :
      (worker : AgentSession) (review : ReviewResult) (change_id : String) (base : SupervisorState)
      → IsKept deps s one fits base
      → IsPaid deps s 0 (approved_state worker review change_id base)
  unfolding approved_state inspected event
  approved-IsPaid worker review change_id base kept =
      let w = kept.worker in
      let t = kept.target in
      let a = kept.attempts in
      kept-IsPaid deps s one fits _ (record {
        worker = ground (arith, w);
        target = ground (arith, t);
        attempts = ground (arith, a);
      })

  report-IsPaid :
      (worker : AgentSession) (base : SupervisorState)
      → IsKept deps s one fits base
      → IsPaid deps s 0 (report_state worker base)
  unfolding report_state inspected event
  report-IsPaid worker base kept =
      let w = kept.worker in
      let t = kept.target in
      let a = kept.attempts in
      kept-IsPaid deps s one fits _ (record {
        worker = ground (arith, w);
        target = ground (arith, t);
        attempts = ground (arith, a);
      })

  record-Costs :
      (worker : AgentSession) (id : String) (e : E) (review : ReviewResult) (base : SupervisorState)
      → (deps.get_review id e).0 ≡ ok (some review)
      → IsKept deps s one fits base
      → Costs count (IsPaid deps s) (with_review_record deps s worker review base)
  unfolding with_review_record
  record-Costs worker id e review base got kept =
      Costs-if count (review.verdict == ReviewVerdict.changes_requested) _ _
        (λ asks.
          Costs-pure count _ (changes-IsPaid worker id e review base got (ground arith) kept))
        (λ other_verdict.
          Costs-some count _ _ _ (λ no_change. watch_review-Costs worker id e review base got)
            (λ change_id approves.
              Costs-pure count _ (approved-IsPaid worker review change_id base kept)))

  known_key :
      (worker : AgentSession) (base : SupervisorState)
      → IsKept deps s one fits base
      → base.review_worker_id ≡ some worker.id
      → or_default base.review_triggered_for_sha "" ≢ ""
      → Knows deps s one fits worker
          (or_default base.review_triggered_for_sha "")
          (or_default base.review_attempts 0)
  known_key worker base kept watches full s' w t =
      let kw = kept.worker in
      let kt = kept.target in
      let ka = kept.attempts in
      elim (Option-cases base.review_triggered_for_sha) [
        | inl missing ↦ absurd (full (rw missing refl))
        | inr (key, given) ↦
            let target : s'.review_triggered_for_sha ≡ s.review_triggered_for_sha =
              t ∙ rw given refl ∙ kt in
            let attempts : or_default s.review_attempts 0 ≡ or_default base.review_attempts 0 =
              cc in
            subst (Counted deps s s') attempts (same (w ∙ sym watches ∙ kw) target)
      ]

  unknown_nonempty : (id : String) → (id <> ":unknown") ≢ ""
  unknown_nonempty ε e = absurd (cc)
  unknown_nonempty (c ∷∷ id) e =
      let begins : (c ∷∷ (id <> ":unknown")) ≡ "" = sym (cons-append c id ":unknown") ∙ e in
      absurd (cc)

  -- `without_review`'s test of a watched review.
  abbrev is_watched : AgentSession → SupervisorState → Bool
  is_watched worker base =
      base.review_worker_id == some worker.id
      && or_default base.review_triggered_for_sha "" != ""
      && or_default base.review_attempts 0 != 0

  none_left :
      (worker : AgentSession) (base : SupervisorState)
      → is_watched worker base ≡ false
      → base.review_worker_id ≡ some worker.id
      → base.review_triggered_for_sha ≡ some (worker.id <> ":unknown")
      → (worker.id <> ":unknown") ≢ ""
      → or_default base.review_attempts 0 ≡ 0
  none_left worker base unwatched watches targets full =
      ground (arith, unwatched, watches, targets, full)

  unwatched-Knows :
      (worker : AgentSession) (base : SupervisorState)
      → IsKept deps s one fits base
      → is_watched worker base ≡ false
      → Knows deps s one fits worker (worker.id <> ":unknown") 0
  unwatched-Knows worker base kept unwatched s' w t =
      let kw = kept.worker in
      let kt = kept.target in
      let ka = kept.attempts in
      let full = unknown_nonempty worker.id in
      elim (Bool-cases (s.review_worker_id == some worker.id)) [
        | inr differs ↦ other (inl (λ e. ground (arith, w, e)))
        | inl holds ↦
            elim (Bool-cases (s.review_triggered_for_sha == some (worker.id <> ":unknown"))) [
              | inr differs ↦ other (inr (λ e. ground (arith, t, e)))
              | inl target ↦
                  let watches : base.review_worker_id ≡ some worker.id = kw ∙ ground (arith) in
                  let targets : base.review_triggered_for_sha ≡ some (worker.id <> ":unknown") =
                    kt ∙ ground (arith) in
                  let zero_left : or_default s.review_attempts 0 ≡ 0 =
                    ap (λ (o : Option ℕ). or_default o 0) (sym ka)
                    ∙ none_left worker base unwatched watches targets full in
                  subst (Counted deps s s') zero_left (same (ground (arith, w)) (ground (arith, t)))
            ]
      ]

  without-Costs :
      (worker : AgentSession) (base : SupervisorState)
      → IsKept deps s one fits base
      → Costs count (IsPaid deps s) (without_review deps worker base)
  unfolding without_review inspected event
  without-Costs worker base kept =
      let keeps =
        λ (s' : SupervisorState) (w : s'.review_worker_id ≡ base.review_worker_id)
            (t : s'.review_triggered_for_sha ≡ base.review_triggered_for_sha)
            (a : s'.review_attempts ≡ base.review_attempts).
          kept-IsPaid deps s one fits s' (record {
            worker = w ∙ kept.worker;
            target = t ∙ kept.target;
            attempts = a ∙ kept.attempts;
          }) in
      Costs-if count (Text.casefold worker.status == "pr_open" && not (is_watched worker base)) _ _
        (λ opened.
          initial-Costs deps s one fits worker base
            (unwatched-Knows worker base kept (ground arith)))
        (λ further.
          Costs-if count (not (is_watched worker base)) _ _
            (λ unwatched. Costs-pure count _ (keeps _ refl refl refl))
            (λ is_known. Costs-free count _ _ (timed_out-Same deps s one fits _) λ timed_out.
              Costs-if count timed_out _ _
                (λ late.
                  missing-Costs deps s one fits worker _ _ base kept
                    (known_key worker base kept (ground arith) (λ e. ground (arith, e))))
                (λ early. Costs-pure count _ (keeps _ refl refl refl))))

  active-Costs :
      (worker : AgentSession) → Costs count (IsPaid deps s) (inspect_active deps s worker)
  unfolding inspect_active with_review
  active-Costs worker =
      let base = record s { worker_status = some worker.status } in
      let kept : IsKept deps s one fits base = record {
        worker = refl;
        target = refl;
        attempts = refl;
      } in
      Costs-if count (or_default s.report_only false) _ _
        (λ reports. Costs-pure count _ (report-IsPaid worker base kept))
        (λ reviews.
          Costs-with count _ _ (review-Same worker.id (deps.get_review worker.id))
            (review-Yields worker.id (deps.get_review worker.id))
            λ (review : Option ReviewResult) (e, got).
              Costs-some count review _ _ (λ missing. without-Costs worker base kept)
                (λ r found.
                  record-Costs worker worker.id e r _ (got ∙ ap ok found)
                    (record { worker = refl; target = refl; attempts = refl })))

  lift-Same : {A : Type 0} (r : Result A) → Relates (Same (count {E = E})) (lift r)
  lift-Same r = Relates-lift Same-order r

  inspect-Costs : Costs count (IsPaid deps s) (inspect_worker deps s)
  unfolding inspect_worker event
  inspect-Costs = Costs-free count _ _ (lift-Same _) λ id.
      Costs-free count _ _ (session-Same id (deps.get_session id)) λ found.
        Costs-some count (healthy found) _ _
          (λ unhealthy. Costs-pure count _ (
            kept-IsPaid deps s one fits _
              (record { worker = refl; target = refl; attempts = refl })))
          (λ worker is_healthy. active-Costs worker)

module _ {E : Type 0} (deps : SupervisorDependencies E) where
  -- Under a limit of at least one attempt, when the attempts at a review are within the limit, an
  -- inspection of the worker that returns triggers no more reviews than it adds to the attempts that were
  -- counted, and the attempts are within the limit again, whatever the runner and the clock answer. Those
  -- counted are the attempts before for the same worker and target, none for another worker or target or
  -- behind a verdict that asks for changes, and one where the runner reports a run of another origin.
  pub inspect_worker-IsPaid :
      (s s' : SupervisorState) (w : World E)
      → 1 ≤ deps.config.supervisor.review_max_attempts
      → or_default s.review_attempts 0 ≤ deps.config.supervisor.review_max_attempts
      → (inspect_worker deps s w).0 ≡ ok s'
      → (n : ℕ) × (triggers (inspect_worker deps s w).1.calls ≡ n + triggers w.calls)
        × IsPaid deps s n s'
  inspect_worker-IsPaid s s' w one fits h = (inspect-Costs deps s one fits).at w s' h
