-- ===== src/Graph/Termination.antt =====
-- A run along the edges ends: the only cycle is that of the two gates, and each turn takes an answer.
use agent_workflow_superviso.Prelude.{
  ℕ, zero, suc, ◌+◌, ◌≤◌, ◌<◌, ◌≡◌, ◌≢◌, refl, ap, Option, none, some, ◌∷◌, inl, inr, arith,
}
use agent_workflow_superviso.Prelude.{string_eq, option_eq, Option-cases}
use agent_workflow_superviso.Result.{interrupted, Result, ok, err}
use agent_workflow_superviso.Exec.{◌>>=◌}
use agent_workflow_superviso.Exec.Relates.{IsPreorder, Relates}
use agent_workflow_superviso.Graph.State.{Status, SupervisorState}
use agent_workflow_superviso.Graph.World.{
  SupervisorDependencies, Response, World, perform, call, with_lock, set_files, read_clock,
}
use agent_workflow_superviso.Graph.Delivery.{interrupt, approval_gate}
use agent_workflow_superviso.Graph.Run.{
  Node, guard, load, route, check, ensure, inspect, feedback, verify, approve, merge, cleanup, body,
  next, Outcome, out_of_fuel, move, follow, run, invoke, resume_gate, enough_fuel,
}
use agent_workflow_superviso.Graph.Effects.{body-Relates}

-- An answer allows one more turn from the approval to the verification.
abbrev bonus : Option Response → ℕ
bonus none = 0
bonus (some _) = 2

abbrev rank : Node → ℕ
rank guard = 10
rank load = 9
rank route = 8
rank check = 7
rank ensure = 6
rank inspect = 5
rank verify = 4
rank approve = 3
rank merge = 2
rank feedback = 1
rank cleanup = 1

module _ {E : Type 0} where
  abbrev pub measure : Node → World E → ℕ
  measure n w = rank n + bonus w.resume

  abbrev TakesAnswers : World E → World E → Type 0
  TakesAnswers w w' = bonus w'.resume ≤ bonus w.resume

  TakesAnswers-preorder : IsPreorder TakesAnswers
  TakesAnswers-preorder = record { same = λ s. omega arith; trans = λ s t u p q. omega arith }

module _ {E : Type 0} (deps : SupervisorDependencies E) where
  body-TakesAnswers : (n : Node) (s : SupervisorState) → Relates TakesAnswers (body deps n s)
  unfolding call perform set_files read_clock with_lock interrupt
  body-TakesAnswers =
      body-Relates deps TakesAnswers TakesAnswers-preorder
        (λ A c f read. record { at = λ w. omega arith })
        (λ A c f change live. record { at = λ w. omega arith })
        (λ A request f live. record { at = λ w. omega arith })
        (λ A id sha f live. record { at = λ w. omega arith })
        (λ id f. record { at = λ w. omega arith }) (λ files. record { at = λ w. omega arith })
        (λ f. record { at = λ w. omega arith })
        (λ A l m km. record { at = λ w. km.at (record w { held = l ∷ w.held }) })
        (record { at = λ w. ground arith })

  approval_gate-answered :
      (s s' : SupervisorState) (w : World E)
      → (approval_gate deps s w).0 ≡ ok s'
      → bonus (approval_gate deps s w).1.resume + 2 ≤ bonus w.resume
  unfolding approval_gate interrupt ◌>>=◌
  approval_gate-answered s s' w h = ground arith

-- Every edge but that from the approval leads to a node of lower rank.
next-rank :
    (n m : Node) (status : Option Status) → n ≢ approve → next n status ≡ some m → rank m < rank n
unfolding next
next-rank guard m status h e = ground arith
next-rank approve m status h e = absurd (h refl)
next-rank _ m status h e = ground arith

approve-next : (m : Node) (status : Option Status) → next approve status ≡ some m → m ≡ verify
unfolding next
approve-next m status e = ground arith

module _ {E : Type 0} (deps : SupervisorDependencies E) where
  -- A move to another node lowers the measure.
  body-measure :
      (n m : Node) (s s' : SupervisorState) (w : World E)
      → (body deps n s w).0 ≡ ok s'
      → next n s'.status ≡ some m
      → measure m (body deps n s w).1 < measure n w
  unfolding body
  body-measure approve m s s' w r e =
      omega (arith, approval_gate-answered deps s s' w r, ap rank (approve-next m s'.status e))
  body-measure n m s s' w r e =
      omega (arith, (body-TakesAnswers deps n s).at w, next-rank n m s'.status (λ p. cc) e)

  follow_ends :
      (rest : Node → SupervisorState → World E → Outcome × World E) (n : Node) (s : SupervisorState)
      (r : Result SupervisorState) (w : World E)
      → ((m : Node) (s' : SupervisorState)
          → r ≡ ok s'
          → next n s'.status ≡ some m
          → (rest m s' w).0 ≢ out_of_fuel)
      → (follow rest (move n s r) w).0 ≢ out_of_fuel
  unfolding follow move
  follow_ends rest n s (err interrupted) w h = λ p. cc
  follow_ends rest n s (err _) w h = λ p. cc
  follow_ends rest n s (ok s') w h = elim (Option-cases (next n s'.status)) [
    | inl e ↦ rw (e, follow) (λ p. cc)
    | inr (m, e) ↦ rw (e, follow) (h m s' refl e)
  ]

  pub run_ends :
      (fuel : ℕ) (n : Node) (s : SupervisorState) (w : World E)
      → measure n w < fuel
      → (run deps fuel n s w).0 ≢ out_of_fuel
  unfolding run
  run_ends zero n s w h = absurd (omega arith)
  run_ends (suc fuel) n s w h =
      follow_ends (run deps fuel) n s (body deps n s w).0 (body deps n s w).1 λ m s' r e.
        run_ends fuel m s' (body deps n s w).1 (omega (arith, body-measure n m s s' w r e))

  -- An invocation and a resumption at the gate, from any state and world, do not run out of the fuel
  -- that they are given: they end at END, at an interrupt or by an exception, whatever the runner, the
  -- tracker and the clock answer.
  pub invoke_ends :
      (s : SupervisorState) (w : World E)
      → ((invoke deps s w).0 ≢ out_of_fuel) × ((resume_gate deps s w).0 ≢ out_of_fuel)
  unfolding invoke resume_gate
  invoke_ends s w = (
    run_ends enough_fuel guard s w (bonus_le w.resume),
    run_ends enough_fuel approve s w (omega (arith, bonus_le w.resume)),
  )
    where
      bonus_le : (o : Option Response) → 10 + bonus o < 13
      bonus_le none = omega arith
      bonus_le (some _) = omega arith
