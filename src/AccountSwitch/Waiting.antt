-- ===== src/AccountSwitch/Waiting.antt =====
-- account_switch.py: the wait for a session ends.
use agent_workflow_superviso.Prelude.{
  ℕ, zero, suc, ◌+◌, ◌*◌, ◌/◌, ◌≤◌, String, true, Option, none, some, [], ◌∷◌, subst, ap, ◌∙◌,
  Option-cases, ◌≡◌, inl, inr, refl, arith, Bool-cases,
}
use agent_workflow_superviso.Prelude.{◌==◌, contains, ltb, string_eq}
use agent_workflow_superviso.Result.{Result, ok, err}
use agent_workflow_superviso.AccountSwitch.Helper.{
  Ao, Waited, settled, timed_out, failed, session_state, confirm, judge, look, follow, wait,
  wait_until_idle, second, half_second,
}

-- A session that the wait has settled for is gone or idle.
abbrev pub IsRest : Waited → Type 0
IsRest (settled state) = contains ("missing" ∷ "terminated" ∷ "idle" ∷ []) state ≡ true
IsRest timed_out = Unit
IsRest (failed x) = Unit

idle-IsRest : IsRest (settled "idle")
unfolding string_eq
idle-IsRest = refl

module _ {E : Type 0} (ao : Ao E) (project_id session_id : String)
    (asks : (p s : String) (e : E) → ao.now e ≤ ao.now (ao.get_session p s e).1)
    (sleeps : (d : ℕ) (e : E) → ao.now e + d ≤ ao.now (ao.sleep d e)) where
  session_state-now : (e : E) → ao.now e ≤ ao.now (session_state ao project_id session_id e).1
  unfolding session_state
  session_state-now e = asks project_id session_id e

  confirm-now :
      (state : Result String) (e : E)
      → (confirm ao project_id session_id state e).0 ≡ none
      → ao.now e + half_second ≤ ao.now (confirm ao project_id session_id state e).1
  unfolding confirm
  confirm-now (err x) e h = absurd (cc)
  confirm-now (ok state) e h = elim (Bool-cases (state == "idle")) [
    | inl idle ↦ absurd (ground arith)
    | inr busy ↦ ground (arith, sleeps half_second e)
  ]

  judge-now :
      (state : Result String) (e : E)
      → (judge ao project_id session_id state e).0 ≡ none
      → ao.now e + half_second ≤ ao.now (judge ao project_id session_id state e).1
  unfolding judge
  judge-now (err x) e h = absurd (cc)
  judge-now (ok state) e h =
      let e1 = ao.sleep second e in
      let e2 = (session_state ao project_id session_id e1).1 in
      let again = confirm-now (session_state ao project_id session_id e1).0 e2 in
      ground (arith, sleeps second e, session_state-now e1, again, sleeps half_second e)

  look-now :
      (e : E)
      → (look ao project_id session_id e).0 ≡ none
      → ao.now e + half_second ≤ ao.now (look ao project_id session_id e).1
  unfolding look
  look-now e h =
      let e1 = (session_state ao project_id session_id e).1 in
      omega
        (arith, session_state-now e, judge-now (session_state ao project_id session_id e).0 e1 h)

  confirm-IsRest :
      (state : Result String) (e : E) (w : Waited)
      → (confirm ao project_id session_id state e).0 ≡ some w
      → IsRest w
  unfolding confirm
  confirm-IsRest (err x) e w h = let same : failed x ≡ w = cc in subst IsRest same tt
  confirm-IsRest (ok state) e w h = elim (Bool-cases (state == "idle")) [
    | inl idle ↦ let same : settled "idle" ≡ w = ground arith in subst IsRest same idle-IsRest
    | inr busy ↦ absurd (ground arith)
  ]

  judge-IsRest :
      (state : Result String) (e : E) (w : Waited)
      → (judge ao project_id session_id state e).0 ≡ some w
      → IsRest w
  unfolding judge
  judge-IsRest (err x) e w h = let same : failed x ≡ w = cc in subst IsRest same tt
  judge-IsRest (ok state) e w h =
      let e1 = ao.sleep second e in
      let (again, e2) = session_state ao project_id session_id e1 in
      elim (Bool-cases (contains ("missing" ∷ "terminated" ∷ []) state)) [
        | inl gone ↦ let same : settled state ≡ w = ground arith in subst IsRest same (ground arith)
        | inr there ↦ elim (Bool-cases (state == "idle")) [
          | inl idle ↦ confirm-IsRest again e2 w (ground arith)
          | inr busy ↦ absurd (ground arith)
        ]
      ]

  follow-some :
      (rest : E → Option Waited × E) (p : Option Waited × E) (w : Waited)
      → p.0 ≡ some w
      → (follow ao project_id session_id rest p).0 ≡ some w
  unfolding follow
  follow-some rest (some v, e) w h = h
  follow-some rest (none, e) w h = absurd (cc)

  follow-none :
      (rest : E → Option Waited × E) (p : Option Waited × E)
      → p.0 ≡ none
      → follow ao project_id session_id rest p ≡ rest p.1
  unfolding follow
  follow-none rest (some v, e) h = absurd (cc)
  follow-none rest (none, e) h = refl

  wait_ends :
      (fuel deadline : ℕ) (e : E)
      → deadline ≤ ao.now e + fuel * half_second
      → (w : Waited) × ((wait ao project_id session_id (suc fuel) deadline e).0 ≡ some w) × IsRest w
  unfolding wait look
  wait_ends zero deadline e h = (timed_out, ground arith, tt)
  wait_ends (suc fuel) deadline e h = elim (Bool-cases (ltb (ao.now e) deadline)) [
    | inr over ↦ (timed_out, ground arith, tt)
    | inl before ↦ elim (Option-cases (look ao project_id session_id e).0) [
      | inr (w, ended) ↦ (
        w,
        rw before (follow-some (wait ao project_id session_id (suc fuel) deadline) _ w ended),
        judge-IsRest (session_state ao project_id session_id e).0 _ w ended,
      )
      | inl goes_on ↦
          let e' = (look ao project_id session_id e).1 in
          let later = look-now e goes_on in
          let (w, ended, rests) = wait_ends fuel deadline e' (omega (arith, h, later)) in
          (
            w,
            rw before (
                ap (λ (p : Option Waited × E). p.0)
                  (follow-none (wait ao project_id session_id (suc fuel) deadline)
                    (look ao project_id session_id e) goes_on)
                ∙ ended),
            rests,
          )
    ]
  ]

  -- Where asking for a session takes no time back and a sleep lasts as long as it should, the wait for a
  -- session ends: with a state that is gone or idle, at the deadline, or by an exception. The fuel of the
  -- loop, one turn for each half second, is enough.
  pub wait_until_idle_ends :
      (timeout : ℕ) (e : E)
      → (w : Waited) × ((wait_until_idle ao project_id session_id timeout e).0 ≡ some w) × IsRest w
  unfolding wait_until_idle
  wait_until_idle_ends timeout e =
      let bound : timeout ≤ (timeout / half_second + 1) * half_second = omega arith in
      wait_ends (timeout / half_second + 1) (ao.now e + timeout) e (omega (arith, bound))
