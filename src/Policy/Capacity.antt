-- ===== src/Policy/Capacity.antt =====
-- The capacity tests of policy.py.
use agent_workflow_superviso.Prelude.{
  ltb→lt, ℕ, String, Bool, true, Option, none, some, List, ◌≡◌, refl, arith, ◌<◌, ltb, ◌↔◌, false,
  suc, [], ◌∷◌, inl, inr, Bool-cases, count_if,
}
use agent_workflow_superviso.Prelude.{option_eq, string_eq, nat_eq}
use agent_workflow_superviso.Prelude.Dict
use agent_workflow_superviso.Models.{AgentSession, active}
use agent_workflow_superviso.Config.{PolicyConfig}
use agent_workflow_superviso.Policy.{
  ModelSelection, has_capacity, has_model_capacity, active_count, is_active_worker,
}

-- There is room under a limit, or there is no limit.
pub Room : ℕ → Option ℕ → Type 0
Room n none = Unit
Room n (some limit) = n < limit

below_limit : ℕ → Option ℕ → Bool
below_limit n limit = elim limit [ none ↦ true | some l ↦ ltb n l ]

below_limit-Room :
    (n : ℕ) (limit : Option ℕ)
    → (below_limit n limit ≡ true → Room n limit) × (Room n limit → below_limit n limit ≡ true)
unfolding below_limit Room
below_limit-Room n none = (λ h. tt, λ r. refl)
below_limit-Room n (some l) = (λ h. ltb→lt n l h, λ r. ground arith)

-- An active worker of the harness.
pub record IsWorkerOf (harness : String) (s : AgentSession) : Type 0 where
  pub role : s.role ≡ "worker"
  pub runs : s.harness ≡ harness
  pub active : active s ≡ true

-- So many of the sessions are active workers of the harness.
pub data Counts (harness : String) : List AgentSession → ℕ → Type 0 where
  no_sessions : Counts harness [] 0
  worker :
      {s : AgentSession} {sessions : List AgentSession} {n : ℕ}
      → IsWorkerOf harness s
      → Counts harness sessions n
      → Counts harness (s ∷ sessions) (suc n)
  another :
      {s : AgentSession} {sessions : List AgentSession} {n : ℕ}
      → ¬ IsWorkerOf harness s
      → Counts harness sessions n
      → Counts harness (s ∷ sessions) n

worker_lem :
    (harness : String) (s : AgentSession) → is_active_worker harness s ≡ true → IsWorkerOf harness s
unfolding is_active_worker
worker_lem harness s h = record { role = ground arith; runs = ground arith; active = ground arith }

another_lem :
    (harness : String) (s : AgentSession)
    → is_active_worker harness s ≡ false
    → ¬ IsWorkerOf harness s
unfolding is_active_worker
another_lem harness s h w =
    let r = w.role in let e = w.runs in let a = w.active in ground (arith, r, e, a)

active_count-Counts :
    (sessions : List AgentSession) (harness : String)
    → Counts harness sessions (active_count sessions harness)
unfolding active_count count_if
active_count-Counts [] harness = no_sessions
active_count-Counts (s ∷ sessions) harness = elim (Bool-cases (is_active_worker harness s)) [
  | inl works ↦
      rw works (worker (worker_lem harness s works) (active_count-Counts sessions harness))
  | inr fails ↦
      rw fails (another (another_lem harness s fails) (active_count-Counts sessions harness))
]

-- For the number of sessions that are active workers of the selected harness: a worker may start exactly
-- when this number is below the harness's limit and below the profile's, where these are set.
pub has_model_capacity_lem :
    (sessions : List AgentSession) (s : ModelSelection) (policy : PolicyConfig)
    → (n : ℕ) × Counts s.harness sessions n
      × ((has_model_capacity sessions s policy ≡ true)
          ↔ (Room n (Dict.get s.harness policy.capacity) × Room n s.capacity))
unfolding has_model_capacity has_capacity below_limit
has_model_capacity_lem sessions s policy =
    let n = active_count sessions s.harness in
    let (from_policy, to_policy) = below_limit-Room n (Dict.get s.harness policy.capacity) in
    let (from_profile, to_profile) = below_limit-Room n s.capacity in
    (
      n,
      active_count-Counts sessions s.harness,
      (
        λ h. (from_policy (ground arith), from_profile (ground arith)),
        λ rooms. let (a, b) = rooms in ground (arith, to_policy a, to_profile b),
      ),
    )
