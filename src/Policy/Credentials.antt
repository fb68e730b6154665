-- ===== src/Policy/Credentials.antt =====
-- `select_credential_profile` of policy.py: the choice of an account for a worker.
use agent_workflow_superviso.Prelude.{
  ℕ, suc, String, true, Option, none, some, List, [], ◌∷◌, ◌≡◌, refl, sym, subst, arith, inl, inr,
  ◌⊎◌, Bool-cases, Option-cases, ◌≤◌, ◌<◌, ltb→lt, ltb→le, ltb,
}
use agent_workflow_superviso.Prelude.{contains, option_eq, string_eq, nat_eq, count_if, all}
use agent_workflow_superviso.Prelude.Dict
use agent_workflow_superviso.Prelude.Dict.{Dict}
use agent_workflow_superviso.Result.{ok, Result-cases}
use agent_workflow_superviso.Policy.Matching.{contains-head, contains-tail, contains-cases}
use agent_workflow_superviso.Policy.Least.{Among, least_from-least, least_from-Among}
use agent_workflow_superviso.Models.{AgentSession}
use agent_workflow_superviso.Config.{
  AppConfig, CredentialProfileConfig, is_configured, validate_credential_names, validate_each,
  validate_credential_profiles,
}
use agent_workflow_superviso.Policy.{
  Candidate, least_from, least, is_profile_worker, Choice, eligible, credential_names,
  select_credential_profile,
}

-- A profile named for the harness, with its count of workers below its limit.
pub record IsEligible (sessions : List AgentSession) (harness : String) (config : AppConfig)
    (choice : Choice) : Type 0 where
  pub named : contains (credential_names config harness) choice.0 ≡ true
  pub configured : Dict.get choice.0 config.profiles ≡ some choice.1
  pub below : count_if (is_profile_worker harness choice.1) sessions < choice.1.max_workers

module _ (sessions : List AgentSession) (harness : String) (config : AppConfig) where
  count_of : Choice → ℕ
  count_of choice = count_if (is_profile_worker harness choice.1) sessions

  -- A candidate of a profile among these names.
  record IsCandidate (names : List String) (c : Candidate Choice) : Type 0 where
    named : contains names c.choice.0 ≡ true
    configured : Dict.get c.choice.0 config.profiles ≡ some c.choice.1
    below : c.count < c.choice.1.max_workers
    counted : c.count ≡ count_of c.choice

  candidate : ℕ → String → CredentialProfileConfig → Candidate Choice
  candidate order name p = record { count = count_of (name, p); order = order; choice = (name, p) }

  -- A round of the loop: the profile is configured, and is a candidate if it has room.
  record Round (order : ℕ) (name : String) (names : List String) (cs : List (Candidate Choice))
      : Type 0 where
    profile : CredentialProfileConfig
    rest : List (Candidate Choice)
    found : Dict.get name config.profiles ≡ some profile
    others : eligible sessions harness config.profiles (suc order) names ≡ ok rest
    outcome :
        ((count_of (name, profile) < profile.max_workers)
          × (cs ≡ candidate order name profile ∷ rest))
        ⊎ ((profile.max_workers ≤ count_of (name, profile)) × (cs ≡ rest))

  eligible-Round :
      (order : ℕ) (name : String) (names : List String) (cs : List (Candidate Choice))
      → eligible sessions harness config.profiles order (name ∷ names) ≡ ok cs
      → Round order name names cs
  unfolding eligible candidate count_of
  eligible-Round order name names cs h = elim (Option-cases (Dict.get name config.profiles)) [
    | inl missing ↦ absurd (ground arith)
    | inr (p, found) ↦
        elim (Result-cases (eligible sessions harness config.profiles (suc order) names)) [
          | inr (e, raised) ↦ absurd (ground arith)
          | inl (rest, others) ↦ record {
            profile = p;
            rest = rest;
            found = found;
            others = others;
            outcome =
                elim (Bool-cases
                  (ltb (count_if (is_profile_worker harness p) sessions) p.max_workers)) [
                    | inl room ↦ inl (ltb→lt _ _ room, ground arith)
                    | inr full ↦ inr (ltb→le _ _ full, ground arith)
                  ];
          }
        ]
  ]

  later-name :
      (name : String) (names : List String) (c : Candidate Choice)
      → IsCandidate names c
      → IsCandidate (name ∷ names) c
  later-name name names c k = record {
    named = contains-tail name c.choice.0 names k.named;
    configured = k.configured;
    below = k.below;
    counted = k.counted;
  }

  eligible-IsCandidate :
      (order : ℕ) (names : List String) (cs : List (Candidate Choice))
      → eligible sessions harness config.profiles order names ≡ ok cs
      → (c : Candidate Choice) → Among c cs
      → IsCandidate names c
  unfolding eligible Among candidate
  eligible-IsCandidate order [] cs h c i =
      let empty : cs ≡ [] = cc in elim (subst (λ x. Among c x) empty i) [ ]
  eligible-IsCandidate order (name ∷ names) cs h c i =
      let r = eligible-Round order name names cs h in
      let later : Among c r.rest → IsCandidate (name ∷ names) c =
        λ j. later-name name names c (eligible-IsCandidate (suc order) names r.rest r.others c j) in
      elim r.outcome [
        | inr (full, same) ↦ later (subst (λ x. Among c x) same i)
        | inl (room, same) ↦ elim (subst (λ x. Among c x) same i) [
          | inr j ↦ later j
          | inl this ↦ rw this (record {
            named = contains-head name names;
            configured = r.found;
            below = room;
            counted = refl;
          })
        ]
      ]

  eligible_complete :
      (order : ℕ) (names : List String) (cs : List (Candidate Choice))
      → eligible sessions harness config.profiles order names ≡ ok cs
      → (choice : Choice) → contains names choice.0 ≡ true
      → Dict.get choice.0 config.profiles ≡ some choice.1
      → count_of choice < choice.1.max_workers
      → (c : Candidate Choice) × Among c cs × (c.count ≡ count_of choice)
  unfolding eligible Among candidate count_of
  eligible_complete order [] cs h choice named configured below = cc
  eligible_complete order (name ∷ names) cs h choice named configured below =
      let r = eligible-Round order name names cs h in
      elim (contains-cases name choice.0 names named) [
        | inr later ↦
            let (c, i, e) =
              eligible_complete (suc order) names r.rest r.others choice later configured below in
            elim r.outcome [
              | inr (full, same) ↦ (c, subst (λ x. Among c x) (sym same) i, e)
              | inl (room, same) ↦ (c, subst (λ x. Among c x) (sym same) (inr i), e)
            ]
        | inl this ↦
            let known : choice.1 ≡ r.profile = cc r.found in
            let counts : count_of (name, r.profile) ≡ count_of choice = cc in
            elim r.outcome [
              | inr (full, same) ↦ absurd (ground (arith, known))
              | inl (room, same) ↦
                  let first = candidate order name r.profile in
                  (first, subst (λ x. Among first x) (sym same) (inl refl), counts)
            ]
      ]

  -- What `select_credential_profile` promises: an eligible profile with as few workers as any, or
  -- that no profile is eligible.
  pub BestChoice : Option Choice → Type 0
  BestChoice none = (other : Choice) → ¬ IsEligible sessions harness config other
  BestChoice (some choice) =
      IsEligible sessions harness config choice
      × ((other : Choice)
          → IsEligible sessions harness config other
          → count_if (is_profile_worker harness choice.1) sessions
            ≤ count_if (is_profile_worker harness other.1) sessions)

  least-BestChoice :
      (cs : List (Candidate Choice))
      → eligible sessions harness config.profiles 0 (credential_names config harness) ≡ ok cs
      → BestChoice (elim (least cs) [ none ↦ none | some c ↦ some c.choice ])
  unfolding least BestChoice Among count_of
  least-BestChoice [] h = λ other e.
      elim (eligible_complete 0 (credential_names config harness) [] h other e.named e.configured
        e.below).1 [ ]
  least-BestChoice (c ∷ cs) h =
      let names = credential_names config harness in
      let k = eligible-IsCandidate 0 names (c ∷ cs) h (least_from c cs) (least_from-Among c cs) in
      (
        record {
          named = k.named;
          configured = k.configured;
          below = ground (arith, k.counted, k.below);
        },
        λ other e.
            let (d, i, counts) =
              eligible_complete 0 names (c ∷ cs) h other e.named e.configured e.below in
            let least = least_from-least c cs d i in ground (arith, k.counted, counts, least),
      )

  eligible_returns :
      (order : ℕ) (names : List String)
      → all (is_configured config.profiles) names ≡ true
      → (cs : List (Candidate Choice)) × (eligible sessions harness config.profiles order names
          ≡ ok cs)
  unfolding eligible all is_configured
  eligible_returns order [] h = ([], refl)
  eligible_returns order (name ∷ names) h =
      let (rest, e) = eligible_returns (suc order) names (ground arith) in
      elim (Option-cases (Dict.get name config.profiles)) [
        | inl missing ↦ absurd (ground arith)
        | inr (p, found) ↦ rw (found, e) (_, refl)
      ]

  names_configured :
      (d : Dict String (List String)) (names : List String)
      → validate_each config d ≡ ok tt
      → Dict.get harness d ≡ some names
      → all (is_configured config.profiles) names ≡ true
  unfolding validate_each validate_credential_names Dict.get
  names_configured [] names h e = cc
  names_configured ((k, v) ∷ d) names h e =
      elim (Bool-cases (all (is_configured config.profiles) v)) [
        | inl sound ↦ ground (arith, names_configured d names)
        | inr unknown ↦ absurd (ground arith)
      ]

  credential_names_configured :
      validate_credential_profiles config ≡ ok tt
      → all (is_configured config.profiles) (credential_names config harness) ≡ true
  unfolding validate_credential_profiles credential_names all
  credential_names_configured h =
      elim (Option-cases (Dict.get harness config.policy.credential_profiles)) [
        | inl missing ↦ rw (missing, credential_names) refl
        | inr (names, found) ↦
            let named =
              names_configured config.policy.credential_profiles names
                (ground
                  (arith, Result-cases (validate_each config config.policy.credential_profiles)))
                found in
            rw (found, credential_names) named
      ]

  -- On a configuration whose credential profiles config.py's validator accepts,
  -- `select_credential_profile` returns. It names a configured profile of the harness that has room
  -- and as few active workers as any of its profiles with room, and it answers `None` only if none
  -- of them has room.
  pub select_credential_profile-BestChoice :
      validate_credential_profiles config ≡ ok tt
      → (answer : Option Choice) × (select_credential_profile sessions harness config ≡ ok answer)
        × BestChoice answer
  unfolding select_credential_profile
  select_credential_profile-BestChoice h =
      let (cs, e) =
        eligible_returns 0 (credential_names config harness) (credential_names_configured h) in
      (elim (least cs) [ none ↦ none | some c ↦ some c.choice ], rw e refl, least-BestChoice cs e)
