-- ===== src/Policy/Totality.antt =====
-- `select_model` of policy.py never raises on a configuration that config.py's validators accept.
use agent_workflow_superviso.Prelude.{
  String, ◌<>◌, Bool, true, false, ◌&&◌, none, some, List, [], ◌∷◌, ◌≡◌, refl, sym, arith, inl, inr,
  Bool-cases, Option-cases,
}
use agent_workflow_superviso.Prelude.{contains, option_eq, string_eq, nat_eq, all, first}
use agent_workflow_superviso.Prelude.Dict
use agent_workflow_superviso.Prelude.Dict.{Dict}
use agent_workflow_superviso.Result.{Result, ok, Result-cases}
use agent_workflow_superviso.Models.{WorkItem}
use agent_workflow_superviso.Config.{
  RouteRule, PolicyConfig, AppConfig, is_configured, is_known_profile, require_matcher,
  validate_routes, validate_credential_profiles, validate_each,
}
use agent_workflow_superviso.Policy.{
  selection_for_profile, selection_for_harness, selection_for_rule, first_rule, labelled_profile,
  select_default, select_model, intersects, rule_matches,
}

-- The call returns.
pub Returns {ℓ} : {A : Type ℓ} → Result A → Type ℓ
Returns {A} call = (a : A) × (call ≡ ok a)

first-satisfies :
    {A : Type 0} (test holds : A → Bool) (xs : List A) {x : A}
    → all holds xs ≡ true
    → first test xs ≡ some x
    → holds x ≡ true
unfolding first all
first-satisfies test holds [] h f = cc
first-satisfies test holds (y ∷ ys) {x} h f = elim (Bool-cases (test y)) [
  | inl found ↦ let same : y ≡ x = ground arith in rw (sym same) (ground arith)
  | inr passed ↦ first-satisfies test holds ys (ground arith) (ground arith)
]

-- A key found among the keys is configured.
first-configured :
    {V : Type 0} (test : String → Bool) (d : Dict String V) {x : String}
    → first test (Dict.keys d) ≡ some x
    → is_configured d x ≡ true
unfolding first Dict.keys is_configured Dict.get
first-configured test [] f = cc
first-configured test ((k, v) ∷ d) {x} f = elim (Bool-cases (test k)) [
  | inl found ↦ let same : k ≡ x = ground arith in rw (sym same) (ground arith)
  | inr passed ↦
      let rest : is_configured d x ≡ true = first-configured test d (ground arith) in ground arith
]

module _ (policy : PolicyConfig) where
  profile-Returns :
      (name : String)
      → is_configured policy.model_profiles name ≡ true
      → Returns (selection_for_profile name policy)
  unfolding selection_for_profile is_configured Returns
  profile-Returns name h = elim (Option-cases (Dict.get name policy.model_profiles)) [
    | inl missing ↦ absurd (ground arith)
    | inr (p, found) ↦ rw (found) (_, refl)
  ]

  default-Returns :
      is_known_profile policy policy.default_model_profile ≡ true → Returns (select_default policy)
  unfolding select_default is_known_profile Returns
  default-Returns h = elim (Option-cases policy.default_model_profile) [
    | inl e ↦ (selection_for_harness policy.default_harness policy, ground arith)
    | inr (name, e) ↦ let (s, p) = profile-Returns name (ground arith) in (s, ground arith)
  ]

  -- What the two validators leave of a rule.
  is_sound : RouteRule → Bool
  is_sound rule = is_known_profile policy rule.profile && elim rule.profile [
    | none ↦ elim rule.harness [ none ↦ false | some _ ↦ true ]
    | some _ ↦ true
  ]

  rule-Returns :
      (rule : RouteRule) → is_sound rule ≡ true → Returns (selection_for_rule rule policy)
  unfolding selection_for_rule is_sound is_known_profile Returns
  rule-Returns rule h = elim (Option-cases rule.profile) [
    | inr (name, e) ↦ let (s, p) = profile-Returns name (ground arith) in (s, ground arith)
    | inl e ↦ elim (Option-cases rule.harness) [
      | inl e' ↦ absurd (ground arith)
      | inr (harness, e') ↦ (selection_for_harness harness policy, ground arith)
    ]
  ]

  routes_sound :
      (rules : List RouteRule)
      → validate_routes rules ≡ ok tt
      → all (λ rule. is_known_profile policy rule.profile) rules ≡ true
      → all is_sound rules ≡ true
  unfolding validate_routes all is_sound require_matcher
  routes_sound [] h k = refl
  routes_sound (rule ∷ rules) h k = ground (arith, routes_sound rules)

  -- A configuration whose profiles and rules are known, in the form that routing reads.
  select_model-Returns :
      (item : WorkItem)
      → is_known_profile policy policy.default_model_profile ≡ true
      → all is_sound policy.routes ≡ true
      → Returns (select_model item policy)
  unfolding select_model first_rule labelled_profile Returns
  select_model-Returns item known sound =
      elim (Bool-cases (intersects item.labels policy.skip_labels)) [
        | inl skip ↦ (none, ground arith)
        | inr keep ↦ elim (Option-cases (first (rule_matches item) policy.routes)) [
          | inr (rule, found) ↦
              let (s, p) =
                rule-Returns rule
                  (first-satisfies (rule_matches item) is_sound policy.routes sound found) in
              (some s, ground arith)
          | inl no_rule ↦
              elim (Option-cases (
                first (λ name. contains item.labels ("agent:" <> name))
                  (Dict.keys policy.model_profiles))) [
                    | inr (name, found) ↦
                        let (s, p) =
                          profile-Returns name (first-configured _ policy.model_profiles found) in
                        (some s, ground arith)
                    | inl no_label ↦ let (s, p) = default-Returns known in (some s, ground arith)
                  ]
        ]
      ]

validated :
    (config : AppConfig)
    → validate_credential_profiles config ≡ ok tt
    → (is_known_profile config.policy config.policy.default_model_profile ≡ true)
      × (all (λ rule. is_known_profile config.policy rule.profile) config.policy.routes ≡ true)
unfolding validate_credential_profiles
validated config h = elim (Result-cases (validate_each config config.policy.credential_profiles)) [
  | inl (u, e) ↦ (ground arith, ground arith)
  | inr (x, e) ↦ absurd (ground arith)
]

-- On a configuration that passes config.py's validators, `select_model` raises for no work item.
pub select_model_total :
    (config : AppConfig) (item : WorkItem)
    → validate_routes config.policy.routes ≡ ok tt
    → validate_credential_profiles config ≡ ok tt
    → Returns (select_model item config.policy)
select_model_total config item rules profiles =
    let (known, all_known) = validated config profiles in
    select_model-Returns config.policy item known
      (routes_sound config.policy config.policy.routes rules all_known)
