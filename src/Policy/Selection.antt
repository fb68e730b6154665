-- ===== src/Policy/Selection.antt =====
-- `select_model` of policy.py against the rules for choosing a model, on every configuration that
-- config.py's validators accept.
use agent_workflow_superviso.Prelude.{
  String, ◌<>◌, true, false, Option, none, some, ◌≡◌, refl, sym, arith, inl, inr, Bool-cases,
  Option-cases,
}
use agent_workflow_superviso.Prelude.{contains, option_eq, string_eq, nat_eq, first}
use agent_workflow_superviso.Prelude.Dict
use agent_workflow_superviso.Prelude.Dict.{Dict}
use agent_workflow_superviso.Result.{Result, ok, ◌>>=◌, >>=-eq-ok}
use agent_workflow_superviso.Models.{WorkItem}
use agent_workflow_superviso.Config.{RouteRule, PolicyConfig, ModelProfileConfig}
use agent_workflow_superviso.Policy.{
  ModelSelection, selection_for_profile, selection_for_harness, selection_for_rule, first_rule,
  labelled_profile, select_default, select_model, intersects, rule_matches,
}
use agent_workflow_superviso.Policy.Matching.{
  Shares, Matches, FirstOf, NoneOf, first-FirstOf, first-NoneOf, intersects-decides,
  rule_matches-decides,
}

module _ (policy : PolicyConfig) where
  -- The profile of this name, as configured.
  pub record ProfileChoice (name : String) (s : ModelSelection) : Type 0 where
    pub chosen : ModelProfileConfig
    pub configured : Dict.get name policy.model_profiles ≡ some chosen
    pub named : s.profile ≡ some name
    pub harness : s.harness ≡ chosen.harness
    pub model : s.model ≡ some chosen.model
    pub capacity : s.capacity ≡ some chosen.capacity
    pub provider : s.provider ≡ chosen.provider

  -- A harness without a profile, with the model that the policy gives it.
  pub record HarnessChoice (name : String) (s : ModelSelection) : Type 0 where
    pub unnamed : s.profile ≡ none
    pub harness : s.harness ≡ name
    pub model : s.model ≡ Dict.get name policy.models
    pub capacity : s.capacity ≡ none
    pub provider : s.provider ≡ none

  -- A profile where one is named, and else a harness.
  pub data Choice : Option String → Option String → ModelSelection → Type 0 where
    of_profile :
        {name : String} {harness : Option String} {s : ModelSelection}
        → ProfileChoice name s
        → Choice (some name) harness s
    of_harness :
        {name : String} {s : ModelSelection} → HarnessChoice name s → Choice none (some name) s

  pub Labels : WorkItem → String → Type 0
  Labels item name = contains item.labels ("agent:" <> name) ≡ true

  -- What the policy says of an item, `none` for one to skip: the first rule that matches decides,
  -- then the first profile that a label names, then the default.
  pub data Selects (item : WorkItem) : Option ModelSelection → Type 0 where
    skipped : Shares item.labels policy.skip_labels → Selects item none
    routed :
        {rule : RouteRule} {s : ModelSelection}
        → ¬ Shares item.labels policy.skip_labels
        → FirstOf (Matches item) policy.routes rule
        → Choice rule.profile rule.harness s
        → Selects item (some s)
    labelled :
        {name : String} {s : ModelSelection}
        → ¬ Shares item.labels policy.skip_labels
        → NoneOf (Matches item) policy.routes
        → FirstOf (Labels item) (Dict.keys policy.model_profiles) name
        → ProfileChoice name s
        → Selects item (some s)
    defaulted :
        {s : ModelSelection}
        → ¬ Shares item.labels policy.skip_labels
        → NoneOf (Matches item) policy.routes
        → NoneOf (Labels item) (Dict.keys policy.model_profiles)
        → Choice policy.default_model_profile (some policy.default_harness) s
        → Selects item (some s)

  profile-choice :
      (name : String) (s : ModelSelection)
      → selection_for_profile name policy ≡ ok s
      → ProfileChoice name s
  unfolding selection_for_profile
  profile-choice name s h = elim (Option-cases (Dict.get name policy.model_profiles)) [
    | inl missing ↦ absurd (ground arith)
    | inr (p, found) ↦ record {
      chosen = p;
      configured = found;
      named = ground arith;
      harness = ground arith;
      model = ground arith;
      capacity = ground arith;
      provider = ground arith;
    }
  ]

  harness-choice : (name : String) → HarnessChoice name (selection_for_harness name policy)
  unfolding selection_for_harness
  harness-choice name = record {
    unnamed = refl;
    harness = refl;
    model = refl;
    capacity = refl;
    provider = refl;
  }

  rule-choice :
      (rule : RouteRule) (s : ModelSelection)
      → selection_for_rule rule policy ≡ ok s
      → Choice rule.profile rule.harness s
  unfolding selection_for_rule
  rule-choice rule s h = elim (Option-cases rule.profile) [
    | inr (name, p) ↦ rw p (of_profile (profile-choice name s (ground arith)))
    | inl p ↦ elim (Option-cases rule.harness) [
      | inr (name, q) ↦
          let e : selection_for_harness name policy ≡ s = ground arith in
          rw (p, q, sym e) (of_harness (harness-choice name))
      | inl q ↦ absurd (ground arith)
    ]
  ]

  option-choice :
      (profile : Option String) (harness : String) (s : ModelSelection)
      → (elim profile [
        | some name ↦ selection_for_profile name policy
        | none ↦ ok (selection_for_harness harness policy)
      ])
        ≡ ok s
      → Choice profile (some harness) s
  option-choice (some name) harness s h = of_profile (profile-choice name s h)
  option-choice none harness s h =
      let e : selection_for_harness harness policy ≡ s = cc in
      rw (sym e) (of_harness (harness-choice harness))

  default-choice :
      (s : ModelSelection)
      → select_default policy ≡ ok s
      → Choice policy.default_model_profile (some policy.default_harness) s
  unfolding select_default
  default-choice s h = option-choice policy.default_model_profile policy.default_harness s h

  module _ (item : WorkItem) where
    label_decides :
        (name : String)
        → (contains item.labels ("agent:" <> name) ≡ true → Labels item name)
          × (contains item.labels ("agent:" <> name) ≡ false → ¬ Labels item name)
    unfolding Labels
    label_decides name = (λ h. h, λ h p. cc)

    some-Selects :
        (call : Result ModelSelection) (s : Option ModelSelection)
        → ((x : ModelSelection) → call ≡ ok x → Selects item (some x))
        → (do x ← call; ok (some x)) ≡ ok s
        → Selects item s
    some-Selects call s f h =
        let (x, e, g) = >>=-eq-ok call (λ x. ok (some x)) h in
        let same : some x ≡ s = cc in rw (sym same) (f x e)

    kept-Selects :
        (s : Option ModelSelection)
        → ¬ Shares item.labels policy.skip_labels
        → intersects item.labels policy.skip_labels ≡ false
        → select_model item policy ≡ ok s
        → Selects item s
    unfolding select_model first_rule labelled_profile
    kept-Selects s keep no_skip h = elim (Option-cases (first (rule_matches item) policy.routes)) [
      | inr (rule, found) ↦
          some-Selects (selection_for_rule rule policy) s
            (λ x e.
              routed keep
                (first-FirstOf (rule_matches item) (Matches item) (rule_matches-decides item)
                  policy.routes found)
                (rule-choice rule x e))
            (ground arith)
      | inl no_rule ↦
          let none_match =
            first-NoneOf (rule_matches item) (Matches item) (rule_matches-decides item)
              policy.routes no_rule in
          elim (Option-cases (
            first (λ name. contains item.labels ("agent:" <> name))
              (Dict.keys policy.model_profiles))) [
                | inr (name, found) ↦
                    some-Selects (selection_for_profile name policy) s
                      (λ x e.
                        labelled keep none_match
                          (first-FirstOf (λ n. contains item.labels ("agent:" <> n)) (Labels item)
                            label_decides (Dict.keys policy.model_profiles) found)
                          (profile-choice name x e))
                      (ground arith)
                | inl no_label ↦
                    some-Selects (select_default policy) s
                      (λ x e.
                        defaulted keep none_match
                          (first-NoneOf (λ n. contains item.labels ("agent:" <> n)) (Labels item)
                            label_decides (Dict.keys policy.model_profiles) no_label)
                          (default-choice x e))
                      (ground arith)
              ]
    ]

    -- Whatever `select_model` returns is what the policy says of the item. It is `None` only if the
    -- item has a label to skip. Otherwise the first rule that matches the item's labels decides; if
    -- none does, the first configured profile that an `agent:` label names; if there is none, the
    -- default profile, or the default harness. The selection has that profile's harness, model,
    -- capacity and provider, or that harness and the model configured for it.
    pub select_model-Selects :
        (s : Option ModelSelection) → select_model item policy ≡ ok s → Selects item s
    unfolding select_model first_rule labelled_profile
    select_model-Selects s h =
        let shares = intersects-decides item.labels policy.skip_labels in
        elim (Bool-cases (intersects item.labels policy.skip_labels)) [
          | inl skip ↦ let e : none ≡ s = ground arith in rw (sym e) (skipped (shares.0 skip))
          | inr keep ↦ kept-Selects s (shares.1 keep) keep h
        ]
