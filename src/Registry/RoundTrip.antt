-- ===== src/Registry/RoundTrip.antt =====
-- registry.py: what is registered is what the lookups give.
use Prim.Native.Char.{Char}
use Prim.Native.String.{[] as ε, ◌∷◌ as ◌∷∷◌}
use agent_workflow_superviso.Prelude.{
  String, true, Option, none, some, ◌≡◌, refl, sym, inl, inr, arith, ap, Option-cases, Bool-cases,
  ◌∙◌, ◌≢◌, ◌≤◌, subst,
}
use agent_workflow_superviso.Prelude.{if◌then◌else◌, ◌==◌, option_eq, string_eq, first, ltb}
use agent_workflow_superviso.Prelude.Dict.{get, get-put}
use agent_workflow_superviso.Prelude.Text.{map_chars, casefold, strip}
use agent_workflow_superviso.Result.{
  Error, Result, ok, err, key_error, Result-cases, raise_if, raise_if-eq-ok, >>=-eq-ok, value_error,
  ◌>>◌ as ◌>>◌,
}
use agent_workflow_superviso.Graph.State.{or_none, or_default}
use agent_workflow_superviso.Registry.Stored.{
  ModelTable, Stored, Registry, ensure_registry, stored, or_table, edit, view, validate_name,
}
use agent_workflow_superviso.Registry.Records.{
  ModelProfileRecord, add_profile, check_profile, profile_table, normalized_provider,
  register_model_profile, read_profile, get_model_profile,
}
use agent_workflow_superviso.Registry.Lookup.{first-read}
use agent_workflow_superviso.Registry.Consistency.{
  is_some, complete_profile, consistent, IsConsistent,
}
use agent_workflow_superviso.Registry.Edits.{profile-IsConsistent}

unfoldable pub make_profile : String × ModelTable → ModelProfileRecord
unfolding or_none
make_profile (name, m) = record {
  name = name;
  harness = or_default m.harness "";
  model = or_default m.model "";
  provider = or_none m.provider;
  capacity = or_default m.capacity 1;
}

read_profile_complete :
    (name : String) (m : ModelTable)
    → complete_profile m ≡ true
    → read_profile (name, m) ≡ ok (make_profile (name, m))
unfolding read_profile make_profile complete_profile is_some
read_profile_complete name m h = elim (Option-cases m.harness) [
  | inl missing ↦ absurd (ground arith)
  | inr (harness, a) ↦ elim (Option-cases m.model) [
    | inl missing ↦ absurd (ground arith)
    | inr (model, b) ↦ rw (a, b) refl
  ]
]

abbrev pub profile_at : String → Option ModelTable → Result ModelProfileRecord
profile_at name none = err key_error
profile_at name (some m) = ok (make_profile (name, m))

-- Looking up a model profile, in terms of its entry.
pub get_model_profile_lem :
    (name : String) (file : Stored)
    → IsConsistent file
    → (get_model_profile name file).0 ≡ profile_at name (get name (or_table file.models))
unfolding get_model_profile view consistent ensure_registry make_profile
get_model_profile_lem name file h =
    let (profiles, done, found) =
      first-read read_profile make_profile (λ p. p.name) complete_profile read_profile_complete
        (λ n m. refl) (or_table file.models) name (ground arith) in
    elim (Option-cases (get name (or_table file.models))) [
      | inl missing ↦
          let none_found : first (λ p. p.name == name) profiles ≡ none = cc in
          rw (done, none_found, missing) refl
      | inr (m, there) ↦
          let one_found : first (λ p. p.name == name) profiles ≡ some (make_profile (name, m)) =
            cc in
          rw (done, one_found, there) refl
    ]

map_chars-empty : (f : Char → Char) (s : String) → map_chars f s ≡ "" → s ≡ ""
unfolding map_chars
map_chars-empty f ε h = refl
map_chars-empty f (c ∷∷ s) h = absurd (cc)

casefold-empty : (s : String) → casefold s ≡ "" → s ≡ ""
unfolding casefold
casefold-empty s h = map_chars-empty _ s h

normalized_or_none :
    (provider : Option String)
    → or_none (normalized_provider provider) ≡ normalized_provider provider
unfolding normalized_provider or_none
normalized_or_none none = refl
normalized_or_none (some p) = ground (arith, casefold-empty (strip p))

added :
    (p : ModelProfileRecord) (value : Registry)
    → make_profile (p.name, profile_table p) ≡ (add_profile p value).0
unfolding make_profile profile_table add_profile
added p value = rw (normalized_or_none p.provider) refl

put-profile :
    (p : ModelProfileRecord) (name : String) (value : Registry) (r : ModelProfileRecord)
    → (add_profile p value).0 ≡ r
    → profile_at name (get name (add_profile p value).1.models)
      ≡ (if name == p.name then ok r else profile_at name (get name value.models))
unfolding add_profile
put-profile p name value r e = elim (Bool-cases (name == p.name)) [
  | inl same ↦ ground (arith, get-put name p.name (profile_table p) value.models, added p value)
  | inr other ↦ ground (arith, get-put name p.name (profile_table p) value.models)
]

pub ok-injective : {A : Type 0} {a b : A} → ok a ≡ ok b → a ≡ b
ok-injective h = cc

register_valid :
    (p : ModelProfileRecord) (file : Stored) (u : Unit {0})
    → check_profile p ≡ ok u
    → register_model_profile p file ≡ (
      ok (add_profile p (ensure_registry file)).0,
      stored (add_profile p (ensure_registry file)).1,
    )
unfolding register_model_profile edit
register_valid p file u valid = rw (valid, register_model_profile) refl

register_invalid :
    (p : ModelProfileRecord) (file : Stored) (e : Error)
    → check_profile p ≡ err e
    → (register_model_profile p file).0 ≡ err e
unfolding register_model_profile
register_invalid p file e raised = rw (raised, register_model_profile) refl

stored_profile :
    (p : ModelProfileRecord) (file : Stored) (name : String) (u : Unit {0})
    → IsConsistent file
    → check_profile p ≡ ok u
    → (get_model_profile name (register_model_profile p file).1).0
      ≡ profile_at name (get name (add_profile p (ensure_registry file)).1.models)
unfolding stored or_table
stored_profile p file name u c valid =
    get_model_profile_lem name (register_model_profile p file).1
      (profile-IsConsistent (λ s. s) p file c)
    ∙ ap
        (λ (f : Result ModelProfileRecord × Stored).
          profile_at name (get name (or_table f.1.models)))
        (register_valid p file u valid)

-- The provider that is kept: the text given, stripped and in lower case, if this is not empty.
pub data IsProvider : Option String → Option String → Type 0 where
  not_given : IsProvider none none
  blank : (p : String) → strip p ≡ "" → IsProvider (some p) none
  given : (p : String) → strip p ≢ "" → IsProvider (some p) (some (casefold (strip p)))

-- What is kept of a model profile, and what is returned.
pub record IsNormalized (p r : ModelProfileRecord) : Type 0 where
  pub name : r.name ≡ p.name
  pub harness : (r.harness ≡ strip p.harness) × (r.harness ≢ "")
  pub model : (r.model ≡ strip p.model) × (r.model ≢ "")
  pub provider : IsProvider p.provider r.provider
  pub capacity : (r.capacity ≡ p.capacity) × (1 ≤ r.capacity)

provider_lem : (o : Option String) → IsProvider o (normalized_provider o)
unfolding normalized_provider
provider_lem none = not_given
provider_lem (some p) = elim (Bool-cases (strip p == "")) [
  | inl empty ↦ rw empty (blank p (ground arith))
  | inr full ↦ rw full (given p (λ e. ground (arith, e)))
]

check_profile-eq-ok :
    (p : ModelProfileRecord) (u : Unit {0})
    → check_profile p ≡ ok u
    → (strip p.harness ≢ "") × (strip p.model ≢ "") × (1 ≤ p.capacity)
unfolding check_profile
check_profile-eq-ok p u h =
    let capacity : Result (Unit {0}) = raise_if (ltb p.capacity 1) value_error in
    let model = raise_if (strip p.model == "") value_error in
    let harness = raise_if (strip p.harness == "") value_error in
    let (a, one, after_name) =
      >>=-eq-ok (validate_name p.name) (λ _. harness >> (model >> capacity)) h in
    let (b, two, after_harness) = >>=-eq-ok harness (λ _. model >> capacity) after_name in
    let (c, three, four) = >>=-eq-ok model (λ _. capacity) after_harness in
    let has_harness = raise_if-eq-ok (strip p.harness == "") value_error two in
    let has_model = raise_if-eq-ok (strip p.model == "") value_error three in
    let has_room = raise_if-eq-ok (ltb p.capacity 1) value_error four in
    (
      λ e. ground (arith, has_harness, e),
      λ e. ground (arith, has_model, e),
      ground (arith, has_room),
    )

add_profile-IsNormalized :
    (p : ModelProfileRecord) (value : Registry) (u : Unit {0})
    → check_profile p ≡ ok u
    → IsNormalized p (add_profile p value).0
unfolding add_profile
add_profile-IsNormalized p value u valid =
    let (h, m, c) = check_profile-eq-ok p u valid in
    record {
      name = refl;
      harness = (refl, h);
      model = (refl, m);
      provider = provider_lem p.provider;
      capacity = (refl, c);
    }

-- If a model profile is registered in a consistent registry, the record returned has the name and the
-- capacity given, which is at least 1, the harness and the model stripped and not empty, and the provider
-- stripped and in lower case, or none where none is given or nothing is left of it. The name of the
-- profile then gives this record, and every other name gives what it gave before.
pub get-register :
    (p : ModelProfileRecord) (file : Stored) (r : ModelProfileRecord) (name : String)
    → IsConsistent file
    → (register_model_profile p file).0 ≡ ok r
    → IsNormalized p r
      × ((get_model_profile name (register_model_profile p file).1).0
          ≡ (if name == p.name then ok r else (get_model_profile name file).0))
unfolding ensure_registry
get-register p file r name c h = elim (Result-cases (check_profile p)) [
  | inr (e, raised) ↦ absurd (let failed = register_invalid p file e raised in cc)
  | inl (u, valid) ↦
      let done : ok (add_profile p (ensure_registry file)).0 ≡ ok r =
        sym (ap (λ (f : Result ModelProfileRecord × Stored). f.0) (register_valid p file u valid))
        ∙ h in
      (
        subst (IsNormalized p) (ok-injective done)
            (add_profile-IsNormalized p (ensure_registry file) u valid),
        stored_profile p file name u c valid
            ∙ put-profile p name (ensure_registry file) r (ok-injective done)
            ∙ rw (get_model_profile_lem name file c) refl,
      )
]
