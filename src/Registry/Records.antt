-- ===== src/Registry/Records.antt =====
-- registry.py: accounts and model profiles. `resolve` is `expanduser().resolve()` of a path, and
-- `expanduser` the method of that name.
use agent_workflow_superviso.Prelude.{ℕ, String, Option, none, some, List, map}
use agent_workflow_superviso.Prelude.{if◌then◌else◌, ◌==◌, first, ltb, option_eq, string_eq}
use agent_workflow_superviso.Prelude.Dict.{put}
use agent_workflow_superviso.Prelude.Text.{strip, casefold}
use agent_workflow_superviso.Result.{
  value_error, key_error, Result, ok, or_raise, raise_if, traverse,
}
use agent_workflow_superviso.Result.{◌>>=◌ as ◌>>=◌, ◌>>◌ as ◌>>◌}
use agent_workflow_superviso.Exec.{Exec}
use agent_workflow_superviso.Graph.State.{or_none, or_default, truthy_or}
use agent_workflow_superviso.Registry.Stored.{
  AccountTable, ModelTable, Stored, Registry, edit, view, validate_name,
}

pub record AccountRecord : Type 0 where
  pub name : String
  pub provider : String
  pub config_dir : Option String

pub record ModelProfileRecord : Type 0 where
  pub name : String
  pub harness : String
  pub model : String
  pub provider : Option String
  pub capacity : ℕ

module _ (resolve : String → String) where
  -- What `register_account` changes in the tables.
  unfoldable pub add_account : String → Option String → String → Registry → AccountRecord × Registry
  unfolding put
  add_account name config_dir provider value =
      let account : AccountTable = record {
        provider = some provider;
        config_dir = elim config_dir [ none ↦ none | some dir ↦ some (resolve dir) ];
      } in
      (
        record { name = name; provider = provider; config_dir = config_dir },
        record value { accounts = put name account value.accounts },
      )

  unfoldable pub register_account : String → Option String → String → Exec Stored AccountRecord
  unfolding validate_name edit add_account
  register_account name config_dir provider file = elim (validate_name name) [
    | Result.err e ↦ (Result.err e, file)
    | ok _ ↦ edit (λ value. ok (add_account name config_dir provider value)) file
  ]

-- `provider.strip().lower() if provider and provider.strip() else None`
unfoldable pub normalized_provider : Option String → Option String
unfolding strip casefold
normalized_provider none = none
normalized_provider (some p) = if strip p == "" then none else some (casefold (strip p))

-- The guards of `register_model_profile`. A capacity below 0 is a capacity of 0 here.
unfoldable pub check_profile : ModelProfileRecord → Result (Unit {0})
unfolding validate_name strip
check_profile p = do
  validate_name p.name
  raise_if (strip p.harness == "") value_error
  raise_if (strip p.model == "") value_error
  raise_if (ltb p.capacity 1) value_error

unfoldable pub profile_table : ModelProfileRecord → ModelTable
unfolding strip normalized_provider
profile_table p = record {
  harness = some (strip p.harness);
  model = some (strip p.model);
  provider = normalized_provider p.provider;
  capacity = some p.capacity;
}

-- What `register_model_profile` changes in the tables.
unfoldable pub add_profile : ModelProfileRecord → Registry → ModelProfileRecord × Registry
unfolding put profile_table normalized_provider strip
add_profile p value = (
  record p {
    harness = strip p.harness;
    model = strip p.model;
    provider = normalized_provider p.provider;
  },
  record value { models = put p.name (profile_table p) value.models },
)

-- `register_model_profile`, which takes the fields of `p` one by one
unfoldable pub register_model_profile : ModelProfileRecord → Exec Stored ModelProfileRecord
unfolding check_profile edit add_profile
register_model_profile p file = elim (check_profile p) [
  | Result.err e ↦ (Result.err e, file)
  | ok _ ↦ edit (λ value. ok (add_profile p value)) file
]

-- The body of the loop of `list_model_profiles`
unfoldable pub read_profile : String × ModelTable → Result ModelProfileRecord
unfolding or_none
read_profile (name, raw) = do
  harness ← or_raise raw.harness key_error
  model ← or_raise raw.model key_error
  ok (record {
    name = name;
    harness = harness;
    model = model;
    provider = or_none raw.provider;
    capacity = or_default raw.capacity 1;
  })

unfoldable pub list_model_profiles : Exec Stored (List ModelProfileRecord)
unfolding view traverse read_profile
list_model_profiles = view (λ value. traverse read_profile value.models)

unfoldable pub get_model_profile : String → Exec Stored ModelProfileRecord
unfolding view traverse read_profile first
get_model_profile name = view λ value. do
  profiles ← traverse read_profile value.models
  or_raise (first (λ p. p.name == name) profiles) key_error

module _ (expanduser : String → String) where
  -- The body of the loop of `list_accounts`
  unfoldable pub read_account : String × AccountTable → AccountRecord
  unfolding truthy_or or_none
  read_account (name, raw) = record {
    name = name;
    provider = truthy_or raw.provider "claude-code";
    config_dir = elim (or_none raw.config_dir) [ none ↦ none | some dir ↦ some (expanduser dir) ];
  }

  unfoldable pub list_accounts : Exec Stored (List AccountRecord)
  unfolding view read_account
  list_accounts = view (λ value. ok (map read_account value.accounts))

  unfoldable pub get_account : String → Exec Stored AccountRecord
  unfolding view first read_account
  get_account name =
      view
        λ value. or_raise (first (λ a. a.name == name) (map read_account value.accounts)) key_error
