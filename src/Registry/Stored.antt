-- ===== src/Registry/Stored.antt =====
-- registry.py: the registry's file, and its names.
-- The file is what its TOML text says: the three tables, each of which may be missing, with their
-- entries in order. The text itself, the lock and the replacement of the file are not modelled.
use Prim.Native.Char.{Char, code}
use Prim.Native.String.{String, [], ◌∷◌}
use agent_workflow_superviso.Prelude.{ℕ, Bool, false, not, ◌&&◌, ◌||◌, Option, none, some, List}
use agent_workflow_superviso.Prelude.{◌==◌, nat_eq, leb, option_eq, string_eq}
use agent_workflow_superviso.Prelude.Dict.{Dict, get, put}
use agent_workflow_superviso.Prelude.Text.{all_chars, is_digit}
use agent_workflow_superviso.Result.{value_error, Result, raise_if}
use agent_workflow_superviso.Exec.{Exec}

-- An entry of `accounts`
pub record AccountTable : Type 0 where
  pub provider : Option String
  pub config_dir : Option String

-- An entry of `models`
pub record ModelTable : Type 0 where
  pub harness : Option String
  pub model : Option String
  pub provider : Option String
  pub capacity : Option ℕ

-- An entry of `projects`
pub record ProjectTable : Type 0 where
  pub config_path : Option String
  pub accounts : Option (List String)
  pub models : Option (List String)
  pub default_model : Option String

pub record Stored : Type 0 where
  pub accounts : Option (Dict String AccountTable)
  pub models : Option (Dict String ModelTable)
  pub projects : Option (Dict String ProjectTable)

-- The three tables, where they are there.
pub record Registry : Type 0 where
  pub accounts : Dict String AccountTable
  pub models : Dict String ModelTable
  pub projects : Dict String ProjectTable

-- `table()` for a table that is missing
unfoldable pub or_table : {A : Type 0} → Option (Dict String A) → Dict String A
or_table none = List.[]
or_table (some d) = d

unfoldable pub with_default : Dict String AccountTable → Dict String AccountTable
unfolding get put
with_default accounts = elim (get "default" accounts) [
  | some _ ↦ accounts
  | none ↦ put "default" (record { provider = some "claude-code"; config_dir = none }) accounts
]

-- `_ensure_registry_unlocked`, as what `_load` gives then
unfoldable pub ensure_registry : Stored → Registry
unfolding or_table with_default
ensure_registry value = record {
  accounts = with_default (or_table value.accounts);
  models = or_table value.models;
  projects = or_table value.projects;
}

-- `_write`
unfoldable pub stored : Registry → Stored
stored value = record {
  accounts = some value.accounts;
  models = some value.models;
  projects = some value.projects;
}

module _ {A : Type 0} where
  -- `_ensure_registry_unlocked(path)` and `value = _load(path)`, then the rest, which may raise; a
  -- raise leaves what was ensured.
  unfoldable pub edit : (Registry → Result (A × Registry)) → Exec Stored A
  unfolding ensure_registry stored
  edit f file =
      let value = ensure_registry file in
      elim (f value) [
        | Result.err e ↦ (Result.err e, stored value)
        | Result.ok (a, value') ↦ (Result.ok a, stored value')
      ]

  -- `ensure_registry(path)` and `value = _load(path)`, then what is read of it
  unfoldable pub view : (Registry → Result A) → Exec Stored A
  unfolding ensure_registry stored
  view f file = let value = ensure_registry file in (f value, stored value)

is_alphanumeric : Char → Bool
is_alphanumeric c =
    is_digit c
    || (leb b'A' (code c) && leb (code c) b'Z')
    || (leb b'a' (code c) && leb (code c) b'z')

unfoldable pub is_name_char : Char → Bool
unfolding is_alphanumeric
is_name_char c = is_alphanumeric c || code c == b'.' || code c == b'_' || code c == b'-'

-- `_NAME_PATTERN.fullmatch(value)`
unfoldable pub is_name : String → Bool
unfolding all_chars is_alphanumeric is_name_char
is_name [] = false
is_name (c ∷ s) = is_alphanumeric c && all_chars is_name_char s

unfoldable pub validate_name : String → Result (Unit {0})
unfolding is_name
validate_name value = raise_if (not (is_name value)) value_error
