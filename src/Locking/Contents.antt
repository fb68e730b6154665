-- ===== src/Locking/Contents.antt =====
-- locking.py: the files of the lock directory, and the JSON values that they hold.
-- A file holds a JSON document, or what makes reading it fail. Texts of JSON are not modelled: what
-- `json.dump` writes, `json.loads` reads back.
use agent_workflow_superviso.Prelude.{
  ℕ, String, ◌≡◌, ap, Bool, true, false, Option, none, some, arith,
}
use agent_workflow_superviso.Prelude.{
  if◌then◌else◌, Eq, ◌==◌, ◌!=◌, option_eq, string_eq, nat_eq, leb,
}
use agent_workflow_superviso.Prelude.Dict
use agent_workflow_superviso.Prelude.Dict.{Dict}

-- The contents of nested arrays and objects are never read; their texts stand for them.
pub data Json : Type 0 where
  null : Json
  bool : Bool → Json
  int : ℕ → Json
  negative_int : ℕ → Json
  real : String → Json
  text : String → Json
  array : String → Json
  object : String → Json

abbrev pub Fields : Type 0
Fields = Dict String Json

-- What `read_text` and `json.loads` meet: a file that cannot be opened, bytes that are no UTF-8, a
-- text that is no JSON, a JSON value that is no object, or an object.
pub data Content : Type 0 where
  unreadable undecodable not_json not_object : Content
  document : Fields → Content

-- `<key>.json`, `<key>.account-switch.pending` and `<key>.credential-binding`
pub data FileName : Type 0 where
  record_file marker_file binding_file : String → FileName

record_key : FileName → String
record_key (record_file k) = k
record_key (marker_file k) = k
record_key (binding_file k) = k

kind_of : FileName → ℕ
kind_of (record_file k) = 0
kind_of (marker_file k) = 1
kind_of (binding_file k) = 2

FileName-path : (a b : FileName) → kind_of a ≡ kind_of b → record_key a ≡ record_key b → a ≡ b
unfolding kind_of record_key
FileName-path (record_file j) (record_file k) p q = ap record_file q
FileName-path (marker_file j) (marker_file k) p q = ap marker_file q
FileName-path (binding_file j) (binding_file k) p q = ap binding_file q
FileName-path a b p q = absurd (omega arith)

FileName-discrete : Discrete FileName
unfolding record_key kind_of nat_eq
FileName-discrete a b = elim (nat_eq.dec (kind_of a) (kind_of b)) [
  | yes p ↦ elim (string_eq.dec (record_key a) (record_key b)) [
    | yes q ↦ yes (FileName-path a b p q)
    | no q ↦ no (λ r. q (ap record_key r))
  ]
  | no p ↦ no (λ r. p (ap kind_of r))
]

instance unfoldable pub file_name_eq : Eq FileName
unfolding FileName-discrete FileName-path
file_name_eq = record { dec = FileName-discrete }

abbrev pub Files : Type 0
Files = Dict FileName Content

-- `raw.get(k)`: a missing key and `null` read alike.
unfoldable pub field : String → Fields → Json
unfolding Dict.get
field k raw = elim (Dict.get k raw) [ none ↦ null | some j ↦ j ]

-- `isinstance(j, str) and j`
unfoldable pub nonempty_text : Json → Option String
nonempty_text (text s) = if s == "" then none else some s
nonempty_text _ = none

-- `isinstance(j, int)`, with the value where it is positive: a bool is an int.
unfoldable pub positive_int : Json → Option ℕ
positive_int (int n) = if leb 1 n then some n else none
positive_int (bool true) = some 1
positive_int _ = none

unfoldable pub is_null : Json → Bool
is_null null = true
is_null _ = false

-- The truth value of a parsed JSON value; `{}` and `[]` are false.
unfoldable pub truthy : Json → Bool
truthy null = false
truthy (bool b) = b
truthy (int n) = n != 0
truthy (negative_int n) = true
truthy (real s) = s != "0.0"
truthy (text s) = s != ""
truthy (array s) = s != "[]"
truthy (object s) = s != "{}"

-- A list or a dict cannot be looked up in a set.
unfoldable pub is_unhashable : Json → Bool
is_unhashable (array s) = true
is_unhashable (object s) = true
is_unhashable _ = false

unfoldable pub text_or_null : Option String → Json
text_or_null none = null
text_or_null (some s) = text s

unfoldable pub int_or_null : Option ℕ → Json
int_or_null none = null
int_or_null (some n) = int n
