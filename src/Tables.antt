-- ===== src/Tables.antt =====
-- The SQL that the stores of service.py, ao_relay.py and adapters/process.py run on one table. Rows
-- stand in the order of their insertion; a column that may be NULL is an option.
pub mod Queries
use Prim.Native.Nat.{Ordering}
use Prim.Native.String
use agent_workflow_superviso.Prelude.{
  String, Bool, true, false, not, ◌&&◌, Option, none, some, List, [], ◌∷◌,
}
use agent_workflow_superviso.Prelude.{if◌then◌else◌, ◌==◌, ◌!=◌, select, option_eq, string_eq}

is_after : String → String → Bool
is_after s t = elim (String.compare s t) [ Ordering.gt ↦ true | _ ↦ false ]

module _ {A : Type 0} where
  -- `UPDATE … SET … WHERE …`
  unfoldable pub update : (A → Bool) → (A → A) → List A → List A
  update where_ set [] = []
  update where_ set (r ∷ rows) =
      let rest = update where_ set rows in if where_ r then set r ∷ rest else r ∷ rest

  -- `DELETE … WHERE …`
  unfoldable pub delete : (A → Bool) → List A → List A
  unfolding select
  delete where_ = select (λ r. not (where_ r))

  unfoldable pub insert_by : (A → String) → A → List A → List A
  unfolding is_after
  insert_by key a [] = a ∷ []
  insert_by key a (b ∷ rows) =
      let rest = insert_by key a rows in if is_after (key a) (key b) then b ∷ rest else a ∷ b ∷ rows

  -- `ORDER BY key`; rows that tie keep their order.
  unfoldable pub order_by : (A → String) → List A → List A
  unfolding insert_by
  order_by key [] = []
  order_by key (a ∷ rows) = insert_by key a (order_by key rows)

-- `COALESCE(a, b)`
unfoldable pub coalesce : Option String → Option String → Option String
coalesce none b = b
coalesce (some a) b = some a

abbrev pub is_null : Option String → Bool
is_null none = true
is_null (some _) = false

-- `key IS NOT NULL AND (done IS NULL OR done != key)`
unfoldable pub is_due : Option String → Option String → Bool
is_due key done = not (is_null key) && key != done
