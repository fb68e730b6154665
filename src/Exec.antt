-- ===== src/Exec.antt =====
-- Python code that changes the world and may raise: what was done before a raise stays done.
pub mod Relates
pub mod Yields
pub mod Costs
use mathlib.Core.Option.{Option, none, some}
use mathlib.Core.List.{List, [], ◌∷◌}
use agent_workflow_superviso.Result.{Error, Result, ok, err}

abbrev pub Exec : Type 0 → Type 0 → Type 0
Exec S A = S → Result A × S

module _ {S A : Type 0} where
  unfoldable pub gets : (S → A) → Exec S A
  gets read world = (ok (read world), world)

  unfoldable pub lift : Result A → Exec S A
  lift given world = (given, world)

  unfoldable pub pure : A → Exec S A
  pure value world = (ok value, world)

  unfoldable pub raise : Error → Exec S A
  raise error world = (err error, world)

module _ {S A B : Type 0} where
  unfoldable pub continue : Result A → (A → Exec S B) → Exec S B
  continue (err error) next world = (err error, world)
  continue (ok value) next world = next value world

  infixl 5 ◌>>=◌ ◌>>◌
  -- Opening this opens the four above and `continue` too.
  unfoldable pub ◌>>=◌ : Exec S A → (A → Exec S B) → Exec S B
  unfolding continue gets lift pure raise
  ◌>>=◌ call next world = let (outcome, after) = call world in continue outcome next after

  abbrev pub ◌>>◌ : Exec S A → Exec S B → Exec S B
  call >> next = call >>= λ _. next

module _ {S A : Type 0} where
  unfoldable pub recover : Result A → (Error → Exec S A) → Exec S A
  recover (err error) handler world = handler error world
  recover (ok value) handler world = (ok value, world)

  -- `try: … except Exception`
  unfoldable pub except : Exec S A → (Error → Exec S A) → Exec S A
  unfolding recover
  except body handler world = let (outcome, after) = body world in recover outcome handler after

module _ {S A B : Type 0} where
  -- `if o is None` and `else`
  unfoldable pub case_option : Option A → Exec S B → (A → Exec S B) → Exec S B
  case_option none m f = m
  case_option (some a) m f = f a

  -- `if xs`, with the first of the list
  unfoldable pub case_list : List A → Exec S B → (A → Exec S B) → Exec S B
  case_list [] m f = m
  case_list (a ∷ _) m f = f a

  -- `if len(xs) == 1`, with the one
  unfoldable pub case_one : List A → (A → Exec S B) → Exec S B → Exec S B
  case_one [] f m = m
  case_one (a ∷ []) f m = f a
  case_one (_ ∷ _ ∷ _) f m = m

  -- `[f(x) for x in xs]`
  unfoldable pub for_each : (A → Exec S B) → List A → Exec S (List B)
  for_each f [] = pure []
  for_each f (x ∷ xs) = do y ← f x; ys ← for_each f xs; pure (y ∷ ys)
