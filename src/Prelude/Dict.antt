-- ===== src/Prelude/Dict.antt =====
-- Dicts in insertion order, as association lists.
use agent_workflow_superviso.Prelude.Equality.{Eq, ◌==◌, if◌then◌else◌}
use mathlib.Core.Path.{◌≡◌, refl}
use mathlib.Core.Logic.{◌≢◌}
use mathlib.Core.Option.{Option, none, some}
use mathlib.Core.List.{List, [], ◌∷◌}
use native.Mathlib.Omega.{arith}

abbrev pub Dict {ℓ κ} : Type ℓ → Type κ → Type (ℓ ⊔ κ)
Dict K V = List (K × V)

-- `list(d)`
unfoldable pub keys {ℓ κ} : {K : Type ℓ} {V : Type κ} → Dict K V → List K
keys [] = []
keys ((k, v) ∷ d) = k ∷ keys d

-- `list(d.values())`
unfoldable pub values {ℓ κ} : {K : Type ℓ} {V : Type κ} → Dict K V → List V
values [] = []
values ((k, v) ∷ d) = v ∷ values d

module _ {ℓ κ} {K : Type ℓ} {V : Type κ} ⦃e : Eq K⦄ where
  -- `d.get(k)`
  unfoldable pub get : K → Dict K V → Option V
  get k [] = none
  get k ((j, v) ∷ d) = let rest = get k d in if k == j then some v else rest

  -- `d[k] = v`
  unfoldable pub put : K → V → Dict K V → Dict K V
  put k v [] = (k, v) ∷ []
  put k v ((j, w) ∷ d) = let rest = put k v d in if k == j then (k, v) ∷ d else (j, w) ∷ rest

  -- `d.pop(k, None)`
  unfoldable pub erase : K → Dict K V → Dict K V
  erase k [] = []
  erase k ((j, w) ∷ d) = let rest = erase k d in if k == j then rest else (j, w) ∷ rest

  pub get-put :
      (j k : K) (v : V) (d : Dict K V) → get j (put k v d) ≡ (if j == k then some v else get j d)
  unfolding get put
  get-put j k v [] = refl
  get-put j k v (_ ∷ d) = ground (arith, get-put j k v d)

  pub get-erase : (j k : K) (d : Dict K V) → get j (erase k d) ≡ (if j == k then none else get j d)
  unfolding get erase
  get-erase j k [] = ground arith
  get-erase j k (_ ∷ d) = ground (arith, get-erase j k d)

  pub get-put_same : (k : K) (v : V) (d : Dict K V) → get k (put k v d) ≡ some v
  get-put_same k v d = ground (arith, get-put k k v d)

  pub get-put_other : (j k : K) (v : V) (d : Dict K V) → j ≢ k → get j (put k v d) ≡ get j d
  get-put_other j k v d differ = ground (arith, get-put j k v d)

  pub get-erase_same : (k : K) (d : Dict K V) → get k (erase k d) ≡ none
  get-erase_same k d = ground (arith, get-erase k k d)

  pub get-erase_other : (j k : K) (d : Dict K V) → j ≢ k → get j (erase k d) ≡ get j d
  get-erase_other j k d differ = ground (arith, get-erase j k d)
