-- ===== src/Policy/Least.antt =====
-- `min` over the candidates of policy.py.
use agent_workflow_superviso.Prelude.{
  List, [], ◌∷◌, ◌≡◌, refl, ◌∙◌, arith, inl, inr, ◌⊎◌, Bool-cases, ◌≤◌, if◌then◌else◌, nat_eq,
}
use agent_workflow_superviso.Policy.{Candidate, precedes, least_from}

-- A member of a list.
unfoldable pub Among : {A : Type 0} → A → List A → Type 0
Among a [] = ⊥
Among a (x ∷ xs) = (a ≡ x) ⊎ Among a xs

pick-le :
    {A : Type 0} (c best : Candidate A)
    → ((if precedes c best then c else best).count ≤ best.count)
      × ((if precedes c best then c else best).count ≤ c.count)
unfolding precedes
pick-le c best = elim (Bool-cases (precedes c best)) [
  | inl before ↦ (ground arith, ground arith)
  | inr after ↦ (ground arith, ground arith)
]

pick-cases :
    {A : Type 0} (c best : Candidate A)
    → ((if precedes c best then c else best) ≡ c) ⊎ ((if precedes c best then c else best) ≡ best)
pick-cases c best = elim (Bool-cases (precedes c best)) [
  | inl before ↦ inl (rw before refl)
  | inr after ↦ inr (rw after refl)
]

-- The least of the candidates is one of them, and none has a smaller count.
pub least_from-le :
    {A : Type 0} (best : Candidate A) (cs : List (Candidate A))
    → (least_from best cs).count ≤ best.count
unfolding least_from
least_from-le best [] = omega arith
least_from-le best (c ∷ cs) =
    let next = if precedes c best then c else best in
    let below = least_from-le next cs in
    let picked = pick-le c best in omega (arith, below, picked.0)

pub least_from-least :
    {A : Type 0} (best : Candidate A) (cs : List (Candidate A)) (c : Candidate A)
    → Among c (best ∷ cs)
    → (least_from best cs).count ≤ c.count
unfolding least_from Among
least_from-least best [] c (inl same) = rw same (omega arith)
least_from-least best [] c (inr i) = elim i [ ]
least_from-least best (d ∷ cs) c (inl same) = rw same (least_from-le best (d ∷ cs))
least_from-least best (d ∷ cs) c (inr (inl same)) =
    let next = if precedes d best then d else best in
    let below = least_from-le next cs in
    let picked = pick-le d best in rw same (omega (arith, below, picked.1))
least_from-least best (d ∷ cs) c (inr (inr later)) =
    least_from-least (if precedes d best then d else best) cs c (inr later)

pub least_from-Among :
    {A : Type 0} (best : Candidate A) (cs : List (Candidate A))
    → Among (least_from best cs) (best ∷ cs)
unfolding least_from Among
least_from-Among best [] = inl refl
least_from-Among best (c ∷ cs) = elim (least_from-Among (if precedes c best then c else best) cs) [
  | inr later ↦ inr (inr later)
  | inl same ↦ elim (pick-cases c best) [
    | inl first ↦ inr (inl (same ∙ first))
    | inr kept ↦ inl (same ∙ kept)
  ]
]
