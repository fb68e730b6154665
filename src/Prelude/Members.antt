-- ===== src/Prelude/Members.antt =====
-- Members of lists, and what the queries say of them.
use mathlib.Core.Logic.{inl, inr}
use mathlib.Core.Bool.{◌&&◌}
use agent_workflow_superviso.Prelude.Compare.{Bool-cases}
use mathlib.Core.Path.{◌≡◌, refl, sym, subst}
use mathlib.Core.Bool.{Bool, true, false}
use mathlib.Core.List.{List, [], ◌∷◌, map}
use native.Mathlib.Omega.{arith}
use agent_workflow_superviso.Prelude.Lists.{any, all, select}

pub data Member {A : Type 0} (a : A) : List A → Type 0 where
  here : {xs : List A} → Member a (a ∷ xs)
  there : {b : A} {xs : List A} → Member a xs → Member a (b ∷ xs)

module _ {A : Type 0} where
  pub any-Member : (p : A → Bool) (a : A) (xs : List A) → Member a xs → p a ≡ true → any p xs ≡ true
  unfolding any
  any-Member p a _ here h = ground arith
  any-Member p a (b ∷ xs) (there m) h = ground (arith, any-Member p a xs m h)

  pub any-none :
      (p : A → Bool) (xs : List A) → ((a : A) → Member a xs → p a ≡ false) → any p xs ≡ false
  unfolding any
  any-none p [] f = refl
  any-none p (x ∷ xs) f = ground (arith, f x here, any-none p xs (λ a m. f a (there m)))

  pub all-Member : (p : A → Bool) (a : A) (xs : List A) → Member a xs → all p xs ≡ true → p a ≡ true
  unfolding all
  all-Member p a _ here h = ground arith
  all-Member p a (b ∷ xs) (there m) h = all-Member p a xs m (ground arith)

  pub any-select :
      (p q : A → Bool) (a : A) (xs : List A)
      → Member a xs
      → q a ≡ true
      → p a ≡ true
      → any p (select q xs) ≡ true
  unfolding any select
  any-select p q a _ here h k = ground arith
  any-select p q a (b ∷ xs) (there m) h k = ground (arith, any-select p q a xs m h k)

  pub any-select_none :
      (p q : A → Bool) (xs : List A)
      → ((a : A) → Member a xs → q a ≡ true → p a ≡ false)
      → any p (select q xs) ≡ false
  unfolding any select
  any-select_none p q [] f = refl
  any-select_none p q (x ∷ xs) f =
      ground (arith, f x here, any-select_none p q xs (λ a m. f a (there m)))

module _ {A B : Type 0} where
  pub any-map : (p : B → Bool) (f : A → B) (xs : List A) → any p (map f xs) ≡ any (λ a. p (f a)) xs
  unfolding any
  any-map p f [] = refl
  any-map p f (x ∷ xs) = ground (arith, any-map p f xs)

module _ {A : Type 0} where
  pub any-eq-true :
      (p : A → Bool) (xs : List A) → any p xs ≡ true → (a : A) × Member a xs × (p a ≡ true)
  unfolding any
  any-eq-true p [] h = absurd (cc)
  any-eq-true p (x ∷ xs) h = elim (Bool-cases (p x)) [
    | inl found ↦ (x, here, found)
    | inr passed ↦ let (a, m, holds) = any-eq-true p xs (ground arith) in (a, there m, holds)
  ]

  pub any-select_both :
      (p q : A → Bool) (xs : List A) → any q (select p xs) ≡ true → any (λ a. p a && q a) xs ≡ true
  unfolding any select
  any-select_both p q [] h = absurd (cc)
  any-select_both p q (x ∷ xs) h = ground (arith, any-select_both p q xs)

  pub Member-select :
      (p : A → Bool) (xs : List A) (b : A) → Member b xs → p b ≡ true → Member b (select p xs)
  unfolding select
  Member-select p [] b m h = elim m [ ]
  Member-select p (b ∷ xs) _ here h = rw h here
  Member-select p (x ∷ xs) b (there m) h = elim (Bool-cases (p x)) [
    | inl holds ↦ rw holds (there (Member-select p xs b m h))
    | inr fails ↦ rw fails (Member-select p xs b m h)
  ]

  there_or_here :
      (p : A → Bool) (x a : A) (xs ys : List A)
      → p x ≡ true
      → (Member a ys → Member a xs × (p a ≡ true))
      → Member a (x ∷ ys)
      → Member a (x ∷ xs) × (p a ≡ true)
  there_or_here p x _ xs ys h f here = (here, h)
  there_or_here p x a xs ys h f (there m) = let (n, k) = f m in (there n, k)

  select-Member :
      (p : A → Bool) (xs : List A) (a : A) → Member a (select p xs) → Member a xs × (p a ≡ true)
  unfolding select
  select-Member p [] a m = elim m [ ]
  select-Member p (x ∷ xs) a m =
      let earlier = select-Member p xs a in
      elim (Bool-cases (p x)) [
        | inl holds ↦
            there_or_here p x a xs (select p xs) holds earlier (subst (Member a) (rw holds refl) m)
        | inr fails ↦ let (n, h) = earlier (subst (Member a) (rw fails refl) m) in (there n, h)
      ]

  alone : (a b : A) → Member b (a ∷ []) → b ≡ a
  alone a _ here = refl
  alone a b (there m) = elim m [ ]

  -- What is selected alone is the only one that the test holds for.
  pub select-one :
      (p : A → Bool) (xs : List A) (a : A)
      → select p xs ≡ a ∷ []
      → Member a xs × (p a ≡ true) × ((b : A) → Member b xs → p b ≡ true → b ≡ a)
  select-one p xs a h =
      let (m, holds) = select-Member p xs a (subst (Member a) (sym h) here) in
      (m, holds, λ b n k. alone a b (subst (Member b) h (Member-select p xs b n k)))
