-- ===== src/Exec/Costs.antt =====
-- What an action can return, and how much it adds to a measure of the state on the way.
use agent_workflow_superviso.Prelude.{
  ℕ, ◌+◌, suc, ◌≡◌, refl, subst, Bool, true, false, Option, none, some, if◌then◌else◌, arith,
}
use agent_workflow_superviso.Result.{Result, ok, err}
use agent_workflow_superviso.Exec.{Exec, pure, ◌>>=◌, continue, case_option}
use agent_workflow_superviso.Exec.Relates.{Relates}
use agent_workflow_superviso.Exec.Yields.{Yields}

module _ {S : Type 0} (measure : S → ℕ) where
  abbrev pub Spent : {A : Type 0} → (ℕ → A → Type 0) → S → A → S → Type 0
  Spent P w a w' = (n : ℕ) × (measure w' ≡ n + measure w) × P n a

  -- Whatever an action returns has the property together with what was added to the measure.
  pub record Costs {A : Type 0} (P : ℕ → A → Type 0) (m : Exec S A) : Type 0 where
    pub at : (w : S) (a : A) → (m w).0 ≡ ok a → Spent P w a (m w).1

  -- The measure stays as it is.
  abbrev pub Same : S → S → Type 0
  Same w w' = measure w' ≡ measure w

  -- The measure grows by one.
  abbrev pub Grows : S → S → Type 0
  Grows w w' = measure w' ≡ suc (measure w)

  module _ {A : Type 0} {P : ℕ → A → Type 0} where
    pub Costs-pure : (a : A) → P 0 a → Costs P (pure a)
    unfolding pure
    Costs-pure a p = record {
      at = λ w b e. let same : a ≡ b = cc in (0, omega arith, subst (P 0) same p);
    }

    pub Costs-if :
        (b : Bool) (m n : Exec S A)
        → (b ≡ true → Costs P m)
        → (b ≡ false → Costs P n)
        → Costs P (if b then m else n)
    Costs-if true m n km kn = km refl
    Costs-if false m n km kn = kn refl

    pub Costs-some :
        {B : Type 0} (o : Option B) (m : Exec S A) (f : B → Exec S A)
        → (o ≡ none → Costs P m)
        → ((b : B) → o ≡ some b → Costs P (f b))
        → Costs P (case_option o m f)
    unfolding case_option
    Costs-some none m f km kf = km refl
    Costs-some (some b) m f km kf = kf b refl

  pay :
      {A B : Type 0} (P : ℕ → B → Type 0) (r : Result A) (f : A → Exec S B) (w w' : S) (b : B)
      → measure w' ≡ suc (measure w)
      → ((a : A) → Costs (λ n c. P (suc n) c) (f a))
      → (continue r f w').0 ≡ ok b
      → Spent P w b (continue r f w').1
  unfolding continue
  pay P (err e) f w w' b grown kf h = absurd (cc)
  pay P (ok a) f w w' b grown kf h =
      let (n, spent, p) = (kf a).at w' b h in (suc n, omega (arith, spent, grown), p)

  module _ {A B : Type 0} {P : ℕ → B → Type 0} where
    go_on :
        (r : Result A) (f : A → Exec S B) (w w' : S) (b : B)
        → measure w' ≡ measure w
        → ((a : A) → r ≡ ok a → Costs P (f a))
        → (continue r f w').0 ≡ ok b
        → Spent P w b (continue r f w').1
    unfolding continue
    go_on (err e) f w w' b same kf h = absurd (cc)
    go_on (ok a) f w w' b same kf h =
        let (n, spent, p) = (kf a refl).at w' b h in (n, omega (arith, spent, same), p)

    -- What comes first adds nothing, and returns a value with the property.
    pub Costs-with :
        {Q : A → Type 0} (m : Exec S A) (f : A → Exec S B)
        → Relates Same m
        → Yields Q m
        → ((a : A) → Q a → Costs P (f a))
        → Costs P (m >>= f)
    unfolding ◌>>=◌
    Costs-with m f same ym kf = record {
      at = λ w b h. go_on (m w).0 f w (m w).1 b (same.at w) (λ a e. kf a (ym.at w a e)) h;
    }

    pub Costs-free :
        (m : Exec S A) (f : A → Exec S B)
        → Relates Same m
        → ((a : A) → Costs P (f a))
        → Costs P (m >>= f)
    unfolding ◌>>=◌
    Costs-free m f same kf = record {
      at = λ w b h. go_on (m w).0 f w (m w).1 b (same.at w) (λ a e. kf a) h;
    }

    -- What comes first adds one.
    pub Costs-one :
        (m : Exec S A) (f : A → Exec S B)
        → Relates Grows m
        → ((a : A) → Costs (λ n c. P (suc n) c) (f a))
        → Costs P (m >>= f)
    unfolding ◌>>=◌
    Costs-one m f grown kf = record { at = λ w b h. pay P (m w).0 f w (m w).1 b (grown.at w) kf h }
