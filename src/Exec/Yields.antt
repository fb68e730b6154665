-- ===== src/Exec/Yields.antt =====
-- What an action can return: a property of its value, with one rule for each way to build an action.
use agent_workflow_superviso.Prelude.{
  ◌≡◌, refl, subst, Bool, true, false, Option, none, some, if◌then◌else◌,
}
use mathlib.Core.Logic.{inl, inr}
use mathlib.Core.List.{List, [], ◌∷◌}
use agent_workflow_superviso.Result.{Error, Result, ok, err, Result-cases}
use agent_workflow_superviso.Exec.Relates.{IsPreorder, Relates}
use agent_workflow_superviso.Exec.{
  Exec, pure, ◌>>=◌, continue, raise, case_option, case_one, case_list,
}

-- Whatever an action returns has the property.
pub record Yields {S A : Type 0} (P : A → Type 0) (m : Exec S A) : Type 0 where
  pub at : (w : S) (a : A) → (m w).0 ≡ ok a → P a

module _ {S A : Type 0} {P : A → Type 0} where
  pub Yields-pure : (a : A) → P a → Yields {S = S} P (pure a)
  unfolding pure
  Yields-pure a p = record { at = λ w b e. let same : a ≡ b = cc in subst P same p }

  pub Yields-raise : (e : Error) → Yields {S = S} P (raise e)
  unfolding raise
  Yields-raise e = record { at = λ w b h. absurd (cc) }

  pub Yields-if :
      (b : Bool) (m n : Exec S A)
      → (b ≡ true → Yields P m)
      → (b ≡ false → Yields P n)
      → Yields P (if b then m else n)
  Yields-if true m n km kn = km refl
  Yields-if false m n km kn = kn refl

module _ {S A B : Type 0} {P : B → Type 0} where
  pub Yields-case_list :
      (xs : List A) (m : Exec S B) (f : A → Exec S B)
      → Yields P m
      → ((a : A) → Yields P (f a))
      → Yields P (case_list xs m f)
  unfolding case_list
  Yields-case_list [] m f km kf = km
  Yields-case_list (a ∷ _) m f km kf = kf a

  pub Yields-case_one :
      (xs : List A) (f : A → Exec S B) (m : Exec S B)
      → ((a : A) → xs ≡ a ∷ [] → Yields P (f a))
      → Yields P m
      → Yields P (case_one xs f m)
  unfolding case_one
  Yields-case_one [] f m kf km = km
  Yields-case_one (a ∷ []) f m kf km = kf a refl
  Yields-case_one (_ ∷ _ ∷ _) f m kf km = km

  -- As `Yields-case_option`, with the option's value.
  pub Yields-some :
      (o : Option A) (m : Exec S B) (f : A → Exec S B)
      → (o ≡ none → Yields P m)
      → ((a : A) → o ≡ some a → Yields P (f a))
      → Yields P (case_option o m f)
  unfolding case_option
  Yields-some none m f km kf = km refl
  Yields-some (some a) m f km kf = kf a refl

  pub Yields-case_option :
      (o : Option A) (m : Exec S B) (f : A → Exec S B)
      → Yields P m
      → ((a : A) → Yields P (f a))
      → Yields P (case_option o m f)
  unfolding case_option
  Yields-case_option none m f km kf = km
  Yields-case_option (some a) m f km kf = kf a

  continue-yields :
      {Q : A → Type 0} (r : Result A) (f : A → Exec S B) (w : S) (b : B)
      → ((a : A) → r ≡ ok a → Q a)
      → ((a : A) → Q a → Yields P (f a))
      → (continue r f w).0 ≡ ok b
      → P b
  unfolding continue
  continue-yields (err e) f w b kq kf h = cc
  continue-yields (ok a) f w b kq kf h = (kf a (kq a refl)).at w b h

  pub Yields-with :
      {Q : A → Type 0} (m : Exec S A) (f : A → Exec S B)
      → Yields Q m
      → ((a : A) → Q a → Yields P (f a))
      → Yields P (m >>= f)
  unfolding ◌>>=◌
  Yields-with {Q = Q} m f km kf = record {
    at = λ w b h. continue-yields {Q = Q} (m w).0 f (m w).1 b (λ a e. km.at w a e) kf h;
  }

  pub Yields-bind :
      (m : Exec S A) (f : A → Exec S B) → ((a : A) → Yields P (f a)) → Yields P (m >>= f)
  Yields-bind m f kf = Yields-with {Q = λ _. Unit} m f (record { at = λ w a e. tt }) (λ a _. kf a)

module _ {S A B : Type 0} {R : S → S → Type 0} (order : IsPreorder R) where
  -- What follows an action may rely on what the action returns.
  pub Relates-with :
      {Q : A → Type 0} (m : Exec S A) (f : A → Exec S B)
      → Relates R m
      → Yields Q m
      → ((a : A) → Q a → Relates R (f a))
      → Relates R (m >>= f)
  unfolding ◌>>=◌ continue
  Relates-with m f km ym kf = record {
    at = λ s. elim (Result-cases (m s).0) [
      | inr (e, raised) ↦ rw raised (km.at s)
      | inl (a, returned) ↦
          rw returned (order.trans s (m s).1 _ (km.at s) ((kf a (ym.at s a returned)).at (m s).1))
    ];
  }
