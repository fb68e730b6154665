-- ===== src/Exec/Relates.antt =====
-- What an action does to the state, whether it returns or raises: a relation between the state
-- before and the state after, with one rule for each way to build an action.
use mathlib.Core.Path.{◌≡◌, refl}
use mathlib.Core.Bool.{Bool, true, false}
use mathlib.Core.Option.{Option, none, some}
use mathlib.Core.List.{List, [], ◌∷◌}
use agent_workflow_superviso.Prelude.{if◌then◌else◌}
use agent_workflow_superviso.Prelude.Members.{Member, here, there}
use agent_workflow_superviso.Result.{Error, Result, ok, err}
use agent_workflow_superviso.Exec.{
  Exec, pure, lift, raise, gets, continue, ◌>>=◌, case_option, case_list, case_one, for_each,
  recover, except,
}

pub record IsPreorder {S : Type 0} (R : S → S → Type 0) : Type 0 where
  pub same : (s : S) → R s s
  pub trans : (s t u : S) → R s t → R t u → R s u

-- `m` moves the state along `R` only.
pub record Relates {S A : Type 0} (R : S → S → Type 0) (m : Exec S A) : Type 0 where
  pub at : (s : S) → R s (m s).1

module _ {S A : Type 0} {R : S → S → Type 0} (order : IsPreorder R) where
  pub Relates-pure : (a : A) → Relates R (pure a)
  unfolding pure
  Relates-pure a = record { at = order.same }

  pub Relates-lift : (r : Result A) → Relates R (lift r)
  unfolding lift
  Relates-lift r = record { at = order.same }

  pub Relates-raise : (e : Error) → Relates R (raise {A = A} e)
  unfolding raise
  Relates-raise e = record { at = order.same }

  pub Relates-gets : (f : S → A) → Relates R (gets f)
  unfolding gets
  Relates-gets f = record { at = order.same }

module _ {S A : Type 0} {R : S → S → Type 0} where
  pub Relates-if :
      (b : Bool) (m n : Exec S A)
      → (b ≡ true → Relates R m)
      → (b ≡ false → Relates R n)
      → Relates R (if b then m else n)
  Relates-if true m n km kn = km refl
  Relates-if false m n km kn = kn refl

module _ {S A B : Type 0} {R : S → S → Type 0} where
  pub Relates-case_option :
      (o : Option A) (m : Exec S B) (f : A → Exec S B)
      → Relates R m
      → ((a : A) → Relates R (f a))
      → Relates R (case_option o m f)
  unfolding case_option
  Relates-case_option none m f km kf = km
  Relates-case_option (some a) m f km kf = kf a

  -- As `Relates-case_option`, with the option's value.
  pub Relates-some :
      (o : Option A) (m : Exec S B) (f : A → Exec S B)
      → Relates R m
      → ((a : A) → o ≡ some a → Relates R (f a))
      → Relates R (case_option o m f)
  unfolding case_option
  Relates-some none m f km kf = km
  Relates-some (some a) m f km kf = kf a refl

  pub Relates-case_list :
      (xs : List A) (m : Exec S B) (f : A → Exec S B)
      → Relates R m
      → ((a : A) → Relates R (f a))
      → Relates R (case_list xs m f)
  unfolding case_list
  Relates-case_list [] m f km kf = km
  Relates-case_list (a ∷ _) m f km kf = kf a

  pub Relates-case_one :
      (xs : List A) (f : A → Exec S B) (m : Exec S B)
      → ((a : A) → Relates R (f a))
      → Relates R m
      → Relates R (case_one xs f m)
  unfolding case_one
  Relates-case_one [] f m kf km = km
  Relates-case_one (a ∷ []) f m kf km = kf a
  Relates-case_one (_ ∷ _ ∷ _) f m kf km = km

module _ {S A B : Type 0} {R : S → S → Type 0} (order : IsPreorder R) where
  Relates-continue :
      (r : Result A) (f : A → Exec S B) → ((a : A) → Relates R (f a)) → Relates R (continue r f)
  unfolding continue
  Relates-continue (ok a) f kf = kf a
  Relates-continue (err e) f kf = record { at = order.same }

  pub Relates-bind :
      (m : Exec S A) (f : A → Exec S B)
      → Relates R m
      → ((a : A) → Relates R (f a))
      → Relates R (m >>= f)
  unfolding ◌>>=◌
  Relates-bind m f km kf = record {
    at = λ s. let (r, t) = m s in order.trans s t _ (km.at s) ((Relates-continue r f kf).at t);
  }

module _ {S A B : Type 0} {R : S → S → Type 0} (order : IsPreorder R) where
  -- What follows an action moves the state on from where the action left it.
  pub Relates-after :
      (m : Exec S A) (f : A → Exec S B) (s : S)
      → ((a : A) → Relates R (f a))
      → R (m s).1 ((m >>= f) s).1
  unfolding ◌>>=◌
  Relates-after m f s kf = let (r, t) = m s in (Relates-continue order r f kf).at t

module _ {S A : Type 0} {R : S → S → Type 0} (order : IsPreorder R) where
  recovered :
      (r : Result A) (handler : Error → Exec S A) (s t : S)
      → R s t
      → ((e : Error) → Relates R (handler e))
      → R s (recover r handler t).1
  unfolding recover
  recovered (ok a) handler s t moved kh = moved
  recovered (err e) handler s t moved kh = order.trans s t _ moved ((kh e).at t)

  pub Relates-except :
      (m : Exec S A) (handler : Error → Exec S A)
      → Relates R m
      → ((e : Error) → Relates R (handler e))
      → Relates R (except m handler)
  unfolding except
  Relates-except m handler km kh = record {
    at = λ s. let (r, t) = m s in recovered r handler s t (km.at s) kh;
  }

module _ {S A B : Type 0} {R : S → S → Type 0} (order : IsPreorder R) where
  pub Relates-for_each :
      (f : A → Exec S B) (xs : List A) → ((a : A) → Relates R (f a)) → Relates R (for_each f xs)
  unfolding for_each
  Relates-for_each f [] kf = Relates-pure order []
  Relates-for_each f (x ∷ xs) kf = Relates-bind order (f x) _ (kf x) λ y.
      Relates-bind order (for_each f xs) _ (Relates-for_each f xs kf)
        λ ys. Relates-pure order (y ∷ ys)

  -- As `Relates-for_each`, for the elements of the list only.
  pub Relates-members :
      (f : A → Exec S B) (xs : List A)
      → ((a : A) → Member a xs → Relates R (f a))
      → Relates R (for_each f xs)
  unfolding for_each
  Relates-members f [] kf = Relates-pure order []
  Relates-members f (x ∷ xs) kf = Relates-bind order (f x) _ (kf x here) λ y.
      Relates-bind order (for_each f xs) _ (Relates-members f xs (λ a m. kf a (there m)))
        λ ys. Relates-pure order (y ∷ ys)

pub ruleset relates_rules = (
  Relates-pure, Relates-lift, Relates-raise, Relates-gets, Relates-if, Relates-case_option,
  Relates-case_list, Relates-case_one, Relates-bind, Relates-for_each, Relates-except,
)
