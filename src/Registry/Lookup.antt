-- ===== src/Registry/Lookup.antt =====
-- registry.py: what the lookups by name find, in terms of the tables of the file.
use agent_workflow_superviso.Prelude.{
  String, Bool, true, false, not, none, some, List, [], ◌∷◌, ◌≡◌, refl, inl, inr, arith,
  Option-cases,
}
use agent_workflow_superviso.Prelude.{◌==◌, contains, string_eq, first, all, any}
use agent_workflow_superviso.Prelude.Dict.{Dict, get, put, keys, values}
use agent_workflow_superviso.Result.{Result, ok, traverse}

module _ {T R : Type 0} (read : String × T → Result R) (make : String × T → R)
    (name_of : R → String) (complete : T → Bool)
    (reads : (n : String) (t : T) → complete t ≡ true → read (n, t) ≡ ok (make (n, t)))
    (named : (n : String) (t : T) → name_of (make (n, t)) ≡ n) where
  -- Reading a table whose entries are complete succeeds, and the first record of a name is made of the
  -- name's entry.
  pub first-read :
      (d : Dict String T) (name : String)
      → all complete (values d) ≡ true
      → (records : List R) × (traverse read d ≡ ok records)
        × (first (λ r. name_of r == name) records
            ≡ (elim (get name d) [ none ↦ none | some t ↦ some (make (name, t)) ]))
  unfolding traverse first all values get
  first-read [] name h = ([], refl, refl)
  first-read ((n, t) ∷ d) name h =
      let (records, done, found) = first-read d name (ground arith) in
      let head = reads n t (ground arith) in
      (make (n, t) ∷ records, rw (head, done) refl, rw (named n t, found) (ground arith))

module _ {T : Type 0} where
  pub all-put :
      (p : T → Bool) (k : String) (t : T) (d : Dict String T)
      → p t ≡ true
      → all p (values d) ≡ true
      → all p (values (put k t d)) ≡ true
  unfolding all values put
  all-put p k t [] h a = ground arith
  all-put p k t ((j, u) ∷ d) h a = ground (arith, all-put p k t d h)

  pub all-get :
      (p : T → Bool) (k : String) (t : T) (d : Dict String T)
      → all p (values d) ≡ true
      → get k d ≡ some t
      → p t ≡ true
  unfolding all values get
  all-get p k t [] a h = absurd (cc)
  all-get p k t ((j, u) ∷ d) a h = ground (arith, all-get p k t d)

  pub contains-put :
      (name k : String) (t : T) (d : Dict String T)
      → contains (keys d) name ≡ true
      → contains (keys (put k t d)) name ≡ true
  unfolding keys put
  contains-put name k t [] h = absurd (cc)
  contains-put name k t ((j, u) ∷ d) h = ground (arith, contains-put name k t d)

  pub contains-get :
      (name : String) (d : Dict String T)
      → contains (keys d) name ≡ true
      → (t : T) × (get name d ≡ some t)
  unfolding keys get
  contains-get name d h = elim (Option-cases (get name d)) [
    | inr found ↦ found
    | inl missing ↦ absurd (ground (arith, get_none name d missing))
  ]
    where
      get_none :
          (name : String) (d : Dict String T) → get name d ≡ none → contains (keys d) name ≡ false
      get_none name [] h = refl
      get_none name ((j, u) ∷ d) h = ground (arith, get_none name d)

pub all_mono {ℓ} :
    {A : Type ℓ} (p q : A → Bool) (xs : List A)
    → ((a : A) → p a ≡ true → q a ≡ true)
    → all p xs ≡ true
    → all q xs ≡ true
unfolding all
all_mono p q [] f h = refl
all_mono p q (x ∷ xs) f h = ground (arith, f x, all_mono p q xs f)

pub all-any-not {ℓ} :
    {A : Type ℓ} (p : A → Bool) (xs : List A) → any (λ a. not (p a)) xs ≡ false → all p xs ≡ true
unfolding all any
all-any-not p [] h = refl
all-any-not p (x ∷ xs) h = ground (arith, all-any-not p xs)
