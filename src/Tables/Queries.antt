-- ===== src/Tables/Queries.antt =====
-- What a query finds in a table after an update or an insertion.
use agent_workflow_superviso.Prelude.{
  Bool, true, false, ◌||◌, some, List, [], ◌∷◌, ◌++◌, ◌≡◌, sym, refl, inl, inr, arith, Bool-cases,
}
use agent_workflow_superviso.Prelude.{any, first}
use agent_workflow_superviso.Prelude.{String}
use agent_workflow_superviso.Tables.{update, insert_by, order_by}

module _ {A : Type 0} where
  pub any-update :
      (p where_ : A → Bool) (set : A → A) (rows : List A)
      → ((r : A) → where_ r ≡ true → p (set r) ≡ true → p r ≡ true)
      → any p (update where_ set rows) ≡ true
      → any p rows ≡ true
  unfolding any update
  any-update p where_ set [] f h = h
  any-update p where_ set (r ∷ rows) f h = ground (arith, f r, any-update p where_ set rows f)

  pub any-update_none :
      (p where_ : A → Bool) (set : A → A) (rows : List A)
      → ((r : A) → where_ r ≡ true → p (set r) ≡ false)
      → ((r : A) → where_ r ≡ false → p r ≡ false)
      → any p (update where_ set rows) ≡ false
  unfolding any update
  any-update_none p where_ set [] f g = refl
  any-update_none p where_ set (r ∷ rows) f g =
      ground (arith, f r, g r, any-update_none p where_ set rows f g)

  pub any_append :
      (p : A → Bool) (rows : List A) (a : A) → any p (rows ++ a ∷ []) ≡ (any p rows || p a)
  unfolding any
  any_append p [] a = ground arith
  any_append p (r ∷ rows) a = ground (arith, any_append p rows a)

  pub first-any :
      (p q : A → Bool) (rows : List A) {a : A}
      → first p rows ≡ some a
      → q a ≡ true
      → (p a ≡ true) × (any q rows ≡ true)
  unfolding any first
  first-any p q [] h k = cc
  first-any p q (r ∷ rows) {a} h k = elim (Bool-cases (p r)) [
    | inl found ↦ let e : r ≡ a = ground arith in (rw (sym e) found, rw (e, k) refl)
    | inr passed ↦
        let (held, some_row) = first-any p q rows (ground arith) k in
        (held, ground (arith, some_row))
  ]

  any-insert_by :
      (p : A → Bool) (key : A → String) (a : A) (rows : List A)
      → any p (insert_by key a rows) ≡ (p a || any p rows)
  unfolding any insert_by
  any-insert_by p key a [] = refl
  any-insert_by p key a (b ∷ rows) = ground (arith, any-insert_by p key a rows)

  pub any-order_by :
      (p : A → Bool) (key : A → String) (rows : List A) → any p (order_by key rows) ≡ any p rows
  unfolding any order_by
  any-order_by p key [] = refl
  any-order_by p key (a ∷ rows) =
      ground (arith, any-insert_by p key a (order_by key rows), any-order_by p key rows)

  -- An update that changes the rows that it finds to rows without `q`, and `p` holds where `q` does.
  pub any-update_moved :
      (p q where_ : A → Bool) (set : A → A) (rows : List A)
      → ((r : A) → where_ r ≡ true → q (set r) ≡ false)
      → ((r : A) → where_ r ≡ false → q r ≡ true → p r ≡ true)
      → any p rows ≡ false
      → any q (update where_ set rows) ≡ false
  unfolding any update
  any-update_moved p q where_ set [] f g h = refl
  any-update_moved p q where_ set (r ∷ rows) f g h =
      ground (arith, f r, g r, any-update_moved p q where_ set rows f g (ground arith))
