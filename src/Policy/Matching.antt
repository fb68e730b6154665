-- ===== src/Policy/Matching.antt =====
-- The tests of policy.py on labels and rules, and what they decide.
use agent_workflow_superviso.Prelude.{
  String, Bool, true, false, not, ◌||◌, none, some, List, [], ◌∷◌, ◌≡◌, refl, sym, arith, inl, inr,
  ◌⊎◌, Bool-cases,
}
use agent_workflow_superviso.Prelude.{
  contains, option_eq, string_eq, nat_eq, any, all, first, nonempty,
}
use agent_workflow_superviso.Models.{WorkItem}
use agent_workflow_superviso.Config.{RouteRule}
use agent_workflow_superviso.Policy.{intersects, is_subset, rule_matches}

-- Two lists of labels have one in common.
pub Shares : List String → List String → Type 0
Shares a b = (label : String) × (contains a label ≡ true) × (contains b label ≡ true)

-- A rule asks for one of `labels_any`, when it names any, and for each of `labels_all`.
pub record Matches (item : WorkItem) (rule : RouteRule) : Type 0 where
  pub some_label : (nonempty rule.labels_any ≡ false) ⊎ Shares item.labels rule.labels_any
  pub every_label :
      (label : String) → contains rule.labels_all label ≡ true → contains item.labels label ≡ true

-- The first element of a list with a property.
pub data FirstOf {ℓ} {A : Type ℓ} (P : A → Type 0) : List A → A → Type ℓ where
  here : {x : A} {xs : List A} → P x → FirstOf P (x ∷ xs) x
  later : {x y : A} {xs : List A} → ¬ P x → FirstOf P xs y → FirstOf P (x ∷ xs) y

pub data NoneOf {ℓ} {A : Type ℓ} (P : A → Type 0) : List A → Type ℓ where
  done : NoneOf P []
  skip : {x : A} {xs : List A} → ¬ P x → NoneOf P xs → NoneOf P (x ∷ xs)

-- `test` decides `P`.
abbrev pub Decides {ℓ} : {A : Type ℓ} → (A → Bool) → (A → Type 0) → Type ℓ
Decides {A = A} test P = (a : A) → (test a ≡ true → P a) × (test a ≡ false → ¬ P a)

at_head {ℓ} :
    {A : Type ℓ} {P : A → Type 0} {x y : A} {xs : List A} → P x → x ≡ y → FirstOf P (x ∷ xs) y
at_head holds same = rw (sym same) (here holds)

module _ {ℓ} {A : Type ℓ} (test : A → Bool) (P : A → Type 0) (decides : Decides test P) where
  pub first-FirstOf : (xs : List A) {x : A} → first test xs ≡ some x → FirstOf P xs x
  unfolding first
  first-FirstOf [] h = cc
  first-FirstOf (y ∷ ys) {x} h = elim (Bool-cases (test y)) [
    | inl holds ↦ at_head ((decides y).0 holds) (cc)
    | inr fails ↦ later ((decides y).1 fails) (first-FirstOf ys (ground arith))
  ]

  pub first-NoneOf : (xs : List A) → first test xs ≡ none → NoneOf P xs
  unfolding first
  first-NoneOf [] h = done
  first-NoneOf (y ∷ ys) h = elim (Bool-cases (test y)) [
    | inl holds ↦ absurd (ground arith)
    | inr fails ↦ skip ((decides y).1 fails) (first-NoneOf ys (ground arith))
  ]

pub contains-head : (x : String) (a : List String) → contains (x ∷ a) x ≡ true
contains-head x a = ground arith

pub contains-tail :
    (x l : String) (a : List String) → contains a l ≡ true → contains (x ∷ a) l ≡ true
contains-tail x l a h = ground arith

pub contains-cases :
    (x l : String) (a : List String) → contains (x ∷ a) l ≡ true → (l ≡ x) ⊎ (contains a l ≡ true)
contains-cases x l a h = ground arith

pub any-Shares : (a b : List String) → any (contains b) a ≡ true → Shares a b
unfolding any Shares
any-Shares [] b h = cc
any-Shares (x ∷ a) b h = elim (Bool-cases (contains b x)) [
  | inl found ↦ (x, contains-head x a, found)
  | inr missing ↦ let (l, p, q) = any-Shares a b (ground arith) in (l, contains-tail x l a p, q)
]

pub Shares-any : (a b : List String) → Shares a b → any (contains b) a ≡ true
unfolding any Shares
Shares-any [] b (l, p, q) = cc
Shares-any (x ∷ a) b (l, p, q) = elim (contains-cases x l a p) [
  | inl same ↦ rw (sym same, q)
  | inr found ↦ ground (arith, Shares-any a b (l, found, q))
]

pub all-contains :
    (a b : List String)
    → all (contains b) a ≡ true
    → (l : String) → contains a l ≡ true
    → contains b l ≡ true
unfolding all
all-contains [] b h l p = cc
all-contains (x ∷ a) b h l p = elim (contains-cases x l a p) [
  | inl same ↦ rw same (ground arith)
  | inr found ↦ all-contains a b (ground arith) l found
]

pub contains-all :
    (a b : List String)
    → ((l : String) → contains a l ≡ true → contains b l ≡ true)
    → all (contains b) a ≡ true
unfolding all
contains-all [] b f = refl
contains-all (x ∷ a) b f =
    rw (f x (contains-head x a)) (contains-all a b (λ l p. f l (contains-tail x l a p)))

all_or_empty : (a : List String) (p : String → Bool) → (not (nonempty a) || all p a) ≡ all p a
unfolding all
all_or_empty [] p = refl
all_or_empty (x ∷ a) p = refl

pub intersects-decides :
    (a b : List String)
    → (intersects a b ≡ true → Shares a b) × (intersects a b ≡ false → ¬ Shares a b)
unfolding intersects
intersects-decides a b = (any-Shares a b, λ h shared. cc (Shares-any a b shared))

rule_matches-Matches :
    (item : WorkItem) (rule : RouteRule) → rule_matches item rule ≡ true → Matches item rule
unfolding rule_matches intersects is_subset
rule_matches-Matches item rule h = record {
  some_label = elim (Bool-cases (nonempty rule.labels_any)) [
    | inl some_any ↦ inr (any-Shares item.labels rule.labels_any (ground arith))
    | inr no_any ↦ inl no_any
  ];
  every_label =
      all-contains rule.labels_all item.labels
        (ground (arith, all_or_empty rule.labels_all (contains item.labels)));
}

Matches-rule_matches :
    (item : WorkItem) (rule : RouteRule) → Matches item rule → rule_matches item rule ≡ true
unfolding rule_matches intersects is_subset
Matches-rule_matches item rule m =
    let every = contains-all rule.labels_all item.labels m.every_label in
    elim m.some_label [
      | inl no_any ↦ ground (arith, every, no_any)
      | inr shared ↦ ground (arith, every, Shares-any item.labels rule.labels_any shared)
    ]

pub rule_matches-decides : (item : WorkItem) → Decides (rule_matches item) (Matches item)
rule_matches-decides item rule =
    (rule_matches-Matches item rule, λ h m. cc (Matches-rule_matches item rule m))
