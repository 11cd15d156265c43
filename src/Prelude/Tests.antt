-- ===== src/Prelude/Tests.antt =====
-- Boolean tests, and equality as an instance.
use Prim.Native.Nat.{ℕ, ◌≤◌, ◌<◌, compare, Ordering}
use mathlib.Core.Path.{◌≡◌, refl, ap}
use mathlib.Core.Logic.{◌≢◌, ◌⊎◌, inl, inr}
use mathlib.Core.Bool.{Bool, true, false, ◌&&◌}
use mathlib.Core.Option.{Option, none, some}
use mathlib.Core.List.{List, [], ◌∷◌}
use native.Mathlib.Omega.{arith}
use native.Mathlib.Decide.{ℕ_discrete}

abbrev pub ltb : ℕ → ℕ → Bool
ltb a b = elim (compare a b) [ Ordering.lt ↦ true | _ ↦ false ]

abbrev pub leb : ℕ → ℕ → Bool
leb a b = elim (compare a b) [ Ordering.gt ↦ false | _ ↦ true ]

infix 1 if◌then◌else◌
abbrev pub if◌then◌else◌ {ℓ} : {A : Type ℓ} → Bool → A → A → A
if true then x else y = x
if false then x else y = y

pub ltb→lt : (a b : ℕ) → ltb a b ≡ true → a < b
ltb→lt a b h = ground arith

pub leb→le : (a b : ℕ) → leb a b ≡ true → a ≤ b
leb→le a b h = ground arith

-- To split on a computed value and keep the equation.
pub Bool-cases : (b : Bool) → (b ≡ true) ⊎ (b ≡ false)
Bool-cases true = inl refl
Bool-cases false = inr refl

pub Option-cases {ℓ} : {A : Type ℓ} (o : Option A) → (o ≡ none) ⊎ ((a : A) × (o ≡ some a))
Option-cases none = inl refl
Option-cases (some a) = inr (a, refl)

pub and-eq-true : (a b : Bool) → (a && b) ≡ true → (a ≡ true) × (b ≡ true)
and-eq-true a b h = ground arith

-- Types with a decidable equality.
pub record DecEq {ℓ} (A : Type ℓ) : Type ℓ where
  pub dec : Discrete A

infix 50 ◌==◌
abbrev pub ◌==◌ {ℓ} : {A : Type ℓ} ⦃d : DecEq A⦄ → A → A → Bool
◌==◌ ⦃d⦄ a b = elim (d.dec a b) [ yes _ ↦ true | no _ ↦ false ]

pub eq_true {ℓ} : {A : Type ℓ} ⦃d : DecEq A⦄ (a b : A) → (a == b) ≡ true → a ≡ b
eq_true ⦃d⦄ a b h = ground arith

pub eq_self {ℓ} : {A : Type ℓ} ⦃d : DecEq A⦄ (a : A) → (a == a) ≡ true
eq_self ⦃d⦄ a = ground arith

pub eq_false {ℓ} : {A : Type ℓ} ⦃d : DecEq A⦄ (a b : A) → a ≢ b → (a == b) ≡ false
eq_false ⦃d⦄ a b h = ground arith

cons_discrete {ℓ} :
    {A : Type ℓ} (x y : A) (xs ys : List A) → Dec (x ≡ y) → Dec (xs ≡ ys) → Dec (x ∷ xs ≡ y ∷ ys)
cons_discrete x y xs ys (yes p) (yes q) = yes (cc)
cons_discrete x y xs ys (yes p) (no q) = no (λ e. q (cc))
cons_discrete x y xs ys (no p) _ = no (λ e. p (cc))

-- Written out so that it runs.
unfoldable pub list_discrete {ℓ} : {A : Type ℓ} → Discrete A → Discrete (List A)
unfolding cons_discrete
list_discrete d [] [] = yes refl
list_discrete d [] (y ∷ ys) = no (λ e. cc)
list_discrete d (x ∷ xs) [] = no (λ e. cc)
list_discrete d (x ∷ xs) (y ∷ ys) = cons_discrete x y xs ys (d x y) (list_discrete d xs ys)

some_discrete {ℓ} : {A : Type ℓ} (x y : A) → Dec (x ≡ y) → Dec (some x ≡ some y)
some_discrete x y (yes p) = yes (ap some p)
some_discrete x y (no p) = no (λ e. p (cc))

pair_discrete {ℓ κ} :
    {A : Type ℓ} {B : Type κ} (x y : A) (z w : B)
    → Dec (x ≡ y)
    → Dec (z ≡ w)
    → Dec (◌≡◌ {A = A × B} (x, z) (y, w))
pair_discrete x y z w (yes p) (yes q) = yes (λ i. (p i, q i))
pair_discrete x y z w (yes p) (no q) = no (λ e. q (λ i. (e i).1))
pair_discrete x y z w (no p) _ = no (λ e. p (λ i. (e i).0))

unfoldable pub prod_discrete {ℓ κ} :
    {A : Type ℓ} {B : Type κ} → Discrete A → Discrete B → Discrete (A × B)
unfolding pair_discrete
prod_discrete d e p q = pair_discrete p.0 q.0 p.1 q.1 (d p.0 q.0) (e p.1 q.1)

instance abbrev pub nat_eq : DecEq ℕ
nat_eq = record { dec = ℕ_discrete }

instance abbrev pub list_eq {ℓ} : {A : Type ℓ} ⦃d : DecEq A⦄ → DecEq (List A)
list_eq ⦃d⦄ = record { dec = list_discrete d.dec }

instance abbrev pub prod_eq {ℓ κ} :
    {A : Type ℓ} {B : Type κ} ⦃d : DecEq A⦄ ⦃e : DecEq B⦄ → DecEq (A × B)
prod_eq ⦃d⦄ ⦃e⦄ = record { dec = prod_discrete d.dec e.dec }
