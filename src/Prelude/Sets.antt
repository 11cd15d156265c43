-- ===== src/Prelude/Sets.antt =====
-- Lists without repeats as finite sets: how many elements two subsets of one list must share.
use Prim.Native.Nat.{suc, ◌+◌, ◌≤◌}
use mathlib.Core.Path.{◌≡◌, refl, sym, subst}
use mathlib.Core.Logic.{inl, inr}
use mathlib.Core.Bool.{true, false, not, ◌||◌}
use mathlib.Core.List.{List, [], ◌∷◌, ◌++◌}
use native.Mathlib.Omega.{arith}
use dude_fs.Prelude.Tests.{if◌then◌else◌, DecEq, ◌==◌, Bool-cases, eq_true, eq_self}
use dude_fs.Prelude.Lists.{length, contains, select, All, length-append}

module _ {ℓ} {A : Type ℓ} ⦃d : DecEq A⦄ where
  abbrev pub Distinct : List A → Type 0
  Distinct [] = Unit
  Distinct (x ∷ xs) = (contains x xs ≡ false) × Distinct xs

  abbrev pub Within : List A → List A → Type 0
  Within [] ys = Unit
  Within (x ∷ xs) ys = (contains x ys ≡ true) × Within xs ys

  -- drops the first occurrence
  drop_one : A → List A → List A
  drop_one a [] = []
  drop_one a (x ∷ xs) = if a == x then xs else x ∷ drop_one a xs

  length-drop_one :
      (a : A) (xs : List A) → contains a xs ≡ true → suc (length (drop_one a xs)) ≡ length xs
  unfolding contains drop_one
  length-drop_one a [] h = cc
  length-drop_one a (x ∷ xs) h = ground (arith, length-drop_one a xs)

  contains-drop_one :
      (a b : A) (xs : List A)
      → (b == a) ≡ false
      → contains b xs ≡ true
      → contains b (drop_one a xs) ≡ true
  unfolding contains drop_one
  contains-drop_one a b [] n h = h
  contains-drop_one a b (x ∷ xs) n h = ground (arith, contains-drop_one a b xs n)

  Within-drop_one :
      (a : A) (xs ys : List A) → contains a xs ≡ false → Within xs ys → Within xs (drop_one a ys)
  unfolding contains
  Within-drop_one a [] ys n h = tt
  Within-drop_one a (x ∷ xs) ys n h =
      (contains-drop_one a x ys (ground arith) h.0, Within-drop_one a xs ys (ground arith) h.1)

  -- A list without repeats is no longer than one that has all its elements.
  pub length-le_of_Within : (xs ys : List A) → Distinct xs → Within xs ys → length xs ≤ length ys
  length-le_of_Within [] ys h k = omega arith
  length-le_of_Within (x ∷ xs) ys h k = omega (
    arith,
    length-drop_one x ys k.0,
    length-le_of_Within xs (drop_one x ys) h.1 (Within-drop_one x xs ys h.0 k.1),
  )

  -- What two lists share, and what only the second has.
  abbrev pub common : List A → List A → List A
  common xs ys = select (λ y. contains y xs) ys

  abbrev fresh : List A → List A → List A
  fresh xs ys = select (λ y. not (contains y xs)) ys

  length-common : (xs ys : List A) → length (common xs ys) + length (fresh xs ys) ≡ length ys
  unfolding select
  length-common xs [] = omega arith
  length-common xs (y ∷ ys) = ground (arith, length-common xs ys)

  contains-append :
      (a : A) (xs ys : List A) → contains a (xs ++ ys) ≡ (contains a xs || contains a ys)
  unfolding contains
  contains-append a [] ys = refl
  contains-append a (x ∷ xs) ys = ground (arith, contains-append a xs ys)

  contains-fresh :
      (a : A) (xs ys : List A) → contains a xs ≡ true → contains a (fresh xs ys) ≡ false
  unfolding contains select
  contains-fresh a xs [] h = refl
  contains-fresh a xs (y ∷ ys) h = ground (arith, contains-fresh a xs ys h)

  contains-fresh_le :
      (a : A) (xs ys : List A) → contains a ys ≡ false → contains a (fresh xs ys) ≡ false
  unfolding contains select
  contains-fresh_le a xs [] h = refl
  contains-fresh_le a xs (y ∷ ys) h = ground (arith, contains-fresh_le a xs ys)

  Distinct-fresh : (xs ys : List A) → Distinct ys → Distinct (fresh xs ys)
  unfolding select
  Distinct-fresh xs [] h = tt
  Distinct-fresh xs (y ∷ ys) h = elim (Bool-cases (contains y xs)) [
    | inl e ↦ rw e (Distinct-fresh xs ys h.1)
    | inr e ↦ rw e (contains-fresh_le y xs ys h.0, Distinct-fresh xs ys h.1)
  ]

  Within-fresh : (xs ys zs : List A) → Within ys zs → Within (fresh xs ys) zs
  unfolding select
  Within-fresh xs [] zs h = tt
  Within-fresh xs (y ∷ ys) zs h = elim (Bool-cases (contains y xs)) [
    | inl e ↦ rw e (Within-fresh xs ys zs h.1)
    | inr e ↦ rw e (h.0, Within-fresh xs ys zs h.1)
  ]

  contains-common_le :
      (a : A) (xs ys : List A) → contains a ys ≡ false → contains a (common xs ys) ≡ false
  unfolding contains select
  contains-common_le a xs [] h = refl
  contains-common_le a xs (y ∷ ys) h = ground (arith, contains-common_le a xs ys)

  pub Distinct-common : (xs ys : List A) → Distinct ys → Distinct (common xs ys)
  unfolding select
  Distinct-common xs [] h = tt
  Distinct-common xs (y ∷ ys) h = elim (Bool-cases (contains y xs)) [
    | inl e ↦ rw e (contains-common_le y xs ys h.0, Distinct-common xs ys h.1)
    | inr e ↦ rw e (Distinct-common xs ys h.1)
  ]

  pub Within-common : (xs ys zs : List A) → Within ys zs → Within (common xs ys) zs
  unfolding select
  Within-common xs [] zs h = tt
  Within-common xs (y ∷ ys) zs h = elim (Bool-cases (contains y xs)) [
    | inl e ↦ rw e (h.0, Within-common xs ys zs h.1)
    | inr e ↦ rw e (Within-common xs ys zs h.1)
  ]

  Within-append : (xs ys zs : List A) → Within xs zs → Within ys zs → Within (xs ++ ys) zs
  Within-append [] ys zs h k = k
  Within-append (x ∷ xs) ys zs h k = (h.0, Within-append xs ys zs h.1 k)

  abbrev Apart : List A → List A → Type 0
  Apart [] ys = Unit
  Apart (x ∷ xs) ys = (contains x ys ≡ false) × Apart xs ys

  Distinct-append : (xs ys : List A) → Distinct xs → Distinct ys → Apart xs ys → Distinct (xs ++ ys)
  Distinct-append [] ys h k a = k
  Distinct-append (x ∷ xs) ys h k a =
      (ground (arith, contains-append x xs ys), Distinct-append xs ys h.1 k a.1)

  Apart-fresh : (xs us ys : List A) → Within us xs → Apart us (fresh xs ys)
  Apart-fresh xs [] ys w = tt
  Apart-fresh xs (u ∷ us) ys w = (contains-fresh u xs ys w.0, Apart-fresh xs us ys w.1)

  Within-cons : (us xs : List A) (x : A) → Within us xs → Within us (x ∷ xs)
  unfolding contains
  Within-cons [] xs x w = tt
  Within-cons (u ∷ us) xs x w = (ground arith, Within-cons us xs x w.1)

  pub Within-refl : (xs : List A) → Within xs xs
  unfolding contains
  Within-refl [] = tt
  Within-refl (x ∷ xs) = (ground (arith, eq_self x), Within-cons xs xs x (Within-refl xs))

  -- Two subsets of `zs` share at least what their sizes exceed it by.
  pub overlap :
      (xs ys zs : List A)
      → Distinct xs
      → Distinct ys
      → Within xs zs
      → Within ys zs
      → length xs + length ys ≤ length zs + length (common xs ys)
  overlap xs ys zs dx dy wx wy =
      let all_distinct : Distinct (xs ++ fresh xs ys) =
        Distinct-append xs (fresh xs ys) dx (Distinct-fresh xs ys dy)
          (Apart-fresh xs xs ys (Within-refl xs)) in
      let fits =
        length-le_of_Within (xs ++ fresh xs ys) zs all_distinct
          (Within-append xs (fresh xs ys) zs wx (Within-fresh xs ys zs wy)) in
      omega (arith, fits, length-append xs (fresh xs ys), length-common xs ys)

  pub All-contains {κ} :
      (P : A → Type κ) (xs : List A) (x : A) → All P xs → contains x xs ≡ true → P x
  unfolding contains
  All-contains P [] x h m = absurd (cc)
  All-contains P (y ∷ ys) x h m = elim (Bool-cases (x == y)) [
    | inl e ↦ subst P (sym (eq_true x y e)) h.0
    | inr e ↦ All-contains P ys x h.1 (ground arith)
  ]

  pub All-common {κ μ} :
      (P : A → Type κ) (Q : A → Type μ) (xs ys : List A)
      → All P xs
      → All Q ys
      → All (λ p. P p × Q p) (common xs ys)
  unfolding select
  All-common P Q xs [] h k = tt
  All-common P Q xs (y ∷ ys) h k = elim (Bool-cases (contains y xs)) [
    | inl e ↦ rw e ((All-contains P xs y h e, k.0), All-common P Q xs ys h k.1)
    | inr e ↦ rw e (All-common P Q xs ys h k.1)
  ]
