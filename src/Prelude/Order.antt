-- ===== src/Prelude/Order.antt =====
-- The order of byte strings, as Python compares them, and `sorted`.
use mathlib.Core.Path.{◌≡◌, refl}
use mathlib.Core.Logic.{inl, inr}
use mathlib.Core.Bool.{Bool, true, false, ◌&&◌, ◌||◌}
use mathlib.Core.List.{List, [], ◌∷◌, Perm}
use mathlib.Core.List.Perm
use native.Mathlib.Omega.{arith}
use dude_fs.Prelude.Tests.{if◌then◌else◌, ◌==◌, ltb, nat_eq, Bool-cases}
use dude_fs.Prelude.Lists.{Bytes, All}

-- a < b
unfoldable pub bytes_lt : Bytes → Bytes → Bool
bytes_lt [] [] = false
bytes_lt [] (y ∷ ys) = true
bytes_lt (x ∷ xs) [] = false
bytes_lt (x ∷ xs) (y ∷ ys) = ltb x y || (x == y && bytes_lt xs ys)

pub bytes_lt_irrefl : (a : Bytes) → bytes_lt a a ≡ false
unfolding bytes_lt
bytes_lt_irrefl [] = refl
bytes_lt_irrefl (x ∷ xs) = ground (arith, bytes_lt_irrefl xs)

pub bytes_lt_trans :
    (a b c : Bytes) → bytes_lt a b ≡ true → bytes_lt b c ≡ true → bytes_lt a c ≡ true
unfolding bytes_lt
bytes_lt_trans [] [] c h k = cc
bytes_lt_trans [] (y ∷ ys) [] h k = cc
bytes_lt_trans [] (y ∷ ys) (z ∷ zs) h k = refl
bytes_lt_trans (x ∷ xs) [] c h k = cc
bytes_lt_trans (x ∷ xs) (y ∷ ys) [] h k = cc
bytes_lt_trans (x ∷ xs) (y ∷ ys) (z ∷ zs) h k = ground (arith, bytes_lt_trans xs ys zs)

pub bytes_lt_total : (a b : Bytes) → bytes_lt a b ≡ false → bytes_lt b a ≡ false → a ≡ b
unfolding bytes_lt
bytes_lt_total [] [] h k = refl
bytes_lt_total [] (y ∷ ys) h k = cc
bytes_lt_total (x ∷ xs) [] h k = cc
bytes_lt_total (x ∷ xs) (y ∷ ys) h k = ground (arith, bytes_lt_total xs ys)

-- `sorted(xs, key=key)`, which is stable.
module _ {ℓ} {A : Type ℓ} (key : A → Bytes) where
  unfoldable pub insert_by : A → List A → List A
  insert_by a [] = a ∷ []
  insert_by a (x ∷ xs) =
      let later = x ∷ insert_by a xs in if bytes_lt (key x) (key a) then later else a ∷ x ∷ xs

  unfoldable pub sort_by : List A → List A
  sort_by [] = []
  sort_by (x ∷ xs) = insert_by x (sort_by xs)

  insert_by-perm : (a : A) (xs : List A) → Perm (insert_by a xs) (a ∷ xs)
  unfolding insert_by
  insert_by-perm a [] = Perm.refl _
  insert_by-perm a (x ∷ xs) = elim (Bool-cases (bytes_lt (key x) (key a))) [
    | inl e ↦ rw e (Perm.trans (Perm.cons x (insert_by-perm a xs)) (Perm.swap a x xs))
    | inr e ↦ rw e (Perm.refl _)
  ]

  -- Sorting keeps the elements, as often as they occur.
  pub sort_by-perm : (xs : List A) → Perm (sort_by xs) xs
  unfolding sort_by
  sort_by-perm [] = Perm.refl _
  sort_by-perm (x ∷ xs) = Perm.trans (insert_by-perm x (sort_by xs)) (Perm.cons x (sort_by-perm xs))

  -- In ascending order of the keys, equal keys allowed.
  abbrev pub IsSorted : List A → Type 0
  IsSorted [] = Unit
  IsSorted (x ∷ []) = Unit
  IsSorted (x ∷ y ∷ xs) = (bytes_lt (key y) (key x) ≡ false) × IsSorted (y ∷ xs)

  insert_by_before :
      (a x : A) (xs : List A)
      → bytes_lt (key a) (key x) ≡ false
      → IsSorted (x ∷ xs)
      → IsSorted (insert_by a xs)
      → IsSorted (x ∷ insert_by a xs)
  unfolding insert_by
  insert_by_before a x [] h s t = (h, tt)
  insert_by_before a x (y ∷ ys) h s t = elim (Bool-cases (bytes_lt (key y) (key a))) [
    | inl e ↦ rw e (s.0, rw e at t)
    | inr e ↦ rw e (h, rw e at t)
  ]

  after_less : (a x : A) → bytes_lt (key x) (key a) ≡ true → bytes_lt (key a) (key x) ≡ false
  after_less a x h = elim (Bool-cases (bytes_lt (key a) (key x))) [
    | inl e ↦ absurd (cc (bytes_lt_trans (key a) (key x) (key a) e h, bytes_lt_irrefl (key a)))
    | inr e ↦ e
  ]

  tail-IsSorted : (x : A) (xs : List A) → IsSorted (x ∷ xs) → IsSorted xs
  tail-IsSorted x [] s = tt
  tail-IsSorted x (y ∷ ys) s = s.1

  insert_by-IsSorted : (a : A) (xs : List A) → IsSorted xs → IsSorted (insert_by a xs)
  unfolding insert_by
  insert_by-IsSorted a [] s = tt
  insert_by-IsSorted a (x ∷ xs) s = elim (Bool-cases (bytes_lt (key x) (key a))) [
    | inl e ↦ rw e (
        insert_by_before a x xs (after_less a x e) s
          (insert_by-IsSorted a xs (tail-IsSorted x xs s)))
    | inr e ↦ rw e (e, s)
  ]

  -- Sorting sorts.
  pub sort_by-IsSorted : (xs : List A) → IsSorted (sort_by xs)
  unfolding sort_by
  sort_by-IsSorted [] = tt
  sort_by-IsSorted (x ∷ xs) = insert_by-IsSorted x (sort_by xs) (sort_by-IsSorted xs)

  -- A sorted list is left alone.
  pub sort_by_again-IsSorted : (xs : List A) → IsSorted xs → sort_by xs ≡ xs
  unfolding sort_by insert_by
  sort_by_again-IsSorted [] s = refl
  sort_by_again-IsSorted (x ∷ []) s = refl
  sort_by_again-IsSorted (x ∷ y ∷ ys) s = rw (sort_by_again-IsSorted (y ∷ ys) s.1, s.0) refl

  pub sort_by-sort_by : (xs : List A) → sort_by (sort_by xs) ≡ sort_by xs
  sort_by-sort_by xs = sort_by_again-IsSorted (sort_by xs) (sort_by-IsSorted xs)

insert_by-All {ℓ} :
    {A : Type 0} (key : A → Bytes) (P : A → Type ℓ) (a : A) (xs : List A)
    → P a
    → All P xs
    → All P (insert_by key a xs)
unfolding insert_by
insert_by-All key P a [] h k = (h, tt)
insert_by-All key P a (x ∷ xs) h k = elim (Bool-cases (bytes_lt (key x) (key a))) [
  | inl less ↦ rw less (k.0, insert_by-All key P a xs h k.1)
  | inr other ↦ rw other (h, k)
]

pub sort_by-All {ℓ} :
    {A : Type 0} (key : A → Bytes) (P : A → Type ℓ) (xs : List A)
    → All P xs
    → All P (sort_by key xs)
unfolding sort_by
sort_by-All key P [] h = tt
sort_by-All key P (x ∷ xs) h = insert_by-All key P x (sort_by key xs) h.0 (sort_by-All key P xs h.1)
