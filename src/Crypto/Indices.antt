-- ===== src/Crypto/Indices.antt =====
-- `bitmap_indices` after `bitmap_set`: the indices in ascending order come back.
use native.Mathlib.Nat.{zero-div}
use dude_fs.Prelude.{
  ℕ, zero, suc, ◌+◌, ◌-◌, ℕ_discrete, ◌/◌, ◌%◌, ◌^◌, ◌≤◌, ◌<◌, Bool, false, ◌||◌, List, [], ◌∷◌,
  ◌++◌, Bytes, ok, ◌≡◌, refl, ap, sym, ◌∙◌, arith, ◌==◌, nat_eq, length, All, select, contains,
  Bool-cases, inl, inr, subst, eq_true, eq_self, eq_false, if◌then◌else◌,
}
use dude_fs.Crypto.Bitmap.{
  bitmap_size, has_bit, zeros, byte_at, bitmap_set, range, has_signer, bitmap_indices,
}
use dude_fs.Crypto.Signers.{IsByte, set_all-AreSet}

-- In ascending order, none twice, from a bound on.
abbrev pub Rising : ℕ → List ℕ → Type 0
Rising lo [] = Unit
Rising lo (i ∷ is) = (lo ≤ i) × Rising (suc i) is

from : ℕ → ℕ → List ℕ
from lo zero = []
from lo (suc k) = lo ∷ from (suc lo) k

from_end : (lo k : ℕ) → from lo k ++ (lo + k) ∷ [] ≡ from lo (suc k)
unfolding from
from_end lo zero = let e : lo + 0 ≡ lo = omega arith in ap (λ n. n ∷ []) e
from_end lo (suc k) =
    let e : lo + suc k ≡ suc lo + k = omega arith in
    ap (◌∷◌ lo) (ap (λ n. from (suc lo) k ++ n ∷ []) e ∙ from_end (suc lo) k)

range-from : (n : ℕ) → range n ≡ from 0 n
unfolding range from
range-from zero = refl
range-from (suc n) =
    let e : n ≡ 0 + n = omega arith in
    ap (λ xs. xs ++ n ∷ []) (range-from n) ∙ ap (λ m. from 0 n ++ m ∷ []) e ∙ from_end 0 n

pub Rising-weaken : (lo hi : ℕ) (is : List ℕ) → lo ≤ hi → Rising hi is → Rising lo is
Rising-weaken lo hi [] h r = tt
Rising-weaken lo hi (i ∷ is) h r = (omega (arith, r.0), r.1)

not-contains-Rising : (lo : ℕ) (is : List ℕ) → Rising (suc lo) is → contains lo is ≡ false
unfolding contains
not-contains-Rising lo [] r = refl
not-contains-Rising lo (i ∷ is) r = ground (
  arith,
  r.0,
  not-contains-Rising lo is (Rising-weaken (suc lo) (suc i) is (omega (arith, r.0)) r.1),
)

select_cong :
    (p q : ℕ → Bool) (lo k : ℕ)
    → ((j : ℕ) → lo ≤ j → p j ≡ q j)
    → select p (from lo k) ≡ select q (from lo k)
unfolding select from
select_cong p q lo zero h = refl
select_cong p q lo (suc k) h =
    let rest = select_cong p q (suc lo) k (λ j g. h j (omega arith)) in
    λ i. if h lo (omega arith) i then lo ∷ rest i else rest i

select_none : (lo k : ℕ) → select (λ j. false) (from lo k) ≡ []
unfolding select from
select_none lo zero = refl
select_none lo (suc k) = select_none (suc lo) k

select-Rising :
    (is : List ℕ) (lo k : ℕ)
    → Rising lo is
    → All (λ i. i < lo + k) is
    → select (λ j. contains j is) (from lo k) ≡ is
unfolding select from contains
select-Rising [] lo k r s = select_none lo k
select-Rising (i ∷ is) lo zero r s = absurd (omega (arith, r.0, s.0))
select-Rising (i ∷ is) lo (suc k) r s =
    let e' : lo + suc k ≡ suc lo + k = omega arith in
    let s' = subst (λ n. All (λ j. j < n) (i ∷ is)) e' s in
    elim (Bool-cases (lo == i)) [
      | inl e ↦
          let same : lo ≡ i = eq_true lo i e in
          let behind =
            select_cong (λ j. contains j (i ∷ is)) (λ j. contains j is) (suc lo) k
              (λ j g.
                ap (λ t. t || contains j is) (eq_false j i (λ q. omega (arith, g, q, same)))) in
          rw e (
            ap (◌∷◌ lo) (
              behind
              ∙ select-Rising is (suc lo) k (subst (λ n. Rising (suc n) is) (sym same) r.1) s'.1)
            ∙ ap (λ n. n ∷ is) same)
      | inr e ↦
          let above : lo < i = ground (arith, r.0) in
          rw
            (
              e,
              not-contains-Rising lo is
                  (Rising-weaken (suc lo) (suc i) is (omega (arith, above)) r.1),
            )
            (select-Rising (i ∷ is) (suc lo) k (above, r.1) s')
    ]

length-zeros : (n : ℕ) → length (zeros n) ≡ n
unfolding zeros
length-zeros zero = refl
length-zeros (suc n) = ap (λ (k : ℕ). suc k) (length-zeros n)

zeros-All : (n : ℕ) → All IsByte (zeros n)
unfolding zeros
zeros-All zero = tt
zeros-All (suc n) = (omega arith, zeros-All n)

byte_at-zeros : (k n : ℕ) → byte_at k (zeros n) ≡ 0
unfolding byte_at zeros
byte_at-zeros k zero = refl
byte_at-zeros zero (suc n) = refl
byte_at-zeros (suc k) (suc n) = byte_at-zeros k n

or_false : (a : Bool) → (a || false) ≡ a
or_false a = ground arith

zero_bit : (k : ℕ) → has_bit 0 (2 ^ k) ≡ false
unfolding ℕ_discrete
zero_bit k = rw (zero-div (2 ^ k)) refl

has_signer-zeros : (n j : ℕ) → has_signer (zeros n) j ≡ false
unfolding has_signer
has_signer-zeros n j = rw (byte_at-zeros (j / 8) n) (zero_bit (7 - j % 8))

select_ext : (p q : ℕ → Bool) (xs : List ℕ) → ((j : ℕ) → p j ≡ q j) → select p xs ≡ select q xs
unfolding select
select_ext p q [] h = refl
select_ext p q (x ∷ xs) h =
    let rest = select_ext p q xs h in λ i. if h x i then x ∷ rest i else rest i

-- For indices in ascending order, none twice and all below the number of signers, `bitmap_set` returns a
-- bitmap from which `bitmap_indices` reads just these indices.
pub bitmap_indices-bitmap_set :
    (is : List ℕ) (n : ℕ)
    → Rising 0 is
    → All (λ i. i < n) is
    → (bitmap : Bytes) × (bitmap_set is n ≡ ok bitmap)
      × (length bitmap ≡ bitmap_size n)
      × (bitmap_indices bitmap n ≡ ok is)
unfolding bitmap_set bitmap_indices
bitmap_indices-bitmap_set is n r s =
    let (bitmap, made, t) =
      set_all-AreSet is n (zeros (bitmap_size n)) (omega (arith, length-zeros (bitmap_size n)))
        (zeros-All (bitmap_size n)) s in
    let width : length bitmap ≡ bitmap_size n = t.width ∙ length-zeros (bitmap_size n) in
    let at_zero : n ≡ 0 + n = omega arith in
    let read : select (has_signer bitmap) (range n) ≡ is =
      select_ext (has_signer bitmap) (λ j. contains j is) (range n)
        (λ j.
          t.reads j
          ∙ ap (λ x. contains j is || x) (has_signer-zeros (bitmap_size n) j)
          ∙ or_false (contains j is))
      ∙ ap (select (λ j. contains j is)) (range-from n)
      ∙ select-Rising is 0 n r (subst (λ m. All (λ i. i < m) is) at_zero s) in
    (bitmap, made, width, rw (width, eq_self (bitmap_size n), read) refl)
