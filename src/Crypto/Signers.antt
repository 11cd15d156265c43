-- ===== src/Crypto/Signers.antt =====
-- The bits that `bitmap_set` sets are those that `bitmap_indices` reads.
use dude_fs.Prelude.{
  ℕ, zero, suc, ◌-◌, ◌/◌, ◌%◌, ◌^◌, ◌≤◌, ◌<◌, Bool, true, false, not, ◌&&◌, ◌||◌, List, [], ◌∷◌,
  Bytes, ok, ◌≡◌, refl, ap, sym, ◌∙◌, arith, ◌==◌, nat_eq, ltb, length, All, contains,
  if◌then◌else◌, Bool-cases, inl, inr, ℕ_discrete,
}
use dude_fs.Prelude.Below.{all_below, all_below-true}
use dude_fs.Crypto.Bitmap.{
  bitmap_size, mask, has_bit, with_bit, set_at, byte_at, set_all, has_signer,
}

abbrev agree : Bool → Bool → Bool
agree x y = if x then y else not y

abbrev set_then_has : ℕ → ℕ → ℕ → Bool
set_then_has i j b =
    agree (has_bit (with_bit b (2 ^ (7 - i))) (2 ^ (7 - j))) (j == i || has_bit b (2 ^ (7 - j)))
    && ltb (with_bit b (2 ^ (7 - i))) 256

set_then_has_table : all_below 8 (λ i. all_below 8 (λ j. all_below 256 (set_then_has i j))) ≡ true
unfolding all_below ℕ_discrete
set_then_has_table = refl

agree_eq : (x y : Bool) (n : ℕ) → (agree x y && ltb n 256) ≡ true → (x ≡ y) × (n < 256)
agree_eq x y n h = (ground arith, ground arith)

bit_set :
    (i j b : ℕ)
    → i < 8
    → j < 8
    → b < 256
    → (has_bit (with_bit b (2 ^ (7 - i))) (2 ^ (7 - j)) ≡ (j == i || has_bit b (2 ^ (7 - j))))
      × (with_bit b (2 ^ (7 - i)) < 256)
bit_set i j b hi hj hb =
    agree_eq (has_bit (with_bit b (2 ^ (7 - i))) (2 ^ (7 - j))) (j == i || has_bit b (2 ^ (7 - j)))
      (with_bit b (2 ^ (7 - i)))
      (all_below-true 256 (set_then_has i j) b
        (all_below-true 8 (λ k. all_below 256 (set_then_has i k)) j
          (all_below-true 8 (λ k. all_below 8 (λ l. all_below 256 (set_then_has k l))) i
            set_then_has_table hi)
          hj)
        hb)

abbrev pub IsByte : ℕ → Type 0
IsByte b = b < 256

byte_at-IsByte : (k : ℕ) (buf : Bytes) → All IsByte buf → byte_at k buf < 256
unfolding byte_at
byte_at-IsByte k [] h = omega arith
byte_at-IsByte zero (b ∷ bs) h = h.0
byte_at-IsByte (suc k) (b ∷ bs) h = byte_at-IsByte k bs h.1

byte_at-set_at :
    (k at m : ℕ) (buf : Bytes)
    → at < length buf
    → byte_at k (set_at at m buf) ≡ (if k == at then with_bit (byte_at k buf) m else byte_at k buf)
unfolding byte_at set_at
byte_at-set_at k at m [] h = absurd (omega arith)
byte_at-set_at zero zero m (b ∷ bs) h = ground arith
byte_at-set_at zero (suc at) m (b ∷ bs) h = ground arith
byte_at-set_at (suc k) zero m (b ∷ bs) h = ground arith
byte_at-set_at (suc k) (suc at) m (b ∷ bs) h =
    ground (arith, byte_at-set_at k at m bs (omega arith))

length-set_at : (at m : ℕ) (buf : Bytes) → length (set_at at m buf) ≡ length buf
unfolding set_at
length-set_at at m [] = refl
length-set_at zero m (b ∷ bs) = refl
length-set_at (suc at) m (b ∷ bs) = ap (λ (n : ℕ). suc n) (length-set_at at m bs)

set_at-All : (i at : ℕ) (buf : Bytes) → All IsByte buf → All IsByte (set_at at (mask i) buf)
unfolding set_at
set_at-All i at [] h = tt
set_at-All i zero (b ∷ bs) h = ((bit_set (i % 8) 0 b (omega arith) (omega arith) h.0).1, h.1)
set_at-All i (suc at) (b ∷ bs) h = (h.0, set_at-All i at bs h.1)

same_place : (i j : ℕ) → (j / 8 == i / 8) ≡ true → (j % 8 == i % 8) ≡ (j == i)
same_place i j e = ground arith

other_place : (i j : ℕ) → (j / 8 == i / 8) ≡ false → (j == i) ≡ false
other_place i j e = ground arith

has_signer-set_at :
    (i j : ℕ) (buf : Bytes)
    → i / 8 < length buf
    → All IsByte buf
    → has_signer (set_at (i / 8) (mask i) buf) j ≡ (j == i || has_signer buf j)
unfolding has_signer
has_signer-set_at i j buf h s = elim (Bool-cases (j / 8 == i / 8)) [
  | inl e ↦
      ap (λ b. has_bit b (mask j)) (byte_at-set_at (j / 8) (i / 8) (mask i) buf h)
      ∙ (λ k.
          has_bit (if e k then with_bit (byte_at (j / 8) buf) (mask i) else byte_at (j / 8) buf)
            (mask j))
      ∙ (bit_set (i % 8) (j % 8) (byte_at (j / 8) buf) (omega arith) (omega arith)
          (byte_at-IsByte (j / 8) buf s)).0
      ∙ ap (λ t. t || has_signer buf j) (same_place i j e)
  | inr e ↦
      ap (λ b. has_bit b (mask j)) (byte_at-set_at (j / 8) (i / 8) (mask i) buf h)
      ∙ (λ k.
          has_bit (if e k then with_bit (byte_at (j / 8) buf) (mask i) else byte_at (j / 8) buf)
            (mask j))
      ∙ ap (λ t. t || has_signer buf j) (sym (other_place i j e))
]

or_swap : (a b c : Bool) → (a || (b || c)) ≡ ((b || a) || c)
or_swap a b c = ground arith

lt→ltb : (a b : ℕ) → a < b → ltb a b ≡ true
lt→ltb a b h = ground arith

-- The bytes after the bits of some indices are set.
pub record AreSet (is : List ℕ) (buf bitmap : Bytes) : Type 0 where
  pub width : length bitmap ≡ length buf
  pub reads : (j : ℕ) → has_signer bitmap j ≡ (contains j is || has_signer buf j)

pub set_all-AreSet :
    (is : List ℕ) (n : ℕ) (buf : Bytes)
    → bitmap_size n ≤ length buf
    → All IsByte buf
    → All (λ i. i < n) is
    → (bitmap : Bytes) × (set_all is n buf ≡ ok bitmap) × AreSet is buf bitmap
unfolding set_all contains
set_all-AreSet [] n buf w s small = (buf, refl, record { width = refl; reads = λ j. refl })
set_all-AreSet (i ∷ is) n buf w s small =
    let here : i / 8 < length buf = omega (arith, w, small.0) in
    let (bitmap, made, t) =
      set_all-AreSet is n (set_at (i / 8) (mask i) buf) (rw (length-set_at (i / 8) (mask i) buf) w)
        (set_at-All i (i / 8) buf s) small.1 in
    let inside : ltb i n ≡ true = lt→ltb i n small.0 in
    (
      bitmap,
      rw inside made,
      record {
        width = t.width ∙ length-set_at (i / 8) (mask i) buf;
        reads = λ j.
            t.reads j
            ∙ ap (λ x. contains j is || x) (has_signer-set_at i j buf here s)
            ∙ or_swap (contains j is) (j == i) (has_signer buf j);
      },
    )
