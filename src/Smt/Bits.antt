-- ===== src/Smt/Bits.antt =====
-- The bytes at which paths are cut: every byte and every number of bits, by evaluation.
use dude_fs.Prelude.{
  ℕ, suc, ◌+◌, ◌-◌, ◌/◌, ◌%◌, ◌^◌, ◌<◌, Bool, true, false, ◌&&◌, ◌≡◌, refl, arith, ltb, ◌==◌,
  nat_eq, ℕ_discrete, if◌then◌else◌,
}
use dude_fs.Prelude.Below.{all_below, all_below-true}
use dude_fs.Smt.{low_byte, high_byte}
use dude_fs.Smt.Tree.{toggle}

-- Cutting a byte at a number of bits a second time changes nothing.
abbrev cut_twice : ℕ → ℕ → Bool
cut_twice rem byte =
    low_byte (low_byte byte rem) rem == low_byte byte rem
    && high_byte (low_byte byte rem) rem == high_byte byte rem
    && ltb (low_byte byte rem) 256

abbrev one_at : ℕ → ℕ
one_at rem = 2 ^ (7 - rem)

-- Cutting after the next bit, of the byte and of the byte with that bit the other way.
abbrev cut_next : ℕ → ℕ → Bool
cut_next rem byte =
    if byte / one_at rem % 2 == 1
    then low_byte byte (suc rem) == low_byte byte rem + one_at rem
      && low_byte (toggle (one_at rem) byte) (suc rem) == low_byte byte rem
      && ltb (toggle (one_at rem) byte) 256
    else low_byte byte (suc rem) == low_byte byte rem
      && low_byte (toggle (one_at rem) byte) (suc rem) == low_byte byte rem + one_at rem
      && ltb (toggle (one_at rem) byte) 256

-- Cutting at one bit less what was cut, or what was cut and has its next bit set.
abbrev cut_back : ℕ → ℕ → Bool
cut_back rem byte =
    low_byte (low_byte byte (suc rem)) rem == low_byte byte rem
    && low_byte (low_byte byte rem + one_at rem) rem == low_byte byte rem
    && ltb (low_byte byte rem + one_at rem) 256

cut_back_table : all_below 8 (λ rem. all_below 256 (cut_back rem)) ≡ true
unfolding all_below ℕ_discrete
cut_back_table = refl

cut_twice_table : all_below 9 (λ rem. all_below 256 (cut_twice rem)) ≡ true
unfolding all_below ℕ_discrete
cut_twice_table = refl

cut_next_table : all_below 8 (λ rem. all_below 256 (cut_next rem)) ≡ true
unfolding all_below ℕ_discrete
cut_next_table = refl

three_tests :
    (a b c d n : ℕ) → (a == b && c == d && ltb n 256) ≡ true → (a ≡ b) × (c ≡ d) × (n < 256)
three_tests a b c d n h = (ground arith, ground arith, ground arith)

then_true : (b x y : Bool) → b ≡ true → (if b then x else y) ≡ true → x ≡ true
then_true b x y e h = ground arith

else_true : (b x y : Bool) → b ≡ false → (if b then x else y) ≡ true → y ≡ true
else_true b x y e h = ground arith

pub cut_twice_lem :
    (rem byte : ℕ)
    → rem < 9
    → byte < 256
    → (low_byte (low_byte byte rem) rem ≡ low_byte byte rem)
      × (high_byte (low_byte byte rem) rem ≡ high_byte byte rem)
      × (low_byte byte rem < 256)
cut_twice_lem rem byte hr hb =
    three_tests (low_byte (low_byte byte rem) rem) (low_byte byte rem)
      (high_byte (low_byte byte rem) rem) (high_byte byte rem) (low_byte byte rem)
      (all_below-true 256 (cut_twice rem) byte
        (all_below-true 9 (λ r. all_below 256 (cut_twice r)) rem cut_twice_table hr) hb)

next_true : (rem byte : ℕ) → rem < 8 → byte < 256 → cut_next rem byte ≡ true
next_true rem byte hr hb =
    all_below-true 256 (cut_next rem) byte
      (all_below-true 8 (λ r. all_below 256 (cut_next r)) rem cut_next_table hr) hb

pub cut_next_one :
    (rem byte : ℕ)
    → rem < 8
    → byte < 256
    → (byte / 2 ^ (7 - rem) % 2 == 1) ≡ true
    → (low_byte byte (suc rem) ≡ low_byte byte rem + 2 ^ (7 - rem))
      × (low_byte (toggle (2 ^ (7 - rem)) byte) (suc rem) ≡ low_byte byte rem)
      × (toggle (2 ^ (7 - rem)) byte < 256)
cut_next_one rem byte hr hb e =
    three_tests (low_byte byte (suc rem)) (low_byte byte rem + one_at rem)
      (low_byte (toggle (one_at rem) byte) (suc rem)) (low_byte byte rem) (toggle (one_at rem) byte)
      (then_true (byte / one_at rem % 2 == 1) _ _ e (next_true rem byte hr hb))

pub cut_next_zero :
    (rem byte : ℕ)
    → rem < 8
    → byte < 256
    → (byte / 2 ^ (7 - rem) % 2 == 1) ≡ false
    → (low_byte byte (suc rem) ≡ low_byte byte rem)
      × (low_byte (toggle (2 ^ (7 - rem)) byte) (suc rem) ≡ low_byte byte rem + 2 ^ (7 - rem))
      × (toggle (2 ^ (7 - rem)) byte < 256)
cut_next_zero rem byte hr hb e =
    three_tests (low_byte byte (suc rem)) (low_byte byte rem)
      (low_byte (toggle (one_at rem) byte) (suc rem)) (low_byte byte rem + one_at rem)
      (toggle (one_at rem) byte)
      (else_true (byte / one_at rem % 2 == 1) _ _ e (next_true rem byte hr hb))

pub cut_back_lem :
    (rem byte : ℕ)
    → rem < 8
    → byte < 256
    → (low_byte (low_byte byte (suc rem)) rem ≡ low_byte byte rem)
      × (low_byte (low_byte byte rem + one_at rem) rem ≡ low_byte byte rem)
      × (low_byte byte rem + one_at rem < 256)
cut_back_lem rem byte hr hb =
    three_tests (low_byte (low_byte byte (suc rem)) rem) (low_byte byte rem)
      (low_byte (low_byte byte rem + one_at rem) rem) (low_byte byte rem)
      (low_byte byte rem + one_at rem)
      (all_below-true 256 (cut_back rem) byte
        (all_below-true 8 (λ r. all_below 256 (cut_back r)) rem cut_back_table hr) hb)
