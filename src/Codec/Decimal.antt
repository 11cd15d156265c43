-- ===== src/Codec/Decimal.antt =====
-- `str(n)` and `int(digits)` on natural numbers, as ASCII bytes.
use dude_fs.Prelude.{
  ℕ, zero, suc, ◌+◌, ◌-◌, ◌*◌, ◌/◌, ◌%◌, ◌≤◌, ◌<◌, ◌≡◌, refl, ap, ◌∙◌, sym, Bool, true, ◌&&◌, [],
  ◌∷◌, ◌++◌, arith, ltb, leb, if◌then◌else◌, Bytes, Bool-cases, inl, inr, All, append_assoc, ltb→lt,
  dec_lt, append-nil,
}

-- The fuel is more than the number of divisions.
show_fuel : ℕ → ℕ → Bytes
show_fuel zero n = []
show_fuel (suc f) n =
    let more = show_fuel f (n / 10) ++ (48 + n % 10) ∷ [] in
    if ltb n 10 then (48 + n) ∷ [] else more

unfoldable pub show : ℕ → Bytes
unfolding show_fuel
show n = show_fuel (suc n) n

unfoldable pub read_from : ℕ → Bytes → ℕ
read_from a [] = a
read_from a (c ∷ cs) = read_from (a * 10 + (c - 48)) cs

unfoldable pub read : Bytes → ℕ
unfolding read_from
read cs = read_from 0 cs

-- 0x30 <= c <= 0x39
unfoldable pub is_digit : ℕ → Bool
is_digit c = leb 48 c && leb c 57

abbrev pub Digits : Bytes → Type 0
Digits = All (λ c. is_digit c ≡ true)

-- What the decoder accepts as the digits of a number: no leading zero.
pub record IsNumeral (c : ℕ) (cs : Bytes) : Type 0 where
  pub first : is_digit c ≡ true
  pub others : Digits cs
  pub minimal : (c ≡ 48) → cs ≡ []

show_fuel-enough : (f g n : ℕ) → n < f → n < g → show_fuel f n ≡ show_fuel g n
unfolding show_fuel
show_fuel-enough zero g n h k = absurd (omega arith)
show_fuel-enough (suc f) zero n h k = absurd (omega arith)
show_fuel-enough (suc f) (suc g) n h k = elim (Bool-cases (ltb n 10)) [
  | inl e ↦ rw e
  | inr e ↦ rw e (
      ap (λ r. r ++ (48 + n % 10) ∷ [])
        (show_fuel-enough f g (n / 10) (ground arith) (ground arith)))
]

pub show_small : (n : ℕ) → n < 10 → show n ≡ (48 + n) ∷ []
unfolding show
show_small n h = ground arith

pub show_step : (n : ℕ) → 10 ≤ n → show n ≡ show (n / 10) ++ (48 + n % 10) ∷ []
unfolding show
show_step n h = elim (Bool-cases (ltb n 10)) [
  | inl e ↦ absurd (omega (arith, ltb→lt n 10 e))
  | inr e ↦ rw e (
      ap (λ r. r ++ (48 + n % 10) ∷ [])
        (show_fuel-enough n (suc (n / 10)) (n / 10) (omega arith) (omega arith)))
]

read_from-snoc :
    (a c : ℕ) (xs : Bytes) → read_from a (xs ++ c ∷ []) ≡ read_from a xs * 10 + (c - 48)
unfolding read_from
read_from-snoc a c [] = refl
read_from-snoc a c (x ∷ xs) = read_from-snoc (a * 10 + (x - 48)) c xs

read-show_below : (k n : ℕ) → n < k → read (show n) ≡ n
unfolding read
read-show_below zero n h = absurd (omega arith)
read-show_below (suc k) n h = elim (dec_lt n 10) [
  | yes p ↦ rw (show_small n p) (omega arith)
  | no p ↦
      rw (show_step n (omega arith), read_from-snoc, read-show_below k (n / 10) (omega arith))
        (omega arith)
]

-- Reading what was printed gives the number back.
pub read-show : (n : ℕ) → read (show n) ≡ n
read-show n = read-show_below (suc n) n (omega arith)

Digits-snoc : (c : ℕ) (xs : Bytes) → Digits xs → is_digit c ≡ true → Digits (xs ++ c ∷ [])
Digits-snoc c [] h k = (k, tt)
Digits-snoc c (x ∷ xs) h k = (h.0, Digits-snoc c xs h.1 k)

is_digit_of_lt : (n : ℕ) → n < 10 → is_digit (48 + n) ≡ true
unfolding is_digit
is_digit_of_lt n h = ground arith

-- The shape of a printed number.
pub record Shown (n : ℕ) : Type 0 where
  pub head : ℕ
  pub tail : Bytes
  pub shape : show n ≡ head ∷ tail
  pub numeral : IsNumeral head tail

Shown-step : (n : ℕ) → 10 ≤ n → Shown (n / 10) → Shown n
unfolding read
Shown-step n h s = record {
  head = s.head;
  tail = s.tail ++ (48 + n % 10) ∷ [];
  shape = rw (show_step n h, s.shape) refl;
  numeral = record {
    first = s.numeral.first;
    others =
        Digits-snoc (48 + n % 10) s.tail s.numeral.others (is_digit_of_lt (n % 10) (omega arith));
    minimal = λ z.
        let zero_quotient : n / 10 ≡ 0 =
          sym (read-show (n / 10)) ∙ (rw (s.shape, s.numeral.minimal z, z) refl) in
        absurd (omega arith);
  };
}

Shown-below : (k n : ℕ) → n < k → Shown n
Shown-below zero n h = absurd (omega arith)
Shown-below (suc k) n h = elim (dec_lt n 10) [
  | yes p ↦ record {
    head = 48 + n;
    tail = [];
    shape = show_small n p;
    numeral = record { first = is_digit_of_lt n p; others = tt; minimal = λ _. refl };
  }
  | no p ↦ Shown-step n (omega arith) (Shown-below k (n / 10) (omega arith))
]

pub show_shape : (n : ℕ) → Shown n
show_shape n = Shown-below (suc n) n (omega arith)

digit_bounds : (c : ℕ) → is_digit c ≡ true → (48 ≤ c) × (c ≤ 57)
unfolding is_digit
digit_bounds c h = (ground arith, ground arith)

show-read_from : (a : ℕ) (cs : Bytes) → 0 < a → Digits cs → show (read_from a cs) ≡ show a ++ cs
unfolding read_from
show-read_from a [] h d = sym (append-nil (show a))
show-read_from a (c ∷ cs) h d =
    let b : (48 ≤ c) × (c ≤ 57) = digit_bounds c d.0 in
    let last : 48 + (a * 10 + (c - 48)) % 10 ≡ c = omega arith in
    let front : (a * 10 + (c - 48)) / 10 ≡ a = omega arith in
    rw
      (
        show-read_from (a * 10 + (c - 48)) cs (omega arith) d.1,
        show_step (a * 10 + (c - 48)) (omega arith),
        last,
        front,
        append_assoc,
      )
      refl

-- Printing what was read gives the digits back, if there was no leading zero.
pub show-read : (c : ℕ) (cs : Bytes) → IsNumeral c cs → show (read (c ∷ cs)) ≡ c ∷ cs
unfolding read
show-read c cs m = elim (dec_lt 48 c) [
  | yes p ↦
      let b : (48 ≤ c) × (c ≤ 57) = digit_bounds c m.first in
      let same : 48 + (c - 48) ≡ c = omega arith in
      rw
        (
          show-read_from (0 * 10 + (c - 48)) cs (omega arith) m.others,
          show_small (0 * 10 + (c - 48)) (omega arith),
        )
        (ap (λ x. x ∷ cs) (omega arith))
  | no p ↦
      let b : (48 ≤ c) × (c ≤ 57) = digit_bounds c m.first in
      let z : c ≡ 48 = omega arith in rw (m.minimal z, z) (show_small 0 (omega arith))
]
