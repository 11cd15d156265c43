-- ===== src/Codec/Tokens.antt =====
-- Number tokens and byte strings: what `_int_ascii` and the length prefix write, given to
-- `_read_int_token` and `_decode_bytes`.
use dude_fs.Prelude.{
  ℕ, suc, ◌≤◌, ◌≡◌, refl, ap, Bool, true, false, ◌&&◌, [], ◌∷◌, ◌++◌, Bytes, length, ltb, ℤ, pos,
  negsuc, ok, ◌==◌, arith, Bool-cases, inl, inr, eq_true, append_assoc, take-length-append,
  drop-length-append, length-append, nat_eq, list_eq, ℕ_discrete,
}
use dude_fs.Codec.Syntax.{int}
use dude_fs.Codec.Decimal.{show, read, is_digit, Digits, IsNumeral, show_shape, read-show}
use dude_fs.Codec.Encode.{int_ascii, put_bytes}
use dude_fs.Codec.Decode.{
  max_int_digits, span_digits, starts, has_leading_zero, negated, read_digits, read_int_token,
  decode_bytes, decode_int,
}

span-Digits :
    (ds : Bytes) (t : ℕ) (rest : Bytes)
    → Digits ds
    → is_digit t ≡ false
    → span_digits (ds ++ t ∷ rest) ≡ (ds, t ∷ rest)
unfolding span_digits
span-Digits [] t rest h k = rw k
span-Digits (d ∷ ds) t rest h k = rw (h.0, span-Digits ds t rest h.1 k)

pub record Span (ts ds rest : Bytes) : Type 0 where
  pub joined : ts ≡ ds ++ rest
  pub digits : Digits ds

pub span_lem : (ts : Bytes) → Span ts (span_digits ts).0 (span_digits ts).1
unfolding span_digits
span_lem [] = record { joined = refl; digits = tt }
span_lem (c ∷ cs) = elim (Bool-cases (is_digit c)) [
  | inl e ↦
      rw e (record {
        joined = ap (λ x. c ∷ x) (span_lem cs).joined;
        digits = (e, (span_lem cs).digits);
      })
  | inr e ↦ rw e (record { joined = refl; digits = tt })
]

no_leading_zero : (c : ℕ) (cs : Bytes) → IsNumeral c cs → has_leading_zero (c ∷ cs) ≡ false
unfolding has_leading_zero
no_leading_zero c [] m = refl
no_leading_zero c (d ∷ ds) m = elim (Bool-cases (c == 48)) [
  | inl e ↦ absurd (cc (m.minimal (ground arith)))
  | inr e ↦ e
]

pub IsNumeral-of :
    (c : ℕ) (cs : Bytes) → Digits (c ∷ cs) → has_leading_zero (c ∷ cs) ≡ false → IsNumeral c cs
unfolding has_leading_zero
IsNumeral-of c [] d h = record { first = d.0; others = d.1; minimal = λ _. refl }
IsNumeral-of c (e ∷ es) d h = record {
  first = d.0;
  others = d.1;
  minimal = λ z. absurd (ground arith);
}

read_digits-show :
    (neg : Bool) (n t : ℕ) (rest : Bytes)
    → (neg && show n == 48 ∷ []) ≡ false
    → length (show n) ≤ max_int_digits
    → read_digits neg t (show n, t ∷ rest) ≡ ok (negated neg n, t ∷ rest)
unfolding read_digits starts
read_digits-show neg n t rest h k =
    let s = show_shape n in
    let z : has_leading_zero (s.head ∷ s.tail) ≡ false = no_leading_zero s.head s.tail s.numeral in
    let r : read (s.head ∷ s.tail) ≡ n = rw s.shape at (read-show n) in
    let h' : (neg && s.head ∷ s.tail == 48 ∷ []) ≡ false = rw s.shape at h in
    let k' : length (s.head ∷ s.tail) ≤ max_int_digits = rw s.shape at k in
    rw (s.shape, z, h') (ground arith)

not_dash : (c : ℕ) → is_digit c ≡ true → (c == b'-') ≡ false
unfolding is_digit
not_dash c h = ground arith

token-show :
    (allow : Bool) (n t : ℕ) (rest : Bytes)
    → is_digit t ≡ false
    → length (show n) ≤ max_int_digits
    → read_int_token t allow (show n ++ t ∷ rest) ≡ ok (pos n, t ∷ rest)
unfolding read_int_token negated
token-show allow n t rest h k =
    let s = show_shape n in
    let all_digits : Digits (show n) = rw s.shape (s.numeral.first, s.numeral.others) in
    let spanned : span_digits (show n ++ t ∷ rest) ≡ (show n, t ∷ rest) =
      span-Digits (show n) t rest all_digits h in
    let spanned' : span_digits (s.head ∷ (s.tail ++ t ∷ rest)) ≡ (s.head ∷ s.tail, t ∷ rest) =
      rw s.shape at spanned in
    let done : read_digits false t (s.head ∷ s.tail, t ∷ rest) ≡ ok (pos n, t ∷ rest) =
      rw s.shape at (read_digits-show false n t rest refl k) in
    rw (s.shape, not_dash s.head s.numeral.first, spanned') done

show-suc_ne_zero : (n : ℕ) → (show (suc n) == 48 ∷ []) ≡ false
unfolding read
show-suc_ne_zero n = elim (Bool-cases (show (suc n) == 48 ∷ [])) [
  | inl e ↦
      let z : read (48 ∷ []) ≡ suc n =
        rw (eq_true (show (suc n)) (48 ∷ []) e) at (read-show (suc n)) in
      absurd (omega arith)
  | inr e ↦ e
]

token-negative :
    (n t : ℕ) (rest : Bytes)
    → is_digit t ≡ false
    → length (show (suc n)) ≤ max_int_digits
    → read_int_token t true (b'-' ∷ (show (suc n) ++ t ∷ rest)) ≡ ok (negsuc n, t ∷ rest)
unfolding read_int_token negated ℕ_discrete
token-negative n t rest h k =
    let s = show_shape (suc n) in
    let all_digits : Digits (show (suc n)) = rw s.shape (s.numeral.first, s.numeral.others) in
    rw (span-Digits (show (suc n)) t rest all_digits h)
      (read_digits-show true (suc n) t rest (show-suc_ne_zero n) k)

-- The digits of an integer, without its sign.
unfoldable pub digits_of : ℤ → Bytes
digits_of (pos n) = show n
digits_of (negsuc n) = show (suc n)

pub decode_int-int_ascii :
    (z : ℤ) (rest : Bytes)
    → length (digits_of z) ≤ max_int_digits
    → decode_int (int_ascii z ++ b'e' ∷ rest) ≡ ok (int z, rest)
unfolding decode_int int_ascii digits_of is_digit
decode_int-int_ascii (pos n) rest k = rw (token-show true n b'e' rest refl k)
decode_int-int_ascii (negsuc n) rest k = rw (token-negative n b'e' rest refl k)

pub decode_bytes-put_bytes :
    (raw rest : Bytes)
    → length (show (length raw)) ≤ max_int_digits
    → decode_bytes (put_bytes raw ++ rest) ≡ ok (raw, rest)
unfolding decode_bytes put_bytes is_digit
decode_bytes-put_bytes raw rest k =
    let within : ltb (length (raw ++ rest)) (length raw) ≡ false =
      ground (arith, length-append raw rest) in
    rw (
      append_assoc,
      token-show false (length raw) b':' (raw ++ rest) refl k,
      within,
      take-length-append,
      drop-length-append,
    )
