-- ===== src/Codec/Ends.antt =====
-- The fuel that `decode` takes, against the bytes that each call of `_decode_at` uses up.
use dude_fs.Prelude.{
  ℕ, zero, suc, ◌+◌, ◌*◌, ◌<◌, ◌≡◌, ◌≢◌, refl, ap, Bool, true, false, Option, none, some, [], ◌∷◌,
  if◌then◌else◌, Bytes, length, Result, ok, err, ◌>>=◌, ◌==◌, list_eq, nat_eq, arith, Bool-cases,
  inl, inr, length-append, ltb,
}
use dude_fs.Codec.Syntax.{Value, CodecError, out_of_fuel, bytes, seq, dict, too_deep, invalid_tag}
use dude_fs.Codec.Decimal.{is_digit}
use dude_fs.Codec.Decode.{
  max_depth, decode_at, decode_list, decode_dict, decode_int, decode_bytes, decode, check_order,
  finish, read_digits, read_int_token, span_digits,
}
use dude_fs.Codec.Canonical.{at-Written}
use dude_fs.Codec.Reading.{decode_bytes_written}
use dude_fs.Codec.Encode.{put_bytes}

abbrev Ends : {A : Type 0} → Result CodecError A → Type 0
Ends r = r ≢ err out_of_fuel

bind_Ends :
    {A B : Type 0} (m : Result CodecError A) (g : A → Result CodecError B)
    → Ends m
    → ((a : A) → m ≡ ok a → Ends (g a))
    → Ends (m >>= g)
bind_Ends (ok a) g h k = k a refl
bind_Ends (err e) g h k = λ p. h (cc)

if_Ends :
    {A : Type 0} (b : Bool) (m n : Result CodecError A)
    → Ends m
    → Ends n
    → Ends (if b then m else n)
if_Ends true m n h k = h
if_Ends false m n h k = k

read_digits-Ends : (neg : Bool) (t : ℕ) (ds rest : Bytes) → Ends (read_digits neg t (ds, rest))
unfolding read_digits
read_digits-Ends neg t [] rest = λ p. cc
read_digits-Ends neg t (d ∷ ds) rest = λ p. ground arith

read_int_token-Ends : (t : ℕ) (allow : Bool) (ts : Bytes) → Ends (read_int_token t allow ts)
unfolding read_int_token
read_int_token-Ends t allow [] = λ p. cc
read_int_token-Ends t allow (c ∷ cs) = λ p. ground (
  arith,
  read_digits-Ends true t (span_digits cs).0 (span_digits cs).1,
  read_digits-Ends false t (span_digits (c ∷ cs)).0 (span_digits (c ∷ cs)).1,
)

decode_int-Ends : (ts : Bytes) → Ends (decode_int ts)
unfolding decode_int
decode_int-Ends ts =
    bind_Ends (read_int_token b'e' true ts) _ (read_int_token-Ends b'e' true ts) (λ a e p. cc)

decode_bytes-Ends : (ts : Bytes) → Ends (decode_bytes ts)
unfolding decode_bytes
decode_bytes-Ends ts =
    bind_Ends (read_int_token b':' false ts) _ (read_int_token-Ends b':' false ts)
      (λ a e p. ground arith)

check_order-Ends : (prev : Option Bytes) (k : Bytes) → Ends (check_order prev k)
unfolding check_order
check_order-Ends none k = λ p. cc
check_order-Ends (some j) k = λ p. ground arith

progress_at :
    (f d : ℕ) (ts : Bytes) (v : Value) (rest : Bytes)
    → decode_at f d ts ≡ ok (v, rest)
    → length rest < length ts
progress_at f d ts v rest h =
    let w = at-Written f d ts v rest h in
    omega (arith, w.some_out, ap length w.input, length-append w.out rest)

progress_bytes : (ts raw rest : Bytes) → decode_bytes ts ≡ ok (raw, rest) → length rest < length ts
unfolding put_bytes
progress_bytes ts raw rest h =
    let w = decode_bytes_written ts raw rest h in omega (arith, ap length w, length-append {0})

mutual
  unfolding decode_at decode_list decode_dict

  at_Ends : (f d : ℕ) (ts : Bytes) → 2 * length ts < f → Ends (decode_at f d ts)
  at_Ends zero d ts h = absurd (omega arith)
  at_Ends (suc f) d [] h = λ p. cc
  at_Ends (suc f) d (tag ∷ ts) h =
      if_Ends (ltb max_depth d) (err too_deep) _ (λ p. cc)
        (if_Ends (tag == b'i') (decode_int ts) _ (decode_int-Ends ts) (
          if_Ends (tag == b'l') (decode_list f d ts >>= λ r. ok (seq r.0, r.1)) _
            (bind_Ends (decode_list f d ts) _ (list_Ends f d ts (omega arith)) (λ a q p. cc))
            (if_Ends (tag == b'd') (decode_dict f d none ts >>= λ r. ok (dict r.0, r.1)) _
              (bind_Ends (decode_dict f d none ts) _ (dict_Ends f d none ts (omega arith))
                (λ a q p. cc))
              (if_Ends (is_digit tag) (decode_bytes (tag ∷ ts) >>= λ r. ok (bytes r.0, r.1))
                (err invalid_tag)
                (bind_Ends (decode_bytes (tag ∷ ts)) _ (decode_bytes-Ends (tag ∷ ts)) (λ a q p. cc))
                (λ p. cc)))))

  list_Ends : (f d : ℕ) (ts : Bytes) → 2 * length ts + 1 < f → Ends (decode_list f d ts)
  list_Ends zero d ts h = absurd (omega arith)
  list_Ends (suc f) d [] h = λ p. cc
  list_Ends (suc f) d (c ∷ ts) h = elim (Bool-cases (c == b'e')) [
    | inl e ↦ rw e (λ p. cc)
    | inr e ↦ rw e (
        bind_Ends (decode_at f (suc d) (c ∷ ts)) _ (at_Ends f (suc d) (c ∷ ts) (omega arith))
          λ (x, mid) first.
            bind_Ends (decode_list f d mid) _
              (list_Ends f d mid (omega (arith, progress_at f (suc d) (c ∷ ts) x mid first)))
              (λ a q p. cc))
  ]

  dict_Ends :
      (f d : ℕ) (prev : Option Bytes) (ts : Bytes)
      → 2 * length ts + 1 < f
      → Ends (decode_dict f d prev ts)
  dict_Ends zero d prev ts h = absurd (omega arith)
  dict_Ends (suc f) d prev [] h = λ p. cc
  dict_Ends (suc f) d prev (c ∷ ts) h = elim (Bool-cases (c == b'e')) [
    | inl e ↦ rw e (λ p. cc)
    | inr e ↦ elim (Bool-cases (is_digit c)) [
      | inl n ↦
          rw (e, n)
            (bind_Ends (decode_bytes (c ∷ ts)) _ (decode_bytes-Ends (c ∷ ts)) λ (k, s) read_key.
              bind_Ends (check_order prev k) _ (check_order-Ends prev k) λ _ _.
                bind_Ends (decode_at f (suc d) s) _
                  (at_Ends f (suc d) s (omega (arith, progress_bytes (c ∷ ts) k s read_key)))
                  λ (v, s') read_value.
                    bind_Ends (decode_dict f d (some k) s') _
                      (dict_Ends f d (some k) s' (
                        omega (
                          arith,
                          progress_bytes (c ∷ ts) k s read_key,
                          progress_at f (suc d) s v s' read_value,
                        )))
                      (λ a q p. cc))
      | inr n ↦ rw (e, n) (λ p. cc)
    ]
  ]

finish-Ends : (r : Value × Bytes) → Ends (finish r)
unfolding finish
finish-Ends (v, []) = λ p. cc
finish-Ends (v, c ∷ cs) = λ p. cc

-- `decode` runs out of fuel on no input.
pub decode_total : (input : Bytes) → decode input ≢ err out_of_fuel
unfolding decode
decode_total input =
    bind_Ends (decode_at (2 * length input + 2) 0 input) finish
      (at_Ends (2 * length input + 2) 0 input (omega arith)) (λ r e. finish-Ends r)
