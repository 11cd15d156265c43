-- ===== src/Codec/RoundTrip.antt =====
-- `encode` and then `decode` for lists and dicts, and so for every value within the decoder's limits.
use dude_fs.Prelude.{
  ℕ, zero, suc, ◌+◌, ◌*◌, ◌≤◌, ◌<◌, ◌≡◌, refl, ap, Option, none, some, [], ◌∷◌, ◌++◌, Bytes, length,
  ok, list_eq, nat_eq, arith, append_assoc, length-append, append-nil, ℕ_discrete,
}
use dude_fs.Codec.Syntax.{
  Value, Items, Fields, int, bytes, seq, dict, bool, other, nil, cons, end, field,
}
use dude_fs.Codec.Decimal.{show}
use dude_fs.Codec.Encode.{put_bytes, encode_value, encode, join}
use dude_fs.Codec.Decode.{
  max_depth, max_int_digits, decode_at, decode_list, decode_dict, decode_bytes, decode,
}
use dude_fs.Codec.Tokens.{decode_bytes-put_bytes}
use dude_fs.Codec.Sorted.{After, encode_entries-Ascending, check_order-After}
use dude_fs.Codec.Trip.{
  Fits, FitsItems, FitsFields, Trip, TripItems, TripFields, put_bytes_Prefix, digit_not_end,
  not_too_deep, Trip-int, Trip-bytes,
}

Trip-seq : (d : ℕ) (xs : Items) → d ≤ max_depth → TripItems d xs → Trip d (seq xs)
unfolding encode_value decode_at ℕ_discrete
Trip-seq d xs h t = record {
  out = b'l' ∷ (t.out ++ b'e' ∷ []);
  encoded = rw t.encoded refl;
  opens = record { first = b'l'; others = t.out ++ b'e' ∷ []; shape = refl; not_end = refl };
  decoded = go;
}
  where
    go :
        (f : ℕ) (rest : Bytes)
        → 2 * length (b'l' ∷ (t.out ++ b'e' ∷ [])) < f
        → decode_at f d ((b'l' ∷ (t.out ++ b'e' ∷ [])) ++ rest) ≡ ok (seq xs, rest)
    go zero rest l = absurd (omega arith)
    go (suc f) rest l =
        rw
          (
            not_too_deep d h,
            append_assoc,
            t.decoded f rest (omega (arith, length-append t.out (b'e' ∷ []))),
          )
          refl

Trip-dict : (d : ℕ) (fs : Fields) → d ≤ max_depth → TripFields d none fs → Trip d (dict fs)
unfolding encode_value decode_at ℕ_discrete
Trip-dict d fs h t = record {
  out = b'd' ∷ (t.out ++ b'e' ∷ []);
  encoded = rw (t.encoded, encode_entries-Ascending none t.entries t.ascending, t.joined) refl;
  opens = record { first = b'd'; others = t.out ++ b'e' ∷ []; shape = refl; not_end = refl };
  decoded = go;
}
  where
    go :
        (f : ℕ) (rest : Bytes)
        → 2 * length (b'd' ∷ (t.out ++ b'e' ∷ [])) < f
        → decode_at f d ((b'd' ∷ (t.out ++ b'e' ∷ [])) ++ rest) ≡ ok (dict fs, rest)
    go zero rest l = absurd (omega arith)
    go (suc f) rest l =
        rw
          (
            not_too_deep d h,
            append_assoc,
            t.decoded f rest (omega (arith, length-append t.out (b'e' ∷ []))),
          )
          refl

Trip_nil : (d : ℕ) → TripItems d nil
unfolding encode_value decode_at ℕ_discrete
Trip_nil d = record { out = []; encoded = refl; decoded = go }
  where
    go :
        (f : ℕ) (rest : Bytes)
        → 2 * length {A = ℕ} [] + 1 < f
        → decode_list f d ([] ++ b'e' ∷ rest) ≡ ok (nil, rest)
    go zero rest l = absurd (omega arith)
    go (suc f) rest l = refl

Trip-cons :
    (d : ℕ) (x : Value) (xs : Items) → Trip (suc d) x → TripItems d xs → TripItems d (cons x xs)
unfolding encode_value decode_at
Trip-cons d x xs t u = record {
  out = t.out ++ u.out;
  encoded = rw (t.encoded, u.encoded) refl;
  decoded = go;
}
  where
    go :
        (f : ℕ) (rest : Bytes)
        → 2 * length (t.out ++ u.out) + 1 < f
        → decode_list f d ((t.out ++ u.out) ++ b'e' ∷ rest) ≡ ok (cons x xs, rest)
    go zero rest l = absurd (omega arith)
    go (suc f) rest l =
        let o = t.opens in
        let long : length t.out ≡ suc (length o.others) = ap length o.shape in
        let both = length-append t.out u.out in
        let head : decode_at f (suc d) (o.first ∷ (o.others ++ (u.out ++ b'e' ∷ rest)))
            ≡ ok (x, u.out ++ b'e' ∷ rest) =
          rw o.shape at (t.decoded f (u.out ++ b'e' ∷ rest) (omega arith)) in
        let more = u.decoded f rest (omega arith) in
        rw (append_assoc, o.shape, o.not_end, head, more) refl

Trip_end : (d : ℕ) (prev : Option Bytes) → TripFields d prev end
unfolding encode_value decode_at ℕ_discrete join
Trip_end d prev = record {
  entries = [];
  out = [];
  encoded = refl;
  ascending = tt;
  joined = refl;
  decoded = go;
}
  where
    go :
        (f : ℕ) (rest : Bytes)
        → 2 * length {A = ℕ} [] + 1 < f
        → decode_dict f d prev ([] ++ b'e' ∷ rest) ≡ ok (end, rest)
    go zero rest l = absurd (omega arith)
    go (suc f) rest l = refl

Trip-field :
    (d : ℕ) (prev : Option Bytes) (k : Bytes) (v : Value) (fs : Fields)
    → After prev k
    → length (show (length k)) ≤ max_int_digits
    → Trip (suc d) v
    → TripFields d (some k) fs
    → TripFields d prev (field (bytes k) v fs)
unfolding encode_value decode_at join
Trip-field d prev k v fs a kl t u = record {
  entries = (k, ok t.out) ∷ u.entries;
  out = put_bytes k ++ (t.out ++ u.out);
  encoded = rw (t.encoded, u.encoded) refl;
  ascending = (a, u.ascending);
  joined = rw u.joined refl;
  decoded = go;
}
  where
    go :
        (f : ℕ) (rest : Bytes)
        → 2 * length (put_bytes k ++ (t.out ++ u.out)) + 1 < f
        → decode_dict f d prev ((put_bytes k ++ (t.out ++ u.out)) ++ b'e' ∷ rest)
          ≡ ok (field (bytes k) v fs, rest)
    go zero rest l = absurd (omega arith)
    go (suc f) rest l =
        let o = t.opens in
        let p = put_bytes_Prefix k in
        let long : length (put_bytes k) ≡ suc (length p.others) = ap length p.shape in
        let all_parts = length-append (put_bytes k) (t.out ++ u.out) in
        let both = length-append t.out u.out in
        let key : decode_bytes (p.first ∷ (p.others ++ (t.out ++ (u.out ++ b'e' ∷ rest))))
            ≡ ok (k, t.out ++ (u.out ++ b'e' ∷ rest)) =
          rw p.shape at (decode_bytes-put_bytes k (t.out ++ (u.out ++ b'e' ∷ rest)) kl) in
        let value = t.decoded f (u.out ++ b'e' ∷ rest) (omega arith) in
        let more = u.decoded f rest (omega arith) in
        rw
          (
            append_assoc,
            append_assoc,
            p.shape,
            digit_not_end p.first p.digit,
            p.digit,
            key,
            check_order-After prev k a,
            value,
            more,
          )
          refl

mutual
  unfolding Fits

  Fits-Trip : (d : ℕ) (v : Value) → Fits d v → Trip d v
  Fits-Trip d (int z) h = Trip-int d z h.0 h.1
  Fits-Trip d (bytes raw) h = Trip-bytes d raw h.0 h.1
  Fits-Trip d (seq xs) h = Trip-seq d xs h.0 (FitsItems-Trip d xs h.1)
  Fits-Trip d (dict fs) h = Trip-dict d fs h.0 (FitsFields-Trip d none fs h.1)
  Fits-Trip d (bool _) h = absurd h
  Fits-Trip d other h = absurd h

  FitsItems-Trip : (d : ℕ) (xs : Items) → FitsItems (suc d) xs → TripItems d xs
  FitsItems-Trip d nil h = Trip_nil d
  FitsItems-Trip d (cons x xs) h =
      Trip-cons d x xs (Fits-Trip (suc d) x h.0) (FitsItems-Trip d xs h.1)

  FitsFields-Trip :
      (d : ℕ) (prev : Option Bytes) (fs : Fields)
      → FitsFields (suc d) prev fs
      → TripFields d prev fs
  FitsFields-Trip d prev end h = Trip_end d prev
  FitsFields-Trip d prev (field (bytes k) v fs) h =
      Trip-field d prev k v fs h.0 h.1 (Fits-Trip (suc d) v h.2) (FitsFields-Trip d (some k) fs h.3)
  FitsFields-Trip d prev (field _ v fs) h = absurd h

-- A value within the decoder's limits, at nesting depth 0 and with the keys of its dicts in
-- ascending order, is encoded without an error, and decoding the result gives the value back.
pub decode-encode :
    (v : Value) → Fits 0 v → (out : Bytes) × (encode v ≡ ok out) × (decode out ≡ ok v)
unfolding encode decode
decode-encode v h =
    let t = Fits-Trip 0 v h in
    let back : decode_at (2 * length t.out + 2) 0 t.out ≡ ok (v, []) =
      rw append-nil at (t.decoded (2 * length t.out + 2) [] (omega arith)) in
    (t.out, t.encoded, rw back refl)
