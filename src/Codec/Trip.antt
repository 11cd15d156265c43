-- ===== src/Codec/Trip.antt =====
-- What `encode` and then `decode` give for a value within the decoder's limits, and that they do for
-- integers and byte strings.
use dude_fs.Prelude.{
  ℕ, zero, suc, ◌+◌, ◌*◌, ◌≤◌, ◌<◌, ◌≡◌, refl, ◌∙◌, true, false, Option, none, some, List, [], ◌∷◌,
  ◌++◌, Bytes, length, ℤ, ok, ◌>>=◌, ◌==◌, list_eq, nat_eq, arith, append_assoc, ltb, ℕ_discrete,
}
use dude_fs.Codec.Syntax.{
  Value, Items, Fields, int, bytes, seq, dict, bool, other, nil, cons, end, field,
}
use dude_fs.Codec.Decimal.{show, show_shape, is_digit}
use dude_fs.Codec.Encode.{
  Entry, int_ascii, put_bytes, encode_value, encode_items, encode_fields, join,
}
use dude_fs.Codec.Decode.{
  max_depth, max_int_digits, decode_at, decode_list, decode_dict, decode_bytes,
}
use dude_fs.Codec.Tokens.{digits_of, decode_int-int_ascii, decode_bytes-put_bytes}
use dude_fs.Codec.Sorted.{After, Ascending}

-- The values within the decoder's limits, at a nesting depth: no bool, no other type, the keys of a
-- dict byte strings in ascending order.
unfoldable mutual
  pub Fits : ℕ → Value → Type 0
  Fits d (int z) = (d ≤ max_depth) × (length (digits_of z) ≤ max_int_digits)
  Fits d (bytes raw) = (d ≤ max_depth) × (length (show (length raw)) ≤ max_int_digits)
  Fits d (seq xs) = (d ≤ max_depth) × FitsItems (suc d) xs
  Fits d (dict fs) = (d ≤ max_depth) × FitsFields (suc d) none fs
  Fits d (bool _) = ⊥
  Fits d other = ⊥

  pub FitsItems : ℕ → Items → Type 0
  FitsItems d nil = Unit
  FitsItems d (cons x xs) = Fits d x × FitsItems d xs

  pub FitsFields : ℕ → Option Bytes → Fields → Type 0
  FitsFields d prev end = Unit
  FitsFields d prev (field (bytes k) v fs) =
      After prev k
      × (length (show (length k)) ≤ max_int_digits)
      × Fits d v
      × FitsFields d (some k) fs
  FitsFields d prev (field _ v fs) = ⊥

-- An encoding begins with a byte that ends no list and no dict.
pub record Opens (bs : Bytes) : Type 0 where
  pub first : ℕ
  pub others : Bytes
  pub shape : bs ≡ first ∷ others
  pub not_end : (first == b'e') ≡ false

pub record Trip (d : ℕ) (v : Value) : Type 0 where
  pub out : Bytes
  pub encoded : encode_value v ≡ ok out
  pub opens : Opens out
  pub decoded :
      (f : ℕ) (rest : Bytes) → 2 * length out < f → decode_at f d (out ++ rest) ≡ ok (v, rest)

pub record TripItems (d : ℕ) (xs : Items) : Type 0 where
  pub out : Bytes
  pub encoded : encode_items xs ≡ ok out
  pub decoded :
      (f : ℕ) (rest : Bytes)
      → 2 * length out + 1 < f
      → decode_list f d (out ++ b'e' ∷ rest) ≡ ok (xs, rest)

pub record TripFields (d : ℕ) (prev : Option Bytes) (fs : Fields) : Type 0 where
  pub entries : List Entry
  pub out : Bytes
  pub encoded : encode_fields fs ≡ ok entries
  pub ascending : Ascending prev entries
  pub joined : join entries ≡ ok out
  pub decoded :
      (f : ℕ) (rest : Bytes)
      → 2 * length out + 1 < f
      → decode_dict f d prev (out ++ b'e' ∷ rest) ≡ ok (fs, rest)

pub record Prefix (bs : Bytes) : Type 0 where
  pub first : ℕ
  pub others : Bytes
  pub shape : bs ≡ first ∷ others
  pub digit : is_digit first ≡ true

pub put_bytes_Prefix : (raw : Bytes) → Prefix (put_bytes raw)
unfolding put_bytes
put_bytes_Prefix raw =
    let s = show_shape (length raw) in
    record {
      first = s.head;
      others = s.tail ++ b':' ∷ raw;
      shape = rw s.shape refl;
      digit = s.numeral.first;
    }

pub digit_not_end : (c : ℕ) → is_digit c ≡ true → (c == b'e') ≡ false
unfolding is_digit
digit_not_end c h = ground arith

put_bytes-Opens : (raw : Bytes) → Opens (put_bytes raw)
put_bytes-Opens raw =
    let p = put_bytes_Prefix raw in
    record {
      first = p.first;
      others = p.others;
      shape = p.shape;
      not_end = digit_not_end p.first p.digit;
    }

pub not_too_deep : (d : ℕ) → d ≤ max_depth → ltb max_depth d ≡ false
not_too_deep d h = ground arith

pub Trip-int :
    (d : ℕ) (z : ℤ) → d ≤ max_depth → length (digits_of z) ≤ max_int_digits → Trip d (int z)
unfolding encode_value decode_at ℕ_discrete
Trip-int d z h k = record {
  out = b'i' ∷ (int_ascii z ++ b'e' ∷ []);
  encoded = refl;
  opens = record { first = b'i'; others = int_ascii z ++ b'e' ∷ []; shape = refl; not_end = refl };
  decoded = go;
}
  where
    go :
        (f : ℕ) (rest : Bytes)
        → 2 * length (b'i' ∷ (int_ascii z ++ b'e' ∷ [])) < f
        → decode_at f d ((b'i' ∷ (int_ascii z ++ b'e' ∷ [])) ++ rest) ≡ ok (int z, rest)
    go zero rest l = absurd (omega arith)
    go (suc f) rest l = rw (not_too_deep d h, append_assoc) (decode_int-int_ascii z rest k)

at_digit :
    (f d c : ℕ) (cs : Bytes)
    → d ≤ max_depth
    → is_digit c ≡ true
    → decode_at (suc f) d (c ∷ cs) ≡ (do (b, rest) ← decode_bytes (c ∷ cs); ok (bytes b, rest))
unfolding decode_at is_digit
at_digit f d c cs h k = rw (not_too_deep d h) (ground arith)

pub Trip-bytes :
    (d : ℕ) (raw : Bytes)
    → d ≤ max_depth
    → length (show (length raw)) ≤ max_int_digits
    → Trip d (bytes raw)
unfolding encode_value put_bytes
Trip-bytes d raw h k = record {
  out = put_bytes raw;
  encoded = refl;
  opens = put_bytes-Opens raw;
  decoded = go;
}
  where
    go :
        (f : ℕ) (rest : Bytes)
        → 2 * length (put_bytes raw) < f
        → decode_at f d (put_bytes raw ++ rest) ≡ ok (bytes raw, rest)
    go zero rest l = absurd (omega arith)
    go (suc f) rest l =
        let s = show_shape (length raw) in
        let there : decode_bytes (s.head ∷ (s.tail ++ b':' ∷ raw) ++ rest) ≡ ok (raw, rest) =
          rw s.shape at (decode_bytes-put_bytes raw rest k) in
        rw s.shape
          (at_digit f d s.head ((s.tail ++ b':' ∷ raw) ++ rest) h s.numeral.first ∙ rw there refl)
