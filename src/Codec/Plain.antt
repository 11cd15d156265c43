-- ===== src/Codec/Plain.antt =====
-- Values of integers, byte strings and tuples only, which is what most callers give `encode`.
use dude_fs.Prelude.{◌≡◌, refl, List, [], ◌∷◌, ◌++◌, Bytes, Result, ok, err}
use dude_fs.Codec.Syntax.{Value, Items, CodecError, int, bytes, seq, dict, bool, other, nil, cons}
use dude_fs.Codec.Access.{of_list}
use dude_fs.Codec.Encode.{encode, encode_value, encode_items}

unfoldable mutual
  pub Plain : Value → Type 0
  Plain (int z) = Unit
  Plain (bytes b) = Unit
  Plain (seq xs) = PlainItems xs
  Plain (dict fs) = ⊥
  Plain (bool b) = ⊥
  Plain other = ⊥

  pub PlainItems : Items → Type 0
  PlainItems nil = Unit
  PlainItems (cons x xs) = Plain x × PlainItems xs

abbrev pub result_bytes : Result CodecError Bytes → Bytes
result_bytes (ok out) = out
result_bytes (err e) = []

-- The bytes of a plain value.
unfoldable pub encoded : Value → Bytes
encoded v = result_bytes (encode v)

mutual
  unfolding Plain encode_value

  Plain-value : (v : Value) → Plain v → (out : Bytes) × (encode_value v ≡ ok out)
  Plain-value (int z) h = (_, refl)
  Plain-value (bytes b) h = (_, refl)
  Plain-value (seq xs) h =
      let (out, e) = PlainItems-items xs h in (b'l' ∷ (out ++ b'e' ∷ []), rw e refl)
  Plain-value (dict fs) h = absurd h
  Plain-value (bool b) h = absurd h
  Plain-value other h = absurd h

  PlainItems-items : (xs : Items) → PlainItems xs → (out : Bytes) × (encode_items xs ≡ ok out)
  PlainItems-items nil h = ([], refl)
  PlainItems-items (cons x xs) h =
      let (a, p) = Plain-value x h.0 in
      let (b, q) = PlainItems-items xs h.1 in (a ++ b, rw (p, q) refl)

-- `encode` does not raise on a plain value.
pub encode-Plain : (v : Value) → Plain v → encode v ≡ ok (encoded v)
unfolding encode encoded
encode-Plain v h = let (out, e) = Plain-value v h in rw e refl

-- A tuple of plain values.
abbrev pub tuple : List Value → Value
tuple xs = seq (of_list xs)
