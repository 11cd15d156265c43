-- ===== src/Codec/Decode.antt =====
-- `decode` and `_decode_at` of dude/core/codec.py. A position in the input is the input from there
-- on, so `len(data) <= pos` is the empty list.
use dude_fs.Prelude.{
  ℕ, zero, suc, ◌+◌, ◌*◌, Bool, true, false, ◌&&◌, Option, none, some, [], ◌∷◌, if◌then◌else◌,
  Bytes, length, take, drop, ltb, ℤ, pos, negsuc, Result, ok, err, ◌>>=◌, ◌>>◌, ◌==◌, list_eq,
  nat_eq,
}
use dude_fs.Prelude.Order.{bytes_lt}
use dude_fs.Codec.Syntax.{
  Value, Items, Fields, int, bytes, seq, dict, nil, cons, end, field, CodecError, duplicate_key,
  trailing_bytes, unexpected_end, too_deep, invalid_tag, negative_value, no_digits, leading_zero,
  negative_zero, no_terminator, too_many_digits, short_bytes, open_list, open_dict, dict_key_tag,
  unordered_keys, out_of_fuel,
}
use dude_fs.Codec.Decimal.{read, is_digit}

abbrev pub max_depth : ℕ
max_depth = 64

abbrev pub max_int_digits : ℕ
max_int_digits = 4096

-- The digits at the front, and what follows them.
unfoldable pub span_digits : Bytes → Bytes × Bytes
unfolding is_digit
span_digits [] = ([], [])
span_digits (c ∷ cs) =
    let more = span_digits cs in if is_digit c then (c ∷ more.0, more.1) else ([], c ∷ cs)

-- `data[pos] == terminator`, in range
unfoldable pub starts : ℕ → Bytes → Bool
starts t [] = false
starts t (c ∷ cs) = c == t

-- `len(digits) > 1 and digits[0] == 0x30`
unfoldable pub has_leading_zero : Bytes → Bool
has_leading_zero (c ∷ d ∷ ds) = c == 48
has_leading_zero _ = false

unfoldable pub negated : Bool → ℕ → ℤ
negated true zero = pos zero
negated true (suc n) = negsuc n
negated false n = pos n

-- From the digits on: the number, and the input from the terminator on.
unfoldable pub read_digits : Bool → ℕ → Bytes × Bytes → Result CodecError (ℤ × Bytes)
unfolding starts has_leading_zero negated
read_digits neg terminator ([], rest) = err no_digits
read_digits neg terminator (d ∷ ds, rest) =
    if has_leading_zero (d ∷ ds)
    then err leading_zero
    else if neg && d ∷ ds == 48 ∷ []
    then err negative_zero
    else if starts terminator rest
    then (if ltb max_int_digits (length (d ∷ ds))
        then err too_many_digits
        else ok (negated neg (read (d ∷ ds)), rest))
    else err no_terminator

unfoldable pub read_int_token : ℕ → Bool → Bytes → Result CodecError (ℤ × Bytes)
unfolding span_digits read_digits
read_int_token terminator allow_negative [] = err no_digits
read_int_token terminator allow_negative (c ∷ cs) =
    if c == b'-'
    then (if allow_negative
        then read_digits true terminator (span_digits cs)
        else err negative_value)
    else read_digits false terminator (span_digits (c ∷ cs))

-- `_decode_int`, from the byte behind the tag on
unfoldable pub decode_int : Bytes → Result CodecError (Value × Bytes)
unfolding read_int_token
decode_int ts = do (n, rest) ← read_int_token b'e' true ts; ok (int n, drop 1 rest)

-- A length is never negative: a minus sign is refused.
abbrev to_length : ℤ → ℕ
to_length (pos n) = n
to_length (negsuc n) = 0

unfoldable pub decode_bytes : Bytes → Result CodecError (Bytes × Bytes)
unfolding read_int_token
decode_bytes ts = do
  (n, colon) ← read_int_token b':' false ts
  let start = drop 1 colon
  let end_of = to_length n
  if ltb (length start) end_of then err short_bytes else ok (take end_of start, drop end_of start)

-- The two tests of a key against the one before it.
unfoldable pub check_order : Option Bytes → Bytes → Result CodecError (Unit {0})
check_order none key = ok tt
check_order (some prev) key =
    if key == prev
    then err duplicate_key
    else if bytes_lt key prev
    then err unordered_keys
    else ok tt

-- Each call costs a unit of fuel; `decode` gives more than the input can use.
unfoldable mutual
  pub decode_at : ℕ → ℕ → Bytes → Result CodecError (Value × Bytes)
  decode_at zero depth ts = err out_of_fuel
  decode_at (suc f) depth [] = err unexpected_end
  decode_at (suc f) depth (tag ∷ ts) =
      let list = (do (xs, rest) ← decode_list f depth ts; ok (seq xs, rest)) in
      let fields = (do (fs, rest) ← decode_dict f depth none ts; ok (dict fs, rest)) in
      let raw = (do (b, rest) ← decode_bytes (tag ∷ ts); ok (bytes b, rest)) in
      if ltb max_depth depth
      then err too_deep
      else if tag == b'i'
      then decode_int ts
      else if tag == b'l'
      then list
      else if tag == b'd'
      then fields
      else if is_digit tag
      then raw
      else err invalid_tag

  -- the loop of `_decode_list`
  pub decode_list : ℕ → ℕ → Bytes → Result CodecError (Items × Bytes)
  decode_list zero depth ts = err out_of_fuel
  decode_list (suc f) depth [] = err open_list
  decode_list (suc f) depth (c ∷ ts) =
      let more = do
        (x, rest) ← decode_at f (suc depth) (c ∷ ts)
        (xs, rest') ← decode_list f depth rest
        ok (cons x xs, rest')
      in if c == b'e' then ok (nil, ts) else more

  -- the loop of `_decode_dict`
  pub decode_dict : ℕ → ℕ → Option Bytes → Bytes → Result CodecError (Fields × Bytes)
  decode_dict zero depth prev ts = err out_of_fuel
  decode_dict (suc f) depth prev [] = err open_dict
  decode_dict (suc f) depth prev (c ∷ ts) =
      let more = do
        (key, rest) ← decode_bytes (c ∷ ts)
        check_order prev key
        (v, rest') ← decode_at f (suc depth) rest
        (fs, rest'') ← decode_dict f depth (some key) rest'
        ok (field (bytes key) v fs, rest'')
      in if c == b'e' then ok (end, ts) else if is_digit c then more else err dict_key_tag

unfoldable pub finish : Value × Bytes → Result CodecError Value
finish (v, []) = ok v
finish (v, c ∷ cs) = err trailing_bytes

unfoldable pub decode : Bytes → Result CodecError Value
unfolding decode_at decode_int decode_bytes check_order finish
decode data_bytes = do r ← decode_at (2 * length data_bytes + 2) 0 data_bytes; finish r
