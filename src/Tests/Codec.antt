-- ===== src/Tests/Codec.antt =====
-- Runs of the codec on small inputs.
use dude_fs.Prelude.{arith, Bytes, ◌≢◌, ◌≡◌, refl, pos, negsuc, ok, err, [], ◌∷◌}
use dude_fs.Prelude.Order.{sort_by, insert_by, bytes_lt}
use dude_fs.Codec.{
  Value, int, bytes, seq, dict, nil, cons, end, field, leading_zero, unordered_keys, short_bytes,
  out_of_fuel,
}
use dude_fs.Codec.Encode.{encode, encode_entries, put_bytes}
use dude_fs.Codec.Decode.{decode}
use dude_fs.Codec.Tokens.{digits_of}
use dude_fs.Codec.Trip.{Fits}
use dude_fs.Codec.RoundTrip.{decode-encode}
use dude_fs.Codec.Canonical.{encode-decode}
use dude_fs.Codec.Ends.{decode_total}
use dude_fs.Prelude.{list_discrete, ℕ_discrete}
use dude_fs.Codec.{show, read}

program : Unit {0}
unfolding encode decode sort_by insert_by bytes_lt list_discrete ℕ_discrete show read put_bytes
    encode_entries
program = tt

-- li12e2:hie
mixed :
    encode (seq (cons (int (pos 12)) (cons (bytes (104 ∷ 105 ∷ [])) nil)))
    ≡ ok (108 ∷ 105 ∷ 49 ∷ 50 ∷ 101 ∷ 50 ∷ 58 ∷ 104 ∷ 105 ∷ 101 ∷ [])
unfolding program
mixed = refl

-- di out of order
sorted_dict :
    encode
      (dict (field (bytes (98 ∷ [])) (int (pos 0)) (field (bytes (97 ∷ [])) (int (negsuc 0)) end)))
    ≡ ok (100 ∷ 49 ∷ 58 ∷ 97 ∷ 105 ∷ 45 ∷ 49 ∷ 101 ∷ 49 ∷ 58 ∷ 98 ∷ 105 ∷ 48 ∷ 101 ∷ 101 ∷ [])
unfolding program
sorted_dict = refl

back :
    decode (100 ∷ 49 ∷ 58 ∷ 97 ∷ 105 ∷ 45 ∷ 49 ∷ 101 ∷ 49 ∷ 58 ∷ 98 ∷ 105 ∷ 48 ∷ 101 ∷ 101 ∷ [])
    ≡ ok (
        dict (field (bytes (97 ∷ [])) (int (negsuc 0)) (field (bytes (98 ∷ [])) (int (pos 0)) end)))
unfolding program
back = refl

refused :
    (decode (105 ∷ 48 ∷ 49 ∷ 101 ∷ []) ≡ err leading_zero)
    × (decode (100 ∷ 49 ∷ 58 ∷ 98 ∷ 48 ∷ 58 ∷ 49 ∷ 58 ∷ 97 ∷ 48 ∷ 58 ∷ 101 ∷ [])
        ≡ err unordered_keys)
    × (decode (53 ∷ 58 ∷ 98 ∷ []) ≡ err short_bytes)
unfolding program
refused = (refl, refl, refl)

-- A dict with one entry.
abbrev small : Value
small = dict (field (bytes (97 ∷ [])) (int (negsuc 0)) end)

decode-encode_example : (out : Bytes) × (encode small ≡ ok out) × (decode out ≡ ok small)
unfolding Fits digits_of show
decode-encode_example =
    decode-encode small (omega arith, (tt, omega arith, (omega arith, omega arith), tt))

small_read : decode (100 ∷ 49 ∷ 58 ∷ 97 ∷ 105 ∷ 45 ∷ 49 ∷ 101 ∷ 101 ∷ []) ≡ ok small
unfolding program
small_read = refl

encode-decode_example : encode small ≡ ok (100 ∷ 49 ∷ 58 ∷ 97 ∷ 105 ∷ 45 ∷ 49 ∷ 101 ∷ 101 ∷ [])
encode-decode_example =
    encode-decode (100 ∷ 49 ∷ 58 ∷ 97 ∷ 105 ∷ 45 ∷ 49 ∷ 101 ∷ 101 ∷ []) small small_read

decode_total_example : decode (100 ∷ 49 ∷ []) ≢ err out_of_fuel
decode_total_example = decode_total (100 ∷ 49 ∷ [])
