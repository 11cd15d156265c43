-- ===== src/Tests/Ops.antt =====
-- A transaction of no steps through its encoding.
use dude_fs.Prelude.{pos, [], ◌∷◌, ◌++◌, Bytes, ok, ◌≡◌, refl, arith}
use dude_fs.Codec.{show}
use dude_fs.Codec.Encode.{encode, put_bytes}
use dude_fs.Codec.Access.{of_list}
use dude_fs.Codec.Tokens.{digits_of}
use dude_fs.Codec.Trip.{Fits}
use dude_fs.Codec.Plain.{encoded}
use dude_fs.Ops.{SignedTransaction, raw, body_bytes, body_value, encode_steps}
use dude_fs.Prelude.{false, true}
use dude_fs.Ops.{Transaction, set, del, add, then_step}
use dude_fs.Ops.Decode.{decode_tx}
use dude_fs.Ops.RoundTrip.{IsSized, decode_tx-raw}

abbrev eight : Bytes
eight = 1 ∷ 2 ∷ 3 ∷ 4 ∷ 5 ∷ 6 ∷ 7 ∷ 8 ∷ []

abbrev key : Bytes
key = eight ++ eight ++ eight ++ eight

abbrev empty : SignedTransaction
empty = record { author = key; ts = pos 5; txn = record { steps = [] }; sig = key ++ key }

empty-IsSized : IsSized empty
unfolding Fits digits_of show body_bytes body_value encode_steps encoded encode put_bytes of_list
empty-IsSized = record {
  key_width = refl;
  sig_width = refl;
  guard_widths = tt;
  body_fits = (
    omega arith,
    ((omega arith, omega arith), ((omega arith, omega arith), ((omega arith, tt), tt))),
  );
  whole_fits = (omega arith, ((omega arith, omega arith), ((omega arith, omega arith), tt)));
}

decode_tx-raw_example : decode_tx (raw empty) ≡ ok empty
decode_tx-raw_example = decode_tx-raw empty empty-IsSized

-- Two writes to one slot and a deletion.
abbrev busy : Transaction
busy =
    add
      (then_step
        (then_step (record { steps = [] }) (set (pos 1) (97 ∷ []) (1 ∷ []) (pos 0)) [] false)
        (del (pos 1) (98 ∷ [])) [] false)
      (then_step (record { steps = [] }) (set (pos 1) (97 ∷ []) (2 ∷ []) (pos 0)) [] true)
