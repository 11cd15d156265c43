-- ===== src/Round/Wire.antt =====
-- The wire format of the messages of dude/consensus/round.py. There each error is wrapped in one
-- exception that names it; here it is the error itself, and an unknown verb is an unknown tag.
use dude_fs.Prelude.{ℤ, none, some, [], ◌∷◌, map, Bytes, Result, ok, err, ◌>>=◌}
use dude_fs.Codec.{Value, int, bytes}
use dude_fs.Codec.Access.{as_bytes, as_seq}
use dude_fs.Codec.Decode.{decode}
use dude_fs.Codec.Plain.{encoded, tuple}
use dude_fs.Canonical.{hashes_canonical}
use dude_fs.Ops.{SignedTransaction, raw}
use dude_fs.Ops.Decode.{
  DecodeError, unknown_tag, from_codec, item, int_at, digest_of, signature_of, each, decode_tx,
}
use dude_fs.Round.Types.{Held, Sig, Bodies, RoundMsg, held, sig_msg, bodies}

-- The verbs of round messages, and any other.
pub data Verb : Type 0 where
  held_verb sig_verb bodies_verb other_verb : Verb

abbrev pub held_value : Held → Value
held_value m =
    tuple (int m.bucket ∷ bytes m.prev_block ∷ tuple (map bytes (hashes_canonical m.hashes)) ∷ [])

abbrev pub sig_value : Sig → Value
sig_value m = tuple (int m.bucket ∷ bytes m.prev_block ∷ bytes m.slice_hash ∷ bytes m.sig ∷ [])

abbrev pub bodies_value : Bodies → Value
bodies_value m =
    tuple (int m.bucket ∷ bytes m.prev_block ∷ tuple (map (λ tx. bytes (raw tx)) m.txs) ∷ [])

-- `encode_inner` gives `codec.encode` this value.
abbrev pub msg_value : RoundMsg → Value
msg_value (held m) = held_value m
msg_value (sig_msg m) = sig_value m
msg_value (bodies m) = bodies_value m

abbrev pub verb_of : RoundMsg → Verb
verb_of (held m) = held_verb
verb_of (sig_msg m) = sig_verb
verb_of (bodies m) = bodies_verb

unfoldable pub encode_msg : RoundMsg → Verb × Bytes
unfolding encoded
encode_msg m = (verb_of m, encoded (msg_value m))

unfoldable pub decode_held : Bytes → Result DecodeError RoundMsg
unfolding each
decode_held body = do
  v ← from_codec (decode body)
  p ← from_codec (as_seq v (some 3))
  hs ← from_codec (as_seq (item 2 p) none)
  hashes ← each digest_of hs
  bucket ← int_at 0 p
  prev_block ← digest_of (item 1 p)
  ok (held (record { bucket = bucket; prev_block = prev_block; hashes = hashes }))

unfoldable pub decode_sig : Bytes → Result DecodeError RoundMsg
decode_sig body = do
  v ← from_codec (decode body)
  p ← from_codec (as_seq v (some 4))
  bucket ← int_at 0 p
  prev_block ← digest_of (item 1 p)
  slice_hash ← digest_of (item 2 p)
  sig ← signature_of (item 3 p)
  ok (
      sig_msg
        (record { bucket = bucket; prev_block = prev_block; slice_hash = slice_hash; sig = sig }))

abbrev pub tx_of : Value → Result DecodeError SignedTransaction
tx_of v = from_codec (as_bytes v) >>= λ raw_tx. decode_tx raw_tx

unfoldable pub decode_bodies : Bytes → Result DecodeError RoundMsg
unfolding each decode_tx
decode_bodies body = do
  v ← from_codec (decode body)
  p ← from_codec (as_seq v (some 3))
  xs ← from_codec (as_seq (item 2 p) none)
  txs ← each tx_of xs
  bucket ← int_at 0 p
  prev_block ← digest_of (item 1 p)
  ok (bodies (record { bucket = bucket; prev_block = prev_block; txs = txs }))

unfoldable pub decode_msg : Verb → Bytes → Result DecodeError RoundMsg
unfolding decode_held decode_sig decode_bodies
decode_msg held_verb body = decode_held body
decode_msg sig_verb body = decode_sig body
decode_msg bodies_verb body = decode_bodies body
decode_msg other_verb body = err unknown_tag

-- `bucket_of`, which reads the bucket of a message without the rest. An empty tuple, on which the code
-- fails with an IndexError, gives an error here too.
unfoldable pub bucket_of_body : Bytes → Result DecodeError ℤ
bucket_of_body body = do v ← from_codec (decode body); p ← from_codec (as_seq v none); int_at 0 p
