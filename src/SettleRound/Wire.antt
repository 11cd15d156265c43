-- ===== src/SettleRound/Wire.antt =====
-- The decoders of dude/consensus/settle_round.py. There each error is wrapped in one exception that
-- names it; here it is the error itself.
use dude_fs.Prelude.{ℕ, ◌+◌, none, some, List, Bytes, Result, ok, ◌>>=◌}
use dude_fs.Codec.{Value}
use dude_fs.Codec.Access.{as_bytes, as_seq}
use dude_fs.Codec.Decode.{decode}
use dude_fs.Crypto.{fixed}
use dude_fs.Canonical.{hashes_canonical}
use dude_fs.Ops.Decode.{
  DecodeError, from_codec, from_crypto, item, int_at, bytes_at, digest_of, signature_of, each,
}
use dude_fs.SettleRound.Types.{Anchors, SettleSig, SettledBlock}

-- ACC_SIZE: the bytes of a point of ed25519
abbrev pub acc_size : ℕ
acc_size = 32

abbrev pub accumulator_of : Value → Result DecodeError Bytes
accumulator_of v = from_codec (as_bytes v) >>= λ raw. from_crypto (fixed acc_size raw)

-- The anchors from index `i` on.
unfoldable pub anchors_at : ℕ → List Value → Result DecodeError Anchors
anchors_at i p = do
  block_num ← int_at i p
  height ← int_at (i + 1) p
  prev_block ← digest_of (item (i + 2) p)
  state_root ← digest_of (item (i + 3) p)
  acc_state ← accumulator_of (item (i + 4) p)
  acc_log ← accumulator_of (item (i + 5) p)
  ok (record {
    block_num = block_num;
    height = height;
    prev_block = prev_block;
    state_root = state_root;
    acc_state = acc_state;
    acc_log = acc_log;
  })

unfoldable pub decode_settle_sig : Bytes → Result DecodeError SettleSig
unfolding anchors_at
decode_settle_sig body = do
  v ← from_codec (decode body)
  p ← from_codec (as_seq v (some 8))
  slice_hash ← digest_of (item 0 p)
  anchors ← anchors_at 1 p
  sig ← signature_of (item 7 p)
  ok (record { slice_hash = slice_hash; anchors = anchors; sig = sig })

unfoldable pub decode_settled : Bytes → Result DecodeError SettledBlock
unfolding anchors_at each hashes_canonical
decode_settled raw = do
  v ← from_codec (decode raw)
  outer ← from_codec (as_seq v (some 3))
  inner ← bytes_at 0 outer
  w ← from_codec (decode inner)
  identity ← from_codec (as_seq w (some 8))
  bucket ← int_at 0 identity
  hs ← from_codec (as_seq (item 1 identity) none)
  hashes ← each digest_of hs
  anchors ← anchors_at 2 identity
  bitmap ← bytes_at 1 outer
  ss ← from_codec (as_seq (item 2 outer) none)
  sigs ← each signature_of ss
  ok (record {
    block = record { bucket = bucket; hashes = hashes_canonical hashes };
    anchors = anchors;
    multisig = record { bitmap = bitmap; sigs = sigs };
  })

-- `slice_hash_of`, which reads the slice hash of a message without the rest. An empty tuple, on which the
-- code fails with an IndexError, gives an error here too.
unfoldable pub slice_hash_of_body : Bytes → Result DecodeError Bytes
slice_hash_of_body body = do
  v ← from_codec (decode body)
  p ← from_codec (as_seq v none)
  digest_of (item 0 p)
