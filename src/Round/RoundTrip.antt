-- ===== src/Round/RoundTrip.antt =====
-- The messages of dude/consensus/round.py, sent and received.
use dude_fs.Prelude.{map, ok, ◌≡◌, refl, length, All, ℕ_discrete, list_eq, nat_eq}
use dude_fs.Prelude.Order.{sort_by-All}
use dude_fs.Codec.{bytes}
use dude_fs.Codec.Access.{as_int, as_bytes, as_seq, of_list, to_list}
use dude_fs.Codec.Trip.{Fits}
use dude_fs.Crypto.{digest_size, sig_size}
use dude_fs.Canonical.{hashes_canonical, digest_key}
use dude_fs.Ops.{SignedTransaction, raw}
use dude_fs.Ops.Decode.{digest_of}
use dude_fs.Ops.RoundTrip.{
  to_list-of_list, each-map, fixed_width, decode-encoded, decode_digest, IsSized, decode_tx-raw,
}
use dude_fs.Round.Types.{RoundMsg, held, sig_msg, bodies, prev_block_of, bucket_of}
use dude_fs.Round.Wire.{msg_value, encode_msg, decode_msg, tx_of, bucket_of_body}

-- Digests, signatures and transactions of a message have their widths.
abbrev pub PartsFit : RoundMsg → Type 0
PartsFit (held m) = All (λ d. length d ≡ digest_size) m.hashes
PartsFit (sig_msg m) = (length m.slice_hash ≡ digest_size) × (length m.sig ≡ sig_size)
PartsFit (bodies m) = All IsSized m.txs

-- The hashes of a message that advertises them are put in ascending order.
abbrev pub in_order : RoundMsg → RoundMsg
in_order (held m) = held (record m { hashes = hashes_canonical m.hashes })
in_order (sig_msg m) = sig_msg m
in_order (bodies m) = bodies m

tx_of-raw : (tx : SignedTransaction) → IsSized tx → tx_of (bytes (raw tx)) ≡ ok tx
unfolding as_bytes
tx_of-raw tx h = decode_tx-raw tx h

-- If the digests, signatures and transactions of a round message have their widths, and the message is
-- within the limits of the codec, then decoding its encoding under its verb gives the message back, with
-- advertised hashes in ascending order, and its bucket can be read from the bytes alone.
pub decode_msg-encode_msg :
    (m : RoundMsg)
    → length (prev_block_of m) ≡ digest_size
    → PartsFit m
    → Fits 0 (msg_value m)
    → (decode_msg (encode_msg m).0 (encode_msg m).1 ≡ ok (in_order m))
      × (bucket_of_body (encode_msg m).1 ≡ ok (bucket_of m))
unfolding decode_msg encode_msg bucket_of_body of_list as_seq to_list as_bytes as_int ℕ_discrete
    hashes_canonical
decode_msg-encode_msg (held m) w h fits =
    let back = decode-encoded (msg_value (held m)) fits in
    (
      rw
          (
            back,
            to_list-of_list (map bytes (hashes_canonical m.hashes)),
            each-map digest_of bytes (λ d. length d ≡ digest_size) (hashes_canonical m.hashes)
                decode_digest (sort_by-All digest_key (λ d. length d ≡ digest_size) m.hashes h),
            fixed_width digest_size m.prev_block w,
          )
          refl,
      rw back refl,
    )
decode_msg-encode_msg (sig_msg m) w h fits =
    let back = decode-encoded (msg_value (sig_msg m)) fits in
    (
      rw
          (
            back,
            fixed_width digest_size m.prev_block w,
            fixed_width digest_size m.slice_hash h.0,
            fixed_width sig_size m.sig h.1,
          )
          refl,
      rw back refl,
    )
decode_msg-encode_msg (bodies m) w h fits =
    let back = decode-encoded (msg_value (bodies m)) fits in
    (
      rw
          (
            back,
            to_list-of_list (map (λ tx. bytes (raw tx)) m.txs),
            each-map tx_of (λ tx. bytes (raw tx)) IsSized m.txs tx_of-raw h,
            fixed_width digest_size m.prev_block w,
          )
          refl,
      rw back refl,
    )
