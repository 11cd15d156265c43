-- ===== src/SettleRound/RoundTrip.antt =====
-- The decoders of dude/consensus/settle_round.py on what its encoders write.
use dude_fs.Prelude.{
  [], ◌∷◌, ◌++◌, map, Bytes, ok, ◌≡◌, refl, length, All, ℕ_discrete, list_eq, nat_eq,
}
use dude_fs.Prelude.Order.{sort_by-All, sort_by-sort_by}
use dude_fs.Codec.{bytes, int}
use dude_fs.Codec.Access.{as_int, as_bytes, as_seq, of_list, to_list}
use dude_fs.Codec.Plain.{tuple}
use dude_fs.Codec.Trip.{Fits}
use dude_fs.Crypto.{digest_size, sig_size}
use dude_fs.Canonical.{hashes_canonical, digest_key}
use dude_fs.Ops.Decode.{digest_of, signature_of}
use dude_fs.Ops.RoundTrip.{to_list-of_list, each-map, fixed_width, decode-encoded, decode_digest}
use dude_fs.SettleRound.Types.{
  Anchors, SettleSig, SettledBlock, anchor_values, encode_settle_sig, identity_bytes,
  encode_settled,
}
use dude_fs.SettleRound.Wire.{acc_size, decode_settle_sig, decode_settled}

pub record AnchorsHaveWidths (a : Anchors) : Type 0 where
  pub prev_block : length a.prev_block ≡ digest_size
  pub state_root : length a.state_root ≡ digest_size
  pub acc_state : length a.acc_state ≡ acc_size
  pub acc_log : length a.acc_log ≡ acc_size

-- If a signature message has digests, accumulators and a signature of their widths, and is within the
-- limits of the codec, then decoding its encoding gives it back.
pub decode_settle_sig-encode_settle_sig :
    (m : SettleSig)
    → length m.slice_hash ≡ digest_size
    → AnchorsHaveWidths m.anchors
    → length m.sig ≡ sig_size
    → Fits 0 (tuple (bytes m.slice_hash ∷ anchor_values m.anchors ++ bytes m.sig ∷ []))
    → decode_settle_sig (encode_settle_sig m) ≡ ok m
unfolding decode_settle_sig encode_settle_sig of_list as_seq to_list as_bytes as_int ℕ_discrete
decode_settle_sig-encode_settle_sig m slice w sig fits =
    rw
      (
        decode-encoded (tuple (bytes m.slice_hash ∷ anchor_values m.anchors ++ bytes m.sig ∷ []))
            fits,
        fixed_width digest_size m.slice_hash slice,
        fixed_width digest_size m.anchors.prev_block w.prev_block,
        fixed_width digest_size m.anchors.state_root w.state_root,
        fixed_width acc_size m.anchors.acc_state w.acc_state,
        fixed_width acc_size m.anchors.acc_log w.acc_log,
        fixed_width sig_size m.sig sig,
      )
      refl

-- Sizes of a settled block: digests, accumulators and signatures of their widths, and both its identity
-- and the whole within the limits of the codec.
pub record IsSized (b : SettledBlock) : Type 0 where
  pub hash_widths : All (λ d. length d ≡ digest_size) b.block.hashes
  pub anchor_widths : AnchorsHaveWidths b.anchors
  pub sig_widths : All (λ s. length s ≡ sig_size) b.multisig.sigs
  pub identity_fits : Fits 0 (
      tuple (
        int b.block.bucket
        ∷ tuple (map bytes (hashes_canonical b.block.hashes))
        ∷ anchor_values b.anchors))
  pub whole_fits : Fits 0 (
      tuple (
        bytes (identity_bytes b)
        ∷ bytes b.multisig.bitmap
        ∷ tuple (map bytes b.multisig.sigs)
        ∷ []))

decode_signature : (s : Bytes) → length s ≡ sig_size → signature_of (bytes s) ≡ ok s
unfolding as_bytes
decode_signature s h = rw (fixed_width sig_size s h) refl

-- If a settled block has digests, accumulators and signatures of their widths, and its identity and the
-- whole are within the limits of the codec, then decoding its encoding gives the block back, with its
-- hashes in ascending order.
pub decode_settled-encode_settled :
    (b : SettledBlock)
    → IsSized b
    → decode_settled (encode_settled b)
      ≡ ok (record b { block = record b.block { hashes = hashes_canonical b.block.hashes } })
unfolding decode_settled encode_settled identity_bytes of_list as_seq to_list as_bytes as_int
    ℕ_discrete
decode_settled-encode_settled b h =
    rw
      (
        decode-encoded
            (tuple (
              bytes (identity_bytes b)
              ∷ bytes b.multisig.bitmap
              ∷ tuple (map bytes b.multisig.sigs)
              ∷ []))
            h.whole_fits,
        decode-encoded
            (tuple (
              int b.block.bucket
              ∷ tuple (map bytes (hashes_canonical b.block.hashes))
              ∷ anchor_values b.anchors))
            h.identity_fits,
        to_list-of_list (map bytes (hashes_canonical b.block.hashes)),
        each-map digest_of bytes (λ d. length d ≡ digest_size) (hashes_canonical b.block.hashes)
            decode_digest
            (sort_by-All digest_key (λ d. length d ≡ digest_size) b.block.hashes h.hash_widths),
        fixed_width digest_size b.anchors.prev_block h.anchor_widths.prev_block,
        fixed_width digest_size b.anchors.state_root h.anchor_widths.state_root,
        fixed_width acc_size b.anchors.acc_state h.anchor_widths.acc_state,
        fixed_width acc_size b.anchors.acc_log h.anchor_widths.acc_log,
        to_list-of_list (map bytes b.multisig.sigs),
        each-map signature_of bytes (λ s. length s ≡ sig_size) b.multisig.sigs decode_signature
            h.sig_widths,
        sort_by-sort_by digest_key b.block.hashes,
      )
      refl
