-- ===== src/SettleRound/Types.antt =====
-- Messages, blocks and state of a settle round.
use dude_fs.Prelude.{
  ℕ, ℤ, Bool, ◌&&◌, Option, List, [], ◌∷◌, ◌++◌, map, Bytes, ascii, ◌==◌, ℤ_eq, list_eq, nat_eq,
}
use dude_fs.Prelude.Dict.{Dict}
use dude_fs.Codec.{Value, int, bytes}
use dude_fs.Codec.Plain.{encoded, tuple}
use dude_fs.Crypto.{Suite}
use dude_fs.Crypto.Bitmap.{MultiSig}
use dude_fs.Canonical.{hashes_canonical}
use dude_fs.Round.Types.{Block, Target}

pub record Anchors : Type 0 where
  pub block_num : ℤ
  pub height : ℤ
  pub prev_block : Bytes
  pub state_root : Bytes
  pub acc_state : Bytes
  pub acc_log : Bytes

-- `==` of two dataclasses
unfoldable pub same_anchors : Anchors → Anchors → Bool
same_anchors a b =
    a.block_num == b.block_num
    && (a.height == b.height
        && (a.prev_block == b.prev_block
            && (a.state_root == b.state_root
                && (a.acc_state == b.acc_state && a.acc_log == b.acc_log))))

pub record SettleSig : Type 0 where
  pub slice_hash : Bytes
  pub anchors : Anchors
  pub sig : Bytes

abbrev pub anchor_values : Anchors → List Value
anchor_values a =
    int a.block_num
    ∷ int a.height
    ∷ bytes a.prev_block
    ∷ bytes a.state_root
    ∷ bytes a.acc_state
    ∷ bytes a.acc_log
    ∷ []

unfoldable pub settle_payload : Bytes → Anchors → Bytes
unfolding encoded
settle_payload slice_hash anchors =
    encoded
      (tuple (bytes (ascii "dude.settle_round.anchors") ∷ bytes slice_hash ∷ anchor_values anchors))

-- `SettleSig._encode`
unfoldable pub encode_settle_sig : SettleSig → Bytes
unfolding encoded
encode_settle_sig m =
    encoded (tuple (bytes m.slice_hash ∷ anchor_values m.anchors ++ bytes m.sig ∷ []))

pub record SettledBlock : Type 0 where
  pub block : Block
  pub anchors : Anchors
  pub multisig : MultiSig

-- `_identity_bytes` and `encode` of `SettledBlock`
unfoldable pub identity_bytes : SettledBlock → Bytes
unfolding encoded hashes_canonical
identity_bytes b = encoded (
    tuple (
      int b.block.bucket
      ∷ tuple (map bytes (hashes_canonical b.block.hashes))
      ∷ anchor_values b.anchors))

unfoldable pub encode_settled : SettledBlock → Bytes
unfolding identity_bytes encoded
encode_settled b = encoded (
    tuple
      (bytes (identity_bytes b) ∷ bytes b.multisig.bitmap ∷ tuple (map bytes b.multisig.sigs) ∷ []))

module _ (c : Suite) where
  unfoldable pub sign_anchors : Bytes → Bytes → Anchors → SettleSig
  unfolding settle_payload
  sign_anchors seed slice_hash anchors = record {
    slice_hash = slice_hash;
    anchors = anchors;
    sig = c.sign seed (settle_payload slice_hash anchors);
  }

  unfoldable pub verify_settle_sig : SettleSig → Bytes → Bool
  unfolding settle_payload
  verify_settle_sig m pk = c.verify pk (settle_payload m.slice_hash m.anchors) m.sig

  unfoldable pub block_hash : SettledBlock → Bytes
  unfolding identity_bytes
  block_hash b = c.h (identity_bytes b)

  unfoldable pub genesis_stamp : Bytes → Bytes
  genesis_stamp manager = c.h (ascii "dude.genesis:" ++ manager)

pub data SettleState : Type 0 where
  collecting has_settled was_abandoned : SettleState

-- The fields of `SettleRound`; a keypair is its seed.
pub record SettleRound : Type 0 where
  pub block : Block
  pub seed : Bytes
  pub me : Bytes
  pub roster : List Bytes
  pub quorum : ℕ
  pub anchors : Anchors
  pub slice_hash : Bytes
  pub abandon_by : ℕ
  pub sigs : Dict Bytes Bytes
  pub divergences : List (Bytes × Anchors)
  pub outbox : List (Target × SettleSig)
  pub state : SettleState
  pub settled : Option SettledBlock

pub data SettleError : Type 0 where
  not_in_roster bad_bitmap no_quorum : SettleError
