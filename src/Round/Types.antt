-- ===== src/Round/Types.antt =====
-- Messages and state of a round.
use dude_fs.Prelude.{ℕ, ℤ, Bool, Option, List, [], ◌∷◌, Bytes, map, ascii}
use dude_fs.Prelude.Dict.{Dict}
use dude_fs.Codec.{int, bytes}
use dude_fs.Codec.Plain.{encoded, tuple}
use dude_fs.Crypto.{Suite}
use dude_fs.Ops.{SignedTransaction}
use dude_fs.Canonical.{hashes_canonical}

pub record Held : Type 0 where
  pub bucket : ℤ
  pub prev_block : Bytes
  pub hashes : List Bytes

pub record Sig : Type 0 where
  pub bucket : ℤ
  pub prev_block : Bytes
  pub slice_hash : Bytes
  pub sig : Bytes

pub record Bodies : Type 0 where
  pub bucket : ℤ
  pub prev_block : Bytes
  pub txs : List SignedTransaction

pub data RoundMsg : Type 0 where
  held : Held → RoundMsg
  sig_msg : Sig → RoundMsg
  bodies : Bodies → RoundMsg

abbrev pub bucket_of : RoundMsg → ℤ
bucket_of (held m) = m.bucket
bucket_of (sig_msg m) = m.bucket
bucket_of (bodies m) = m.bucket

abbrev pub prev_block_of : RoundMsg → Bytes
prev_block_of (held m) = m.prev_block
prev_block_of (sig_msg m) = m.prev_block
prev_block_of (bodies m) = m.prev_block

-- `Recipient.ALL`, or a peer.
pub data Target : Type 0 where
  everyone : Target
  peer : Bytes → Target

unfoldable pub sig_payload : ℤ → Bytes → Bytes → Bytes
unfolding encoded
sig_payload bucket prev_block slice_hash = encoded (
    tuple
      (bytes (ascii "dude.round.slice") ∷ int bucket ∷ bytes prev_block ∷ bytes slice_hash ∷ []))

pub record Block : Type 0 where
  pub bucket : ℤ
  pub hashes : List Bytes

module _ (c : Suite) where
  unfoldable pub slice_hash_of : ℤ → List Bytes → Bytes
  unfolding encoded hashes_canonical
  slice_hash_of bucket hashes =
      c.h (encoded (tuple (int bucket ∷ tuple (map bytes (hashes_canonical hashes)) ∷ [])))

  abbrev pub block_slice_hash : Block → Bytes
  block_slice_hash b = slice_hash_of b.bucket b.hashes

  -- Sig.sign and Sig.verify
  unfoldable pub sign_slice : Bytes → ℤ → Bytes → Bytes → Sig
  unfolding sig_payload
  sign_slice seed bucket prev_block slice_hash = record {
    bucket = bucket;
    prev_block = prev_block;
    slice_hash = slice_hash;
    sig = c.sign seed (sig_payload bucket prev_block slice_hash);
  }

  unfoldable pub verify_sig : Sig → Bytes → Bool
  unfolding sig_payload
  verify_sig m pk = c.verify pk (sig_payload m.bucket m.prev_block m.slice_hash) m.sig

pub data State : Type 0 where
  collect finalize gone was_abandoned : State

-- The fields of `Round`; a keypair is its seed. `screen` tells which hashes of a candidate batch stay.
pub record Round : Type 0 where
  pub bucket : ℤ
  pub seed : Bytes
  pub me : Bytes
  pub roster : List Bytes
  pub prev_block : Bytes
  pub screen : List SignedTransaction → List Bytes
  pub quorum : ℕ
  pub state : State
  pub now : ℕ
  pub close_by : ℕ
  pub abandon_by : ℕ
  pub local_bodies : Option (Dict Bytes SignedTransaction)
  pub peer_holds : Dict Bytes (List Bytes)
  pub peer_sigs : Dict Bytes Sig
  pub my_sig : Option Sig
  pub equivocations : List (Bytes × Sig × Sig)
  pub divergences : List (Bytes × Bytes)
  pub gap_attempts : Dict (Bytes × Bytes) ℕ
  pub ratified : Option Block
  pub slice_bodies : List SignedTransaction
  pub surviving : List SignedTransaction
  pub outbox : List (Target × RoundMsg)
  pub pending_slice_hashes : List Bytes

pub data RoundError : Type 0 where
  not_in_roster close_in_past abandon_before_close add_local_twice wrong_state clock_went_back
        not_ratified no_quorum :
      RoundError
