-- ===== src/Chain.antt =====
-- dude/sync/chain.py: a walk over settled blocks from a trusted hash to their last block.
pub mod Walk
pub mod Settled
use dude_fs.Prelude.{
  Bool, true, false, not, Option, none, some, List, [], ◌∷◌, Bytes, Result, ok, err, ◌>>=◌, ◌==◌,
  list_eq, nat_eq, if◌then◌else◌,
}
use dude_fs.Crypto.{Suite}
use dude_fs.Round.Types.{block_slice_hash}
use dude_fs.SettleRound.Types.{SettledBlock, settle_payload, block_hash}
use dude_fs.Authorization.{Authorization, AuthorizationError, authorized}

pub data ChainRefusal : Type 0 where
  invalid nothing_to_walk broken_link unauthorised : ChainRefusal

-- What `advance` returns: the head, or why there is none.
pub data Advance : Type 0 where
  refused : ChainRefusal → Advance
  head_is : SettledBlock → Advance

-- The authorization that is asked of a block.
abbrev pub authorization_of : Suite → List Bytes → Bytes → SettledBlock → Authorization
authorization_of c roster anchor b = record {
  multisig = b.multisig;
  payload = settle_payload (block_slice_hash c b.block) b.anchors;
  roster = roster;
  anchor = anchor;
}

module _ (c : Suite) (roster : List Bytes) (anchor : Bytes) where
  -- The loop, with the head so far.
  unfoldable pub walk : Bytes → SettledBlock → List SettledBlock → Result AuthorizationError Advance
  unfolding authorized block_hash
  walk prev head [] = ok (head_is head)
  walk prev head (b ∷ bs) =
      let rest = walk (block_hash c b) b bs in
      if not (b.anchors.prev_block == prev)
      then ok (refused broken_link)
      else authorized c (authorization_of c roster anchor b) >>= λ speaks.
          if not speaks then ok (refused unauthorised) else rest

  -- `head` is None before the first block, which the loop replaces.
  unfoldable pub advance : Bytes → List SettledBlock → Result AuthorizationError Advance
  unfolding walk
  advance from [] = ok (refused nothing_to_walk)
  advance from (b ∷ bs) = walk from b (b ∷ bs)
