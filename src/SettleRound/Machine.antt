-- ===== src/SettleRound/Machine.antt =====
-- The methods of `SettleRound`.
use dude_fs.Prelude.{
  ℕ, suc, ◌+◌, Bool, true, false, not, ◌&&◌, none, some, List, [], ◌∷◌, ◌++◌, Bytes, Result, ok,
  err, ◌==◌, list_eq, nat_eq, if◌then◌else◌, ltb, leb, length, contains,
}
use dude_fs.Prelude.Dict.{Dict, lookup, insert}
use dude_fs.Crypto.{Suite}
use dude_fs.Crypto.Bitmap.{combine}
use dude_fs.Quorum.{size}
use dude_fs.Round.Types.{Block, Target, everyone, block_slice_hash}
use dude_fs.SettleRound.Types.{
  Anchors, same_anchors, SettleSig, sign_anchors, verify_settle_sig, SettleState, collecting,
  has_settled, was_abandoned, SettleRound, SettleError, not_in_roster, bad_bitmap, no_quorum,
}

abbrev pub is_collecting : SettleState → Bool
is_collecting collecting = true
is_collecting _ = false

-- `{i: sigs[m] for i, m in enumerate(roster) if m in sigs}`, in ascending order of `i`
unfoldable pub shares_from : ℕ → List Bytes → Dict Bytes Bytes → List (ℕ × Bytes)
shares_from i [] sigs = []
shares_from i (m ∷ ms) sigs =
    let rest = shares_from (suc i) ms sigs in
    elim (lookup m sigs) [ none ↦ rest | some sig ↦ (i, sig) ∷ rest ]

unfoldable pub try_settle : SettleRound → Result SettleError SettleRound
unfolding shares_from
try_settle r =
    if not (is_collecting r.state)
    then ok r
    else if ltb (length r.sigs) r.quorum
    then ok r
    else elim (combine (shares_from 0 r.roster r.sigs) (length r.roster + 1)) [
      | err _ ↦ err bad_bitmap
      | ok multisig ↦ ok (record r {
        settled = some (record { block = r.block; anchors = r.anchors; multisig = multisig });
        state = has_settled;
      })
    ]

module _ (c : Suite) where
  unfoldable pub start : Block → Bytes → List Bytes → Anchors → ℕ → Result SettleError SettleRound
  unfolding try_settle sign_anchors
  start block seed roster anchors abandon_by =
      if not (contains (c.public seed) roster)
      then err not_in_roster
      else elim (size (length roster)) [
        | err _ ↦ err no_quorum
        | ok q ↦
            let mine = sign_anchors c seed (block_slice_hash c block) anchors in
            try_settle (record {
              block = block;
              seed = seed;
              me = c.public seed;
              roster = roster;
              quorum = q;
              anchors = anchors;
              slice_hash = block_slice_hash c block;
              abandon_by = abandon_by;
              sigs = (c.public seed, mine.sig) ∷ [];
              divergences = [];
              outbox = (everyone, mine) ∷ [];
              state = collecting;
              settled = none;
            })
      ]

  unfoldable pub receive : SettleSig → Bytes → SettleRound → Result SettleError SettleRound
  unfolding try_settle verify_settle_sig same_anchors
  receive msg from r =
      if not (contains from r.roster)
      then ok r
      else if from == r.me
      then ok r
      else if not (msg.slice_hash == r.slice_hash)
      then ok r
      else if not (verify_settle_sig c msg from)
      then ok r
      else if not (same_anchors msg.anchors r.anchors)
      then ok (record r { divergences = r.divergences ++ (from, msg.anchors) ∷ [] })
      else if not (is_collecting r.state)
      then ok r
      else try_settle (record r { sigs = insert from msg.sig r.sigs })

unfoldable pub tick : ℕ → SettleRound → SettleRound
tick now r =
    if is_collecting r.state && leb r.abandon_by now then record r { state = was_abandoned } else r

unfoldable pub drain : SettleRound → List (Target × SettleSig) × SettleRound
drain r = (r.outbox, record r { outbox = [] })
