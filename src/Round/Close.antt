-- ===== src/Round/Close.antt =====
-- The end of a round: `_finalize`, `_abandon`, `tick` and the accessors.
use dude_fs.Prelude.{
  ℕ, Bool, true, false, not, ◌&&◌, none, some, List, [], ◌∷◌, Bytes, if◌then◌else◌, ltb, leb,
  contains, select, list_eq, nat_eq, prod_eq, ℤ_eq, Result, ok, err,
}
use dude_fs.Prelude.Dict.{Dict, keys, values, lookup, insert}
use dude_fs.Crypto.{Suite}
use dude_fs.Ops.{SignedTransaction, op_hash}
use dude_fs.Canonical.{bodies_canonical, filter_batch, op_hashes}
use dude_fs.Round.Types.{
  RoundMsg, sig_msg, Target, everyone, slice_hash_of, sign_slice, finalize, gone, was_abandoned,
  Round, RoundError, wrong_state, clock_went_back, not_ratified,
}
use dude_fs.Round.Slice.{compute_slice}
use dude_fs.Round.Machine.{is_collect, is_finalize, post, try_ratify}

module _ (c : Suite) where
  abbrev pub pick : Dict Bytes SignedTransaction → List Bytes → List SignedTransaction
  pick local [] = []
  pick local (d ∷ ds) = elim (lookup d local) [
    | none ↦ pick local ds
    | some tx ↦ tx ∷ pick local ds
  ]

  -- The candidate slice, cut down to what the screen of the round says can be applied.
  unfoldable pub applicable : Dict Bytes SignedTransaction → Round → List SignedTransaction
  unfolding compute_slice bodies_canonical filter_batch
  applicable local r =
      let candidate = bodies_canonical c (pick local (compute_slice c r (keys local))) in
      filter_batch c candidate (r.screen candidate)

  -- What is left of the local bodies.
  abbrev pub left_over : Dict Bytes SignedTransaction → List Bytes → List SignedTransaction
  left_over local slice_hashes =
      bodies_canonical c (select (λ tx. not (contains (op_hash c tx) slice_hashes)) (values local))

  unfoldable pub finalize_round : Round → Round
  unfolding applicable slice_hash_of sign_slice try_ratify bodies_canonical
  finalize_round r = elim r.local_bodies [
    | none ↦ r
    | some local ↦
        let txs = applicable local r in
        let slice_hashes = op_hashes c txs in
        let mine =
          sign_slice c r.seed r.bucket r.prev_block (slice_hash_of c r.bucket slice_hashes) in
        try_ratify c (
          post everyone (sig_msg mine) (record r {
            slice_bodies = txs;
            my_sig = some mine;
            peer_sigs = insert r.me mine r.peer_sigs;
            surviving = left_over local slice_hashes;
            pending_slice_hashes = slice_hashes;
            state = finalize;
          }))
  ]

  unfoldable pub abandon : Round → Round
  unfolding bodies_canonical
  abandon r = elim r.local_bodies [
    | none ↦ r
    | some local ↦ record r { surviving = bodies_canonical c (values local); state = was_abandoned }
  ]

  abbrev pub has_local : Round → Bool
  has_local r = elim r.local_bodies [ none ↦ false | some local ↦ true ]

  unfoldable pub tick : ℕ → Round → Result RoundError Round
  unfolding finalize_round abandon
  tick now r =
      if ltb now r.now
      then err clock_went_back
      else let r₁ = record r { now = now } in
        let r₂ =
          if is_collect r₁.state && (has_local r₁ && leb r₁.close_by now)
          then finalize_round r₁
          else r₁ in
        ok (if is_finalize r₂.state && leb r₂.abandon_by now then abandon r₂ else r₂)

-- `outbox()` drains it.
unfoldable pub drain : Round → List (Target × RoundMsg) × Round
drain r = (r.outbox, record r { outbox = [] })

unfoldable pub get_surviving : Round → Result RoundError (List SignedTransaction)
get_surviving r = elim r.state [
  | gone ↦ ok r.surviving
  | was_abandoned ↦ ok r.surviving
  | _ ↦ err wrong_state
]

unfoldable pub get_slice_bodies : Round → Result RoundError (List SignedTransaction)
get_slice_bodies r = elim r.ratified [ none ↦ err not_ratified | some b ↦ ok r.slice_bodies ]
