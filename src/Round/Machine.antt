-- ===== src/Round/Machine.antt =====
-- The methods of `Round` that take in messages and transactions. The hook `_close_if_converged` does nothing in the source and is left out.
use dude_fs.Prelude.{
  ℕ, ◌+◌, ℤ, Bool, true, false, not, ◌&&◌, Option, none, some, List, [], ◌∷◌, ◌++◌, map, Bytes,
  if◌then◌else◌, ltb, leb, length, contains, select, ◌==◌, list_eq, nat_eq, prod_eq, ℤ_eq, Result,
  ok, err,
}
use dude_fs.Prelude.Dict.{Dict, keys, lookup, insert, update}
use dude_fs.Prelude.Order.{sort_by}
use dude_fs.Codec.{int, bytes}
use dude_fs.Codec.Plain.{encoded, tuple}
use dude_fs.Crypto.{Suite}
use dude_fs.Ops.{SignedTransaction, op_hash}
use dude_fs.Canonical.{hashes_canonical, digest_key}
use dude_fs.Quorum.{size}
use dude_fs.Round.Types.{
  Held, Sig, Bodies, RoundMsg, held, sig_msg, bodies, bucket_of, prev_block_of, Target, everyone,
  peer, verify_sig, State, collect, finalize, gone, Round, RoundError, not_in_roster, close_in_past,
  abandon_before_close, add_local_twice, wrong_state, clock_went_back, no_quorum,
}
use dude_fs.Round.Slice.{min_by}

abbrev pub is_collect : State → Bool
is_collect collect = true
is_collect _ = false

abbrev pub is_finalize : State → Bool
is_finalize finalize = true
is_finalize _ = false

abbrev pub is_gone : State → Bool
is_gone gone = true
is_gone _ = false

abbrev pub post : Target → RoundMsg → Round → Round
post t m r = record r { outbox = r.outbox ++ (t, m) ∷ [] }

-- HELD for everyone, with the hashes of what is held here
abbrev pub advertise : Dict Bytes SignedTransaction → Round → Round
advertise local r =
    post everyone
      (held (record { bucket = r.bucket; prev_block = r.prev_block; hashes = keys local })) r

module _ (c : Suite) where
  unfoldable pub start :
      ℤ
      → Bytes
      → List Bytes
      → Bytes
      → ℕ
      → ℕ
      → ℕ
      → (List SignedTransaction → List Bytes)
      → Result RoundError Round
  start bucket seed roster prev_block now close_by abandon_by screen =
      if not (contains (c.public seed) roster)
      then err not_in_roster
      else if leb close_by now
      then err close_in_past
      else if leb abandon_by close_by
      then err abandon_before_close
      else elim (size (length roster)) [
        | err _ ↦ err no_quorum
        | ok q ↦ ok (record {
          bucket = bucket;
          seed = seed;
          me = c.public seed;
          roster = roster;
          prev_block = prev_block;
          screen = screen;
          quorum = q;
          state = collect;
          now = now;
          close_by = close_by;
          abandon_by = abandon_by;
          local_bodies = none;
          peer_holds = [];
          peer_sigs = [];
          my_sig = none;
          equivocations = [];
          divergences = [];
          gap_attempts = [];
          ratified = none;
          slice_bodies = [];
          surviving = [];
          outbox = [];
          pending_slice_hashes = [];
        })
      ]

  -- `{tx.op_hash: tx for tx in txs}`
  unfoldable pub by_hash : List SignedTransaction → Dict Bytes SignedTransaction
  by_hash txs = update [] (map (λ tx. (op_hash c tx, tx)) txs)

  unfoldable pub add_local : List SignedTransaction → Round → Result RoundError Round
  unfolding by_hash
  add_local txs r = elim r.local_bodies [
    | some _ ↦ err add_local_twice
    | none ↦
        (if not (is_collect r.state)
          then err wrong_state
          else let local = by_hash txs in
            ok (advertise local (record r { local_bodies = some local })))
  ]

  abbrev attempt_of : Option ℕ → ℕ
  attempt_of none = 0
  attempt_of (some n) = n

  -- The order in which holders are elected for a gap.
  abbrev election_key : ℤ → Bytes → Bytes → ℕ → Bytes → Bytes
  election_key bucket digest to attempt p =
      c.h (
        encoded (tuple (int bucket ∷ bytes digest ∷ bytes to ∷ int (ℤ.pos attempt) ∷ bytes p ∷ [])))

  -- `_elected`: whether this node sends the body, and the attempt counted
  unfoldable pub elected : Bytes → Bytes → Round → Bool × Round
  unfolding encoded
  elected digest to r =
      let attempt = attempt_of (lookup (to, digest) r.gap_attempts) in
      let others = keys (select (λ e. contains digest e.1) r.peer_holds) in
      (
        r.me == min_by (election_key r.bucket digest to attempt) r.me others,
        record r { gap_attempts = insert (to, digest) (attempt + 1) r.gap_attempts },
      )

  -- The list comprehension of `_push_missing`.
  unfoldable pub gather :
      Bytes → Dict Bytes SignedTransaction → List Bytes → Round → List SignedTransaction × Round
  unfolding elected
  gather to local [] r = ([], r)
  gather to local (d ∷ ds) r =
      let (won, r') = elected d to r in
      let (txs, r'') = gather to local ds r' in
      (elim (lookup d local) [ none ↦ txs | some tx ↦ (if won then tx ∷ txs else txs) ], r'')

  abbrev pub send_bodies : Bytes → List SignedTransaction × Round → Round
  send_bodies to ([], r) = r
  send_bodies to (tx ∷ txs, r) =
      post (peer to)
        (bodies (record { bucket = r.bucket; prev_block = r.prev_block; txs = tx ∷ txs })) r

  unfoldable pub push_missing : Bytes → List Bytes → Round → Round
  unfolding gather
  push_missing to theirs r = elim r.local_bodies [
    | none ↦ r
    | some local ↦
        (if not (is_collect r.state)
          then r
          else send_bodies to (
              gather to local
                (sort_by digest_key (select (λ d. not (contains d theirs)) (keys local))) r))
  ]

  unfoldable pub on_held : Held → Bytes → Round → Round
  unfolding push_missing
  on_held msg from r =
      if is_gone r.state
      then r
      else push_missing from msg.hashes
          (record r { peer_holds = insert from msg.hashes r.peer_holds })

  -- The signatures that agree with a slice hash.
  abbrev pub agreeing : Bytes → Dict Bytes Sig → Dict Bytes Sig
  agreeing want sigs = select (λ e. e.1.slice_hash == want) sigs

  unfoldable pub try_ratify : Round → Round
  try_ratify r = if not (is_finalize r.state) then r else elim r.my_sig [
    | none ↦ r
    | some mine ↦
        (if ltb (length (agreeing mine.slice_hash r.peer_sigs)) r.quorum then r else record r {
          ratified =
              some (record { bucket = r.bucket; hashes = hashes_canonical r.pending_slice_hashes });
          state = gone;
        })
  ]

  abbrev pub conflicts : Option Sig → Sig → Bool
  conflicts none msg = false
  conflicts (some prior) msg = not (prior.slice_hash == msg.slice_hash)

  abbrev pub prior_or : Option Sig → Sig → Sig
  prior_or none msg = msg
  prior_or (some prior) msg = prior

  unfoldable pub on_sig : Sig → Bytes → Round → Round
  unfolding try_ratify
  on_sig msg from r =
      let prior = lookup from r.peer_sigs in
      if not (verify_sig c msg from)
      then r
      else if conflicts prior msg
      then record r { equivocations = r.equivocations ++ (from, prior_or prior msg, msg) ∷ [] }
      else if is_gone r.state
      then r
      else try_ratify (record r { peer_sigs = insert from msg r.peer_sigs })

  abbrev pub dispatch : RoundMsg → Bytes → Round → Round
  dispatch (held m) from r = on_held m from r
  dispatch (sig_msg m) from r = on_sig m from r
  dispatch (bodies m) from r = r

  abbrev pub diverged : Bytes → Bytes → Round → Round
  diverged from prev r = record r { divergences = r.divergences ++ (from, prev) ∷ [] }

  unfoldable pub receive : RoundMsg → Bytes → ℕ → Round → Result RoundError Round
  unfolding on_held on_sig
  receive msg from now r =
      if ltb now r.now
      then err clock_went_back
      else let r' = record r { now = now } in
        ok (
          if not (bucket_of msg == r.bucket)
          then r'
          else if not (contains from r.roster)
          then r'
          else if not (prev_block_of msg == r.prev_block)
          then diverged from (prev_block_of msg) r'
          else dispatch msg from r')

  unfoldable pub absorb : Bodies → Bytes → List SignedTransaction → Round → Round
  unfolding by_hash
  absorb msg from validated r =
      if not (msg.bucket == r.bucket && contains from r.roster)
      then r
      else if not (msg.prev_block == r.prev_block)
      then diverged from msg.prev_block r
      else elim r.local_bodies [
        | none ↦ r
        | some local ↦
            (if not (is_collect r.state)
              then r
              else elim (by_hash
                  (select (λ tx. not (contains (op_hash c tx) (keys local))) validated)) [
                    | [] ↦ r
                    | e ∷ es ↦
                        let held_now = update local (e ∷ es) in
                        advertise held_now (record r { local_bodies = some held_now })
                  ])
      ]
