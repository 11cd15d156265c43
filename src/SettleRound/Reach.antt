-- ===== src/SettleRound/Reach.antt =====
-- Settle rounds as they come about: the methods in any order, on any messages and clock readings.
use dude_fs.Prelude.{
  Result-cases, ℕ, ◌≤◌, Bool, true, false, not, none, some, List, [], ◌∷◌, Bytes, ◌≡◌, refl, sym,
  ◌∙◌, subst, arith, length, All, contains, ok, err, Result, if◌then◌else◌, leb, ◌==◌, list_eq,
  nat_eq, Bool-cases, inl, inr, eq_true,
}
use dude_fs.Prelude.Dict.{Dict, keys, length-keys}
use dude_fs.Prelude.Sets.{Distinct, Within, common, Distinct-common, Within-common, All-common}
use dude_fs.Crypto.{Suite}
use dude_fs.Quorum.{size, intersection, QuorumError}
use dude_fs.Quorum.Overlap.{quorums_overlap}
use dude_fs.Round.Types.{Block, block_slice_hash, everyone}
use dude_fs.SettleRound.Types.{
  Anchors, same_anchors, SettleSig, SettledBlock, settle_payload, verify_settle_sig, sign_anchors,
  SettleRound, SettleError, collecting,
}
use dude_fs.SettleRound.Machine.{is_collecting, start, receive, tick, drain}
use dude_fs.SettleRound.Valid.{
  IsValid, IsSettled, SignedAnchors, same_anchors-eq, try_settle-IsValid, take_share, IsValid-notes,
  IsValid-abandoned, IsSettled-of,
}

module _ (c : Suite) where
  -- The settle rounds that the methods can lead to.
  pub data Reached : SettleRound → Type 0 where
    started :
        {r : SettleRound} (block : Block) (seed : Bytes) (roster : List Bytes) (anchors : Anchors)
        (abandon_by : ℕ)
        → start c block seed roster anchors abandon_by ≡ ok r
        → Reached r
    received :
        {r r' : SettleRound} (m : SettleSig) (from : Bytes)
        → Reached r
        → receive c m from r ≡ ok r'
        → Reached r'
    ticked : {r : SettleRound} (now : ℕ) → Reached r → Reached (tick now r)
    drained : {r : SettleRound} → Reached r → Reached (drain r).1

  IsValid-if :
      {x y : Result SettleError SettleRound} {r' : SettleRound} (b : Bool)
      → (b ≡ true → x ≡ ok r' → IsValid c r')
      → (b ≡ false → y ≡ ok r' → IsValid c r')
      → (if b then x else y) ≡ ok r'
      → IsValid c r'
  IsValid-if true p q = p refl
  IsValid-if false p q = q refl

  receive-IsValid :
      (m : SettleSig) (from : Bytes) (r r' : SettleRound)
      → receive c m from r ≡ ok r'
      → IsValid c r
      → IsValid c r'
  unfolding receive verify_settle_sig
  receive-IsValid m from r r' h v =
      IsValid-if (not (contains from r.roster)) stay
        (λ member. IsValid-if (from == r.me) stay (λ other.
          IsValid-if (not (m.slice_hash == r.slice_hash)) stay (λ slice.
            IsValid-if (not (verify_settle_sig c m from)) stay (λ signed.
              IsValid-if (not (same_anchors m.anchors r.anchors)) noted (λ agree.
                IsValid-if (not (is_collecting r.state)) stay (λ live e.
                  try_settle-IsValid c _ r' e (
                    take_share c r from m.sig (ground arith)
                      (let p : m.slice_hash ≡ r.slice_hash = eq_true _ _ (ground arith) in
                        let q : m.anchors ≡ r.anchors =
                          same_anchors-eq m.anchors r.anchors (ground arith) in
                        subst
                          (λ (x : Bytes × Anchors).
                            c.verify from (settle_payload x.0 x.1) m.sig ≡ true)
                          (both p q) (ground arith))
                      (ground arith) v)))))))
        h
    where
      stay :
          {b t : Bool}
          → b ≡ t
          → ◌≡◌ {A = Result SettleError SettleRound} (ok r) (ok r')
          → IsValid c r'
      stay b e = let p : r ≡ r' = cc in subst (IsValid c) p v

      noted :
          {b t : Bool} {d : List (Bytes × Anchors)}
          → b ≡ t
          → ◌≡◌ {A = Result SettleError SettleRound} (ok (record r { divergences = d })) (ok r')
          → IsValid c r'
      noted {d = d} b e =
          let p : record r { divergences = d } ≡ r' = cc in
          subst (IsValid c) p (IsValid-notes c r d r.outbox v)

      both :
          m.slice_hash ≡ r.slice_hash
          → m.anchors ≡ r.anchors
          → ◌≡◌ {A = Bytes × Anchors} (m.slice_hash, m.anchors) (r.slice_hash, r.anchors)
      both p q = cc

  tick-IsValid : (now : ℕ) (r : SettleRound) → IsValid c r → IsValid c (tick now r)
  unfolding tick
  tick-IsValid now r v = elim (Bool-cases (is_collecting r.state)) [
    | inr idle ↦ rw idle v
    | inl live ↦ elim (Bool-cases (leb r.abandon_by now)) [
      | inl late ↦ rw (live, late) (IsValid-abandoned c r live v)
      | inr early ↦ rw (live, early) v
    ]
  ]

  start-IsValid :
      ((seed msg : Bytes) → c.verify (c.public seed) msg (c.sign seed msg) ≡ true)
      → (block : Block) (seed : Bytes) (roster : List Bytes) (anchors : Anchors) (abandon_by : ℕ)
        (r' : SettleRound)
      → start c block seed roster anchors abandon_by ≡ ok r'
      → IsValid c r'
  unfolding start sign_anchors contains
  start-IsValid honest block seed roster anchors abandon_by r' h =
      elim (Bool-cases (contains (c.public seed) roster)) [
        | inr outside ↦ absurd (not_ok (rw outside at h))
        | inl inside ↦ elim (Result-cases (size (length roster))) [
          | inr (e, failed) ↦ absurd (not_ok (rw (inside, failed) at h))
          | inl (q, sized) ↦
              let mine = sign_anchors c seed (block_slice_hash c block) anchors in
              let opened : SettleRound = record {
                block = block;
                seed = seed;
                me = c.public seed;
                roster = roster;
                quorum = q;
                anchors = anchors;
                slice_hash = block_slice_hash c block;
                abandon_by = abandon_by;
                sigs = (c.public seed, mine.sig) ∷ [];
                divergences = [];
                outbox = (everyone, mine) ∷ [];
                state = collecting;
                settled = none;
              } in
              let fresh : IsValid c opened = record {
                own_key = refl;
                member = inside;
                quorum_size = sized;
                own_slice = refl;
                distinct = (refl, tt);
                inside = (inside, tt);
                signed = (honest seed _, tt);
                outcome = refl;
              } in
              try_settle-IsValid c opened r' (rw (inside, sized) at h) fresh
        ]
      ]
    where
      not_ok : {e : SettleError} → ¬ (◌≡◌ {A = Result SettleError SettleRound} (err e) (ok r'))
      not_ok e = cc

  -- A member has signed anchors for a slice, if some signature of its verifies.
  abbrev pub HasSignedAnchors : Bytes → Anchors → Bytes → Type 0
  HasSignedAnchors slice_hash anchors pk =
      (s : Bytes) × (c.verify pk (settle_payload slice_hash anchors) s ≡ true)

  signers_signed :
      (slice_hash : Bytes) (anchors : Anchors) (sigs : Dict Bytes Bytes)
      → All (SignedAnchors c slice_hash anchors) sigs
      → All (HasSignedAnchors slice_hash anchors) (keys sigs)
  signers_signed slice_hash anchors [] h = tt
  signers_signed slice_hash anchors (e ∷ sigs) h =
      ((e.1, h.0), signers_signed slice_hash anchors sigs h.1)

module _ (c : Suite)
    (honest : (seed msg : Bytes) → c.verify (c.public seed) msg (c.sign seed msg) ≡ true) where
  invariant_holds : {r : SettleRound} → Reached c r → IsValid c r
  unfolding drain
  invariant_holds (started {r = r} block seed roster anchors abandon_by h) =
      start-IsValid c honest block seed roster anchors abandon_by r h
  invariant_holds (received {r = r} {r' = r'} m from s h) =
      receive-IsValid c m from r r' h (invariant_holds s)
  invariant_holds (ticked {r = r} now s) = tick-IsValid c now r (invariant_holds s)
  invariant_holds (drained {r = r} s) = IsValid-notes c r r.divergences [] (invariant_holds s)

  pub settled-IsSettled :
      {r : SettleRound} (b : SettledBlock)
      → Reached c r
      → r.settled ≡ some b
      → IsValid c r × IsSettled c r b
  settled-IsSettled {r} b p h =
      let v = invariant_holds p in (v, IsSettled-of c r r.state r.settled b v.outcome h)

  -- If a settle round that the methods led to has a settled block, then the block is about the
  -- round's slice and anchors, its multisig is `combine` of the signatures held in the order of the
  -- roster, and these are at least a quorum, of distinct members of the roster, each verifying for
  -- the slice hash and the anchors. What this node signs is taken to verify under its public key.
  pub settled_is_quorum :
      {r : SettleRound} (b : SettledBlock)
      → Reached c r
      → r.settled ≡ some b
      → IsSettled c r b
        × (size (length r.roster) ≡ ok r.quorum)
        × Distinct (keys r.sigs)
        × Within (keys r.sigs) r.roster
        × All (SignedAnchors c (block_slice_hash c b.block) b.anchors) r.sigs
  settled_is_quorum {r} b p h =
      let v = invariant_holds p in
      let s = IsSettled-of c r r.state r.settled b v.outcome h in
      (
        s,
        v.quorum_size,
        v.distinct,
        v.inside,
        rw (s.same_block, s.same_anchors, ← v.own_slice) v.signed,
      )

  -- Two nodes with the same roster have each settled a block, reached by the methods. Then at least
  -- `intersection` distinct members of the roster have each signed both, the anchors of the one block
  -- for its slice and the anchors of the other for its slice.
  pub settled_agreement :
      {r t : SettleRound} (x y : SettledBlock) (i : ℕ)
      → Reached c r
      → Reached c t
      → r.roster ≡ t.roster
      → r.settled ≡ some x
      → t.settled ≡ some y
      → intersection (length r.roster) ≡ ok i
      → (both : List Bytes) × (i ≤ length both)
        × Distinct both
        × Within both r.roster
        × All
            (λ pk.
              HasSignedAnchors c (block_slice_hash c x.block) x.anchors pk
              × HasSignedAnchors c (block_slice_hash c y.block) y.anchors pk)
            both
  settled_agreement {r} {t} x y i p q rosters hx hy hi =
      let (sx, size_x, distinct_x, inside_x, signed_x) = settled_is_quorum x p hx in
      let (sy, size_y, distinct_y, inside_y, signed_y) = settled_is_quorum y q hy in
      let within_y : Within (keys t.sigs) r.roster =
        subst (Within (keys t.sigs)) (sym rosters) inside_y in
      let size_t : size (length r.roster) ≡ ok t.quorum =
        subst (λ z. size (length z) ≡ ok t.quorum) (sym rosters) size_y in
      let quorums : ◌≡◌ {A = Result QuorumError ℕ} (ok r.quorum) (ok t.quorum) =
        sym size_x ∙ size_t in
      let same : r.quorum ≡ t.quorum = cc in
      (
        common (keys r.sigs) (keys t.sigs),
        quorums_overlap r.roster (keys r.sigs) (keys t.sigs) r.quorum i size_x hi distinct_x
            distinct_y inside_x within_y (omega (arith, sx.enough, length-keys r.sigs))
            (omega (arith, same, sy.enough, length-keys t.sigs)),
        Distinct-common (keys r.sigs) (keys t.sigs) distinct_y,
        Within-common (keys r.sigs) (keys t.sigs) r.roster within_y,
        All-common (HasSignedAnchors c (block_slice_hash c x.block) x.anchors)
            (HasSignedAnchors c (block_slice_hash c y.block) y.anchors) (keys r.sigs) (keys t.sigs)
            (signers_signed c (block_slice_hash c x.block) x.anchors r.sigs signed_x)
            (signers_signed c (block_slice_hash c y.block) y.anchors t.sigs signed_y),
      )
