-- ===== src/Round/Agreement.antt =====
-- What ratified blocks have in common.
use dude_fs.Prelude.{
  ℕ, ◌≤◌, ℤ, true, Option, some, List, [], ◌∷◌, Bytes, ◌≡◌, sym, ◌∙◌, subst, arith, length, All,
  select, ok, ◌==◌, list_eq, nat_eq, Bool-cases, inl, inr, eq_true, Result,
}
use dude_fs.Prelude.Dict.{Dict, keys, select-Distinct, select-Within, length-keys}
use dude_fs.Prelude.Sets.{Distinct, Within, common, Within-common, Distinct-common, All-common}
use dude_fs.Crypto.{Suite}
use dude_fs.Quorum.{size, intersection, QuorumError}
use dude_fs.Quorum.Overlap.{quorums_overlap}
use dude_fs.Round.Types.{
  Sig, Block, State, collect, finalize, gone, was_abandoned, sig_payload, block_slice_hash,
}
use dude_fs.Round.Machine.{agreeing}
use dude_fs.Round.Valid.{Core, IsValid, Outcome, SignedFor, IsRatified}

abbrev ok_quorum : ℕ → Result QuorumError ℕ
ok_quorum q = ok q

module _ (c : Suite) where
  -- A member has signed a slice hash for a bucket and a base block, if some signature verifies.
  abbrev pub HasSigned : ℤ → Bytes → Bytes → Bytes → Type 0
  HasSigned bucket prev want pk =
      (s : Bytes) × (c.verify pk (sig_payload bucket prev want) s ≡ true)

  -- The members whose signatures for a slice hash a round holds.
  abbrev signers : Core → Bytes → List Bytes
  signers k want = keys (agreeing c want k.peer_sigs)

  IsRatified-of :
      (k : Core) (s : State) (block : Option Block) (sig : _) (b : Block)
      → Outcome c s sig block k
      → block ≡ some b
      → IsRatified c k b
  IsRatified-of k collect block sig b o e = absurd (cc)
  IsRatified-of k finalize block sig b o e = absurd (cc (o.0))
  IsRatified-of k gone block sig b o e =
      let wrapped : some o.0 ≡ some b = sym o.1 ∙ e in
      let same : o.0 ≡ b = cc in subst (IsRatified c k) same o.2
  IsRatified-of k was_abandoned block sig b o e = absurd (cc)

  signers_signed :
      (bucket : ℤ) (prev want : Bytes) (sigs : Dict Bytes Sig)
      → All (SignedFor c bucket prev) sigs
      → All (HasSigned bucket prev want) (keys (agreeing c want sigs))
  unfolding select
  signers_signed bucket prev want [] h = tt
  signers_signed bucket prev want (e ∷ sigs) h = elim (Bool-cases (e.1.slice_hash == want)) [
    | inl q ↦ rw q (
      (
        e.1.sig,
        subst (λ w. c.verify e.0 (sig_payload bucket prev w) e.1.sig ≡ true)
            (eq_true e.1.slice_hash want q) h.0,
      ),
      signers_signed bucket prev want sigs h.1,
    )
    | inr q ↦ rw q (signers_signed bucket prev want sigs h.1)
  ]

  -- If two nodes with the same roster have ratified blocks for the same bucket over the same base
  -- block, then at least `intersection` members of the roster have signed both slices.
  pub agreement :
      (k l : Core) (x y : Block) (i : ℕ)
      → IsValid c k
      → IsValid c l
      → k.roster ≡ l.roster
      → k.bucket ≡ l.bucket
      → k.prev_block ≡ l.prev_block
      → k.ratified ≡ some x
      → l.ratified ≡ some y
      → intersection (length k.roster) ≡ ok i
      → (both : List Bytes) × (i ≤ length both)
        × Distinct both
        × Within both k.roster
        × All
            (λ pk.
              HasSigned k.bucket k.prev_block (block_slice_hash c x) pk
              × HasSigned k.bucket k.prev_block (block_slice_hash c y) pk)
            both
  agreement k l x y i v u rosters buckets bases rx ry hi =
      let a = IsRatified-of k k.state k.ratified k.my_sig x v.outcome rx in
      let b = IsRatified-of l l.state l.ratified l.my_sig y u.outcome ry in
      let xs = signers k a.mine.slice_hash in
      let ys = signers l b.mine.slice_hash in
      let inside_l : Within (keys l.peer_sigs) k.roster =
        subst (Within (keys l.peer_sigs)) (sym rosters) u.inside in
      let size_l : size (length k.roster) ≡ ok l.quorum =
        subst (λ z. size (length z) ≡ ok l.quorum) (sym rosters) u.quorum_size in
      let quorums : ok_quorum k.quorum ≡ ok_quorum l.quorum = sym v.quorum_size ∙ size_l in
      let within_y =
        select-Within (λ e. e.1.slice_hash == b.mine.slice_hash) l.peer_sigs k.roster inside_l in
      let many_x : k.quorum ≤ length xs =
        omega (arith, a.enough, length-keys (agreeing c a.mine.slice_hash k.peer_sigs)) in
      let many_y : k.quorum ≤ length ys =
        let q : k.quorum ≡ l.quorum = cc in
        omega (arith, b.enough, length-keys (agreeing c b.mine.slice_hash l.peer_sigs)) in
      let signed_x : All (HasSigned k.bucket k.prev_block (block_slice_hash c x)) xs =
        subst (λ w. All (HasSigned k.bucket k.prev_block w) xs) (sym a.same_slice)
          (signers_signed k.bucket k.prev_block a.mine.slice_hash k.peer_sigs v.signed) in
      let signed_y : All (HasSigned k.bucket k.prev_block (block_slice_hash c y)) ys =
        rw (buckets, bases)
          (subst (λ w. All (HasSigned l.bucket l.prev_block w) ys) (sym b.same_slice)
            (signers_signed l.bucket l.prev_block b.mine.slice_hash l.peer_sigs u.signed)) in
      (
        common xs ys,
        quorums_overlap k.roster xs ys k.quorum i v.quorum_size hi
            (select-Distinct (λ e. e.1.slice_hash == a.mine.slice_hash) k.peer_sigs v.distinct)
            (select-Distinct (λ e. e.1.slice_hash == b.mine.slice_hash) l.peer_sigs u.distinct)
            (select-Within (λ e. e.1.slice_hash == a.mine.slice_hash) k.peer_sigs k.roster v.inside)
            within_y many_x many_y,
        Distinct-common xs ys
            (select-Distinct (λ e. e.1.slice_hash == b.mine.slice_hash) l.peer_sigs u.distinct),
        Within-common xs ys k.roster within_y,
        All-common (HasSigned k.bucket k.prev_block (block_slice_hash c x))
            (HasSigned k.bucket k.prev_block (block_slice_hash c y)) xs ys signed_x signed_y,
      )
