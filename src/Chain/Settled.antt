-- ===== src/Chain/Settled.antt =====
-- A walk over blocks that settle rounds have settled.
use dude_fs.Prelude.{true, some, List, [], ◌∷◌, Bytes, ok, ◌≡◌, refl, subst}
use dude_fs.Crypto.{Suite}
use dude_fs.Authorization.{authorized}
use dude_fs.SettleRound.Types.{SettleRound, SettledBlock, block_hash}
use dude_fs.SettleRound.Reach.{Reached, settled-IsSettled}
use dude_fs.SettleRound.Authorized.{settled-authorized}
use dude_fs.Chain.{head_is, authorization_of, advance}
use dude_fs.Chain.Walk.{last, IsChain, advance_exact}

module _ (c : Suite) where
  -- A round with this roster, reached by the methods, has settled the block.
  pub record SettledBy (roster : List Bytes) (b : SettledBlock) : Type 0 where
    pub round : SettleRound
    pub reached : Reached c round
    pub same_roster : round.roster ≡ roster
    pub has_block : round.settled ≡ some b

  -- Settled blocks of which each names the hash of the one before it.
  abbrev pub SettledChain : List Bytes → Bytes → List SettledBlock → Type 0
  SettledChain roster prev [] = Unit
  SettledChain roster prev (b ∷ bs) =
      (b.anchors.prev_block ≡ prev) × SettledBy roster b × SettledChain roster (block_hash c b) bs

module _ (c : Suite)
    (honest : (seed msg : Bytes) → c.verify (c.public seed) msg (c.sign seed msg) ≡ true) where
  settled_speaks :
      (roster : List Bytes) (anchor : Bytes) (b : SettledBlock)
      → SettledBy c roster b
      → authorized c (authorization_of c roster anchor b) ≡ ok true
  settled_speaks roster anchor b s =
      let (v, t) = settled-IsSettled c honest b s.reached s.has_block in
      subst (λ x. authorized c (authorization_of c x anchor b) ≡ ok true) s.same_roster
        (settled-authorized c s.round b anchor v t)

  SettledChain-IsChain :
      (roster : List Bytes) (anchor prev : Bytes) (bs : List SettledBlock)
      → SettledChain c roster prev bs
      → IsChain c roster anchor prev bs
  SettledChain-IsChain roster anchor prev [] s = tt
  SettledChain-IsChain roster anchor prev (b ∷ bs) s = (
    s.0,
    settled_speaks roster anchor b s.1,
    SettledChain-IsChain roster anchor (block_hash c b) bs s.2,
  )

  -- Some blocks, at least one, were each settled by a round with one roster that the methods led to; the
  -- first names a trusted hash, and each other one the hash of the block before it. Then `advance` from
  -- that hash accepts them and returns the last, whatever the manager's key is. What a node signs is
  -- taken to verify under its public key.
  pub advance_settled :
      (roster : List Bytes) (anchor from : Bytes) (b : SettledBlock) (bs : List SettledBlock)
      → SettledChain c roster from (b ∷ bs)
      → advance c roster anchor from (b ∷ bs) ≡ ok (head_is (last b bs))
  advance_settled roster anchor from b bs s =
      (advance_exact c roster anchor from b (last b bs) bs).1
        (SettledChain-IsChain roster anchor from (b ∷ bs) s, refl)
