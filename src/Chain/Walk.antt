-- ===== src/Chain/Walk.antt =====
-- What `advance` accepts, and walks in two parts.
use dude_fs.Prelude.{
  true, false, List, [], ◌∷◌, ◌++◌, Bytes, Result, ok, Result-cases, not_ok, ◌==◌, list_eq, nat_eq,
  ◌≡◌, ◌↔◌, refl, ap, sym, ◌∙◌, Bool-cases, inl, inr, eq_true, eq_self,
}
use dude_fs.Crypto.{Suite}
use dude_fs.SettleRound.Types.{SettledBlock, block_hash}
use dude_fs.Authorization.{AuthorizationError, authorized}
use dude_fs.Chain.{Advance, refused, head_is, ChainRefusal, authorization_of, walk, advance}

unfoldable pub last : SettledBlock → List SettledBlock → SettledBlock
last b [] = b
last b (x ∷ xs) = last x xs

module _ (c : Suite) (roster : List Bytes) (anchor : Bytes) where
  -- Each block names the hash of the one before it, and its signers speak for the roster.
  abbrev pub IsChain : Bytes → List SettledBlock → Type 0
  IsChain prev [] = Unit
  IsChain prev (b ∷ bs) =
      (b.anchors.prev_block ≡ prev)
      × (authorized c (authorization_of c roster anchor b) ≡ ok true)
      × IsChain (block_hash c b) bs

  -- The hash that the block behind these has to name.
  abbrev end_hash : Bytes → List SettledBlock → Bytes
  end_hash prev [] = prev
  end_hash prev (b ∷ bs) = end_hash (block_hash c b) bs

  walk_end :
      (prev : Bytes) (head : SettledBlock)
      → ◌≡◌ {A = Result AuthorizationError Advance}
          (ok (head_is head))
          (walk c roster anchor prev head [])
  unfolding walk
  walk_end prev head = refl

  -- The head so far is not looked at before the next block replaces it.
  walk_head :
      (prev : Bytes) (head other b : SettledBlock) (bs : List SettledBlock)
      → walk c roster anchor prev head (b ∷ bs) ≡ walk c roster anchor prev other (b ∷ bs)
  unfolding walk
  walk_head prev head other b bs = refl

  walk_step :
      (prev : Bytes) (head b : SettledBlock) (bs : List SettledBlock)
      → b.anchors.prev_block ≡ prev
      → authorized c (authorization_of c roster anchor b) ≡ ok true
      → walk c roster anchor prev head (b ∷ bs) ≡ walk c roster anchor (block_hash c b) b bs
  unfolding walk
  walk_step prev head b bs e a =
      let named : (b.anchors.prev_block == prev) ≡ true = ap (λ x. x == prev) e ∙ eq_self prev in
      rw (named, a) refl

  broken :
      {r : ChainRefusal} {h : SettledBlock}
      → ¬ (◌≡◌ {A = Result AuthorizationError Advance} (ok (refused r)) (ok (head_is h)))
  broken e = cc

  walk_taken :
      (prev : Bytes) (head b h : SettledBlock) (bs : List SettledBlock)
      → walk c roster anchor prev head (b ∷ bs) ≡ ok (head_is h)
      → (b.anchors.prev_block ≡ prev)
        × (authorized c (authorization_of c roster anchor b) ≡ ok true)
  unfolding walk
  walk_taken prev head b h bs e = elim (Bool-cases (b.anchors.prev_block == prev)) [
    | inr t ↦ absurd (broken (rw t at e))
    | inl t ↦ elim (Result-cases (authorized c (authorization_of c roster anchor b))) [
      | inr (x, failed) ↦ absurd (not_ok (rw (t, failed) at e))
      | inl (true, spoke) ↦ (eq_true b.anchors.prev_block prev t, spoke)
      | inl (false, spoke) ↦ absurd (broken (rw (t, spoke) at e))
    ]
  ]

  head_inj :
      {a b : SettledBlock}
      → ◌≡◌ {A = Result AuthorizationError Advance} (ok (head_is a)) (ok (head_is b))
      → a ≡ b
  head_inj e = cc

  walk-IsChain :
      (prev : Bytes) (head h : SettledBlock) (bs : List SettledBlock)
      → walk c roster anchor prev head bs ≡ ok (head_is h)
      → IsChain prev bs × (h ≡ last head bs)
  unfolding last
  walk-IsChain prev head h [] e = (tt, sym (head_inj (walk_end prev head ∙ e)))
  walk-IsChain prev head h (b ∷ bs) e =
      let (linked, spoke) = walk_taken prev head b h bs e in
      let (rest, same) =
        walk-IsChain (block_hash c b) b h bs (sym (walk_step prev head b bs linked spoke) ∙ e) in
      ((linked, spoke, rest), same)

  IsChain-walk :
      (prev : Bytes) (head : SettledBlock) (bs : List SettledBlock)
      → IsChain prev bs
      → walk c roster anchor prev head bs ≡ ok (head_is (last head bs))
  unfolding last
  IsChain-walk prev head [] k = sym (walk_end prev head)
  IsChain-walk prev head (b ∷ bs) k =
      walk_step prev head b bs k.0 k.1 ∙ IsChain-walk (block_hash c b) b bs k.2

  -- `advance` returns a head exactly for the last block of a chain: blocks of which the first names the
  -- trusted hash and each other one the hash of the block before it, and the signers of each of which
  -- speak for the roster or the manager.
  pub advance_exact :
      (from : Bytes) (b h : SettledBlock) (bs : List SettledBlock)
      → (advance c roster anchor from (b ∷ bs) ≡ ok (head_is h))
        ↔ (IsChain from (b ∷ bs) × (h ≡ last b bs))
  unfolding advance last
  advance_exact from b h bs = (
    λ e. walk-IsChain from b h (b ∷ bs) e,
    λ k. IsChain-walk from b (b ∷ bs) k.0 ∙ (λ i. ok (head_is (sym k.1 i))),
  )

  walk_append :
      (prev : Bytes) (head h : SettledBlock) (xs ys : List SettledBlock)
      → walk c roster anchor prev head xs ≡ ok (head_is h)
      → walk c roster anchor prev head (xs ++ ys) ≡ walk c roster anchor (end_hash prev xs) h ys
  walk_append prev head h [] ys e =
      ap (λ x. walk c roster anchor prev x ys) (head_inj (walk_end prev head ∙ e))
  walk_append prev head h (b ∷ bs) ys e =
      let (linked, spoke) = walk_taken prev head b h bs e in
      walk_step prev head b (bs ++ ys) linked spoke
      ∙ walk_append (block_hash c b) b h bs ys (sym (walk_step prev head b bs linked spoke) ∙ e)

  end_hash-last :
      (prev : Bytes) (b : SettledBlock) (bs : List SettledBlock)
      → end_hash prev (b ∷ bs) ≡ block_hash c (last b bs)
  unfolding last
  end_hash-last prev b [] = refl
  end_hash-last prev b (x ∷ bs) = end_hash-last (block_hash c b) x bs

  -- If `advance` returns a head for some blocks, then what it does with further blocks behind them is
  -- what it does with those alone, from the hash of that head.
  pub advance_append :
      (from : Bytes) (b h y : SettledBlock) (bs ys : List SettledBlock)
      → advance c roster anchor from (b ∷ bs) ≡ ok (head_is h)
      → advance c roster anchor from ((b ∷ bs) ++ y ∷ ys)
        ≡ advance c roster anchor (block_hash c h) (y ∷ ys)
  unfolding advance last
  advance_append from b h y bs ys e =
      let (chain, same) = walk-IsChain from b h (b ∷ bs) e in
      walk_append from b h (b ∷ bs) (y ∷ ys) e
      ∙ ap (λ x. walk c roster anchor x h (y ∷ ys))
          (end_hash-last from b bs ∙ ap (block_hash c) (sym same))
      ∙ walk_head (block_hash c h) h y y ys
