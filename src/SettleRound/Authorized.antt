-- ===== src/SettleRound/Authorized.antt =====
-- A settled block's multisig speaks for the roster that settled it.
use dude_fs.Prelude.{
  ℕ, suc, ◌+◌, ◌≤◌, ◌<◌, Bool, true, List, [], ◌∷◌, ◌++◌, map, Bytes, ok, ok_inj, ◌≡◌, refl, ap,
  sym, ◌∙◌, subst, arith, length, All, select, contains, Bool-cases, inl, inr, eq_true, ◌==◌,
  nat_eq, length-append, ltb, leb,
}
use dude_fs.Crypto.{Suite}
use dude_fs.Crypto.Bitmap.{
  MultiSig, combine, bitmap_set, bitmap_size, bitmap_indices, verify_each, verify_multisig,
}
use dude_fs.Crypto.Indices.{bitmap_indices-bitmap_set}
use dude_fs.Quorum.{size}
use dude_fs.Round.Types.{block_slice_hash}
use dude_fs.Authorization.{Authorization, authorized, enough_signers, roster_signers, signers_of}
use dude_fs.SettleRound.Types.{SettledBlock, SettleRound, settle_payload}
use dude_fs.SettleRound.Machine.{shares_from}
use dude_fs.SettleRound.Valid.{IsValid, IsSettled}
use dude_fs.SettleRound.Shares.{
  indices_of, sigs_of, shares_from-Rising, shares_from-Below, verify_each-shares_from,
  append-AtPlaces, length-shares_from_ge,
}

select_all : (p : ℕ → Bool) (xs : List ℕ) → All (λ x. p x ≡ true) xs → select p xs ≡ xs
unfolding select
select_all p [] h = refl
select_all p (x ∷ xs) h = rw h.0 (ap (◌∷◌ x) (select_all p xs h.1))

below_test : (n : ℕ) (xs : List ℕ) → All (λ x. x < n) xs → All (λ x. ltb x n ≡ true) xs
below_test n [] h = tt
below_test n (x ∷ xs) h = (ground (arith, h.0), below_test n xs h.1)

widen : (n : ℕ) (xs : List ℕ) → All (λ x. x < n) xs → All (λ x. x < n + 1) xs
widen n [] h = tt
widen n (x ∷ xs) h = (omega (arith, h.0), widen n xs h.1)

length-fields {ℓ} :
    {A : Type ℓ} (f : ℕ × Bytes → A) (xs : List (ℕ × Bytes)) → length (map f xs) ≡ length xs
length-fields f [] = refl
length-fields f (x ∷ xs) = ap (λ (n : ℕ). suc n) (length-fields f xs)

le→leb : (a b : ℕ) → a ≤ b → leb a b ≡ true
le→leb a b h = ground arith

no_quorum_of_none : {q : ℕ} → ¬ (size 0 ≡ ok q)
unfolding size
no_quorum_of_none e = cc

enough_signers_lem :
    (n q : ℕ) (is : List ℕ)
    → size n ≡ ok q
    → All (λ i. i < n) is
    → q ≤ length is
    → enough_signers n is ≡ ok true
unfolding enough_signers
enough_signers_lem n q is e small many = elim (Bool-cases (contains n is)) [
  | inl t ↦ rw t refl
  | inr t ↦ elim (Bool-cases (n == 0)) [
    | inl u ↦ absurd (no_quorum_of_none (subst (λ k. size k ≡ ok q) (eq_true n 0 u) e))
    | inr u ↦
        let count : leb q (roster_signers n is) ≡ true =
          rw (select_all (λ i. ltb i n) is (below_test n is small)) (le→leb q (length is) many) in
        rw (t, u, e) (ap ok count)
  ]
]

module _ (c : Suite) where
  verify_multisig_lem :
      (m : MultiSig) (msg : Bytes) (signers : List Bytes) (is : List ℕ)
      → length m.bitmap ≡ bitmap_size (length signers)
      → bitmap_indices m.bitmap (length signers) ≡ ok is
      → length is ≡ length m.sigs
      → verify_each c msg signers is m.sigs ≡ true
      → verify_multisig c m msg signers ≡ true
  unfolding verify_multisig
  verify_multisig_lem m msg signers is w b l v = ground (arith, w, b, l, v)

  authorized_lem :
      (a : Authorization) (is : List ℕ)
      → verify_multisig c a.multisig a.payload (signers_of a) ≡ true
      → bitmap_indices a.multisig.bitmap (length (signers_of a)) ≡ ok is
      → enough_signers (length a.roster) is ≡ ok true
      → authorized c a ≡ ok true
  unfolding authorized
  authorized_lem a is v b e = rw v (ground (arith, b, e))

  combine_lem :
      (shares : List (ℕ × Bytes)) (n : ℕ) (bitmap : Bytes)
      → bitmap_set (indices_of shares) n ≡ ok bitmap
      → combine shares n ≡ ok (record { bitmap = bitmap; sigs = sigs_of shares })
  unfolding combine
  combine_lem shares n bitmap e = rw e refl

  -- What combines at least a quorum of verified signatures of members speaks for the roster.
  combined-authorized :
      (sigs : List (Bytes × Bytes)) (roster : List Bytes) (anchor payload : Bytes) (q : ℕ)
      (m : MultiSig)
      → size (length roster) ≡ ok q
      → q ≤ length (shares_from 0 roster sigs)
      → All (λ e. c.verify e.0 payload e.1 ≡ true) sigs
      → combine (shares_from 0 roster sigs) (length roster + 1) ≡ ok m
      → authorized c (record { multisig = m; payload = payload; roster = roster; anchor = anchor })
        ≡ ok true
  combined-authorized sigs roster anchor payload q m e many signed made =
      let shares = shares_from 0 roster sigs in
      let is = indices_of shares in
      let signers = roster ++ anchor ∷ [] in
      let small = shares_from-Below sigs 0 roster in
      let at_zero : 0 + length roster ≡ length roster = omega arith in
      let below = subst (λ n. All (λ i. i < n) is) at_zero small in
      let (bitmap, set, width, read) =
        bitmap_indices-bitmap_set is (length roster + 1) (shares_from-Rising sigs 0 roster)
          (widen (length roster) is below) in
      let size_of : length roster + 1 ≡ length signers = sym (length-append roster (anchor ∷ [])) in
      let multisig : MultiSig = record { bitmap = bitmap; sigs = sigs_of shares } in
      let same : multisig ≡ m =
        ok_inj (sym (combine_lem shares (length roster + 1) bitmap set) ∙ made) in
      let width' = subst (λ n. length bitmap ≡ bitmap_size n) size_of width in
      let read' = subst (λ n. bitmap_indices bitmap n ≡ ok is) size_of read in
      let counted = length-fields (λ s. s.0) shares in
      subst
        (λ x.
          authorized c
            (record { multisig = x; payload = payload; roster = roster; anchor = anchor })
          ≡ ok true)
        same
        (authorized_lem
          (record { multisig = multisig; payload = payload; roster = roster; anchor = anchor }) is
          (verify_multisig_lem multisig payload signers is width' read'
            (counted ∙ sym (length-fields (λ s. s.1) shares))
            (verify_each-shares_from sigs c payload signers 0 roster
              (append-AtPlaces roster (anchor ∷ [])) signed))
          read' (enough_signers_lem (length roster) q is e below (omega (arith, many, counted))))

  -- A settled block of a valid round speaks for the roster.
  pub settled-authorized :
      (r : SettleRound) (b : SettledBlock) (anchor : Bytes)
      → IsValid c r
      → IsSettled c r b
      → authorized c (record {
        multisig = b.multisig;
        payload = settle_payload (block_slice_hash c b.block) b.anchors;
        roster = r.roster;
        anchor = anchor;
      })
        ≡ ok true
  settled-authorized r b anchor v t =
      let payload_of : settle_payload r.slice_hash r.anchors
          ≡ settle_payload (block_slice_hash c b.block) b.anchors =
        λ i.
          settle_payload ((v.own_slice ∙ ap (block_slice_hash c) (sym t.same_block)) i)
            (sym t.same_anchors i) in
      subst
        (λ x.
          authorized c
            (record { multisig = b.multisig; payload = x; roster = r.roster; anchor = anchor })
          ≡ ok true)
        payload_of
        (combined-authorized r.sigs r.roster anchor (settle_payload r.slice_hash r.anchors) r.quorum
          b.multisig v.quorum_size
          (omega (arith, t.enough, length-shares_from_ge r.sigs r.roster v.distinct v.inside))
          v.signed t.combined)
