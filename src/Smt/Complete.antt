-- ===== src/Smt/Complete.antt =====
-- The proofs that `Tree.prove` makes fold to the tree's root, and `verify` accepts them.
use dude_fs.Prelude.{
  ℕ, zero, suc, ◌+◌, ◌<◌, Bool, true, false, Option, none, some, List, [], ◌∷◌, Bytes, Result, ok,
  err, ◌>>=◌, >>=-eq-ok, Result-cases, Option-cases, Bool-cases, ok_inj, not_ok, ◌≡◌, refl, ap, sym,
  ◌∙◌, subst, inl, inr, arith, length, list_eq, nat_eq, prod_eq, ◌==◌,
}
use dude_fs.Crypto.{Suite}
use dude_fs.Smt.{SmtError, Proof, max_depth, empty_hash, lower, bit, branch_hash, joined, fold_from}
use dude_fs.Smt.Tree.{Row, Memo, leaves, few, first_found, flip, hash_under, prove_from}
use dude_fs.Smt.Paths.{IsPath}
use dude_fs.Smt.Children.{child_one, child_zero, IsPath-flip}
use dude_fs.Smt.Plain.{plain, RightMemo, plain-few, plain_branch, hash_under-Agrees}

-- The hash at which the fold of a proof begins.
abbrev pub terminal : Option (Bytes × Bytes) → Bytes
terminal none = empty_hash
terminal (some o) = o.1

terminal-first_found :
    (found : List (Bytes × Bytes)) (h : Bytes)
    → few found ≡ some h
    → terminal (first_found found) ≡ h
unfolding few
terminal-first_found [] h e = cc
terminal-first_found (x ∷ []) h e = cc
terminal-first_found (x ∷ y ∷ rest) h e = cc

bit-lt : (path : Bytes) (depth : ℕ) → bit path depth < 2
unfolding bit
bit-lt path depth = omega arith

is_zero : (path : Bytes) (depth : ℕ) → (bit path depth == 1) ≡ false → (bit path depth == 0) ≡ true
is_zero path depth e = let small = bit-lt path depth in ground arith

is_one : (path : Bytes) (depth : ℕ) → (bit path depth == 1) ≡ true → (bit path depth == 0) ≡ false
is_one path depth e = ground arith

module _ (c : Suite) (live : List Row) (memoize : Bool) where
  joined_zero :
      (depth : ℕ) (path own sibling : Bytes)
      → (bit path depth == 1) ≡ false
      → joined c depth path own sibling ≡ branch_hash c depth (lower path depth) own sibling
  unfolding joined
  joined_zero depth path own sibling e = rw (is_zero path depth e) refl

  joined_one :
      (depth : ℕ) (path own sibling : Bytes)
      → (bit path depth == 1) ≡ true
      → joined c depth path own sibling ≡ branch_hash c depth (lower path depth) sibling own
  unfolding joined
  joined_one depth path own sibling e = rw (is_one path depth e) refl

  -- The branch over the hashes of the path's child and of the other one.
  joined_branch :
      (levels depth : ℕ) (path : Bytes) (found : List (Bytes × Bytes)) (own sibling : Bytes)
      → IsPath path
      → depth < max_depth
      → leaves c live path depth ≡ ok found
      → few found ≡ none
      → plain c live levels (suc depth) (lower path (suc depth)) ≡ ok own
      → plain c live levels (suc depth) (lower (flip path depth) (suc depth)) ≡ ok sibling
      → plain c live (suc levels) depth (lower path depth) ≡ ok (joined c depth path own sibling)
  joined_branch levels depth path found own sibling p h got many ho hs =
      elim (Bool-cases (bit path depth == 1)) [
        | inl e ↦
            let (mine, other) = child_one path depth p h e in
            rw (joined_one depth path own sibling e) (
              plain_branch c live levels depth path found sibling own p (omega (arith, h)) got many
                (sym (ap (plain c live levels (suc depth)) other) ∙ hs)
                (sym (ap (plain c live levels (suc depth)) mine) ∙ ho))
        | inr e ↦
            let (mine, other) = child_zero path depth p h e in
            rw (joined_zero depth path own sibling e) (
              plain_branch c live levels depth path found own sibling p (omega (arith, h)) got many
                (sym (ap (plain c live levels (suc depth)) mine) ∙ ho)
                (sym (ap (plain c live levels (suc depth)) other) ∙ hs))
      ]

  prove_few :
      (levels : ℕ) (m : Memo) (path : Bytes) (depth : ℕ) (found : List (Bytes × Bytes)) (h : Bytes)
      → leaves c live path depth ≡ ok found
      → few found ≡ some h
      → prove_from c memoize live (suc levels) m path depth
        ≡ ok (record { siblings = []; occupant = first_found found }, m)
  unfolding prove_from
  prove_few levels m path depth found h got e = rw got (ground (arith, e))

  prove_fail :
      (levels : ℕ) (m : Memo) (path : Bytes) (depth : ℕ) (x : SmtError)
      → leaves c live path depth ≡ err x
      → prove_from c memoize live (suc levels) m path depth ≡ err x
  unfolding prove_from
  prove_fail levels m path depth x failed = rw failed refl

  abbrev with_sibling : Bytes → Proof × Memo → Result SmtError (Proof × Memo)
  with_sibling s p = ok (record { siblings = s ∷ p.0.siblings; occupant = p.0.occupant }, p.1)

  abbrev after_sibling : ℕ → Bytes → ℕ → Bytes × Memo → Result SmtError (Proof × Memo)
  after_sibling levels path depth s =
      prove_from c memoize live levels s.1 path (suc depth) >>= with_sibling s.0

  prove_many :
      (levels : ℕ) (m : Memo) (path : Bytes) (depth : ℕ) (found : List (Bytes × Bytes))
      → leaves c live path depth ≡ ok found
      → few found ≡ none
      → prove_from c memoize live (suc levels) m path depth ≡ (
          hash_under c memoize live levels m (flip path depth) (suc depth)
          >>= after_sibling levels path depth)
  unfolding prove_from
  prove_many levels m path depth found got e = rw got (ground (arith, e))

  -- With a memo whose entries are right, a proof that is made with fewer siblings than levels folds to
  -- the hash of the place where it was begun.
  pub prove_from-folds :
      (levels : ℕ) (m : Memo) (path : Bytes) (depth : ℕ) (out : Proof × Memo)
      → IsPath path
      → levels + depth ≡ max_depth
      → RightMemo c live m
      → prove_from c memoize live levels m path depth ≡ ok out
      → length out.0.siblings < levels
      → plain c live levels depth (lower path depth)
        ≡ ok (fold_from c depth path (terminal out.0.occupant) out.0.siblings)
  unfolding fold_from
  prove_from-folds zero m path depth out p sum right h short = absurd (omega (arith, short))
  prove_from-folds (suc levels) m path depth out p sum right h short =
      elim (Result-cases (leaves c live path depth)) [
        | inr (x, failed) ↦ absurd (not_ok (sym (prove_fail levels m path depth x failed) ∙ h))
        | inl (found, got) ↦ elim (Option-cases (few found)) [
          | inr (v, one) ↦
              subst
                (λ (o : Proof × Memo).
                  plain c live (suc levels) depth (lower path depth)
                  ≡ ok (fold_from c depth path (terminal o.0.occupant) o.0.siblings))
                (ok_inj (sym (prove_few levels m path depth found v got one) ∙ h))
                (plain-few c live (suc levels) depth path found v p (omega (arith, sum)) got one
                  ∙ ap ok (sym (terminal-first_found found v one)))
          | inl many ↦
              let below : depth < max_depth = omega (arith, sum) in
              let sum' : levels + suc depth ≡ max_depth = omega (arith, sum) in
              let (s, made, h₁) =
                >>=-eq-ok (hash_under c memoize live levels m (flip path depth) (suc depth))
                  (after_sibling levels path depth)
                  (sym (prove_many levels m path depth found got many) ∙ h) in
              let (q, rest, h₂) =
                >>=-eq-ok (prove_from c memoize live levels s.1 path (suc depth)) (with_sibling s.0)
                  h₁ in
              let (hs, right') =
                hash_under-Agrees c live memoize levels m (flip path depth) (suc depth) s
                  (IsPath-flip path depth p below) sum' right made in
              subst
                (λ (o : Proof × Memo).
                  plain c live (suc levels) depth (lower path depth)
                  ≡ ok (fold_from c depth path (terminal o.0.occupant) o.0.siblings))
                (ok_inj h₂)
                (joined_branch levels depth path found
                  (fold_from c (suc depth) path (terminal q.0.occupant) q.0.siblings) s.0 p below
                  got many
                  (prove_from-folds levels s.1 path (suc depth) q p sum' right' rest
                    (omega (arith, short, ap length (λ i. (ok_inj h₂ i).0.siblings))))
                  hs)
        ]
      ]

  -- Where the making of a proof stopped: a depth at which there are no two leaves.
  pub record Stops (path : Bytes) (depth : ℕ) (p : Proof) : Type 0 where
    pub found : List (Bytes × Bytes)
    pub hash : Bytes
    pub looked : leaves c live path (depth + length p.siblings) ≡ ok found
    pub is_few : few found ≡ some hash
    pub is_first : p.occupant ≡ first_found found

  Stops-later :
      (path s : Bytes) (depth : ℕ) (p : Proof)
      → Stops path (suc depth) p
      → Stops path depth (record { siblings = s ∷ p.siblings; occupant = p.occupant })
  Stops-later path s depth p t = record {
    found = t.found;
    hash = t.hash;
    looked = subst (λ (d : ℕ). leaves c live path d ≡ ok t.found) (omega arith) t.looked;
    is_few = t.is_few;
    is_first = t.is_first;
  }

  pub prove_from-Stops :
      (levels : ℕ) (m : Memo) (path : Bytes) (depth : ℕ) (out : Proof × Memo)
      → prove_from c memoize live levels m path depth ≡ ok out
      → length out.0.siblings < levels
      → Stops path depth out.0
  prove_from-Stops zero m path depth out h short = absurd (omega (arith, short))
  prove_from-Stops (suc levels) m path depth out h short =
      elim (Result-cases (leaves c live path depth)) [
        | inr (x, failed) ↦ absurd (not_ok (sym (prove_fail levels m path depth x failed) ∙ h))
        | inl (found, got) ↦ elim (Option-cases (few found)) [
          | inr (v, one) ↦
              subst (λ (o : Proof × Memo). Stops path depth o.0)
                (ok_inj (sym (prove_few levels m path depth found v got one) ∙ h))
                (record {
                  found = found;
                  hash = v;
                  looked = subst (λ (d : ℕ). leaves c live path d ≡ ok found) (omega arith) got;
                  is_few = one;
                  is_first = refl;
                })
          | inl many ↦
              let (s, made, h₁) =
                >>=-eq-ok (hash_under c memoize live levels m (flip path depth) (suc depth))
                  (after_sibling levels path depth)
                  (sym (prove_many levels m path depth found got many) ∙ h) in
              let (q, rest, h₂) =
                >>=-eq-ok (prove_from c memoize live levels s.1 path (suc depth)) (with_sibling s.0)
                  h₁ in
              subst (λ (o : Proof × Memo). Stops path depth o.0) (ok_inj h₂)
                (Stops-later path s.0 depth q.0 (
                  prove_from-Stops levels s.1 path (suc depth) q rest
                    (omega (arith, short, ap length (λ i. (ok_inj h₂ i).0.siblings)))))
        ]
      ]
