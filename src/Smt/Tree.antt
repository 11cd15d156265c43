-- ===== src/Smt/Tree.antt =====
-- `Tree` of dude/store/smt.py. The tables `live` and `smt_memo` are the database's: the first a list of
-- rows, of which a path is the key, the second a dict. A query for the rows between two paths in the
-- order of the paths gives those in the sorted list. Paths have the width of a digest, so `bounds` does
-- not raise for them below `max_depth`.
use dude_fs.Prelude.{
  ℕ, zero, suc, ◌+◌, ◌-◌, ◌/◌, ◌%◌, ◌^◌, ℤ, Bool, not, ◌&&◌, Option, none, some, List, [], ◌∷◌,
  Bytes, Result, ok, err, ◌>>=◌, ◌==◌, list_eq, nat_eq, prod_eq, if◌then◌else◌, select, take,
}
use dude_fs.Prelude.Dict.{Dict, lookup, insert, remove}
use dude_fs.Prelude.Order.{bytes_lt, sort_by}
use dude_fs.Crypto.{Suite}
use dude_fs.Crypto.Bitmap.{has_bit}
use dude_fs.Smt.{
  SmtError, short_path, Proof, max_depth, empty_hash, lower, upper, bit, leaf_hash, branch_hash,
  path_of,
}

pub record Row : Type 0 where
  pub path : Bytes
  pub value : Bytes
  pub cred : Bytes
  pub epoch : ℤ

abbrev pub row_path : Row → Bytes
row_path r = r.path

-- The table `smt_memo`, by its depth and its prefix.
abbrev pub Memo : Type 0
Memo = Dict (ℕ × Bytes) Bytes

unfoldable pub update_at : ℕ → (ℕ → ℕ) → Bytes → Bytes
update_at at f [] = []
update_at zero f (b ∷ bs) = f b ∷ bs
update_at (suc at) f (b ∷ bs) = b ∷ update_at at f bs

-- `byte ^ m`, for a mask of one bit
abbrev pub toggle : ℕ → ℕ → ℕ
toggle m byte = if has_bit byte m then byte - m else byte + m

-- `_flip`
unfoldable pub flip : Bytes → ℕ → Bytes
unfolding update_at
flip path i = update_at (i / 8) (toggle (2 ^ (7 - i % 8))) path

-- `path>=? AND path<=?`
abbrev pub between : Bytes → Bytes → Row → Bool
between lo hi r = not (bytes_lt r.path lo) && not (bytes_lt hi r.path)

-- The children of `hash_under`, in the order of the bit.
abbrev pub left_of : Bytes → ℕ → Bytes
left_of path depth =
    if bit path depth == 1 then lower (flip path depth) (suc depth) else lower path (suc depth)

abbrev pub right_of : Bytes → ℕ → Bytes
right_of path depth =
    if bit path depth == 1 then lower path (suc depth) else lower (flip path depth) (suc depth)

abbrev pub memoized : Bool → ℕ → Bytes → Bytes → Memo → Memo
memoized memoize depth lo node memo = if memoize then insert (depth, lo) node memo else memo

-- The hash of a place with at most one leaf.
unfoldable pub few : List (Bytes × Bytes) → Option Bytes
few [] = some empty_hash
few (x ∷ []) = some x.1
few (x ∷ y ∷ rest) = none

abbrev pub first_found : List (Bytes × Bytes) → Option (Bytes × Bytes)
first_found [] = none
first_found (x ∷ xs) = some x

-- `Tree.invalidate`, for the depths below so many
unfoldable pub invalidate_below : ℕ → Bytes → Memo → Memo
unfolding lower
invalidate_below zero path memo = memo
invalidate_below (suc n) path memo = remove (n, lower path n) (invalidate_below n path memo)

unfoldable pub invalidate : Bytes → Memo → Memo
unfolding invalidate_below
invalidate path memo = invalidate_below (max_depth + 1) path memo

module _ (c : Suite) where
  unfoldable pub hash_rows : List Row → Result SmtError (List (Bytes × Bytes))
  unfolding leaf_hash
  hash_rows [] = ok []
  hash_rows (r ∷ rs) = leaf_hash c r.path (c.h r.value) (c.h r.cred) r.epoch >>= λ h.
      hash_rows rs >>= λ rest. ok ((r.path, h) ∷ rest)

  unfoldable pub rows_between : List Row → Bytes → Bytes → Result SmtError (List (Bytes × Bytes))
  unfolding hash_rows
  rows_between live lo hi = hash_rows (take 2 (sort_by row_path (select (between lo hi) live)))

  -- `Tree._leaves`
  unfoldable pub leaves : List Row → Bytes → ℕ → Result SmtError (List (Bytes × Bytes))
  unfolding rows_between lower upper
  leaves live path depth = rows_between live (lower path depth) (upper path depth)

  -- `Tree.hash_under` at the depth that leaves so many levels: below the last, `path[32]` raises.
  unfoldable pub hash_under :
      Bool → List Row → ℕ → Memo → Bytes → ℕ → Result SmtError (Bytes × Memo)
  unfolding leaves lower bit flip branch_hash
  hash_under memoize live zero memo path depth = elim (lookup (depth, lower path depth) memo) [
    | some h ↦ ok (h, memo)
    | none ↦ leaves live path depth >>= λ found. elim (few found) [
      | some h ↦ ok (h, memo)
      | none ↦ err short_path
    ]
  ]
  hash_under memoize live (suc levels) memo path depth =
      elim (lookup (depth, lower path depth) memo) [
        | some h ↦ ok (h, memo)
        | none ↦ leaves live path depth >>= λ found. elim (few found) [
          | some h ↦ ok (h, memo)
          | none ↦ hash_under memoize live levels memo (left_of path depth) (suc depth) >>= λ l.
              hash_under memoize live levels l.1 (right_of path depth) (suc depth) >>= λ r.
              let node = branch_hash c depth (lower path depth) l.0 r.0 in
              ok (node, memoized memoize depth (lower path depth) node r.1)
        ]
      ]

  -- `Tree.root`
  unfoldable pub root : Bool → List Row → Memo → Result SmtError (Bytes × Memo)
  unfolding hash_under
  root memoize live memo = hash_under memoize live max_depth memo empty_hash 0

  -- The loop of `Tree.prove`, from the depth that leaves so many levels.
  unfoldable pub prove_from :
      Bool → List Row → ℕ → Memo → Bytes → ℕ → Result SmtError (Proof × Memo)
  unfolding leaves flip hash_under
  prove_from memoize live zero memo path depth =
      ok (record { siblings = []; occupant = none }, memo)
  prove_from memoize live (suc levels) memo path depth = leaves live path depth >>= λ found.
      elim (few found) [
        | some h ↦ ok (record { siblings = []; occupant = first_found found }, memo)
        | none ↦ hash_under memoize live levels memo (flip path depth) (suc depth) >>= λ s.
            prove_from memoize live levels s.1 path (suc depth) >>= λ p.
            ok (record { siblings = s.0 ∷ p.0.siblings; occupant = p.0.occupant }, p.1)
      ]

  -- `Tree.prove`
  unfoldable pub prove : Bool → List Row → Memo → ℤ → Bytes → Result SmtError (Proof × Memo)
  unfolding prove_from path_of
  prove memoize live memo store name =
      prove_from memoize live max_depth memo (path_of c store name) 0
