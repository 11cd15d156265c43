-- ===== src/Smt.antt =====
-- dude/store/smt.py: the sparse Merkle tree over the rows of the store. Here the hashes of leaves and
-- branches, proofs, and `verify`; Wire has the encoding of a proof.
use dude_fs.Prelude.{
  ℕ, zero, suc, ◌+◌, ◌-◌, ◌/◌, ◌%◌, ◌^◌, ℤ, pos, negsuc, Bool, true, false, Option, none, some,
  List, [], ◌∷◌, ◌++◌, Bytes, ascii, Result, ok, err, ◌>>=◌, ◌==◌, list_eq, nat_eq, prod_eq,
  if◌then◌else◌, ltb, length, take,
}
use dude_fs.Codec.{int, bytes}
use dude_fs.Codec.Plain.{encoded, tuple}
use dude_fs.Crypto.{Suite, digest_size}
use dude_fs.Crypto.Bitmap.{zeros, byte_at}
use dude_fs.Ops.{Held}
pub mod Forged
pub mod Binding
pub mod Epoch
pub mod Sound
pub mod Wire
pub mod Tree
pub mod Bits
pub mod Cut
pub mod Paths
pub mod Children
pub mod Plain
pub mod Complete
pub mod Range
pub mod Found
pub mod Accept
pub mod Change
pub mod Current

-- The OverflowError of `to_bytes` and the IndexError of `path[full]`.
pub data SmtError : Type 0 where
  epoch_overflow : SmtError
  short_path : SmtError

abbrev pub max_depth : ℕ
max_depth = 256

abbrev pub empty_hash : Bytes
empty_hash = zeros digest_size

abbrev pub path_person : Bytes
path_person = ascii "dude.smt.path"

abbrev pub leaf_person : Bytes
leaf_person = ascii "dude.smt.leaf"

abbrev pub branch_person : Bytes
branch_person = ascii "dude.smt.node"

-- `n.to_bytes(width, "big")`, for a number that fits
unfoldable pub big_endian : ℕ → ℕ → Bytes
big_endian zero n = []
big_endian (suc width) n = big_endian width (n / 256) ++ n % 256 ∷ []

-- `epoch.to_bytes(8, "big")`
unfoldable pub epoch_bytes : ℤ → Result SmtError Bytes
unfolding big_endian
epoch_bytes (pos n) = if ltb n (2 ^ 64) then ok (big_endian 8 n) else err epoch_overflow
epoch_bytes (negsuc n) = err epoch_overflow

-- `path[i // 8] >> (7 - i % 8) & 1`
unfoldable pub bit : Bytes → ℕ → ℕ
unfolding byte_at
bit path i = byte_at (i / 8) path / 2 ^ (7 - i % 8) % 2

-- `path[full] & mask` and, with the bits below, `path[full] & mask | ~mask & 0xFF`
abbrev pub low_byte : ℕ → ℕ → ℕ
low_byte byte rem = byte - byte % 2 ^ (8 - rem)

abbrev pub high_byte : ℕ → ℕ → ℕ
high_byte byte rem = low_byte byte rem + (2 ^ (8 - rem) - 1)

-- The first `depth` bits of a path with the rest of their last byte.
unfoldable pub head_bytes : (ℕ → ℕ → ℕ) → Bytes → ℕ → Bytes
unfolding byte_at
head_bytes fill path depth =
    take (depth / 8) path
    ++ (if depth % 8 == 0 then [] else fill (byte_at (depth / 8) path) (depth % 8) ∷ [])

unfoldable pub repeat : ℕ → ℕ → Bytes
repeat zero b = []
repeat (suc n) b = b ∷ repeat n b

abbrev pub pad : ℕ → Bytes → Bytes
pad b head = head ++ repeat (digest_size - length head) b

-- `bounds(path, depth)[0]`, for a path of the width of a digest
unfoldable pub lower : Bytes → ℕ → Bytes
unfolding head_bytes repeat
lower path depth = pad 0 (head_bytes low_byte path depth)

unfoldable pub upper : Bytes → ℕ → Bytes
unfolding head_bytes repeat
upper path depth = pad 0xff (head_bytes high_byte path depth)

-- `path[full]` is read where the depth is no multiple of 8.
unfoldable pub bounds : Bytes → ℕ → Result SmtError (Bytes × Bytes)
unfolding lower upper
bounds path depth =
    if depth % 8 == 0
    then ok (lower path depth, upper path depth)
    else if ltb (depth / 8) (length path)
    then ok (lower path depth, upper path depth)
    else err short_path

pub record Proof : Type 0 where
  pub siblings : List Bytes
  pub occupant : Option (Bytes × Bytes)

-- What is hashed for a leaf and for a branch.
abbrev pub leaf_message : Bytes → Bytes → Bytes → Bytes → Bytes
leaf_message path vhash chash epoch = path ++ (vhash ++ (chash ++ epoch))

abbrev pub branch_message : ℕ → Bytes → Bytes → Bytes → Bytes
branch_message depth prefix left right = big_endian 2 depth ++ (prefix ++ (left ++ right))

module _ (c : Suite) where
  unfoldable pub path_of : ℤ → Bytes → Bytes
  unfolding encoded
  path_of store name = c.h_domain path_person (encoded (tuple (int store ∷ bytes name ∷ [])))

  unfoldable pub leaf_hash : Bytes → Bytes → Bytes → ℤ → Result SmtError Bytes
  unfolding epoch_bytes
  leaf_hash path vhash chash epoch =
      epoch_bytes epoch >>= λ e. ok (c.h_domain leaf_person (leaf_message path vhash chash e))

  unfoldable pub branch_hash : ℕ → Bytes → Bytes → Bytes → Bytes
  unfolding big_endian
  branch_hash depth prefix left right =
      c.h_domain branch_person (branch_message depth prefix left right)

  -- The children of a branch: the one on the path and its sibling, in the order of the bit.
  unfoldable pub joined : ℕ → Bytes → Bytes → Bytes → Bytes
  unfolding bit lower branch_hash
  joined depth path node sibling =
      if bit path depth == 0
      then branch_hash depth (lower path depth) node sibling
      else branch_hash depth (lower path depth) sibling node

  -- The loop of `_fold`, for the depths from the given one on.
  unfoldable pub fold_from : ℕ → Bytes → Bytes → List Bytes → Bytes
  unfolding joined
  fold_from depth path terminal [] = terminal
  fold_from depth path terminal (sibling ∷ siblings) =
      joined depth path (fold_from (suc depth) path terminal siblings) sibling

  abbrev pub fold : Bytes → Bytes → List Bytes → Bytes
  fold path terminal siblings = fold_from 0 path terminal siblings

  -- `_present`, for the occupant of the proof
  unfoldable pub present_at :
      Bytes → Bytes → Held → List Bytes → Bytes × Bytes → Result SmtError Bool
  unfolding leaf_hash fold_from
  present_at root path held siblings occupant =
      if occupant.0 == path
      then (leaf_hash path (c.h held.value) (c.h held.cred) held.epoch >>= λ term.
          ok (if occupant.1 == term then fold path term siblings == root else false))
      else ok false

  unfoldable pub present : Bytes → Bytes → Held → Proof → Result SmtError Bool
  unfolding present_at
  present root path held proof = elim proof.occupant [
    | none ↦ ok false
    | some occupant ↦ present_at root path held proof.siblings occupant
  ]

  -- `_absent`, for the occupant of the proof
  unfoldable pub absent_at : Bytes → Bytes → List Bytes → Bytes × Bytes → Result SmtError Bool
  unfolding bounds fold_from
  absent_at root path siblings occupant =
      if occupant.0 == path
      then ok false
      else bounds occupant.0 (length siblings) >>= λ theirs.
          bounds path (length siblings) >>= λ ours.
          ok (if theirs == ours then fold path occupant.1 siblings == root else false)

  unfoldable pub absent : Bytes → Bytes → Proof → Result SmtError Bool
  unfolding absent_at fold_from
  absent root path proof = elim proof.occupant [
    | none ↦ ok (fold path empty_hash proof.siblings == root)
    | some occupant ↦ absent_at root path proof.siblings occupant
  ]

  unfoldable pub verify_at : Bytes → Bytes → Option Held → Proof → Result SmtError Bool
  unfolding present absent
  verify_at root path none proof = absent root path proof
  verify_at root path (some held) proof = present root path held proof

  unfoldable pub verify : Bytes → ℤ → Bytes → Option Held → Proof → Result SmtError Bool
  unfolding path_of verify_at
  verify root store name held proof =
      if ltb max_depth (length proof.siblings)
      then ok false
      else verify_at root (path_of store name) held proof
