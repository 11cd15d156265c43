-- ===== src/Smt/Current.antt =====
-- That a tree whose memo is kept from write to write gives the root of a tree without a memo.
use dude_fs.Prelude.{Bool, false, List, [], Bytes, ok, ok_inj, ◌≡◌, refl, sym, ◌∙◌}
use dude_fs.Crypto.{Suite}
use dude_fs.Smt.{max_depth, empty_hash}
use dude_fs.Smt.Tree.{Row, Memo, root, invalidate}
use dude_fs.Smt.Paths.{IsPath}
use dude_fs.Smt.Plain.{RightMemo, hash_under-Agrees}
use dude_fs.Smt.Accept.{empty_hash-IsPath}
use dude_fs.Smt.Change.{others, invalidate-RightMemo}

-- Some rows and others differ in those of one path at most, and every entry of a memo stands for a
-- place and is its hash for the first rows. After `invalidate` for that path, a root that is made of
-- the other rows with the memo is the one that is made of them without any memo, and the entries of
-- the memo it leaves are right for the other rows.
pub root_current :
    (c : Suite) (live live' : List Row) (path : Bytes) (memoize : Bool) (m : Memo)
    (out fresh : Bytes × Memo)
    → IsPath path
    → others path live ≡ others path live'
    → RightMemo c live m
    → root c memoize live' (invalidate path m) ≡ ok out
    → root c false live' [] ≡ ok fresh
    → (out.0 ≡ fresh.0) × RightMemo c live' out.1
unfolding root
root_current c live live' path memoize m out fresh p same right kept plainly =
    let (a, after) =
      hash_under-Agrees c live' memoize max_depth (invalidate path m) empty_hash 0 out
        empty_hash-IsPath refl (invalidate-RightMemo path p c live live' same m right) kept in
    let (b, none_left) =
      hash_under-Agrees c live' false max_depth [] empty_hash 0 fresh empty_hash-IsPath refl tt
        plainly in
    (ok_inj (sym a ∙ b), after)
