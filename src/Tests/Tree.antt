-- ===== src/Tests/Tree.antt =====
-- A tree of two rows: its root, and the proofs that it makes.
use dude_fs.Prelude.{
  pos, true, false, none, some, List, [], ◌∷◌, ◌++◌, Bytes, ok, ◌≡◌, ◌≢◌, refl, sym, subst, arith,
  inl, ℕ_discrete, list_discrete, prod_discrete, select,
}
use dude_fs.Prelude.Dict.{lookup, insert, remove}
use dude_fs.Prelude.Order.{bytes_lt, insert_by, sort_by}
use dude_fs.Crypto.Bitmap.{byte_at, zeros}
use dude_fs.Smt.{
  leaf_person, branch_person, leaf_message, Proof, empty_hash, epoch_bytes, big_endian, head_bytes,
  repeat, lower, upper, bit, leaf_hash, branch_hash, path_of, verify,
}
use dude_fs.Smt.Tree.{
  Row, Memo, invalidate, invalidate_below, update_at, flip, few, hash_rows, rows_between, leaves,
  hash_under, root, prove_from, prove,
}
use dude_fs.Smt.Paths.{IsPath}
use dude_fs.Smt.Plain.{RightMemo, hash_under-Agrees}
use dude_fs.Smt.Change.{others}
use dude_fs.Smt.Current.{root_current}
use dude_fs.Smt.Accept.{empty_hash-IsPath, held_row, verify-prove_held, verify-prove_absent}
use dude_fs.Tests.Smt.{wide, blank, name, path, leaf, path_lem}

abbrev first : Row
first = record { path = blank 32; value = 1 ∷ []; cred = []; epoch = pos 0 }

abbrev second : Row
second = record { path = path; value = 7 ∷ []; cred = 8 ∷ []; epoch = pos 5 }

abbrev live : List Row
live = second ∷ first ∷ []

abbrev first_leaf : Bytes
first_leaf =
    wide.h_domain leaf_person (leaf_message (blank 32) (wide.h (1 ∷ [])) (wide.h []) (blank 8))

abbrev root_hash : Bytes
root_hash = wide.h_domain branch_person (0 ∷ 0 ∷ (blank 32 ++ (first_leaf ++ leaf)))

abbrev memo : Memo
memo = ((0, blank 32), root_hash) ∷ []

under_run : hash_under wide true live 256 [] empty_hash 0 ≡ ok (root_hash, memo)
unfolding hash_under lookup insert leaves rows_between hash_rows few leaf_hash epoch_bytes
    big_endian lower upper head_bytes repeat byte_at bit flip update_at branch_hash select bytes_lt
    insert_by sort_by zeros ℕ_discrete list_discrete prod_discrete
under_run = refl

root_run : root wide true live [] ≡ ok (root_hash, memo)
unfolding root
root_run = under_run

abbrev present_proof : Proof
present_proof = record { siblings = first_leaf ∷ []; occupant = some (path, leaf) }

prove_from_run : prove_from wide true live 256 memo path 0 ≡ ok (present_proof, memo)
unfolding prove_from hash_under lookup insert leaves rows_between hash_rows few leaf_hash
    epoch_bytes big_endian lower upper head_bytes repeat byte_at bit flip update_at branch_hash
    select bytes_lt insert_by sort_by ℕ_discrete list_discrete prod_discrete
prove_from_run = refl

prove_run : prove wide true live memo (pos 1) name ≡ ok (present_proof, memo)
unfolding prove
prove_run =
    subst (λ x. prove_from wide true live 256 memo x 0 ≡ ok (present_proof, memo)) (sym path_lem)
      prove_from_run

path-IsPath : IsPath path
path-IsPath = omega arith

verify-prove_held_example :
    verify wide root_hash (pos 1) name (some (held_row second)) present_proof ≡ ok true
verify-prove_held_example =
    verify-prove_held wide live true [] (root_hash, memo) (pos 1) name second (present_proof, memo)
      (subst IsPath (sym path_lem) path-IsPath) (sym path_lem) (inl refl) tt root_run prove_run
      (omega arith)

-- The tree of the first row alone.
abbrev alone : List Row
alone = first ∷ []

abbrev absent_proof : Proof
absent_proof = record { siblings = []; occupant = some (blank 32, first_leaf) }

alone_run : root wide false alone [] ≡ ok (first_leaf, [])
unfolding root hash_under lookup leaves rows_between hash_rows few leaf_hash epoch_bytes big_endian
    lower upper head_bytes repeat byte_at select bytes_lt insert_by sort_by zeros ℕ_discrete
    list_discrete prod_discrete
alone_run = refl

absent_run : prove wide false alone [] (pos 1) name ≡ ok (absent_proof, [])
unfolding prove prove_from leaves rows_between hash_rows few leaf_hash epoch_bytes big_endian lower
    upper head_bytes repeat byte_at select bytes_lt insert_by sort_by ℕ_discrete
absent_run =
    subst (λ x. prove_from wide false alone 256 [] x 0 ≡ ok (absent_proof, [])) (sym path_lem) refl

other_path : blank 32 ≢ path_of wide (pos 1) name
other_path = subst (λ x. blank 32 ≢ x) (sym path_lem) (λ e. ground arith)

verify-prove_absent_example : verify wide first_leaf (pos 1) name none absent_proof ≡ ok true
verify-prove_absent_example =
    verify-prove_absent wide alone false [] (first_leaf, []) (pos 1) name (absent_proof, [])
      (subst IsPath (sym path_lem) path-IsPath) ((omega arith, other_path), tt) tt alone_run
      absent_run (omega arith)

memo_right : RightMemo wide live memo
memo_right =
    (hash_under-Agrees wide live true 256 [] empty_hash 0 (root_hash, memo) empty_hash-IsPath refl
      tt under_run).1

invalidated : invalidate path memo ≡ []
unfolding invalidate invalidate_below remove lower head_bytes repeat byte_at ℕ_discrete
    list_discrete prod_discrete
invalidated = refl

removed_run : root wide false alone (invalidate path memo) ≡ ok (first_leaf, [])
removed_run = subst (λ m. root wide false alone m ≡ ok (first_leaf, [])) (sym invalidated) alone_run

same_others : others path live ≡ others path alone
unfolding select list_discrete ℕ_discrete
same_others = refl

root_current_example : (first_leaf ≡ first_leaf) × RightMemo wide alone []
root_current_example =
    root_current wide live alone path false memo (first_leaf, []) (first_leaf, []) path-IsPath
      same_others memo_right removed_run alone_run
