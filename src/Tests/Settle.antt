-- ===== src/Tests/Settle.antt =====
-- Screening a small batch, and writes to an overlay.
use dude_fs.Prelude.{
  ℤ, pos, true, false, none, some, List, [], ◌∷◌, ◌++◌, Bytes, ok, ◌≡◌, ◌≢◌, refl, arith,
  list_discrete, ℕ_discrete, contains, ◌↔◌, ◌⊎◌, ◌≤◌, int_lt, pred, succ, length, prod_eq, list_eq,
  nat_eq, ℤ_eq, ℤ_discrete, prod_discrete,
}
use dude_fs.Prelude.Dict.{lookup, insert, update}
use dude_fs.Prelude.Sets.{Distinct}
use dude_fs.Crypto.{digest_size}
use dude_fs.Codec.{show, int}
use dude_fs.Codec.Tokens.{digits_of}
use dude_fs.Codec.Trip.{Fits}
use dude_fs.Codec.Encode.{encode, put_bytes}
use dude_fs.Codec.Access.{of_list}
use dude_fs.Ops.{
  Mutation, set, del, Transaction, SignedTransaction, sign_tx, op_hash, verify_tx, raw, absent,
  store_management, max_name_bytes, epoch_none,
}
use dude_fs.Layer.Overlay.{Overlay, new, reader, apply, absorb, get, all_hold}
use dude_fs.Layer.Delta.{get-absorb}
use dude_fs.Settle.Evaluate.{accepted, evaluate, data_row_shape, epoch_step}
use dude_fs.Settle.Screen.{Screened, apply_to, already_settled}
use dude_fs.Settle.Stable.{apply_to_stable, apply_to_partition, apply_to-Distinct}
use dude_fs.Settle.Runs.{Runs, evaluate-Runs}
use dude_fs.Settle.Rows.{data_row_exact, epoch_row_exact}
use dude_fs.Tests.Toy.{toy, nothing, anyone}
use mathlib.Core.List.{Perm, Sublist}

-- Write a name of store 1 if it is absent.
abbrev write_once : Transaction
write_once = record {
  steps =
      record {
        guards = absent (pos 1) (97 ∷ []) ∷ [];
        mutation = set (pos 1) (97 ∷ []) (120 ∷ []) (pos 0);
        soft = false;
      }
      ∷ [];
}

abbrev tx : SignedTransaction
tx = sign_tx toy write_once (7 ∷ []) (pos 5)

abbrev twice : List SignedTransaction
twice = tx ∷ tx ∷ []

abbrev after : Overlay
after = record {
  base = nothing;
  delta = ((pos 1, 97 ∷ []), some (record { value = 120 ∷ []; epoch = pos 0; cred = raw tx })) ∷ [];
  log = set (pos 1) (97 ∷ []) (120 ∷ []) (pos 0) ∷ [];
  frozen = false;
}

abbrev kept : Screened
kept = record { survivors = tx ∷ []; rejects = record { tx = tx; verdict = already_settled } ∷ [] }

program : Unit {0}
unfolding evaluate verify_tx list_discrete sign_tx ℕ_discrete encode of_list put_bytes show
    data_row_shape ℤ_discrete prod_discrete all_hold get lookup apply insert update absorb apply_to
    contains op_hash raw epoch_step
program = tt

first_run : evaluate toy anyone nothing tx ≡ ok (accepted, after)
unfolding program
first_run = refl

settled_once : apply_to toy anyone (new nothing) twice ≡ ok (kept, after)
unfolding program
settled_once = refl

apply_to_stable_example :
    apply_to toy anyone (new nothing) (tx ∷ [])
    ≡ ok (record { survivors = tx ∷ []; rejects = [] }, after)
apply_to_stable_example = apply_to_stable toy anyone (new nothing) twice kept after settled_once

apply_to_partition_example : Perm (tx ∷ tx ∷ []) twice × Sublist (tx ∷ []) twice
apply_to_partition_example =
    apply_to_partition toy anyone (new nothing) twice kept after settled_once

apply_to-Distinct_example : Distinct (op_hash toy tx ∷ [])
apply_to-Distinct_example = apply_to-Distinct toy anyone (new nothing) twice kept after settled_once

evaluate-Runs_example : (evaluate toy anyone nothing tx ≡ ok (accepted, after)) ↔ (
    (verify_tx toy tx ≡ true) × Runs toy anyone tx.author (raw tx) (new nothing) tx.txn.steps after)
evaluate-Runs_example = evaluate-Runs toy anyone nothing tx after

abbrev eight : Bytes
eight = 1 ∷ 2 ∷ 3 ∷ 4 ∷ 5 ∷ 6 ∷ 7 ∷ 8 ∷ []

-- A name of 32 bytes.
abbrev digest_name : Bytes
digest_name = eight ++ eight ++ eight ++ eight

data_row_exact_example :
    (data_row_shape anyone nothing (set (pos 1) digest_name (120 ∷ []) (pos 4)) ≡ ok none) ↔ (
      (length digest_name ≤ max_name_bytes)
      × ((pos 4 ≡ epoch_none)
          ⊎ ((length digest_name ≡ digest_size)
              × ((current : ℤ) × (anyone.current_epoch (pos 1) nothing ≡ ok current)
                  × ((pos 4 ≡ current)
                      ⊎ ((int_lt current (pos 2) ≡ false) × (pos 4 ≡ pred current)))))))
data_row_exact_example =
    data_row_exact anyone nothing (pos 1) digest_name (120 ∷ []) (pos 4) (λ e. ground arith)

five-Fits : Fits 0 (int (pos 5))
unfolding Fits digits_of show
five-Fits = (omega arith, omega arith)

epoch_row_exact_example :
    ((data_row_shape anyone nothing (set store_management (101 ∷ []) (105 ∷ 53 ∷ 101 ∷ []) (pos 0))
        ≡ ok none)
      ↔ (encode (int (pos 5)) ≡ ok (105 ∷ 53 ∷ 101 ∷ [])))
    × (data_row_shape anyone nothing (del store_management (101 ∷ [])) ≢ ok none)
unfolding succ
epoch_row_exact_example =
    epoch_row_exact anyone nothing (101 ∷ []) (105 ∷ 53 ∷ 101 ∷ []) (pos 0) (pos 1) (pos 4)
      (omega arith) refl refl five-Fits

abbrev deleted : Mutation
deleted = del (pos 1) (97 ∷ [])

abbrev gone_row : Overlay
gone_row = record after {
  delta = ((pos 1, 97 ∷ []), none) ∷ [];
  log = set (pos 1) (97 ∷ []) (120 ∷ []) (pos 0) ∷ deleted ∷ [];
}

delete_applied : apply after deleted [] ≡ ok gone_row
unfolding program
delete_applied = refl

-- A child of `after` that deletes the row.
abbrev child : Overlay
child = record {
  base = reader after;
  delta = ((pos 1, 97 ∷ []), none) ∷ [];
  log = deleted ∷ [];
  frozen = false;
}

child_absorbed : absorb after child ≡ ok gone_row
unfolding program
child_absorbed = refl

get-absorb_example : get gone_row (pos 1) (97 ∷ []) ≡ get child (pos 1) (97 ∷ [])
unfolding contains
get-absorb_example =
    get-absorb (pos 1) (97 ∷ []) after child gone_row refl (refl, tt) child_absorbed
