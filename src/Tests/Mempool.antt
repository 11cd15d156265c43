-- ===== src/Tests/Mempool.antt =====
-- Transactions of one step and of two through a mempool.
use dude_fs.Prelude.{
  ◌+◌, ℤ, pos, int_lt, true, false, none, some, [], ◌∷◌, Bytes, ok, ◌≡◌, ◌≢◌, ◌⊎◌, ◌&&◌, ◌==◌, refl,
  arith, All, list_discrete, ℕ_discrete, ℤ_discrete, ℤ_eq, list_eq, nat_eq, prod_discrete, contains,
  any, select, if◌then◌else◌,
}
use dude_fs.Prelude.Dict.{keys, lookup, insert, update}
use dude_fs.Codec.{show}
use dude_fs.Codec.Encode.{encode, put_bytes}
use dude_fs.Codec.Access.{of_list}
use dude_fs.Ops.{Step, set, SignedTransaction, sign_tx, op_hash, verify_tx, raw}
use dude_fs.Settle.Evaluate.{evaluate, data_row_shape, epoch_step}
use dude_fs.Layer.Overlay.{absorb, apply, all_hold, get}
use dude_fs.Settle.Screen.{Screened, would_apply}
use dude_fs.Mempool.Machine.{
  Tunables, Ledger, Mempool, add_nat, bucket, mutations, is_occupied, admit, evict_settled, buckets,
  sort_ints, insert_int,
}
use dude_fs.Mempool.Admit.{Apart, pending_at, admit_sound}
use dude_fs.Mempool.Evict.{evict_settled_exact}
use dude_fs.Tests.Toy.{toy, nothing, anyone}

abbrev tunables : Tunables
tunables = record { w_admit = 10; clock_skew = 1; block_time = 2 }

abbrev ledger : Ledger
ledger = record { reader = nothing; has_settled = λ d. false }

abbrev write : Step
write = record { guards = []; mutation = set (pos 1) (97 ∷ []) (120 ∷ []) (pos 0); soft = false }

abbrev tx : SignedTransaction
tx = sign_tx toy (record { steps = write ∷ [] }) (7 ∷ []) (pos 5)

abbrev filled : Mempool
filled = (pos 3, (op_hash toy tx, tx) ∷ []) ∷ []

taken : admit toy tunables ledger anyone tx 6 [] ≡ ok (none, filled)
unfolding admit any int_lt sign_tx verify_tx list_discrete ℕ_discrete encode of_list put_bytes show
    would_apply contains evaluate absorb insert lookup data_row_shape all_hold get apply update raw
    ℤ_discrete prod_discrete epoch_step op_hash
taken = refl

admit_sound_example :
    All (λ held. contains (op_hash toy tx) (keys {V = SignedTransaction} held) ≡ false) []
    × (verify_tx toy tx ≡ true)
    × Apart (mutations tx)
    × (ledger.has_settled (op_hash toy tx) ≡ false)
    × ((s : Screened) × (would_apply toy anyone nothing (tx ∷ []) ≡ ok s) × (s.rejects ≡ []))
    × (int_lt (add_nat tx.ts 10) (pos 6) ≡ false)
    × (int_lt (pos (6 + 10)) tx.ts ≡ false)
    × ((b : ℤ) × ((b ≡ bucket tunables tx.ts) ⊎ (b ≡ bucket tunables (pos 6)))
        × (int_lt b (bucket tunables tx.ts) ≡ false)
        × (int_lt b (bucket tunables (pos 6)) ≡ false)
        × ((probe : ℤ) (d : Bytes)
            → pending_at probe d filled
              ≡ (if b == probe && op_hash toy tx == d then some tx else pending_at probe d [])))
admit_sound_example = admit_sound toy tunables ledger anyone tx 6 [] filled taken

-- The same step twice, at a later time.
abbrev second : SignedTransaction
second = sign_tx toy (record { steps = write ∷ write ∷ [] }) (7 ∷ []) (pos 8)

apart : op_hash toy second ≢ op_hash toy tx
unfolding sign_tx op_hash encode of_list put_bytes show
apart e = ground (arith, e)

-- Of three entries in two buckets, those of the first transaction have settled.
abbrev mixed : Mempool
mixed =
    (pos 3, (op_hash toy tx, tx) ∷ (op_hash toy second, second) ∷ [])
    ∷ (pos 4, (op_hash toy tx, tx) ∷ [])
    ∷ []

abbrev first_settled : Ledger
first_settled = record { reader = nothing; has_settled = λ d. d == op_hash toy tx }

evicted_run :
    evict_settled toy tunables first_settled anyone mixed
    ≡ (pos 3, (op_hash toy second, second) ∷ []) ∷ []
unfolding evict_settled select op_hash sign_tx encode of_list put_bytes show list_discrete
    ℕ_discrete
evicted_run = refl

buckets_run :
    buckets toy tunables ledger anyone ((pos 4, (op_hash toy tx, tx) ∷ []) ∷ (pos 5, []) ∷ filled)
    ≡ pos 3 ∷ pos 4 ∷ []
unfolding buckets sort_ints insert_int int_lt select
buckets_run = refl

evict_settled_exact_example :
    ((b : ℤ) (d : Bytes)
      → pending_at b d (evict_settled toy tunables first_settled anyone mixed)
        ≡ (if first_settled.has_settled d then none else pending_at b d mixed))
    × All
        (λ e. is_occupied toy tunables first_settled anyone e ≡ true)
        (evict_settled toy tunables first_settled anyone mixed)
unfolding contains ℤ_discrete
evict_settled_exact_example =
    evict_settled_exact toy tunables first_settled anyone mixed (refl, (refl, tt))
