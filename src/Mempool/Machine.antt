-- ===== src/Mempool/Machine.antt =====
-- The methods of `Mempool`, but for its lock. Of the tunables it is given what it reads, and of a
-- `Ledger` its reader and which hashes have settled.
use dude_fs.Prelude.{
  ℕ, ◌+◌, ◌-◌, ◌/◌, ◌*◌, ℤ, pos, negsuc, int_lt, Bool, false, not, ◌&&◌, ◌||◌, Option, none, some,
  List, [], ◌∷◌, ◌++◌, map, Bytes, Result, ok, ◌>>=◌, if◌then◌else◌, ltb, length, contains, select,
  any, ◌==◌, ℤ_eq, list_eq, nat_eq,
}
use dude_fs.Prelude.Dict.{Dict, keys, values, lookup, insert, update}
use dude_fs.Crypto.{Suite}
use dude_fs.Ops.{Mutation, set, del, SignedTransaction, op_hash, verify_tx}
use dude_fs.Layer.Overlay.{Reader, LayerError}
use dude_fs.Settle.Evaluate.{Authoriser}
use dude_fs.Settle.Screen.{would_apply}

pub data Refusal : Type 0 where
  invalid too_old too_new duplicate unsigned cannot_apply not_in_roster repeated_op : Refusal

-- `Tunables`: w_admit, clock_skew and block_time
pub record Tunables : Type 0 where
  pub w_admit : ℕ
  pub clock_skew : ℕ
  pub block_time : ℕ

pub record Ledger : Type 0 where
  pub reader : Reader
  pub has_settled : Bytes → Bool

abbrev pub Bucketed : Type 0
Bucketed = Dict Bytes SignedTransaction

abbrev pub Mempool : Type 0
Mempool = Dict ℤ Bucketed

-- `z + n`
unfoldable pub add_nat : ℤ → ℕ → ℤ
add_nat (pos a) n = pos (a + n)
add_nat (negsuc a) n = if ltb a n then pos (n - a - 1) else negsuc (a - n)

-- `ts // block_time`, rounded down
unfoldable pub bucket : Tunables → ℤ → ℤ
bucket t (pos a) = pos (a / t.block_time)
bucket t (negsuc a) = negsuc (a / t.block_time)

unfoldable pub same_mutation : Mutation → Mutation → Bool
same_mutation (set s n v e) (set s' n' v' e') = s == s' && (n == n' && (v == v' && e == e'))
same_mutation (del s n) (del s' n') = s == s' && n == n'
same_mutation _ _ = false

-- `len(set(mutations)) != len(mutations)`
unfoldable pub repeats_op : List Mutation → Bool
unfolding same_mutation
repeats_op [] = false
repeats_op (m ∷ ms) = any (same_mutation m) ms || repeats_op ms

abbrev pub mutations : SignedTransaction → List Mutation
mutations tx = map (λ s. s.mutation) tx.txn.steps

unfoldable pub insert_int : ℤ → List ℤ → List ℤ
insert_int z [] = z ∷ []
insert_int z (y ∷ ys) = let rest = insert_int z ys in if int_lt y z then y ∷ rest else z ∷ y ∷ ys

unfoldable pub sort_ints : List ℤ → List ℤ
unfolding insert_int
sort_ints [] = []
sort_ints (z ∷ zs) = insert_int z (sort_ints zs)

module _ (c : Suite) (t : Tunables) (ledger : Ledger) (auth : Authoriser) where
  -- What `valid` and `valid_for_bucket` test after the time stamp.
  unfoldable pub valid_at_all : SignedTransaction → Result LayerError (Option Refusal)
  unfolding repeats_op
  valid_at_all tx =
      if not (verify_tx c tx)
      then ok (some unsigned)
      else if repeats_op (mutations tx)
      then ok (some repeated_op)
      else if ledger.has_settled (op_hash c tx)
      then ok (some duplicate)
      else would_apply c auth ledger.reader (tx ∷ []) >>= λ s.
          (if ltb 0 (length s.rejects) then ok (some cannot_apply) else ok none)

  -- `now - tx.ts > w_admit` and `tx.ts - now > w_admit`, with the differences moved across
  unfoldable pub valid : SignedTransaction → ℕ → Result LayerError (Option Refusal)
  unfolding valid_at_all add_nat
  valid tx now =
      if int_lt (add_nat tx.ts t.w_admit) (pos now)
      then ok (some too_old)
      else if int_lt (pos (now + t.w_admit)) tx.ts
      then ok (some too_new)
      else valid_at_all tx

  -- `ts < bucket_start(bucket) - w_admit - clock_skew`, with the difference moved across
  unfoldable pub valid_for_bucket : SignedTransaction → ℕ → Result LayerError (Option Refusal)
  unfolding valid_at_all add_nat
  valid_for_bucket tx b =
      if int_lt (add_nat tx.ts (t.w_admit + t.clock_skew)) (pos (t.block_time * b))
      then ok (some too_old)
      else if int_lt (pos (t.block_time * (b + 1) + t.w_admit + t.clock_skew)) tx.ts
      then ok (some too_new)
      else valid_at_all tx

  abbrev pub is_pending : Bytes → Mempool → Bool
  is_pending digest m = any (λ held. contains digest (keys held)) (values m)

  abbrev pub later : ℤ → ℤ → ℤ
  later a b = if int_lt a b then b else a

  abbrev pub bucket_or_empty : Option Bucketed → Bucketed
  bucket_or_empty none = []
  bucket_or_empty (some held) = held

  -- `self.pending.setdefault(landed, {})[tx.op_hash] = tx`
  unfoldable pub land : SignedTransaction → ℤ → Mempool → Mempool
  land tx at m = insert at (insert (op_hash c tx) tx (bucket_or_empty (lookup at m))) m

  abbrev pub admitted : SignedTransaction → ℕ → Mempool → Option Refusal → Option Refusal × Mempool
  admitted tx now m (some why) = (some why, m)
  admitted tx now m none = (none, land tx (later (bucket t tx.ts) (bucket t (pos now))) m)

  unfoldable pub admit :
      SignedTransaction → ℕ → Mempool → Result LayerError (Option Refusal × Mempool)
  unfolding valid land bucket
  admit tx now m =
      let judged = valid tx now >>= λ why. ok (admitted tx now m why) in
      if is_pending (op_hash c tx) m then ok (some duplicate, m) else judged

  abbrev pub is_occupied : ℤ × Bucketed → Bool
  is_occupied e = ltb 0 (length e.1)

  -- `sorted(b for b, held in self.pending.items() if held)`
  unfoldable pub buckets : Mempool → List ℤ
  unfolding sort_ints
  buckets m = sort_ints (keys (select is_occupied m))

  unfoldable pub all_hashes : Mempool → List Bytes
  all_hashes [] = []
  all_hashes (e ∷ m) = keys e.1 ++ all_hashes m

  unfoldable pub all_bodies : Mempool → Bucketed
  all_bodies [] = []
  all_bodies (e ∷ m) = update (map (λ x. (op_hash c x.1, x.1)) e.1) (all_bodies m)

  unfoldable pub snapshot : Mempool → Mempool
  snapshot m = select is_occupied m

  unfoldable pub evict_settled : Mempool → Mempool
  evict_settled m =
      select is_occupied (map (λ e. (e.0, select (λ x. not (ledger.has_settled x.0)) e.1)) m)

  unfoldable pub size : Mempool → ℕ
  size [] = 0
  size (e ∷ m) = length e.1 + size m
