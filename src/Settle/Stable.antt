-- ===== src/Settle/Stable.antt =====
-- What `apply_to` keeps of a batch, and a second run over the survivors.
use mathlib.Core.List.{Perm, Sublist}
use mathlib.Core.List.Perm
use mathlib.Core.List.Sublist
use mathlib.Core.List.{perm_middle}
use dude_fs.Prelude.{
  false, List, [], ◌∷◌, ◌++◌, map, Bytes, ok, ◌≡◌, refl, contains, arith, list_eq, nat_eq,
}
use dude_fs.Prelude.Sets.{Distinct}
use dude_fs.Crypto.{Suite}
use dude_fs.Ops.{SignedTransaction, op_hash}
use dude_fs.Layer.Overlay.{Overlay}
use dude_fs.Settle.Evaluate.{Authoriser}
use dude_fs.Settle.Screen.{Screened, Reject, screen_batch, apply_to}
use dude_fs.Settle.Rounds.{repeats, refuses, keeps, round_of}

abbrev only : List SignedTransaction → Screened
only txs = record { survivors = txs; rejects = [] }

module _ (c : Suite) (auth : Authoriser) where
  screen_batch_stable :
      (seen : List Bytes) (target : Overlay) (batch : List SignedTransaction) (s : Screened)
      (o : Overlay)
      → screen_batch c auth seen target batch ≡ ok (s, o)
      → screen_batch c auth seen target s.survivors ≡ ok (only s.survivors, o)
  unfolding screen_batch
  screen_batch_stable seen target [] s o h =
      let e : s ≡ only [] = ground arith in let f : target ≡ o = ground arith in rw (e, f) refl
  screen_batch_stable seen target (tx ∷ batch) s o h =
      elim (round_of c auth seen target tx batch s o h) [
        | repeats old s' run e ↦ rw e (screen_batch_stable seen target batch s' o run)
        | refuses new v layer judged bad s' run e ↦
            rw e (screen_batch_stable seen target batch s' o run)
        | keeps new v layer target' judged good taken s' run e ↦
            rw
              (
                e,
                new,
                judged,
                good,
                taken,
                screen_batch_stable (op_hash c tx ∷ seen) target' batch s' o run,
              )
              refl
      ]

  -- If a batch is screened over a target, then screening its survivors over the same target keeps
  -- them all, refuses none, and ends in the same state.
  pub apply_to_stable :
      (target : Overlay) (batch : List SignedTransaction) (s : Screened) (o : Overlay)
      → apply_to c auth target batch ≡ ok (s, o)
      → apply_to c auth target s.survivors ≡ ok (only s.survivors, o)
  unfolding apply_to
  apply_to_stable target batch s o h = screen_batch_stable [] target batch s o h

  abbrev dropped : Screened → List SignedTransaction
  dropped s = map (λ (r : Reject). r.tx) s.rejects

  screen_batch_partition :
      (seen : List Bytes) (target : Overlay) (batch : List SignedTransaction) (s : Screened)
      (o : Overlay)
      → screen_batch c auth seen target batch ≡ ok (s, o)
      → Perm (s.survivors ++ dropped s) batch × Sublist s.survivors batch
  unfolding screen_batch
  screen_batch_partition seen target [] s o h =
      let e : s ≡ only [] = ground arith in rw e (Perm.refl [], Sublist.refl [])
  screen_batch_partition seen target (tx ∷ batch) s o h =
      elim (round_of c auth seen target tx batch s o h) [
        | repeats old s' run e ↦
            let ih = screen_batch_partition seen target batch s' o run in
            rw e (
              Perm.trans (perm_middle s'.survivors (dropped s')) (Perm.cons tx ih.0),
              Sublist.cons tx ih.1,
            )
        | refuses new v layer judged bad s' run e ↦
            let ih = screen_batch_partition seen target batch s' o run in
            rw e (
              Perm.trans (perm_middle s'.survivors (dropped s')) (Perm.cons tx ih.0),
              Sublist.cons tx ih.1,
            )
        | keeps new v layer target' judged good taken s' run e ↦
            let ih = screen_batch_partition (op_hash c tx ∷ seen) target' batch s' o run in
            rw e (Perm.cons tx ih.0, Sublist.cons-cons tx ih.1)
      ]

  -- If a batch is screened, then its survivors and rejects together are a permutation of the batch,
  -- and the survivors stand in the order of the batch.
  pub apply_to_partition :
      (target : Overlay) (batch : List SignedTransaction) (s : Screened) (o : Overlay)
      → apply_to c auth target batch ≡ ok (s, o)
      → Perm (s.survivors ++ map (λ (r : Reject). r.tx) s.rejects) batch × Sublist s.survivors batch
  unfolding apply_to
  apply_to_partition target batch s o h = screen_batch_partition [] target batch s o h

  abbrev hashes : List SignedTransaction → List Bytes
  hashes = map (op_hash c)

  -- No element of the first list is in the second.
  abbrev None : List Bytes → List Bytes → Type 0
  None [] seen = Unit
  None (x ∷ xs) seen = (contains x seen ≡ false) × None xs seen

  None-cons :
      (x : Bytes) (seen xs : List Bytes)
      → None xs (x ∷ seen)
      → None xs seen × (contains x xs ≡ false)
  unfolding contains
  None-cons x seen [] h = (tt, refl)
  None-cons x seen (y ∷ ys) h =
      let ih = None-cons x seen ys h.1 in ((ground arith, ih.0), ground (arith, ih.1))

  screen_batch-Distinct :
      (seen : List Bytes) (target : Overlay) (batch : List SignedTransaction) (s : Screened)
      (o : Overlay)
      → screen_batch c auth seen target batch ≡ ok (s, o)
      → Distinct (hashes s.survivors) × None (hashes s.survivors) seen
  unfolding screen_batch
  screen_batch-Distinct seen target [] s o h = let e : s ≡ only [] = ground arith in rw e (tt, tt)
  screen_batch-Distinct seen target (tx ∷ batch) s o h =
      elim (round_of c auth seen target tx batch s o h) [
        | repeats old s' run e ↦ rw e (screen_batch-Distinct seen target batch s' o run)
        | refuses new v layer judged bad s' run e ↦
            rw e (screen_batch-Distinct seen target batch s' o run)
        | keeps new v layer target' judged good taken s' run e ↦
            let ih = screen_batch-Distinct (op_hash c tx ∷ seen) target' batch s' o run in
            let apart = None-cons (op_hash c tx) seen (hashes s'.survivors) ih.1 in
            rw e ((apart.1, ih.0), (new, apart.0))
      ]

  -- No two survivors of a batch have the same hash.
  pub apply_to-Distinct :
      (target : Overlay) (batch : List SignedTransaction) (s : Screened) (o : Overlay)
      → apply_to c auth target batch ≡ ok (s, o)
      → Distinct (map (op_hash c) s.survivors)
  unfolding apply_to
  apply_to-Distinct target batch s o h = (screen_batch-Distinct [] target batch s o h).0
