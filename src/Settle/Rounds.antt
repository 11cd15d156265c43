-- ===== src/Settle/Rounds.antt =====
-- One round of the loop of `apply_to`, taken apart.
use dude_fs.Prelude.{
  true, false, List, ◌∷◌, Bytes, Result, ok, err, ◌>>=◌, >>=-eq-ok, ◌≡◌, contains, Bool-cases, inl,
  inr, list_eq, nat_eq,
}
use dude_fs.Crypto.{Suite}
use dude_fs.Ops.{SignedTransaction, op_hash}
use dude_fs.Layer.Overlay.{Overlay, LayerError, reader, absorb}
use dude_fs.Settle.Evaluate.{Authoriser, Verdict, is_ok, evaluate}
use dude_fs.Settle.Screen.{Screened, already_settled, keep, drop, screen_batch}

abbrev both : Screened → Overlay → Result LayerError (Screened × Overlay)
both s o = ok (s, o)

first_mapped :
    (g : Screened → Screened) (r : Result LayerError (Screened × Overlay)) (s : Screened)
    (o : Overlay)
    → (r >>= λ p. ok (g p.0, p.1)) ≡ both s o
    → (s' : Screened) × (r ≡ ok (s', o)) × (s ≡ g s')
first_mapped g (ok (s', o')) s o h = (s', cc, cc)
first_mapped g (err e) s o h = absurd (cc)

module _ (c : Suite) (auth : Authoriser) where
  pub data Round (seen : List Bytes) (target : Overlay) (tx : SignedTransaction)
      (batch : List SignedTransaction) (s : Screened) (o : Overlay) : Type 0 where
    repeats :
        contains (op_hash c tx) seen ≡ true
        → (s' : Screened) → screen_batch c auth seen target batch ≡ ok (s', o)
        → s ≡ (drop tx already_settled (s', o)).0
        → Round seen target tx batch s o
    refuses :
        contains (op_hash c tx) seen ≡ false
        → (v : Verdict) (layer : Overlay) → evaluate c auth (reader target) tx ≡ ok (v, layer)
        → is_ok v ≡ false
        → (s' : Screened) → screen_batch c auth seen target batch ≡ ok (s', o)
        → s ≡ (drop tx v (s', o)).0
        → Round seen target tx batch s o
    keeps :
        contains (op_hash c tx) seen ≡ false
        → (v : Verdict) (layer target' : Overlay)
        → evaluate c auth (reader target) tx ≡ ok (v, layer)
        → is_ok v ≡ true
        → absorb target layer ≡ ok target'
        → (s' : Screened) → screen_batch c auth (op_hash c tx ∷ seen) target' batch ≡ ok (s', o)
        → s ≡ (keep tx (s', o)).0
        → Round seen target tx batch s o

  pub round_of :
      (seen : List Bytes) (target : Overlay) (tx : SignedTransaction)
      (batch : List SignedTransaction) (s : Screened) (o : Overlay)
      → screen_batch c auth seen target (tx ∷ batch) ≡ ok (s, o)
      → Round seen target tx batch s o
  unfolding screen_batch
  round_of seen target tx batch s o h = elim (Bool-cases (contains (op_hash c tx) seen)) [
    | inl old ↦
        let (s', run, out) =
          first_mapped (λ s'. (drop tx already_settled (s', o)).0)
            (screen_batch c auth seen target batch) s o (rw old at h) in
        repeats old s' run out
    | inr new ↦
        let ((v, layer), judged, h₁) =
          >>=-eq-ok (evaluate c auth (reader target) tx) _ (rw new at h) in
        elim (Bool-cases (is_ok v)) [
          | inl good ↦
              let (target', taken, h₂) = >>=-eq-ok (absorb target layer) _ (rw good at h₁) in
              let (s', run, out) =
                first_mapped (λ s'. (keep tx (s', o)).0)
                  (screen_batch c auth (op_hash c tx ∷ seen) target' batch) s o h₂ in
              keeps new v layer target' judged good taken s' run out
          | inr bad ↦
              let (s', run, out) =
                first_mapped (λ s'. (drop tx v (s', o)).0) (screen_batch c auth seen target batch) s
                  o (rw bad at h₁) in
              refuses new v layer judged bad s' run out
        ]
  ]
