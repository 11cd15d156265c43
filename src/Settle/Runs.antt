-- ===== src/Settle/Runs.antt =====
-- Acceptance of a transaction as a step relation: what must hold at each step, at the state that
-- the steps before it left.
use dude_fs.Prelude.{
  ℕ, suc, true, false, none, List, [], ◌∷◌, Bytes, ok, >>=-eq-ok, ◌≡◌, ◌↔◌, refl, arith, Bool-cases,
  Option-cases, inl, inr,
}
use dude_fs.Crypto.{Suite}
use dude_fs.Ops.{Step, SignedTransaction, store_of, verify_tx, raw}
use dude_fs.Layer.Overlay.{Overlay, Reader, new, reader, apply, all_hold}
use dude_fs.Settle.Evaluate.{
  Authoriser, Verdict, accepted, is_ok, data_row_shape, run_steps, evaluate,
}

module _ (c : Suite) (auth : Authoriser) (author cred : Bytes) where
  -- A step writes if its author may write and the row has a legal shape and its guards hold; a
  -- soft step whose guards do not hold is passed over.
  pub data Runs : Overlay → List Step → Overlay → Type 0 where
    finished : {o : Overlay} → Runs o [] o
    wrote :
        {o o' o'' : Overlay} {s : Step} {rest : List Step}
        → auth.may_write (reader o) author (store_of s.mutation) ≡ ok true
        → data_row_shape auth (reader o) s.mutation ≡ ok none
        → all_hold c (reader o) s.guards ≡ ok true
        → apply o s.mutation cred ≡ ok o'
        → Runs o' rest o''
        → Runs o (s ∷ rest) o''
    passed :
        {o o'' : Overlay} {s : Step} {rest : List Step}
        → auth.may_write (reader o) author (store_of s.mutation) ≡ ok true
        → data_row_shape auth (reader o) s.mutation ≡ ok none
        → all_hold c (reader o) s.guards ≡ ok false
        → s.soft ≡ true
        → Runs o rest o''
        → Runs o (s ∷ rest) o''

  run_steps-Runs :
      (i : ℕ) {o o'' : Overlay} {steps : List Step}
      → Runs o steps o''
      → run_steps c auth author cred i o steps ≡ ok (accepted, o'')
  unfolding run_steps
  run_steps-Runs i finished = refl
  run_steps-Runs i (wrote may shape guards applied r) =
      rw (may, shape, guards, applied) (run_steps-Runs (suc i) r)
  run_steps-Runs i (passed may shape guards soft r) =
      rw (may, shape, guards, soft) (run_steps-Runs (suc i) r)

  Runs-run_steps :
      (i : ℕ) (o : Overlay) (steps : List Step) (v : Verdict) (o'' : Overlay)
      → run_steps c auth author cred i o steps ≡ ok (v, o'')
      → is_ok v ≡ true
      → Runs o steps o''
  unfolding run_steps
  Runs-run_steps i o [] v o'' h k = let e : o ≡ o'' = ground arith in rw (← e) finished
  Runs-run_steps i o (s ∷ rest) v o'' h k =
      let (may, asked, h₁) =
        >>=-eq-ok (auth.may_write (reader o) author (store_of s.mutation)) _ h in
      elim (Bool-cases may) [
        | inr may_not ↦ absurd (ground (arith, rw may_not at h₁))
        | inl may_so ↦
            let (why, judged, h₂) =
              >>=-eq-ok (data_row_shape auth (reader o) s.mutation) _ (rw may_so at h₁) in
            elim (Option-cases why) [
              | inr (reason, bad) ↦ absurd (ground (arith, rw bad at h₂))
              | inl fine ↦
                  let (all_good, tested, h₃) =
                    >>=-eq-ok (all_hold c (reader o) s.guards) _ (rw fine at h₂) in
                  let may' = rw may_so at asked in
                  let shape = rw fine at judged in
                  elim (Bool-cases all_good) [
                    | inl good ↦
                        let (o', applied, rest_run) =
                          >>=-eq-ok (apply o s.mutation cred) _ (rw good at h₃) in
                        wrote may' shape (rw good at tested) applied
                          (Runs-run_steps (suc i) o' rest v o'' rest_run k)
                    | inr bad ↦ elim (Bool-cases s.soft) [
                      | inl soft ↦
                          passed may' shape (rw bad at tested) soft
                            (Runs-run_steps (suc i) o rest v o'' (rw (bad, soft) at h₃) k)
                      | inr hard ↦ absurd (ground (arith, rw (bad, hard) at h₃))
                    ]
                  ]
            ]
      ]

module _ (c : Suite) (auth : Authoriser) (base : Reader) (tx : SignedTransaction)
    (o : Overlay) where
  -- `evaluate` accepts a transaction and returns a layer exactly when its signature verifies and
  -- its steps lead from the empty layer to that one, each step authorised, of a legal shape, and
  -- either with all guards true where it stands, or soft and passed over.
  pub evaluate-Runs :
      (evaluate c auth base tx ≡ ok (accepted, o))
      ↔ ((verify_tx c tx ≡ true) × Runs c auth tx.author (raw tx) (new base) tx.txn.steps o)
  unfolding evaluate
  evaluate-Runs = (forth, λ (signed, r). rw signed (run_steps-Runs c auth tx.author (raw tx) 0 r))
    where
      forth :
          evaluate c auth base tx ≡ ok (accepted, o)
          → (verify_tx c tx ≡ true) × Runs c auth tx.author (raw tx) (new base) tx.txn.steps o
      forth h = elim (Bool-cases (verify_tx c tx)) [
        | inl signed ↦ (
          signed,
          Runs-run_steps c auth tx.author (raw tx) 0 (new base) tx.txn.steps accepted o
              (rw signed at h) refl,
        )
        | inr unsigned ↦ absurd (ground arith)
      ]
