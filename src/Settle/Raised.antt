-- ===== src/Settle/Raised.antt =====
-- What `apply_to` raises over a target that is not frozen.
use dude_fs.Prelude.{
  ltb, length, ltb, length, ℕ, ℤ, suc, Bool, true, false, not, Option, none, some, List, [], ◌∷◌,
  ◌++◌, Bytes, Result, ok, err, ◌>>=◌, ◌≡◌, refl, contains, list_eq, nat_eq, ℤ_eq, prod_eq,
  if◌then◌else◌, ◌==◌,
}
use dude_fs.Crypto.{Suite, digest_size}
use dude_fs.Prelude.Dict.{lookup, insert, update}
use dude_fs.Ops.{
  Mutation, set, del, Step, SignedTransaction, Predicate, op_hash, store_of, verify_tx, raw,
  store_management, epoch_none, max_name_bytes,
}
use dude_fs.Layer.Overlay.{
  Overlay, Reader, LayerError, new, reader, get, apply, absorb, guard_holds, all_hold, key_of,
  written, store_of_guard, name_of_guard,
}
use dude_fs.Settle.Evaluate.{
  Authoriser, stored_int, is_ok, is_outdated, epoch_step, data_row_shape, run_steps, evaluate,
}
use dude_fs.Settle.Screen.{screen_batch, apply_to}

-- If this raises, then one of these exceptions.
pub record RaisesOnly (E : LayerError → Type 0) {A : Type 0} (m : Result LayerError A)
    : Type 0 where
  pub only : (e : LayerError) → m ≡ err e → E e

module _ (E : LayerError → Type 0) where
  only-ok : {A : Type 0} {a : A} → RaisesOnly E (ok a)
  only-ok = record { only = λ e h. absurd (cc) }

  only-bind :
      {A B : Type 0} (m : Result LayerError A) (f : A → Result LayerError B)
      → RaisesOnly E m
      → ((a : A) → m ≡ ok a → RaisesOnly E (f a))
      → RaisesOnly E (m >>= f)
  only-bind (ok a) f h k = k a refl
  only-bind (err e) f h k = record { only = λ e' q. h.only e' (cc) }

  only-if :
      {A : Type 0} (b : Bool) (m n : Result LayerError A)
      → RaisesOnly E m
      → RaisesOnly E n
      → RaisesOnly E (if b then m else n)
  only-if true m n h k = h
  only-if false m n h k = k

  only-option :
      {A R : Type 0} (o : Option R) (f : R → Result LayerError A) (m : Result LayerError A)
      → ((r : R) → RaisesOnly E (f r))
      → RaisesOnly E m
      → RaisesOnly E (elim o [ some r ↦ f r | none ↦ m ])
  only-option none f m h k = k
  only-option (some r) f m h k = h r

  only-get :
      (o : Overlay)
      → ((store : ℤ) (name : Bytes) → RaisesOnly E (o.base.get store name))
      → (store : ℤ) (name : Bytes) → RaisesOnly E (get o store name)
  unfolding get
  only-get o h store name =
      only-option (lookup (store, name) o.delta) _ _ (λ r. only-ok) (h store name)

  -- An overlay that can be written, over a base that raises only these.
  abbrev Open : Overlay → Type 0
  Open o = (o.frozen ≡ false) × ((store : ℤ) (name : Bytes) → RaisesOnly E (o.base.get store name))

  apply-Open :
      (o : Overlay) (m : Mutation) (cred : Bytes)
      → Open o
      → (o' : Overlay) × (apply o m cred ≡ ok o') × Open o'
  unfolding apply
  apply-Open o m cred h = (
    record o { delta = insert (key_of m) (written m cred) o.delta; log = o.log ++ m ∷ [] },
    rw h.0 refl,
    h,
  )

  absorb-Open : (o child : Overlay) → Open o → (o' : Overlay) × (absorb o child ≡ ok o') × Open o'
  unfolding absorb
  absorb-Open o child h =
      (record o { delta = update o.delta child.delta; log = o.log ++ child.log }, rw h.0 refl, h)

  only-all_hold :
      (c : Suite) (r : Reader) (ps : List Predicate)
      → ((store : ℤ) (name : Bytes) → RaisesOnly E (r.get store name))
      → RaisesOnly E (all_hold c r ps)
  unfolding all_hold guard_holds
  only-all_hold c r [] h = only-ok
  only-all_hold c r (p ∷ ps) h =
      only-bind (guard_holds c r p) _
        (only-bind (r.get (store_of_guard p) (name_of_guard p)) _ (h _ _) (λ cur e. only-ok))
        (λ b e. only-if b _ _ (only-all_hold c r ps h) only-ok)

  module _ (c : Suite) (auth : Authoriser)
      (may : (r : Reader)
        → ((store : ℤ) (name : Bytes) → RaisesOnly E (r.get store name))
        → (who : Bytes) (store : ℤ) → RaisesOnly E (auth.may_write r who store))
      (current : (r : Reader)
        → ((store : ℤ) (name : Bytes) → RaisesOnly E (r.get store name))
        → (store : ℤ) → RaisesOnly E (auth.current_epoch store r)) where
    only-epoch_step :
        (r : Reader) (value : Bytes) (target : ℤ)
        → ((store : ℤ) (name : Bytes) → RaisesOnly E (r.get store name))
        → RaisesOnly E (epoch_step auth r value target)
    unfolding epoch_step
    only-epoch_step r value target h =
        only-option (stored_int value) _ _
          (λ want.
            only-bind (auth.current_epoch target r) _ (current r h target)
              (λ n e. only-if _ _ _ only-ok only-ok))
          only-ok

    only-shape :
        (r : Reader) (m : Mutation)
        → ((store : ℤ) (name : Bytes) → RaisesOnly E (r.get store name))
        → RaisesOnly E (data_row_shape auth r m)
    unfolding data_row_shape
    only-shape r (del store name) h =
        only-if _ _ _ only-ok
          (only-if _ _ _ (only-option (auth.epoch_target name) _ _ (λ x. only-ok) only-ok) only-ok)
    only-shape r (set store name value ep) h =
        only-if (ltb max_name_bytes (length name)) _ _ only-ok (
          only-if (store == store_management) _ _
            (only-option (auth.epoch_target name) _ _ (λ target. only-epoch_step r value target h)
              only-ok)
            (only-if (ep == epoch_none) _ _ only-ok (
              only-if (not (length name == digest_size)) _ _ only-ok (
                only-bind (auth.current_epoch store r) _ (current r h store)
                  (λ n e. only-if (is_outdated auth r ep n) _ _ only-ok only-ok)))))

    only-run_steps :
        (author cred : Bytes) (i : ℕ) (layer : Overlay) (steps : List Step)
        → Open layer
        → RaisesOnly E (run_steps c auth author cred i layer steps)
    unfolding run_steps
    only-run_steps author cred i layer [] h = only-ok
    only-run_steps author cred i layer (s ∷ rest) h =
        let reads = only-get layer h.1 in
        let (layer', applied, h') = apply-Open layer s.mutation cred h in
        only-bind (auth.may_write (reader layer) author (store_of s.mutation)) _
          (may (reader layer) reads author (store_of s.mutation))
          (λ b e. only-if (not b) _ _ only-ok (
            only-bind (data_row_shape auth (reader layer) s.mutation) _
              (only-shape (reader layer) s.mutation reads)
              (λ why e'.
                only-option why _ _ (λ reason. only-ok)
                  (only-bind (all_hold c (reader layer) s.guards) _
                    (only-all_hold c (reader layer) s.guards reads)
                    (λ good e''.
                      only-if good _ _
                        (rw applied (only-run_steps author cred (suc i) layer' rest h'))
                        (only-if s.soft _ _ (only-run_steps author cred (suc i) layer rest h)
                          only-ok))))))

    only-evaluate :
        (base : Reader) (tx : SignedTransaction)
        → ((store : ℤ) (name : Bytes) → RaisesOnly E (base.get store name))
        → RaisesOnly E (evaluate c auth base tx)
    unfolding evaluate
    only-evaluate base tx h =
        only-if (not (verify_tx c tx)) _ _ only-ok
          (only-run_steps tx.author (raw tx) 0 (new base) tx.txn.steps (refl, h))

    only-screen_batch :
        (seen : List Bytes) (target : Overlay) (batch : List SignedTransaction)
        → Open target
        → RaisesOnly E (screen_batch c auth seen target batch)
    unfolding screen_batch
    only-screen_batch seen target [] h = only-ok
    only-screen_batch seen target (tx ∷ batch) h =
        let skipped = only-screen_batch seen target batch h in
        only-if (contains (op_hash c tx) seen) _ _ (only-bind _ _ skipped (λ r e. only-ok)) (
          only-bind (evaluate c auth (reader target) tx) _
            (only-evaluate (reader target) tx (only-get target h.1))
            (λ (v, layer) e.
              let (target', taken, h') = absorb-Open target layer h in
              only-if (is_ok v) _ _
                (rw taken (
                  only-bind _ _ (only-screen_batch (op_hash c tx ∷ seen) target' batch h')
                    (λ r e'. only-ok)))
                (only-bind _ _ skipped (λ r e'. only-ok))))

    -- Some exceptions are given. What the target reads from raises no others, and over any reader of
    -- which this holds the authoriser raises no others, neither for `may_write` nor for
    -- `current_epoch`. Then screening a batch over the target, if it is not frozen, raises no others.
    pub apply_to_raises :
        (target : Overlay) (batch : List SignedTransaction)
        → target.frozen ≡ false
        → ((store : ℤ) (name : Bytes) → RaisesOnly E (target.base.get store name))
        → RaisesOnly E (apply_to c auth target batch)
    unfolding apply_to
    apply_to_raises target batch h k = only-screen_batch [] target batch (h, k)
