-- ===== src/Mempool/Admit.antt =====
-- What `admit` takes in.
use dude_fs.Prelude.{
  ℕ, ℤ, ◌+◌, pos, negsuc, int_lt, Bool, true, false, not, ◌&&◌, Option, none, some, List, [], ◌∷◌,
  Bytes, Result, ok, >>=-eq-ok, ◌≡◌, ◌≢◌, ◌⊎◌, refl, ap, ◌∙◌, subst, arith, if◌then◌else◌, ltb,
  length, All, any, contains, Bool-cases, inl, inr, ◌==◌, eq_self, eq_true, ℤ_eq, list_eq, nat_eq,
}
use dude_fs.Prelude.Dict.{keys, values, lookup, insert, lookup-insert}
use dude_fs.Crypto.{Suite}
use dude_fs.Ops.{Mutation, set, del, SignedTransaction, op_hash, verify_tx}
use dude_fs.Layer.Overlay.{LayerError}
use dude_fs.Settle.Evaluate.{Authoriser}
use dude_fs.Settle.Screen.{Screened, Reject, would_apply}
use dude_fs.Mempool.Machine.{
  Refusal, duplicate, cannot_apply, Tunables, Ledger, Mempool, Bucketed, add_nat, bucket,
  same_mutation, repeats_op, mutations, valid_at_all, valid, is_pending, later, bucket_or_empty,
  land, admit, admitted,
}

-- A refusal is not an acceptance.
refused_not :
    {x : Refusal} → ¬ (◌≡◌ {A = Result LayerError (Option Refusal)} (ok (some x)) (ok none))
refused_not e = cc

passes :
    (b : Bool) (why : Refusal) (m : Result LayerError (Option Refusal))
    → (if b then ok (some why) else m) ≡ ok none
    → (b ≡ false) × (m ≡ ok none)
passes true why m h = absurd (refused_not h)
passes false why m h = (refl, h)

no_rejects :
    (rejects : List Reject)
    → ◌≡◌ {A = Result LayerError (Option Refusal)}
        (if ltb 0 (length rejects) then ok (some cannot_apply) else ok none)
        (ok none)
    → rejects ≡ []
no_rejects [] h = refl
no_rejects (x ∷ xs) h = absurd (ground arith)

-- No two elements are equal.
abbrev pub Apart : {A : Type 0} → List A → Type 0
Apart [] = Unit
Apart (x ∷ xs) = All (λ y. x ≢ y) xs × Apart xs

same_self : (m : Mutation) → same_mutation m m ≡ true
unfolding same_mutation
same_self (set store name value epoch) =
    rw (eq_self store, eq_self name, eq_self value, eq_self epoch) refl
same_self (del store name) = rw (eq_self store, eq_self name) refl

different :
    (m : Mutation) (ms : List Mutation) → any (same_mutation m) ms ≡ false → All (λ y. m ≢ y) ms
unfolding any
different m [] h = tt
different m (y ∷ ys) h = (
  λ e.
      let same : same_mutation m y ≡ true = subst (λ x. same_mutation m x ≡ true) e (same_self m) in
      absurd (ground (arith, h, same)),
  different m ys (ground arith),
)

repeats_op-Apart : (ms : List Mutation) → repeats_op ms ≡ false → Apart ms
unfolding repeats_op
repeats_op-Apart [] h = tt
repeats_op-Apart (m ∷ ms) h = (different m ms (ground arith), repeats_op-Apart ms (ground arith))

any-All : {A : Type 0} (p : A → Bool) (xs : List A) → any p xs ≡ false → All (λ x. p x ≡ false) xs
unfolding any
any-All p [] h = tt
any-All p (x ∷ xs) h = (ground arith, any-All p xs (ground arith))

abbrev pub in_bucket : Bytes → Option Bucketed → Option SignedTransaction
in_bucket d none = none
in_bucket d (some held) = lookup d held

-- The transaction that is pending in a bucket under a hash.
abbrev pub pending_at : ℤ → Bytes → Mempool → Option SignedTransaction
pending_at b d m = in_bucket d (lookup b m)

int_lt_irrefl : (a : ℤ) → int_lt a a ≡ false
unfolding int_lt
int_lt_irrefl (pos a) = ground arith
int_lt_irrefl (negsuc a) = ground arith

int_lt_asym : (a b : ℤ) → int_lt a b ≡ true → int_lt b a ≡ false
unfolding int_lt
int_lt_asym (pos a) (pos b) h = ground arith
int_lt_asym (pos a) (negsuc b) h = absurd (cc)
int_lt_asym (negsuc a) (pos b) h = refl
int_lt_asym (negsuc a) (negsuc b) h = ground arith

module _ (c : Suite) (t : Tunables) (ledger : Ledger) (auth : Authoriser) where
  later_lem :
      (a b : ℤ)
      → ((later c t ledger auth a b ≡ a) ⊎ (later c t ledger auth a b ≡ b))
        × (int_lt (later c t ledger auth a b) a ≡ false)
        × (int_lt (later c t ledger auth a b) b ≡ false)
  later_lem a b = elim (Bool-cases (int_lt a b)) [
    | inl e ↦ rw e (inr refl, int_lt_asym a b e, int_lt_irrefl b)
    | inr e ↦ rw e (inl refl, int_lt_irrefl a, e)
  ]

  or_empty_lem :
      (d : Bytes) (o : Option Bucketed)
      → lookup d (bucket_or_empty c t ledger auth o) ≡ in_bucket d o
  unfolding lookup
  or_empty_lem d none = refl
  or_empty_lem d (some held) = refl

  land_lem :
      (tx : SignedTransaction) (at probe : ℤ) (d : Bytes) (m : Mempool)
      → pending_at probe d (land c t ledger auth tx at m)
        ≡ (if at == probe && op_hash c tx == d then some tx else pending_at probe d m)
  unfolding land
  land_lem tx at probe d m =
      let old = bucket_or_empty c t ledger auth (lookup at m) in
      ap (in_bucket d) (lookup-insert at probe (insert (op_hash c tx) tx old) m)
      ∙ elim (Bool-cases (at == probe)) [
        | inr e ↦ rw e refl
        | inl e ↦
            let behind : lookup d old ≡ pending_at probe d m =
              or_empty_lem d (lookup at m) ∙ ap (λ b. pending_at b d m) (eq_true at probe e) in
            rw e (
              lookup-insert (op_hash c tx) d tx old
              ∙ (λ i. if op_hash c tx == d then some tx else behind i))
      ]

  -- If `admit` takes a transaction in, then its hash was in no bucket, its signature verifies, no two
  -- of its mutations are equal, it has not settled, it applies alone to the ledger without being
  -- refused, and its time stamp is within the admission window on both sides. The bucket it is filed
  -- in is that of its time stamp or that of the present and before neither of them, and afterwards
  -- the transaction stands there under its hash, and all else is pending where it was.
  pub admit_sound :
      (tx : SignedTransaction) (now : ℕ) (m m' : Mempool)
      → admit c t ledger auth tx now m ≡ ok (none, m')
      → All (λ held. contains (op_hash c tx) (keys held) ≡ false) (values m)
        × (verify_tx c tx ≡ true)
        × Apart (mutations tx)
        × (ledger.has_settled (op_hash c tx) ≡ false)
        × ((s : Screened) × (would_apply c auth ledger.reader (tx ∷ []) ≡ ok s) × (s.rejects ≡ []))
        × (int_lt (add_nat tx.ts t.w_admit) (pos now) ≡ false)
        × (int_lt (pos (now + t.w_admit)) tx.ts ≡ false)
        × ((b : ℤ) × ((b ≡ bucket t tx.ts) ⊎ (b ≡ bucket t (pos now)))
            × (int_lt b (bucket t tx.ts) ≡ false)
            × (int_lt b (bucket t (pos now)) ≡ false)
            × ((probe : ℤ) (d : Bytes)
                → pending_at probe d m'
                  ≡ (if b == probe && op_hash c tx == d then some tx else pending_at probe d m)))
  unfolding admit valid valid_at_all
  admit_sound tx now m m' h = elim (Bool-cases (is_pending c t ledger auth (op_hash c tx) m)) [
    | inl held ↦ absurd (not_taken (rw (admit, held) at h))
    | inr new ↦
        let (why, judged, filed) =
          >>=-eq-ok (valid c t ledger auth tx now) _ (rw (admit, new) at h) in
        let (none_why, taken) = outcome why filed in
        let (not_old, h₁) =
          passes (int_lt (add_nat tx.ts t.w_admit) (pos now)) _ _ (rw none_why at judged) in
        let (not_new, h₂) = passes (int_lt (pos (now + t.w_admit)) tx.ts) _ _ h₁ in
        let (signed, h₃) = passes (not (verify_tx c tx)) _ _ h₂ in
        let (once, h₄) = passes (repeats_op (mutations tx)) _ _ h₃ in
        let (fresh, h₅) = passes (ledger.has_settled (op_hash c tx)) _ _ h₄ in
        let (s, screened, clean) = >>=-eq-ok (would_apply c auth ledger.reader (tx ∷ [])) _ h₅ in
        (
          any-All _ (values m) new,
          ground arith,
          repeats_op-Apart (mutations tx) once,
          fresh,
          (s, screened, no_rejects s.rejects clean),
          not_old,
          not_new,
          (
            later c t ledger auth (bucket t tx.ts) (bucket t (pos now)),
            (later_lem (bucket t tx.ts) (bucket t (pos now))).0,
            (later_lem (bucket t tx.ts) (bucket t (pos now))).1,
            (later_lem (bucket t tx.ts) (bucket t (pos now))).2,
            λ probe d. ap (pending_at probe d) taken ∙ land_lem tx _ probe d m,
          ),
        )
  ]
    where
      not_taken : ¬ (
          ◌≡◌ {A = Result LayerError (Option Refusal × Mempool)}
            (ok (some duplicate, m))
            (ok (none, m')))
      not_taken e = cc

      outcome :
          (why : Option Refusal)
          → ◌≡◌ {A = Result LayerError (Option Refusal × Mempool)}
              (ok (admitted c t ledger auth tx now m why))
              (ok (none, m'))
          → (why ≡ none)
            × (m'
                ≡ land c t ledger auth tx
                    (later c t ledger auth (bucket t tx.ts) (bucket t (pos now)))
                    m)
      outcome none e = (refl, cc)
      outcome (some w) e = absurd (cc)
