-- ===== src/Mempool/Evict.antt =====
-- What `evict_settled` leaves.
use dude_fs.Prelude.{
  ℤ, true, false, not, none, [], ◌∷◌, Bytes, ◌≡◌, refl, ap, sym, ◌∙◌, subst, arith, if◌then◌else◌,
  select, All, contains, Bool-cases, inl, inr, ◌==◌, eq_true, ℤ_eq, list_eq, nat_eq,
}
use dude_fs.Prelude.Dict.{keys, lookup}
use dude_fs.Prelude.Sets.{Distinct}
use dude_fs.Crypto.{Suite}
use dude_fs.Settle.Evaluate.{Authoriser}
use dude_fs.Mempool.Machine.{Tunables, Ledger, Mempool, Bucketed, is_occupied, evict_settled}
use dude_fs.Mempool.Admit.{pending_at, in_bucket}

module _ (c : Suite) (t : Tunables) (ledger : Ledger) (auth : Authoriser) where
  abbrev unsettled : Bucketed → Bucketed
  unsettled held = select (λ x. not (ledger.has_settled x.0)) held

  lookup-unsettled :
      (d : Bytes) (held : Bucketed)
      → lookup d (unsettled held) ≡ (if ledger.has_settled d then none else lookup d held)
  unfolding lookup select
  lookup-unsettled d [] = elim (Bool-cases (ledger.has_settled d)) [
    | inl e ↦ rw e refl
    | inr e ↦ rw e refl
  ]
  lookup-unsettled d ((k, tx) ∷ held) = elim (Bool-cases (k == d)) [
    | inl e ↦
        let same : ledger.has_settled k ≡ ledger.has_settled d =
          ap (λ x. ledger.has_settled x) (eq_true k d e) in
        ground (arith, e, same, lookup-unsettled d held)
    | inr e ↦ ground (arith, e, lookup-unsettled d held)
  ]

  -- A bucket that the mempool does not have is not made.
  lookup-evicted :
      (b : ℤ) (m : Mempool)
      → contains b (keys m) ≡ false
      → lookup b (evict_settled c t ledger auth m) ≡ none
  unfolding lookup evict_settled select contains
  lookup-evicted b [] h = refl
  lookup-evicted b (e ∷ m) h = ground (arith, h, lookup-evicted b m)

  not_occupied :
      (b : ℤ) (held : Bucketed) → is_occupied c t ledger auth (b, held) ≡ false → held ≡ []
  not_occupied b [] h = refl
  not_occupied b (x ∷ held) h = absurd (ground arith)

  evicted :
      (b : ℤ) (d : Bytes) (m : Mempool)
      → Distinct (keys m)
      → pending_at b d (evict_settled c t ledger auth m)
        ≡ (if ledger.has_settled d then none else pending_at b d m)
  unfolding lookup evict_settled select
  evicted b d [] h = elim (Bool-cases (ledger.has_settled d)) [
    | inl e ↦ rw e refl
    | inr e ↦ rw e refl
  ]
  evicted b d ((k, held) ∷ m) h =
      elim (Bool-cases (is_occupied c t ledger auth (k, unsettled held))) [
        | inl full ↦ elim (Bool-cases (k == b)) [
          | inl e ↦ rw (full, e) (lookup-unsettled d held)
          | inr e ↦ rw (full, e) (evicted b d m h.1)
        ]
        | inr empty ↦ elim (Bool-cases (k == b)) [
          | inl e ↦
              rw (empty, e)
                (ap (in_bucket d) (
                    lookup-evicted b m
                      (subst (λ x. contains x (keys m) ≡ false) (eq_true k b e) h.0))
                  ∙ sym (ap (lookup d) (not_occupied k (unsettled held) empty))
                  ∙ lookup-unsettled d held)
          | inr e ↦ rw (empty, e) (evicted b d m h.1)
        ]
      ]

  all_occupied :
      (m : Mempool)
      → All (λ e. is_occupied c t ledger auth e ≡ true) (evict_settled c t ledger auth m)
  unfolding evict_settled select
  all_occupied [] = tt
  all_occupied (e ∷ m) = elim (Bool-cases (is_occupied c t ledger auth (e.0, unsettled e.1))) [
    | inl full ↦ rw full (full, all_occupied m)
    | inr empty ↦ rw empty (all_occupied m)
  ]

  -- No bucket occurs twice in a mempool. Then after `evict_settled` a transaction is pending in a
  -- bucket under a hash exactly if it was before and the hash has not settled, and no bucket is empty.
  pub evict_settled_exact :
      (m : Mempool)
      → Distinct (keys m)
      → ((b : ℤ) (d : Bytes)
          → pending_at b d (evict_settled c t ledger auth m)
            ≡ (if ledger.has_settled d then none else pending_at b d m))
        × All (λ e. is_occupied c t ledger auth e ≡ true) (evict_settled c t ledger auth m)
  evict_settled_exact m h = (λ b d. evicted b d m h, all_occupied m)
