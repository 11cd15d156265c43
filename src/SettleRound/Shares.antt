-- ===== src/SettleRound/Shares.antt =====
-- The shares that a settle round combines: their indices, and whose they are.
use dude_fs.Prelude.{
  ℕ, suc, ◌+◌, ◌≤◌, ◌<◌, true, none, some, List, [], ◌∷◌, ◌++◌, map, Bytes, ◌≡◌, refl, ap, subst,
  arith, length, All, select, contains, Option-cases, Bool-cases, inl, inr, eq_true, ◌==◌, list_eq,
  nat_eq,
}
use dude_fs.Prelude.Dict.{
  Dict, keys, lookup, lookup-All, length-keys, contains-lookup-none, contains-lookup-some,
}
use dude_fs.Prelude.Sets.{Distinct, Within, Within-refl, common, length-le_of_Within}
use dude_fs.Crypto.{Suite}
use dude_fs.Crypto.Bitmap.{signer_at, verify_each}
use dude_fs.Crypto.Indices.{Rising, Rising-weaken}
use dude_fs.SettleRound.Machine.{shares_from}

abbrev pub indices_of : List (ℕ × Bytes) → List ℕ
indices_of shares = map (λ s. s.0) shares

abbrev pub sigs_of : List (ℕ × Bytes) → List Bytes
sigs_of shares = map (λ s. s.1) shares

-- Some signers stand at a place and behind it.
abbrev pub AtPlaces : ℕ → List Bytes → List Bytes → Type 0
AtPlaces i [] signers = Unit
AtPlaces i (m ∷ ms) signers = (signer_at i signers ≡ m) × AtPlaces (suc i) ms signers

AtPlaces-later :
    (i : ℕ) (ms : List Bytes) (x : Bytes) (signers : List Bytes)
    → AtPlaces i ms signers
    → AtPlaces (suc i) ms (x ∷ signers)
unfolding signer_at
AtPlaces-later i [] x signers h = tt
AtPlaces-later i (m ∷ ms) x signers h = (h.0, AtPlaces-later (suc i) ms x signers h.1)

pub append-AtPlaces : (ms post : List Bytes) → AtPlaces 0 ms (ms ++ post)
unfolding signer_at
append-AtPlaces [] post = tt
append-AtPlaces (m ∷ ms) post = (refl, AtPlaces-later 0 ms m (ms ++ post) (append-AtPlaces ms post))

module _ (sigs : Dict Bytes Bytes) where
  shares_none :
      (i : ℕ) (m : Bytes) (ms : List Bytes)
      → lookup m sigs ≡ none
      → shares_from i (m ∷ ms) sigs ≡ shares_from (suc i) ms sigs
  unfolding shares_from
  shares_none i m ms e = rw (e, shares_from) refl

  shares_some :
      (i : ℕ) (m sig : Bytes) (ms : List Bytes)
      → lookup m sigs ≡ some sig
      → shares_from i (m ∷ ms) sigs ≡ (i, sig) ∷ shares_from (suc i) ms sigs
  unfolding shares_from
  shares_some i m sig ms e = rw (e, shares_from) refl

  pub shares_from-Rising : (i : ℕ) (ms : List Bytes) → Rising i (indices_of (shares_from i ms sigs))
  unfolding shares_from
  shares_from-Rising i [] = tt
  shares_from-Rising i (m ∷ ms) = elim (Option-cases (lookup m sigs)) [
    | inl e ↦ rw (shares_none i m ms e) (
        Rising-weaken i (suc i) (indices_of (shares_from (suc i) ms sigs)) (omega arith)
          (shares_from-Rising (suc i) ms))
    | inr (sig, e) ↦ rw (shares_some i m sig ms e) (omega arith, shares_from-Rising (suc i) ms)
  ]

  abbrev Below : ℕ → List ℕ → Type 0
  Below n is = All (λ k. k < n) is

  pub shares_from-Below :
      (i : ℕ) (ms : List Bytes) → Below (i + length ms) (indices_of (shares_from i ms sigs))
  unfolding shares_from
  shares_from-Below i [] = tt
  shares_from-Below i (m ∷ ms) =
      let e' : suc i + length ms ≡ i + suc (length ms) = omega arith in
      let rest =
        subst (λ n. Below n (indices_of (shares_from (suc i) ms sigs))) e'
          (shares_from-Below (suc i) ms) in
      elim (Option-cases (lookup m sigs)) [
        | inl e ↦ rw (shares_none i m ms e) rest
        | inr (sig, e) ↦ rw (shares_some i m sig ms e) (omega arith, rest)
      ]

  pub verify_each-shares_from :
      (c : Suite) (msg : Bytes) (signers : List Bytes) (i : ℕ) (ms : List Bytes)
      → AtPlaces i ms signers
      → All (λ e. c.verify e.0 msg e.1 ≡ true) sigs
      → verify_each c msg signers
          (indices_of (shares_from i ms sigs))
          (sigs_of (shares_from i ms sigs))
        ≡ true
  unfolding shares_from verify_each
  verify_each-shares_from c msg signers i [] at h = refl
  verify_each-shares_from c msg signers i (m ∷ ms) at h =
      let rest = verify_each-shares_from c msg signers (suc i) ms at.1 h in
      elim (Option-cases (lookup m sigs)) [
        | inl e ↦ rw (shares_none i m ms e) rest
        | inr (sig, e) ↦
            let one : c.verify m msg sig ≡ true =
              lookup-All (λ e. c.verify e.0 msg e.1 ≡ true) m sig sigs h e in
            rw (shares_some i m sig ms e, at.0, one) rest
      ]

  length-shares_from :
      (i : ℕ) (ms : List Bytes) → length (shares_from i ms sigs) ≡ length (common (keys sigs) ms)
  unfolding shares_from select
  length-shares_from i [] = refl
  length-shares_from i (m ∷ ms) = elim (Option-cases (lookup m sigs)) [
    | inl e ↦
        rw (shares_none i m ms e, contains-lookup-none m sigs e) (length-shares_from (suc i) ms)
    | inr (sig, e) ↦
        rw (shares_some i m sig ms e, contains-lookup-some m sig sigs e)
          (ap (λ (n : ℕ). suc n) (length-shares_from (suc i) ms))
  ]

  contains-common :
      (k : Bytes) (ms : List Bytes)
      → contains k (keys sigs) ≡ true
      → contains k ms ≡ true
      → contains k (common (keys sigs) ms) ≡ true
  unfolding contains select
  contains-common k [] h m = m
  contains-common k (x ∷ ms) h m = elim (Bool-cases (k == x)) [
    | inl e ↦
        let held : contains x (keys sigs) ≡ true =
          subst (λ y. contains y (keys sigs) ≡ true) (eq_true k x e) h in
        rw (held, e) refl
    | inr e ↦
        let rest = contains-common k ms h (rw e at m) in
        elim (Bool-cases (contains x (keys sigs))) [ inl t ↦ rw (t, e) rest | inr t ↦ rw t rest ]
  ]

  Within-common_self :
      (ks ms : List Bytes)
      → Within ks (keys sigs)
      → Within ks ms
      → Within ks (common (keys sigs) ms)
  Within-common_self [] ms h w = tt
  Within-common_self (k ∷ ks) ms h w =
      (contains-common k ms h.0 w.0, Within-common_self ks ms h.1 w.1)

  -- No share is missing: each signature held is that of a member of the roster.
  pub length-shares_from_ge :
      (ms : List Bytes)
      → Distinct (keys sigs)
      → Within (keys sigs) ms
      → length sigs ≤ length (shares_from 0 ms sigs)
  length-shares_from_ge ms d w = omega (
    arith,
    length-keys sigs,
    length-shares_from 0 ms,
    length-le_of_Within (keys sigs) (common (keys sigs) ms) d
        (Within-common_self (keys sigs) ms (Within-refl (keys sigs)) w),
  )
