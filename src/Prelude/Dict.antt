-- ===== src/Prelude/Dict.antt =====
-- Python's `dict`: an association list in insertion order, each key once.
use Prim.Native.Nat.{ℕ, ◌≤◌, suc}
use mathlib.Core.Path.{◌≡◌, refl, ap, sym, subst}
use mathlib.Core.Logic.{◌≢◌, inl, inr}
use mathlib.Core.Bool.{◌||◌, Bool, true, false}
use mathlib.Core.Option.{Option, none, some}
use mathlib.Core.List.{List, [], ◌∷◌, map}
use native.Mathlib.Omega.{arith}
use dude_fs.Prelude.Tests.{Bool-cases, eq_true, if◌then◌else◌, DecEq, ◌==◌}
use dude_fs.Prelude.Sets.{Distinct, Within}
use dude_fs.Prelude.Lists.{length, contains, All, select}

abbrev pub Dict {ℓ κ} : Type ℓ → Type κ → Type (ℓ ⊔ κ)
Dict K V = List (K × V)

abbrev pub keys {ℓ κ} : {K : Type ℓ} {V : Type κ} → Dict K V → List K
keys = map (λ e. e.0)

abbrev pub values {ℓ κ} : {K : Type ℓ} {V : Type κ} → Dict K V → List V
values = map (λ e. e.1)

abbrev pub or_else {ℓ} : {V : Type ℓ} → Option V → Option V → Option V
or_else none second = second
or_else (some v) second = some v

module _ {ℓ κ} {K : Type ℓ} {V : Type κ} ⦃d : DecEq K⦄ where
  -- m.get(k)
  unfoldable pub lookup : K → Dict K V → Option V
  lookup k [] = none
  lookup k ((j, v) ∷ m) = if j == k then some v else lookup k m

  -- m[k] = v: an old key keeps its place
  unfoldable pub insert : K → V → Dict K V → Dict K V
  insert k v [] = (k, v) ∷ []
  insert k v ((j, w) ∷ m) = if j == k then (j, v) ∷ m else (j, w) ∷ insert k v m

  -- m.pop(k, None)
  unfoldable pub remove : K → Dict K V → Dict K V
  remove k [] = []
  remove k ((j, w) ∷ m) = let rest = remove k m in if j == k then rest else (j, w) ∷ rest

  -- m.update(n)
  unfoldable pub update : Dict K V → Dict K V → Dict K V
  update m [] = m
  update m ((k, v) ∷ n) = update (insert k v m) n

  pub lookup-insert :
      (key probe : K) (new : V) (d : Dict K V)
      → lookup probe (insert key new d) ≡ (if key == probe then some new else lookup probe d)
  unfolding lookup insert
  lookup-insert key probe new [] = refl
  lookup-insert key probe new (row ∷ d) = ground (arith, lookup-insert key probe new d)

  pub lookup-remove :
      (k j : K) (m : Dict K V) → lookup j (remove k m) ≡ (if k == j then none else lookup j m)
  unfolding lookup remove
  lookup-remove k j [] = ground arith
  lookup-remove k j ((i, w) ∷ m) = ground (arith, lookup-remove k j m)

  pub length-insert-le : (k : K) (v : V) (m : Dict K V) → length m ≤ length (insert k v m)
  unfolding insert
  length-insert-le k v [] = omega arith
  length-insert-le k v ((i, w) ∷ m) = ground (arith, length-insert-le k v m)

  lookup_absent : (k : K) (m : Dict K V) → contains k (keys m) ≡ false → lookup k m ≡ none
  unfolding lookup contains
  lookup_absent k [] h = refl
  lookup_absent k ((j, v) ∷ m) h = ground (arith, lookup_absent k m)

  pub contains-keys-insert :
      (k j : K) (v : V) (m : Dict K V)
      → contains j (keys (insert k v m)) ≡ (j == k || contains j (keys m))
  unfolding insert contains
  contains-keys-insert k j v [] = refl
  contains-keys-insert k j v ((i, w) ∷ m) = ground (arith, contains-keys-insert k j v m)

  -- The keys of a dict stay distinct.
  pub insert-Distinct :
      (k : K) (v : V) (m : Dict K V) → Distinct (keys m) → Distinct (keys (insert k v m))
  unfolding insert contains
  insert-Distinct k v [] h = (refl, tt)
  insert-Distinct k v ((j, w) ∷ m) h = elim (Bool-cases (j == k)) [
    | inl e ↦ rw e h
    | inr e ↦ rw e (ground (arith, contains-keys-insert k j v m), insert-Distinct k v m h.1)
  ]

  pub update-Distinct : (m n : Dict K V) → Distinct (keys m) → Distinct (keys (update m n))
  unfolding update
  update-Distinct m [] h = h
  update-Distinct m ((k, v) ∷ n) h = update-Distinct (insert k v m) n (insert-Distinct k v m h)

  -- The entries of the second dict go before those of the first.
  pub lookup-update :
      (k : K) (m n : Dict K V)
      → Distinct (keys n)
      → lookup k (update m n) ≡ or_else (lookup k n) (lookup k m)
  unfolding lookup update
  lookup-update k m [] h = refl
  lookup-update k m ((j, v) ∷ n) h =
      ground (arith, lookup-update k (insert j v m) n h.1, lookup-insert j k v m, lookup_absent k n)

some_inj {ℓ} : {V : Type ℓ} (u v : V) → some u ≡ some v → u ≡ v
some_inj u v e = cc

module _ {ℓ κ} {K : Type ℓ} {V : Type κ} ⦃d : DecEq K⦄ where
  pub insert-Within :
      (k : K) (v : V) (m : Dict K V) (ks : List K)
      → contains k ks ≡ true
      → Within (keys m) ks
      → Within (keys (insert k v m)) ks
  unfolding insert
  insert-Within k v [] ks h w = (h, tt)
  insert-Within k v ((j, u) ∷ m) ks h w = elim (Bool-cases (j == k)) [
    | inl e ↦ rw e w
    | inr e ↦ rw e (w.0, insert-Within k v m ks h w.1)
  ]

  pub insert-All {μ} :
      (P : K × V → Type μ) (k : K) (v : V) (m : Dict K V)
      → P (k, v)
      → All P m
      → All P (insert k v m)
  unfolding insert
  insert-All P k v [] p h = (p, tt)
  insert-All P k v ((j, u) ∷ m) p h = elim (Bool-cases (j == k)) [
    | inl e ↦ rw e (subst (λ x. P (x, v)) (sym (eq_true j k e)) p, h.1)
    | inr e ↦ rw e (h.0, insert-All P k v m p h.1)
  ]

  -- What is left when a key is removed has other keys.
  pub remove-All {μ ν} :
      (P : K × V → Type μ) (Q : K × V → Type ν) (k : K) (m : Dict K V)
      → ((e : K × V) → P e → e.0 ≢ k → Q e)
      → All P m
      → All Q (remove k m)
  unfolding remove
  remove-All P Q k [] f h = tt
  remove-All P Q k ((j, u) ∷ m) f h = elim (Bool-cases (j == k)) [
    | inl e ↦ rw e (remove-All P Q k m f h.1)
    | inr e ↦ rw e (f (j, u) h.0 (λ s. ground (arith, e, s)), remove-All P Q k m f h.1)
  ]

  pub lookup-All {μ} :
      (P : K × V → Type μ) (k : K) (v : V) (m : Dict K V) → All P m → lookup k m ≡ some v → P (k, v)
  unfolding lookup
  lookup-All P k v [] h e = absurd (ground arith)
  lookup-All P k v ((j, u) ∷ m) h e = elim (Bool-cases (j == k)) [
    | inl q ↦
        let same : (j, u) ≡ (k, v) = λ i. (eq_true j k q i, some_inj u v (rw q at e) i) in
        subst P same h.0
    | inr q ↦ lookup-All P k v m h.1 (rw q at e)
  ]

  contains-keys-select :
      (p : K × V → Bool) (k : K) (m : Dict K V)
      → contains k (keys m) ≡ false
      → contains k (keys (select p m)) ≡ false
  unfolding contains select
  contains-keys-select p k [] h = refl
  contains-keys-select p k (e ∷ m) h = ground (arith, contains-keys-select p k m)

  pub select-Distinct :
      (p : K × V → Bool) (m : Dict K V) → Distinct (keys m) → Distinct (keys (select p m))
  unfolding select
  select-Distinct p [] h = tt
  select-Distinct p (e ∷ m) h = elim (Bool-cases (p e)) [
    | inl q ↦ rw q (contains-keys-select p e.0 m h.0, select-Distinct p m h.1)
    | inr q ↦ rw q (select-Distinct p m h.1)
  ]

  pub select-Within :
      (p : K × V → Bool) (m : Dict K V) (ks : List K)
      → Within (keys m) ks
      → Within (keys (select p m)) ks
  unfolding select
  select-Within p [] ks h = tt
  select-Within p (e ∷ m) ks h = elim (Bool-cases (p e)) [
    | inl q ↦ rw q (h.0, select-Within p m ks h.1)
    | inr q ↦ rw q (select-Within p m ks h.1)
  ]

pub length-keys {ℓ κ} : {K : Type ℓ} {V : Type κ} (m : Dict K V) → length (keys m) ≡ length m
length-keys [] = refl
length-keys (e ∷ m) = ap (λ (n : ℕ). suc n) (length-keys m)

module _ {ℓ κ} {K : Type ℓ} {V : Type κ} ⦃d : DecEq K⦄ where
  pub contains-lookup-none :
      (k : K) (m : Dict K V) → lookup k m ≡ none → contains k (keys m) ≡ false
  unfolding lookup contains
  contains-lookup-none k [] e = refl
  contains-lookup-none k ((j, v) ∷ m) e = elim (Bool-cases (j == k)) [
    | inl q ↦ absurd (ground arith)
    | inr q ↦ ground (arith, contains-lookup-none k m (rw q at e))
  ]

  pub contains-lookup-some :
      (k : K) (v : V) (m : Dict K V) → lookup k m ≡ some v → contains k (keys m) ≡ true
  unfolding lookup contains
  contains-lookup-some k v [] e = absurd (ground arith)
  contains-lookup-some k v ((j, w) ∷ m) e = elim (Bool-cases (j == k)) [
    | inl q ↦ ground arith
    | inr q ↦ ground (arith, contains-lookup-some k v m (rw q at e))
  ]
