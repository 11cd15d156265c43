-- ===== src/Ops/Effects.antt =====
-- What a transaction of dude/store/ops.py reads and writes.
use dude_fs.Prelude.{
  ℤ, Option, none, some, List, [], ◌∷◌, ◌++◌, map, Bytes, ◌≡◌, refl, ap, ◌==◌, prod_eq, ℤ_eq,
  list_eq, nat_eq, Bool-cases, inl, inr,
}
use dude_fs.Prelude.Dict.{Dict, keys, insert, update}
use dude_fs.Crypto.{Suite}
use dude_fs.Ops.Types.{
  Mutation, set, del, store_of, name_of, Predicate, absent, holds, exists, holds_any, Step,
  Transaction,
}
use dude_fs.Ops.Encode.{value_digest}

abbrev pub Slot : Type 0
Slot = ℤ × Bytes

abbrev pub slot_of : Mutation → Slot
slot_of m = (store_of m, name_of m)

abbrev pub read_slot : Predicate → Slot
read_slot (absent store name) = (store, name)
read_slot (holds store name digest) = (store, name)
read_slot (exists store name) = (store, name)
read_slot (holds_any store name digests) = (store, name)

abbrev pub mutations_of : Transaction → List Mutation
mutations_of t = map (λ s. s.mutation) t.steps

unfoldable pub join_guards : List Step → List Predicate
join_guards [] = []
join_guards (s ∷ steps) = s.guards ++ join_guards steps

-- Each slot once, in the order of the first time it is named: a dict of slots and `None`.
abbrev pub first_named : List Slot → List Slot
first_named slots = keys (update [] (map (λ s. (s, tt {0})) slots))

unfoldable pub writes_of : Transaction → List Slot
writes_of t = first_named (map slot_of (mutations_of t))

unfoldable pub reads_of : Transaction → List Slot
unfolding join_guards
reads_of t = first_named (map read_slot (join_guards t.steps))

abbrev pub effect_of : Suite → Mutation → Option Bytes
effect_of c (set store name value epoch) = some (value_digest c value)
effect_of c (del store name) = none

unfoldable pub effects : Suite → Transaction → Dict Slot (Option Bytes)
effects c t = update [] (map (λ m. (slot_of m, effect_of c m)) (mutations_of t))

module _ {V W : Type 0} where
  keys-insert :
      (k : Slot) (v : V) (w : W) (m : Dict Slot V) (n : Dict Slot W)
      → keys m ≡ keys n
      → keys (insert k v m) ≡ keys (insert k w n)
  unfolding insert
  keys-insert k v w [] [] h = refl
  keys-insert k v w [] (y ∷ n) h = absurd (cc)
  keys-insert k v w (x ∷ m) [] h = absurd (cc)
  keys-insert k v w (x ∷ m) (y ∷ n) h =
      let first : x.0 ≡ y.0 = cc in
      let rest : keys m ≡ keys n = cc in
      elim (Bool-cases (y.0 == k)) [
        | inl same ↦ rw (first, same) cc
        | inr other ↦ rw (first, other) (ap (◌∷◌ y.0) (keys-insert k v w m n rest))
      ]

  keys-update :
      (f : Mutation → V) (g : Slot → W) (ms : List Mutation) (m : Dict Slot V) (n : Dict Slot W)
      → keys m ≡ keys n
      → keys (update m (map (λ x. (slot_of x, f x)) ms))
        ≡ keys (update n (map (λ s. (s, g s)) (map slot_of ms)))
  unfolding update
  keys-update f g [] m n h = h
  keys-update f g (x ∷ ms) m n h =
      keys-update f g ms _ _ (keys-insert (slot_of x) (f x) (g (slot_of x)) m n h)

-- The slots that a transaction has an effect on are those it writes, in the same order.
pub keys-effects : (c : Suite) (t : Transaction) → keys (effects c t) ≡ writes_of t
unfolding effects writes_of
keys-effects c t = keys-update (effect_of c) (λ s. tt) (mutations_of t) [] [] refl
