-- ===== src/Layer/Overlay.antt =====
-- `Reader`, `Overlay` and `holds` of dude/store/layer.py.
use dude_fs.Prelude.{
  ℤ, Bool, true, false, Option, none, some, List, [], ◌∷◌, ◌++◌, Bytes, Result, ok, err, ◌>>=◌,
  ◌==◌, prod_eq, list_eq, nat_eq, ℤ_eq, contains, if◌then◌else◌,
}
use dude_fs.Prelude.Dict.{Dict, lookup, insert, update}
use dude_fs.Crypto.{Suite}
use dude_fs.Ops.{
  Held, Mutation, set, del, store_of, name_of, Predicate, absent, holds, exists, holds_any,
  value_digest,
}

-- `raised` is an exception, by its name, that a reader or an authoriser raises, for one an
-- OverflowError of a store number that does not fit its field.
pub data LayerError : Type 0 where
  frozen_layer : LayerError
  raised : Bytes → LayerError

-- What `evaluate` and its callees read.
pub record Reader : Type 0 where
  pub get : ℤ → Bytes → Result LayerError (Option Held)
  pub anchor : Bytes

abbrev pub Key : Type 0
Key = ℤ × Bytes

-- A key that the delta holds with `none` is deleted.
pub record Overlay : Type 0 where
  pub base : Reader
  pub delta : Dict Key (Option Held)
  pub log : List Mutation
  pub frozen : Bool

abbrev pub new : Reader → Overlay
new base = record { base = base; delta = []; log = []; frozen = false }

unfoldable pub get : Overlay → ℤ → Bytes → Result LayerError (Option Held)
get o store name = elim (lookup (store, name) o.delta) [
  | none ↦ o.base.get store name
  | some held ↦ ok held
]

-- An overlay is a reader again.
abbrev pub reader : Overlay → Reader
reader o = record { get = get o; anchor = o.base.anchor }

unfoldable pub freeze : Overlay → Overlay
freeze o = record o { frozen = true }

-- `Held(m.value, m.epoch, cred) if isinstance(m, ops.Set) else None`
abbrev pub written : Mutation → Bytes → Option Held
written (set store name value epoch) cred =
    some (record { value = value; epoch = epoch; cred = cred })
written (del store name) cred = none

abbrev pub key_of : Mutation → Key
key_of m = (store_of m, name_of m)

unfoldable pub apply : Overlay → Mutation → Bytes → Result LayerError Overlay
apply o m cred =
    if o.frozen
    then err frozen_layer
    else ok (record o { delta = insert (key_of m) (written m cred) o.delta; log = o.log ++ m ∷ [] })

unfoldable pub absorb : Overlay → Overlay → Result LayerError Overlay
absorb o child =
    if o.frozen
    then err frozen_layer
    else ok (record o { delta = update o.delta child.delta; log = o.log ++ child.log })

abbrev pub store_of_guard : Predicate → ℤ
store_of_guard (absent store name) = store
store_of_guard (exists store name) = store
store_of_guard (holds_any store name digests) = store
store_of_guard (holds store name digest) = store

abbrev pub name_of_guard : Predicate → Bytes
name_of_guard (absent store name) = name
name_of_guard (exists store name) = name
name_of_guard (holds_any store name digests) = name
name_of_guard (holds store name digest) = name

abbrev held_digest : Suite → Option Held → Option Bytes
held_digest c none = none
held_digest c (some held) = some (value_digest c held.value)

abbrev matches : Option Bytes → (Bytes → Bool) → Bool
matches none test = false
matches (some digest) test = test digest

abbrev is_some : Option Held → Bool
is_some none = false
is_some (some held) = true

-- `holds(reader, pred)`, of the row that was read
unfoldable pub guard_of : Suite → Option Held → Predicate → Bool
guard_of c cur (absent store name) = if is_some cur then false else true
guard_of c cur (exists store name) = is_some cur
guard_of c cur (holds_any store name digests) =
    matches (held_digest c cur) (λ d. contains d digests)
guard_of c cur (holds store name digest) = matches (held_digest c cur) (λ d. d == digest)

unfoldable pub guard_holds : Suite → Reader → Predicate → Result LayerError Bool
unfolding guard_of
guard_holds c r p = r.get (store_of_guard p) (name_of_guard p) >>= λ cur. ok (guard_of c cur p)

-- `all(holds(layer, g) for g in guards)`, which stops at the first that fails
unfoldable pub all_hold : Suite → Reader → List Predicate → Result LayerError Bool
unfolding guard_holds
all_hold c r [] = ok true
all_hold c r (p ∷ ps) =
    let rest = all_hold c r ps in guard_holds c r p >>= λ b. if b then rest else ok false
