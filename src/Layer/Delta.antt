-- ===== src/Layer/Delta.antt =====
-- Reading an overlay after `apply` and `absorb`.
use dude_fs.Prelude.{ℤ, Bytes, ok, ◌==◌, prod_eq, list_eq, nat_eq, ℤ_eq, if◌then◌else◌, ◌≡◌, arith}
use dude_fs.Prelude.Dict.{insert, update, lookup-insert, lookup-update, keys}
use dude_fs.Prelude.Sets.{Distinct}
use dude_fs.Ops.{Mutation}
use dude_fs.Layer.Overlay.{Overlay, get, reader, apply, absorb, written, key_of}

module _ (store : ℤ) (name : Bytes) where
  -- After a write to one key an overlay shows the written row there, and every other key as before.
  pub get-apply :
      (o o' : Overlay) (m : Mutation) (cred : Bytes)
      → apply o m cred ≡ ok o'
      → get o' store name
        ≡ (if key_of m == (store, name) then ok (written m cred) else get o store name)
  unfolding apply get
  get-apply o o' m cred h =
      let shape : o'.delta ≡ insert (key_of m) (written m cred) o.delta = ground arith in
      let base : o'.base ≡ o.base = ground arith in
      rw (shape, base)
        (ground (arith, lookup-insert (key_of m) (store, name) (written m cred) o.delta))

  -- An overlay that absorbed a child reads as the child did, if the child was made over it and the
  -- keys of the child's delta are distinct.
  pub get-absorb :
      (o child o' : Overlay)
      → child.base ≡ reader o
      → Distinct (keys child.delta)
      → absorb o child ≡ ok o'
      → get o' store name ≡ get child store name
  unfolding absorb get
  get-absorb o child o' over d h =
      let shape : o'.delta ≡ update o.delta child.delta = ground arith in
      let base : o'.base ≡ o.base = ground arith in
      rw (shape, base, over) (ground (arith, lookup-update (store, name) o.delta child.delta d))
