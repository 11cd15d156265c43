-- ===== src/Smt/Forged.antt =====
-- `_absent` on a proof without siblings whose occupant is the root.
use dude_fs.Prelude.{
  ℤ, Bytes, none, some, [], ok, ◌≡◌, ◌≢◌, refl, true, list_eq, nat_eq, prod_eq, eq_self, eq_false,
  ℕ_discrete, list_discrete, prod_discrete,
}
use dude_fs.Crypto.{Suite}
use dude_fs.Smt.{Proof, path_of, bounds, lower, upper, head_bytes, absent_at, fold_from, verify}

-- The root under another path, with nothing folded over it.
abbrev pub forged : Bytes → Bytes → Proof
forged other root = record { siblings = []; occupant = some (other, root) }

module _ (c : Suite) where
  -- Whatever a tree holds, and for every name: the proof without siblings, whose occupant is a path
  -- other than the name's with the root itself for a leaf, is accepted as a proof of absence.
  pub verify-forged :
      (root other name : Bytes) (store : ℤ)
      → other ≢ path_of c store name
      → verify c root store name none (forged other root) ≡ ok true
  unfolding verify absent_at bounds lower upper head_bytes fold_from ℕ_discrete list_discrete
      prod_discrete
  verify-forged root other name store h =
      rw (eq_false other (path_of c store name) h, eq_self root) refl
