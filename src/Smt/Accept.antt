-- ===== src/Smt/Accept.antt =====
-- `verify` accepts what `Tree.prove` makes: of presence where the name has a row, else of absence.
use dude_fs.Prelude.{
  ℕ, ◌<◌, ℤ, Bool, true, Option, none, some, List, [], ◌∷◌, Bytes, ok, ◌≡◌, ◌≢◌, refl, ap, sym, ◌∙◌,
  subst, arith, length, list_eq, nat_eq, prod_eq, eq_self, eq_false, All, ok_inj, ℕ_discrete,
}
use dude_fs.Crypto.{Suite, digest_size}
use dude_fs.Crypto.Bitmap.{zeros}
use dude_fs.Ops.{Held}
use dude_fs.Smt.{
  Proof, max_depth, empty_hash, lower, upper, head_bytes, bounds, fold, leaf_hash, path_of,
  present_at, present, absent_at, absent, verify_at, verify,
}
use dude_fs.Smt.Tree.{Row, Memo, leaves, first_found, root, prove}
use dude_fs.Smt.Paths.{IsPath}
use dude_fs.Smt.Plain.{plain, RightMemo, hash_under-Agrees}
use dude_fs.Smt.Complete.{terminal, Stops, prove_from-folds, prove_from-Stops}
use dude_fs.Smt.Found.{In, found_held, SameBounds, found_other}

abbrev pub held_row : Row → Held
held_row r = record { value = r.value; epoch = r.epoch; cred = r.cred }

pub empty_hash-IsPath : IsPath empty_hash
unfolding zeros
empty_hash-IsPath = omega arith

lower-zero : (path : Bytes) → lower path 0 ≡ lower empty_hash 0
unfolding lower head_bytes ℕ_discrete
lower-zero path = refl

bounds_lem :
    (path : Bytes) (depth : ℕ)
    → length path ≡ digest_size
    → depth < max_depth
    → bounds path depth ≡ ok (lower path depth, upper path depth)
unfolding bounds
bounds_lem path depth w h = ground arith

module _ (c : Suite) (live : List Row) (memoize : Bool) where
  -- The making of a root and then of a proof: what the proof folds to, and where it stopped.
  record Made (h path : Bytes) (p : Proof) : Type 0 where
    folded : fold c path (terminal p.occupant) p.siblings ≡ h
    stops : Stops c live memoize path 0 p
    few_siblings : length p.siblings < max_depth

  looked_at :
      {path : Bytes} {p : Proof} (t : Stops c live memoize path 0 p)
      → leaves c live path (length p.siblings) ≡ ok t.found
  looked_at {path} {p} t =
      subst (λ (d : ℕ). leaves c live path d ≡ ok t.found) (omega arith) t.looked

  prove-Made :
      (m : Memo) (rooted : Bytes × Memo) (store : ℤ) (name : Bytes) (out : Proof × Memo)
      → IsPath (path_of c store name)
      → RightMemo c live m
      → root c memoize live m ≡ ok rooted
      → prove c memoize live rooted.1 store name ≡ ok out
      → length out.0.siblings < max_depth
      → Made rooted.0 (path_of c store name) out.0
  unfolding root prove
  prove-Made m rooted store name out p right hr hp short =
      let path = path_of c store name in
      let (at_root, right') =
        hash_under-Agrees c live memoize max_depth m empty_hash 0 rooted empty_hash-IsPath refl
          right hr in
      let folds =
        prove_from-folds c live memoize max_depth rooted.1 path 0 out p refl right' hp short in
      record {
        folded =
            sym (
              ok_inj (sym at_root ∙ ap (plain c live max_depth 0) (sym (lower-zero path)) ∙ folds));
        stops = prove_from-Stops c live memoize max_depth rooted.1 path 0 out hp short;
        few_siblings = short;
      }

  verify-short :
      (h : Bytes) (store : ℤ) (name : Bytes) (held : Option Held) (p : Proof)
      → length p.siblings < max_depth
      → verify c h store name held p ≡ verify_at c h (path_of c store name) held p
  unfolding verify
  verify-short h store name held p short = ground arith

  accept_held :
      (h : Bytes) (store : ℤ) (name t : Bytes) (held : Held) (p : Proof)
      → length p.siblings < max_depth
      → p.occupant ≡ some (path_of c store name, t)
      → leaf_hash c (path_of c store name) (c.h held.value) (c.h held.cred) held.epoch ≡ ok t
      → fold c (path_of c store name) t p.siblings ≡ h
      → verify c h store name (some held) p ≡ ok true
  unfolding verify_at present present_at
  accept_held h store name t held p short occ leaf folded =
      rw
        (
          verify-short h store name (some held) p short,
          occ,
          eq_self (path_of c store name),
          leaf,
          eq_self t,
          folded,
          eq_self h,
        )
        refl

  accept_none :
      (h : Bytes) (store : ℤ) (name : Bytes) (p : Proof)
      → length p.siblings < max_depth
      → p.occupant ≡ none
      → fold c (path_of c store name) empty_hash p.siblings ≡ h
      → verify c h store name none p ≡ ok true
  unfolding verify_at absent
  accept_none h store name p short occ folded =
      rw (verify-short h store name none p short, occ, folded, eq_self h) refl

  accept_other :
      (h : Bytes) (store : ℤ) (name : Bytes) (o : Bytes × Bytes) (p : Proof)
      → length p.siblings < max_depth
      → length (path_of c store name) ≡ digest_size
      → p.occupant ≡ some o
      → SameBounds (path_of c store name) (length p.siblings) o
      → fold c (path_of c store name) o.1 p.siblings ≡ h
      → verify c h store name none p ≡ ok true
  unfolding verify_at absent absent_at
  accept_other h store name o p short w occ same folded =
      let path = path_of c store name in
      let d = length p.siblings in
      rw
        (
          verify-short h store name none p short,
          occ,
          eq_false o.0 path same.0,
          bounds_lem o.0 d same.1 short,
          bounds_lem path d w short,
          same.2,
          same.3,
          eq_self {A = Bytes × Bytes} (lower path d, upper path d),
          folded,
          eq_self h,
        )
        refl

  absent_of :
      (h : Bytes) (store : ℤ) (name : Bytes) (p : Proof) (found : List (Bytes × Bytes))
      → length p.siblings < max_depth
      → length (path_of c store name) ≡ digest_size
      → p.occupant ≡ first_found found
      → All (SameBounds (path_of c store name) (length p.siblings)) found
      → fold c (path_of c store name) (terminal p.occupant) p.siblings ≡ h
      → verify c h store name none p ≡ ok true
  absent_of h store name p [] short w occ others folded =
      accept_none h store name p short occ
        (subst (λ o. fold c (path_of c store name) (terminal o) p.siblings ≡ h) occ folded)
  absent_of h store name p (o ∷ rest) short w occ others folded =
      accept_other h store name o p short w occ others.0
        (subst (λ x. fold c (path_of c store name) (terminal x) p.siblings ≡ h) occ folded)

  -- The row of a name is held, its path has the width of a digest, and every entry of the memo stands
  -- for a place of the tree and is its hash. If the tree then makes its root and a proof for the name, with fewer siblings
  -- than a path has bits, the proof is accepted as one that the row is present under that root.
  pub verify-prove_held :
      (m : Memo) (rooted : Bytes × Memo) (store : ℤ) (name : Bytes) (r : Row) (out : Proof × Memo)
      → IsPath (path_of c store name)
      → r.path ≡ path_of c store name
      → In r live
      → RightMemo c live m
      → root c memoize live m ≡ ok rooted
      → prove c memoize live rooted.1 store name ≡ ok out
      → length out.0.siblings < max_depth
      → verify c rooted.0 store name (some (held_row r)) out.0 ≡ ok true
  verify-prove_held m rooted store name r out p same inside right hr hp short =
      let made = prove-Made m rooted store name out p right hr hp short in
      let (t, alone, leaf) =
        found_held c live (length out.0.siblings) r made.stops.found made.stops.hash
          (subst IsPath (sym same) p) (omega (arith, short)) inside
          (subst (λ x. leaves c live x (length out.0.siblings) ≡ ok made.stops.found) (sym same)
            (looked_at made.stops))
          made.stops.is_few in
      let occ : out.0.occupant ≡ some (path_of c store name, t) =
        made.stops.is_first ∙ ap first_found alone ∙ (λ i. some (same i, t)) in
      accept_held rooted.0 store name t (held_row r) out.0 short occ
        (subst (λ x. leaf_hash c x (c.h r.value) (c.h r.cred) r.epoch ≡ ok t) same leaf)
        (subst (λ o. fold c (path_of c store name) (terminal o) out.0.siblings ≡ rooted.0) occ
          made.folded)

  -- No row has the path of a name, the paths have the width of a digest, and every entry of the memo
  -- stands for a place of the tree and is its hash. If the tree then makes its root and a proof for the name, with fewer
  -- siblings than a path has bits, the proof is accepted as one that the name is absent under that
  -- root.
  pub verify-prove_absent :
      (m : Memo) (rooted : Bytes × Memo) (store : ℤ) (name : Bytes) (out : Proof × Memo)
      → IsPath (path_of c store name)
      → All (λ r. IsPath r.path × (r.path ≢ path_of c store name)) live
      → RightMemo c live m
      → root c memoize live m ≡ ok rooted
      → prove c memoize live rooted.1 store name ≡ ok out
      → length out.0.siblings < max_depth
      → verify c rooted.0 store name none out.0 ≡ ok true
  verify-prove_absent m rooted store name out p rows right hr hp short =
      let made = prove-Made m rooted store name out p right hr hp short in
      let others =
        found_other c live (path_of c store name) (length out.0.siblings) made.stops.found
          made.stops.hash p (omega (arith, short)) rows (looked_at made.stops) made.stops.is_few in
      absent_of rooted.0 store name out.0 made.stops.found short p.0 made.stops.is_first others
        made.folded
