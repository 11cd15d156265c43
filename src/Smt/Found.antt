-- ===== src/Smt/Found.antt =====
-- What `Tree._leaves` finds, where it does not find two: the rows of the table between two paths.
use dude_fs.Prelude.{
  ℕ, Bool, true, false, some, List, [], ◌∷◌, Bytes, ok, ◌>>=◌, >>=-eq-ok, ok_inj, ◌⊎◌, inl, inr,
  Bool-cases, ◌≤◌, ◌≢◌, length, ◌≡◌, refl, ap, sym, ◌∙◌, subst, arith, select, take, All,
}
use dude_fs.Prelude.Order.{bytes_lt, insert_by, sort_by, sort_by-All}
use dude_fs.Crypto.{Suite, digest_size}
use dude_fs.Smt.{max_depth, lower, upper, leaf_hash}
use dude_fs.Smt.Paths.{IsPath}
use dude_fs.Smt.Range.{own-between, between-bounds}
use dude_fs.Smt.Tree.{Row, row_path, between, hash_rows, rows_between, leaves, few}

-- A row is among others.
abbrev pub In : Row → List Row → Type 0
In r [] = ⊥
In r (x ∷ xs) = (x ≡ r) ⊎ In r xs

In-select : (p : Row → Bool) (r : Row) (xs : List Row) → In r xs → p r ≡ true → In r (select p xs)
unfolding select
In-select p r [] m h = absurd m
In-select p r (x ∷ xs) (inl e) h = rw (ap p e ∙ h) (inl e)
In-select p r (x ∷ xs) (inr m) h = elim (Bool-cases (p x)) [
  | inl t ↦ rw t (inr (In-select p r xs m h))
  | inr t ↦ rw t (In-select p r xs m h)
]

select-All :
    (P : Row → Type 0) (p : Row → Bool) (xs : List Row)
    → All P xs
    → All (λ r. P r × (p r ≡ true)) (select p xs)
unfolding select
select-All P p [] h = tt
select-All P p (x ∷ xs) h = elim (Bool-cases (p x)) [
  | inl t ↦ rw t ((h.0, t), select-All P p xs h.1)
  | inr t ↦ rw t (select-All P p xs h.1)
]

In-insert_by : (r x : Row) (xs : List Row) → In r (x ∷ xs) → In r (insert_by row_path x xs)
unfolding insert_by
In-insert_by r x [] m = m
In-insert_by r x (y ∷ ys) (inl e) = elim (Bool-cases (bytes_lt y.path x.path)) [
  | inl t ↦ rw t (inr (In-insert_by r x ys (inl e)))
  | inr t ↦ rw t (inl e)
]
In-insert_by r x (y ∷ ys) (inr (inl e)) = elim (Bool-cases (bytes_lt y.path x.path)) [
  | inl t ↦ rw t (inl e)
  | inr t ↦ rw t (inr (inl e))
]
In-insert_by r x (y ∷ ys) (inr (inr m)) = elim (Bool-cases (bytes_lt y.path x.path)) [
  | inl t ↦ rw t (inr (In-insert_by r x ys (inr m)))
  | inr t ↦ rw t (inr (inr m))
]

In-sort_by : (r : Row) (xs : List Row) → In r xs → In r (sort_by row_path xs)
unfolding sort_by
In-sort_by r [] m = absurd m
In-sort_by r (x ∷ xs) (inl e) = In-insert_by r x (sort_by row_path xs) (inl e)
In-sort_by r (x ∷ xs) (inr m) = In-insert_by r x (sort_by row_path xs) (inr (In-sort_by r xs m))

abbrev IsOther : Bytes → ℕ → Row → Type 0
IsOther path depth r =
    (IsPath r.path × (r.path ≢ path)) × (between (lower path depth) (upper path depth) r ≡ true)

-- An occupant other than the path, with the same bounds.
abbrev pub SameBounds : Bytes → ℕ → Bytes × Bytes → Type 0
SameBounds path depth o =
    (o.0 ≢ path)
    × (length o.0 ≡ digest_size)
    × (lower o.0 depth ≡ lower path depth)
    × (upper o.0 depth ≡ upper path depth)

other_row :
    (path : Bytes) (depth : ℕ) (r : Row) (h : Bytes)
    → IsPath path
    → depth ≤ max_depth
    → IsOther path depth r
    → SameBounds path depth (r.path, h)
other_row path depth r h p small o =
    let lo : bytes_lt r.path (lower path depth) ≡ false = ground (arith, o.1) in
    let hi : bytes_lt (upper path depth) r.path ≡ false = ground (arith, o.1) in
    let b = between-bounds path r.path depth p o.0.0 small lo hi in (o.0.1, o.0.0.0, b.0, b.1)

module _ (c : Suite) where
  -- At most one row, with what was found for it.
  data Few (rows : List Row) (found : List (Bytes × Bytes)) : Type 0 where
    no_row : rows ≡ [] → found ≡ [] → Few rows found
    one_row :
        (r : Row) (h : Bytes)
        → rows ≡ r ∷ []
        → found ≡ (r.path, h) ∷ []
        → leaf_hash c r.path (c.h r.value) (c.h r.cred) r.epoch ≡ ok h
        → Few rows found

  few_two :
      (x y : Bytes × Bytes) (rest : List (Bytes × Bytes)) {h : Bytes}
      → ¬ (few (x ∷ y ∷ rest) ≡ some h)
  unfolding few
  few_two x y rest e = cc

  held_of :
      (r : Row) (found : List (Bytes × Bytes)) {rows : List Row}
      → Few rows found
      → In r rows
      → (t : Bytes) × (found ≡ (r.path, t) ∷ [])
        × (leaf_hash c r.path (c.h r.value) (c.h r.cred) r.epoch ≡ ok t)
  held_of r found (no_row e f) m = absurd (subst (In r) e m)
  held_of r found (one_row s h e f g) m = same_row (subst (In r) e m)
    where
      same_row :
          In r (s ∷ [])
          → (t : Bytes) × (found ≡ (r.path, t) ∷ [])
            × (leaf_hash c r.path (c.h r.value) (c.h r.cred) r.epoch ≡ ok t)
      same_row (inl q) =
          subst
            (λ (x : Row).
              (t : Bytes) × (found ≡ (x.path, t) ∷ [])
              × (leaf_hash c x.path (c.h x.value) (c.h x.cred) x.epoch ≡ ok t))
            q (h, f, g)
      same_row (inr n) = absurd n

  few-Few :
      (rows : List Row) (found : List (Bytes × Bytes)) (h : Bytes)
      → hash_rows c (take 2 rows) ≡ ok found
      → few found ≡ some h
      → Few rows found
  unfolding hash_rows
  few-Few [] found h e f = no_row refl (sym (ok_inj e))
  few-Few (r ∷ []) found h e f =
      let (t, got, e₁) =
        >>=-eq-ok (leaf_hash c r.path (c.h r.value) (c.h r.cred) r.epoch)
          (λ t. ok ((r.path, t) ∷ [])) e in
      one_row r t refl (sym (ok_inj e₁)) got
  few-Few (r ∷ s ∷ rows) found h e f =
      let (t, got, e₁) =
        >>=-eq-ok (leaf_hash c r.path (c.h r.value) (c.h r.cred) r.epoch)
          (λ t. hash_rows c (s ∷ []) >>= λ rest. ok ((r.path, t) ∷ rest)) e in
      let (rest, got', e₂) =
        >>=-eq-ok (hash_rows c (s ∷ [])) (λ rest. ok ((r.path, t) ∷ rest)) e₁ in
      let (u, got'', e₃) =
        >>=-eq-ok (leaf_hash c s.path (c.h s.value) (c.h s.cred) s.epoch)
          (λ u. ok ((s.path, u) ∷ [])) got' in
      absurd (
        few_two (r.path, t) (s.path, u) []
          (subst (λ x. few ((r.path, t) ∷ x) ≡ some h) (sym (ok_inj e₃))
            (subst (λ x. few x ≡ some h) (sym (ok_inj e₂)) f)))

  leaves-Few :
      (live : List Row) (path : Bytes) (depth : ℕ) (found : List (Bytes × Bytes)) (h : Bytes)
      → leaves c live path depth ≡ ok found
      → few found ≡ some h
      → Few (sort_by row_path (select (between (lower path depth) (upper path depth)) live)) found
  unfolding leaves rows_between
  leaves-Few live path depth found h e f =
      few-Few (sort_by row_path (select (between (lower path depth) (upper path depth)) live)) found
        h e f

  -- Where a row of the path is held, it is what is found.
  pub found_held :
      (live : List Row) (depth : ℕ) (r : Row) (found : List (Bytes × Bytes)) (h : Bytes)
      → IsPath r.path
      → depth ≤ max_depth
      → In r live
      → leaves c live r.path depth ≡ ok found
      → few found ≡ some h
      → (t : Bytes) × (found ≡ (r.path, t) ∷ [])
        × (leaf_hash c r.path (c.h r.value) (c.h r.cred) r.epoch ≡ ok t)
  found_held live depth r found h p small m e f =
      let (lo, hi) = own-between r.path depth p small in
      let inside : between (lower r.path depth) (upper r.path depth) r ≡ true =
        ground (arith, lo, hi) in
      held_of r found (leaves-Few live r.path depth found h e f) (
        In-sort_by r (select (between (lower r.path depth) (upper r.path depth)) live)
          (In-select (between (lower r.path depth) (upper r.path depth)) r live m inside))

  other_of :
      (path : Bytes) (depth : ℕ) (found : List (Bytes × Bytes)) {rows : List Row}
      → IsPath path
      → depth ≤ max_depth
      → Few rows found
      → All (IsOther path depth) rows
      → All (SameBounds path depth) found
  other_of path depth found p small (no_row e f) a = subst (All (SameBounds path depth)) (sym f) tt
  other_of path depth found p small (one_row r h e f g) a =
      subst (All (SameBounds path depth)) (sym f)
        (other_row path depth r h p small (subst (All (IsOther path depth)) e a).0, tt)

  -- Where no row of the path is held, what is found lies between the bounds.
  pub found_other :
      (live : List Row) (path : Bytes) (depth : ℕ) (found : List (Bytes × Bytes)) (h : Bytes)
      → IsPath path
      → depth ≤ max_depth
      → All (λ r. IsPath r.path × (r.path ≢ path)) live
      → leaves c live path depth ≡ ok found
      → few found ≡ some h
      → All (SameBounds path depth) found
  found_other live path depth found h p small rows e f =
      other_of path depth found p small (leaves-Few live path depth found h e f) (
        sort_by-All row_path (IsOther path depth)
          (select (between (lower path depth) (upper path depth)) live)
          (select-All (λ r. IsPath r.path × (r.path ≢ path))
            (between (lower path depth) (upper path depth)) live rows))
