-- ===== src/Smt/Change.antt =====
-- That `Tree.invalidate` leaves a memo right when the rows of one path change.
use dude_fs.Prelude.{
  ℕ, zero, suc, ◌+◌, ◌≤◌, ◌<◌, Bool, true, false, not, ◌&&◌, none, some, List, [], ◌∷◌, Bytes, ok,
  ◌>>=◌, ◌==◌, ◌≡◌, ◌≢◌, refl, ap, sym, ◌∙◌, subst, inl, inr, arith, All, All-map, dec_lt, list_eq,
  nat_eq, prod_eq, select, take, Bool-cases, eq_true,
}
use dude_fs.Prelude.Dict.{remove-All}
use dude_fs.Prelude.Order.{bytes_lt, sort_by}
use dude_fs.Crypto.{Suite}
use dude_fs.Smt.{max_depth, lower, upper, branch_hash}
use dude_fs.Smt.Tree.{
  Row, row_path, Memo, between, hash_rows, rows_between, leaves, few, invalidate_below, invalidate,
}
use dude_fs.Smt.Paths.{IsPath}
use dude_fs.Smt.Range.{between-bounds}
use dude_fs.Smt.Children.{
  one_child, IsPath-left, IsPath-right, lower-left, lower-right, lower_back, lower-one_child,
}
use dude_fs.Smt.Plain.{plain, IsPlace, IsPlace-lower, IsRight, RightMemo}

select-select {ℓ} :
    {A : Type ℓ} (p q : A → Bool) (xs : List A)
    → ((x : A) → q x ≡ true → p x ≡ true)
    → select q (select p xs) ≡ select q xs
unfolding select
select-select p q [] h = refl
select-select p q (x ∷ xs) h = elim (Bool-cases (p x)) [
  | inl e ↦ ground (arith, e, select-select p q xs h)
  | inr e ↦ elim (Bool-cases (q x)) [
    | inl f ↦ absurd (ground (arith, e, h x f))
    | inr f ↦ ground (arith, e, f, select-select p q xs h)
  ]
]

-- The rows with another path.
abbrev pub others : Bytes → List Row → List Row
others path live = select (λ r. not (r.path == path)) live

-- The place of a lower bound holds the child whose next bit is clear, and has one whose bit is set.
IsPlace-zero :
    (depth : ℕ) (lo : Bytes) → depth < max_depth → IsPlace depth lo → IsPlace (suc depth) lo
IsPlace-zero depth lo h (p, again) =
    subst (IsPlace (suc depth)) (lower-left lo depth p h ∙ again)
      (IsPlace-lower _ (suc depth) (IsPath-left lo depth p h) (omega (arith, h)))

IsPlace-one :
    (depth : ℕ) (lo : Bytes)
    → depth < max_depth
    → IsPlace depth lo
    → IsPlace (suc depth) (one_child lo depth)
IsPlace-one depth lo h (p, again) =
    subst (IsPlace (suc depth)) (lower-right lo depth p h ∙ ap (λ x. one_child x depth) again)
      (IsPlace-lower _ (suc depth) (IsPath-right lo depth p h) (omega (arith, h)))

module _ (path : Bytes) (p : IsPath path) where
  -- A path that is not in a place is in none of its children.
  off_zero :
      (depth : ℕ) (lo : Bytes)
      → depth < max_depth
      → IsPlace depth lo
      → lower path depth ≢ lo
      → lower path (suc depth) ≢ lo
  off_zero depth lo h (q, again) off e =
      off (sym (lower_back path depth p h) ∙ ap (λ x. lower x depth) e ∙ again)

  off_one :
      (depth : ℕ) (lo : Bytes)
      → depth < max_depth
      → IsPlace depth lo
      → lower path depth ≢ lo
      → lower path (suc depth) ≢ one_child lo depth
  off_one depth lo h (q, again) off e = off (
      sym (lower_back path depth p h)
      ∙ ap (λ x. lower x depth) e
      ∙ ap (λ x. lower (one_child x depth) depth) (sym again)
      ∙ lower-one_child lo depth q h
      ∙ again)

  in_place :
      (depth : ℕ) (lo : Bytes)
      → depth ≤ max_depth
      → IsPlace depth lo
      → lower path depth ≢ lo
      → (not (bytes_lt path (lower lo depth)) && not (bytes_lt (upper lo depth) path)) ≡ false
  in_place depth lo h (q, again) off =
      elim (Bool-cases
        (not (bytes_lt path (lower lo depth)) && not (bytes_lt (upper lo depth) path))) [
          | inr e ↦ e
          | inl e ↦ absurd (
              off (
                (between-bounds lo path depth q p h (ground (arith, e)) (ground (arith, e))).0
                ∙ again))
        ]

  module _ (c : Suite) (live live' : List Row) (same : others path live ≡ others path live') where
    leaves_off :
        (depth : ℕ) (lo : Bytes)
        → depth ≤ max_depth
        → IsPlace depth lo
        → lower path depth ≢ lo
        → leaves c live lo depth ≡ leaves c live' lo depth
    unfolding leaves rows_between
    leaves_off depth lo h placed off =
        let q : Row → Bool = between (lower lo depth) (upper lo depth) in
        let other : (r : Row) → q r ≡ true → not (r.path == path) ≡ true = λ r e.
          elim (Bool-cases (r.path == path)) [
            | inr f ↦ rw f refl
            | inl f ↦ absurd (
                ground (
                  arith,
                  e,
                  subst
                      (λ x.
                        (not (bytes_lt x (lower lo depth)) && not (bytes_lt (upper lo depth) x))
                        ≡ false)
                      (sym (eq_true r.path path f)) (in_place depth lo h placed off),
                ))
          ] in
        ap (λ rows. hash_rows c (take 2 (sort_by row_path rows)))
          (sym (select-select (λ r. not (r.path == path)) q live other)
            ∙ ap (select q) same
            ∙ select-select (λ r. not (r.path == path)) q live' other)

    plain_off :
        (levels depth : ℕ) (lo : Bytes)
        → levels + depth ≡ max_depth
        → IsPlace depth lo
        → lower path depth ≢ lo
        → plain c live levels depth lo ≡ plain c live' levels depth lo
    unfolding plain
    plain_off zero depth lo sum placed off =
        rw (leaves_off depth lo (omega (arith, sum)) placed off) refl
    plain_off (suc levels) depth lo sum placed off =
        let below : depth < max_depth = omega (arith, sum) in
        let sum' : levels + suc depth ≡ max_depth = omega (arith, sum) in
        let held =
          plain_off levels (suc depth) lo sum' (IsPlace-zero depth lo below placed)
            (off_zero depth lo below placed off) in
        let set =
          plain_off levels (suc depth) (one_child lo depth) sum' (IsPlace-one depth lo below placed)
            (off_one depth lo below placed off) in
        λ i. leaves_off depth lo (omega (arith, sum)) placed off i >>= λ found. elim (few found) [
          | some h ↦ ok h
          | none ↦ held i >>= λ l. set i >>= λ r. ok (branch_hash c depth lo l r)
        ]

    -- What is left when the entries of the path above a depth are removed.
    abbrev Kept : ℕ → (ℕ × Bytes) × Bytes → Type 0
    Kept n e = IsRight c live e × ((d : ℕ) → d < n → e.0 ≢ (d, lower path d))

    invalidate_below-Kept :
        (n : ℕ) (m : Memo) → RightMemo c live m → All (Kept n) (invalidate_below n path m)
    unfolding invalidate_below
    invalidate_below-Kept zero m right =
        All-map (λ e r. (r, λ d h. absurd (omega (arith, h)))) m right
    invalidate_below-Kept (suc n) m right =
        remove-All (Kept n) (Kept (suc n)) (n, lower path n) (invalidate_below n path m)
          (λ e (r, kept) other. (
            r,
            λ d h. elim (dec_lt d n) [
              | yes less ↦ kept d less
              | no last ↦
                  let same_depth : n ≡ d = omega (arith, h, last) in
                  subst (λ k. e.0 ≢ (k, lower path k)) same_depth other
            ],
          ))
          (invalidate_below-Kept n m right)

    Kept-IsRight : (e : (ℕ × Bytes) × Bytes) → Kept (max_depth + 1) e → IsRight c live' e
    Kept-IsRight e ((placed, right), kept) = (
      placed,
      λ levels sum.
          let off : lower path e.0.0 ≢ e.0.1 =
            λ q. kept e.0.0 (omega (arith, sum)) (λ i. (e.0.0, sym q i)) in
          sym (plain_off levels e.0.0 e.0.1 sum placed off) ∙ right levels sum,
    )

    -- The entries of a memo are right for some rows, and other rows differ from these in those of one
    -- path at most. Then what invalidating the path leaves of the memo is right for the other rows.
    pub invalidate-RightMemo :
        (m : Memo) → RightMemo c live m → RightMemo c live' (invalidate path m)
    unfolding invalidate
    invalidate-RightMemo m right =
        All-map Kept-IsRight (invalidate path m) (invalidate_below-Kept (max_depth + 1) m right)
