-- ===== src/Smt/Plain.antt =====
-- The hash of a place without a memo, and that `hash_under` gives it whatever right memo it is given.
use dude_fs.Prelude.{
  ℕ, zero, suc, ◌+◌, ◌≤◌, ◌<◌, Bool, none, some, List, Bytes, Result, ok, err, ◌>>=◌, >>=-eq-ok,
  Result-cases, Option-cases, Bool-cases, ok_inj, not_ok, ◌≡◌, refl, ap, sym, ◌∙◌, subst, inl, inr,
  arith, All, list_eq, nat_eq, prod_eq,
}
use dude_fs.Prelude.Dict.{lookup, insert-All, lookup-All}
use dude_fs.Crypto.{Suite}
use dude_fs.Smt.{SmtError, short_path, max_depth, lower, branch_hash}
use dude_fs.Smt.Tree.{Row, Memo, rows_between, leaves, few, left_of, right_of, memoized, hash_under}
use dude_fs.Smt.Paths.{IsPath, IsPath-lower, lower_again}
use dude_fs.Smt.Children.{one_child, IsPath-left, IsPath-right, lower-left, lower-right}

-- The lower bound of a place at a depth: a path that is cut there.
abbrev pub IsPlace : ℕ → Bytes → Type 0
IsPlace depth lo = IsPath lo × (lower lo depth ≡ lo)

pub IsPlace-lower :
    (path : Bytes) (depth : ℕ) → IsPath path → depth ≤ max_depth → IsPlace depth (lower path depth)
IsPlace-lower path depth p h = (IsPath-lower path depth p h, (lower_again path depth p h).0)

module _ (c : Suite) (live : List Row) where
  -- The hash of the place with this lower bound, by recursion on the levels below it: that of its
  -- leaf if it has no two, else the branch over its children.
  unfoldable pub plain : ℕ → ℕ → Bytes → Result SmtError Bytes
  unfolding leaves one_child branch_hash
  plain zero depth lo =
      leaves c live lo depth >>= λ found. elim (few found) [ some h ↦ ok h | none ↦ err short_path ]
  plain (suc levels) depth lo = leaves c live lo depth >>= λ found. elim (few found) [
    | some h ↦ ok h
    | none ↦ plain levels (suc depth) lo >>= λ l.
        plain levels (suc depth) (one_child lo depth) >>= λ r. ok (branch_hash c depth lo l r)
  ]

  -- An entry of the memo stands for a place and is its hash.
  abbrev pub IsRight : (ℕ × Bytes) × Bytes → Type 0
  IsRight e =
      IsPlace e.0.0 e.0.1
      × ((levels : ℕ) → levels + e.0.0 ≡ max_depth → plain levels e.0.0 e.0.1 ≡ ok e.1)

  abbrev pub RightMemo : Memo → Type 0
  RightMemo m = All IsRight m

  pub leaves-lower :
      (path : Bytes) (depth : ℕ)
      → IsPath path
      → depth ≤ max_depth
      → leaves c live (lower path depth) depth ≡ leaves c live path depth
  unfolding leaves
  leaves-lower path depth p h =
      let (lo, hi) = lower_again path depth p h in λ i. rows_between c live (lo i) (hi i)

  pub plain-few :
      (levels depth : ℕ) (path : Bytes) (found : List (Bytes × Bytes)) (h : Bytes)
      → IsPath path
      → depth ≤ max_depth
      → leaves c live path depth ≡ ok found
      → few found ≡ some h
      → plain levels depth (lower path depth) ≡ ok h
  unfolding plain
  plain-few zero depth path found h p small got e =
      rw (leaves-lower path depth p small, got) (ground (arith, e))
  plain-few (suc levels) depth path found h p small got e =
      rw (leaves-lower path depth p small, got) (ground (arith, e))

  pub plain_branch :
      (levels depth : ℕ) (path : Bytes) (found : List (Bytes × Bytes)) (l r : Bytes)
      → IsPath path
      → depth ≤ max_depth
      → leaves c live path depth ≡ ok found
      → few found ≡ none
      → plain levels (suc depth) (lower path depth) ≡ ok l
      → plain levels (suc depth) (one_child (lower path depth) depth) ≡ ok r
      → plain (suc levels) depth (lower path depth)
        ≡ ok (branch_hash c depth (lower path depth) l r)
  unfolding plain
  plain_branch levels depth path found l r p small got e hl hr =
      rw (leaves-lower path depth p small, got) (ground (arith, e, hl, hr))

  module _ (memoize : Bool) where
    under_hit :
        (levels : ℕ) (m : Memo) (path : Bytes) (depth : ℕ) (v : Bytes)
        → lookup (depth, lower path depth) m ≡ some v
        → hash_under c memoize live levels m path depth ≡ ok (v, m)
    unfolding hash_under
    under_hit zero m path depth v hit = rw (hit, hash_under) refl
    under_hit (suc levels) m path depth v hit = rw (hit, hash_under) refl

    under_fail :
        (levels : ℕ) (m : Memo) (path : Bytes) (depth : ℕ) (x : SmtError)
        → lookup (depth, lower path depth) m ≡ none
        → leaves c live path depth ≡ err x
        → hash_under c memoize live levels m path depth ≡ err x
    unfolding hash_under
    under_fail zero m path depth x miss failed = rw (miss, failed, hash_under) refl
    under_fail (suc levels) m path depth x miss failed = rw (miss, failed, hash_under) refl

    under_few :
        (levels : ℕ) (m : Memo) (path : Bytes) (depth : ℕ) (found : List (Bytes × Bytes))
        (v : Bytes)
        → lookup (depth, lower path depth) m ≡ none
        → leaves c live path depth ≡ ok found
        → few found ≡ some v
        → hash_under c memoize live levels m path depth ≡ ok (v, m)
    unfolding hash_under
    under_few zero m path depth found v miss got one =
        rw (miss, got, hash_under) (ground (arith, one))
    under_few (suc levels) m path depth found v miss got one =
        rw (miss, got, hash_under) (ground (arith, one))

    abbrev after_right : Bytes → ℕ → Bytes × Memo → Bytes × Memo → Result SmtError (Bytes × Memo)
    after_right path depth l r =
        let node = branch_hash c depth (lower path depth) l.0 r.0 in
        ok (node, memoized memoize depth (lower path depth) node r.1)

    abbrev after_left : ℕ → Bytes → ℕ → Bytes × Memo → Result SmtError (Bytes × Memo)
    after_left levels path depth l =
        hash_under c memoize live levels l.1 (right_of path depth) (suc depth)
        >>= after_right path depth l

    under_zero :
        (m : Memo) (path : Bytes) (depth : ℕ) (found : List (Bytes × Bytes))
        → lookup (depth, lower path depth) m ≡ none
        → leaves c live path depth ≡ ok found
        → few found ≡ none
        → hash_under c memoize live zero m path depth ≡ err short_path
    unfolding hash_under
    under_zero m path depth found miss got many = rw (miss, got, hash_under) (ground (arith, many))

    under_suc :
        (levels : ℕ) (m : Memo) (path : Bytes) (depth : ℕ) (found : List (Bytes × Bytes))
        → lookup (depth, lower path depth) m ≡ none
        → leaves c live path depth ≡ ok found
        → few found ≡ none
        → hash_under c memoize live (suc levels) m path depth ≡ (
            hash_under c memoize live levels m (left_of path depth) (suc depth)
            >>= after_left levels path depth)
    unfolding hash_under
    under_suc levels m path depth found miss got many =
        rw (miss, got, hash_under) (ground (arith, many))

    memoized-RightMemo :
        (levels depth : ℕ) (lo node : Bytes) (m : Memo)
        → levels + depth ≡ max_depth
        → IsPlace depth lo
        → plain levels depth lo ≡ ok node
        → RightMemo m
        → RightMemo (memoized memoize depth lo node m)
    memoized-RightMemo levels depth lo node m sum placed e right = elim (Bool-cases memoize) [
      | inl t ↦ rw t (
          insert-All IsRight (depth, lo) node m
            (
              placed,
              (λ k sum'. subst (λ l. plain l depth lo ≡ ok node) (omega (arith, sum, sum')) e),
            )
            right)
      | inr t ↦ rw t right
    ]

    abbrev Agrees : ℕ → ℕ → Bytes → Bytes × Memo → Type 0
    Agrees levels depth path out =
        (plain levels depth (lower path depth) ≡ ok out.0) × RightMemo out.1

    -- What is left to show of a call: the case of two leaves that are in no entry.
    unless_many :
        (levels : ℕ) (m : Memo) (path : Bytes) (depth : ℕ) (out : Bytes × Memo)
        → IsPath path
        → levels + depth ≡ max_depth
        → RightMemo m
        → hash_under c memoize live levels m path depth ≡ ok out
        → ((found : List (Bytes × Bytes))
            → lookup (depth, lower path depth) m ≡ none
            → leaves c live path depth ≡ ok found
            → few found ≡ none
            → Agrees levels depth path out)
        → Agrees levels depth path out
    unless_many levels m path depth out p sum right h deeper =
        elim (Option-cases (lookup (depth, lower path depth) m)) [
          | inr (v, hit) ↦
              subst (Agrees levels depth path)
                (ok_inj (sym (under_hit levels m path depth v hit) ∙ h))
                ((lookup-All IsRight (depth, lower path depth) v m right hit).1 levels sum, right)
          | inl miss ↦ elim (Result-cases (leaves c live path depth)) [
            | inr (x, failed) ↦
                absurd (not_ok (sym (under_fail levels m path depth x miss failed) ∙ h))
            | inl (found, got) ↦ elim (Option-cases (few found)) [
              | inr (v, one) ↦
                  subst (Agrees levels depth path)
                    (ok_inj (sym (under_few levels m path depth found v miss got one) ∙ h))
                    (plain-few levels depth path found v p (omega (arith, sum)) got one, right)
              | inl many ↦ deeper found miss got many
            ]
          ]
        ]

    -- With a memo whose entries are right, a call that returns gives the hash of the place, and the
    -- memo it leaves has right entries.
    pub hash_under-Agrees :
        (levels : ℕ) (m : Memo) (path : Bytes) (depth : ℕ) (out : Bytes × Memo)
        → IsPath path
        → levels + depth ≡ max_depth
        → RightMemo m
        → hash_under c memoize live levels m path depth ≡ ok out
        → (plain levels depth (lower path depth) ≡ ok out.0) × RightMemo out.1
    hash_under-Agrees zero m path depth out p sum right h =
        unless_many zero m path depth out p sum right h (λ found miss got many.
          absurd (not_ok (sym (under_zero m path depth found miss got many) ∙ h)))
    hash_under-Agrees (suc levels) m path depth out p sum right h =
        unless_many (suc levels) m path depth out p sum right h (λ found miss got many.
          let below : depth < max_depth = omega (arith, sum) in
          let sum' : levels + suc depth ≡ max_depth = omega (arith, sum) in
          let (l, went_left, h₁) =
            >>=-eq-ok (hash_under c memoize live levels m (left_of path depth) (suc depth))
              (after_left levels path depth)
              (sym (under_suc levels m path depth found miss got many) ∙ h) in
          let (r, went_right, h₂) =
            >>=-eq-ok (hash_under c memoize live levels l.1 (right_of path depth) (suc depth))
              (after_right path depth l) h₁ in
          let (hl, right_l) =
            hash_under-Agrees levels m (left_of path depth) (suc depth) l
              (IsPath-left path depth p below) sum' right went_left in
          let (hr, right_r) =
            hash_under-Agrees levels l.1 (right_of path depth) (suc depth) r
              (IsPath-right path depth p below) sum' right_l went_right in
          let node : plain (suc levels) depth (lower path depth)
              ≡ ok (branch_hash c depth (lower path depth) l.0 r.0) =
            plain_branch levels depth path found l.0 r.0 p (omega (arith, below)) got many
              (sym (ap (plain levels (suc depth)) (lower-left path depth p below)) ∙ hl)
              (sym (ap (plain levels (suc depth)) (lower-right path depth p below)) ∙ hr) in
          subst (Agrees (suc levels) depth path) (ok_inj h₂) (
            node,
            memoized-RightMemo (suc levels) depth (lower path depth)
                (branch_hash c depth (lower path depth) l.0 r.0) r.1 sum
                (IsPlace-lower path depth p (omega (arith, below))) node right_r,
          ))
