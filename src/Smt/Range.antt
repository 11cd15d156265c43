-- ===== src/Smt/Range.antt =====
-- The paths between the two bounds of a path at a depth: itself, and only those with the same bounds.
use dude_fs.Prelude.{
  ℕ, zero, suc, ◌+◌, ◌-◌, ◌^◌, ◌≤◌, ◌<◌, false, [], ◌∷◌, ◌++◌, Bytes, ◌≡◌, refl, sym, ◌∙◌, subst,
  arith, nat_eq, length, All,
}
use dude_fs.Prelude.Order.{bytes_lt}
use dude_fs.Crypto.{digest_size}
use dude_fs.Smt.{low_byte, high_byte, repeat, lower, upper, max_depth}
use dude_fs.Smt.Cut.{lower_cut, upper_cut}
use dude_fs.Smt.Paths.{IsByte, IsPath, Cut, cut_upto, lower_of, upper_of}

not-lt_repeat-zero : (xs : Bytes) (n : ℕ) → length xs ≡ n → bytes_lt xs (repeat n 0) ≡ false
unfolding bytes_lt repeat
not-lt_repeat-zero [] zero h = refl
not-lt_repeat-zero [] (suc n) h = absurd (omega (arith, h))
not-lt_repeat-zero (x ∷ xs) zero h = refl
not-lt_repeat-zero (x ∷ xs) (suc n) h = ground (arith, not-lt_repeat-zero xs n (omega (arith, h)))

not-repeat-lt :
    (xs : Bytes) (n : ℕ) → length xs ≡ n → All IsByte xs → bytes_lt (repeat n 255) xs ≡ false
unfolding bytes_lt repeat
not-repeat-lt [] zero h s = refl
not-repeat-lt [] (suc n) h s = absurd (omega (arith, h))
not-repeat-lt (x ∷ xs) zero h s = absurd (omega (arith, h))
not-repeat-lt (x ∷ xs) (suc n) h s = ground (arith, s.0, not-repeat-lt xs n (omega (arith, h)) s.1)

lt-prefix : (pre xs ys : Bytes) → bytes_lt (pre ++ xs) (pre ++ ys) ≡ bytes_lt xs ys
unfolding bytes_lt
lt-prefix [] xs ys = refl
lt-prefix (x ∷ pre) xs ys = ground (arith, lt-prefix pre xs ys)

not-lt-cut :
    (a b : ℕ) (xs ys : Bytes) → b ≤ a → bytes_lt xs ys ≡ false → bytes_lt (a ∷ xs) (b ∷ ys) ≡ false
unfolding bytes_lt
not-lt-cut a b xs ys h e = ground arith

le-high_byte : (rem b : ℕ) → rem < 9 → b ≤ high_byte b rem
le-high_byte zero b h = omega arith
le-high_byte (suc zero) b h = omega arith
le-high_byte (suc (suc zero)) b h = omega arith
le-high_byte (suc (suc (suc zero))) b h = omega arith
le-high_byte (suc (suc (suc (suc zero)))) b h = omega arith
le-high_byte (suc (suc (suc (suc (suc zero))))) b h = omega arith
le-high_byte (suc (suc (suc (suc (suc (suc zero)))))) b h = omega arith
le-high_byte (suc (suc (suc (suc (suc (suc (suc zero))))))) b h = omega arith
le-high_byte (suc (suc (suc (suc (suc (suc (suc (suc zero)))))))) b h = omega arith
le-high_byte (suc (suc (suc (suc (suc (suc (suc (suc (suc rem))))))))) b h = absurd (omega arith)

same_low :
    (rem a b : ℕ)
    → rem < 9
    → low_byte a rem ≤ b
    → b ≤ high_byte a rem
    → low_byte b rem ≡ low_byte a rem
same_low zero a b h l u = omega arith
same_low (suc zero) a b h l u = omega arith
same_low (suc (suc zero)) a b h l u = omega arith
same_low (suc (suc (suc zero))) a b h l u = omega arith
same_low (suc (suc (suc (suc zero)))) a b h l u = omega arith
same_low (suc (suc (suc (suc (suc zero))))) a b h l u = omega arith
same_low (suc (suc (suc (suc (suc (suc zero)))))) a b h l u = omega arith
same_low (suc (suc (suc (suc (suc (suc (suc zero))))))) a b h l u = omega arith
same_low (suc (suc (suc (suc (suc (suc (suc (suc zero)))))))) a b h l u = omega arith
same_low (suc (suc (suc (suc (suc (suc (suc (suc (suc rem))))))))) a b h l u = absurd (omega arith)

-- A path is between its bounds.
pub own-between :
    (path : Bytes) (depth : ℕ)
    → IsPath path
    → depth ≤ max_depth
    → (bytes_lt path (lower path depth) ≡ false) × (bytes_lt (upper path depth) path ≡ false)
own-between path depth p h =
    let c = cut_upto path depth p h in
    let lo =
      lt-prefix c.pre (c.byte ∷ c.post) (low_byte c.byte c.rem ∷ repeat (length c.post) 0)
      ∙ not-lt-cut c.byte (low_byte c.byte c.rem) c.post (repeat (length c.post) 0) (omega arith)
          (not-lt_repeat-zero c.post (length c.post) refl) in
    let hi =
      lt-prefix c.pre (high_byte c.byte c.rem ∷ repeat (length c.post) 255) (c.byte ∷ c.post)
      ∙ not-lt-cut (high_byte c.byte c.rem) c.byte (repeat (length c.post) 255) c.post
          (le-high_byte c.rem c.byte c.in_byte)
          (not-repeat-lt c.post (length c.post) refl c.post_small) in
    (
      (λ i. bytes_lt (c.shape i) (lower_of path depth c i)) ∙ lo,
      (λ i. bytes_lt (upper_of path depth c i) (c.shape i)) ∙ hi,
    )

-- What is between two bounds that agree up to a byte.
record Inside (pre : Bytes) (lo hi n : ℕ) (other : Bytes) : Type 0 where
  byte : ℕ
  post : Bytes
  shape : other ≡ pre ++ byte ∷ post
  from : lo ≤ byte
  upto : byte ≤ hi
  left : length post ≡ n
  small : byte < 256

not-lt_same :
    (x y : ℕ) (xs ys zs : Bytes)
    → bytes_lt (x ∷ xs) (y ∷ ys) ≡ false
    → bytes_lt (y ∷ zs) (x ∷ xs) ≡ false
    → (x ≡ y) × (bytes_lt xs ys ≡ false) × (bytes_lt zs xs ≡ false)
unfolding bytes_lt
not-lt_same x y xs ys zs h k = (ground arith, ground arith, ground arith)

not-lt_head : (x y : ℕ) (xs ys : Bytes) → bytes_lt (x ∷ xs) (y ∷ ys) ≡ false → y ≤ x
unfolding bytes_lt
not-lt_head x y xs ys h = ground arith

between-Inside :
    (pre : Bytes) (lo hi n : ℕ) (zs fs other : Bytes)
    → length other ≡ length pre + suc n
    → All IsByte other
    → bytes_lt other (pre ++ lo ∷ zs) ≡ false
    → bytes_lt (pre ++ hi ∷ fs) other ≡ false
    → Inside pre lo hi n other
between-Inside [] lo hi n zs fs [] w s h k = absurd (omega (arith, w))
between-Inside [] lo hi n zs fs (x ∷ xs) w s h k = record {
  byte = x;
  post = xs;
  shape = refl;
  from = not-lt_head x lo xs zs h;
  upto = not-lt_head hi x fs xs k;
  left = omega (arith, w);
  small = s.0;
}
between-Inside (y ∷ pre) lo hi n zs fs [] w s h k = absurd (omega (arith, w))
between-Inside (y ∷ pre) lo hi n zs fs (x ∷ xs) w s h k =
    let (same, h', k') = not-lt_same x y xs (pre ++ lo ∷ zs) (pre ++ hi ∷ fs) h k in
    let r = between-Inside pre lo hi n zs fs xs (omega (arith, w)) s.1 h' k' in
    record {
      byte = r.byte;
      post = r.post;
      shape = λ i. same i ∷ r.shape i;
      from = r.from;
      upto = r.upto;
      left = r.left;
      small = r.small;
    }

same_bounds :
    (path : Bytes) (depth : ℕ) (c : Cut 9 path depth) (other : Bytes)
    → Inside c.pre (low_byte c.byte c.rem) (high_byte c.byte c.rem) (length c.post) other
    → (lower other depth ≡ lower path depth) × (upper other depth ≡ upper path depth)
same_bounds path depth c other r =
    let low = same_low c.rem c.byte r.byte c.in_byte r.from r.upto in
    let size : length c.pre + suc (length r.post) ≡ digest_size = rw r.left c.size in
    (
      (λ i. lower (r.shape i) (c.place i))
          ∙ lower_cut c.pre r.byte r.post c.rem size c.in_byte r.small
          ∙ (λ i. c.pre ++ low i ∷ repeat (r.left i) 0)
          ∙ sym (lower_of path depth c),
      (λ i. upper (r.shape i) (c.place i))
          ∙ upper_cut c.pre r.byte r.post c.rem size c.in_byte r.small
          ∙ (λ i. c.pre ++ (low i + (2 ^ (8 - c.rem) - 1)) ∷ repeat (r.left i) 255)
          ∙ sym (upper_of path depth c),
    )

-- A path between the bounds of another has the same bounds.
pub between-bounds :
    (path other : Bytes) (depth : ℕ)
    → IsPath path
    → IsPath other
    → depth ≤ max_depth
    → bytes_lt other (lower path depth) ≡ false
    → bytes_lt (upper path depth) other ≡ false
    → (lower other depth ≡ lower path depth) × (upper other depth ≡ upper path depth)
between-bounds path other depth p q h lo hi =
    let c = cut_upto path depth p h in
    same_bounds path depth c other (
      between-Inside c.pre (low_byte c.byte c.rem) (high_byte c.byte c.rem) (length c.post)
        (repeat (length c.post) 0) (repeat (length c.post) 255) other (q.0 ∙ sym c.size) q.1
        (subst (λ b. bytes_lt other b ≡ false) (lower_of path depth c) lo)
        (subst (λ b. bytes_lt b other ≡ false) (upper_of path depth c) hi))
