-- ===== src/Smt/Paths.antt =====
-- Paths cut at a depth again, and the width of what is cut.
use dude_fs.Prelude.{
  ℕ, zero, suc, ◌+◌, ◌*◌, ◌/◌, ◌%◌, ◌≤◌, ◌<◌, [], ◌∷◌, ◌++◌, Bytes, ◌≡◌, refl, ap, sym, ◌∙◌, arith,
  nat_eq, length, All, length-append, dec_lt, subst,
}
use dude_fs.Crypto.{digest_size}
use dude_fs.Smt.{low_byte, high_byte, repeat, lower, upper, max_depth}
use dude_fs.Smt.Bits.{cut_twice_lem}
use dude_fs.Smt.Cut.{length-repeat, lower_cut, upper_cut}

abbrev pub IsByte : ℕ → Type 0
IsByte b = b < 256

-- A byte string of the width of a digest.
abbrev pub IsPath : Bytes → Type 0
IsPath path = (length path ≡ digest_size) × All IsByte path

-- A path cut at a byte.
record Split (at : ℕ) (path : Bytes) : Type 0 where
  pre : Bytes
  byte : ℕ
  post : Bytes
  shape : path ≡ pre ++ byte ∷ post
  place : at ≡ length pre
  pre_small : All IsByte pre
  small : byte < 256
  post_small : All IsByte post

bytes-Split : (at : ℕ) (path : Bytes) → at < length path → All IsByte path → Split at path
bytes-Split at [] h s = absurd (omega arith)
bytes-Split zero (b ∷ path) h s = record {
  pre = [];
  byte = b;
  post = path;
  shape = refl;
  place = refl;
  pre_small = tt;
  small = s.0;
  post_small = s.1;
}
bytes-Split (suc at) (b ∷ path) h s =
    let r = bytes-Split at path (omega arith) s.1 in
    record {
      pre = b ∷ r.pre;
      byte = r.byte;
      post = r.post;
      shape = ap (◌∷◌ b) r.shape;
      place = ap (λ (k : ℕ). suc k) r.place;
      pre_small = (s.0, r.pre_small);
      small = r.small;
      post_small = r.post_small;
    }

-- A path cut at a depth, with so many bits of a byte.
pub record Cut (bound : ℕ) (path : Bytes) (depth : ℕ) : Type 0 where
  pub rem : ℕ
  pub in_byte : rem < bound
  pub pre : Bytes
  pub byte : ℕ
  pub post : Bytes
  pub shape : path ≡ pre ++ byte ∷ post
  pub place : depth ≡ length pre * 8 + rem
  pub size : length pre + suc (length post) ≡ digest_size
  pub pre_small : All IsByte pre
  pub small : byte < 256
  pub post_small : All IsByte post

cut_from :
    (bound rem at : ℕ) (path : Bytes) (depth : ℕ)
    → IsPath path
    → at < 32
    → rem < bound
    → depth ≡ at * 8 + rem
    → Cut bound path depth
cut_from bound rem at path depth p h lt e =
    let s = bytes-Split at path (omega (arith, p.0)) p.1 in
    record {
      rem = rem;
      in_byte = lt;
      pre = s.pre;
      byte = s.byte;
      post = s.post;
      shape = s.shape;
      place = omega (arith, s.place);
      size = omega (arith, p.0, ap length s.shape, length-append s.pre (s.byte ∷ s.post));
      pre_small = s.pre_small;
      small = s.small;
      post_small = s.post_small;
    }

pub cut_below : (path : Bytes) (depth : ℕ) → IsPath path → depth < max_depth → Cut 8 path depth
cut_below path depth p h =
    cut_from 8 (depth % 8) (depth / 8) path depth p (omega arith) (omega arith) (omega arith)

pub cut_upto : (path : Bytes) (depth : ℕ) → IsPath path → depth ≤ max_depth → Cut 9 path depth
cut_upto path depth p h = elim (dec_lt depth max_depth) [
  | yes below ↦
      cut_from 9 (depth % 8) (depth / 8) path depth p (omega arith) (omega arith) (omega arith)
  | no end ↦ cut_from 9 8 31 path depth p (omega arith) (omega arith) (omega arith)
]

pub All-repeat : (n : ℕ) → All IsByte (repeat n 0)
unfolding repeat
All-repeat zero = tt
All-repeat (suc n) = (omega arith, All-repeat n)

pub All-cut :
    (pre : Bytes) (b : ℕ) (post : Bytes)
    → All IsByte pre
    → b < 256
    → All IsByte post
    → All IsByte (pre ++ b ∷ post)
All-cut [] b post hp hb hq = (hb, hq)
All-cut (x ∷ pre) b post hp hb hq = (hp.0, All-cut pre b post hp.1 hb hq)

pub length_cut :
    (pre : Bytes) (b : ℕ) (post : Bytes) → length (pre ++ b ∷ post) ≡ length pre + suc (length post)
length_cut pre b post = length-append pre (b ∷ post)

module _ (path : Bytes) (depth : ℕ) (c : Cut 9 path depth) where
  pub lower_of : lower path depth ≡ c.pre ++ low_byte c.byte c.rem ∷ repeat (length c.post) 0
  lower_of =
      (λ i. lower (c.shape i) (c.place i))
      ∙ lower_cut c.pre c.byte c.post c.rem c.size c.in_byte c.small

  pub upper_of : upper path depth ≡ c.pre ++ high_byte c.byte c.rem ∷ repeat (length c.post) 255
  upper_of =
      (λ i. upper (c.shape i) (c.place i))
      ∙ upper_cut c.pre c.byte c.post c.rem c.size c.in_byte c.small

  -- The size of what is left of the path.
  low_size : length c.pre + suc (length (repeat (length c.post) 0)) ≡ digest_size
  low_size = rw (length-repeat (length c.post) 0) c.size

  lower-lower : lower (lower path depth) depth ≡ lower path depth
  lower-lower =
      let (again, high, small) = cut_twice_lem c.rem c.byte c.in_byte c.small in
      (λ i. lower (lower_of i) (c.place i))
      ∙ lower_cut c.pre (low_byte c.byte c.rem) (repeat (length c.post) 0) c.rem low_size c.in_byte
          small
      ∙ (rw (length-repeat (length c.post) 0)
          (ap (λ x. c.pre ++ x ∷ repeat (length c.post) 0) again))
      ∙ sym lower_of

  upper-lower : upper (lower path depth) depth ≡ upper path depth
  upper-lower =
      let (again, high, small) = cut_twice_lem c.rem c.byte c.in_byte c.small in
      (λ i. upper (lower_of i) (c.place i))
      ∙ upper_cut c.pre (low_byte c.byte c.rem) (repeat (length c.post) 0) c.rem low_size c.in_byte
          small
      ∙ (rw (length-repeat (length c.post) 0)
          (ap (λ x. c.pre ++ x ∷ repeat (length c.post) 255) high))
      ∙ sym upper_of

  IsPath-lower_of : IsPath (lower path depth)
  IsPath-lower_of = subst IsPath (sym lower_of) (
    length_cut c.pre (low_byte c.byte c.rem) (repeat (length c.post) 0) ∙ low_size,
    All-cut c.pre (low_byte c.byte c.rem) (repeat (length c.post) 0) c.pre_small
        (cut_twice_lem c.rem c.byte c.in_byte c.small).2 (All-repeat (length c.post)),
  )

-- Cutting a path a second time changes neither bound.
pub lower_again :
    (path : Bytes) (depth : ℕ)
    → IsPath path
    → depth ≤ max_depth
    → (lower (lower path depth) depth ≡ lower path depth)
      × (upper (lower path depth) depth ≡ upper path depth)
lower_again path depth p h =
    let c = cut_upto path depth p h in (lower-lower path depth c, upper-lower path depth c)

pub IsPath-lower :
    (path : Bytes) (depth : ℕ) → IsPath path → depth ≤ max_depth → IsPath (lower path depth)
IsPath-lower path depth p h = IsPath-lower_of path depth (cut_upto path depth p h)
