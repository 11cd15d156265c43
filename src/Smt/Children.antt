-- ===== src/Smt/Children.antt =====
-- The two children of a place in the tree, in terms of the lower bound of the place.
use dude_fs.Prelude.{
  ℕ, suc, ◌+◌, ◌-◌, ◌*◌, ◌/◌, ◌%◌, ◌^◌, ◌<◌, true, false, ◌∷◌, ◌++◌, Bytes, ◌≡◌, ap, sym, ◌∙◌,
  subst, arith, ◌==◌, nat_eq, length, Bool-cases, inl, inr,
}
use dude_fs.Smt.{low_byte, repeat, lower, bit, max_depth}
use dude_fs.Smt.Tree.{update_at, toggle, flip, left_of, right_of}
use dude_fs.Smt.Bits.{cut_next_one, cut_next_zero, cut_back_lem}
use dude_fs.Smt.Cut.{length-repeat, update_at_cut, lower_cut, bit_cut, flip_cut}
use dude_fs.Smt.Paths.{
  IsPath, Cut, cut_below, All-cut, length_cut, lower_of, lower_again, IsPath-lower,
}

-- The lower bound of the child whose next bit is set.
unfoldable pub one_child : Bytes → ℕ → Bytes
unfolding update_at
one_child lo depth = update_at (depth / 8) (λ b. b + 2 ^ (7 - depth % 8)) lo

widen : (path : Bytes) (depth : ℕ) → Cut 8 path depth → Cut 9 path depth
widen path depth c = record {
  rem = c.rem;
  in_byte = omega (arith, c.in_byte);
  pre = c.pre;
  byte = c.byte;
  post = c.post;
  shape = c.shape;
  place = c.place;
  size = c.size;
  pre_small = c.pre_small;
  small = c.small;
  post_small = c.post_small;
}

module _ (path : Bytes) (depth : ℕ) (c : Cut 8 path depth) where
  abbrev m : ℕ
  m = 2 ^ (7 - c.rem)

  here : lower path depth ≡ c.pre ++ low_byte c.byte c.rem ∷ repeat (length c.post) 0
  unfolding widen
  here = lower_of path depth (widen path depth c)

  one_here :
      one_child (lower path depth) depth
      ≡ c.pre ++ (low_byte c.byte c.rem + m) ∷ repeat (length c.post) 0
  unfolding one_child
  one_here =
      let q : depth / 8 ≡ length c.pre = omega (arith, c.place, c.in_byte) in
      let r : depth % 8 ≡ c.rem = omega (arith, c.place, c.in_byte) in
      (λ i. update_at (q i) (λ b. b + 2 ^ (7 - r i)) (here i))
      ∙ update_at_cut (λ b. b + m) c.pre (low_byte c.byte c.rem) (repeat (length c.post) 0)

  -- The lower bound one level down, of the path or of the path with another byte.
  below :
      (b : ℕ)
      → b < 256
      → lower (c.pre ++ b ∷ c.post) (suc depth)
        ≡ c.pre ++ low_byte b (suc c.rem) ∷ repeat (length c.post) 0
  below b hb =
      let next : suc depth ≡ length c.pre * 8 + suc c.rem = omega (arith, c.place) in
      ap (lower (c.pre ++ b ∷ c.post)) next
      ∙ lower_cut c.pre b c.post (suc c.rem) c.size (omega (arith, c.in_byte)) hb

  own_below :
      lower path (suc depth) ≡ c.pre ++ low_byte c.byte (suc c.rem) ∷ repeat (length c.post) 0
  own_below = (λ i. lower (c.shape i) (suc depth)) ∙ below c.byte c.small

  flipped : flip path depth ≡ c.pre ++ toggle m c.byte ∷ c.post
  flipped = (λ i. flip (c.shape i) (c.place i)) ∙ flip_cut c.pre c.byte c.post c.rem c.in_byte

  flip_below :
      toggle m c.byte < 256
      → lower (flip path depth) (suc depth)
        ≡ c.pre ++ low_byte (toggle m c.byte) (suc c.rem) ∷ repeat (length c.post) 0
  flip_below h = (λ i. lower (flipped i) (suc depth)) ∙ below (toggle m c.byte) h

  bit_here : bit path depth ≡ c.byte / m % 2
  bit_here = (λ i. bit (c.shape i) (c.place i)) ∙ bit_cut c.pre c.byte c.post c.rem c.in_byte

  toggle-lt : toggle m c.byte < 256
  toggle-lt = elim (Bool-cases (c.byte / m % 2 == 1)) [
    | inl e ↦ (cut_next_one c.rem c.byte c.in_byte c.small e).2
    | inr e ↦ (cut_next_zero c.rem c.byte c.in_byte c.small e).2
  ]

  abbrev with_byte : ℕ → Bytes
  with_byte b = c.pre ++ b ∷ repeat (length c.post) 0

  cut_one :
      (bit path depth == 1) ≡ true
      → (lower path (suc depth) ≡ one_child (lower path depth) depth)
        × (lower (flip path depth) (suc depth) ≡ lower path depth)
  cut_one h =
      let (own, other, small) = cut_next_one c.rem c.byte c.in_byte c.small (rw bit_here at h) in
      (
        own_below ∙ ap with_byte own ∙ sym one_here,
        flip_below small ∙ ap with_byte other ∙ sym here,
      )

  cut_zero :
      (bit path depth == 1) ≡ false
      → (lower path (suc depth) ≡ lower path depth)
        × (lower (flip path depth) (suc depth) ≡ one_child (lower path depth) depth)
  cut_zero h =
      let (own, other, small) = cut_next_zero c.rem c.byte c.in_byte c.small (rw bit_here at h) in
      (
        own_below ∙ ap with_byte own ∙ sym here,
        flip_below small ∙ ap with_byte other ∙ sym one_here,
      )

  IsPath-flip_of : IsPath (flip path depth)
  IsPath-flip_of = subst IsPath (sym flipped) (
    length_cut c.pre (toggle m c.byte) c.post ∙ c.size,
    All-cut c.pre (toggle m c.byte) c.post c.pre_small toggle-lt c.post_small,
  )

  -- Cutting at this depth a byte in place of the one that was cut.
  cut_here :
      (b : ℕ)
      → b < 256
      → low_byte b c.rem ≡ low_byte c.byte c.rem
      → lower (with_byte b) depth ≡ lower path depth
  cut_here b small same =
      let n : length (repeat (length c.post) 0) ≡ length c.post = length-repeat (length c.post) 0 in
      (λ i. lower (with_byte b) (c.place i))
      ∙ lower_cut c.pre b (repeat (length c.post) 0) c.rem (rw n c.size) (omega (arith, c.in_byte))
          small
      ∙ (λ i. c.pre ++ same i ∷ repeat (n i) 0)
      ∙ sym here

  cut_back_here : lower (lower path (suc depth)) depth ≡ lower path depth
  cut_back_here =
      let (again, other, small) = cut_back_lem c.rem c.byte c.in_byte c.small in
      (λ i. lower (own_below i) depth)
      ∙ cut_here (low_byte c.byte (suc c.rem)) (omega (arith, c.small)) again

  lower-one_child_of : lower (one_child (lower path depth) depth) depth ≡ lower path depth
  lower-one_child_of =
      let (again, other, small) = cut_back_lem c.rem c.byte c.in_byte c.small in
      (λ i. lower (one_here i) depth) ∙ cut_here (low_byte c.byte c.rem + m) small other

pub IsPath-flip :
    (path : Bytes) (depth : ℕ) → IsPath path → depth < max_depth → IsPath (flip path depth)
IsPath-flip path depth p h = IsPath-flip_of path depth (cut_below path depth p h)

module _ (path : Bytes) (depth : ℕ) (p : IsPath path) (h : depth < max_depth) where
  pub child_one :
      (bit path depth == 1) ≡ true
      → (lower path (suc depth) ≡ one_child (lower path depth) depth)
        × (lower (flip path depth) (suc depth) ≡ lower path depth)
  child_one = cut_one path depth (cut_below path depth p h)

  pub child_zero :
      (bit path depth == 1) ≡ false
      → (lower path (suc depth) ≡ lower path depth)
        × (lower (flip path depth) (suc depth) ≡ one_child (lower path depth) depth)
  child_zero = cut_zero path depth (cut_below path depth p h)

-- Cutting at a depth what was cut one level down, or is the child there.
pub lower_back :
    (path : Bytes) (depth : ℕ)
    → IsPath path
    → depth < max_depth
    → lower (lower path (suc depth)) depth ≡ lower path depth
lower_back path depth p h = cut_back_here path depth (cut_below path depth p h)

pub lower-one_child :
    (path : Bytes) (depth : ℕ)
    → IsPath path
    → depth < max_depth
    → lower (one_child (lower path depth) depth) depth ≡ lower path depth
lower-one_child path depth p h = lower-one_child_of path depth (cut_below path depth p h)

pub IsPath-left :
    (path : Bytes) (depth : ℕ) → IsPath path → depth < max_depth → IsPath (left_of path depth)
IsPath-left path depth p h = elim (Bool-cases (bit path depth == 1)) [
  | inl e ↦
      rw e
        (IsPath-lower (flip path depth) (suc depth) (IsPath-flip path depth p h) (omega (arith, h)))
  | inr e ↦ rw e (IsPath-lower path (suc depth) p (omega (arith, h)))
]

pub IsPath-right :
    (path : Bytes) (depth : ℕ) → IsPath path → depth < max_depth → IsPath (right_of path depth)
IsPath-right path depth p h = elim (Bool-cases (bit path depth == 1)) [
  | inl e ↦ rw e (IsPath-lower path (suc depth) p (omega (arith, h)))
  | inr e ↦
      rw e
        (IsPath-lower (flip path depth) (suc depth) (IsPath-flip path depth p h) (omega (arith, h)))
]

-- The children are cut already.
pub lower-left :
    (path : Bytes) (depth : ℕ)
    → IsPath path
    → depth < max_depth
    → lower (left_of path depth) (suc depth) ≡ lower path depth
lower-left path depth p h = elim (Bool-cases (bit path depth == 1)) [
  | inl e ↦ rw e (
      (lower_again (flip path depth) (suc depth) (IsPath-flip path depth p h) (omega (arith, h))).0
      ∙ (child_one path depth p h e).1)
  | inr e ↦
      rw e ((lower_again path (suc depth) p (omega (arith, h))).0 ∙ (child_zero path depth p h e).0)
]

pub lower-right :
    (path : Bytes) (depth : ℕ)
    → IsPath path
    → depth < max_depth
    → lower (right_of path depth) (suc depth) ≡ one_child (lower path depth) depth
lower-right path depth p h = elim (Bool-cases (bit path depth == 1)) [
  | inl e ↦
      rw e ((lower_again path (suc depth) p (omega (arith, h))).0 ∙ (child_one path depth p h e).0)
  | inr e ↦ rw e (
      (lower_again (flip path depth) (suc depth) (IsPath-flip path depth p h) (omega (arith, h))).0
      ∙ (child_zero path depth p h e).1)
]
