-- ===== src/Smt/Cut.antt =====
-- Paths cut at a depth: the bytes before, the byte that is cut, and the bytes behind it.
use dude_fs.Prelude.{
  ℕ, zero, suc, ◌+◌, ◌-◌, ◌*◌, ◌/◌, ◌%◌, ◌^◌, ◌<◌, [], ◌∷◌, ◌++◌, Bytes, ◌≡◌, refl, ap, arith, ◌==◌,
  nat_eq, length, take, length-append, take-length-append, append_assoc, append-nil, if◌then◌else◌,
  dec_lt, ℕ_discrete, eq_false,
}
use dude_fs.Crypto.{digest_size}
use dude_fs.Crypto.Bitmap.{byte_at}
use dude_fs.Smt.{low_byte, high_byte, head_bytes, repeat, pad, lower, upper, bit}
use dude_fs.Smt.Tree.{update_at, toggle, flip}

pub length-repeat : (n b : ℕ) → length (repeat n b) ≡ n
unfolding repeat
length-repeat zero b = refl
length-repeat (suc n) b = ap (λ (k : ℕ). suc k) (length-repeat n b)

byte_at_cut : (pre : Bytes) (b : ℕ) (post : Bytes) → byte_at (length pre) (pre ++ b ∷ post) ≡ b
unfolding byte_at
byte_at_cut [] b post = refl
byte_at_cut (x ∷ pre) b post = byte_at_cut pre b post

pub update_at_cut :
    (f : ℕ → ℕ) (pre : Bytes) (b : ℕ) (post : Bytes)
    → update_at (length pre) f (pre ++ b ∷ post) ≡ pre ++ f b ∷ post
unfolding update_at
update_at_cut f [] b post = refl
update_at_cut f (x ∷ pre) b post = ap (◌∷◌ x) (update_at_cut f pre b post)

take-suc_cut :
    (pre : Bytes) (b : ℕ) (post : Bytes) → take (suc (length pre)) (pre ++ b ∷ post) ≡ pre ++ b ∷ []
take-suc_cut [] b post = refl
take-suc_cut (x ∷ pre) b post = ap (◌∷◌ x) (take-suc_cut pre b post)

-- What pads the bytes up to the one that is cut.
pad_cut :
    (v : ℕ) (pre : Bytes) (x : ℕ) (n : ℕ)
    → length pre + suc n ≡ digest_size
    → pad v (pre ++ x ∷ []) ≡ pre ++ x ∷ repeat n v
pad_cut v pre x n h =
    let size : digest_size - length (pre ++ x ∷ []) ≡ n =
      omega (arith, length-append pre (x ∷ [])) in
    rw size (append_assoc pre (x ∷ []) (repeat n v))

pad_before :
    (v : ℕ) (pre : Bytes) (n : ℕ)
    → length pre + suc n ≡ digest_size
    → pad v (pre ++ []) ≡ pre ++ v ∷ repeat n v
unfolding repeat
pad_before v pre n h =
    let size : digest_size - length pre ≡ suc n = omega arith in rw (append-nil pre, size) refl

head_at :
    (fill : ℕ → ℕ → ℕ) (path : Bytes) (d q r : ℕ)
    → d / 8 ≡ q
    → d % 8 ≡ r
    → head_bytes fill path d ≡ take q path ++ (if r == 0 then [] else fill (byte_at q path) r ∷ [])
unfolding head_bytes
head_at fill path d q r hq hr = rw (hq, hr) refl

-- A head of `rem` bits of a byte, none and all of them included.
head_cut :
    (fill : ℕ → ℕ → ℕ) (v : ℕ) (pre : Bytes) (b : ℕ) (post : Bytes) (rem : ℕ)
    → length pre + suc (length post) ≡ digest_size
    → rem < 9
    → fill b 0 ≡ v
    → fill b 8 ≡ b
    → pad v (head_bytes fill (pre ++ b ∷ post) (length pre * 8 + rem))
      ≡ pre ++ fill b rem ∷ repeat (length post) v
unfolding ℕ_discrete
head_cut fill v pre b post zero h lt none_of all_of =
    rw
      (
        head_at fill (pre ++ b ∷ post) (length pre * 8 + 0) (length pre) 0 (omega arith)
            (omega arith),
        take-length-append pre (b ∷ post),
        none_of,
      )
      (pad_before v pre (length post) h)
head_cut fill v pre b post (suc r) h lt none_of all_of = elim (dec_lt (suc r) 8) [
  | yes small ↦
      rw
        (
          head_at fill (pre ++ b ∷ post) (length pre * 8 + suc r) (length pre) (suc r) (omega arith)
              (omega arith),
          take-length-append pre (b ∷ post),
          byte_at_cut pre b post,
          eq_false (suc r) 0 (λ e. omega arith),
        )
        (pad_cut v pre (fill b (suc r)) (length post) h)
  | no large ↦
      let whole : r ≡ 7 = omega arith in
      rw
        (
          whole,
          head_at fill (pre ++ b ∷ post) (length pre * 8 + 8) (suc (length pre)) 0 (omega arith)
              (omega arith),
          take-suc_cut pre b post,
          append-nil (pre ++ b ∷ []),
          all_of,
        )
        (pad_cut v pre b (length post) h)
]

pub lower_cut :
    (pre : Bytes) (b : ℕ) (post : Bytes) (rem : ℕ)
    → length pre + suc (length post) ≡ digest_size
    → rem < 9
    → b < 256
    → lower (pre ++ b ∷ post) (length pre * 8 + rem)
      ≡ pre ++ low_byte b rem ∷ repeat (length post) 0
unfolding lower
lower_cut pre b post rem h lt hb =
    head_cut low_byte 0 pre b post rem h lt (omega (arith, hb)) (omega arith)

pub upper_cut :
    (pre : Bytes) (b : ℕ) (post : Bytes) (rem : ℕ)
    → length pre + suc (length post) ≡ digest_size
    → rem < 9
    → b < 256
    → upper (pre ++ b ∷ post) (length pre * 8 + rem)
      ≡ pre ++ high_byte b rem ∷ repeat (length post) 255
unfolding upper
upper_cut pre b post rem h lt hb =
    head_cut high_byte 255 pre b post rem h lt (omega (arith, hb)) (omega arith)

pub bit_cut :
    (pre : Bytes) (b : ℕ) (post : Bytes) (rem : ℕ)
    → rem < 8
    → bit (pre ++ b ∷ post) (length pre * 8 + rem) ≡ b / 2 ^ (7 - rem) % 2
unfolding bit
bit_cut pre b post rem lt =
    let q : (length pre * 8 + rem) / 8 ≡ length pre = omega arith in
    let r : (length pre * 8 + rem) % 8 ≡ rem = omega arith in rw (q, r, byte_at_cut pre b post) refl

pub flip_cut :
    (pre : Bytes) (b : ℕ) (post : Bytes) (rem : ℕ)
    → rem < 8
    → flip (pre ++ b ∷ post) (length pre * 8 + rem) ≡ pre ++ toggle (2 ^ (7 - rem)) b ∷ post
unfolding flip
flip_cut pre b post rem lt =
    let q : (length pre * 8 + rem) / 8 ≡ length pre = omega arith in
    let r : (length pre * 8 + rem) % 8 ≡ rem = omega arith in
    rw (q, r) (update_at_cut (toggle (2 ^ (7 - rem))) pre b post)
