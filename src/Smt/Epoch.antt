-- ===== src/Smt/Epoch.antt =====
-- `epoch.to_bytes(8, "big")`: the width of what it returns, and that no two epochs have the same bytes.
use Prim.Native.Nat.{◌<◌}
use native.Mathlib.Nat.{pow-suc}
use dude_fs.Prelude.{
  ℕ, zero, suc, ◌/◌, ◌%◌, ◌^◌, ℤ, pos, negsuc, [], ◌∷◌, Bytes, ok, list_eq, nat_eq, ltb, ltb→lt,
  length, ◌≡◌, refl, ap, sym, ◌∙◌, arith, append_cancel, length-append, Bool-cases, inl, inr,
}
use dude_fs.Smt.{big_endian, epoch_bytes}

length-big_endian : (k n : ℕ) → length (big_endian k n) ≡ k
unfolding big_endian
length-big_endian zero n = refl
length-big_endian (suc k) n =
    omega
      (arith, length-append (big_endian k (n / 256)) (n % 256 ∷ []), length-big_endian k (n / 256))

big_endian_inj : (k n m : ℕ) → n < 256 ^ k → m < 256 ^ k → big_endian k n ≡ big_endian k m → n ≡ m
unfolding big_endian
big_endian_inj zero n m hn hm e = omega arith
big_endian_inj (suc k) n m hn hm e =
    let (front, last) =
      append_cancel (big_endian k (n / 256)) (big_endian k (m / 256)) (n % 256 ∷ []) (m % 256 ∷ [])
        (length-big_endian k (n / 256) ∙ sym (length-big_endian k (m / 256))) e in
    let low : n % 256 ≡ m % 256 = cc in
    let high : n / 256 ≡ m / 256 =
      big_endian_inj k (n / 256) (m / 256) (omega (arith, pow-suc 256 k, hn))
        (omega (arith, pow-suc 256 k, hm)) front in
    omega (arith, low, high)

-- The integers that `epoch_bytes` accepts, with what it makes of them.
record IsEpoch (z : ℤ) (e : Bytes) : Type 0 where
  value : ℕ
  is_pos : z ≡ pos value
  in_range : value < 2 ^ 64
  shown : e ≡ big_endian 8 value

epoch_bytes-IsEpoch : (z : ℤ) (e : Bytes) → epoch_bytes z ≡ ok e → IsEpoch z e
unfolding epoch_bytes
epoch_bytes-IsEpoch (pos n) e h = elim (Bool-cases (ltb n (2 ^ 64))) [
  | inl t ↦ record {
    value = n;
    is_pos = refl;
    in_range = ltb→lt n (2 ^ 64) t;
    shown = ground arith;
  }
  | inr t ↦ ground arith
]
epoch_bytes-IsEpoch (negsuc n) e h = cc

pub length-epoch_bytes : (z : ℤ) (e : Bytes) → epoch_bytes z ≡ ok e → length e ≡ 8
length-epoch_bytes z e h =
    let p = epoch_bytes-IsEpoch z e h in rw p.shown (length-big_endian 8 p.value)

pub epoch_bytes_inj : (z w : ℤ) (e : Bytes) → epoch_bytes z ≡ ok e → epoch_bytes w ≡ ok e → z ≡ w
epoch_bytes_inj z w e h k =
    let p = epoch_bytes-IsEpoch z e h in
    let q = epoch_bytes-IsEpoch w e k in
    p.is_pos
    ∙ ap pos (big_endian_inj 8 p.value q.value p.in_range q.in_range (sym p.shown ∙ q.shown))
    ∙ sym q.is_pos
