-- ===== src/Codec/Sorted.antt =====
-- Entries in ascending order of their keys, under the sort and the test for repeats.
use dude_fs.Prelude.{
  ◌≡◌, refl, true, false, Option, none, some, List, [], ◌∷◌, Bytes, ok, ◌==◌, list_eq, nat_eq,
  arith, Bool-cases, inl, inr, eq_true,
}
use dude_fs.Prelude.Order.{
  bytes_lt, bytes_lt_irrefl, bytes_lt_trans, bytes_lt_total, sort_by, insert_by,
}
use dude_fs.Codec.Encode.{Entry, entry_key, repeats, encode_entries, join}
use dude_fs.Codec.Decode.{check_order}

abbrev pub After : Option Bytes → Bytes → Type 0
After none k = Unit
After (some p) k = bytes_lt p k ≡ true

abbrev pub Ascending : Option Bytes → List Entry → Type 0
Ascending prev [] = Unit
Ascending prev (e ∷ es) = After prev e.0 × Ascending (some e.0) es

asymmetric : (a b : Bytes) → bytes_lt a b ≡ true → bytes_lt b a ≡ false
asymmetric a b h = elim (Bool-cases (bytes_lt b a)) [
  | inl e ↦ absurd (cc (bytes_lt_trans a b a h e, bytes_lt_irrefl a))
  | inr e ↦ e
]

distinct : (a b : Bytes) → bytes_lt a b ≡ true → (b == a) ≡ false
distinct a b h = elim (Bool-cases (b == a)) [
  | inl e ↦ absurd (cc (rw (eq_true b a e) at h, bytes_lt_irrefl a))
  | inr e ↦ e
]

pub sort_by-Ascending :
    (prev : Option Bytes) (es : List Entry) → Ascending prev es → sort_by entry_key es ≡ es
unfolding sort_by insert_by
sort_by-Ascending prev [] h = refl
sort_by-Ascending prev (e ∷ []) h = refl
sort_by-Ascending prev (e ∷ f ∷ es) h =
    rw (sort_by-Ascending (some e.0) (f ∷ es) h.1, asymmetric e.0 f.0 h.1.0) refl

pub repeats-Ascending :
    (prev : Option Bytes) (es : List Entry) → Ascending prev es → repeats es ≡ false
unfolding repeats
repeats-Ascending prev [] h = refl
repeats-Ascending prev (e ∷ []) h = refl
repeats-Ascending prev (e ∷ f ∷ es) h =
    rw (distinct e.0 f.0 h.1.0) (repeats-Ascending (some e.0) (f ∷ es) h.1)

pub encode_entries-Ascending :
    (prev : Option Bytes) (es : List Entry)
    → Ascending prev es
    → encode_entries (sort_by entry_key es) ≡ join es
unfolding encode_entries
encode_entries-Ascending prev es h =
    rw (sort_by-Ascending prev es h, repeats-Ascending prev es h) refl

pub check_order-After :
    (prev : Option Bytes) (k : Bytes) → After prev k → check_order prev k ≡ ok tt
unfolding check_order
check_order-After none k h = refl
check_order-After (some p) k h = rw (distinct p k h, asymmetric p k h) refl

pub After-check_order :
    (prev : Option Bytes) (k : Bytes) → check_order prev k ≡ ok tt → After prev k
unfolding check_order
After-check_order none k h = tt
After-check_order (some p) k h = elim (Bool-cases (bytes_lt p k)) [
  | inl e ↦ e
  | inr e ↦
      let back : bytes_lt k p ≡ false = ground arith in
      let same : p ≡ k = bytes_lt_total p k e back in absurd (ground arith)
]
