-- ===== src/Crypto/Bitmap.antt =====
-- The signer bitmap and `MultiSig` of dude/core/crypto.py. Signer `i` has bit `0x80 >> (i & 7)` of byte
-- `i >> 3`.
use dude_fs.Prelude.{
  ℕ, zero, suc, ◌+◌, ◌-◌, ◌/◌, ◌%◌, ◌^◌, Bool, true, false, not, ◌&&◌, List, [], ◌∷◌, ◌++◌, map,
  Bytes, Result, ok, err, ◌>>=◌, ◌==◌, nat_eq, if◌then◌else◌, ltb, length, select,
}
use dude_fs.Crypto.{Suite, CryptoError, signer_out_of_range, bitmap_width}

abbrev pub bitmap_size : ℕ → ℕ
bitmap_size n = (n + 7) / 8

-- `0x80 >> (i & 7)`
abbrev pub mask : ℕ → ℕ
mask i = 2 ^ (7 - i % 8)

-- `byte & mask != 0` for a mask of one bit
abbrev pub has_bit : ℕ → ℕ → Bool
has_bit byte m = (byte / m) % 2 == 1

-- `byte | mask` for a mask of one bit
abbrev pub with_bit : ℕ → ℕ → ℕ
with_bit byte m = if has_bit byte m then byte else byte + m

unfoldable pub zeros : ℕ → Bytes
zeros zero = []
zeros (suc n) = 0 ∷ zeros n

-- `buf[at] |= m`
unfoldable pub set_at : ℕ → ℕ → Bytes → Bytes
set_at at m [] = []
set_at zero m (b ∷ bs) = with_bit b m ∷ bs
set_at (suc at) m (b ∷ bs) = b ∷ set_at at m bs

-- `bitmap[at]`
unfoldable pub byte_at : ℕ → Bytes → ℕ
byte_at at [] = 0
byte_at zero (b ∷ bs) = b
byte_at (suc at) (b ∷ bs) = byte_at at bs

unfoldable pub set_all : List ℕ → ℕ → Bytes → Result CryptoError Bytes
unfolding set_at
set_all [] n buf = ok buf
set_all (i ∷ is) n buf =
    let rest = set_all is n (set_at (i / 8) (mask i) buf) in
    if not (ltb i n) then err signer_out_of_range else rest

unfoldable pub bitmap_set : List ℕ → ℕ → Result CryptoError Bytes
unfolding set_all zeros
bitmap_set indices n = set_all indices n (zeros (bitmap_size n))

unfoldable pub range : ℕ → List ℕ
range zero = []
range (suc n) = range n ++ n ∷ []

unfoldable pub has_signer : Bytes → ℕ → Bool
unfolding byte_at
has_signer bitmap i = has_bit (byte_at (i / 8) bitmap) (mask i)

unfoldable pub bitmap_indices : Bytes → ℕ → Result CryptoError (List ℕ)
unfolding has_signer range
bitmap_indices bitmap n =
    if not (length bitmap == bitmap_size n)
    then err bitmap_width
    else ok (select (has_signer bitmap) (range n))

unfoldable pub bitmap_count : Bytes → ℕ → Result CryptoError ℕ
unfolding bitmap_indices
bitmap_count bitmap n = bitmap_indices bitmap n >>= λ is. ok (length is)

pub record MultiSig : Type 0 where
  pub bitmap : Bytes
  pub sigs : List Bytes

abbrev pub unsigned : MultiSig
unsigned = record { bitmap = []; sigs = [] }

-- `MultiSig.combine`, for shares given in ascending order of their indices
unfoldable pub combine : List (ℕ × Bytes) → ℕ → Result CryptoError MultiSig
unfolding bitmap_set
combine shares n = bitmap_set (map (λ s. s.0) shares) n >>= λ bitmap.
    ok (record { bitmap = bitmap; sigs = map (λ s. s.1) shares })

-- `signers[idx]`, for an index in range
unfoldable pub signer_at : ℕ → List Bytes → Bytes
signer_at i [] = []
signer_at zero (pk ∷ pks) = pk
signer_at (suc i) (pk ∷ pks) = signer_at i pks

module _ (c : Suite) where
  unfoldable pub verify_each : Bytes → List Bytes → List ℕ → List Bytes → Bool
  unfolding signer_at
  verify_each msg signers (i ∷ is) (sig ∷ sigs) =
      c.verify (signer_at i signers) msg sig && verify_each msg signers is sigs
  verify_each msg signers [] [] = true
  verify_each msg signers [] (sig ∷ sigs) = false
  verify_each msg signers (i ∷ is) [] = false

  -- `MultiSig.verify` refuses a bitmap of the wrong width before it reads the indices.
  unfoldable pub verify_multisig : MultiSig → Bytes → List Bytes → Bool
  unfolding bitmap_indices verify_each
  verify_multisig m msg signers =
      if not (length m.bitmap == bitmap_size (length signers))
      then false
      else elim (bitmap_indices m.bitmap (length signers)) [
        | err _ ↦ false
        | ok indices ↦
            (if not (length indices == length m.sigs)
              then false
              else verify_each msg signers indices m.sigs)
      ]
