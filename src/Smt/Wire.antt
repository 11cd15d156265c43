-- ===== src/Smt/Wire.antt =====
-- `Proof.encode` and `Proof.decode` of dude/store/smt.py, and that the one undoes the other.
use dude_fs.Prelude.{
  Option, none, some, List, [], ◌∷◌, map, Bytes, Result, ok, err, ◌>>=◌, ◌≡◌, refl, length, All,
  ℕ_discrete,
}
use dude_fs.Codec.{Value, bytes}
use dude_fs.Codec.Access.{as_seq, as_bytes, of_list, to_list}
use dude_fs.Codec.Decode.{decode}
use dude_fs.Codec.Plain.{encoded, tuple}
use dude_fs.Codec.Trip.{Fits}
use dude_fs.Crypto.{digest_size}
use dude_fs.Ops.Decode.{DecodeError, from_codec, item, each, digest_of}
use dude_fs.Ops.RoundTrip.{to_list-of_list, each-map, decode-encoded, decode_digest}
use dude_fs.Smt.{Proof}

abbrev pub occupant_value : Option (Bytes × Bytes) → Value
occupant_value none = tuple []
occupant_value (some (path, term)) = tuple (bytes path ∷ bytes term ∷ [])

abbrev pub proof_value : Proof → Value
proof_value p = tuple (tuple (map bytes p.siblings) ∷ occupant_value p.occupant ∷ [])

unfoldable pub encode_proof : Proof → Bytes
unfolding encoded
encode_proof p = encoded (proof_value p)

-- The IndexError of `occ[1]`.
pub data ProofError : Type 0 where
  malformed : DecodeError → ProofError
  short_occupant : ProofError

abbrev from_decode : {A : Type 0} → Result DecodeError A → Result ProofError A
from_decode (ok a) = ok a
from_decode (err e) = err (malformed e)

unfoldable pub occupant_of : List Value → Result ProofError (Option (Bytes × Bytes))
occupant_of [] = ok none
occupant_of (x ∷ []) = from_decode (from_codec (as_bytes x)) >>= λ path. err short_occupant
occupant_of (x ∷ y ∷ rest) = do
  path ← from_decode (from_codec (as_bytes x))
  term ← from_decode (digest_of y)
  ok (some (path, term))

unfoldable pub decode_proof : Bytes → Result ProofError Proof
unfolding each occupant_of
decode_proof raw = do
  v ← from_decode (from_codec (decode raw))
  p ← from_decode (from_codec (as_seq v (some 2)))
  occ ← from_decode (from_codec (as_seq (item 1 p) none))
  ss ← from_decode (from_codec (as_seq (item 0 p) none))
  siblings ← from_decode (each digest_of ss)
  occupant ← occupant_of occ
  ok (record { siblings = siblings; occupant = occupant })

-- The second part of an occupant is a digest.
abbrev pub OccupantHasDigest : Option (Bytes × Bytes) → Type 0
OccupantHasDigest none = Unit
OccupantHasDigest (some o) = length o.1 ≡ digest_size

occupant_items : Option (Bytes × Bytes) → List Value
occupant_items none = []
occupant_items (some (path, term)) = bytes path ∷ bytes term ∷ []

occupant_of-items :
    (o : Option (Bytes × Bytes)) → OccupantHasDigest o → occupant_of (occupant_items o) ≡ ok o
unfolding occupant_of occupant_items as_bytes
occupant_of-items none h = refl
occupant_of-items (some (path, term)) h = rw (decode_digest term h) refl

seq-occupant_value :
    (o : Option (Bytes × Bytes)) → as_seq (occupant_value o) none ≡ ok (occupant_items o)
unfolding as_seq to_list of_list occupant_items
seq-occupant_value none = refl
seq-occupant_value (some o) = refl

-- If the siblings of a proof and the hash of its occupant have the width of a digest, and the proof is
-- within the limits of the codec, then decoding its encoding gives the proof back.
pub decode_proof-encode_proof :
    (p : Proof)
    → All (λ s. length s ≡ digest_size) p.siblings
    → OccupantHasDigest p.occupant
    → Fits 0 (proof_value p)
    → decode_proof (encode_proof p) ≡ ok p
unfolding decode_proof encode_proof as_seq to_list of_list ℕ_discrete
decode_proof-encode_proof p hs ho fits =
    rw
      (
        decode-encoded (proof_value p) fits,
        seq-occupant_value p.occupant,
        to_list-of_list (map bytes p.siblings),
        each-map digest_of bytes (λ d. length d ≡ digest_size) p.siblings decode_digest hs,
        occupant_of-items p.occupant ho,
      )
      refl
