-- ===== src/Tests/Smt.antt =====
-- Proofs over small trees.
use dude_fs.Prelude.{
  ℕ, zero, suc, ◌++◌, pos, true, none, some, [], ◌∷◌, Bytes, ok, ◌≡◌, ◌≢◌, refl, sym, subst, arith,
  length, ℕ_discrete, list_discrete,
}
use dude_fs.Crypto.{Suite, digest_size}
use dude_fs.Crypto.Bitmap.{zeros, byte_at}
use dude_fs.Codec.{show}
use dude_fs.Codec.Encode.{encode, put_bytes}
use dude_fs.Codec.Access.{of_list}
use dude_fs.Codec.Plain.{encoded}
use dude_fs.Ops.{Held}
use dude_fs.Smt.{
  leaf_person, branch_person, leaf_message, Proof, empty_hash, big_endian, epoch_bytes, head_bytes,
  lower, repeat, bit, path_of, leaf_hash, branch_hash, joined, fold_from, present_at, present,
  verify_at, verify,
}
use dude_fs.Smt.Binding.{Apart, Foreign, branches}
use dude_fs.Smt.Sound.{queries, verify_binding, verify_excludes}
use dude_fs.Codec.Trip.{Fits}
use dude_fs.Smt.Wire.{proof_value, encode_proof, decode_proof, decode_proof-encode_proof}
use dude_fs.Smt.Forged.{forged, verify-forged}
use dude_fs.Tests.Toy.{toy}

abbrev pub wide : Suite
wide = record toy { h = λ x. toy.h_domain [] x }

wide_width : (person x : Bytes) → length (wide.h_domain person x) ≡ digest_size
wide_width person x = refl

abbrev pub blank : ℕ → Bytes
blank zero = []
blank (suc n) = 0 ∷ blank n

abbrev pub name : Bytes
name = 1 ∷ 2 ∷ []

abbrev row : Held
row = record { value = 7 ∷ []; epoch = pos 5; cred = 8 ∷ [] }

abbrev pub path : Bytes
path = 255 ∷ 63 ∷ 9 ∷ blank 29

pub path_lem : path_of wide (pos 1) name ≡ path
unfolding path_of encoded encode of_list put_bytes show
path_lem = refl

abbrev pub leaf : Bytes
leaf =
    wide.h_domain leaf_person
      (leaf_message path (wide.h (7 ∷ [])) (wide.h (8 ∷ [])) (blank 7 ++ 5 ∷ []))

leaf_hash_run : leaf_hash wide path (wide.h row.value) (wide.h row.cred) row.epoch ≡ ok leaf
unfolding leaf_hash epoch_bytes big_endian
leaf_hash_run = refl

abbrev proof : Proof
proof = record { siblings = blank 32 ∷ []; occupant = some (path, leaf) }

abbrev root : Bytes
root = wide.h_domain branch_person (0 ∷ 0 ∷ (blank 32 ++ (blank 32 ++ leaf)))

present_run : verify wide root (pos 1) name (some row) proof ≡ ok true
unfolding verify verify_at present present_at leaf_hash epoch_bytes big_endian fold_from joined
    branch_hash bit lower head_bytes byte_at repeat path_of encoded encode of_list put_bytes show
    ℕ_discrete list_discrete
present_run = refl

queries_lem :
    queries wide (path_of wide (pos 1) name) row proof
    ≡ (leaf_person, leaf_message path (wide.h (7 ∷ [])) (wide.h (8 ∷ [])) (blank 7 ++ 5 ∷ []))
      ∷ (branch_person, 0 ∷ 0 ∷ (blank 32 ++ (blank 32 ++ leaf)))
      ∷ []
unfolding epoch_bytes big_endian branches fold_from bit lower head_bytes byte_at repeat path_of
    encoded encode of_list put_bytes show ℕ_discrete
queries_lem = refl

queries-Apart :
    Apart wide
      (queries wide (path_of wide (pos 1) name) row proof)
      (queries wide (path_of wide (pos 1) name) row proof)
queries-Apart =
    subst (λ qs. Apart wide qs qs) (sym queries_lem)
      (
        (λ e. refl, (λ e. absurd (ground arith), tt)),
        ((λ e. absurd (ground arith), (λ e. refl, tt)), tt),
      )

verify_binding_example :
    (wide.h row.value ≡ wide.h row.value)
    × (wide.h row.cred ≡ wide.h row.cred)
    × (row.epoch ≡ row.epoch)
verify_binding_example =
    verify_binding wide wide_width (wide_width []) root name (pos 1) row row proof proof (refl, tt)
      (refl, tt) queries-Apart present_run present_run

rest_lem :
    branches wide 0 (path_of wide (pos 1) name) empty_hash (blank 32 ∷ [])
    ≡ (branch_person, 0 ∷ 0 ∷ blank 96) ∷ []
unfolding zeros big_endian branches fold_from bit lower head_bytes byte_at repeat path_of encoded
    encode of_list put_bytes show ℕ_discrete
rest_lem = refl

rest-Apart :
    Apart wide
      (queries wide (path_of wide (pos 1) name) row proof)
      (branches wide 0 (path_of wide (pos 1) name) empty_hash (blank 32 ∷ []))
rest-Apart =
    subst (λ rs. Apart wide (queries wide (path_of wide (pos 1) name) row proof) rs) (sym rest_lem)
      (subst (λ qs. Apart wide qs ((branch_person, 0 ∷ 0 ∷ blank 96) ∷ [])) (sym queries_lem)
        ((λ e. absurd (ground arith), tt), ((λ e. absurd (ground arith), tt), tt)))

queries-Foreign : Foreign wide empty_hash (queries wide (path_of wide (pos 1) name) row proof)
unfolding zeros
queries-Foreign =
    subst (Foreign wide empty_hash) (sym queries_lem)
      (λ e. absurd (ground arith), (λ e. absurd (ground arith), tt))

verify_excludes_example : ¬ (
    verify wide root (pos 1) name none (record { siblings = blank 32 ∷ []; occupant = none })
    ≡ ok true)
verify_excludes_example =
    verify_excludes wide wide_width (wide_width []) root name (pos 1) row proof (blank 32 ∷ [])
      (refl, tt) (refl, tt) rest-Apart queries-Foreign present_run

other_path : blank 32 ≢ path_of wide (pos 1) name
unfolding path_of encoded encode of_list put_bytes show
other_path e = ground arith

-- The row is there, and is proved absent.
verify-forged_example : verify wide root (pos 1) name none (forged (blank 32) root) ≡ ok true
verify-forged_example = verify-forged wide root (blank 32) name (pos 1) other_path

proof-Fits : Fits 0 (proof_value proof)
unfolding Fits show of_list
proof-Fits = (
  omega arith,
  (
    (omega arith, ((omega arith, omega arith), tt)),
    ((omega arith, ((omega arith, omega arith), ((omega arith, omega arith), tt))), tt),
  ),
)

decode_proof-encode_proof_example : decode_proof (encode_proof proof) ≡ ok proof
decode_proof-encode_proof_example = decode_proof-encode_proof proof (refl, tt) refl proof-Fits
