-- ===== src/Ops/RoundTrip.antt =====
-- The decoders of dude/store/ops.py on what its encoders write.
use dude_fs.Prelude.{
  ℕ, pos, Bool, true, false, not, List, [], ◌∷◌, map, Bytes, Result, ok, ◌≡◌, refl, ap, length, All,
  ◌==◌, ℤ_eq, list_eq, nat_eq, ℤ_discrete, list_discrete, ℕ_discrete, eq_self,
}
use dude_fs.Codec.{Value, bytes}
use dude_fs.Codec.Access.{as_int, as_bytes, as_seq, of_list, to_list}
use dude_fs.Codec.Decode.{decode}
use dude_fs.Codec.Plain.{encoded, tuple}
use dude_fs.Codec.Trip.{Fits}
use dude_fs.Codec.RoundTrip.{decode-encode}
use dude_fs.Crypto.{fixed, digest_size, public_key_size, sig_size}
use dude_fs.Ops.Types.{
  Mutation, set, del, Predicate, absent, holds, exists, holds_any, Step, SignedTransaction,
}
use dude_fs.Ops.Encode.{
  encode_mutation, encode_predicate, encode_step, encode_steps, soft_bit, body_value, body_bytes,
  body, raw,
}
use dude_fs.Ops.Decode.{
  DecodeError, each, digest_of, decode_mutation, decode_predicate, decode_step, decode_tx,
}

-- Guards hold digests of the width of a digest.
abbrev pub HasWidths : Predicate → Type 0
HasWidths (absent store name) = Unit
HasWidths (exists store name) = Unit
HasWidths (holds store name digest) = length digest ≡ digest_size
HasWidths (holds_any store name digests) = All (λ d. length d ≡ digest_size) digests

pub to_list-of_list : (xs : List Value) → to_list (of_list xs) ≡ xs
unfolding to_list of_list
to_list-of_list [] = refl
to_list-of_list (x ∷ xs) = ap (◌∷◌ x) (to_list-of_list xs)

pub each-map :
    {B : Type 0} (f : Value → Result DecodeError B) (g : B → Value) (P : B → Type 0) (xs : List B)
    → ((x : B) → P x → f (g x) ≡ ok x)
    → All P xs
    → each f (map g xs) ≡ ok xs
unfolding each
each-map f g P [] h k = refl
each-map f g P (x ∷ xs) h k = rw (h x k.0, each-map f g P xs h k.1) refl

pub fixed_width : (n : ℕ) (raw : Bytes) → length raw ≡ n → fixed n raw ≡ ok raw
unfolding fixed
fixed_width n raw h = rw (h, eq_self n) refl

decode_mutation-encode_mutation : (m : Mutation) → decode_mutation (encode_mutation m) ≡ ok m
unfolding decode_mutation encode_mutation of_list as_seq as_bytes as_int list_discrete ℕ_discrete
decode_mutation-encode_mutation (set store name value epoch) = refl
decode_mutation-encode_mutation (del store name) = refl

pub decode_digest : (d : Bytes) → length d ≡ digest_size → digest_of (bytes d) ≡ ok d
unfolding as_bytes
decode_digest d h = rw (fixed_width digest_size d h) refl

decode_predicate-encode_predicate :
    (p : Predicate) → HasWidths p → decode_predicate (encode_predicate p) ≡ ok p
unfolding decode_predicate encode_predicate of_list as_seq as_bytes as_int list_discrete ℕ_discrete
decode_predicate-encode_predicate (absent store name) h = refl
decode_predicate-encode_predicate (exists store name) h = refl
decode_predicate-encode_predicate (holds store name digest) h =
    rw (fixed_width digest_size digest h) refl
decode_predicate-encode_predicate (holds_any store name digests) h =
    rw
      (
        to_list-of_list (map bytes digests),
        each-map digest_of bytes (λ d. length d ≡ digest_size) digests decode_digest h,
      )
      refl

-- A step within the widths.
abbrev pub StepHasWidths : Step → Type 0
StepHasWidths s = All HasWidths s.guards

not-soft_bit : (b : Bool) → not (soft_bit b == pos 0) ≡ b
unfolding soft_bit ℤ_discrete
not-soft_bit true = refl
not-soft_bit false = refl

decode_step-encode_step : (s : Step) → StepHasWidths s → decode_step (encode_step s) ≡ ok s
unfolding decode_step encode_step of_list as_seq to_list as_int ℕ_discrete
decode_step-encode_step s h =
    rw
      (
        to_list-of_list (map encode_predicate s.guards),
        each-map decode_predicate encode_predicate HasWidths s.guards
            decode_predicate-encode_predicate h,
        decode_mutation-encode_mutation s.mutation,
        not-soft_bit s.soft,
      )
      refl

-- Sizes of a signed transaction: a key, a signature and digests of their widths, and both its body and
-- the whole within the limits of the codec.
pub record IsSized (tx : SignedTransaction) : Type 0 where
  pub key_width : length tx.author ≡ public_key_size
  pub sig_width : length tx.sig ≡ sig_size
  pub guard_widths : All StepHasWidths tx.txn.steps
  pub body_fits : Fits 0 (body_value tx.author tx.ts tx.txn.steps)
  pub whole_fits : Fits 0 (tuple (bytes (body tx) ∷ bytes tx.sig ∷ []))

pub decode-encoded : (v : Value) → Fits 0 v → decode (encoded v) ≡ ok v
unfolding encoded
decode-encoded v h = let (out, written, back) = decode-encode v h in rw (written, back) refl

-- If a signed transaction has a key, a signature and digests of their widths, and its body and the whole
-- are within the limits of the codec, then decoding its `raw` bytes gives the transaction back.
pub decode_tx-raw : (tx : SignedTransaction) → IsSized tx → decode_tx (raw tx) ≡ ok tx
unfolding decode_tx raw body_bytes body_value encode_steps of_list as_seq to_list as_bytes as_int
    ℕ_discrete
decode_tx-raw tx h =
    rw
      (
        decode-encoded (tuple (bytes (body tx) ∷ bytes tx.sig ∷ [])) h.whole_fits,
        decode-encoded (body_value tx.author tx.ts tx.txn.steps) h.body_fits,
        fixed_width public_key_size tx.author h.key_width,
        to_list-of_list (map encode_step tx.txn.steps),
        each-map decode_step encode_step StepHasWidths tx.txn.steps decode_step-encode_step
            h.guard_widths,
        fixed_width sig_size tx.sig h.sig_width,
      )
      refl
