-- ===== src/Ops/Decode.antt =====
-- The decoders of dude/store/ops.py.
use dude_fs.Prelude.{
  ℕ, zero, suc, ℤ, pos, not, none, some, List, [], ◌∷◌, Bytes, Result, ok, err, ◌>>=◌, ◌==◌, ℤ_eq,
  list_eq, nat_eq, if◌then◌else◌,
}
use dude_fs.Codec.{Value, CodecError, other}
use dude_fs.Codec.Access.{as_int, as_bytes, as_seq}
use dude_fs.Codec.Decode.{decode}
use dude_fs.Crypto.{CryptoError, fixed, digest_size, public_key_size, sig_size}
use dude_fs.Ops.Types.{
  Mutation, set, del, Predicate, absent, holds, exists, holds_any, Step, Transaction,
  SignedTransaction,
}

pub data DecodeError : Type 0 where
  bad_value : CodecError → DecodeError
  bad_width : CryptoError → DecodeError
  unknown_tag : DecodeError

abbrev pub from_codec : {A : Type 0} → Result CodecError A → Result DecodeError A
from_codec (ok a) = ok a
from_codec (err e) = err (bad_value e)

abbrev pub from_crypto : {A : Type 0} → Result CryptoError A → Result DecodeError A
from_crypto (ok a) = ok a
from_crypto (err e) = err (bad_width e)

-- `p[i]`, where the length of `p` has been checked
abbrev pub item : ℕ → List Value → Value
item i [] = other
item zero (x ∷ xs) = x
item (suc i) (x ∷ xs) = item i xs

abbrev pub int_at : ℕ → List Value → Result DecodeError ℤ
int_at i p = from_codec (as_int (item i p))

abbrev pub bytes_at : ℕ → List Value → Result DecodeError Bytes
bytes_at i p = from_codec (as_bytes (item i p))

abbrev pub digest_of : Value → Result DecodeError Bytes
digest_of v = from_codec (as_bytes v) >>= λ raw. from_crypto (fixed digest_size raw)

abbrev pub signature_of : Value → Result DecodeError Bytes
signature_of v = from_codec (as_bytes v) >>= λ raw. from_crypto (fixed sig_size raw)

-- `tuple(f(x) for x in xs)`
unfoldable pub each :
    {A : Type 0} → (Value → Result DecodeError A) → List Value → Result DecodeError (List A)
each f [] = ok []
each f (x ∷ xs) = f x >>= λ a. each f xs >>= λ rest. ok (a ∷ rest)

-- `codec.as_bytes(p[0]) if p else b""`
abbrev pub tag_of : List Value → Result DecodeError Bytes
tag_of [] = ok []
tag_of (x ∷ xs) = from_codec (as_bytes x)

-- `Set.decode` and `Del.decode`
unfoldable pub decode_set : Value → Result DecodeError Mutation
decode_set v = do
  p ← from_codec (as_seq v (some 5))
  store ← int_at 1 p
  name ← bytes_at 2 p
  value ← bytes_at 3 p
  epoch ← int_at 4 p
  ok (set store name value epoch)

unfoldable pub decode_del : Value → Result DecodeError Mutation
decode_del v = do
  p ← from_codec (as_seq v (some 3))
  store ← int_at 1 p
  name ← bytes_at 2 p
  ok (del store name)

-- `Mutation.registry`
unfoldable pub mutation_of : Bytes → Value → Result DecodeError Mutation
unfolding decode_set decode_del
mutation_of tag v =
    if tag == b's' ∷ []
    then decode_set v
    else if tag == b'd' ∷ []
    then decode_del v
    else err unknown_tag

unfoldable pub decode_mutation : Value → Result DecodeError Mutation
unfolding mutation_of
decode_mutation v = do p ← from_codec (as_seq v none); tag ← tag_of p; mutation_of tag v

-- `decode` of `Absent` and `Exists`, given the constructor, and of `Holds` and `HoldsAny`
unfoldable pub decode_plain : (ℤ → Bytes → Predicate) → Value → Result DecodeError Predicate
decode_plain make v = do
  p ← from_codec (as_seq v (some 3))
  store ← int_at 1 p
  name ← bytes_at 2 p
  ok (make store name)

unfoldable pub decode_holds : Value → Result DecodeError Predicate
decode_holds v = do
  p ← from_codec (as_seq v (some 4))
  store ← int_at 1 p
  name ← bytes_at 2 p
  digest ← digest_of (item 3 p)
  ok (holds store name digest)

unfoldable pub decode_holds_any : Value → Result DecodeError Predicate
unfolding each
decode_holds_any v = do
  p ← from_codec (as_seq v (some 4))
  store ← int_at 1 p
  name ← bytes_at 2 p
  ds ← from_codec (as_seq (item 3 p) none)
  digests ← each digest_of ds
  ok (holds_any store name digests)

-- `Predicate.registry`
unfoldable pub predicate_of : Bytes → Value → Result DecodeError Predicate
unfolding decode_plain decode_holds decode_holds_any
predicate_of tag v =
    if tag == b'a' ∷ []
    then decode_plain absent v
    else if tag == b'h' ∷ []
    then decode_holds v
    else if tag == b'e' ∷ []
    then decode_plain exists v
    else if tag == b'A' ∷ []
    then decode_holds_any v
    else err unknown_tag

unfoldable pub decode_predicate : Value → Result DecodeError Predicate
unfolding predicate_of
decode_predicate v = do p ← from_codec (as_seq v none); tag ← tag_of p; predicate_of tag v

unfoldable pub decode_step : Value → Result DecodeError Step
unfolding decode_mutation decode_predicate each
decode_step v = do
  p ← from_codec (as_seq v (some 3))
  gs ← from_codec (as_seq (item 0 p) none)
  guards ← each decode_predicate gs
  m ← decode_mutation (item 1 p)
  soft ← int_at 2 p
  ok (record { guards = guards; mutation = m; soft = not (soft == pos 0) })

unfoldable pub decode_transaction : Bytes → Result DecodeError Transaction
unfolding decode_step each
decode_transaction raw = do
  v ← from_codec (decode raw)
  xs ← from_codec (as_seq v none)
  steps ← each decode_step xs
  ok (record { steps = steps })

unfoldable pub decode_tx : Bytes → Result DecodeError SignedTransaction
unfolding decode_step each
decode_tx raw = do
  v ← from_codec (decode raw)
  outer ← from_codec (as_seq v (some 2))
  inner ← bytes_at 0 outer
  w ← from_codec (decode inner)
  body ← from_codec (as_seq w (some 3))
  key ← bytes_at 0 body
  author ← from_crypto (fixed public_key_size key)
  ts ← int_at 1 body
  xs ← from_codec (as_seq (item 2 body) none)
  steps ← each decode_step xs
  raw_sig ← bytes_at 1 outer
  sig ← from_crypto (fixed sig_size raw_sig)
  ok (record { author = author; ts = ts; txn = record { steps = steps }; sig = sig })
