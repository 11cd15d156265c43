-- ===== src/Ops/Encode.antt =====
-- `encode` of dude/store/ops.py, and what is hashed and signed.
use dude_fs.Prelude.{ℤ, pos, Bool, true, false, List, [], ◌∷◌, map, Bytes}
use dude_fs.Codec.{Value, int, bytes}
use dude_fs.Codec.Plain.{encoded, tuple}
use dude_fs.Crypto.{Suite}
use dude_fs.Ops.Types.{
  Mutation, set, del, Predicate, absent, holds, exists, holds_any, Step, Transaction,
  SignedTransaction,
}

-- The values of `OpType` are single letters.
unfoldable pub encode_mutation : Mutation → Value
encode_mutation (set store name value epoch) =
    tuple (bytes (b's' ∷ []) ∷ int store ∷ bytes name ∷ bytes value ∷ int epoch ∷ [])
encode_mutation (del store name) = tuple (bytes (b'd' ∷ []) ∷ int store ∷ bytes name ∷ [])

unfoldable pub encode_predicate : Predicate → Value
encode_predicate (absent store name) = tuple (bytes (b'a' ∷ []) ∷ int store ∷ bytes name ∷ [])
encode_predicate (holds store name digest) =
    tuple (bytes (b'h' ∷ []) ∷ int store ∷ bytes name ∷ bytes digest ∷ [])
encode_predicate (exists store name) = tuple (bytes (b'e' ∷ []) ∷ int store ∷ bytes name ∷ [])
encode_predicate (holds_any store name digests) =
    tuple (bytes (b'A' ∷ []) ∷ int store ∷ bytes name ∷ tuple (map bytes digests) ∷ [])

-- int(self.soft)
unfoldable pub soft_bit : Bool → ℤ
soft_bit true = pos 1
soft_bit false = pos 0

unfoldable pub encode_step : Step → Value
unfolding encode_predicate encode_mutation soft_bit
encode_step s = tuple (
    tuple (map encode_predicate s.guards) ∷ encode_mutation s.mutation ∷ int (soft_bit s.soft) ∷ [])

-- the argument of `codec.encode` in `Transaction.encode`
unfoldable pub encode_steps : List Step → Value
unfolding encode_step
encode_steps steps = tuple (map encode_step steps)

unfoldable pub body_value : Bytes → ℤ → List Step → Value
unfolding encode_steps
body_value author ts steps = tuple (bytes author ∷ int ts ∷ encode_steps steps ∷ [])

unfoldable pub body_bytes : Bytes → ℤ → List Step → Bytes
unfolding body_value encoded
body_bytes author ts steps = encoded (body_value author ts steps)

abbrev pub body : SignedTransaction → Bytes
body tx = body_bytes tx.author tx.ts tx.txn.steps

unfoldable pub raw : SignedTransaction → Bytes
unfolding body_bytes
raw tx = encoded (tuple (bytes (body tx) ∷ bytes tx.sig ∷ []))

module _ (c : Suite) where
  unfoldable pub value_digest : Bytes → Bytes
  value_digest ciphertext = c.h ciphertext

  unfoldable pub op_hash : SignedTransaction → Bytes
  unfolding raw
  op_hash tx = c.h (raw tx)

  unfoldable pub verify_tx : SignedTransaction → Bool
  unfolding body_bytes
  verify_tx tx = c.verify tx.author (body tx) tx.sig

  -- Transaction.sign
  unfoldable pub sign_tx : Transaction → Bytes → ℤ → SignedTransaction
  unfolding body_bytes
  sign_tx t seed ts = record {
    author = c.public seed;
    ts = ts;
    txn = t;
    sig = c.sign seed (body_bytes (c.public seed) ts t.steps);
  }
