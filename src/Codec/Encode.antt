-- ===== src/Codec/Encode.antt =====
-- `encode` and `_encode_into` of dude/core/codec.py.
use dude_fs.Prelude.{
  suc, Bool, false, ◌||◌, List, [], ◌∷◌, ◌++◌, if◌then◌else◌, Bytes, length, ℤ, pos, negsuc, Result,
  ok, err, ◌>>=◌, ◌==◌, list_eq, nat_eq,
}
use dude_fs.Prelude.Order.{sort_by}
use dude_fs.Codec.Syntax.{
  Value, Items, Fields, int, bytes, seq, dict, bool, other, nil, cons, end, field, CodecError,
  bool_value, key_type, duplicate_key, unencodable,
}
use dude_fs.Codec.Decimal.{show}

unfoldable pub int_ascii : ℤ → Bytes
int_ascii (pos n) = show n
int_ascii (negsuc n) = b'-' ∷ show (suc n)

-- a byte string with its length in front
unfoldable pub put_bytes : Bytes → Bytes
put_bytes raw = show (length raw) ++ b':' ∷ raw

-- The items of a dict while it is encoded: the key, and the encoding of the value.
abbrev pub Entry : Type 0
Entry = Bytes × Result CodecError Bytes

abbrev pub entry_key : Entry → Bytes
entry_key e = e.0

-- The test on neighbours after `items.sort`.
unfoldable pub repeats : List Entry → Bool
repeats [] = false
repeats (e ∷ []) = false
repeats (e ∷ f ∷ es) = f.0 == e.0 || repeats (f ∷ es)

unfoldable pub join : List Entry → Result CodecError Bytes
join [] = ok []
join ((k, r) ∷ es) = do b ← r; rest ← join es; ok (put_bytes k ++ (b ++ rest))

unfoldable pub encode_entries : List Entry → Result CodecError Bytes
unfolding repeats join
encode_entries es = if repeats es then err duplicate_key else join es

unfoldable pub entry_of : Value → Result CodecError Bytes → Result CodecError Entry
entry_of (bytes k) r = ok (k, r)
entry_of _ r = err key_type

-- The bytes that `_encode_into` appends. A dict's keys are read and sorted before any of its
-- values is encoded, so what an entry's value raises is kept until its turn comes.
unfoldable mutual
  unfolding int_ascii entry_of

  pub encode_value : Value → Result CodecError Bytes
  encode_value (int n) = ok (b'i' ∷ (int_ascii n ++ b'e' ∷ []))
  encode_value (bytes raw) = ok (put_bytes raw)
  encode_value (seq xs) = do bs ← encode_items xs; ok (b'l' ∷ (bs ++ b'e' ∷ []))
  encode_value (dict fs) = do
    es ← encode_fields fs
    bs ← encode_entries (sort_by entry_key es)
    ok (b'd' ∷ (bs ++ b'e' ∷ []))
  encode_value (bool _) = err bool_value
  encode_value other = err unencodable

  pub encode_items : Items → Result CodecError Bytes
  encode_items nil = ok []
  encode_items (cons x xs) = do b ← encode_value x; bs ← encode_items xs; ok (b ++ bs)

  pub encode_fields : Fields → Result CodecError (List Entry)
  encode_fields end = ok []
  encode_fields (field k v fs) = do
    e ← entry_of k (encode_value v)
    es ← encode_fields fs
    ok (e ∷ es)

unfoldable pub encode : Value → Result CodecError Bytes
unfolding encode_value
encode v = encode_value v
