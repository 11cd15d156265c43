-- ===== src/Codec/Access.antt =====
-- The typed accessors of dude/core/codec.py.
use dude_fs.Prelude.{
  ℕ, ℤ, Option, none, some, List, [], ◌∷◌, Bytes, Result, ok, err, ◌>>=◌, ◌==◌, nat_eq, list_eq,
  length, if◌then◌else◌,
}
use dude_fs.Codec.Syntax.{
  Value, Items, Fields, int, bytes, seq, dict, nil, cons, end, field, CodecError, wrong_type,
  wrong_length, missing_field,
}

unfoldable pub as_int : Value → Result CodecError ℤ
as_int (int n) = ok n
as_int _ = err wrong_type

unfoldable pub as_bytes : Value → Result CodecError Bytes
as_bytes (bytes b) = ok b
as_bytes _ = err wrong_type

unfoldable pub to_list : Items → List Value
to_list nil = []
to_list (cons x xs) = x ∷ to_list xs

unfoldable pub of_list : List Value → Items
of_list [] = nil
of_list (x ∷ xs) = cons x (of_list xs)

-- A tuple is handed on as the list of its items.
unfoldable pub as_seq : Value → Option ℕ → Result CodecError (List Value)
unfolding to_list
as_seq (seq xs) none = ok (to_list xs)
as_seq (seq xs) (some n) = if length (to_list xs) == n then ok (to_list xs) else err wrong_length
as_seq _ _ = err wrong_type

unfoldable pub as_dict : Value → Result CodecError Fields
as_dict (dict fs) = ok fs
as_dict _ = err wrong_type

-- `dd[key]`: a decoded dict has byte strings for keys
unfoldable pub find : Bytes → Fields → Result CodecError Value
find key end = err missing_field
find key (field (bytes k) v fs) = if k == key then ok v else find key fs
find key (field _ v fs) = find key fs

unfoldable pub get_field : Value → Bytes → Result CodecError Value
unfolding as_dict find
get_field d key = do dd ← as_dict d; find key dd
