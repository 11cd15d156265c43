-- ===== src/Codec/Syntax.antt =====
-- The values that `encode` is given, and the errors of codec.py.
use dude_fs.Prelude.{ℤ, Bool, Bytes}

-- One constructor for each `raise CodecError`. `out_of_fuel` is the model's own.
pub data CodecError : Type 0 where
  bool_value key_type duplicate_key unencodable : CodecError
  trailing_bytes unexpected_end too_deep invalid_tag : CodecError
  negative_value no_digits leading_zero negative_zero no_terminator too_many_digits : CodecError
  short_bytes open_list open_dict dict_key_tag unordered_keys : CodecError
  wrong_type wrong_length missing_field : CodecError
  out_of_fuel : CodecError

-- Python values: `seq` is a list or a tuple, `bytes` also a bytearray, `other` any further type.
mutual
  pub data Value : Type 0 where
    int : ℤ → Value
    bytes : Bytes → Value
    seq : Items → Value
    dict : Fields → Value
    bool : Bool → Value
    other : Value

  pub data Items : Type 0 where
    nil : Items
    cons : Value → Items → Items

  -- The items of a dict in insertion order.
  pub data Fields : Type 0 where
    end : Fields
    field : Value → Value → Fields → Fields
