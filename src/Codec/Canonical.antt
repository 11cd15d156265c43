-- ===== src/Codec/Canonical.antt =====
-- `decode` and then `encode`, piece by piece.
use dude_fs.Prelude.{
  ℕ, zero, suc, ◌+◌, ◌*◌, ◌<◌, ◌≡◌, refl, ap, sym, ◌∙◌, Option, none, some, List, [], ◌∷◌, ◌++◌,
  Bytes, length, ok, >>=-eq-ok, list_eq, nat_eq, arith, inl, inr, append_assoc, append-nil,
  length-append,
}
use dude_fs.Codec.Syntax.{Value, Items, Fields}
use dude_fs.Codec.Decimal.{show}
use dude_fs.Codec.Encode.{
  Entry, int_ascii, put_bytes, encode_value, encode_items, encode_fields, encode, join,
}
use dude_fs.Codec.Decode.{decode_at, decode_list, decode_dict, decode, finish}
use dude_fs.Codec.Reading.{decode_int_written, decode_bytes_written}
use dude_fs.Codec.Sorted.{Ascending, encode_entries-Ascending}
use dude_fs.Codec.Branches.{
  Dispatch, on_int, on_list, on_dict, on_bytes, dispatch, list_round, dict_round,
}

pub record Written (v : Value) (ts rest : Bytes) : Type 0 where
  pub out : Bytes
  pub encoded : encode_value v ≡ ok out
  pub input : ts ≡ out ++ rest
  pub some_out : 0 < length out

record WrittenItems (xs : Items) (ts rest : Bytes) : Type 0 where
  out : Bytes
  encoded : encode_items xs ≡ ok out
  input : ts ≡ out ++ b'e' ∷ rest

record WrittenFields (prev : Option Bytes) (fs : Fields) (ts rest : Bytes) : Type 0 where
  entries : List Entry
  out : Bytes
  encoded : encode_fields fs ≡ ok entries
  ascending : Ascending prev entries
  joined : join entries ≡ ok out
  input : ts ≡ out ++ b'e' ∷ rest

put_bytes_pos : (raw : Bytes) → 0 < length (put_bytes raw)
unfolding put_bytes
put_bytes_pos raw = omega (arith, length-append (show (length raw)) (b':' ∷ raw))

from_dispatch :
    (f d tag : ℕ) (ts : Bytes) (v : Value) (rest : Bytes)
    → ((xs : Items) (r : Bytes) → decode_list f d ts ≡ ok (xs, r) → WrittenItems xs ts r)
    → ((fs : Fields) (r : Bytes)
        → decode_dict f d none ts ≡ ok (fs, r)
        → WrittenFields none fs ts r)
    → Dispatch f d tag ts v rest
    → Written v (tag ∷ ts) rest
unfolding encode_value
from_dispatch f d tag ts v rest items fields (on_int t h) =
    let (z, p, q) = decode_int_written ts rest v h in
    record {
      out = b'i' ∷ (int_ascii z ++ b'e' ∷ []);
      encoded = rw p refl;
      input = rw (t, q, append_assoc) refl;
      some_out = omega arith;
    }
from_dispatch f d tag ts v rest items fields (on_list xs t h p) =
    let w = items xs rest h in
    record {
      out = b'l' ∷ (w.out ++ b'e' ∷ []);
      encoded = rw (p, w.encoded) refl;
      input = rw (t, w.input, append_assoc) refl;
      some_out = omega arith;
    }
from_dispatch f d tag ts v rest items fields (on_dict fs t h p) =
    let w = fields fs rest h in
    record {
      out = b'd' ∷ (w.out ++ b'e' ∷ []);
      encoded =
          rw (p, w.encoded, encode_entries-Ascending none w.entries w.ascending, w.joined) refl;
      input = rw (t, w.input, append_assoc) refl;
      some_out = omega arith;
    }
from_dispatch f d tag ts v rest items fields (on_bytes raw h p) = record {
  out = put_bytes raw;
  encoded = rw p refl;
  input = decode_bytes_written (tag ∷ ts) raw rest h;
  some_out = put_bytes_pos raw;
}

mutual
  unfolding decode_at decode_list decode_dict encode_value join

  pub at-Written :
      (f d : ℕ) (ts : Bytes) (v : Value) (rest : Bytes)
      → decode_at f d ts ≡ ok (v, rest)
      → Written v ts rest
  at-Written zero d ts v rest h = absurd (cc)
  at-Written (suc f) d [] v rest h = absurd (cc)
  at-Written (suc f) d (tag ∷ ts) v rest h =
      from_dispatch f d tag ts v rest (list_written f d ts) (dict_written f d none ts)
        (dispatch f d tag ts v rest h)

  list_written :
      (f d : ℕ) (ts : Bytes) (xs : Items) (rest : Bytes)
      → decode_list f d ts ≡ ok (xs, rest)
      → WrittenItems xs ts rest
  list_written zero d ts xs rest h = absurd (cc)
  list_written (suc f) d [] xs rest h = absurd (cc)
  list_written (suc f) d (c ∷ ts) xs rest h = elim (list_round f d c ts xs rest h) [
    | inl (e, p, q) ↦ record { out = []; encoded = rw p refl; input = rw (e, q) refl }
    | inr (x, ys, mid, first, second, p) ↦
        let w = at-Written f (suc d) (c ∷ ts) x mid first in
        let u = list_written f d mid ys rest second in
        record {
          out = w.out ++ u.out;
          encoded = rw (p, w.encoded, u.encoded) refl;
          input = w.input ∙ rw (u.input, append_assoc) refl;
        }
  ]

  dict_written :
      (f d : ℕ) (prev : Option Bytes) (ts : Bytes) (fs : Fields) (rest : Bytes)
      → decode_dict f d prev ts ≡ ok (fs, rest)
      → WrittenFields prev fs ts rest
  dict_written zero d prev ts fs rest h = absurd (cc)
  dict_written (suc f) d prev [] fs rest h = absurd (cc)
  dict_written (suc f) d prev (c ∷ ts) fs rest h = elim (dict_round f d c prev ts fs rest h) [
    | inl (e, p, q) ↦ record {
      entries = [];
      out = [];
      encoded = rw p refl;
      ascending = tt;
      joined = refl;
      input = rw (e, q) refl;
    }
    | inr r ↦
        let w = at-Written f (suc d) r.behind_key r.value r.behind_value r.read_value in
        let u = dict_written f d (some r.key) r.behind_value r.others rest r.read_others in
        record {
          entries = (r.key, ok w.out) ∷ u.entries;
          out = put_bytes r.key ++ (w.out ++ u.out);
          encoded = rw (r.result, w.encoded, u.encoded) refl;
          ascending = (r.in_order, u.ascending);
          joined = rw u.joined refl;
          input =
              decode_bytes_written (c ∷ ts) r.key r.behind_key r.read_key
              ∙ rw (w.input, u.input, append_assoc, append_assoc) refl;
        }
  ]

-- If `decode` accepts a byte string, then encoding its result gives that byte string back.
pub encode-decode : (input : Bytes) (v : Value) → decode input ≡ ok v → encode v ≡ ok input
unfolding decode finish encode
encode-decode input v h =
    let ((u, r), read, done) = >>=-eq-ok (decode_at (2 * length input + 2) 0 input) _ h in
    go u r read done
  where
    go :
        (u : Value) (r : Bytes)
        → decode_at (2 * length input + 2) 0 input ≡ ok (u, r)
        → finish (u, r) ≡ ok v
        → encode_value v ≡ ok input
    go u [] read done =
        let w = at-Written (2 * length input + 2) 0 input u [] read in
        let same : u ≡ v = ground arith in
        rw (← same) (w.encoded ∙ ap ok (sym (w.input ∙ append-nil w.out)))
    go u (c ∷ cs) read done = absurd (cc)
