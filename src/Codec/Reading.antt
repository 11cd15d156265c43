-- ===== src/Codec/Reading.antt =====
-- The tokens that `_read_int_token` and `_decode_bytes` accept, as they are written.
use dude_fs.Prelude.{
  ℕ, zero, suc, ◌≤◌, ◌≡◌, refl, ap, sym, ◌∙◌, Bool, true, false, ◌&&◌, [], ◌∷◌, ◌++◌, if◌then◌else◌,
  Bytes, length, take, drop, ltb, ℤ, pos, Result, ok, err, >>=-eq-ok, ◌==◌, arith, Bool-cases, inl,
  inr, append_assoc, take-append-drop, length-take, nat_eq, list_eq,
}
use dude_fs.Codec.Syntax.{CodecError, Value, int, short_bytes}
use dude_fs.Codec.Decimal.{show, read, Digits, IsNumeral, show_small, show-read}
use dude_fs.Codec.Encode.{int_ascii, put_bytes}
use dude_fs.Codec.Decode.{
  span_digits, starts, has_leading_zero, negated, read_digits, read_int_token, decode_bytes,
  decode_int,
}
use dude_fs.Codec.Tokens.{span_lem, IsNumeral-of}

-- The converse: what a token stands for.
record Token (t : ℕ) (neg : Bool) (ds rest : Bytes) (z : ℤ) (r : Bytes) : Type 0 where
  end_at : Bytes
  terminator : r ≡ t ∷ end_at
  same_rest : rest ≡ r
  written : int_ascii z ≡ (if neg then b'-' ∷ ds else ds)
  sign : (neg ≡ false) → z ≡ pos (read ds)

read_digits_ok :
    (neg : Bool) (t d : ℕ) (ds rest r : Bytes) (z : ℤ)
    → read_digits neg t (d ∷ ds, rest) ≡ ok (z, r)
    → (has_leading_zero (d ∷ ds) ≡ false)
      × ((neg && d ∷ ds == 48 ∷ []) ≡ false)
      × (starts t rest ≡ true)
      × (z ≡ negated neg (read (d ∷ ds)))
      × (rest ≡ r)
unfolding read_digits
read_digits_ok neg t d ds rest r z h = ground arith

starts_cons : (t : ℕ) (rest : Bytes) → starts t rest ≡ true → (e : Bytes) × (rest ≡ t ∷ e)
unfolding starts
starts_cons t [] h = cc
starts_cons t (c ∷ cs) h = (cs, ground arith)

negated_written :
    (neg : Bool) (d : ℕ) (ds : Bytes)
    → IsNumeral d ds
    → (neg && d ∷ ds == 48 ∷ []) ≡ false
    → int_ascii (negated neg (read (d ∷ ds))) ≡ (if neg then b'-' ∷ d ∷ ds else d ∷ ds)
unfolding int_ascii negated
negated_written false d ds m h = show-read d ds m
negated_written true d ds m h = go (read (d ∷ ds)) refl
  where
    go : (k : ℕ) → read (d ∷ ds) ≡ k → int_ascii (negated true k) ≡ b'-' ∷ d ∷ ds
    go zero e =
        let shown : show 0 ≡ d ∷ ds = rw e at (show-read d ds m) in
        let zero_shown : show 0 ≡ 48 ∷ [] = show_small 0 (omega arith) in
        let same : d ∷ ds ≡ 48 ∷ [] = sym shown ∙ zero_shown in absurd (ground arith)
    go (suc k) e = ap (λ x. b'-' ∷ x) (rw e at (show-read d ds m))

read_digits-Token :
    (neg : Bool) (t : ℕ) (ds rest r : Bytes) (z : ℤ)
    → Digits ds
    → read_digits neg t (ds, rest) ≡ ok (z, r)
    → Token t neg ds rest z r
unfolding read_digits negated
read_digits-Token neg t [] rest r z d h = cc
read_digits-Token neg t (c ∷ ds) rest r z d h =
    let (minimal, nonzero, ended, value, same) = read_digits_ok neg t c ds rest r z h in
    let (e, at_end) = starts_cons t rest ended in
    record {
      end_at = e;
      terminator = sym same ∙ at_end;
      same_rest = same;
      written = rw value (negated_written neg c ds (IsNumeral-of c ds d minimal) nonzero);
      sign = λ p. value ∙ ap (λ b. negated b (read (c ∷ ds))) p;
    }

-- An accepted token is what `_int_ascii` writes, with its terminator.
token_written :
    (t : ℕ) (allow : Bool) (ts r : Bytes) (z : ℤ)
    → read_int_token t allow ts ≡ ok (z, r)
    → (e : Bytes) × (r ≡ t ∷ e) × (ts ≡ int_ascii z ++ r)
unfolding read_int_token
token_written t allow [] r z h = cc
token_written t allow (c ∷ cs) r z h = elim (Bool-cases (c == b'-')) [
  | inl dash ↦
      let s = span_lem cs in
      let h' : read_digits true t (span_digits cs) ≡ ok (z, r) = ground arith in
      let k = read_digits-Token true t (span_digits cs).0 (span_digits cs).1 r z s.digits h' in
      let is_dash : c ≡ b'-' = ground arith in
      (k.end_at, k.terminator, rw (k.written, ← k.same_rest, is_dash) (ap (λ x. b'-' ∷ x) s.joined))
  | inr other ↦
      let s = span_lem (c ∷ cs) in
      let h' : read_digits false t (span_digits (c ∷ cs)) ≡ ok (z, r) = ground arith in
      let k =
        read_digits-Token false t (span_digits (c ∷ cs)).0 (span_digits (c ∷ cs)).1 r z s.digits
          h' in
      (k.end_at, k.terminator, rw (k.written, ← k.same_rest) s.joined)
]

-- Without a sign, the number is natural.
token_natural :
    (t : ℕ) (ts r : Bytes) (z : ℤ) → read_int_token t false ts ≡ ok (z, r) → (n : ℕ) × (z ≡ pos n)
unfolding read_int_token
token_natural t [] r z h = cc
token_natural t (c ∷ cs) r z h =
    let s = span_lem (c ∷ cs) in
    let h' : read_digits false t (span_digits (c ∷ cs)) ≡ ok (z, r) = ground arith in
    let k =
      read_digits-Token false t (span_digits (c ∷ cs)).0 (span_digits (c ∷ cs)).1 r z s.digits h' in
    (read (span_digits (c ∷ cs)).0, k.sign refl)

pub decode_int_written :
    (ts rest : Bytes) (v : Value)
    → decode_int ts ≡ ok (v, rest)
    → (z : ℤ) × (v ≡ int z) × (ts ≡ int_ascii z ++ b'e' ∷ rest)
unfolding decode_int
decode_int_written ts rest v h =
    let ((z, r), token, out) =
      >>=-eq-ok (read_int_token b'e' true ts) (λ p. ok (int p.0, drop 1 p.1)) h in
    let (e, ended, written) = token_written b'e' true ts r z token in
    let rest_eq : drop 1 r ≡ rest = ground arith in
    let tail_eq : e ≡ rest = ap (drop 1) (sym ended) ∙ rest_eq in
    (z, ground arith, written ∙ ap (λ x. int_ascii z ++ x) (ended ∙ ap (λ x. b'e' ∷ x) tail_eq))

abbrev slice : ℕ → Bytes → Result CodecError (Bytes × Bytes)
slice n e = if ltb (length e) n then err short_bytes else ok (take n e, drop n e)

sliced :
    (n : ℕ) (e raw rest : Bytes) → slice n e ≡ ok (raw, rest) → (n ≡ length raw) × (e ≡ raw ++ rest)
sliced n e raw rest h =
    let within : n ≤ length e = ground arith in
    let front : take n e ≡ raw = ground arith in
    let back : drop n e ≡ rest = ground arith in
    (sym (length-take n e within) ∙ ap length front, sym (take-append-drop n e) ∙ cc (front, back))

pub decode_bytes_written :
    (ts raw rest : Bytes) → decode_bytes ts ≡ ok (raw, rest) → ts ≡ put_bytes raw ++ rest
unfolding decode_bytes put_bytes int_ascii
decode_bytes_written ts raw rest h =
    let ((z, r), token, out) = >>=-eq-ok (read_int_token b':' false ts) _ h in
    let (e, ended, written) = token_written b':' false ts r z token in
    let (n, natural) = token_natural b':' ts r z token in
    let out' : slice n e ≡ ok (raw, rest) = rw natural at (rw ended at out) in
    let (n_eq, e_eq) = sliced n e raw rest out' in
    rw append_assoc (written ∙ cc (natural, ended, n_eq, e_eq))
