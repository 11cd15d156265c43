-- ===== src/Codec/Branches.antt =====
-- The branches of `_decode_at`, `_decode_list` and `_decode_dict` that return a value.
use dude_fs.Prelude.{
  ℕ, suc, ◌≡◌, ◌⊎◌, Option, none, some, ◌∷◌, Bytes, Result, ok, err, ◌>>=◌, >>=-eq-ok, ◌==◌,
  list_eq, nat_eq, arith, Bool-cases, inl, inr, eq_true, ltb,
}
use dude_fs.Codec.Syntax.{Value, Items, Fields, bytes, seq, dict, nil, cons, end, field, CodecError}
use dude_fs.Codec.Decimal.{is_digit}
use dude_fs.Codec.Decode.{
  max_depth, decode_at, decode_list, decode_dict, decode_int, decode_bytes, check_order,
}
use dude_fs.Codec.Sorted.{After, After-check_order}

-- The branch that `_decode_at` took.
pub data Dispatch (f d tag : ℕ) (ts : Bytes) (v : Value) (rest : Bytes) : Type 0 where
  on_int : tag ≡ b'i' → decode_int ts ≡ ok (v, rest) → Dispatch f d tag ts v rest
  on_list :
      (xs : Items)
      → tag ≡ b'l'
      → decode_list f d ts ≡ ok (xs, rest)
      → v ≡ seq xs
      → Dispatch f d tag ts v rest
  on_dict :
      (fs : Fields)
      → tag ≡ b'd'
      → decode_dict f d none ts ≡ ok (fs, rest)
      → v ≡ dict fs
      → Dispatch f d tag ts v rest
  on_bytes :
      (raw : Bytes)
      → decode_bytes (tag ∷ ts) ≡ ok (raw, rest)
      → v ≡ bytes raw
      → Dispatch f d tag ts v rest

abbrev pair_ok : Value → Bytes → Result CodecError (Value × Bytes)
pair_ok v rest = ok (v, rest)

first_of_pair :
    {A : Type 0} (g : A → Value) (r : Result CodecError (A × Bytes)) (v : Value) (rest : Bytes)
    → (r >>= λ p. ok (g p.0, p.1)) ≡ pair_ok v rest
    → (x : A) × (r ≡ ok (x, rest)) × (v ≡ g x)
first_of_pair g (ok (x, s)) v rest h = (x, ground arith, ground arith)
first_of_pair g (err e) v rest h = cc

pub dispatch :
    (f d tag : ℕ) (ts : Bytes) (v : Value) (rest : Bytes)
    → decode_at (suc f) d (tag ∷ ts) ≡ ok (v, rest)
    → Dispatch f d tag ts v rest
unfolding decode_at
dispatch f d tag ts v rest h = elim (Bool-cases (ltb max_depth d)) [
  | inl deep ↦ absurd (ground arith)
  | inr fine ↦ elim (Bool-cases (tag == b'i')) [
    | inl i ↦ on_int (eq_true tag b'i' i) (ground arith)
    | inr not_i ↦ elim (Bool-cases (tag == b'l')) [
      | inl l ↦
          let (xs, p, q) =
            first_of_pair seq (decode_list f d ts) v rest (rw (fine, not_i, l) at h) in
          on_list xs (eq_true tag b'l' l) p q
      | inr not_l ↦ elim (Bool-cases (tag == b'd')) [
        | inl t ↦
            let (fs, p, q) =
              first_of_pair dict (decode_dict f d none ts) v rest
                (rw (fine, not_i, not_l, t) at h) in
            on_dict fs (eq_true tag b'd' t) p q
        | inr not_d ↦ elim (Bool-cases (is_digit tag)) [
          | inl n ↦
              let (raw, p, q) =
                first_of_pair bytes (decode_bytes (tag ∷ ts)) v rest
                  (rw (fine, not_i, not_l, not_d, n) at h) in
              on_bytes raw p q
          | inr other ↦ absurd (cc (rw (fine, not_i, not_l, not_d, other) at h))
        ]
      ]
    ]
  ]
]

-- One round of the loop of `_decode_list`.
pub list_round :
    (f d c : ℕ) (ts : Bytes) (xs : Items) (rest : Bytes)
    → decode_list (suc f) d (c ∷ ts) ≡ ok (xs, rest)
    → ((c ≡ b'e') × (xs ≡ nil) × (ts ≡ rest))
      ⊎ ((x : Value) × (ys : Items) × (mid : Bytes) × (decode_at f (suc d) (c ∷ ts) ≡ ok (x, mid))
          × (decode_list f d mid ≡ ok (ys, rest))
          × (xs ≡ cons x ys))
unfolding decode_list
list_round f d c ts xs rest h = elim (Bool-cases (c == b'e')) [
  | inl e ↦ inl (eq_true c b'e' e, ground arith, ground arith)
  | inr more ↦
      let ((x, mid), first, h') = >>=-eq-ok (decode_at f (suc d) (c ∷ ts)) _ (rw more at h) in
      let ((ys, r), second, h'') = >>=-eq-ok (decode_list f d mid) _ h' in
      inr (x, ys, mid, first, ground arith, ground arith)
]

-- One round of the loop of `_decode_dict`.
pub record DictRound (f d c : ℕ) (prev : Option Bytes) (ts : Bytes) (fs : Fields) (rest : Bytes)
    : Type 0 where
  pub key : Bytes
  pub value : Value
  pub others : Fields
  pub behind_key : Bytes
  pub behind_value : Bytes
  pub read_key : decode_bytes (c ∷ ts) ≡ ok (key, behind_key)
  pub in_order : After prev key
  pub read_value : decode_at f (suc d) behind_key ≡ ok (value, behind_value)
  pub read_others : decode_dict f d (some key) behind_value ≡ ok (others, rest)
  pub result : fs ≡ field (bytes key) value others

pub dict_round :
    (f d c : ℕ) (prev : Option Bytes) (ts : Bytes) (fs : Fields) (rest : Bytes)
    → decode_dict (suc f) d prev (c ∷ ts) ≡ ok (fs, rest)
    → ((c ≡ b'e') × (fs ≡ end) × (ts ≡ rest)) ⊎ DictRound f d c prev ts fs rest
unfolding decode_dict
dict_round f d c prev ts fs rest h = elim (Bool-cases (c == b'e')) [
  | inl e ↦ inl (eq_true c b'e' e, ground arith, ground arith)
  | inr more ↦ elim (Bool-cases (is_digit c)) [
    | inl n ↦
        let ((k, s), first, h₁) = >>=-eq-ok (decode_bytes (c ∷ ts)) _ (rw (more, n) at h) in
        let (u, order, h₂) = >>=-eq-ok (check_order prev k) _ h₁ in
        let ((v, s'), second, h₃) = >>=-eq-ok (decode_at f (suc d) s) _ h₂ in
        let ((gs, r), third, h₄) = >>=-eq-ok (decode_dict f d (some k) s') _ h₃ in
        inr record {
          key = k;
          value = v;
          others = gs;
          behind_key = s;
          behind_value = s';
          read_key = first;
          in_order = After-check_order prev k order;
          read_value = second;
          read_others = ground arith;
          result = ground arith;
        }
    | inr other ↦ absurd (cc (rw (more, other) at h))
  ]
]
