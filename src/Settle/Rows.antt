-- ===== src/Settle/Rows.antt =====
-- The shape of the rows that `_data_row_shape` lets through.
use dude_fs.Prelude.{
  ◌≤◌, ℤ, pos, succ, pred, int_lt, false, none, some, Option, Bytes, ok, err, Result-cases, ℤ_eq,
  nat_eq, ◌≡◌, ◌≢◌, ◌⊎◌, inl, inr, arith, length, ◌↔◌, sym, ◌∙◌, ok_inj, not_ok, subst,
}
use dude_fs.Codec.{Value, int, bytes, seq, dict, bool, other}
use dude_fs.Codec.Access.{as_int}
use dude_fs.Codec.Encode.{encode}
use dude_fs.Codec.Decode.{decode}
use dude_fs.Codec.Trip.{Fits}
use dude_fs.Codec.RoundTrip.{decode-encode}
use dude_fs.Codec.Canonical.{encode-decode}
use dude_fs.Crypto.{digest_size}
use dude_fs.Ops.{set, del, store_management, epoch_none, max_name_bytes}
use dude_fs.Layer.Overlay.{Reader}
use dude_fs.Settle.Evaluate.{Authoriser, stored_int, epoch_step, data_row_shape}

module _ (auth : Authoriser) (r : Reader) where
  -- A row of a data store is let through exactly when its name is not too long and it is plaintext
  -- (epoch 0), or it has a digest for its name, the store's current epoch can be read, and the row is
  -- written under that epoch, or under the one before it if the current one is at least 2.
  pub data_row_exact :
      (store : ℤ) (name value : Bytes) (ep : ℤ)
      → store ≢ store_management
      → (data_row_shape auth r (set store name value ep) ≡ ok none) ↔ (
          (length name ≤ max_name_bytes)
          × ((ep ≡ epoch_none)
              ⊎ ((length name ≡ digest_size)
                  × ((current : ℤ) × (auth.current_epoch store r ≡ ok current)
                      × ((ep ≡ current)
                          ⊎ ((int_lt current (pos 2) ≡ false) × (ep ≡ pred current)))))))
  unfolding data_row_shape
  data_row_exact store name value ep h = elim (Result-cases (auth.current_epoch store r)) [
    | inl (current, q) ↦ (
      λ e.
          let under_current : (length name ≤ max_name_bytes)
              × ((ep ≡ epoch_none)
                  ⊎ ((length name ≡ digest_size)
                      × ((ep ≡ current)
                          ⊎ ((int_lt current (pos 2) ≡ false) × (ep ≡ pred current))))) =
            ground (arith, q, e) in
          (
            under_current.0,
            elim under_current.1 [
              | inl plain ↦ inl plain
              | inr (wide, near) ↦ inr (wide, (current, q, near))
            ],
          ),
      λ (short, k). elim k [
        | inl plain ↦ ground (arith, plain, short)
        | inr (wide, (n, found, near)) ↦
            let same : n ≡ current = ok_inj (sym found ∙ q) in
            ground (arith, q, wide, short, near, same)
      ],
    )
    | inr (x, q) ↦ (
      λ e.
          let plain : (length name ≤ max_name_bytes) × (ep ≡ epoch_none) = ground (arith, q, e) in
          (plain.0, inl plain.1),
      λ (short, k). elim k [
        | inl plain ↦ ground (arith, plain, short)
        | inr (wide, (n, found, near)) ↦ absurd (not_ok (sym q ∙ found))
      ],
    )
  ]

only_int :
    (v : Value) (n : ℤ)
    → ◌≡◌ {A = Option ℤ} (elim (as_int v) [ ok m ↦ some m | err _ ↦ none ]) (some n)
    → v ≡ int n
unfolding as_int
only_int (int m) n h = ground arith
only_int (bytes raw) n h = absurd (cc)
only_int (seq xs) n h = absurd (cc)
only_int (dict fs) n h = absurd (cc)
only_int (bool b) n h = absurd (cc)
only_int other n h = absurd (cc)

-- Only the encoding of an integer is read as that integer, and it is if it is not too long.
stored_int-encode : (value : Bytes) (n : ℤ) → stored_int value ≡ some n → encode (int n) ≡ ok value
unfolding stored_int
stored_int-encode value n h = elim (Result-cases (decode value)) [
  | inl (v, q) ↦
      subst (λ x. encode x ≡ ok value) (only_int v n (rw (stored_int, q) at h))
        (encode-decode value v q)
  | inr (x, q) ↦ absurd (cc (rw (stored_int, q) at h))
]

encode-stored_int :
    (value : Bytes) (n : ℤ) → Fits 0 (int n) → encode (int n) ≡ ok value → stored_int value ≡ some n
unfolding stored_int as_int
encode-stored_int value n fits h =
    let (out, written, back) = decode-encode (int n) fits in
    let same : out ≡ value = ok_inj (sym written ∙ h) in
    let there : decode value ≡ ok (int n) = subst (λ x. decode x ≡ ok (int n)) same back in
    λ i. elim (there i) [ ok v ↦ elim (as_int v) [ ok m ↦ some m | err _ ↦ none ] | err _ ↦ none ]

module _ (auth : Authoriser) (r : Reader) where
  -- The row that holds the epoch of a store, if its name is not too long and the store's current epoch
  -- can be read, may be written exactly with the encoding of the integer one above that epoch, where
  -- that integer has no more digits than the codec takes, and may not be deleted.
  pub epoch_row_exact :
      (name value : Bytes) (ep target current : ℤ)
      → length name ≤ max_name_bytes
      → auth.epoch_target name ≡ some target
      → auth.current_epoch target r ≡ ok current
      → Fits 0 (int (succ current))
      → ((data_row_shape auth r (set store_management name value ep) ≡ ok none)
          ↔ (encode (int (succ current)) ≡ ok value))
        × (data_row_shape auth r (del store_management name) ≢ ok none)
  unfolding data_row_shape epoch_step
  epoch_row_exact name value ep target current h k q fits = (
    (
      λ e. stored_int-encode value (succ current) (ground (arith, h, k, q, e)),
      λ e.
          let there = encode-stored_int value (succ current) fits e in
          ground (arith, h, k, q, there),
    ),
    λ e. ground (arith, h, k, e),
  )
