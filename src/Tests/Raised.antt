-- ===== src/Tests/Raised.antt =====
-- An authoriser that raises for a store whose number does not fit eight bytes, as the manager's does.
use dude_fs.Prelude.{
  ℤ, pos, negsuc, true, false, none, [], ◌∷◌, ◌++◌, Bytes, Result, ok, err, ◌≡◌, refl, ltb, ◌^◌,
  if◌then◌else◌, Bool-cases, inl, inr, list_discrete, ℕ_discrete, ℤ_discrete, prod_discrete,
  contains,
}
use dude_fs.Prelude.Dict.{lookup, insert, update}
use dude_fs.Codec.{show}
use dude_fs.Codec.Encode.{encode, put_bytes}
use dude_fs.Codec.Access.{of_list}
use dude_fs.Ops.{Step, set, SignedTransaction, sign_tx, op_hash, verify_tx, raw}
use dude_fs.Layer.Overlay.{LayerError, raised, new, apply, absorb, get, all_hold}
use dude_fs.Settle.Evaluate.{Authoriser, evaluate, data_row_shape}
use dude_fs.Settle.Screen.{apply_to}
use dude_fs.Settle.Raised.{RaisesOnly, apply_to_raises}
use dude_fs.Tests.Toy.{toy, nothing}

abbrev overflow : LayerError
overflow = raised (b'o' ∷ [])

abbrev epoch_of : ℤ → Result LayerError ℤ
epoch_of (pos n) = if ltb n (2 ^ 64) then ok (pos 4) else err overflow
epoch_of (negsuc n) = err overflow

abbrev strict : Authoriser
strict = record {
  may_write = λ r who store. ok true;
  current_epoch = λ store r. epoch_of store;
  epoch_target = λ name. none;
}

abbrev eight : Bytes
eight = 1 ∷ 2 ∷ 3 ∷ 4 ∷ 5 ∷ 6 ∷ 7 ∷ 8 ∷ []

abbrev far : Step
far = record {
  guards = [];
  mutation = set (pos 18446744073709551616) (eight ++ eight ++ eight ++ eight) (120 ∷ []) (pos 4);
  soft = false;
}

abbrev tx : SignedTransaction
tx = sign_tx toy (record { steps = far ∷ [] }) (7 ∷ []) (pos 5)

raised_run : apply_to toy strict (new nothing) (tx ∷ []) ≡ err overflow
unfolding apply_to evaluate verify_tx list_discrete sign_tx ℕ_discrete encode of_list put_bytes show
    data_row_shape ℤ_discrete prod_discrete all_hold get lookup apply insert update absorb contains
    op_hash raw
raised_run = refl

only_overflow : (store : ℤ) → RaisesOnly (λ e. e ≡ overflow) (epoch_of store)
only_overflow (pos n) = record {
  only = λ e h. elim (Bool-cases (ltb n (2 ^ 64))) [
    | inl small ↦ absurd (cc (rw small at h))
    | inr large ↦ cc (rw large at h)
  ];
}
only_overflow (negsuc n) = record { only = λ e h. cc }

apply_to_raises_example :
    RaisesOnly (λ e. e ≡ overflow) (apply_to toy strict (new nothing) (tx ∷ []))
apply_to_raises_example =
    apply_to_raises (λ e. e ≡ overflow) toy strict
      (λ r reads who store. record { only = λ e h. absurd (cc) })
      (λ r reads store. only_overflow store) (new nothing) (tx ∷ []) refl
      (λ store name. record { only = λ e h. absurd (cc) })
