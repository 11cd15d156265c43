-- ===== src/Settle/Evaluate.antt =====
-- `evaluate`, `_data_row_shape` and `_epoch_step` of dude/store/settle.py.
use dude_fs.Prelude.{
  ℕ, suc, ℤ, pos, succ, pred, int_lt, Bool, true, false, not, ◌&&◌, ◌||◌, Option, none, some, List,
  [], ◌∷◌, Bytes, Result, ok, err, ◌>>=◌, ◌==◌, ℤ_eq, nat_eq, list_eq, if◌then◌else◌, ltb, length,
}
use dude_fs.Codec.Access.{as_int}
use dude_fs.Codec.Decode.{decode}
use dude_fs.Crypto.{Suite, digest_size}
use dude_fs.Ops.{
  Mutation, set, del, store_of, Step, SignedTransaction, store_management, epoch_none,
  max_name_bytes, verify_tx, raw,
}
use dude_fs.Layer.Overlay.{Reader, Overlay, LayerError, new, reader, apply, all_hold}

-- The abstract class `Authoriser`. The manager's reader raises an OverflowError for the epoch of a
-- store whose number does not fit eight bytes, and what the codec raises for a row it cannot read.
pub record Authoriser : Type 0 where
  pub may_write : Reader → Bytes → ℤ → Result LayerError Bool
  pub current_epoch : ℤ → Reader → Result LayerError ℤ
  pub epoch_target : Bytes → Option ℤ

pub data Reason : Type 0 where
  signature authority guard settled epoch name_shape epoch_jump : Reason

pub record Verdict : Type 0 where
  pub why : Option Reason
  pub step : Option ℕ

abbrev pub accepted : Verdict
accepted = record { why = none; step = none }

abbrev pub refused : Reason → ℕ → Verdict
refused r i = record { why = some r; step = some i }

-- `Verdict.ok`
abbrev pub is_ok : Verdict → Bool
is_ok v = elim v.why [ none ↦ true | some r ↦ false ]

-- `codec.as_int(codec.decode(value))`
unfoldable pub stored_int : Bytes → Option ℤ
stored_int value = elim (decode value) [
  | ok v ↦ elim (as_int v) [ ok n ↦ some n | err _ ↦ none ]
  | err _ ↦ none
]

module _ (auth : Authoriser) (r : Reader) where
  -- Only a value that does not decode is caught, not what `current_epoch` raises.
  unfoldable pub epoch_step : Bytes → ℤ → Result LayerError (Option Reason)
  epoch_step value target = elim (stored_int value) [
    | none ↦ ok (some epoch_jump)
    | some want ↦ auth.current_epoch target r >>= λ current.
        (if want == succ current then ok none else ok (some epoch_jump))
  ]

  -- `m.epoch != current and (current < 2 or m.epoch != current - 1)`
  abbrev pub is_outdated : ℤ → ℤ → Bool
  is_outdated ep current =
      not (ep == current) && (int_lt current (pos 2) || not (ep == pred current))

  unfoldable pub data_row_shape : Mutation → Result LayerError (Option Reason)
  unfolding epoch_step
  data_row_shape (del store name) =
      if ltb max_name_bytes (length name)
      then ok (some name_shape)
      else if store == store_management
      then elim (auth.epoch_target name) [ some _ ↦ ok (some epoch_jump) | none ↦ ok none ]
      else ok none
  data_row_shape (set store name value ep) =
      if ltb max_name_bytes (length name)
      then ok (some name_shape)
      else if store == store_management
      then elim (auth.epoch_target name) [ none ↦ ok none | some target ↦ epoch_step value target ]
      else if ep == epoch_none
      then ok none
      else if not (length name == digest_size)
      then ok (some name_shape)
      else auth.current_epoch store r >>= λ current.
          (if is_outdated ep current then ok (some epoch) else ok none)

module _ (c : Suite) (auth : Authoriser) (author : Bytes) (cred : Bytes) where
  -- The loop over the steps of a transaction, from the step with index `i` on.
  unfoldable pub run_steps : ℕ → Overlay → List Step → Result LayerError (Verdict × Overlay)
  run_steps i layer [] = ok (accepted, layer)
  run_steps i layer (s ∷ rest) =
      let m = s.mutation in
      let r = reader layer in
      let applied = apply layer m cred >>= λ layer'. run_steps (suc i) layer' rest in
      let skipped = run_steps (suc i) layer rest in
      let guarded = all_hold c r s.guards >>= λ guard_ok.
      (if guard_ok then applied else if s.soft then skipped else ok (refused guard i, layer)) in
      let shaped = data_row_shape auth r m >>= λ why. elim why [
        | some why ↦ ok (refused why i, layer)
        | none ↦ guarded
      ] in
      auth.may_write r author (store_of m) >>= λ may.
      (if not may then ok (refused authority i, layer) else shaped)

unfoldable pub evaluate :
    Suite → Authoriser → Reader → SignedTransaction → Result LayerError (Verdict × Overlay)
unfolding run_steps
evaluate c auth base tx =
    if not (verify_tx c tx)
    then ok (record { why = some signature; step = none }, new base)
    else run_steps c auth tx.author (raw tx) 0 (new base) tx.txn.steps
