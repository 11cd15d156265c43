-- ===== src/Settle/Screen.antt =====
-- `apply_to` and `would_apply` of dude/store/settle.py.
use dude_fs.Prelude.{
  none, some, List, [], ◌∷◌, Bytes, Result, ok, ◌>>=◌, list_eq, nat_eq, contains, if◌then◌else◌,
}
use dude_fs.Crypto.{Suite}
use dude_fs.Ops.{SignedTransaction, op_hash}
use dude_fs.Layer.Overlay.{Reader, Overlay, LayerError, new, reader, absorb}
use dude_fs.Settle.Evaluate.{Authoriser, settled, Verdict, is_ok, evaluate}

pub record Reject : Type 0 where
  pub tx : SignedTransaction
  pub verdict : Verdict

pub record Screened : Type 0 where
  pub survivors : List SignedTransaction
  pub rejects : List Reject

abbrev pub already_settled : Verdict
already_settled = record { why = some settled; step = none }

abbrev pub keep : SignedTransaction → Screened × Overlay → Screened × Overlay
keep tx (s, o) = (record s { survivors = tx ∷ s.survivors }, o)

abbrev pub drop : SignedTransaction → Verdict → Screened × Overlay → Screened × Overlay
drop tx v (s, o) = (record s { rejects = record { tx = tx; verdict = v } ∷ s.rejects }, o)

module _ (c : Suite) (auth : Authoriser) where
  -- The loop of `apply_to`, with the hashes kept so far.
  unfoldable pub screen_batch :
      List Bytes → Overlay → List SignedTransaction → Result LayerError (Screened × Overlay)
  screen_batch seen target [] = ok (record { survivors = []; rejects = [] }, target)
  screen_batch seen target (tx ∷ batch) =
      let repeated = screen_batch seen target batch >>= λ r. ok (drop tx already_settled r) in
      let judged = evaluate c auth (reader target) tx >>= λ j.
      (if is_ok j.0
        then (absorb target j.1 >>= λ target'.
            screen_batch (op_hash c tx ∷ seen) target' batch >>= λ r. ok (keep tx r))
        else (screen_batch seen target batch >>= λ r. ok (drop tx j.0 r))) in
      if contains (op_hash c tx) seen then repeated else judged

  unfoldable pub apply_to :
      Overlay → List SignedTransaction → Result LayerError (Screened × Overlay)
  unfolding screen_batch
  apply_to target batch = screen_batch [] target batch

  -- Screening a batch over a reader that stays as it is.
  unfoldable pub would_apply : Reader → List SignedTransaction → Result LayerError Screened
  unfolding apply_to
  would_apply base batch = apply_to (new base) batch >>= λ r. ok r.0
