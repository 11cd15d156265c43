-- ===== src/SettleRound/Total.antt =====
-- `MultiSig.combine` in a settle round: the indices are those of the roster.
use dude_fs.Prelude.{
  ℕ, suc, ◌+◌, ◌/◌, ◌≤◌, ◌<◌, Bool, true, false, not, some, List, [], ◌∷◌, map, Bytes, ◌≡◌, refl,
  arith, length, All, contains, ok, Result, if◌then◌else◌, ltb, ◌==◌, list_eq, nat_eq, Option-cases,
  inl, inr,
}
use dude_fs.Prelude.Dict.{Dict, lookup, insert}
use dude_fs.Crypto.{Suite}
use dude_fs.Crypto.Bitmap.{set_all, set_at, mask, bitmap_set, bitmap_size, zeros, combine, MultiSig}
use dude_fs.SettleRound.Types.{
  same_anchors, SettleSig, verify_settle_sig, SettleRound, SettleError, has_settled,
}
use dude_fs.SettleRound.Machine.{is_collecting, shares_from, try_settle, receive}

abbrev Below : ℕ → List ℕ → Type 0
Below n is = All (λ i. i < n) is

set_all_total :
    (is : List ℕ) (n : ℕ) (buf : Bytes) → Below n is → (out : Bytes) × (set_all is n buf ≡ ok out)
unfolding set_all
set_all_total [] n buf h = (buf, refl)
set_all_total (i ∷ is) n buf h =
    let (out, e) = set_all_total is n (set_at (i / 8) (mask i) buf) h.1 in
    let inside : ltb i n ≡ true = ground (arith, h.0) in (out, rw (inside, e) refl)

shares_from-Below :
    (i n : ℕ) (ms : List Bytes) (sigs : Dict Bytes Bytes)
    → i + length ms ≤ n
    → Below n (map (λ s. s.0) (shares_from i ms sigs))
unfolding shares_from
shares_from-Below i n [] sigs h = tt
shares_from-Below i n (m ∷ ms) sigs h =
    let rest = shares_from-Below (suc i) n ms sigs (omega arith) in
    elim (Option-cases (lookup m sigs)) [
      | inl gone ↦ rw (map, gone) rest
      | inr (sig, found) ↦ rw (map, found) (omega arith, rest)
    ]

combine_total :
    (roster : List Bytes) (sigs : Dict Bytes Bytes)
    → (m : MultiSig) × (combine (shares_from 0 roster sigs) (length roster + 1) ≡ ok m)
unfolding combine bitmap_set
combine_total roster sigs =
    let n = length roster + 1 in
    let is = map (λ s. s.0) (shares_from 0 roster sigs) in
    let (out, e) =
      set_all_total is n (zeros (bitmap_size n))
        (shares_from-Below 0 n roster sigs (omega arith)) in
    (record { bitmap = out; sigs = map (λ s. s.1) (shares_from 0 roster sigs) }, rw e refl)

abbrev Returns : Result SettleError SettleRound → Type 0
Returns x = (r : SettleRound) × (x ≡ ok r)

Returns-if :
    (b : Bool) (x y : Result SettleError SettleRound)
    → Returns x
    → Returns y
    → Returns (if b then x else y)
Returns-if true x y h k = h
Returns-if false x y h k = k

-- `_try_settle` raises no error.
pub try_settle_total : (r : SettleRound) → Returns (try_settle r)
unfolding try_settle
try_settle_total r =
    let (m, made) = combine_total r.roster r.sigs in
    Returns-if (not (is_collecting r.state)) _ _ (r, refl)
      (Returns-if (ltb (length r.sigs) r.quorum) _ _ (r, refl)
        (
          record r {
            settled = some (record { block = r.block; anchors = r.anchors; multisig = m });
            state = has_settled;
          },
          rw made refl,
        ))

-- `SettleRound.receive` raises no error, whatever the message, its sender and the round are.
pub receive_total :
    (c : Suite) (msg : SettleSig) (from : Bytes) (r : SettleRound)
    → (r' : SettleRound) × (receive c msg from r ≡ ok r')
unfolding receive
receive_total c msg from r =
    Returns-if (not (contains from r.roster)) _ _ (r, refl)
      (Returns-if (from == r.me) _ _ (r, refl)
        (Returns-if (not (msg.slice_hash == r.slice_hash)) _ _ (r, refl)
          (Returns-if (not (verify_settle_sig c msg from)) _ _ (r, refl)
            (Returns-if (not (same_anchors msg.anchors r.anchors)) _ _ (_, refl)
              (Returns-if (not (is_collecting r.state)) _ _ (r, refl)
                (try_settle_total (record r { sigs = insert from msg.sig r.sigs })))))))
