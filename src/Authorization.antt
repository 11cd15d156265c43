-- ===== src/Authorization.antt =====
-- `Authorization` of dude/store/management.py: whether a multisig speaks for the cluster. The signers are
-- the roster and, behind it, the manager's key.
use dude_fs.Prelude.{
  ℕ, Bool, true, false, not, List, [], ◌∷◌, ◌++◌, Bytes, Result, ok, err, ◌==◌, nat_eq,
  if◌then◌else◌, ltb, leb, length, select, contains,
}
use dude_fs.Crypto.{Suite}
use dude_fs.Crypto.Bitmap.{MultiSig, bitmap_indices, verify_multisig}
use dude_fs.Quorum.{size}

pub record Authorization : Type 0 where
  pub multisig : MultiSig
  pub payload : Bytes
  pub roster : List Bytes
  pub anchor : Bytes

-- The errors of `indices` and of `quorum.size`.
pub data AuthorizationError : Type 0 where
  bad_bitmap empty_roster : AuthorizationError

abbrev pub signers_of : Authorization → List Bytes
signers_of a = a.roster ++ a.anchor ∷ []

-- `sum(1 for i in set_indices if i < manager_slot)`
abbrev pub roster_signers : ℕ → List ℕ → ℕ
roster_signers slot indices = length (select (λ i. ltb i slot) indices)

-- What the indices of the signers decide.
unfoldable pub enough_signers : ℕ → List ℕ → Result AuthorizationError Bool
enough_signers slot indices =
    if contains slot indices then ok true else if slot == 0 then ok false else elim (size slot) [
      | err _ ↦ err empty_roster
      | ok q ↦ ok (leb q (roster_signers slot indices))
    ]

unfoldable pub authorized : Suite → Authorization → Result AuthorizationError Bool
unfolding enough_signers
authorized c a =
    if not (verify_multisig c a.multisig a.payload (signers_of a))
    then ok false
    else elim (bitmap_indices a.multisig.bitmap (length (signers_of a))) [
      | err _ ↦ err bad_bitmap
      | ok indices ↦ enough_signers (length a.roster) indices
    ]
