-- ===== src/Quorum/Overlap.antt =====
-- Two quorums of one roster.
use dude_fs.Prelude.{ℕ, ◌≤◌, ◌≡◌, ok, arith, DecEq, length, List}
use dude_fs.Prelude.Sets.{Distinct, Within, common, overlap}
use dude_fs.Quorum.{size, intersection}

-- Two sets of distinct roster members that each have at least a quorum share at least
-- `intersection` members.
pub quorums_overlap {ℓ} :
    {A : Type ℓ} ⦃d : DecEq A⦄ (roster xs ys : List A) (q i : ℕ)
    → size (length roster) ≡ ok q
    → intersection (length roster) ≡ ok i
    → Distinct xs
    → Distinct ys
    → Within xs roster
    → Within ys roster
    → q ≤ length xs
    → q ≤ length ys
    → i ≤ length (common xs ys)
unfolding size intersection
quorums_overlap roster xs ys q i hq hi dx dy wx wy lx ly =
    let shared = overlap xs ys roster dx dy wx wy in ground arith
