-- ===== src/Tests/Quorum.antt =====
-- quorum.py at small sizes.
use dude_fs.Prelude.{
  ℕ, ◌+◌, ◌*◌, ◌≤◌, ◌<◌, ◌-◌, ◌≡◌, refl, arith, ok, [], ◌∷◌, true, length, nat_eq, ℕ_discrete, List,
  contains,
}
use dude_fs.Prelude.Sets.{common}
use dude_fs.Quorum.{size, intersection, tolerates, corroboration, satisfied, spare, max_domain}
use dude_fs.Quorum.Bounds.{intersection_bounds, max_domain_safe}
use dude_fs.Quorum.Overlap.{quorums_overlap}

intersection_bounds_example :
    (q i t : ℕ) × (size 4 ≡ ok q)
    × (intersection 4 ≡ ok i)
    × (tolerates 4 ≡ ok t)
    × (corroboration 4 ≡ ok i)
    × (i + 4 ≡ 2 * q)
    × (4 ≤ 3 * i)
    × (t + 1 ≡ i)
intersection_bounds_example = intersection_bounds 4 (omega arith)

max_domain_safe_example : (satisfied 4 (4 - 1) ≡ ok true) × (1 < 2)
unfolding size intersection max_domain spare tolerates
max_domain_safe_example = max_domain_safe 4 1 3 2 1 refl refl refl (omega arith)

abbrev roster : List ℕ
roster = 1 ∷ 2 ∷ 3 ∷ 4 ∷ []

abbrev one_quorum : List ℕ
one_quorum = 1 ∷ 2 ∷ 3 ∷ []

abbrev other_quorum : List ℕ
other_quorum = 2 ∷ 3 ∷ 4 ∷ []

quorums_overlap_example : 2 ≤ length (common one_quorum other_quorum)
unfolding size intersection contains ℕ_discrete
quorums_overlap_example =
    quorums_overlap roster one_quorum other_quorum 3 2 refl refl (refl, (refl, (refl, tt)))
      (refl, (refl, (refl, tt))) (refl, (refl, (refl, tt))) (refl, (refl, (refl, tt))) (omega arith)
      (omega arith)
