-- ===== src/Quorum/Bounds.antt =====
-- The numbers of quorum.py.
use dude_fs.Prelude.{ℕ, ◌+◌, ◌-◌, ◌*◌, ◌/◌, ◌≤◌, ◌<◌, ◌≡◌, arith, ok, true, false}
use dude_fs.Quorum.{
  size, intersection, tolerates, corroboration, spare, max_domain, satisfied, would_brick,
}

-- For at least one node `size` is defined: it is the smallest number that is at least two thirds of
-- the nodes, and at most all of them.
pub size_bounds :
    (n : ℕ) → 0 < n → (q : ℕ) × (size n ≡ ok q) × (2 * n ≤ 3 * q) × (q ≤ n) × (3 * q < 2 * n + 3)
unfolding size
size_bounds n h = ((2 * n + 2) / 3, ground arith, omega arith, omega arith, omega arith)

-- For at least one node: `intersection` is twice the quorum less the nodes and at least a third of
-- the nodes, `corroboration` is equal to it, and `tolerates` is one less.
pub intersection_bounds :
    (n : ℕ)
    → 0 < n
    → (q i t : ℕ) × (size n ≡ ok q)
      × (intersection n ≡ ok i)
      × (tolerates n ≡ ok t)
      × (corroboration n ≡ ok i)
      × (i + n ≡ 2 * q)
      × (n ≤ 3 * i)
      × (t + 1 ≡ i)
unfolding size intersection tolerates corroboration
intersection_bounds n h =
    let q = (2 * n + 2) / 3 in
    let pos : 0 < 2 * q - n = omega arith in
    (
      q,
      2 * q - n,
      2 * q - n - 1,
      ground arith,
      ground arith,
      ground arith,
      ground arith,
      omega arith,
      omega arith,
      omega arith,
    )

-- If no more nodes are lost than `max_domain` says, the other nodes are still a quorum, and those
-- lost are fewer than `intersection`.
pub max_domain_safe :
    (n lost q i m : ℕ)
    → size n ≡ ok q
    → intersection n ≡ ok i
    → max_domain n ≡ ok m
    → lost ≤ m
    → (satisfied n (n - lost) ≡ ok true) × (lost < i)
unfolding size intersection max_domain spare tolerates satisfied
max_domain_safe n lost q i m hq hi hm h = (ground arith, ground arith)

-- Where `spare` is defined, it is zero if `would_brick` holds, and positive if it does not.
pub would_brick_exact :
    (n s : ℕ) → spare n ≡ ok s → (would_brick n ≡ true → s ≡ 0) × (would_brick n ≡ false → 0 < s)
unfolding would_brick spare size
would_brick_exact n s h = (λ b. ground arith, λ b. ground arith)
