-- ===== src/Quorum.antt =====
-- dude/quorum.py: how many of `n` nodes make a quorum, and what follows from it.
pub mod Bounds
pub mod Overlap
use dude_fs.Prelude.{
  ℕ, ◌+◌, ◌-◌, ◌*◌, ◌/◌, min, Bool, Result, ok, err, ◌>>=◌, leb, ltb, if◌then◌else◌, select, Bytes,
}
use dude_fs.Prelude.Dict.{Dict}

pub data QuorumError : Type 0 where
  no_nodes : QuorumError

-- `-(-2 * n // 3)` is 2n / 3 rounded up.
unfoldable pub size : ℕ → Result QuorumError ℕ
size n = if ltb n 1 then err no_nodes else ok ((2 * n + 2) / 3)

-- The subtraction does not stop at 0: `intersection_bounds` in Bounds.
unfoldable pub intersection : ℕ → Result QuorumError ℕ
intersection n = do q ← size n; ok (2 * q - n)

-- `max(0, i - 1)` is the subtraction that stops at 0.
unfoldable pub tolerates : ℕ → Result QuorumError ℕ
tolerates n = do i ← intersection n; ok (i - 1)

unfoldable pub corroboration : ℕ → Result QuorumError ℕ
corroboration n = do t ← tolerates n; ok (t + 1)

unfoldable pub spare : ℕ → Result QuorumError ℕ
spare n = do q ← size n; ok (n - q)

unfoldable pub max_domain : ℕ → Result QuorumError ℕ
max_domain n = do s ← spare n; t ← tolerates n; ok (min s t)

unfoldable pub satisfied : ℕ → ℕ → Result QuorumError Bool
satisfied n agreeing = do q ← size n; ok (leb q agreeing)

unfoldable pub would_brick : ℕ → Bool
would_brick n = ltb n 3

unfoldable pub domain_advisory : Dict Bytes ℕ → ℕ → Result QuorumError (Dict Bytes ℕ)
domain_advisory counts n = do limit ← max_domain n; ok (select (λ e. ltb limit e.1) counts)
