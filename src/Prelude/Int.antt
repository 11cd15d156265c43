-- ===== src/Prelude/Int.antt =====
-- Integers over the native numbers: `negsuc n` is -(n + 1).
use Prim.Native.Nat.{ℕ, zero, suc}
use mathlib.Core.Path.{◌≡◌, ap}
use mathlib.Core.Bool.{Bool, true, false}
use native.Mathlib.Decide.{ℕ_discrete}
use dude_fs.Prelude.Tests.{DecEq, ltb}

pub data ℤ : Type 0 where
  pos : ℕ → ℤ
  negsuc : ℕ → ℤ

pos_eq : (a b : ℕ) → Dec (a ≡ b) → Dec (pos a ≡ pos b)
pos_eq a b (yes p) = yes (ap pos p)
pos_eq a b (no p) = no (λ e. p (cc))

negsuc_eq : (a b : ℕ) → Dec (a ≡ b) → Dec (negsuc a ≡ negsuc b)
negsuc_eq a b (yes p) = yes (ap negsuc p)
negsuc_eq a b (no p) = no (λ e. p (cc))

unfoldable pub ℤ_discrete : Discrete ℤ
unfolding pos_eq negsuc_eq ℕ_discrete
ℤ_discrete (pos a) (pos b) = pos_eq a b (ℕ_discrete a b)
ℤ_discrete (pos a) (negsuc b) = no (λ e. cc)
ℤ_discrete (negsuc a) (pos b) = no (λ e. cc)
ℤ_discrete (negsuc a) (negsuc b) = negsuc_eq a b (ℕ_discrete a b)

instance abbrev pub ℤ_eq : DecEq ℤ
ℤ_eq = record { dec = ℤ_discrete }

-- a + 1 and a - 1
unfoldable pub succ : ℤ → ℤ
succ (pos n) = pos (suc n)
succ (negsuc zero) = pos 0
succ (negsuc (suc n)) = negsuc n

unfoldable pub pred : ℤ → ℤ
pred (pos zero) = negsuc 0
pred (pos (suc n)) = pos n
pred (negsuc n) = negsuc (suc n)

-- a < b
unfoldable pub int_lt : ℤ → ℤ → Bool
int_lt (pos a) (pos b) = ltb a b
int_lt (pos a) (negsuc b) = false
int_lt (negsuc a) (pos b) = true
int_lt (negsuc a) (negsuc b) = ltb b a
