-- ===== src/Prelude/Raise.antt =====
-- A call that returns a value or raises an exception of type `E`.
use mathlib.Core.Path.{◌≡◌, refl}
use mathlib.Core.Logic.{◌⊎◌, inl, inr}

pub data Result (E A : Type 0) : Type 0 where
  ok : A → Result E A
  err : E → Result E A

infixl 5 ◌>>=◌ ◌>>◌
abbrev pub ◌>>=◌ : {E A B : Type 0} → Result E A → (A → Result E B) → Result E B
ok a >>= f = f a
err e >>= f = err e

abbrev pub ◌>>◌ : {E B : Type 0} → Result E (Unit {0}) → Result E B → Result E B
m >> k = m >>= λ _. k

-- If the second call returns, the first one did.
pub >>=-eq-ok :
    {E X Y : Type 0} (call : Result E X) (next : X → Result E Y) {out : Y}
    → (call >>= next) ≡ ok out
    → (x : X) × (call ≡ ok x) × (next x ≡ ok out)
>>=-eq-ok (err e) next h = cc
>>=-eq-ok (ok x) next h = (x, refl, h)

-- To split on a call and keep the equation.
pub Result-cases :
    {E A : Type 0} (m : Result E A) → ((a : A) × (m ≡ ok a)) ⊎ ((e : E) × (m ≡ err e))
Result-cases (ok a) = inl (a, refl)
Result-cases (err e) = inr (e, refl)

pub ok_inj : {E A : Type 0} {a b : A} → ◌≡◌ {A = Result E A} (ok a) (ok b) → a ≡ b
ok_inj h = cc

pub not_ok : {E A : Type 0} {e : E} {a : A} → ¬ (◌≡◌ {A = Result E A} (err e) (ok a))
not_ok h = cc
