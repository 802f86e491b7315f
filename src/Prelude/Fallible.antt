-- ===== src/Prelude/Fallible.antt =====
-- Rust's `Result` without state.
use mathlib.Core.Path.{◌≡◌}

pub data Fallible (E A : Type 0) : Type 0 where
  ok : A → Fallible E A
  err : E → Fallible E A

infixl 5 ◌>>=◌ ◌>>◌
abbrev pub ◌>>=◌ : {E A B : Type 0} → Fallible E A → (A → Fallible E B) → Fallible E B
◌>>=◌ (ok a) f = f a
◌>>=◌ (err e) f = err e

abbrev pub ◌>>◌ : {E A B : Type 0} → Fallible E A → Fallible E B → Fallible E B
◌>>◌ m n = m >>= λ _. n

-- A chain that succeeds has a first part that succeeds.
pub >>=-eq-ok :
    {E A B : Type 0} (m : Fallible E A) (f : A → Fallible E B) {r : B}
    → (m >>= f) ≡ ok r
    → (a : A) × (m ≡ ok a) × (f a ≡ ok r)
>>=-eq-ok (ok a) f h = (a, λ i. ok a, h)
>>=-eq-ok (err e) f h = absurd (cc h)
