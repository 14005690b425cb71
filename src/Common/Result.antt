-- ===== src/Common/Result.antt =====
-- A computation that returns, that would touch memory outside of an object (or throw), or that
-- ran out of the model's fuel.
use mathlib.Core.Option.{Option, none, some}

pub data Result {ℓ} (A : Type ℓ) : Type ℓ where
  ok : A → Result A
  fault : Result A
  stuck : Result A

infixl 5 ◌>>=◌
abbrev pub ◌>>=◌ {ℓ κ} : {A : Type ℓ} {B : Type κ} → Result A → (A → Result B) → Result B
ok a >>= f = f a
fault >>= f = fault
stuck >>= f = stuck

-- A read that may miss its object.
abbrev pub or_fault {ℓ} : {A : Type ℓ} → Option A → Result A
or_fault none = fault
or_fault (some a) = ok a

-- A loop that may run out of fuel.
abbrev pub or_stuck {ℓ} : {A : Type ℓ} → Option A → Result A
or_stuck none = stuck
or_stuck (some a) = ok a
