-- ===== src/Base/Outcomes.antt =====
-- How a piece of code ends, for code that touches nothing outside the program.
use Prim.Native.Nat.{ℕ}
use Prim.Native.String.{String}
use mathlib.Core.Path.{◌≡◌, refl}
use mathlib.Core.Option.{Option, none, some}

-- A value; a panic of the thread; an exit of the process; or a loop that has not ended within
-- the rounds that the model gives it.
pub data Outcome {ℓ} (A : Type ℓ) : Type ℓ where
  ok : A → Outcome A
  panic : String → Outcome A
  exit : ℕ → Outcome A
  running : Outcome A

infixl 5 ◌>>=◌
abbrev pub ◌>>=◌ {ℓ κ} : {A : Type ℓ} {B : Type κ} → Outcome A → (A → Outcome B) → Outcome B
ok a >>= f = f a
panic reason >>= f = panic reason
exit code >>= f = exit code
running >>= f = running

-- `expect` and `unwrap`
abbrev pub unwrap {ℓ} : {A : Type ℓ} → Option A → String → Outcome A
unwrap (some a) reason = ok a
unwrap none reason = panic reason

-- The code returns, and its result is as stated.
abbrev pub Returns {ℓ} : {A : Type ℓ} → Outcome A → (A → Type 0) → Type 0
Returns (ok a) P = P a
Returns _ P = ⊥

-- What returns has a value.
pub returned :
    {A : Type 0} {P : A → Type 0} (r : Outcome A) → Returns r P → (a : A) × (r ≡ ok a) × P a
returned (ok a) h = (a, refl, h)
returned (panic reason) h = absurd h
returned (exit code) h = absurd h
returned running h = absurd h
