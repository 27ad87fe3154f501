-- ===== src/Base/Effects.antt =====
-- Code with effects: how a call ends, beside the state of the world that it leaves. The world is a
-- type parameter `W`: the nodes, the clock, the channels and the files outside the program.
use mathlib.Core.List.{List, [], ◌∷◌}
use mathlib.Core.Path.{◌≡◌, refl}
use ckb_bench_archived.Base.Outcomes.{Outcome, ok, panic, exit, running}

abbrev pub Action {ℓ κ} : Type ℓ → Type κ → Type (ℓ ⊔ κ)
Action W A = W → Outcome A × W

module _ {W : Type 0} where
  abbrev pub pure : {A : Type 0} → A → Action W A
  pure a w = (ok a, w)

  -- Code that touches nothing outside the program.
  abbrev pub lift : {A : Type 0} → Outcome A → Action W A
  lift r w = (r, w)

  abbrev pub continue_with : {A B : Type 0} → Outcome A → (A → Action W B) → Action W B
  continue_with (ok a) f w = f a w
  continue_with (panic reason) f w = (panic reason, w)
  continue_with (exit code) f w = (exit code, w)
  continue_with running f w = (running, w)

  infixl 5 ◌>>=◌ ◌>>◌
  abbrev pub ◌>>=◌ : {A B : Type 0} → Action W A → (A → Action W B) → Action W B
  ◌>>=◌ m f w = let (r, w') = m w in continue_with r f w'

  abbrev pub ◌>>◌ : {A B : Type 0} → Action W A → Action W B → Action W B
  m >> k = m >>= λ _. k

  -- `for x in xs { s = body(x, s) }`
  unfoldable pub for_each : {A S : Type 0} → List A → (A → S → Action W S) → S → Action W S
  for_each [] body s = pure s
  for_each (x ∷ xs) body s = body x s >>= for_each xs body

  inverted :
      {A B : Type 0} (f : A → Action W B) (b : B) (r : Outcome A) (w : W)
      → (continue_with r f w).0 ≡ ok b
      → (a : A) × (r ≡ ok a) × ((f a w).0 ≡ ok b)
  inverted f b (ok a) w h = (a, refl, h)
  inverted f b (panic reason) w h = cc
  inverted f b (exit code) w h = cc
  inverted f b running w h = cc

  -- A sequence that returns has two parts that return.
  pub bind-ok :
      {A B : Type 0} (m : Action W A) (f : A → Action W B) (w : W) (b : B)
      → ((m >>= f) w).0 ≡ ok b
      → (a : A) × ((m w).0 ≡ ok a) × ((f a (m w).1).0 ≡ ok b)
  bind-ok m f w b h = inverted f b (m w).0 (m w).1 h
