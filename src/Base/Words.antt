-- ===== src/Base/Words.antt =====
-- `u64` arithmetic as a release build does it: every result is taken modulo 2 ^ 64.
use Prim.Native.Nat.{ℕ, ◌+◌, ◌-◌, ◌*◌, ◌%◌, ◌^◌, ◌<◌}
use mathlib.Core.Path.{◌≡◌, ◌∙◌}
use mathlib.Core.List.{List, [], ◌∷◌}
use native.Mathlib.Omega.{arith}
use ckb_bench_archived.Base.Lists.{sum}

abbrev pub u64_mod : ℕ
u64_mod = 2 ^ 64

abbrev pub add_u64 : ℕ → ℕ → ℕ
add_u64 a b = (a + b) % u64_mod

-- `-` on ℕ stops at 0, so the modulus is added first.
abbrev pub sub_u64 : ℕ → ℕ → ℕ
sub_u64 a b = (a + u64_mod - b) % u64_mod

abbrev pub mul_u64 : ℕ → ℕ → ℕ
mul_u64 a b = a * b % u64_mod

sum_from : ℕ → List ℕ → ℕ
sum_from acc [] = acc
sum_from acc (x ∷ xs) = sum_from (add_u64 acc x) xs

-- `iter().sum::<u64>()`
unfoldable pub sum_u64 : List ℕ → ℕ
unfolding sum_from
sum_u64 = sum_from 0

sum_from_lem : (acc : ℕ) (xs : List ℕ) → acc + sum xs < u64_mod → sum_from acc xs ≡ acc + sum xs
unfolding sum_from
sum_from_lem acc [] h = omega arith
sum_from_lem acc (x ∷ xs) h =
    let e : add_u64 acc x ≡ acc + x = omega arith in
    rw e (sum_from_lem (acc + x) xs (omega arith) ∙ omega arith)

-- A sum that fits its word is the sum of the numbers.
pub sum_u64-eq-sum : (xs : List ℕ) → sum xs < u64_mod → sum_u64 xs ≡ sum xs
unfolding sum_u64
sum_u64-eq-sum xs h = sum_from_lem 0 xs (omega arith) ∙ omega arith
