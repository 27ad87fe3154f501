-- ===== src/Benchmark/Failing.antt =====
-- When `BenchmarkConfig::find_best_bench` of tps-bench/src/benchmark.rs panics.
use native.Mathlib.Nat.{div-le_self, le-div_iff_mul-le}
use ckb_bench_archived.Base.{
  ℕ, suc, ◌+◌, ◌/◌, ◌≤◌, ◌<◌, ◌≡◌, ◌⊎◌, refl, [], false, ok, panic, inl, inr, ltb, ge→ltb, Action,
  sub_u64, sum_u64, arith,
}
use ckb_bench_archived.NetMonitor.{checked_div}
use ckb_bench_archived.Benchmark.{search, find_best}

no_quotient : (a : ℕ) → checked_div a 0 ≡ panic "attempt to divide by zero"
unfolding checked_div
no_quotient a = refl

quotient : (a b : ℕ) → 0 < b → checked_div a b ≡ ok (a / b)
unfolding checked_div
quotient a b pos = ground arith

-- Every bench returns. If the first one returns a throughput of 0, or one of at most a million that
-- asks for a delay less than 2 above the configured one, then the search for the best delay panics by
-- a division by zero: in the second case it has no sample.
pub find_best-panics :
    {W : Type 0} (bench : ℕ → Action W ℕ) (rounds send_delay tps : ℕ) (w w₁ : W)
    → ((delay : ℕ) (v : W) → (t : ℕ) × (v' : W) × (bench delay v ≡ (ok t, v')))
    → bench send_delay w ≡ (ok tps, w₁)
    → (tps ≡ 0) ⊎ ((0 < tps) × (tps ≤ 1_000_000) × (1_000_000 / tps ≤ send_delay + 1))
    → (find_best bench (suc rounds) send_delay w).0 ≡ panic "attempt to divide by zero"
unfolding find_best search
find_best-panics bench rounds send_delay tps w w₁ returns first (inl none) =
    rw (first, none, no_quotient 1_000_000) refl
find_best-panics bench rounds send_delay tps w w₁ returns first (inr (pos, small, close)) =
    let max_delay = 1_000_000 / tps in
    let (max_tps, w₂, second) = returns max_delay w₁ in
    let some : 1 ≤ max_delay = (le-div_iff_mul-le {x = 1} pos).1 (omega arith) in
    let done : ltb send_delay (sub_u64 max_delay 1) ≡ false =
      ge→ltb send_delay (sub_u64 max_delay 1) (omega (arith, div-le_self 1_000_000 tps)) in
    rw (first, quotient 1_000_000 tps pos, second, done, no_quotient (sum_u64 [])) refl
