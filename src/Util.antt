-- ===== src/Util.antt =====
-- tps-bench/src/util.rs: the fee of a transaction.
use ckb_bench_archived.Base.{ℕ, mul_u64}

-- In shannons per kilobyte.
abbrev min_fee_rate : ℕ
min_fee_rate = 1000

unfoldable pub estimate_fee : ℕ → ℕ
estimate_fee outputs_count = mul_u64 outputs_count min_fee_rate
