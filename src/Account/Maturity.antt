-- ===== src/Account/Maturity.antt =====
-- `is_matured` of tps-bench/src/account.rs: whether a cellbase output of a block may be spent.
use ckb_bench_archived.Base.{
  ℕ, ◌+◌, ◌*◌, ◌<◌, Bool, true, ◌≡◌, ◌↔◌, ltb, ltb→lt, lt→ltb, add_u64, mul_u64, u64_mod, arith,
}

-- `CELLBASE_MATURITY` is counted in epochs, of 1800 blocks.
abbrev epoch_length : ℕ
epoch_length = 1800

-- `maturity` is the value of the global `CELLBASE_MATURITY`.
unfoldable pub is_matured : ℕ → ℕ → ℕ → Bool
is_matured maturity tip_number number =
    ltb (add_u64 number (mul_u64 epoch_length maturity)) tip_number

-- Where the sum fits a `u64`, a block is matured exactly if the tip lies more than `maturity`
-- epochs above it.
pub is_matured_iff :
    (maturity tip_number number : ℕ)
    → number + 1800 * maturity < u64_mod
    → (is_matured maturity tip_number number ≡ true) ↔ (number + 1800 * maturity < tip_number)
unfolding is_matured
is_matured_iff maturity tip_number number fits =
    let e : add_u64 number (mul_u64 epoch_length maturity) ≡ number + 1800 * maturity =
      omega arith in
    rw e (ltb→lt _ _, lt→ltb _ _)
