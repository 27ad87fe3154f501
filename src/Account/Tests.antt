-- ===== src/Account/Tests.antt =====
-- The witness for the cells of a block.
use ckb_bench_archived.Base.{Returns}
use ckb_bench_archived.Account.Owned.{get_owned_utxos}
use ckb_bench_archived.Account.Owned.Exact.{IsExact, get_owned_utxos-IsExact}
use ckb_bench_archived.Samples.{toy_crypto, alice, alice_lock, alice_lock_lem, block_at}

get_owned_utxos-IsExact_example :
    Returns (get_owned_utxos toy_crypto alice (block_at 3)) (IsExact alice_lock (block_at 3))
get_owned_utxos-IsExact_example =
    get_owned_utxos-IsExact toy_crypto alice (block_at 3) alice_lock_lem
