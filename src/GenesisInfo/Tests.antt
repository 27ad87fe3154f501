-- ===== src/GenesisInfo/Tests.antt =====
-- Tests of the genesis information.
use ckb_bench_archived.Base.{◌≡◌, refl, [], ◌∷◌, ok}
use ckb_bench_archived.Chain.{BlockView}
use ckb_bench_archived.Base.{some}
use ckb_bench_archived.Rpc.{answer}
use ckb_bench_archived.GenesisInfo.Cases.{Decides, group_hash, init_global_genesis_info-Decides}
use ckb_bench_archived.Samples.{chain_node, local_rpc, payment_at, header_at, block_at}
use ckb_bench_archived.GenesisInfo.{
  assert_initialized, dep_group_tx_hash, from_block, sighash_all_dep_group_tx_hash,
  init_global_genesis_info,
}

abbrev genesis : BlockView
genesis = record { header = header_at 0; transactions = payment_at 0 ∷ payment_at 77 ∷ [] }

sighash_all_dep_group_tx_hash-second :
    sighash_all_dep_group_tx_hash (record { block = genesis }) ≡ ok 77
unfolding sighash_all_dep_group_tx_hash assert_initialized dep_group_tx_hash
sighash_all_dep_group_tx_hash-second = refl

init_global_genesis_info-number :
    init_global_genesis_info (chain_node 9) local_rpc tt
    ≡ (ok (record { block = block_at 0 }), tt {0})
unfolding init_global_genesis_info from_block
init_global_genesis_info-number = refl

init_global_genesis_info-Decides_example :
    Decides (answer (some (block_at 0))) (group_hash (chain_node 9) local_rpc (tt {0})).0
init_global_genesis_info-Decides_example =
    init_global_genesis_info-Decides (chain_node 9) local_rpc (answer (some (block_at 0))) tt tt
      refl
