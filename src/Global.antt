-- ===== src/Global.antt =====
-- tps-bench/src/global.rs: the constants, and the cell dependency that is found in the genesis block.
use ckb_bench_archived.Base.{ℕ}
use ckb_bench_archived.Chain.{Byte32, OutPoint, CellDep, dep_group}

abbrev pub min_secp_cell_capacity : ℕ
min_secp_cell_capacity = 61_0000_0000

abbrev pub dep_group_transaction_index : ℕ
dep_group_transaction_index = 1

abbrev pub sighash_all_dep_group_cell_index : ℕ
sighash_all_dep_group_cell_index = 0

abbrev pub sighash_all_type_hash : Byte32
sighash_all_type_hash = 0x9bd7e06f3ecf4be0f2fcd2188b23f1b9fcc88e5d4b65a8637b17723bbda3cce8

-- `SIGHASH_ALL_CELL_DEP_OUT_POINT`, of the genesis transaction `SIGHASH_ALL_DEP_GROUP_TX_HASH`
pub sighash_all_cell_dep_out_point : Byte32 → OutPoint
sighash_all_cell_dep_out_point tx_hash = record {
  tx_hash = tx_hash;
  index = sighash_all_dep_group_cell_index;
}

-- `SIGHASH_ALL_CELL_DEP`
unfoldable pub sighash_all_cell_dep : Byte32 → CellDep
unfolding sighash_all_cell_dep_out_point
sighash_all_cell_dep tx_hash = record {
  out_point = sighash_all_cell_dep_out_point tx_hash;
  dep_type = dep_group;
}
