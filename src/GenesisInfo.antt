-- ===== src/GenesisInfo.antt =====
-- tps-bench/src/genesis_info.rs, and `init_global_genesis_info` of tps-bench/src/main.rs: the genesis
-- block, in which the dependency group of the system lock is found.
pub mod Cases
mod Tests
use ckb_bench_archived.Base.{
  ℕ, zero, suc, List, [], ◌∷◌, Option, none, some, Outcome, ok, panic, Action, unwrap,
  if◌then◌else◌, ◌==◌, get_elem?,
}
use ckb_bench_archived.Base.Effects.{pure, lift, ◌>>=◌}
use ckb_bench_archived.Base.Outcomes.{◌>>=◌ as and_then}
use ckb_bench_archived.Chain.{Byte32, BlockView}
use ckb_bench_archived.Global.{dep_group_transaction_index}
use ckb_bench_archived.Rpc.{Inner, Jsonrpc}
use ckb_bench_archived.Rpc

pub record GenesisInfo : Type 0 where
  pub block : BlockView

-- `GenesisInfo::assert_initialized`
assert_initialized : GenesisInfo → Outcome (Unit {0})
assert_initialized info = elim info.block.transactions [
  | [] ↦ panic "assertion failed"
  | tx ∷ txs ↦ ok tt
]

-- `GenesisInfo::dep_group_tx_hash`
dep_group_tx_hash : GenesisInfo → Outcome Byte32
dep_group_tx_hash info =
    and_then
      (unwrap (get_elem? info.block.transactions dep_group_transaction_index)
        "genesis block should have transactions[DEP_GROUP_TRANSACTION_INDEX]")
      (λ tx. ok tx.hash)

-- `From<core::BlockView> for GenesisInfo`
from_block : BlockView → Outcome GenesisInfo
from_block block =
    if block.number == 0 then ok (record { block = block }) else panic "assertion failed"

-- `SIGHASH_ALL_DEP_GROUP_TX_HASH` of tps-bench/src/global.rs
pub sighash_all_dep_group_tx_hash : GenesisInfo → Outcome Byte32
unfolding assert_initialized dep_group_tx_hash
sighash_all_dep_group_tx_hash info =
    and_then (assert_initialized info) (λ t. dep_group_tx_hash info)

-- `init_global_genesis_info`: the genesis block of the first node
unfoldable pub init_global_genesis_info : {W : Type 0} → Inner W → Jsonrpc → Action W GenesisInfo
unfolding from_block
init_global_genesis_info inner rpc = do
  reply ← Rpc.get_block_by_number inner rpc 0
  block ← lift (unwrap reply "get_block_by_number")
  lift (from_block block)
