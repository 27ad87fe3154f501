-- ===== src/NetMonitor.antt =====
-- tps-bench/src/net_monitor.rs: when a network is stable, and what it achieved over some blocks.
-- The loops that wait take a number of rounds; where it runs out the outcome is `running`. Progress
-- lines of the log are left out, and with them the instants that only these compare.
pub mod Measured
pub mod Empty
pub mod Waiting
mod Tests
use ckb_bench_archived.Base.{
  ℕ, zero, suc, ◌+◌, ◌-◌, ◌*◌, ◌/◌, List, [], ◌∷◌, ◌++◌, map, Bool, true, false, Option, some, none,
  Outcome, ok, panic, running, Action, unwrap, if◌then◌else◌, ltb, leb, ◌==◌, length,
  range_inclusive, add_u64, sub_u64, sum_u64, not, ◌||◌,
}
use Prim.Native.Nat.{max, min}
use ckb_bench_archived.Base.Effects.{pure, lift, for_each, ◌>>=◌, ◌>>◌}
use ckb_bench_archived.Chain.{TransactionView, BlockView}
use ckb_bench_archived.Float.{Float}
use ckb_bench_archived.Host.{Host}
use ckb_bench_archived.Rpc.{Inner, Jsonrpc}
use ckb_bench_archived.Rpc
use ckb_bench_archived.Net.{
  Net, first_endpoint, get_network_nodes, get_bench_nodes, get_confirmed_tip_number,
  get_confirmed_tip_block,
}

pub data MethodToEvalNetStable : Type 0 where
  recent_blocktxns_nearly : (window margin : ℕ) → MethodToEvalNetStable
  custom_blocks_elapsed : (warmup window : ℕ) → MethodToEvalNetStable
  never : MethodToEvalNetStable
  timed_task : (duration_time : ℕ) → MethodToEvalNetStable

-- `Default for MethodToEvalNetStable`
pub default_method : MethodToEvalNetStable
default_method = custom_blocks_elapsed 20 21

pub record Metrics : Type 0 where
  pub tps : ℕ
  pub average_block_time_ms : ℕ
  pub average_block_transactions : ℕ
  pub start_block_number : ℕ
  pub end_block_number : ℕ
  pub network_nodes : ℕ
  pub bench_nodes : ℕ
  pub total_transactions_size : ℕ

-- A quotient of machine words panics on a divisor of 0.
unfoldable pub checked_div : ℕ → ℕ → Outcome ℕ
checked_div a b = if b == 0 then panic "attempt to divide by zero" else ok (a / b)

-- `totaltxns` and `total_transactions_size`
pub record Totals : Type 0 where
  pub transactions : ℕ
  pub size : ℕ

-- `serialized_size` is `tx.data().serialized_size_in_block()` of ckb_types.
pub eval_total_tx_size_in_block : (TransactionView → ℕ) → BlockView → ℕ
eval_total_tx_size_in_block serialized_size block = sum_u64 (map serialized_size block.transactions)

module _ {W F : Type 0} (inner : Inner W) (float : Float F)
    (serialized_size : TransactionView → ℕ) where
  -- `net.get_block_by_number(number).unwrap()`, on the first node
  pub block_at_number : Net → ℕ → Action W BlockView
  block_at_number net number = do
    rpc ← lift (first_endpoint net)
    reply ← Rpc.get_block_by_number inner rpc number
    lift (unwrap reply "get_block_by_number")

  add_block : Net → ℕ → Totals → Action W Totals
  add_block net number totals = do
    block ← block_at_number net number
    pure (record {
      transactions = add_u64 totals.transactions (length block.transactions);
      size = add_u64 totals.size (eval_total_tx_size_in_block serialized_size block);
    })

  -- `Metrics::eval_blocks`
  pub eval_blocks : Net → ℕ → ℕ → Action W Metrics
  eval_blocks net from_number end_number = do
    network_nodes ← get_network_nodes inner net
    let bench_nodes = get_bench_nodes net
    totals ←
        for_each (range_inclusive from_number end_number) (add_block net)
          (record { transactions = 0; size = 0 })
    let blocks_count = add_u64 (sub_u64 end_number from_number) 1
    front ← block_at_number net from_number
    back ← block_at_number net end_number
    average_block_transactions ← lift (checked_div totals.transactions blocks_count)
    let elapsed_ms = back.timestamp - front.timestamp
    block_time ← lift (checked_div elapsed_ms blocks_count)
    pure (record {
      tps = float.to_u64 (
          float.div (float.mul (float.of_int totals.transactions) (float.of_int 1000))
            (float.of_int elapsed_ms));
      average_block_time_ms = max 1 block_time;
      average_block_transactions = average_block_transactions;
      start_block_number = from_number;
      end_block_number = end_number;
      network_nodes = network_nodes;
      bench_nodes = bench_nodes;
      total_transactions_size = totals.size;
    })
