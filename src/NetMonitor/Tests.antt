-- ===== src/NetMonitor/Tests.antt =====
-- Tests and witnesses of the metrics.
use ckb_bench_archived.Base.{
  ℕ, ◌+◌, ◌-◌, ◌*◌, ◌≤◌, ◌<◌, true, none, add_u64, ◌≡◌, refl, [], ◌∷◌, ok, All, ◌≢◌, Returns, arith,
  sum_u64,
}
use ckb_bench_archived.Base.Effects.{for_each}
use ckb_bench_archived.Float.{fractions, fractions-IsDouble}
use ckb_bench_archived.Rpc.{Inner, TxPoolInfo, answer}
use ckb_bench_archived.Net.{first_endpoint, get_network_nodes, get_bench_nodes}
use ckb_bench_archived.NetMonitor.{
  Metrics, checked_div, eval_total_tx_size_in_block, block_at_number, add_block, eval_blocks,
}
use ckb_bench_archived.NetMonitor.Measured.{IsMeasured, eval_blocks-IsMeasured}
use ckb_bench_archived.Host.{Host}
use ckb_bench_archived.Net.{Net}
use ckb_bench_archived.Net.Tests.{growing_node, growing_node-tip}
use ckb_bench_archived.NetMonitor.Empty.{eval_blocks-ne-ok}
use ckb_bench_archived.NetMonitor.Waiting.Window.{wait_recent_blocktxns_nearly-ne-ok}
use Prim.Native.String.{String}
use ckb_bench_archived.NetMonitor.Waiting.Pools.{
  Settles, IsEmpty, wait_network_txpool_empty-IsEmpty,
}
use ckb_bench_archived.NetMonitor.Waiting.{
  wait_network_txpool_empty, second, wait_custom_blocks_elapsed, wait_duration_time_elapsed,
  wait_recent_blocktxns_nearly,
}
use ckb_bench_archived.NetMonitor.Waiting.Timed.{Ticks, wait_duration_time_elapsed-measures}
use ckb_bench_archived.NetMonitor.Waiting.Elapsed.{Advances, wait_custom_blocks_elapsed-measures}
use ckb_bench_archived.Samples.{chain_node, dead_node, local_rpc, block_at, quiet_host}

-- The node has two peers.
abbrev node : {W : Type 0} → Inner W
node = record (chain_node 9) { get_peers = λ uri w. (answer ("" ∷ "" ∷ []), w) }

-- Four transactions in the 24 seconds of blocks 2 to 5.
eval_blocks-four :
    eval_blocks node fractions (λ tx. 200) (record { endpoints = local_rpc ∷ [] }) 2 5 tt ≡ (
      ok (record {
        tps = 0;
        average_block_time_ms = 6000;
        average_block_transactions = 1;
        start_block_number = 2;
        end_block_number = 5;
        network_nodes = 3;
        bench_nodes = 1;
        total_transactions_size = 800;
      }),
      tt {0},
    )
unfolding eval_blocks for_each first_endpoint get_network_nodes get_bench_nodes checked_div
    add_block block_at_number eval_total_tx_size_in_block sum_u64
eval_blocks-four = refl

eval_blocks-IsMeasured_example :
    Returns
      (eval_blocks node fractions
        (λ tx. 200)
        (record { endpoints = local_rpc ∷ [] })
        2
        5
        (tt {0})).0
      (IsMeasured (λ tx. 200) block_at 2 5 (record { endpoints = local_rpc ∷ [] }) ("" ∷ "" ∷ []))
eval_blocks-IsMeasured_example =
    eval_blocks-IsMeasured node fractions (λ tx. 200) local_rpc [] block_at 5
      (λ w n le. (w, ground arith)) 2 ("" ∷ "" ∷ []) tt (λ v. (v, refl)) fractions-IsDouble
      (omega arith) (omega arith) (omega arith) (omega arith) (omega arith)

-- A second of sleep makes a block.
abbrev block_a_second : Host ℕ
block_a_second = record {
  sleep = λ time w. w + 1;
  now = λ w. (w * second, w);
  send_utxo = λ utxo w. (true, w);
  recv_utxo = λ w. (none, w);
  send_tx = λ i tx w. (true, w);
  try_send_tx = λ i tx w. (true, w);
}

abbrev one_node : Net
one_node = record { endpoints = local_rpc ∷ [] }

block_a_second-Advances : Advances growing_node block_a_second 0 one_node (λ w. w) (λ n w. n - w)
block_a_second-Advances = record {
  reads = λ w. (w, growing_node-tip local_rpc w, refl, λ n. refl);
  nears = λ n w below. omega arith;
}

wait_custom_blocks_elapsed-measures_example :
    (current : ℕ) × (w' : ℕ) × (wait_custom_blocks_elapsed growing_node block_a_second fractions
        (λ tx. 200)
        0
        21
        one_node
        20
        10
        3
      ≡ eval_blocks growing_node fractions (λ tx. 200) one_node current (add_u64 current 20) w')
    × (add_u64 3 10 ≤ current)
    × (add_u64 current 20 ≤ w')
wait_custom_blocks_elapsed-measures_example =
    wait_custom_blocks_elapsed-measures growing_node block_a_second fractions (λ tx. 200) 0 one_node
      (λ w. w) (λ n w. n - w) block_a_second-Advances 20 20 10 3 (λ v. omega arith)
      (λ v. omega arith)

abbrev some_metrics : Metrics
some_metrics = record {
  tps = 0;
  average_block_time_ms = 0;
  average_block_transactions = 0;
  start_block_number = 4;
  end_block_number = 3;
  network_nodes = 1;
  bench_nodes = 1;
  total_transactions_size = 0;
}

eval_blocks-ne-ok_example :
    (eval_blocks node fractions (λ tx. 200) one_node (3 + 1) 3 (tt {0})).0 ≢ ok some_metrics
eval_blocks-ne-ok_example =
    eval_blocks-ne-ok node fractions (λ tx. 200) one_node 3 tt some_metrics (omega arith)

wait_recent_blocktxns_nearly-ne-ok_example :
    (wait_recent_blocktxns_nearly node quiet_host fractions
      (λ tx. 200)
      2
      5
      5
      one_node
      2
      1
      (tt {0})).0
    ≢ ok some_metrics
wait_recent_blocktxns_nearly-ne-ok_example =
    wait_recent_blocktxns_nearly-ne-ok node quiet_host fractions (λ tx. 200) 2 one_node 5 5 2 1 tt
      some_metrics (omega arith)

-- The world is the number of transactions that wait in every pool; one leaves in a second.
abbrev pool_node : Inner ℕ
pool_node = record dead_node {
  tx_pool_info = λ uri w. (answer (record { pending = w; proposed = 0 }), w);
}

abbrev one_a_second : Host ℕ
one_a_second = record block_a_second { sleep = λ time w. w - 1 }

abbrev pools : ℕ → String → TxPoolInfo
pools w uri = record { pending = w; proposed = 0 }

pool_node-Settles : Settles pool_node one_a_second (local_rpc ∷ []) pools (λ w. w)
pool_node-Settles = record {
  tells = λ uri w. (w, refl, refl, refl);
  nears = λ w more. omega arith;
  empty = λ w none_due. ((none_due, refl), tt);
}

wait_network_txpool_empty-IsEmpty_example :
    (w' : ℕ) × (wait_network_txpool_empty pool_node one_a_second fractions
        (λ tx. 200)
        0
        9
        one_node
        4
      ≡ (ok tt, w'))
    × All (λ rpc. IsEmpty (pools w' rpc.uri)) (local_rpc ∷ [])
wait_network_txpool_empty-IsEmpty_example =
    wait_network_txpool_empty-IsEmpty pool_node one_a_second fractions (λ tx. 200) 0
      (local_rpc ∷ []) pools (λ w. w) pool_node-Settles 9 4 (omega arith)

block_a_second-Ticks : Ticks growing_node block_a_second 0 one_node (λ w. w * second) (λ w. w)
block_a_second-Ticks = record {
  shows = λ w. (w, refl, refl);
  sleeps = λ w. omega arith;
  reads = λ w. (w, growing_node-tip local_rpc w, refl);
}

wait_duration_time_elapsed-measures_example :
    (v w' : ℕ) × (wait_duration_time_elapsed growing_node block_a_second fractions
        (λ tx. 200)
        0
        3_000_002
        one_node
        3
        7
      ≡ eval_blocks growing_node fractions (λ tx. 200) one_node 7 v w')
    × (7 * second + 3 * second < v * second)
wait_duration_time_elapsed-measures_example =
    wait_duration_time_elapsed-measures growing_node block_a_second fractions (λ tx. 200) 0 one_node
      (λ w. w * second) (λ w. w) block_a_second-Ticks 3_000_002 3 7 (omega arith)
