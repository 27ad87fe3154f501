-- ===== src/Benchmark/Loop/Tests.antt =====
-- Tests and witnesses of the loop of a bench and of its emitters.
use ckb_bench_archived.Base.{
  ℕ, ◌≡◌, ◌<◌, ◌==◌, refl, [], ◌∷◌, ◌++◌, Bool, true, false, leb, Option, some, none, ok,
  if◌then◌else◌, length, arith,
}
use ckb_bench_archived.Host.{Host}
use ckb_bench_archived.NetMonitor.{Metrics}
use ckb_bench_archived.Config.{in2_out2, outputs_count}
use ckb_bench_archived.Benchmark.{
  BenchHost, no_batch, min_input_total_capacity, try_emitters, bench_loop,
}
use ckb_bench_archived.Benchmark.Batches.{gather}
use ckb_bench_archived.Benchmark.Emitters.{Emits, IsTaken, try_emitters-IsTaken}
use ckb_bench_archived.Benchmark.Loop.{Feeds, benched, bench_loop-IsBenched}
use ckb_bench_archived.Account.Transferring.Tests.{Pipe, pipe, pay, pay-pays, three_cells}
use ckb_bench_archived.Samples.{toy_crypto, alice, payment_at}

-- Of two emitters the second one takes transactions.
abbrev busy : Pipe → ℕ → Bool
busy w i = i == 0

abbrev two_emitters : Host Pipe
two_emitters = record pipe {
  try_send_tx = λ i tx (queue, log).
      if i == 0 then (false, (queue, log)) else (true, (queue, log ++ tx ∷ []));
}

abbrev metrics : Metrics
metrics = record {
  tps = 321;
  average_block_time_ms = 8000;
  average_block_transactions = 1;
  start_block_number = 1;
  end_block_number = 2;
  network_nodes = 1;
  bench_nodes = 1;
  total_transactions_size = 200;
}

-- Metrics are there from the second transaction on.
abbrev notice : ℕ → Option Metrics
notice n = if leb 2 n then some metrics else none

abbrev monitor : BenchHost Pipe
monitor = record {
  spawn_monitor = λ net method w. w;
  spawn_transaction_emitters = λ net w. w;
  try_recv_metrics = λ w. (notice (length w.1), w);
  write_metrics = λ delay kind m w. w;
}

two_emitters-Emits : Emits two_emitters 2 busy (λ w. w.0) (λ w. w.1)
two_emitters-Emits = record {
  refuses = λ i tx w refused. (w, rw refused refl, λ j. refl, refl, refl);
  takes = λ i tx w free. ((w.0, w.1 ++ tx ∷ []), rw free refl, refl, refl);
  free = λ w. (1, omega arith, refl);
}

monitor-Feeds : Feeds two_emitters monitor (λ w. w.0) (λ w. w.1) notice
monitor-Feeds = record {
  closed = λ w e. (([], w.1), rw e refl, refl);
  next = λ w u us e. ((us, w.1), rw e refl, refl, refl);
  sleeps = λ time w. (refl, refl);
  notices = λ w. (w, refl, refl, refl);
  writes = λ delay kind m w. refl;
}

bench_loop-IsBenched_example :
    let (tps, txs) =
      benched notice pay 0
        (gather (min_input_total_capacity (outputs_count in2_out2)) three_cells no_batch).0 in
    (w' : Pipe) × (bench_loop toy_crypto two_emitters monitor
        (ok 9)
        alice
        alice
        in2_out2
        2
        100
        4
        2
        0
        no_batch
        (three_cells, [])
      ≡ (ok tps, w'))
    × (w'.1 ≡ [] ++ txs)
bench_loop-IsBenched_example =
    bench_loop-IsBenched toy_crypto two_emitters monitor (ok 9) alice alice in2_out2 2 100 busy
      (λ w. w.0) (λ w. w.1) notice two_emitters-Emits monitor-Feeds pay pay-pays 4 2
      (three_cells, []) (omega arith) (omega arith)

try_emitters-IsTaken_example :
    (cursor' : ℕ) × (w' : Pipe) × (try_emitters two_emitters 2 2 (payment_at 5) 1 (three_cells, [])
      ≡ (ok cursor', w'))
    × (cursor' < 2)
    × IsTaken two_emitters 2 busy
        (λ w. w.0)
        (λ w. w.1)
        two_emitters-Emits
        (payment_at 5)
        (three_cells, [])
        w'
try_emitters-IsTaken_example =
    try_emitters-IsTaken two_emitters 2 busy (λ w. w.0) (λ w. w.1) two_emitters-Emits (payment_at 5)
      2 1 (three_cells, []) (omega arith) (omega arith)
