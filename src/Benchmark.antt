-- ===== src/Benchmark.antt =====
-- tps-bench/src/benchmark.rs: one bench, and the search for the delay with the best throughput. The
-- loops take a number of rounds; where it runs out the outcome is `running`. Log lines are left out.
pub mod Batches
pub mod Search
pub mod Failing
pub mod Emitters
pub mod Loop
pub mod Emitted
mod Tests
use Prim.Native.String.{String}
use ckb_bench_archived.Float.{Float}
use ckb_bench_archived.Base.{
  ℕ, zero, suc, ◌+◌, ◌/◌, ◌%◌, List, [], ◌∷◌, ◌++◌, Bool, true, false, Option, some, none, Outcome,
  ok, panic, running, Action, if◌then◌else◌, ltb, ◌==◌, ◌||◌, length, add_u64, sub_u64, mul_u64,
  sum_u64,
}
use ckb_bench_archived.Base.Effects.{pure, lift, ◌>>=◌, ◌>>◌}
use ckb_bench_archived.Chain.{Byte32, TransactionView}
use ckb_bench_archived.Crypto.{Crypto}
use ckb_bench_archived.Global.{min_secp_cell_capacity}
use ckb_bench_archived.Util.{estimate_fee}
use ckb_bench_archived.Utxo.{Utxo, capacity}
use ckb_bench_archived.Account.{Account}
use ckb_bench_archived.Transfer.{construct_unsigned_transaction, sign_transaction}
use ckb_bench_archived.Host.{Host}
use ckb_bench_archived.Rpc.{Inner, Jsonrpc, answer, failed}
use ckb_bench_archived.Rpc
use ckb_bench_archived.Net.{Net, get_confirmed_tip_number}
use ckb_bench_archived.NetMonitor.{MethodToEvalNetStable, Metrics, checked_div}
use ckb_bench_archived.NetMonitor.Waiting.{sleep, wait_network_txpool_empty}
use ckb_bench_archived.Config.{TransactionType, BenchmarkConfig, outputs_count}

-- `inputs` and `input_total_capacity`
pub record Batch : Type 0 where
  pub inputs : List Utxo
  pub input_total_capacity : ℕ

abbrev pub no_batch : Batch
no_batch = record { inputs = []; input_total_capacity = 0 }

abbrev pub min_input_total_capacity : ℕ → ℕ
min_input_total_capacity outputs_count =
    add_u64 (mul_u64 outputs_count min_secp_cell_capacity) (estimate_fee outputs_count)

-- The loop up to `continue`, and `split_off(0)`: the inputs of a transaction if they are enough.
pub take_in : ℕ → Utxo → Batch → Option (List Utxo) × Batch
take_in min_total utxo batch =
    let inputs = batch.inputs ++ utxo ∷ [] in
    let total = add_u64 batch.input_total_capacity (capacity utxo) in
    if ltb total min_total
    then (none, record { inputs = inputs; input_total_capacity = total })
    else (some inputs, no_batch)

-- A remainder of machine words panics on a divisor of 0.
pub checked_rem : ℕ → ℕ → Outcome ℕ
checked_rem a b =
    if b == 0 then panic "attempt to calculate the remainder with a divisor of zero" else ok (a % b)

-- What a bench uses of its threads and of the recorder of metrics.
pub record BenchHost (W : Type 0) : Type 0 where
  -- the thread that runs `wait_network_stabled`, and one that runs an emitter
  pub spawn_monitor : Net → MethodToEvalNetStable → W → W
  pub spawn_transaction_emitters : Net → W → W
  -- `net_notifier.try_recv()`
  pub try_recv_metrics : W → Option Metrics × W
  -- the writes to `METRICS_RECORDER`, if it has been set
  pub write_metrics : ℕ → TransactionType → Metrics → W → W

module _ {W : Type 0} (host : Host W) (emitters : ℕ) where
  -- The loop of `try_send`: the emitters are tried in a circle; the result is the one that took it.
  pub try_emitters : ℕ → TransactionView → ℕ → Action W ℕ
  unfolding checked_rem
  try_emitters zero tx cursor = lift running
  try_emitters (suc rounds) tx cursor = do
    next ← lift (checked_rem (cursor + 1) emitters)
    taken ← (λ w. let (taken, w') = host.try_send_tx next tx w in (ok taken, w'))
    if taken then pure next else try_emitters rounds tx next

module _ {W : Type 0} (c : Crypto) (host : Host W) (bench_host : BenchHost W)
    (dep_group_tx_hash : Outcome Byte32) (sender recipient : Account)
    (transaction_type : TransactionType) (emitters : ℕ) (send_delay : ℕ) where
  -- The metrics, once they are there, are recorded.
  take_metrics : Action W (Option Metrics)
  take_metrics w =
      let (received, w') = bench_host.try_recv_metrics w in
      elim received [
        | none ↦ (ok none, w')
        | some metrics ↦
            (ok (some metrics), bench_host.write_metrics send_delay transaction_type metrics w')
      ]

  -- A transaction that spends `inputs`, from its construction to the look for metrics: the cursor,
  -- and the metrics if there are any.
  pub send_batch : ℕ → List Utxo → ℕ → Action W (ℕ × Option Metrics)
  unfolding take_metrics outputs_count try_emitters
  send_batch rounds inputs cursor = do
    raw_transaction ← lift (
        construct_unsigned_transaction c dep_group_tx_hash recipient inputs
          (outputs_count transaction_type))
    signed_transaction ← lift (sign_transaction c sender raw_transaction)
    cursor ← try_emitters host emitters rounds signed_transaction cursor
    (λ w. (ok tt, host.sleep send_delay w))
    metrics ← take_metrics
    pure (cursor, metrics)

  recv : Action W (Option Utxo)
  recv w = let (received, w') = host.recv_utxo w in (ok received, w')

  -- `while let Ok(utxo) = sender_utxo_rx.recv()`
  pub bench_loop : ℕ → ℕ → ℕ → Batch → Action W ℕ
  unfolding recv take_in send_batch
  bench_loop zero rounds cursor batch = lift running
  bench_loop (suc cells) rounds cursor batch = do
    received ← recv
    elim received [
      | none ↦ pure 0
      | some utxo ↦
          let (full, batch') =
            take_in (min_input_total_capacity (outputs_count transaction_type)) utxo batch in
          elim full [
            | none ↦ bench_loop cells rounds cursor batch'
            | some inputs ↦ send_batch rounds inputs cursor >>= λ sent. elim sent.1 [
              | none ↦ bench_loop cells rounds sent.0 batch'
              | some m ↦ pure m.tps
            ]
          ]
    ]

-- `min_send_delay`, `max_send_delay` with their throughputs, and `nearly_send_delay_tps`
pub record Bounds : Type 0 where
  pub min_send_delay : ℕ
  pub min_send_delay_tps : ℕ
  pub max_send_delay : ℕ
  pub max_send_delay_tps : ℕ
  pub nearly_send_delay_tps : List ℕ

-- The body of the search once the middle has been benched.
narrow : ℕ → ℕ → Bounds → Bounds
narrow mid_send_delay mid_send_delay_tps b =
    let nearly =
      if ltb (sub_u64 b.max_send_delay b.min_send_delay) 200
      then b.nearly_send_delay_tps ++ mid_send_delay_tps ∷ []
      else b.nearly_send_delay_tps in
    if ltb b.min_send_delay_tps b.max_send_delay_tps
    then record {
      min_send_delay = mid_send_delay;
      min_send_delay_tps = mid_send_delay_tps;
      max_send_delay = b.max_send_delay;
      max_send_delay_tps = b.max_send_delay_tps;
      nearly_send_delay_tps = nearly;
    }
    else record {
      min_send_delay = b.min_send_delay;
      min_send_delay_tps = b.min_send_delay_tps;
      max_send_delay = mid_send_delay;
      max_send_delay_tps = mid_send_delay_tps;
      nearly_send_delay_tps = nearly;
    }

module _ {W : Type 0} (bench : ℕ → Action W ℕ) where
  -- `while min_send_delay < max_send_delay - 1`
  pub search : ℕ → Bounds → Action W (List ℕ)
  unfolding narrow
  search zero b = lift running
  search (suc rounds) b =
      if ltb b.min_send_delay (sub_u64 b.max_send_delay 1)
      then (do
        let mid = add_u64 b.min_send_delay b.max_send_delay / 2
        tps ← bench mid
        search rounds (narrow mid tps b))
      else pure b.nearly_send_delay_tps

  -- `BenchmarkConfig::find_best_bench`, for a given bench
  pub find_best : ℕ → ℕ → Action W ℕ
  unfolding search checked_div
  find_best rounds send_delay = do
    min_tps ← bench send_delay
    max_delay ← lift (checked_div 1_000_000 min_tps)
    max_tps ← bench max_delay
    samples ← search rounds (record {
      min_send_delay = send_delay;
      min_send_delay_tps = min_tps;
      max_send_delay = max_delay;
      max_send_delay_tps = max_tps;
      nearly_send_delay_tps = [];
    })
    lift (checked_div (sum_u64 samples) (length samples))

module _ {W F : Type 0} (c : Crypto) (inner : Inner W) (host : Host W) (float : Float F)
    (serialized_size : TransactionView → ℕ) (bench_host : BenchHost W)
    (dep_group_tx_hash : Outcome Byte32) (confirmation_blocks : ℕ) (method : MethodToEvalNetStable)
    (rounds : ℕ) (config : BenchmarkConfig) (net : Net) (sender recipient : Account) where
  -- `self.method_to_eval_net_stable.unwrap_or_else(..)`; `method` is the global one.
  evaluation : MethodToEvalNetStable
  evaluation = elim config.method_to_eval_net_stable [ none ↦ method | some own ↦ own ]

  -- `BenchmarkConfig::bench`
  pub bench : ℕ → Action W ℕ
  unfolding evaluation bench_loop
  bench send_delay = do
    wait_network_txpool_empty inner host float serialized_size confirmation_blocks rounds net
    current_confirmed_tip ← get_confirmed_tip_number inner confirmation_blocks net
    (λ w. (ok tt, bench_host.spawn_monitor net evaluation w))
    (λ w. (ok tt, bench_host.spawn_transaction_emitters net w))
    bench_loop c host bench_host dep_group_tx_hash sender recipient config.transaction_type
        (length net.endpoints) send_delay rounds rounds 0 no_batch

  -- `BenchmarkConfig::find_best_bench`
  pub find_best_bench : Action W ℕ
  unfolding find_best
  find_best_bench = find_best bench rounds config.send_delay

-- The loop of an emitter around one transaction: it is sent again after a second as long as the
-- pool is full; any other error is ignored. `contains` is `str::contains`.
module _ {W : Type 0} (inner : Inner W) (host : Host W) (contains : String → String → Bool)
    (rpc : Jsonrpc) (tx : TransactionView) where
  pub emit : ℕ → Action W (Unit {0})
  emit zero w = (running, w)
  emit (suc rounds) w =
      let (reply, w') = Rpc.send_transaction_result inner rpc tx w in
      elim reply [
        | answer hash ↦ (ok tt, w')
        | failed errs ↦
            let again = emit rounds (host.sleep 1_000_000 w') in
            if contains errs "PoolIsFull" || contains errs "TransactionPoolFull"
            then again
            else (ok tt, w')
      ]
