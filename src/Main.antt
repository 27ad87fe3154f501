-- ===== src/Main.antt =====
-- tps-bench/src/main.rs: the three modes of the program, each from its configuration to its end, and
-- the initialisation before them. A log line is left out; a file, a logger and the exporter of metrics
-- are calls of the machine.
pub mod Modes
pub mod Measuring
mod Tests
use Prim.Native.String.{String}
use ckb_bench_archived.Base.{
  ℕ, List, [], ◌∷◌, map, Bool, true, false, Option, none, some, Outcome, ok, panic, exit, running,
  Action, unwrap, ite, if◌then◌else◌,
}
use ckb_bench_archived.Base.Effects.{pure, lift, for_each, ◌>>=◌, ◌>>◌}
use ckb_bench_archived.Chain.{Byte32, OutPoint, CellOutput, TransactionView, Script-discrete}
use ckb_bench_archived.Crypto.{Crypto}
use ckb_bench_archived.Float.{Float}
use ckb_bench_archived.Host.{Host}
use ckb_bench_archived.HashMap.{IterOrder}
use ckb_bench_archived.Rpc.{Inner, Handle}
use ckb_bench_archived.Rpc
use ckb_bench_archived.Net.{Net, connect_all, get_confirmed_tip_number}
use ckb_bench_archived.NetMonitor.{Metrics, eval_blocks}
use ckb_bench_archived.Config.{
  Config, Spec, Globals, BenchmarkConfig, in2_out2, url_texts, log_path, metrics_path,
}
use ckb_bench_archived.Command.{CommandLine, mine_mode, bench_mode, metric_mode}
use ckb_bench_archived.Benchmark.{BenchHost, bench, find_best_bench}
use ckb_bench_archived.Account
use ckb_bench_archived.Account.{Account, lock_script}
use ckb_bench_archived.GenesisInfo.{
  GenesisInfo, init_global_genesis_info, sighash_all_dep_group_tx_hash,
}
use ckb_bench_archived.Miner
use ckb_bench_archived.Miner.{Miner, generate_blocks}
use ckb_bench_archived.Threads.{
  Channel, miner_cells, bencher_cells, Thread, spawn_pull_utxos, spawn_transfer_utxos, spawn_miner,
}

-- All that the program uses of its surroundings; a call that may fail says whether it did not.
pub record Machine (W F Url : Type 0) : Type 0 where
  pub crypto : Crypto
  pub inner : Inner W
  pub hosts : Channel → Host W
  pub bench_host : BenchHost W
  pub float : Float F
  pub serialized_size : TransactionView → ℕ
  pub to_string : ℕ → String
  pub as_str : Url → String
  pub join : String → String → String
  pub utxo_order : IterOrder OutPoint CellOutput
  pub order : IterOrder OutPoint (ℕ × CellOutput)
  pub handle : Handle
  pub user : Option String
  pub pass : Option String
  pub spawn : Thread → W → W
  -- `OpenOptions::open` to append, `canonicalize`, and `CombinedLogger::init`
  pub open_append : String → W → Bool × W
  pub canonicalize : String → W → Option String × W
  pub init_combined_logger : W → Bool × W
  -- the assignment to `METRICS_RECORDER`
  pub set_metrics_recorder : String → W → W
  -- `parse::<SocketAddr>` and the exporter that serves an address
  pub parse_address : String → Option String
  pub serve_metrics : String → W → Bool × W
  -- `println!` of a throughput and of metrics
  pub println_tps : ℕ → W → W
  pub println_metrics : Metrics → W → W
  -- the rounds of every loop that waits
  pub rounds : ℕ

module _ {W F Url : Type 0} (m : Machine W F Url) where
  unwrap_call : String → (W → Bool × W) → Action W (Unit {0})
  unwrap_call reason call w =
      let (is_done, w') = call w in (if is_done then ok tt else panic reason, w')

  canonical : String → Action W String
  canonical path w = let (found, w') = m.canonicalize path w in (unwrap found "canonicalize", w')

  -- `init_logger`
  init_logger : Config Url → Action W (Unit {0})
  unfolding unwrap_call canonical
  init_logger config = do
    let path = log_path m.join config.spec
    unwrap_call "open" (m.open_append path)
    unwrap_call "init" m.init_combined_logger
    abs_path ← canonical path
    same_path ← canonical abs_path
    pure tt

  -- `init_metrics_recorder`
  init_metrics_recorder : Config Url → Action W (Unit {0})
  unfolding unwrap_call canonical
  init_metrics_recorder config = do
    let path = metrics_path m.join config.spec
    unwrap_call "open" (m.open_append path)
    (λ w. (ok tt, m.set_metrics_recorder path w))
    abs_path ← canonical path
    pure tt

  -- `init_metrics`
  init_metrics : Config Url → Action W (Unit {0})
  unfolding unwrap_call
  init_metrics config = elim config.metrics_url [
    | none ↦ pure tt
    | some metrics_url ↦ (do
      listen ← lift (unwrap (m.parse_address metrics_url) "parse")
      unwrap_call "exporter" (m.serve_metrics listen))
  ]

  -- `init_global_genesis_info`, from the first URL
  init_genesis : List String → Action W GenesisInfo
  init_genesis [] = lift (panic "index out of bounds")
  init_genesis (url ∷ urls) = do
    rpc ← lift (Rpc.connect m.handle m.user m.pass url)
    init_global_genesis_info m.inner rpc

  -- The mode `MineMode`.
  mine : Config Url → ℕ → Action W (Unit {0})
  unfolding init_logger init_genesis
  mine config blocks = do
    let rpc_urls = url_texts m.as_str config
    init_logger config
    info ← init_genesis rpc_urls
    miner ← lift (Miner.new m.crypto m.handle m.user m.pass config.miner rpc_urls)
    generate_blocks m.inner m.to_string miner blocks

  -- The mode `MetricMode`.
  measure : ℕ → List String → Action W (Unit {0})
  measure confirmation_blocks rpc_urls = do
    net ← lift (connect_all m.handle m.user m.pass rpc_urls)
    tip_block_number ← get_confirmed_tip_number m.inner confirmation_blocks net
    result ← eval_blocks m.inner m.float m.serialized_size net 1 tip_block_number
    (λ w. (ok tt, m.println_metrics result w))

  -- The configuration of the search for the best throughput.
  abbrev best_config : BenchmarkConfig
  best_config = record {
    transaction_type = in2_out2;
    send_delay = 0;
    method_to_eval_net_stable = none;
  }

  module _ (globals : Globals) (config : Config Url) (dep_group_tx_hash : Outcome Byte32) where
    abbrev bencher_host : Host W
    bencher_host = m.hosts bencher_cells

    -- The calls of `spawn_pull_utxos` and `spawn_transfer_utxos`: the miner's cells go to the
    -- bencher, if these are two accounts, and the bencher's cells to the benches.
    spawn_threads : Account → Miner → Action W (Unit {0})
    spawn_threads bencher miner = do
      let rpc_urls = url_texts m.as_str config
      let pull : Channel → Account → Action W (Unit {0}) = λ channel account.
          spawn_pull_utxos m.inner m.crypto bencher_host m.spawn m.to_string
            globals.cellbase_maturity globals.confirmation_blocks m.utxo_order m.order m.rounds
            m.handle m.user m.pass channel rpc_urls config.ensure_matured_capacity_greater_than
            account miner
      miner_lock ← lift (lock_script m.crypto miner.account)
      bencher_lock ← lift (lock_script m.crypto bencher)
      ite (Script-discrete miner_lock bencher_lock) (pure tt) (
          pull miner_cells miner.account
          >> spawn_transfer_utxos m.inner m.crypto bencher_host m.spawn m.to_string
              globals.cellbase_maturity globals.confirmation_blocks m.utxo_order m.order m.rounds
              m.handle m.user m.pass miner_cells dep_group_tx_hash rpc_urls miner.account bencher)
      pull bencher_cells bencher

    -- The benches of the configuration, in order, and the search for the best throughput.
    run_benches : Net → Account → Bool → Action W (Unit {0})
    run_benches net bencher skip_best_tps_caculation = do
      for_each config.benchmarks
          (λ benchmark done.
            bench m.crypto m.inner bencher_host m.float m.serialized_size m.bench_host
              dep_group_tx_hash globals.confirmation_blocks globals.method_to_eval_net_stable
              m.rounds benchmark net bencher bencher benchmark.send_delay
            >> pure tt)
          tt
      if skip_best_tps_caculation then pure tt else (do
        best_tps ←
            find_best_bench m.crypto m.inner bencher_host m.float m.serialized_size m.bench_host
              dep_group_tx_hash globals.confirmation_blocks globals.method_to_eval_net_stable
              m.rounds best_config net bencher bencher
        (λ w. (ok tt, m.println_tps best_tps w)))

  -- The mode `BenchMode`. The hash of the dependency group, a lazy global, is an outcome that
  -- each transaction asks for: it panics, if at all, where the first one is made.
  bench_all : Globals → Config Url → Bool → Action W (Unit {0})
  unfolding init_logger init_metrics_recorder init_metrics init_genesis spawn_threads run_benches
  bench_all globals config skip_best_tps_caculation = do
    let rpc_urls = url_texts m.as_str config
    init_logger config
    init_metrics_recorder config
    init_metrics config
    info ← init_genesis rpc_urls
    let dep_group_tx_hash = sighash_all_dep_group_tx_hash info
    net ← lift (connect_all m.handle m.user m.pass rpc_urls)
    bencher ← lift (Account.new m.crypto config.bencher_private_key)
    miner ← lift (Miner.new m.crypto m.handle m.user m.pass config.miner rpc_urls)
    spawn_miner m.inner m.crypto (m.hosts bencher_cells) m.spawn m.to_string
        globals.cellbase_maturity globals.confirmation_blocks m.utxo_order m.order m.rounds m.handle
        m.user m.pass miner
    spawn_threads globals config dep_group_tx_hash bencher miner
    run_benches globals config dep_group_tx_hash net bencher skip_best_tps_caculation

  -- `main`, from the command line; `globals` are the globals after it.
  pub main : Globals → CommandLine Url → Action W (Unit {0})
  unfolding mine bench_all measure
  main globals (mine_mode config blocks) = mine config blocks
  main globals (bench_mode config skip) = bench_all globals config skip
  main globals (metric_mode rpc_urls) = measure globals.confirmation_blocks (map m.as_str rpc_urls)
