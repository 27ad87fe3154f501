-- ===== src/NetMonitor/Waiting.antt =====
-- The loops of tps-bench/src/net_monitor.rs that wait for the network. Each takes the number of
-- rounds that it may go on for. The global `CONFIRMATION_BLOCKS` is an argument.
pub mod Elapsed
pub mod Pools
pub mod Timed
pub mod Window
use ckb_bench_archived.Base.{
  ℕ, zero, suc, ◌-◌, ◌*◌, List, [], ◌∷◌, ◌++◌, map, Bool, true, false, Option, some, none, Outcome,
  ok, running, Action, unwrap, if◌then◌else◌, ltb, leb, ◌==◌, length, add_u64, not, ◌||◌,
}
use Prim.Native.Nat.{max, min}
use ckb_bench_archived.Base.Effects.{pure, lift, ◌>>=◌, ◌>>◌}
use ckb_bench_archived.Chain.{TransactionView, BlockView}
use ckb_bench_archived.Float.{Float}
use ckb_bench_archived.Host.{Host}
use ckb_bench_archived.Rpc.{Inner, Jsonrpc}
use ckb_bench_archived.Rpc
use ckb_bench_archived.Net.{Net, get_confirmed_tip_number, get_confirmed_tip_block}
use ckb_bench_archived.NetMonitor.{
  MethodToEvalNetStable, Metrics, recent_blocktxns_nearly, custom_blocks_elapsed, never, timed_task,
  eval_blocks, block_at_number,
}

abbrev pub second : ℕ
second = 1_000_000

-- `queue.pop_front()` and `queue.pop_back()`: the element, and what stays
abbrev pub pop_front : List BlockView → Option (BlockView × List BlockView)
pop_front [] = none
pop_front (b ∷ queue) = some (b, queue)

abbrev pub pop_back : List BlockView → Option (BlockView × List BlockView)
pop_back [] = none
pop_back (b ∷ []) = some (b, [])
pop_back (b ∷ c ∷ queue) = elim (pop_back (c ∷ queue)) [
  | none ↦ none
  | some (last, rest) ↦ some (last, b ∷ rest)
]

-- `queue.back()`
abbrev pub back : List BlockView → Option BlockView
back [] = none
back (b ∷ []) = some b
back (b ∷ c ∷ queue) = back (c ∷ queue)

-- `while queue.len() >= window { queue.pop_front(); }`: with a window of 0 it never ends.
pub trim : ℕ → List BlockView → Outcome (List BlockView)
trim window [] = if window == 0 then running else ok []
trim window (b ∷ queue) =
    let rest = trim window queue in if leb window (length (b ∷ queue)) then rest else ok (b ∷ queue)

-- `iter().min()` and `iter().max()`
abbrev pub min_of : List ℕ → Option ℕ
min_of [] = none
min_of (n ∷ ns) = elim (min_of ns) [ none ↦ some n | some m ↦ some (min n m) ]

abbrev pub max_of : List ℕ → Option ℕ
max_of [] = none
max_of (n ∷ ns) = elim (max_of ns) [ none ↦ some n | some m ↦ some (max n m) ]

module _ {W F : Type 0} (inner : Inner W) (host : Host W) (float : Float F)
    (serialized_size : TransactionView → ℕ) (confirmation_blocks : ℕ) where
  pub sleep : ℕ → Action W (Unit {0})
  sleep time w = (ok tt, host.sleep time w)

  pub now : Action W ℕ
  now w = let (t, w') = host.now w in (ok t, w')

  -- `while target > net.get_confirmed_tip_number() { sleep(1s) }`
  pub wait_for_tip : ℕ → Net → ℕ → Action W (Unit {0})
  unfolding sleep
  wait_for_tip zero net target = lift running
  wait_for_tip (suc rounds) net target = do
    tip ← get_confirmed_tip_number inner confirmation_blocks net
    if ltb tip target then sleep second >> wait_for_tip rounds net target else pure tt

  -- `wait_custom_blocks_elapsed`
  pub wait_custom_blocks_elapsed : ℕ → Net → ℕ → ℕ → Action W Metrics
  wait_custom_blocks_elapsed rounds net window warmup = do
    first_tip_number ← get_confirmed_tip_number inner confirmation_blocks net
    wait_for_tip rounds net (add_u64 first_tip_number warmup)
    current_tip_number ← get_confirmed_tip_number inner confirmation_blocks net
    wait_for_tip rounds net (add_u64 current_tip_number window)
    eval_blocks inner float serialized_size net current_tip_number
        (add_u64 current_tip_number window)

  -- The inner loop of `wait_recent_blocktxns_nearly`: the queue with the next block.
  pub next_block : ℕ → Net → ℕ → List BlockView → Action W (List BlockView)
  unfolding sleep trim
  next_block zero net window queue = lift running
  next_block (suc rounds) net window queue = do
    tip_number ← get_confirmed_tip_number inner confirmation_blocks net
    last ← lift (unwrap (back queue) "back")
    if ltb last.number tip_number
        then (do
          block ← block_at_number inner float serialized_size net (add_u64 last.number 1)
          trimmed ← lift (trim window queue)
          pure (trimmed ++ block ∷ []))
        else (sleep second >> next_block rounds net window queue)

  -- What the outer loop does with a full queue: the metrics and whether they count, and the rest of
  -- the queue.
  pub eval_window : Net → ℕ → List BlockView → Action W (Metrics × Bool × List BlockView)
  eval_window net margin queue = do
    (front, queue) ← lift (unwrap (pop_front queue) "pop_front")
    (last, queue) ← lift (unwrap (pop_back queue) "pop_back")
    metrics ← eval_blocks inner float serialized_size net front.number last.number
    mintxns ← lift (unwrap (min_of (map (λ b. length b.transactions) queue)) "min")
    maxtxns ← lift (unwrap (max_of (map (λ b. length b.transactions) queue)) "max")
    pure (metrics, leb maxtxns (add_u64 mintxns margin), queue)

  -- The outer loop of `wait_recent_blocktxns_nearly`.
  pub recent_loop : ℕ → ℕ → Net → ℕ → ℕ → List BlockView → Action W Metrics
  unfolding next_block eval_window
  recent_loop zero rounds net window margin queue = lift running
  recent_loop (suc outer) rounds net window margin queue = do
    queue ← next_block rounds net window queue
    if leb window (length queue)
        then (do
          (metrics, nearly, queue) ← eval_window net margin queue
          if nearly then pure metrics else recent_loop outer rounds net window margin queue)
        else recent_loop outer rounds net window margin queue

  -- `wait_recent_blocktxns_nearly`
  pub wait_recent_blocktxns_nearly : ℕ → ℕ → Net → ℕ → ℕ → Action W Metrics
  unfolding recent_loop
  wait_recent_blocktxns_nearly outer rounds net window margin = do
    block ← get_confirmed_tip_block inner confirmation_blocks net
    recent_loop outer rounds net window margin (block ∷ [])

  -- `while start_time.elapsed() <= duration { sleep(1s) }`
  pub wait_until_elapsed : ℕ → ℕ → ℕ → Action W (Unit {0})
  unfolding sleep now
  wait_until_elapsed zero start_time duration = lift running
  wait_until_elapsed (suc rounds) start_time duration = do
    time ← now
    if leb (time - start_time) duration
        then sleep second >> wait_until_elapsed rounds start_time duration
        else pure tt

  -- `wait_duration_time_elapsed`
  pub wait_duration_time_elapsed : ℕ → Net → ℕ → Action W Metrics
  wait_duration_time_elapsed rounds net duration_time = do
    first_tip_number ← get_confirmed_tip_number inner confirmation_blocks net
    start_time ← now
    wait_until_elapsed rounds start_time (duration_time * second)
    last_tip_number ← get_confirmed_tip_number inner confirmation_blocks net
    eval_blocks inner float serialized_size net first_tip_number last_tip_number

  -- `wait_network_stabled`; the method `never` waits for ever.
  pub wait_network_stabled : ℕ → ℕ → Net → MethodToEvalNetStable → Action W Metrics
  wait_network_stabled outer rounds net (recent_blocktxns_nearly window margin) =
      wait_recent_blocktxns_nearly outer rounds net window margin
  wait_network_stabled outer rounds net (custom_blocks_elapsed warmup window) =
      wait_custom_blocks_elapsed rounds net window warmup
  wait_network_stabled outer rounds net never = lift running
  wait_network_stabled outer rounds net (timed_task duration_time) =
      wait_duration_time_elapsed rounds net duration_time

  -- `is_network_txpool_empty`
  pub all_txpools_empty : List Jsonrpc → Action W Bool
  all_txpools_empty [] = pure true
  all_txpools_empty (rpc ∷ rpcs) = do
    tx_pool_info ← Rpc.tx_pool_info inner rpc
    if not (tx_pool_info.pending == 0) || not (tx_pool_info.proposed == 0)
        then pure false
        else all_txpools_empty rpcs

  -- `wait_network_txpool_empty`
  pub wait_network_txpool_empty : ℕ → Net → Action W (Unit {0})
  unfolding all_txpools_empty sleep
  wait_network_txpool_empty zero net = lift running
  wait_network_txpool_empty (suc rounds) net = do
    is_empty ← all_txpools_empty net.endpoints
    if is_empty then pure tt else (sleep second >> wait_network_txpool_empty rounds net)
