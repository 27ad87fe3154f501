-- ===== src/Lib.antt =====
-- tps-bench, a benchmark of the transaction throughput of a CKB network (tps-bench/).
--
-- The program holds a configuration and a list of nodes that it talks to by JSON-RPC. A miner makes
-- blocks. A thread scans the chain for the cells of an account, and sends every cell that can be
-- spent into a channel. A bench receives these cells, makes of each batch a signed transaction, and
-- hands the transactions to one emitter for each node; beside it, a monitor waits until the network
-- is stable, and measures the blocks. A search over the delay between transactions looks for the
-- best throughput.
--
-- State and effects. A function that touches nothing outside returns an `Outcome`: a value, a
-- panic, an exit of the process, or `running` where a loop has not ended within the rounds that it
-- is given. Code with effects is an `Action W A`: a function of the world `W` that returns an
-- outcome and the next world. The nodes (`Rpc.Inner`), the clock, the channels and the threads
-- (`Host`, `Benchmark.BenchHost`) are records of functions on the world; a theorem that needs a
-- property of them has it as a hypothesis. The mutable globals of tps-bench/src/global.rs are
-- arguments. A `u64` wraps modulo 2 ^ 64, as in a release build; `%`, `/` by 0 and the failures of
-- `unwrap` and `expect` are panics.
--
-- Which file models what (paths under tps-bench/src):
--   Chain: the packed and core types of ckb_types that the program reads and builds.
--   Crypto: hashes, serialisation and secp256k1, a parameter with the law of signatures.
--   Global, Util, Utxo: global.rs, util.rs, utxo.rs.
--   HashMap: what is used of std's map; the order of iteration is an argument that permutes.
--   Rpc: rpc.rs; every method of `Jsonrpc` under its own name, over the macro's client. What the
--     transport does for a connection (`Connection`) is a function of the URI.
--   Host, Float: sleeping, clock and channels; the `f64` arithmetic of the metrics.
--   Account: account.rs, `new`, `lock_script` and `lock_hash`; in its children `is_matured`
--     (Maturity), `get_owned_utxos` (Owned), `pull_until` (Pull), `pull_from_block_number` and
--     `construct_utxo_vec` (PullFrom), `pull_forever` and `retry_send` (Forever, with a round of the
--     loop in Step, a chain that grows in Growth, any waiting cells in Conserved and a chain that is
--     re-organised in Reorg), and `transfer_forever` (Transferring).
--   Net: net.rs, with the agreement of nodes (Agreement) and the confirmed tip (Confirmed).
--   NetMonitor: net_monitor.rs, with the metrics of blocks (Measured, Empty) and the waiting loops
--     (Waiting, and a child for each kind of wait).
--   Config: config.rs, and the structs of miner.rs and benchmark.rs that it holds.
--   Transfer: transfer.rs, with the capacities (Capacity), the signature (Signing), and both for one
--     cell (Payment).
--   Benchmark: benchmark.rs, with the batches of cells (Batches), the emitters (Emitters), the loop of
--     a bench (Loop), and the search (Search, Failing).
--   GenesisInfo, Miner, Threads: genesis_info.rs (and `init_global_genesis_info` of main.rs),
--     miner.rs, threads.rs. Threads.Resent is a run of a thread that pulls cells.
--   Command: command.rs, the declared arguments and what is made of clap's matches (Modes: what is
--     returned).
--   Main: main.rs, over a record of all that the program uses of its surroundings (`Machine`), with
--     the modes (Modes, Measuring).
--   Base: shared names, lists, words, sorting, outcomes and actions. Samples: values for the tests.
--
-- Rounds. The loop over the blocks in `pull_until` and the descent in
-- `get_unconfirmed_fixed_tip_header` recurse on the list of numbers and on the number, and need no
-- bound. The loops that wait for the network (NetMonitor.Waiting, the emitters, the threads) have no
-- bound in the program either, and take the number of rounds as an argument. The search for the
-- best delay starts with at most 1,000,000 between its delays and halves this, so that 21 rounds
-- are enough.
--
-- The hash of the dependency group is a lazy global of the program: it is an outcome, fixed by the
-- genesis block (`sighash_all_dep_group_tx_hash`), which `construct_unsigned_transaction` asks for
-- where the program does.
--
-- Not modelled: log lines and the instants that only these read; locks and the interleaving of the
-- threads, each of which is a function of its own (`Threads.run_thread`), and which a world starts by
-- `spawn`; the transport of JSON-RPC, clap, TOML, the loggers and the exporter of metrics, which the
-- program only calls: a theorem that needs what clap has checked has it as a hypothesis. The scripts
-- of ansible and terraform.
pub mod Base
pub mod Chain
pub mod Crypto
pub mod Global
pub mod Util
pub mod Utxo
pub mod HashMap
pub mod Rpc
pub mod Host
pub mod Float
pub mod Net
pub mod NetMonitor
pub mod Config
pub mod Command
pub mod Benchmark
pub mod Account
pub mod Transfer
pub mod GenesisInfo
pub mod Miner
pub mod Threads
pub mod Main
pub mod Samples
