-- ===== src/Threads.antt =====
-- tps-bench/src/threads.rs: the threads of the program. The loops take a number of rounds; where it
-- runs out the outcome is `running`. The globals and the orders in which the maps are iterated are
-- arguments.
pub mod Capacity
pub mod Transfers
mod Resent
mod Tests
use Prim.Native.String.{String}
use ckb_bench_archived.Base.{
  ℕ, zero, suc, List, [], ◌∷◌, map, Bool, true, false, Option, none, some, Outcome, ok, panic,
  running, Action, if◌then◌else◌, ltb, sum_u64,
}
use ckb_bench_archived.Base.Effects.{pure, lift, ◌>>=◌, ◌>>◌}
use ckb_bench_archived.Chain.{Byte32, OutPoint, CellOutput, HeaderView}
use ckb_bench_archived.Crypto.{Crypto}
use ckb_bench_archived.HashMap.{HashMap, IterOrder}
use ckb_bench_archived.Utxo.{Utxo}
use ckb_bench_archived.Host.{Host}
use ckb_bench_archived.Rpc.{Inner, Jsonrpc, Handle}
use ckb_bench_archived.Rpc
use ckb_bench_archived.Net.{Net, first_endpoint, connect_all, get_confirmed_tip_header}
use ckb_bench_archived.Account.{Account}
use ckb_bench_archived.Account.Pull.{Cells, pull_until}
use ckb_bench_archived.Account.PullFrom.{pull_from_block_number, construct_utxo_vec}
use ckb_bench_archived.Account.Forever.{Following, pull_forever}
use ckb_bench_archived.Transfer.{construct_unsigned_transaction, sign_transaction}
use ckb_bench_archived.Miner.{Miner, generate_block, assert_block_assembler}

-- `get_total_capacity_from_utxo`
pub get_total_capacity_from_utxo : IterOrder OutPoint CellOutput → HashMap OutPoint CellOutput → ℕ
get_total_capacity_from_utxo order utxoset =
    sum_u64 (map (λ (e : OutPoint × CellOutput). e.1.capacity) (order.iter utxoset))

module _ {W : Type 0} (inner : Inner W) (c : Crypto) (host : Host W) (to_string : ℕ → String)
    (maturity confirmation_blocks : ℕ) (utxo_order : IterOrder OutPoint CellOutput)
    (order : IterOrder OutPoint (ℕ × CellOutput)) where
  -- `while total_capacity < config.ensure_matured_capacity_greater_than`
  pub mine_until : ℕ → ℕ → Account → Miner → Net → Cells → Action W Cells
  mine_until zero enough account miner net cells = lift running
  mine_until (suc rounds) enough account miner net cells =
      if ltb (get_total_capacity_from_utxo utxo_order cells.utxoset) enough
      then (do
        mined ← generate_block inner to_string miner
        elim mined [
          | none ↦ mine_until rounds enough account miner net cells
          | some block_number ↦
              pull_from_block_number inner c maturity account order net block_number cells
              >>= λ cells'. mine_until rounds enough account miner net cells'
        ])
      else pure cells

  -- `spawn_pull_utxos` up to the thread: the header that the thread goes on from, and the vectors.
  pub prepare_pull :
      ℕ
      → Handle
      → Option String
      → Option String
      → List String
      → ℕ
      → Account
      → Miner
      → Action W (Net × HeaderView × List Utxo × List (ℕ × Utxo))
  unfolding mine_until
  prepare_pull rounds handle user pass rpc_urls enough account miner = do
    net ← lift (connect_all handle user pass rpc_urls)
    current_header ← get_confirmed_tip_header inner confirmation_blocks net
    rpc ← lift (first_endpoint net)
    pulled ← pull_until inner c maturity account rpc current_header
    cells ← mine_until rounds enough account miner net pulled
    let (matureds, unmatureds) = construct_utxo_vec utxo_order order cells
    pure (net, current_header, matureds, unmatureds)

  -- `utxo_sender.send(utxo).unwrap()` for every cell
  send_matureds : List Utxo → Action W (Unit {0})
  send_matureds [] = pure tt
  send_matureds (utxo ∷ utxos) = do
    is_sent ← (λ w. let (is_sent, w') = host.send_utxo utxo w in (ok is_sent, w'))
    if is_sent then send_matureds utxos else lift (panic "send")

  -- The thread of `spawn_pull_utxos`.
  pub pull_thread :
      ℕ → Account → Net → HeaderView → List Utxo → List (ℕ × Utxo) → Action W (Unit {0})
  unfolding send_matureds
  pull_thread rounds account net current_header matureds unmatureds =
      send_matureds matureds
      >> pull_forever inner c host maturity account net rounds
          (record { current_header = current_header; unmatureds = unmatureds })

  -- The thread of `spawn_transfer_utxos`: each cell is spent by a transaction of its own.
  pub transfer_thread : ℕ → Outcome Byte32 → Account → Account → Net → Action W (Unit {0})
  transfer_thread zero dep_group_tx_hash sender recipient net = lift running
  transfer_thread (suc cells) dep_group_tx_hash sender recipient net = do
    received ← (λ w. let (received, w') = host.recv_utxo w in (ok received, w'))
    elim received [
      | none ↦ pure tt
      | some utxo ↦
          lift (construct_unsigned_transaction c dep_group_tx_hash recipient (utxo ∷ []) 1)
          >>= λ raw. lift (sign_transaction c sender raw) >>= λ signed.
              lift (first_endpoint net) >>= λ rpc.
              Rpc.send_transaction inner rpc signed
              >> transfer_thread cells dep_group_tx_hash sender recipient net
    ]

  -- The thread of `spawn_miner`, which never ends: the given number of its rounds.
  miner_thread : ℕ → Miner → Action W (Unit {0})
  miner_thread zero miner = lift running
  miner_thread (suc rounds) miner =
      (λ w. (ok tt, host.sleep miner.block_time w))
      >> generate_block inner to_string miner
      >> miner_thread rounds miner

-- The channels that `spawn_pull_utxos` makes: that of the miner's cells and that of the bencher's.
pub data Channel : Type 0 where
  miner_cells bencher_cells : Channel

-- A thread with all that its closure has taken.
pub data Thread : Type 0 where
  pulling : Account → Net → HeaderView → List Utxo → List (ℕ × Utxo) → Channel → Thread
  transferring : Outcome Byte32 → Account → Account → Net → Channel → Thread
  mining : Miner → Thread

-- What a thread does; each channel has its own side of the machine.
module _ {W : Type 0} (inner : Inner W) (c : Crypto) (hosts : Channel → Host W)
    (to_string : ℕ → String) (maturity confirmation_blocks : ℕ)
    (utxo_order : IterOrder OutPoint CellOutput) (order : IterOrder OutPoint (ℕ × CellOutput))
    (rounds : ℕ) where
  run_thread : Thread → Action W (Unit {0})
  unfolding pull_thread transfer_thread miner_thread
  run_thread (pulling account net current_header matureds unmatureds channel) =
      pull_thread inner c (hosts channel) to_string maturity confirmation_blocks utxo_order order
        rounds account net current_header matureds unmatureds
  run_thread (transferring dep_group_tx_hash sender recipient net channel) =
      transfer_thread inner c (hosts channel) to_string maturity confirmation_blocks utxo_order
        order rounds dep_group_tx_hash sender recipient net
  run_thread (mining miner) =
      miner_thread inner c (hosts bencher_cells) to_string maturity confirmation_blocks utxo_order
        order rounds miner

-- `std::thread::spawn`: the thread is started, and the caller goes on.
module _ {W : Type 0} (inner : Inner W) (c : Crypto) (host : Host W) (spawn : Thread → W → W)
    (to_string : ℕ → String) (maturity confirmation_blocks : ℕ)
    (utxo_order : IterOrder OutPoint CellOutput) (order : IterOrder OutPoint (ℕ × CellOutput))
    (rounds : ℕ) (handle : Handle) (user pass : Option String) where
  spawn_thread : Thread → Action W (Unit {0})
  spawn_thread thread w = (ok tt, spawn thread w)

  -- `spawn_pull_utxos`; the receiver that it returns is that of the channel.
  pub spawn_pull_utxos : Channel → List String → ℕ → Account → Miner → Action W (Unit {0})
  unfolding prepare_pull spawn_thread
  spawn_pull_utxos channel rpc_urls enough account miner = do
    (net, current_header, matureds, unmatureds) ←
        prepare_pull inner c host to_string maturity confirmation_blocks utxo_order order rounds
          handle user pass rpc_urls enough account miner
    spawn_thread (pulling account net current_header matureds unmatureds channel)

  -- `spawn_transfer_utxos`
  pub spawn_transfer_utxos :
      Channel → Outcome Byte32 → List String → Account → Account → Action W (Unit {0})
  unfolding spawn_thread
  spawn_transfer_utxos channel dep_group_tx_hash rpc_urls sender recipient = do
    net ← lift (connect_all handle user pass rpc_urls)
    spawn_thread (transferring dep_group_tx_hash sender recipient net channel)

  -- `spawn_miner`
  pub spawn_miner : Miner → Action W (Unit {0})
  unfolding spawn_thread
  spawn_miner miner =
      assert_block_assembler inner to_string c rounds miner >> spawn_thread (mining miner)
