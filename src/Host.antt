-- ===== src/Host.antt =====
-- What the sources use of the machine: the clock, sleeping, and the bounded channels between
-- threads (std::thread, std::time, crossbeam_channel). All of it acts on the world.
use ckb_bench_archived.Base.{ℕ, Bool, Option}
use ckb_bench_archived.Chain.{TransactionView}
use ckb_bench_archived.Utxo.{Utxo}

-- Time is in microseconds. A call that blocks returns when the world has moved on.
pub record Host (W : Type 0) : Type 0 where
  -- `thread::sleep`
  pub sleep : ℕ → W → W
  -- `Instant::now`
  pub now : W → ℕ × W
  -- `utxo_sender.send(utxo)`: false if the receiver is gone
  pub send_utxo : Utxo → W → Bool × W
  -- `utxo_receiver.recv()`: none if the sender is gone
  pub recv_utxo : W → Option Utxo × W
  -- `senders[cursor].send(tx)` and `try_send(tx)`: whether the transaction was taken
  pub send_tx : ℕ → TransactionView → W → Bool × W
  pub try_send_tx : ℕ → TransactionView → W → Bool × W
