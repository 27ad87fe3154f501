-- ===== src/Threads/Transfers.antt =====
-- The thread of `spawn_transfer_utxos` in tps-bench/src/threads.rs.
use Prim.Native.String.{String}
use mathlib.Core.List.{append_assoc, append-nil}
use ckb_bench_archived.Base.{
  ℕ, zero, suc, ◌+◌, ◌*◌, ◌≤◌, ◌<◌, ◌≡◌, refl, ap, ◌∙◌, sym, List, [], ◌∷◌, ◌++◌, some, none, ok,
  length, All, u64_mod, arith,
}
use ckb_bench_archived.Chain.{Byte32, Bytes, Script, OutPoint, CellOutput, TransactionView}
use ckb_bench_archived.Crypto.{Crypto, RecoversSigner}
use ckb_bench_archived.Global.{min_secp_cell_capacity}
use ckb_bench_archived.Util.{estimate_fee}
use ckb_bench_archived.Utxo.{Utxo, capacity}
use ckb_bench_archived.Host.{Host}
use ckb_bench_archived.HashMap.{IterOrder}
use ckb_bench_archived.Rpc.{Inner, Jsonrpc, answer}
use ckb_bench_archived.Net.{first_endpoint}
use ckb_bench_archived.Account.{Account, lock_script}
use ckb_bench_archived.Transfer.Payment.{IsPayment, IsPayment-made}
use ckb_bench_archived.Threads.{transfer_thread}

-- The channel delivers the cells of `queue` in order and is then closed; the node takes every
-- transaction, and `log` is what it has taken.
pub record Relays {W : Type 0} (inner : Inner W) (host : Host W) (rpc : Jsonrpc)
    (queue : W → List Utxo) (log : W → List TransactionView) : Type 0 where
  pub closed :
      (w : W) → queue w ≡ [] → (w' : W) × (host.recv_utxo w ≡ (none, w')) × (log w' ≡ log w)
  pub next :
      (w : W) (utxo : Utxo) (utxos : List Utxo)
      → queue w ≡ utxo ∷ utxos
      → (w' : W) × (host.recv_utxo w ≡ (some utxo, w')) × (queue w' ≡ utxos) × (log w' ≡ log w)
  pub takes :
      (tx : TransactionView) (w : W)
      → (hash : Byte32) × (w' : W) × (inner.send_transaction rpc.uri tx w ≡ (answer hash, w'))
        × (queue w' ≡ queue w)
        × (log w' ≡ log w ++ tx ∷ [])

-- One payment for each cell, in order.
abbrev pub ArePayments : Crypto → Bytes → Script → List Utxo → List TransactionView → Type 0
ArePayments c public lock [] [] = Unit {0}
ArePayments c public lock (utxo ∷ utxos) (tx ∷ txs) =
    IsPayment c public lock utxo tx × ArePayments c public lock utxos txs
ArePayments c public lock _ _ = ⊥

-- The cell can be paid: it holds the fee and the least capacity of an output.
abbrev pub CanPay : Utxo → Type 0
CanPay utxo =
    (1 * min_secp_cell_capacity + estimate_fee 1 ≤ capacity utxo) × (capacity utxo < u64_mod)

module _ {W : Type 0} (inner : Inner W) (c : Crypto) (host : Host W) (to_string : ℕ → String)
    (maturity confirmation_blocks : ℕ) (utxo_order : IterOrder OutPoint CellOutput)
    (order : IterOrder OutPoint (ℕ × CellOutput)) (dep_group_tx_hash : Byte32)
    (sender recipient : Account) (rpc : Jsonrpc) (rpcs : List Jsonrpc) (queue : W → List Utxo)
    (log : W → List TransactionView) {lock : Script} {public : Bytes} where
  -- There is the hash of the dependency group; the recipient has a lock, and the sender a key
  -- that signs; the node takes every transaction; and each cell of the channel holds the fee and
  -- the least capacity. Then, given more rounds than there are cells, the thread ends once the
  -- channel is closed, and the node has taken for each cell, in order, a signed transaction that
  -- spends this cell alone and pays all but the fee to the recipient.
  pub transfer_thread-ArePayments :
      lock_script c recipient ≡ ok lock
      → RecoversSigner c
      → c.pubkey sender.privkey ≡ some public
      → ((message : Bytes)
          → (signature : Bytes) × (c.sign_recoverable sender.privkey message ≡ some signature))
      → Relays inner host rpc queue log
      → (cells : ℕ) (utxos : List Utxo) (w : W) → queue w ≡ utxos
      → length utxos < cells
      → All CanPay utxos
      → (txs : List TransactionView) × (w' : W) × (transfer_thread inner c host to_string maturity
            confirmation_blocks utxo_order order cells
            (ok dep_group_tx_hash)
            sender
            recipient
            (record { endpoints = rpc ∷ rpcs })
            w
          ≡ (ok tt, w'))
        × (log w' ≡ log w ++ txs)
        × ArePayments c public lock utxos txs
  unfolding transfer_thread first_endpoint
  transfer_thread-ArePayments known law key signs relays zero utxos w here many can =
      absurd (omega arith)
  transfer_thread-ArePayments known law key signs relays (suc cells) [] w here many can =
      let (w', closed, same) = relays.closed w here in
      ([], w', rw closed refl, same ∙ sym (append-nil (log w)), tt)
  transfer_thread-ArePayments known law key signs relays (suc cells) (u ∷ us) w here many can =
      let (w₁, received, left, same) = relays.next w u us here in
      let (raw, tx, made, sealed, payment) =
        IsPayment-made c dep_group_tx_hash sender recipient known law key signs u can.0.0 can.0.1 in
      let (hash, w₂, sent, left₂, logged) = relays.takes tx w₁ in
      let (txs, w₃, ran, logged₃, payments) =
        transfer_thread-ArePayments known law key signs relays cells us w₂ (left₂ ∙ left)
          (omega arith) can.1 in
      (
        tx ∷ txs,
        w₃,
        rw (received, made, sealed, sent) ran,
        logged₃
            ∙ ap (λ l. l ++ txs) (logged ∙ ap (λ l. l ++ tx ∷ []) same)
            ∙ append_assoc (log w) (tx ∷ []) txs,
        (payment, payments),
      )
