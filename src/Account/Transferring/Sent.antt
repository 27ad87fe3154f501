-- ===== src/Account/Transferring/Sent.antt =====
-- The transactions that `transfer_forever` of tps-bench/src/account.rs sends.
use mathlib.Core.List.{append_assoc, append-nil}
use ckb_bench_archived.Base.{
  Outcome, ℕ, suc, ◌+◌, ◌%◌, ◌<◌, ◌≡◌, refl, sym, ap, ◌∙◌, List, [], ◌∷◌, ◌++◌, map, none, some,
  true, inl, inr, ok, length, Option-cases,
}
use ckb_bench_archived.Chain.{Byte32, TransactionView}
use ckb_bench_archived.Crypto.{Crypto}
use ckb_bench_archived.Utxo.{Utxo}
use ckb_bench_archived.Host.{Host}
use ckb_bench_archived.Transfer.{construct_unsigned_transaction, sign_transaction}
use ckb_bench_archived.Account.{Account}
use ckb_bench_archived.Config.{TransactionType, outputs_count}
use ckb_bench_archived.Benchmark.{Batch, no_batch, min_input_total_capacity, take_in, checked_rem}
use ckb_bench_archived.Benchmark.Batches.{gather, checked_rem_pos}
use ckb_bench_archived.Account.Transferring.{send_next, transfer_loop, is_over, transfer_forever}
use ckb_bench_archived.Net.{Net}

-- The channel delivers the cells of `queue` in order and is then closed; the senders take every
-- transaction, and `log` is what they have taken.
pub record Delivers {W : Type 0} (host : Host W) (queue : W → List Utxo)
    (log : W → List TransactionView) : Type 0 where
  pub clock : (w : W) → (queue (host.now w).1 ≡ queue w) × (log (host.now w).1 ≡ log w)
  pub closed :
      (w : W) → queue w ≡ [] → (w' : W) × (host.recv_utxo w ≡ (none, w')) × (log w' ≡ log w)
  pub next :
      (w : W) (utxo : Utxo) (utxos : List Utxo)
      → queue w ≡ utxo ∷ utxos
      → (w' : W) × (host.recv_utxo w ≡ (some utxo, w')) × (queue w' ≡ utxos) × (log w' ≡ log w)
  pub takes :
      (i : ℕ) (tx : TransactionView) (w : W)
      → (w' : W) × (host.send_tx i tx w ≡ (true, w'))
        × (queue w' ≡ queue w)
        × (log w' ≡ log w ++ tx ∷ [])

module _ {W : Type 0} (c : Crypto) (host : Host W) (dep_group_tx_hash : Outcome Byte32)
    (account recipient : Account) (transaction_type : TransactionType) (senders start_time : ℕ)
    (queue : W → List Utxo) (log : W → List TransactionView) (delivers : Delivers host queue log)
    (pos : 0 < senders) (pay : List Utxo → TransactionView)
    (pays : (inputs : List Utxo)
      → (raw : TransactionView) × (construct_unsigned_transaction c dep_group_tx_hash recipient
            inputs
            (outputs_count transaction_type)
          ≡ ok raw)
        × (sign_transaction c account raw ≡ ok (pay inputs))) where
  send_next-log :
      (inputs : List Utxo) (cursor : ℕ) (w : W)
      → (cursor' : ℕ) × (w' : W) × (send_next c host dep_group_tx_hash account recipient
            transaction_type senders none start_time inputs cursor w
          ≡ (ok (some cursor'), w'))
        × (queue w' ≡ queue w)
        × (log w' ≡ log w ++ pay inputs ∷ [])
  unfolding send_next is_over
  send_next-log inputs cursor w =
      let (raw, constructed, signed) = pays inputs in
      let index = (cursor + 1) % senders in
      let (w', took, same, logged) = delivers.takes index (pay inputs) w in
      let turned : checked_rem (cursor + 1) senders ≡ ok index =
        checked_rem_pos (cursor + 1) senders pos in
      (index, w', rw (constructed, signed, turned, took) refl, same, logged)

  abbrev min_total : ℕ
  min_total = min_input_total_capacity (outputs_count transaction_type)

  transfer_loop-log :
      (utxos : List Utxo) (cursor : ℕ) (batch : Batch) (w : W)
      → queue w ≡ utxos
      → (w' : W) × (transfer_loop c host dep_group_tx_hash account recipient transaction_type
            senders none start_time
            (suc (length utxos))
            cursor
            batch
            w
          ≡ (ok tt, w'))
        × (log w' ≡ log w ++ map pay (gather min_total utxos batch).0)
  unfolding transfer_loop
  transfer_loop-log [] cursor batch w empty =
      let (w', closed, same) = delivers.closed w empty in
      (w', rw closed refl, same ∙ sym (append-nil (log w)))
  transfer_loop-log (u ∷ us) cursor batch w here =
      let (w₁, received, left, same) = delivers.next w u us here in
      let taken = take_in min_total u batch in
      elim (Option-cases taken.0) [
        | inl few ↦
            let (w₂, ran, logged) = transfer_loop-log us cursor taken.1 w₁ left in
            (
              w₂,
              rw (received, few) ran,
              rw few (logged ∙ ap (λ l. l ++ map pay (gather min_total us taken.1).0) same),
            )
        | inr full ↦
            let (inputs, enough) = full in
            let (cursor', w₂, sent, left', one) = send_next-log inputs cursor w₁ in
            let (w₃, ran, logged) = transfer_loop-log us cursor' taken.1 w₂ (left' ∙ left) in
            (
              w₃,
              rw (received, enough, sent) ran,
              rw enough (
                  logged
                  ∙ ap (λ l. l ++ map pay (gather min_total us taken.1).0)
                      (one ∙ ap (λ l. l ++ pay inputs ∷ []) same)
                  ∙ append_assoc (log w) (pay inputs ∷ [])
                      (map pay (gather min_total us taken.1).0)),
            )
      ]

-- With at least one node, without a duration, and where every batch of inputs can be paid by a
-- signed transaction, `transfer_forever` returns once the channel is closed, and the senders have
-- taken one transaction for each batch of the received cells, in order.
pub transfer_forever-log :
    {W : Type 0} (c : Crypto) (host : Host W) (dep_group_tx_hash : Outcome Byte32)
    (account recipient : Account) (net : Net) (transaction_type : TransactionType)
    (queue : W → List Utxo) (log : W → List TransactionView) (pay : List Utxo → TransactionView)
    (w : W)
    → Delivers host queue log
    → 0 < length net.endpoints
    → ((inputs : List Utxo)
        → (raw : TransactionView) × (construct_unsigned_transaction c dep_group_tx_hash recipient
              inputs
              (outputs_count transaction_type)
            ≡ ok raw)
          × (sign_transaction c account raw ≡ ok (pay inputs)))
    → (w' : W) × (transfer_forever c host dep_group_tx_hash account recipient net transaction_type
          none
          (suc (length (queue w)))
          w
        ≡ (ok tt, w'))
      × (log w'
          ≡ log w
            ++ map pay
                (gather
                  (min_input_total_capacity (outputs_count transaction_type))
                  (queue w)
                  no_batch).0)
unfolding transfer_forever
transfer_forever-log c host dep_group_tx_hash account recipient net transaction_type queue log pay w
      delivers pos pays =
    let (start_time, w₁) = host.now w in
    let (same_queue, same_log) = delivers.clock w in
    let (w₂, ran, logged) =
      transfer_loop-log c host dep_group_tx_hash account recipient transaction_type
        (length net.endpoints) start_time queue log delivers pos pay pays (queue w) 0 no_batch w₁
        same_queue in
    (
      w₂,
      ran,
      logged
          ∙ ap
              (λ l.
                l
                ++ map pay
                    (gather (min_input_total_capacity (outputs_count transaction_type)) (queue w)
                      no_batch).0)
              same_log,
    )
