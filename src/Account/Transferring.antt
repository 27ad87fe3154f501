-- ===== src/Account/Transferring.antt =====
-- `Account::transfer_forever` of tps-bench/src/account.rs: the cells of a channel are spent in
-- batches, and the transactions go to the senders of the nodes in turn. The cells that it may receive
-- are bounded; where they run out the outcome is `running`.
pub mod Sent
pub mod Tests
use ckb_bench_archived.Base.{
  ℕ, zero, suc, ◌+◌, ◌-◌, List, Bool, true, false, Option, some, none, Outcome, ok, running, Action,
  if◌then◌else◌, ltb, length,
}
use ckb_bench_archived.Base.Effects.{pure, lift, ◌>>=◌, ◌>>◌}
use ckb_bench_archived.Chain.{Byte32, TransactionView}
use ckb_bench_archived.Crypto.{Crypto}
use ckb_bench_archived.Utxo.{Utxo}
use ckb_bench_archived.Host.{Host}
use ckb_bench_archived.Net.{Net}
use ckb_bench_archived.Transfer.{construct_unsigned_transaction, sign_transaction}
use ckb_bench_archived.Account.{Account}
use ckb_bench_archived.Config.{TransactionType, outputs_count}
use ckb_bench_archived.Benchmark.{Batch, no_batch, min_input_total_capacity, take_in, checked_rem}

module _ {W : Type 0} (c : Crypto) (host : Host W) (dep_group_tx_hash : Outcome Byte32)
    (account recipient : Account) (transaction_type : TransactionType) (senders : ℕ)
    (duration : Option ℕ) (start_time : ℕ) where
  -- `duration.map(|d| start_time.elapsed() > d).unwrap_or(false)`
  is_over : Action W Bool
  is_over w = elim duration [
    | none ↦ (ok false, w)
    | some d ↦ let (time, w') = host.now w in (ok (ltb d (time - start_time)), w')
  ]

  -- What follows once the inputs are enough: the cursor, or none where the loop breaks.
  pub send_next : List Utxo → ℕ → Action W (Option ℕ)
  unfolding is_over
  send_next inputs cursor = do
    raw_transaction ← lift (
        construct_unsigned_transaction c dep_group_tx_hash recipient inputs
          (outputs_count transaction_type))
    signed_transaction ← lift (sign_transaction c account raw_transaction)
    next ← lift (checked_rem (cursor + 1) senders)
    is_sent ← (λ w. let (is_sent, w') = host.send_tx next signed_transaction w in (ok is_sent, w'))
    if is_sent then (do over ← is_over; pure (if over then none else some next)) else pure none

  pub transfer_loop : ℕ → ℕ → Batch → Action W (Unit {0})
  unfolding send_next
  transfer_loop zero cursor batch = lift running
  transfer_loop (suc cells) cursor batch = do
    received ← (λ w. let (received, w') = host.recv_utxo w in (ok received, w'))
    elim received [
      | none ↦ pure tt
      | some utxo ↦
          let (full, batch') =
            take_in (min_input_total_capacity (outputs_count transaction_type)) utxo batch in
          elim full [
            | none ↦ transfer_loop cells cursor batch'
            | some inputs ↦ send_next inputs cursor >>= λ next. elim next [
              | none ↦ pure tt
              | some cursor' ↦ transfer_loop cells cursor' batch'
            ]
          ]
    ]

-- `Account::transfer_forever`; the threads of the senders are `host.send_tx` and `retry_send`.
pub transfer_forever :
    {W : Type 0}
    → Crypto
    → Host W
    → Outcome Byte32
    → Account
    → Account
    → Net
    → TransactionType
    → Option ℕ
    → ℕ
    → Action W (Unit {0})
unfolding transfer_loop
transfer_forever c host dep_group_tx_hash account recipient net transaction_type duration cells w =
    let (start_time, w') = host.now w in
    transfer_loop c host dep_group_tx_hash account recipient transaction_type (length net.endpoints)
      duration start_time cells 0 no_batch w'
