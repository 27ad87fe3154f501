-- ===== src/Account/Owned.antt =====
-- `Account::get_owned_utxos` of tps-bench/src/account.rs: the cells of a block that an account owns.
pub mod Exact
use ckb_bench_archived.Base.{ℕ, ◌+◌, List, [], ◌∷◌, ◌++◌, ite, Outcome, ok, ◌==◌, if◌then◌else◌}
use ckb_bench_archived.Base.Outcomes.{◌>>=◌}
use ckb_bench_archived.Chain.{
  Byte32, Script, CellOutput, TransactionView, BlockView, Script-discrete,
}
use ckb_bench_archived.Crypto.{Crypto}
use ckb_bench_archived.Utxo.{Utxo}
use ckb_bench_archived.Account.{Account, lock_script}

-- The two vectors that the loops push to.
pub record Found : Type 0 where
  pub matured : List Utxo
  pub unmatured : List Utxo

-- The body of the inner loop. The cells of the first transaction, the cellbase, are not matured.
push_owned : Script → ℕ → Byte32 → ℕ → CellOutput → Found → Found
push_owned lock tx_index tx_hash index output found =
    ite (Script-discrete lock output.lock)
      (let utxo : Utxo = record {
        output = output;
        out_point = record { tx_hash = tx_hash; index = index };
      } in
        if tx_index == 0
        then record found { unmatured = found.unmatured ++ utxo ∷ [] }
        else record found { matured = found.matured ++ utxo ∷ [] })
      found

scan_outputs : Script → ℕ → Byte32 → ℕ → List CellOutput → Found → Found
unfolding push_owned
scan_outputs lock tx_index tx_hash index [] found = found
scan_outputs lock tx_index tx_hash index (output ∷ outputs) found =
    scan_outputs lock tx_index tx_hash (index + 1) outputs
      (push_owned lock tx_index tx_hash index output found)

scan_transactions : Script → ℕ → List TransactionView → Found → Found
unfolding scan_outputs
scan_transactions lock tx_index [] found = found
scan_transactions lock tx_index (tx ∷ txs) found =
    scan_transactions lock (tx_index + 1) txs
      (scan_outputs lock tx_index tx.hash 0 tx.outputs found)

unfoldable pub get_owned_utxos : Crypto → Account → BlockView → Outcome Found
unfolding scan_transactions
get_owned_utxos c account block = do
  lock ← lock_script c account
  ok (scan_transactions lock 0 block.transactions (record { matured = []; unmatured = [] }))
