-- ===== src/Transfer/Payment.antt =====
-- A payment of one cell: `construct_unsigned_transaction` and `sign_transaction` of
-- tps-bench/src/transfer.rs one after the other.
use ckb_bench_archived.Base.{
  ◌+◌, ◌*◌, ◌≤◌, ◌<◌, ◌≡◌, refl, ap, inl, inr, List, [], ◌∷◌, map, some, ok, length, sum, u64_mod,
  arith,
}
use ckb_bench_archived.Base.Outcomes.{returned}
use ckb_bench_archived.Chain.{Byte32, Bytes, Script, CellInput, CellOutput, TransactionView}
use ckb_bench_archived.Crypto.{Crypto, RecoversSigner}
use ckb_bench_archived.Global.{min_secp_cell_capacity}
use ckb_bench_archived.Util.{estimate_fee}
use ckb_bench_archived.Utxo.{Utxo, capacity}
use ckb_bench_archived.Account.{Account, lock_script}
use ckb_bench_archived.Transfer.{construct_unsigned_transaction, sign_transaction}
use ckb_bench_archived.Transfer.Capacity.{capacities, construct-conserves, construct-outputs}
use ckb_bench_archived.Transfer.Signing.{IsSigned, sign-IsSigned}

-- The transaction spends this cell alone, has one output, to the lock, which holds all but the fee,
-- and is signed.
pub record IsPayment (c : Crypto) (public : Bytes) (lock : Script) (utxo : Utxo)
    (tx : TransactionView) : Type 0 where
  pub spends : map (λ (i : CellInput). i.previous_output) tx.inputs ≡ utxo.out_point ∷ []
  pub output : CellOutput
  pub outputs : tx.outputs ≡ output ∷ []
  pub to : output.lock ≡ lock
  pub rest : output.capacity + estimate_fee 1 ≡ capacity utxo
  pub signed : IsSigned c public tx

only : {A : Type 0} (xs : List A) → length xs ≡ 1 → (x : A) × (xs ≡ x ∷ [])
only [] h = cc
only (x ∷ []) h = (x, refl)
only (x ∷ y ∷ xs) h = absurd (omega arith)

module _ (c : Crypto) (dep_group_tx_hash : Byte32) (sender recipient : Account) {lock : Script}
    {public : Bytes} (known : lock_script c recipient ≡ ok lock) (law : RecoversSigner c)
    (key : c.pubkey sender.privkey ≡ some public)
    (signs : (message : Bytes)
      → (signature : Bytes) × (c.sign_recoverable sender.privkey message ≡ some signature)) where
  sign_returns :
      (raw : TransactionView)
      → (tx : TransactionView) × (sign_transaction c sender raw ≡ ok tx)
        × (tx.hash ≡ raw.hash)
        × (tx.raw ≡ raw.raw)
        × IsSigned c public tx
  sign_returns raw = elim (sign-IsSigned c sender raw law key) [
    | inl returns ↦ returns
    | inr (message, is_message, unsigned, panics) ↦ absurd (cc (unsigned, (signs message).1))
  ]

  -- A cell that holds the fee and the least capacity is paid to the recipient.
  pub IsPayment-made :
      (utxo : Utxo)
      → 1 * min_secp_cell_capacity + estimate_fee 1 ≤ capacity utxo
      → capacity utxo < u64_mod
      → (raw signed : TransactionView) × (construct_unsigned_transaction c
            (ok dep_group_tx_hash)
            recipient
            (utxo ∷ [])
            1
          ≡ ok raw)
        × (sign_transaction c sender raw ≡ ok signed)
        × IsPayment c public lock utxo signed
  IsPayment-made utxo enough small =
      let one : sum (map capacity (utxo ∷ [])) ≡ capacity utxo = omega arith in
      let (raw, made, total) =
        returned
          {P = λ tx. sum (capacities tx.outputs) + estimate_fee 1 ≡ sum (map capacity (utxo ∷ []))}
          (construct_unsigned_transaction c (ok dep_group_tx_hash) recipient (utxo ∷ []) 1)
          (construct-conserves c dep_group_tx_hash recipient (utxo ∷ []) 1 known (omega arith)
            (omega (arith, one)) (omega (arith, one))) in
      let (spends, count, data_, to) = rw made at (
        construct-outputs c dep_group_tx_hash recipient (utxo ∷ []) 1 known (omega arith)
          (omega (arith, one)) (omega (arith, one))) in
      let (output, outputs) = only raw.outputs count in
      let (tx, sealed, same_hash, same, carries) = sign_returns raw in
      (
        raw,
        tx,
        made,
        sealed,
        record {
          spends = rw same spends;
          output = output;
          outputs = rw same outputs;
          to = (rw outputs at to).0.0;
          rest = omega (arith, total, one, ap (λ os. sum (capacities os)) outputs);
          signed = carries;
        },
      )
