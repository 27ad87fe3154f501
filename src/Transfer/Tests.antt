-- ===== src/Transfer/Tests.antt =====
-- Tests and witnesses of the module `Transfer`.
use ckb_bench_archived.Base.{
  sum_u64, ok, panic, none, ◌⊎◌, List, [], ◌∷◌, map, sum, length, All, Returns, ◌+◌, ◌≡◌, ◌≤◌,
  arith, refl,
}
use ckb_bench_archived.Chain.{Bytes, CellInput, TransactionView}
use ckb_bench_archived.Util.{estimate_fee}
use ckb_bench_archived.Global.{min_secp_cell_capacity}
use ckb_bench_archived.Utxo.{Utxo, capacity}
use ckb_bench_archived.Account.{lock_script}
use ckb_bench_archived.Samples.{
  toy_crypto, toy_crypto-RecoversSigner, alice, alice_lock, alice_lock_lem, alice_utxo,
}
use ckb_bench_archived.Transfer.{construct_unsigned_transaction, sign_transaction}
use ckb_bench_archived.Transfer.Capacity.{capacities, construct-conserves, construct-outputs}
use ckb_bench_archived.Transfer.Signing.{IsSighash, IsSigned, sign-IsSigned}

abbrev two_cells : List Utxo
two_cells = alice_utxo 100_0000_0001 5 0 ∷ alice_utxo 100_0000_0000 6 1 ∷ []

-- The odd shannon goes to the first output.
construct-two :
    Returns
      (construct_unsigned_transaction toy_crypto (ok 9) alice two_cells 2)
      (λ tx. capacities tx.outputs ≡ 99_9999_9001 ∷ 99_9999_9000 ∷ [])
unfolding construct_unsigned_transaction lock_script estimate_fee sum_u64
construct-two = refl

construct-conserves_example :
    Returns
      (construct_unsigned_transaction toy_crypto (ok 9) alice two_cells 2)
      (λ tx. sum (capacities tx.outputs) + estimate_fee 2 ≡ sum (map capacity two_cells))
unfolding estimate_fee
construct-conserves_example =
    construct-conserves toy_crypto 9 alice two_cells 2 alice_lock_lem (omega arith) (omega arith)
      (omega arith)

construct-outputs_example :
    Returns (construct_unsigned_transaction toy_crypto (ok 9) alice two_cells 2) (λ tx.
      (map (λ (i : CellInput). i.previous_output) tx.inputs
        ≡ map (λ (u : Utxo). u.out_point) two_cells)
      × (length tx.outputs ≡ 2)
      × (length tx.outputs_data ≡ 2)
      × All (λ o. (o.lock ≡ alice_lock) × (min_secp_cell_capacity ≤ o.capacity)) tx.outputs)
unfolding estimate_fee
construct-outputs_example =
    construct-outputs toy_crypto 9 alice two_cells 2 alice_lock_lem (omega arith) (omega arith)
      (omega arith)

abbrev unsigned : TransactionView
unsigned = record {
  hash = 3;
  raw = record { cell_deps = []; inputs = []; outputs = []; outputs_data = [] };
  witnesses = [];
}

sign-IsSigned_example :
    ((signed : TransactionView) × (sign_transaction toy_crypto alice unsigned ≡ ok signed)
      × (signed.hash ≡ unsigned.hash)
      × (signed.raw ≡ unsigned.raw)
      × IsSigned toy_crypto (1 ∷ 7 ∷ []) signed)
    ⊎ ((message : Bytes) × IsSighash toy_crypto unsigned.hash message
        × (toy_crypto.sign_recoverable alice.privkey message ≡ none)
        × (sign_transaction toy_crypto alice unsigned ≡ panic "sign"))
sign-IsSigned_example = sign-IsSigned toy_crypto alice unsigned toy_crypto-RecoversSigner refl
