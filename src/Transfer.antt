-- ===== src/Transfer.antt =====
-- tps-bench/src/transfer.rs: the transaction that spends some cells and pays one recipient, and its
-- signature. The lazy hash of the dependency group, which `SIGHASH_ALL_CELL_DEP` holds, is an argument:
-- what the first use of it comes to.
pub mod Capacity
pub mod Signing
pub mod Payment
mod Tests
use ckb_bench_archived.Base.{
  ℕ, zero, suc, ◌+◌, ◌/◌, ◌%◌, List, [], ◌∷◌, ◌++◌, map, some, none, Outcome, ok, unwrap, ltb,
  if◌then◌else◌, sub_u64, sum_u64, range_from, replicate, length,
}
use ckb_bench_archived.Base.Outcomes.{◌>>=◌}
use ckb_bench_archived.Chain.{
  Byte32, Bytes, Script, CellOutput, WitnessArgs, RawTransaction, TransactionView,
}
use ckb_bench_archived.Crypto.{Crypto}
use ckb_bench_archived.Global.{sighash_all_cell_dep}
use ckb_bench_archived.Util.{estimate_fee}
use ckb_bench_archived.Utxo.{Utxo, capacity, as_previous_input}
use ckb_bench_archived.Account.{Account, lock_script}

-- The capacity of output `i`: the remainder goes to the first outputs, a shannon each.
output_capacity : ℕ → ℕ → ℕ → ℕ
output_capacity total outputs_count i =
    if ltb i (total % outputs_count) then total / outputs_count + 1 else total / outputs_count

-- The `map` over `0..outputs_count`; the closure computes the recipient's lock each time.
build_outputs : Crypto → Account → ℕ → ℕ → List ℕ → Outcome (List CellOutput)
unfolding output_capacity
build_outputs c recipient total outputs_count [] = ok []
build_outputs c recipient total outputs_count (i ∷ is) = do
  lock ← lock_script c recipient
  rest ← build_outputs c recipient total outputs_count is
  ok (
      record { capacity = output_capacity total outputs_count i; lock = lock; type_script = none }
      ∷ rest)

-- `construct_unsigned_transaction`
unfoldable pub construct_unsigned_transaction :
    Crypto → Outcome Byte32 → Account → List Utxo → ℕ → Outcome TransactionView
unfolding build_outputs
construct_unsigned_transaction c dep_group_tx_hash recipient utxos outputs_count = do
  let fee = estimate_fee outputs_count
  let input_total_capacity = sum_u64 (map capacity utxos)
  let output_total_capacity = sub_u64 input_total_capacity fee
  outputs ←
      build_outputs c recipient output_total_capacity outputs_count (range_from 0 outputs_count)
  dep_group ← dep_group_tx_hash
  let raw : RawTransaction = record {
    inputs = map as_previous_input utxos;
    outputs = outputs;
    outputs_data = replicate outputs_count [];
    cell_deps = sighash_all_cell_dep dep_group ∷ [];
  }
  ok (record { hash = c.transaction_hash raw; raw = raw; witnesses = [] })

-- `n.to_le_bytes()`: the eight bytes of a `u64`, the lowest first
le_bytes : ℕ → ℕ → Bytes
le_bytes zero n = []
le_bytes (suc k) n = (n % 256) ∷ le_bytes k (n / 256)

pub to_le_bytes : ℕ → Bytes
unfolding le_bytes
to_le_bytes = le_bytes 8

-- What is hashed: the witness holds 65 zero bytes where the signature will stand.
witness_for_digest : WitnessArgs
witness_for_digest = record { lock = some (replicate 65 0); input_type = none; output_type = none }

-- The three updates of the hasher, in order, and its digest.
pub sighash_message : Crypto → TransactionView → Bytes
unfolding witness_for_digest to_le_bytes
sighash_message c tx =
    let witness = c.witness_bytes witness_for_digest in
    c.blake2b_256 (c.raw_data tx.hash ++ to_le_bytes (length witness) ++ witness)

-- `sign_transaction`
unfoldable pub sign_transaction : Crypto → Account → TransactionView → Outcome TransactionView
unfolding sighash_message
sign_transaction c signer tx = do
  sig ← unwrap (c.sign_recoverable signer.privkey (sighash_message c tx)) "sign"
  let signed_witness : WitnessArgs = record {
    lock = some sig;
    input_type = none;
    output_type = none;
  }
  ok (record tx { witnesses = c.witness_bytes signed_witness ∷ [] })
