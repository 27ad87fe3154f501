-- ===== src/Account/Transferring/Tests.antt =====
-- Tests and witnesses of `transfer_forever`.
use ckb_bench_archived.Base.{
  ◌≡◌, refl, List, [], ◌∷◌, ◌++◌, map, none, some, true, Outcome, ok, arith,
}
use ckb_bench_archived.Chain.{TransactionView}
use ckb_bench_archived.Utxo.{Utxo}
use ckb_bench_archived.Host.{Host}
use ckb_bench_archived.Account.{lock_script}
use ckb_bench_archived.Net.{Net}
use ckb_bench_archived.Transfer.{construct_unsigned_transaction, sign_transaction}
use ckb_bench_archived.Config.{in2_out2, outputs_count}
use ckb_bench_archived.Benchmark.{no_batch, min_input_total_capacity}
use ckb_bench_archived.Benchmark.Batches.{gather}
use ckb_bench_archived.Account.Transferring.{transfer_forever}
use ckb_bench_archived.Account.Transferring.Sent.{Delivers, transfer_forever-log}
use ckb_bench_archived.Samples.{toy_crypto, alice, alice_utxo, local_rpc, payment_at}

-- The world is the rest of the channel, and what was sent.
abbrev pub Pipe : Type 0
Pipe = List Utxo × List TransactionView

abbrev pub pipe : Host Pipe
pipe = record {
  sleep = λ time w. w;
  now = λ w. (0, w);
  send_utxo = λ utxo w. (true, w);
  recv_utxo = λ (queue, log). elim queue [ [] ↦ (none, ([], log)) | u ∷ us ↦ (some u, (us, log)) ];
  send_tx = λ i tx (queue, log). (true, (queue, log ++ tx ∷ []));
  try_send_tx = λ i tx w. (true, w);
}

pipe-Delivers : Delivers pipe (λ w. w.0) (λ w. w.1)
pipe-Delivers = record {
  clock = λ w. (refl, refl);
  closed = λ w e. (([], w.1), rw e refl, refl);
  next = λ w u us e. ((us, w.1), rw e refl, refl, refl);
  takes = λ i tx w. ((w.0, w.1 ++ tx ∷ []), refl, refl, refl);
}

-- A value, where there is one.
abbrev pub value : TransactionView → Outcome TransactionView → TransactionView
value other (ok tx) = tx
value other _ = other

abbrev pub raw_of : List Utxo → TransactionView
raw_of inputs =
    value (payment_at 0)
      (construct_unsigned_transaction toy_crypto (ok 9) alice inputs (outputs_count in2_out2))

abbrev pub pay : List Utxo → TransactionView
pay inputs = value (payment_at 0) (sign_transaction toy_crypto alice (raw_of inputs))

pub pay-pays :
    (inputs : List Utxo)
    → (raw : TransactionView) × (construct_unsigned_transaction toy_crypto
          (ok 9)
          alice
          inputs
          (outputs_count in2_out2)
        ≡ ok raw)
      × (sign_transaction toy_crypto alice raw ≡ ok (pay inputs))
unfolding construct_unsigned_transaction sign_transaction lock_script outputs_count
pay-pays inputs = (raw_of inputs, refl, refl)

abbrev pub three_cells : List Utxo
three_cells = alice_utxo 100_0000_0000 1 0 ∷ alice_utxo 50_0000_0000 2 0 ∷ alice_utxo 7 3 0 ∷ []

abbrev one_node : Net
one_node = record { endpoints = local_rpc ∷ [] }

transfer_forever-log_example :
    (w' : Pipe) × (transfer_forever toy_crypto pipe
        (ok 9)
        alice
        alice
        one_node
        in2_out2
        none
        4
        (three_cells, [])
      ≡ (ok tt, w'))
    × (w'.1
        ≡ []
          ++ map pay
              (gather (min_input_total_capacity (outputs_count in2_out2)) three_cells no_batch).0)
transfer_forever-log_example =
    transfer_forever-log toy_crypto pipe (ok 9) alice alice one_node in2_out2 (λ w. w.0) (λ w. w.1)
      pay (three_cells, []) pipe-Delivers (omega arith) pay-pays
