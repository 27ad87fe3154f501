-- ===== src/Threads/Tests.antt =====
-- Tests and witnesses of the module `Threads`.
use ckb_bench_archived.Base.{◌≡◌, refl, List, [], ◌∷◌, ◌++◌, map, sum, sum_u64, ok, arith}
use ckb_bench_archived.Chain.{OutPoint, CellOutput, TransactionView}
use ckb_bench_archived.Util.{estimate_fee}
use ckb_bench_archived.Utxo.{Utxo}
use ckb_bench_archived.Rpc.{Inner, answer}
use ckb_bench_archived.Threads.Transfers.{Relays, ArePayments, transfer_thread-ArePayments}
use ckb_bench_archived.Account.Transferring.Tests.{Pipe, pipe}
use ckb_bench_archived.HashMap.{HashMap}
use ckb_bench_archived.Threads.{get_total_capacity_from_utxo, transfer_thread}
use ckb_bench_archived.Threads.Capacity.{capacity_of, get_total_capacity_from_utxo-sum}
use ckb_bench_archived.Samples.{
  list_order, out_point, alice_cell, alice, alice_lock, alice_lock_lem, alice_utxo, toy_crypto,
  toy_crypto-RecoversSigner, dead_node, local_rpc, number_text,
}

abbrev two_entries : HashMap OutPoint CellOutput
two_entries = (out_point 1 0, alice_cell 100) ∷ (out_point 2 1, alice_cell 200) ∷ []

get_total_capacity_from_utxo-two : get_total_capacity_from_utxo list_order two_entries ≡ 300
unfolding get_total_capacity_from_utxo sum_u64
get_total_capacity_from_utxo-two = refl

get_total_capacity_from_utxo-sum_example :
    get_total_capacity_from_utxo list_order two_entries ≡ sum (map capacity_of two_entries)
get_total_capacity_from_utxo-sum_example =
    get_total_capacity_from_utxo-sum list_order two_entries (omega arith)

-- A node that takes every transaction.
abbrev taking : Inner Pipe
taking = record dead_node {
  send_transaction = λ uri tx (queue, log). (answer 7, (queue, log ++ tx ∷ []));
}

taking-Relays : Relays taking pipe local_rpc (λ w. w.0) (λ w. w.1)
taking-Relays = record {
  closed = λ w e. (([], w.1), rw e refl, refl);
  next = λ w u us e. ((us, w.1), rw e refl, refl, refl);
  takes = λ tx w. (7, (w.0, w.1 ++ tx ∷ []), refl, refl, refl);
}

abbrev two_cells : List Utxo
two_cells = alice_utxo 100_0000_0000 1 0 ∷ alice_utxo 70_0000_0000 2 0 ∷ []

transfer_thread-ArePayments_example :
    (txs : List TransactionView) × (w' : Pipe) × (transfer_thread taking toy_crypto pipe number_text
        4 0 list_order list_order 5
        (ok 9)
        alice
        alice
        (record { endpoints = local_rpc ∷ [] })
        (two_cells, [])
      ≡ (ok tt, w'))
    × (w'.1 ≡ [] ++ txs)
    × ArePayments toy_crypto (1 ∷ 7 ∷ []) alice_lock two_cells txs
unfolding estimate_fee
transfer_thread-ArePayments_example =
    transfer_thread-ArePayments taking toy_crypto pipe number_text 4 0 list_order list_order 9 alice
      alice local_rpc [] (λ w. w.0) (λ w. w.1) alice_lock_lem toy_crypto-RecoversSigner refl
      (λ message. (7 ∷ [], refl)) taking-Relays 5 two_cells (two_cells, []) refl (omega arith)
      ((omega arith, omega arith), ((omega arith, omega arith), tt))
