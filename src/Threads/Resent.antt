-- ===== src/Threads/Resent.antt =====
-- A run of `spawn_pull_utxos` of tps-bench/src/threads.rs and of its thread, in which a cell is sent
-- twice: a block that is mined until there is enough capacity is pulled again by the thread, which
-- goes on from the header that was confirmed before.
use ckb_bench_archived.Base.{
  ℕ, ◌+◌, ◌≡◌, refl, List, [], ◌∷◌, ◌++◌, some, none, map, true, leb, if◌then◌else◌, sum_u64,
}
use ckb_bench_archived.Base.Effects.{◌>>=◌, for_each}
use ckb_bench_archived.Chain.{
  TransactionView, BlockView, OutPoint-discrete, HeaderView-discrete, Script-discrete,
}
use ckb_bench_archived.Utxo.{Utxo}
use ckb_bench_archived.Rpc.{Inner, accepted, answer}
use ckb_bench_archived.Rpc
use ckb_bench_archived.Host.{Host}
use ckb_bench_archived.Net.{
  connect_all, first_endpoint, get_fixed_header, get_confirmed_tip_header,
  get_unconfirmed_fixed_tip_header, scan_down,
}
use ckb_bench_archived.Base.Sorting.{sort_by_key}
use ckb_bench_archived.Account.{lock_script}
use ckb_bench_archived.Account.Maturity.{is_matured}
use ckb_bench_archived.Account.Owned.{get_owned_utxos}
use ckb_bench_archived.Account.Pull.{pull_until, pull_number, add_matured, remove_spent}
use ckb_bench_archived.Account.PullFrom.{
  pull_from_block_number, promote_matured, with_block, sorted_by_number, construct_utxo_vec,
}
use ckb_bench_archived.Account.Forever.{pull_forever}
use ckb_bench_archived.Miner.{generate_block}
use ckb_bench_archived.Miner.{Miner}
use ckb_bench_archived.Threads.{prepare_pull, pull_thread, get_total_capacity_from_utxo}
use ckb_bench_archived.Samples.{
  list_order, alice, alice_cell, toy_crypto, dead_node, local_rpc, number_text, header_at,
}

-- Every block pays alice in its cellbase.
abbrev mined_at : ℕ → TransactionView
mined_at n = record {
  hash = n;
  raw = record { cell_deps = []; inputs = []; outputs = alice_cell 100 ∷ []; outputs_data = [] };
  witnesses = [];
}

abbrev block : ℕ → BlockView
block n = record { header = header_at n; transactions = mined_at n ∷ [] }

-- The tip, and the cells that have been sent.
abbrev World : Type 0
World = ℕ × List Utxo

abbrev node : Inner World
node = record dead_node {
  get_block_by_number = λ uri n w. (answer (if leb n w.0 then some (block n) else none), w);
  get_header_by_number = λ uri n w. (answer (if leb n w.0 then some (header_at n) else none), w);
  get_block = λ uri hash w. (answer (if leb hash w.0 then some (block hash) else none), w);
  get_tip_block_number = λ uri w. (answer w.0, w);
  get_block_template = λ uri bytes_limit proposals_limit max_version w. (
    answer (record {
      work_id = 0;
      number = w.0 + 1;
      cellbase = mined_at (w.0 + 1);
      block = block (w.0 + 1);
    }),
    w,
  );
  submit_block = λ uri work_id mined w. (answer (some 1), (w.0 + 1, w.1));
}

-- While the program sleeps, a block is made.
abbrev host : Host World
host = record {
  sleep = λ time w. (w.0 + 1, w.1);
  now = λ w. (0, w);
  send_utxo = λ utxo w. (true, (w.0, w.1 ++ utxo ∷ []));
  recv_utxo = λ w. (none, w);
  send_tx = λ i tx w. (true, w);
  try_send_tx = λ i tx w. (true, w);
}

abbrev miner : Miner
miner = record { net = record { endpoints = local_rpc ∷ [] }; account = alice; block_time = 0 }

abbrev cells_sent : List ℕ
cells_sent =
    map (λ (u : Utxo). u.out_point.tx_hash)
      ((prepare_pull node toy_crypto host number_text 0 0 list_order list_order 9 (λ uri. accepted)
            none none ("http://a" ∷ []) 300 alice miner
          >>= λ pulled.
              pull_thread node toy_crypto host number_text 0 0 list_order list_order 9 alice
                pulled.0 pulled.1 pulled.2 pulled.3)
        (1, [])).1.1

-- The cells of blocks 2 and 3, which are mined for the capacity, are sent twice.
cells_sent_lem : cells_sent ≡ 2 ∷ 1 ∷ 0 ∷ 3 ∷ 2 ∷ 3 ∷ 4 ∷ 5 ∷ []
unfolding prepare_pull pull_thread connect_all Rpc.connect get_confirmed_tip_header first_endpoint
    pull_until pull_number for_each get_owned_utxos lock_script is_matured add_matured remove_spent
    pull_from_block_number promote_matured with_block sorted_by_number sort_by_key
    construct_utxo_vec generate_block sum_u64 pull_forever get_total_capacity_from_utxo
    OutPoint-discrete Script-discrete HeaderView-discrete get_fixed_header
    get_unconfirmed_fixed_tip_header scan_down
cells_sent_lem = refl
