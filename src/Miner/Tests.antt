-- ===== src/Miner/Tests.antt =====
-- Tests and witnesses of the module `Miner`.
use ckb_bench_archived.Base.{
  ℕ, ◌-◌, ◌≢◌, ltb, lt→ltb, some, panic, if◌then◌else◌, arith, ◌≡◌, refl, List, [], ◌∷◌, ◌++◌, ok,
  length,
}
use ckb_bench_archived.Chain.{BlockView, TransactionView}
use ckb_bench_archived.Net.{first_endpoint}
use ckb_bench_archived.Miner.{Miner, generate_block, generate_blocks, assert_block_assembler}
use ckb_bench_archived.Miner.Blocks.{Extends, generate_blocks-grows}
use ckb_bench_archived.Rpc.{Inner, BlockTemplate, answer}
use ckb_bench_archived.Miner.Assembler.{Assembles, assert_block_assembler-decides}
use ckb_bench_archived.Samples.{
  alice_cell, dead_node, payment_at, toy_crypto, alice_lock, alice_lock_lem, mining_node,
  number_text, template_at, alice, local_rpc, block_at,
}

abbrev miner : Miner
miner = record {
  net = record { endpoints = local_rpc ∷ [] };
  account = alice;
  block_time = 3000000;
}

generate_blocks-two :
    generate_blocks mining_node number_text miner 2 (block_at 0 ∷ [])
    ≡ (ok tt, block_at 0 ∷ block_at 1 ∷ block_at 2 ∷ [])
unfolding generate_blocks generate_block first_endpoint
generate_blocks-two = refl

mining_node-Extends : Extends mining_node number_text (λ w. w) local_rpc
mining_node-Extends = record {
  grows = λ w. (template_at (length w), w, 1, w ++ block_at (length w) ∷ [], refl, refl, refl);
}

generate_blocks-grows_example :
    (blocks : List BlockView) × (w' : List BlockView) × (generate_blocks mining_node number_text
        miner 2
        (block_at 0 ∷ [])
      ≡ (ok tt, w'))
    × (w' ≡ (block_at 0 ∷ []) ++ blocks)
    × (length blocks ≡ 2)
generate_blocks-grows_example =
    generate_blocks-grows mining_node number_text (λ w. w) local_rpc [] alice 3000000
      mining_node-Extends 2 (block_at 0 ∷ [])

-- A node that pays alice after some more blocks, whose number is the world.
abbrev cellbase : ℕ → TransactionView
cellbase n =
    if ltb 0 n
    then record {
      hash = 0;
      raw = record { cell_deps = []; inputs = []; outputs = []; outputs_data = [] };
      witnesses = [];
    }
    else payment_at 0

abbrev template : ℕ → BlockTemplate
template n = record { work_id = 0; number = 0; cellbase = cellbase n; block = block_at 0 }

abbrev paying_node : Inner ℕ
paying_node = record dead_node {
  get_block_template = λ uri bytes_limit proposals_limit max_version w. (answer (template w), w);
  submit_block = λ uri work_id block w. (answer (some 1), w - 1);
}

paying_node-Assembles : Assembles paying_node number_text local_rpc (λ w. w) alice_lock
paying_node-Assembles = record {
  empty = λ w early. (template w, w, refl, rw (lt→ltb 0 w early) refl, refl);
  grows = λ w early. (template w, w, some 1, w - 1, refl, refl, omega arith);
  pays = λ w late. (template w, alice_cell 100_0000_0000, [], w, refl, rw late refl, refl);
}

assert_block_assembler-decides_example :
    (w' : ℕ) × (alice_lock ≡ alice_lock
      → assert_block_assembler paying_node number_text toy_crypto 9 miner 3 ≡ (ok tt, w'))
    × (alice_lock ≢ alice_lock
        → assert_block_assembler paying_node number_text toy_crypto 9 miner 3
          ≡ (panic "assertion failed", w'))
assert_block_assembler-decides_example =
    assert_block_assembler-decides paying_node number_text local_rpc [] alice 3000000 (λ w. w)
      alice_lock paying_node-Assembles toy_crypto 9 alice_lock 3 alice_lock_lem (omega arith)
