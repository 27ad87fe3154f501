-- ===== src/Account/PullFrom/Tests.antt =====
-- Tests and witnesses of the cells that a block brings and promotes.
use ckb_bench_archived.Base.{ℕ, ◌≡◌, ◌↔◌, refl, [], ◌∷◌, some, none, ok, Returns, Elem, arith}
use ckb_bench_archived.Base.Sorting.{sort_by_key, IsSorted}
use ckb_bench_archived.Chain.{OutPoint, OutPoint-discrete, Script-discrete}
use ckb_bench_archived.HashMap.{get}
use ckb_bench_archived.Utxo.{Utxo}
use ckb_bench_archived.Account.{lock_script}
use ckb_bench_archived.Account.Maturity.{is_matured}
use ckb_bench_archived.Account.Owned.{Found, get_owned_utxos}
use ckb_bench_archived.Account.Owned.Exact.{found_in}
use ckb_bench_archived.Account.Pull.{Cells, add_matured, remove_spent}
use ckb_bench_archived.Account.PullFrom.{
  with_block, sorted_by_number, promote_matured, pull_from_block_number, construct_utxo_vec,
}
use ckb_bench_archived.Account.PullFrom.Promotion.{Moved}
use ckb_bench_archived.Account.PullFrom.Vectors.{construct_utxo_vec-exact}
use ckb_bench_archived.Account.PullFrom.Block.{IsWellFormed, FitsWord, pull_from_block_number-Moved}
use ckb_bench_archived.Account.PullFrom.Lookups.{updated, pull_from_block_number-updated}
use ckb_bench_archived.Net.{first_endpoint}
use ckb_bench_archived.Samples.{
  toy_crypto, alice, alice_lock, alice_lock_lem, alice_cell, alice_utxo, out_point, local_rpc,
  block_at, chain_node, list_order,
}

-- Block 3 spends the payment of block 1, and brings one of its own.
abbrev before : Cells
before = record {
  utxoset = (out_point 1 0, alice_cell 5) ∷ [];
  unmatureds = (out_point 9 9, (2, alice_cell 6)) ∷ [];
}

pull_from-three :
    pull_from_block_number
      (chain_node 3)
      toy_crypto
      0
      alice
      list_order
      (record { endpoints = local_rpc ∷ [] })
      3
      before
      tt
    ≡ (
      ok (record {
        utxoset = (out_point 9 9, alice_cell 6) ∷ [];
        unmatureds = (out_point 3 0, (3, alice_cell 100_0000_0003)) ∷ [];
      }),
      tt {0},
    )
unfolding pull_from_block_number add_matured remove_spent sort_by_key promote_matured with_block
    sorted_by_number first_endpoint get_owned_utxos lock_script is_matured OutPoint-discrete
    Script-discrete
pull_from-three = refl

before-IsWellFormed : IsWellFormed before
before-IsWellFormed = record { utxoset = (refl, tt); unmatureds = (refl, tt) }

before-FitsWord : FitsWord 0 before
before-FitsWord p n o h = ground arith

pull_from_block_number-Moved_example :
    Returns
      (pull_from_block_number
        (chain_node 3)
        toy_crypto
        0
        alice
        list_order
        (record { endpoints = local_rpc ∷ [] })
        3
        before
        (tt {0})).0
      (λ after.
        IsWellFormed after
        × ((point : OutPoint)
            → Moved 0 3 point
                (with_block 3 (block_at 3) (found_in alice_lock (block_at 3).transactions) before)
                after))
pull_from_block_number-Moved_example =
    pull_from_block_number-Moved (chain_node 3) toy_crypto 0 alice list_order local_rpc [] 3
      (block_at 3) tt tt before alice_lock_lem refl before-IsWellFormed before-FitsWord
      (omega arith)

-- The cell of block 2 can be spent after block 3, the payment is gone, and the new cell matures.
abbrev mined : Found
mined = record { matured = []; unmatured = alice_utxo 100_0000_0003 3 0 ∷ [] }

updated-three :
    (updated 0 3 (block_at 3) mined before (out_point 9 9) ≡ (some (alice_cell 6), none))
    × (updated 0 3 (block_at 3) mined before (out_point 1 0) ≡ (none, none))
    × (updated 0 3 (block_at 3) mined before (out_point 3 0)
        ≡ (none, some (3, alice_cell 100_0000_0003)))
unfolding updated OutPoint-discrete
updated-three = (refl, refl, refl)

pull_from_block_number-updated_example :
    Returns
      (pull_from_block_number
        (chain_node 3)
        toy_crypto
        0
        alice
        list_order
        (record { endpoints = local_rpc ∷ [] })
        3
        before
        (tt {0})).0
      (λ after.
        (point : OutPoint)
        → (get OutPoint-discrete point after.utxoset, get OutPoint-discrete point after.unmatureds)
          ≡ updated 0 3 (block_at 3) (found_in alice_lock (block_at 3).transactions) before point)
pull_from_block_number-updated_example =
    pull_from_block_number-updated (chain_node 3) toy_crypto 0 alice list_order local_rpc [] 3
      (block_at 3) tt tt before alice_lock_lem refl before-IsWellFormed before-FitsWord
      (omega arith)

construct_utxo_vec-exact_example :
    let (matureds, unmatureds) = construct_utxo_vec list_order list_order before in
    ((utxo : Utxo)
      → Elem utxo matureds
        ↔ (get OutPoint-discrete utxo.out_point before.utxoset ≡ some utxo.output))
    × ((number : ℕ) (utxo : Utxo)
        → Elem (number, utxo) unmatureds
          ↔ (get OutPoint-discrete utxo.out_point before.unmatureds ≡ some (number, utxo.output)))
    × IsSorted (λ e. e.0) unmatureds
construct_utxo_vec-exact_example =
    construct_utxo_vec-exact list_order list_order before (refl, tt) (refl, tt)
