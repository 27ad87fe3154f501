-- ===== src/NetMonitor/Empty.antt =====
-- `Metrics::eval_blocks` of tps-bench/src/net_monitor.rs on no block: the panics of the program where
-- the last block stands right below the first one.
use ckb_bench_archived.Base.{
  ℕ, ◌+◌, ◌<◌, ◌≡◌, ◌≢◌, ok, add_u64, sub_u64, range_inclusive, u64_mod, arith,
}
use ckb_bench_archived.Base.Effects.{bind-ok, lift, for_each}
use ckb_bench_archived.Chain.{TransactionView}
use ckb_bench_archived.Float.{Float}
use ckb_bench_archived.Rpc.{Inner}
use ckb_bench_archived.Net.{Net, get_network_nodes}
use ckb_bench_archived.NetMonitor.{Metrics, checked_div, block_at_number, add_block, eval_blocks}

checked_div_zero : (a b q : ℕ) → b ≡ 0 → checked_div a b ≢ ok q
unfolding checked_div
checked_div_zero a b q e h = ground arith

-- Whatever the nodes answer, the metrics of the blocks from one number to the number below it are
-- never returned.
pub eval_blocks-ne-ok :
    {W F : Type 0} (inner : Inner W) (float : Float F) (serialized_size : TransactionView → ℕ)
    (net : Net) (end_number : ℕ) (w : W) (m : Metrics)
    → end_number + 1 < u64_mod
    → (eval_blocks inner float serialized_size net (end_number + 1) end_number w).0 ≢ ok m
unfolding eval_blocks
eval_blocks-ne-ok inner float serialized_size net end_number w m small h =
    let none : add_u64 (sub_u64 end_number (end_number + 1)) 1 ≡ 0 = omega arith in
    let (nodes, _, h₁) = bind-ok (get_network_nodes inner net) _ w m h in
    let (totals, _, h₂) =
      bind-ok
        (for_each (range_inclusive (end_number + 1) end_number)
          (add_block inner float serialized_size net) (record { transactions = 0; size = 0 }))
        _ _ m h₁ in
    let (front, _, h₃) =
      bind-ok (block_at_number inner float serialized_size net (end_number + 1)) _ _ m h₂ in
    let (last, _, h₄) =
      bind-ok (block_at_number inner float serialized_size net end_number) _ _ m h₃ in
    let (average, div, _) =
      bind-ok
        (lift (checked_div totals.transactions (add_u64 (sub_u64 end_number (end_number + 1)) 1))) _
        _ m h₄ in
    checked_div_zero totals.transactions _ average none div
