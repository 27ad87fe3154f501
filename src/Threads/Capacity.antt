-- ===== src/Threads/Capacity.antt =====
-- The capacity that `get_total_capacity_from_utxo` of tps-bench/src/threads.rs computes.
use ckb_bench_archived.Base.{ℕ, ◌<◌, ◌≡◌, ◌∙◌, map, sum, sum_u64-eq-sum, u64_mod}
use mathlib.Core.Path.{subst⁻¹}
use ckb_bench_archived.Chain.{OutPoint, CellOutput}
use ckb_bench_archived.HashMap.{HashMap, IterOrder}
use ckb_bench_archived.HashMap.Entries.{sum-map-perm}
use ckb_bench_archived.Threads.{get_total_capacity_from_utxo}

abbrev pub capacity_of : OutPoint × CellOutput → ℕ
capacity_of e = e.1.capacity

-- Where it fits a `u64`, the total is the sum of the capacities of the map's cells, in whatever order
-- the map is iterated.
pub get_total_capacity_from_utxo-sum :
    (order : IterOrder OutPoint CellOutput) (utxoset : HashMap OutPoint CellOutput)
    → sum (map capacity_of utxoset) < u64_mod
    → get_total_capacity_from_utxo order utxoset ≡ sum (map capacity_of utxoset)
unfolding get_total_capacity_from_utxo
get_total_capacity_from_utxo-sum order utxoset fits =
    let same = sum-map-perm capacity_of (order.iter_perm utxoset) in
    sum_u64-eq-sum (map capacity_of (order.iter utxoset)) (subst⁻¹ (λ n. n < u64_mod) same fits)
    ∙ same
