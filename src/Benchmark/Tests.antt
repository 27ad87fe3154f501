-- ===== src/Benchmark/Tests.antt =====
-- Tests and witnesses of the module `Benchmark`.
use ckb_bench_archived.Base.{
  ℕ, ◌≡◌, ◌≤◌, refl, List, [], ◌∷◌, ◌++◌, ok, panic, inr, Returns, ltb, if◌then◌else◌, Action,
  arith, sum_u64,
}
use ckb_bench_archived.Base.Effects.{pure}
use ckb_bench_archived.Utxo.{Utxo}
use ckb_bench_archived.NetMonitor.{checked_div}
use ckb_bench_archived.Samples.{alice_utxo, local_rpc, payment_at}
use text.Mathlib.Text.{◌==◌ as str_eq}
use ckb_bench_archived.Chain.{TransactionView}
use ckb_bench_archived.Account.Forever.Tests.{draining, a_second, draining-Drains}
use ckb_bench_archived.Benchmark.Emitted.{emit-takes}
use ckb_bench_archived.Benchmark.{take_in, no_batch, narrow, search, find_best, emit}
use ckb_bench_archived.Benchmark.Batches.{IsGathered, gather, gather-IsGathered}
use ckb_bench_archived.Benchmark.Failing.{find_best-panics}
use ckb_bench_archived.Benchmark.Search.{find_best-IsWithin}

abbrev three_cells : List Utxo
three_cells = alice_utxo 60 1 0 ∷ alice_utxo 70 2 0 ∷ alice_utxo 50 3 0 ∷ []

gather-three : gather 100 three_cells no_batch ≡ (
  (alice_utxo 60 1 0 ∷ alice_utxo 70 2 0 ∷ []) ∷ [],
  record { inputs = alice_utxo 50 3 0 ∷ []; input_total_capacity = 50 },
)
unfolding take_in
gather-three = refl

gather-IsGathered_example :
    IsGathered 100 three_cells
      (gather 100 three_cells no_batch).0
      (gather 100 three_cells no_batch).1
gather-IsGathered_example = gather-IsGathered 100 (omega arith) three_cells (omega arith)

-- A network that does 400 transactions in a second, or 500 at a delay above 1000.
abbrev bench_at : ℕ → Action (Unit {0}) ℕ
bench_at send_delay w = (ok (if ltb 1000 send_delay then 500 else 400), w)

find_best-some : (find_best bench_at 21 100 tt).0 ≡ ok 500
unfolding find_best search narrow checked_div sum_u64
find_best-some = refl

-- A first bench without a result makes the search panic.
find_best-none :
    (find_best (λ send_delay. pure 0) 21 100 (tt {0})).0 ≡ panic "attempt to divide by zero"
unfolding find_best checked_div
find_best-none = refl

-- Delays that lie next to each other leave no sample, and the search panics.
find_best-close :
    (find_best (λ send_delay. pure 500) 21 2000 (tt {0})).0 ≡ panic "attempt to divide by zero"
unfolding find_best search checked_div sum_u64
find_best-close = refl

bench_at-Within :
    (send_delay : ℕ) (w : Unit {0})
    → (tps : ℕ) × (w' : Unit {0}) × (bench_at send_delay w ≡ (ok tps, w'))
      × (400 ≤ tps)
      × (tps ≤ 500)
bench_at-Within send_delay w =
    (if ltb 1000 send_delay then 500 else 400, w, refl, ground arith, ground arith)

find_best-IsWithin_example :
    Returns (find_best bench_at 21 100 tt).0 (λ tps. (400 ≤ tps) × (tps ≤ 500))
find_best-IsWithin_example =
    find_best-IsWithin 400 500 bench_at bench_at-Within 100 tt (omega arith) (omega arith)
      (omega arith)

-- 500 transactions in a second at once: a second for each would be a delay of 2000.
find_best-panics_example :
    (find_best (λ send_delay. pure 500) 21 2000 (tt {0})).0 ≡ panic "attempt to divide by zero"
find_best-panics_example =
    find_best-panics (λ send_delay. pure 500) 20 2000 500 tt tt (λ delay w. (500, w, refl)) refl
      (inr (omega arith, omega arith, omega arith))

emit-takes_example :
    (w' : ℕ × List TransactionView) × (emit draining a_second str_eq local_rpc
        (payment_at 3)
        5
        (3, [])
      ≡ (ok tt, w'))
    × (w'.1 ≡ [] ++ payment_at 3 ∷ [])
emit-takes_example =
    emit-takes draining a_second str_eq local_rpc (λ w. w.0) (λ w. w.1) draining-Drains
      (payment_at 3) 5 (3, []) (omega arith)
