-- ===== src/Benchmark/Batches.antt =====
-- The transactions of a bench (`BenchmarkConfig::bench` of tps-bench/src/benchmark.rs): which of the
-- received cells each of them spends.
use mathlib.Core.List.{append_assoc, append-nil}
use mathlib.Core.Path.{subst, subst⁻¹}
use ckb_bench_archived.Base.{
  sym, ap, ◌∙◌, ℕ, ◌+◌, ◌≤◌, ◌<◌, ◌≡◌, refl, List, [], ◌∷◌, ◌++◌, map, Option, some, none, inl, inr,
  ltb, Bool-cases, lt→ltb, ltb→lt, ge→ltb, ltb→ge, add_u64, u64_mod, sum, All, arith, ok, ◌%◌,
}
use ckb_bench_archived.Utxo.{Utxo, capacity}
use ckb_bench_archived.Benchmark.{Batch, take_in, no_batch, checked_rem}

abbrev pub total_of : List Utxo → ℕ
total_of utxos = sum (map capacity utxos)

-- The inputs of the transactions that cells received in order lead to, and what waits at the end.
abbrev pub add_batch : Option (List Utxo) → List (List Utxo) × Batch → List (List Utxo) × Batch
add_batch none (batches, left) = (batches, left)
add_batch (some inputs) (batches, left) = (inputs ∷ batches, left)

abbrev pub gather : ℕ → List Utxo → Batch → List (List Utxo) × Batch
gather min_total [] batch = ([], batch)
gather min_total (utxo ∷ utxos) batch =
    let (full, batch') = take_in min_total utxo batch in
    add_batch full (gather min_total utxos batch')

abbrev pub concat : List (List Utxo) → List Utxo
concat [] = []
concat (us ∷ uss) = us ++ concat uss

total_of-append : (us vs : List Utxo) → total_of (us ++ vs) ≡ total_of us + total_of vs
total_of-append [] vs = omega arith
total_of-append (u ∷ us) vs = omega (arith, total_of-append us vs)

-- Cells that wait for more: their total is right, and too small.
pub record IsWaiting (min_total : ℕ) (batch : Batch) : Type 0 where
  pub total : batch.input_total_capacity ≡ total_of batch.inputs
  pub short : total_of batch.inputs < min_total

pub record IsGathered (min_total : ℕ) (utxos : List Utxo) (batches : List (List Utxo))
    (left : Batch) : Type 0 where
  pub all : concat batches ++ left.inputs ≡ utxos
  pub enough : All (λ inputs. min_total ≤ total_of inputs) batches
  pub waiting : IsWaiting min_total left

module _ (min_total : ℕ) (u : Utxo) (batch : Batch)
    (fits : batch.input_total_capacity + capacity u < u64_mod) where
  take_in-short :
      batch.input_total_capacity + capacity u < min_total
      → take_in min_total u batch ≡ (
        none,
        record {
          inputs = batch.inputs ++ u ∷ [];
          input_total_capacity = batch.input_total_capacity + capacity u;
        },
      )
  unfolding take_in
  take_in-short lt =
      let total : add_u64 batch.input_total_capacity (capacity u)
          ≡ batch.input_total_capacity + capacity u =
        omega arith in
      rw (total, lt→ltb _ _ lt) refl

  take_in-full :
      min_total ≤ batch.input_total_capacity + capacity u
      → take_in min_total u batch ≡ (some (batch.inputs ++ u ∷ []), no_batch)
  unfolding take_in
  take_in-full ge =
      let total : add_u64 batch.input_total_capacity (capacity u)
          ≡ batch.input_total_capacity + capacity u =
        omega arith in
      rw (total, ge→ltb _ _ ge) refl

module _ (min_total : ℕ) (pos : 0 < min_total) where
  -- The statement for a first cell and what comes of taking it in.
  abbrev Gathered : Utxo → List Utxo → Batch → Option (List Utxo) × Batch → Type 0
  Gathered u us batch (full, batch') =
      IsGathered min_total (batch.inputs ++ u ∷ us) (add_batch full (gather min_total us batch')).0
        (add_batch full (gather min_total us batch')).1

  gather-lem :
      (utxos : List Utxo) (batch : Batch)
      → IsWaiting min_total batch
      → total_of batch.inputs + total_of utxos < u64_mod
      → IsGathered min_total
          (batch.inputs ++ utxos)
          (gather min_total utxos batch).0
          (gather min_total utxos batch).1
  gather-lem [] batch waits fits = record {
    all = sym (append-nil batch.inputs);
    enough = tt;
    waiting = waits;
  }
  gather-lem (u ∷ us) batch waits fits =
      let inputs = batch.inputs ++ u ∷ [] in
      let after = batch.input_total_capacity + capacity u in
      let total : after ≡ total_of inputs =
        omega (arith, waits.total, total_of-append batch.inputs (u ∷ [])) in
      let here : inputs ++ us ≡ batch.inputs ++ u ∷ us = append_assoc batch.inputs (u ∷ []) us in
      let small : after < u64_mod = omega (arith, waits.total) in
      elim (Bool-cases (ltb after min_total)) [
        | inl lt ↦
            let batch' : Batch = record { inputs = inputs; input_total_capacity = after } in
            subst⁻¹ (Gathered u us batch) (take_in-short min_total u batch small (ltb→lt _ _ lt)) (
              subst
                (λ all.
                  IsGathered min_total all (gather min_total us batch').0
                    (gather min_total us batch').1)
                here
                (gather-lem us batch'
                  (record { total = total; short = omega (arith, ltb→lt _ _ lt, total) })
                  (omega (arith, total, waits.total))))
        | inr ge ↦
            let rest =
              gather-lem us no_batch (record { total = refl; short = pos }) (omega arith) in
            subst⁻¹ (Gathered u us batch) (take_in-full min_total u batch small (ltb→ge _ _ ge))
              (record {
                all =
                    append_assoc inputs (concat (gather min_total us no_batch).0)
                      ((gather min_total us no_batch).1).inputs
                    ∙ ap (λ us'. inputs ++ us') rest.all
                    ∙ here;
                enough = (omega (arith, ltb→ge _ _ ge, total), rest.enough);
                waiting = rest.waiting;
              })
      ]

  -- Where the capacities fit a `u64`, a bench spends all received cells in their order, except a
  -- rest that is too small; the inputs of each transaction together hold the capacity that is
  -- asked for.
  pub gather-IsGathered :
      (utxos : List Utxo)
      → total_of utxos < u64_mod
      → IsGathered min_total utxos
          (gather min_total utxos no_batch).0
          (gather min_total utxos no_batch).1
  gather-IsGathered utxos fits =
      gather-lem utxos no_batch (record { total = refl; short = pos }) (omega arith)

-- Where there is an emitter, the next one is found.
pub checked_rem_pos : (a b : ℕ) → 0 < b → checked_rem a b ≡ ok (a % b)
unfolding checked_rem
checked_rem_pos a b pos = ground arith
