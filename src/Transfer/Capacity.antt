-- ===== src/Transfer/Capacity.antt =====
-- The capacities of a constructed transaction (`construct_unsigned_transaction` of
-- tps-bench/src/transfer.rs): how the outputs share what the inputs hold.
use Prim.Native.Nat.{min}
use native.Mathlib.Nat.{mod-lt, div-add-mod, le-div_iff_mul-le}
use ckb_bench_archived.Base.{
  ℕ, zero, suc, ◌+◌, ◌-◌, ◌*◌, ◌/◌, ◌%◌, ◌≤◌, ◌<◌, ◌≡◌, refl, ap, ◌∙◌, List, [], ◌∷◌, map, none, ok,
  Returns, arith, u64_mod, sum_u64-eq-sum, sum, range_from, length, All, length-map,
  length-range_from, length-replicate,
}
use ckb_bench_archived.Chain.{Byte32, Script, CellInput, CellOutput}
use ckb_bench_archived.Crypto.{Crypto}
use ckb_bench_archived.Global.{min_secp_cell_capacity}
use ckb_bench_archived.Util.{estimate_fee}
use ckb_bench_archived.Utxo.{Utxo, capacity, as_previous_input}
use ckb_bench_archived.Account.{Account, lock_script}
use ckb_bench_archived.Transfer.{output_capacity, build_outputs, construct_unsigned_transaction}

-- Among the numbers `start..start + count`, those below the remainder get one shannon more.
sum-shares :
    (total n start count : ℕ)
    → sum (map (output_capacity total n) (range_from start count))
      ≡ count * (total / n) + (min (start + count) (total % n) - min start (total % n))
unfolding output_capacity
sum-shares total n start zero = omega arith
sum-shares total n start (suc count) = grind (arith, sum-shares total n (start + 1) count)

-- The shares of all outputs add up to the total.
sum-shares_all :
    (total n : ℕ) → 0 < n → sum (map (output_capacity total n) (range_from 0 n)) ≡ total
sum-shares_all total n pos =
    omega (arith, sum-shares total n 0 n, mod-lt total {m = n} pos, div-add-mod total n)

abbrev pay : Script → ℕ → ℕ → ℕ → CellOutput
pay lock total n i = record {
  capacity = output_capacity total n i;
  lock = lock;
  type_script = none;
}

module _ (c : Crypto) (recipient : Account) {lock : Script}
    (known : lock_script c recipient ≡ ok lock) where
  build_outputs-pay :
      (total n : ℕ) (is : List ℕ)
      → build_outputs c recipient total n is ≡ ok (map (pay lock total n) is)
  unfolding build_outputs
  build_outputs-pay total n [] = refl
  build_outputs-pay total n (i ∷ is) = rw (known, build_outputs-pay total n is)

abbrev pub capacities : List CellOutput → List ℕ
capacities = map (λ o. o.capacity)

capacities-pay :
    (lock : Script) (total n : ℕ) (is : List ℕ)
    → capacities (map (pay lock total n) is) ≡ map (output_capacity total n) is
capacities-pay lock total n [] = refl
capacities-pay lock total n (i ∷ is) =
    ap (◌∷◌ (output_capacity total n i)) (capacities-pay lock total n is)

spent :
    (utxos : List Utxo)
    → map (λ (i : CellInput). i.previous_output) (map as_previous_input utxos)
      ≡ map (λ (u : Utxo). u.out_point) utxos
spent [] = refl
spent (u ∷ us) = ap (◌∷◌ u.out_point) (spent us)

module _ (c : Crypto) (dep_group_tx_hash : Byte32) (recipient : Account) (utxos : List Utxo)
    (outputs_count : ℕ) {lock : Script} (known : lock_script c recipient ≡ ok lock) where
  -- With the hash of the dependency group, for a recipient with a lock, at least one output, and
  -- inputs that cover the fee and whose sum fits a `u64`, a transaction is constructed, whose
  -- outputs and fee together hold what its inputs hold.
  pub construct-conserves :
      0 < outputs_count
      → estimate_fee outputs_count ≤ sum (map capacity utxos)
      → sum (map capacity utxos) < u64_mod
      → Returns
          (construct_unsigned_transaction c (ok dep_group_tx_hash) recipient utxos outputs_count)
          (λ tx.
            sum (capacities tx.outputs) + estimate_fee outputs_count ≡ sum (map capacity utxos))
  unfolding construct_unsigned_transaction
  construct-conserves pos covered fits =
      rw
        (
          build_outputs-pay c recipient known,
          capacities-pay,
          sum-shares_all _ outputs_count pos,
          sum_u64-eq-sum (map capacity utxos) fits,
        )
        (omega arith)

  All-pay :
      (P : CellOutput → Type 0) (total : ℕ) (is : List ℕ)
      → ((i : ℕ) → P (pay lock total outputs_count i))
      → All P (map (pay lock total outputs_count) is)
  All-pay P total [] h = tt
  All-pay P total (i ∷ is) h = (h i, All-pay P total is h)

  output_capacity-ge :
      (total i : ℕ)
      → 0 < outputs_count
      → outputs_count * min_secp_cell_capacity ≤ total
      → min_secp_cell_capacity ≤ output_capacity total outputs_count i
  unfolding output_capacity
  output_capacity-ge total i pos enough =
      let share : min_secp_cell_capacity ≤ total / outputs_count =
        (le-div_iff_mul-le {x = min_secp_cell_capacity} pos).1 (omega arith) in
      ground arith

  -- With the hash of the dependency group, for a recipient with a lock, and inputs that pay the
  -- fee and the least capacity of each of one or more outputs and whose sum fits a `u64`, every
  -- given cell is spent, in order, and each of the outputs is the recipient's and holds that
  -- capacity.
  pub construct-outputs :
      0 < outputs_count
      → outputs_count * min_secp_cell_capacity + estimate_fee outputs_count
        ≤ sum (map capacity utxos)
      → sum (map capacity utxos) < u64_mod
      → Returns
          (construct_unsigned_transaction c (ok dep_group_tx_hash) recipient utxos outputs_count)
          (λ tx.
            (map (λ (i : CellInput). i.previous_output) tx.inputs
              ≡ map (λ (u : Utxo). u.out_point) utxos)
            × (length tx.outputs ≡ outputs_count)
            × (length tx.outputs_data ≡ outputs_count)
            × All (λ o. (o.lock ≡ lock) × (min_secp_cell_capacity ≤ o.capacity)) tx.outputs)
  unfolding construct_unsigned_transaction
  construct-outputs pos enough fits =
      rw (build_outputs-pay c recipient known, sum_u64-eq-sum (map capacity utxos) fits)
        (
          spent utxos,
          length-map _ (range_from 0 outputs_count) ∙ length-range_from 0 outputs_count,
          length-replicate outputs_count [],
          All-pay _ _ (range_from 0 outputs_count)
              (λ i. (refl, output_capacity-ge _ i pos (omega arith))),
        )
