-- ===== src/Utxo.antt =====
-- tps-bench/src/utxo.rs: an output with the place where it was made.
use ckb_bench_archived.Base.{ℕ}
use ckb_bench_archived.Chain.{OutPoint, CellOutput, CellInput}

-- `UTXO`; `UTXO::new`, `output` and `out_point` are the constructor and the fields.
pub record Utxo : Type 0 where
  pub output : CellOutput
  pub out_point : OutPoint

abbrev pub capacity : Utxo → ℕ
capacity utxo = utxo.output.capacity

-- A builder that is given no `since` leaves it 0.
abbrev pub as_previous_input : Utxo → CellInput
as_previous_input utxo = record { previous_output = utxo.out_point; since = 0 }
