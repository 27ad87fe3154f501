-- ===== src/Account/PullFrom.antt =====
-- `pull_from_block_number` and `construct_utxo_vec` of tps-bench/src/account.rs: the maps of
-- `pull_until` brought up to date with a block that the miner has just made, and turned into vectors.
-- The order in which the maps are iterated is an argument.
pub mod Promotion
pub mod Vectors
pub mod Block
pub mod Lookups
mod Tests
use ckb_bench_archived.Base.{
  ℕ, List, [], ◌∷◌, map, Bool, true, false, Option, some, none, Outcome, Action, unwrap,
  if◌then◌else◌,
}
use ckb_bench_archived.Base.Effects.{pure, lift, ◌>>=◌}
use ckb_bench_archived.Base.Sorting.{sort_by_key}
use ckb_bench_archived.Chain.{OutPoint, CellOutput, BlockView, OutPoint-discrete}
use ckb_bench_archived.Crypto.{Crypto}
use ckb_bench_archived.HashMap.{HashMap, IterOrder, insert, remove}
use ckb_bench_archived.Utxo.{Utxo}
use ckb_bench_archived.Rpc.{Inner}
use ckb_bench_archived.Rpc
use ckb_bench_archived.Net.{Net, first_endpoint}
use ckb_bench_archived.Account.{Account}
use ckb_bench_archived.Account.Maturity.{is_matured}
use ckb_bench_archived.Account.Owned.{Found, get_owned_utxos}
use ckb_bench_archived.Account.Pull.{Cells, add_matured, spent_points, remove_spent}

-- `for utxo in unmatured { unmatureds.insert(…) }`
add_dated : ℕ → List Utxo → Cells → Cells
add_dated block_number [] cells = cells
add_dated block_number (utxo ∷ utxos) cells = add_dated block_number utxos (record cells {
  unmatureds = insert OutPoint-discrete utxo.out_point (block_number, utxo.output) cells.unmatureds;
})

-- An entry of the map of maturing cells, as the closures of `map` make it.
abbrev pub dated_utxo : OutPoint × (ℕ × CellOutput) → ℕ × Utxo
dated_utxo (out_point, (number, output)) =
    (number, record { output = output; out_point = out_point })

-- The entries in the order of the iteration, sorted by their numbers.
unfoldable pub sorted_by_number :
    IterOrder OutPoint (ℕ × CellOutput) → HashMap OutPoint (ℕ × CellOutput) → List (ℕ × Utxo)
sorted_by_number order unmatureds = sort_by_key (λ e. e.0) (map dated_utxo (order.iter unmatureds))

-- The loop that moves the first entries as long as they are matured.
promote : ℕ → ℕ → List (ℕ × Utxo) → Cells → Cells
promote maturity block_number [] cells = cells
promote maturity block_number ((number, utxo) ∷ rest) cells =
    let moved = promote maturity block_number rest (record {
      utxoset = insert OutPoint-discrete utxo.out_point utxo.output cells.utxoset;
      unmatureds = remove OutPoint-discrete utxo.out_point cells.unmatureds;
    }) in
    if is_matured maturity block_number number then moved else cells

-- What the block itself changes, before cells are promoted.
unfoldable pub with_block : ℕ → BlockView → Found → Cells → Cells
unfolding add_dated
with_block block_number block found cells =
    add_dated block_number found.unmatured
      (remove_spent (spent_points block.transactions) (add_matured found.matured cells))

unfoldable pub promote_matured : IterOrder OutPoint (ℕ × CellOutput) → ℕ → ℕ → Cells → Cells
unfolding promote
promote_matured order maturity block_number cells =
    promote maturity block_number (sorted_by_number order cells.unmatureds) cells

module _ {W : Type 0} (inner : Inner W) (c : Crypto) (maturity : ℕ) (account : Account)
    (order : IterOrder OutPoint (ℕ × CellOutput)) where
  -- `Account::pull_from_block_number`
  unfoldable pub pull_from_block_number : Net → ℕ → Cells → Action W Cells
  pull_from_block_number net block_number cells = do
    rpc ← lift (first_endpoint net)
    reply ← Rpc.get_block_by_number inner rpc block_number
    block ← lift (unwrap reply "get_block_by_number")
    found ← lift (get_owned_utxos c account block)
    pure (promote_matured order maturity block_number (with_block block_number block found cells))

-- `Account::construct_utxo_vec`
unfoldable pub construct_utxo_vec :
    IterOrder OutPoint CellOutput
    → IterOrder OutPoint (ℕ × CellOutput)
    → Cells
    → List Utxo × List (ℕ × Utxo)
construct_utxo_vec utxo_order order cells = (
  map (λ (out_point, output). record { output = output; out_point = out_point })
      (utxo_order.iter cells.utxoset),
  sorted_by_number order cells.unmatureds,
)
