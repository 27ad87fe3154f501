-- ===== src/Account/Pull.antt =====
-- `pull_until`, `pull_from_block_number` and `construct_utxo_vec` of tps-bench/src/account.rs: the
-- cells that an account can spend, read off the blocks of the chain. The global `CELLBASE_MATURITY`
-- is the argument `maturity`. Progress lines of the log are left out.
pub mod Entries
pub mod Rounds
pub mod Live
pub mod Until
mod Tests
use ckb_bench_archived.Base.{
  ℕ, ◌+◌, List, [], ◌∷◌, ◌++◌, map, Bool, true, false, Option, none, some, Outcome, Action, unwrap,
  if◌then◌else◌, range_inclusive, length,
}
use ckb_bench_archived.Base.Effects.{pure, lift, ◌>>=◌, for_each}
use ckb_bench_archived.Chain.{
  OutPoint, CellOutput, CellInput, TransactionView, HeaderView, BlockView, OutPoint-discrete,
}
use ckb_bench_archived.Crypto.{Crypto}
use ckb_bench_archived.HashMap.{HashMap, IterOrder, insert, remove}
use ckb_bench_archived.Utxo.{Utxo}
use ckb_bench_archived.Rpc.{Inner, Jsonrpc}
use ckb_bench_archived.Rpc
use ckb_bench_archived.Account.{Account}
use ckb_bench_archived.Account.Maturity.{is_matured}
use ckb_bench_archived.Account.Owned.{Found, get_owned_utxos}

-- The two maps: cells that can be spent, and cellbase cells with the number of their block.
pub record Cells : Type 0 where
  pub utxoset : HashMap OutPoint CellOutput
  pub unmatureds : HashMap OutPoint (ℕ × CellOutput)

abbrev pub no_cells : Cells
no_cells = record { utxoset = []; unmatureds = [] }

-- `for utxo in matured { utxoset.insert(…) }`
unfoldable pub add_matured : List Utxo → Cells → Cells
add_matured [] cells = cells
add_matured (utxo ∷ utxos) cells =
    add_matured utxos
      (record cells { utxoset = insert OutPoint-discrete utxo.out_point utxo.output cells.utxoset })

-- The body of `for utxo in unmatured` in `pull_until`.
pub add_by_age : ℕ → ℕ → ℕ → ℕ → Utxo → Cells → Cells
add_by_age maturity until number block_number utxo cells =
    if is_matured maturity until number
    then record cells {
      utxoset = insert OutPoint-discrete utxo.out_point utxo.output cells.utxoset;
    }
    else record cells {
      unmatureds =
          insert OutPoint-discrete utxo.out_point (block_number, utxo.output) cells.unmatureds;
    }

pub add_unmatured : ℕ → ℕ → ℕ → ℕ → List Utxo → Cells → Cells
unfolding add_by_age
add_unmatured maturity until number block_number [] cells = cells
add_unmatured maturity until number block_number (utxo ∷ utxos) cells =
    add_unmatured maturity until number block_number utxos
      (add_by_age maturity until number block_number utxo cells)

-- `transaction.input_pts_iter()` of every transaction, in order
abbrev pub input_points : List CellInput → List OutPoint
input_points = map (λ input. input.previous_output)

abbrev pub spent_points : List TransactionView → List OutPoint
spent_points [] = []
spent_points (tx ∷ txs) = input_points tx.inputs ++ spent_points txs

-- The two loops that remove spent cells from both maps.
unfoldable pub remove_spent : List OutPoint → Cells → Cells
remove_spent [] cells = cells
remove_spent (point ∷ points) cells = remove_spent points (record {
  utxoset = remove OutPoint-discrete point cells.utxoset;
  unmatureds = remove OutPoint-discrete point cells.unmatureds;
})

-- The body of the loop over the numbers, once the block is there.
pub pull_block : ℕ → ℕ → ℕ → BlockView → Found → Cells → Cells
unfolding add_matured add_unmatured remove_spent
pull_block maturity until number block found cells =
    remove_spent (spent_points block.transactions) (
      add_unmatured maturity until number block.number found.unmatured
        (add_matured found.matured cells))

module _ {W : Type 0} (inner : Inner W) (c : Crypto) (maturity : ℕ) (account : Account) where
  unfoldable pub pull_number : Jsonrpc → ℕ → ℕ → Cells → Action W Cells
  unfolding pull_block
  pull_number rpc until number cells = do
    reply ← Rpc.get_block_by_number inner rpc number
    block ← lift (unwrap reply "get_block_by_number")
    found ← lift (get_owned_utxos c account block)
    pure (pull_block maturity until number block found cells)

  -- `Account::pull_until`
  unfoldable pub pull_until : Jsonrpc → HeaderView → Action W Cells
  pull_until rpc until_header =
      for_each (range_inclusive 0 until_header.number) (pull_number rpc until_header.number)
        no_cells
