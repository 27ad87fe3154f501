-- ===== src/Account/PullFrom/Block.antt =====
-- `pull_from_block_number` as a whole: what a block brings and spends, and what it promotes.
use ckb_bench_archived.Base.{
  ℕ, ◌+◌, ◌*◌, ◌<◌, ◌≡◌, refl, List, [], ◌∷◌, map, some, ok, ◌⊎◌, inl, inr, Returns, Bool-cases,
  u64_mod,
}
use ckb_bench_archived.Chain.{OutPoint, CellOutput, Script, BlockView, OutPoint-discrete}
use ckb_bench_archived.Crypto.{Crypto}
use ckb_bench_archived.HashMap.{
  IterOrder, get, insert_all, remove_all, Distinct, insert-Distinct, remove-Distinct,
}
use ckb_bench_archived.HashMap.Replay.{
  insert_all-some, remove_all-some, insert_all-Distinct, remove_all-Distinct,
}
use ckb_bench_archived.Utxo.{Utxo}
use ckb_bench_archived.Rpc.{Inner, Jsonrpc, answer}
use ckb_bench_archived.Net.{first_endpoint}
use ckb_bench_archived.Account.{Account, lock_script}
use ckb_bench_archived.Account.Maturity.{is_matured}
use ckb_bench_archived.Account.Owned.{Found}
use ckb_bench_archived.Account.Owned.Exact.{found_in, get_owned_utxos-found_in}
use ckb_bench_archived.Account.Pull.{Cells, spent_points}
use ckb_bench_archived.Account.Pull.Entries.{entry, dated_entry, Elem-dated_entry_inv}
use ckb_bench_archived.Account.Pull.Rounds.{add_matured-insert_all, remove_spent-remove_all}
use ckb_bench_archived.Account.PullFrom.{
  add_dated, with_block, sorted_by_number, promote, promote_matured, pull_from_block_number,
}
use ckb_bench_archived.Account.PullFrom.Promotion.{Moved, promote_matured-Moved}

add_dated-insert_all :
    (number : ℕ) (utxos : List Utxo) (cells : Cells)
    → add_dated number utxos cells ≡ record cells {
      unmatureds = insert_all OutPoint-discrete (map (dated_entry number) utxos) cells.unmatureds;
    }
unfolding add_dated
add_dated-insert_all number [] cells = refl
add_dated-insert_all number (u ∷ us) cells = add_dated-insert_all number us _

pub with_block-eq :
    (number : ℕ) (block : BlockView) (found : Found) (cells : Cells)
    → let spent = spent_points block.transactions in
      with_block number block found cells ≡ record {
        utxoset =
            remove_all OutPoint-discrete spent
              (insert_all OutPoint-discrete (map entry found.matured) cells.utxoset);
        unmatureds =
            insert_all OutPoint-discrete
              (map (dated_entry number) found.unmatured)
              (remove_all OutPoint-discrete spent cells.unmatureds);
      }
unfolding with_block
with_block-eq number block found cells =
    rw (add_dated-insert_all, remove_spent-remove_all, add_matured-insert_all) refl

-- No point has two entries in either map.
pub record IsWellFormed (cells : Cells) : Type 0 where
  pub utxoset : Distinct OutPoint-discrete cells.utxoset
  pub unmatureds : Distinct OutPoint-discrete cells.unmatureds

with_block-IsWellFormed :
    (number : ℕ) (block : BlockView) (found : Found) (cells : Cells)
    → IsWellFormed cells
    → IsWellFormed (with_block number block found cells)
with_block-IsWellFormed number block found cells h =
    let spent = spent_points block.transactions in
    let paid = map entry found.matured in
    let mined = map (dated_entry number) found.unmatured in
    rw (with_block-eq number block found cells) (record {
      utxoset =
          remove_all-Distinct OutPoint-discrete spent
            (insert_all OutPoint-discrete paid cells.utxoset)
            (insert_all-Distinct OutPoint-discrete paid cells.utxoset h.utxoset);
      unmatureds =
          insert_all-Distinct OutPoint-discrete mined
            (remove_all OutPoint-discrete spent cells.unmatureds)
            (remove_all-Distinct OutPoint-discrete spent cells.unmatureds h.unmatureds);
    })

promote-IsWellFormed :
    (maturity number : ℕ) (vec : List (ℕ × Utxo)) (cells : Cells)
    → IsWellFormed cells
    → IsWellFormed (promote maturity number vec cells)
unfolding promote
promote-IsWellFormed maturity number [] cells h = h
promote-IsWellFormed maturity number ((n, u) ∷ rest) cells h =
    elim (Bool-cases (is_matured maturity number n)) [
      | inl old ↦ rw old (
          promote-IsWellFormed maturity number rest _ (record {
            utxoset =
                insert-Distinct OutPoint-discrete u.out_point u.output cells.utxoset h.utxoset;
            unmatureds =
                remove-Distinct OutPoint-discrete u.out_point cells.unmatureds h.unmatureds;
          }))
      | inr young ↦ rw young h
    ]

-- An entry that is maturing after the block was there before, or carries the block's number.
with_block-unmatureds :
    (number : ℕ) (block : BlockView) (found : Found) (cells : Cells) (p : OutPoint) (n : ℕ)
    (o : CellOutput)
    → get OutPoint-discrete p (with_block number block found cells).unmatureds ≡ some (n, o)
    → (n ≡ number) ⊎ (get OutPoint-discrete p cells.unmatureds ≡ some (n, o))
with_block-unmatureds number block found cells p n o h =
    elim (insert_all-some OutPoint-discrete p (n, o) (map (dated_entry number) found.unmatured)
      (remove_all OutPoint-discrete (spent_points block.transactions) cells.unmatureds)
      (rw (with_block-eq number block found cells) at h)) [
        | inl new ↦ inl (Elem-dated_entry_inv number n p o found.unmatured new).0
        | inr old ↦
            inr
              (remove_all-some OutPoint-discrete p (n, o) (spent_points block.transactions)
                cells.unmatureds old).1
      ]

-- No sum of a block's number and the maturity wraps.
abbrev pub FitsWord : ℕ → Cells → Type 0
FitsWord maturity cells =
    (p : OutPoint) (n : ℕ) (o : CellOutput)
    → get OutPoint-discrete p cells.unmatureds ≡ some (n, o)
    → n + 1800 * maturity < u64_mod

pub with_block-FitsWord :
    (maturity number : ℕ) (block : BlockView) (found : Found) (cells : Cells)
    → number + 1800 * maturity < u64_mod
    → FitsWord maturity cells
    → FitsWord maturity (with_block number block found cells)
with_block-FitsWord maturity number block found cells fit fits p n o h =
    elim (with_block-unmatureds number block found cells p n o h) [
      | inl e ↦ rw e fit
      | inr old ↦ fits p n o old
    ]

module _ {W : Type 0} (inner : Inner W) (c : Crypto) (maturity : ℕ) (account : Account)
    (order : IterOrder OutPoint (ℕ × CellOutput)) (rpc : Jsonrpc) (rpcs : List Jsonrpc) (number : ℕ)
    (block : BlockView) (w w' : W) (cells : Cells) where
  -- If the first node has the block, the call returns; the maps stay well formed, and after the
  -- changes of the block itself every matured entry, and no other, has moved between the maps.
  pub pull_from_block_number-Moved :
      {lock : Script}
      → lock_script c account ≡ ok lock
      → inner.get_block_by_number rpc.uri number w ≡ (answer (some block), w')
      → IsWellFormed cells
      → FitsWord maturity cells
      → number + 1800 * maturity < u64_mod
      → Returns
          (pull_from_block_number inner c maturity account order
            (record { endpoints = rpc ∷ rpcs })
            number
            cells
            w).0
          (λ after.
            IsWellFormed after
            × ((point : OutPoint)
                → Moved maturity number point
                    (with_block number block (found_in lock block.transactions) cells)
                    after))
  unfolding pull_from_block_number first_endpoint
  pull_from_block_number-Moved {lock} known answered formed fits fit =
      let found = found_in lock block.transactions in
      let middle = with_block number block found cells in
      let well : IsWellFormed middle = with_block-IsWellFormed number block found cells formed in
      let fits' = with_block-FitsWord maturity number block found cells fit fits in
      rw (answered, get_owned_utxos-found_in c account block known)
        (
          promotion middle well,
          λ point. promote_matured-Moved maturity number order middle point well.unmatureds fits',
        )
    where
      promotion :
          (m : Cells) → IsWellFormed m → IsWellFormed (promote_matured order maturity number m)
      promotion m h =
          unfold promote_matured in
          promote-IsWellFormed maturity number (sorted_by_number order m.unmatureds) m h
