-- ===== src/Account/Pull/Rounds.antt =====
-- The loops of `pull_until` as rounds of a replay: which entries come with a block, and which go.
use native.Mathlib.Numerals.{add-one}
use ckb_bench_archived.Base.{
  ℕ, zero, suc, ◌+◌, ◌-◌, ◌≤◌, ◌≡◌, refl, true, false, List, [], ◌∷◌, ◌++◌, map, ok, if◌then◌else◌,
  range_from, Bool-cases, inl, inr, arith,
}
use ckb_bench_archived.Base.Effects.{for_each}
use ckb_bench_archived.Chain.{
  OutPoint, CellOutput, Script, HeaderView, BlockView, OutPoint-discrete,
}
use ckb_bench_archived.Crypto.{Crypto}
use ckb_bench_archived.HashMap.{insert_all, remove_all}
use ckb_bench_archived.HashMap.Replay.{replay, insert_all-append}
use ckb_bench_archived.Utxo.{Utxo}
use ckb_bench_archived.Rpc.Answers.{Serves}
use ckb_bench_archived.Rpc.{Inner, Jsonrpc}
use ckb_bench_archived.Account.{Account, lock_script}
use ckb_bench_archived.Account.Maturity.{is_matured}
use ckb_bench_archived.Account.Owned.{Found}
use ckb_bench_archived.Account.Owned.Exact.{found_in, get_owned_utxos-found_in}
use ckb_bench_archived.Account.Pull.Entries.{entry, dated_entry}
use ckb_bench_archived.Account.Pull.{
  Cells, add_matured, add_unmatured, remove_spent, spent_points, pull_block, pull_number,
  pull_until,
}

pub add_matured-insert_all :
    (utxos : List Utxo) (cells : Cells)
    → add_matured utxos cells
      ≡ record cells { utxoset = insert_all OutPoint-discrete (map entry utxos) cells.utxoset }
unfolding add_matured
add_matured-insert_all [] cells = refl
add_matured-insert_all (u ∷ us) cells = add_matured-insert_all us _

pub remove_spent-remove_all :
    (points : List OutPoint) (cells : Cells)
    → remove_spent points cells ≡ record {
      utxoset = remove_all OutPoint-discrete points cells.utxoset;
      unmatureds = remove_all OutPoint-discrete points cells.unmatureds;
    }
unfolding remove_spent
remove_spent-remove_all [] cells = refl
remove_spent-remove_all (p ∷ ps) cells = remove_spent-remove_all ps _

add_unmatured-old :
    (maturity until number block_number : ℕ) (utxos : List Utxo) (cells : Cells)
    → is_matured maturity until number ≡ true
    → add_unmatured maturity until number block_number utxos cells
      ≡ record cells { utxoset = insert_all OutPoint-discrete (map entry utxos) cells.utxoset }
unfolding add_unmatured
add_unmatured-old maturity until number block_number [] cells h = refl
add_unmatured-old maturity until number block_number (u ∷ us) cells h =
    rw h (add_unmatured-old maturity until number block_number us _ h)

add_unmatured-young :
    (maturity until number block_number : ℕ) (utxos : List Utxo) (cells : Cells)
    → is_matured maturity until number ≡ false
    → add_unmatured maturity until number block_number utxos cells ≡ record cells {
      unmatureds =
          insert_all OutPoint-discrete (map (dated_entry block_number) utxos) cells.unmatureds;
    }
unfolding add_unmatured
add_unmatured-young maturity until number block_number [] cells h = refl
add_unmatured-young maturity until number block_number (u ∷ us) cells h =
    rw h (add_unmatured-young maturity until number block_number us _ h)

-- The entries that come with the block of a number, for each of the maps, and the keys that go.
module _ (maturity until : ℕ) (lock : Script) (chain : ℕ → BlockView) where
  abbrev pub found_at : ℕ → Found
  found_at n = found_in lock (chain n).transactions

  unfoldable pub created_matured : ℕ → List (OutPoint × CellOutput)
  created_matured n =
      map entry (found_at n).matured
      ++ (if is_matured maturity until n then map entry (found_at n).unmatured else [])

  unfoldable pub created_unmatured : ℕ → List (OutPoint × (ℕ × CellOutput))
  created_unmatured n =
      if is_matured maturity until n
      then []
      else map (dated_entry (chain n).number) (found_at n).unmatured

  abbrev pub removed : ℕ → List OutPoint
  removed n = spent_points (chain n).transactions

  unfoldable pub cells_at : ℕ → Cells
  cells_at n = record {
    utxoset = replay OutPoint-discrete created_matured removed n;
    unmatureds = replay OutPoint-discrete created_unmatured removed n;
  }

  pull_block-cells_at :
      (n : ℕ) → pull_block maturity until n (chain n) (found_at n) (cells_at n) ≡ cells_at (suc n)
  unfolding pull_block cells_at created_matured created_unmatured replay
  pull_block-cells_at n =
      rw (remove_spent-remove_all, add_matured-insert_all, insert_all-append OutPoint-discrete)
        (elim (Bool-cases (is_matured maturity until n)) [
          | inl old ↦
              rw
                (
                  add_unmatured-old maturity until n (chain n).number (found_at n).unmatured _ old,
                  old,
                )
                refl
          | inr young ↦
              rw
                (
                  add_unmatured-young maturity until n (chain n).number (found_at n).unmatured _
                      young,
                  young,
                )
                refl
        ])

module _ {W : Type 0} (inner : Inner W) (c : Crypto) (maturity : ℕ) (account : Account)
    {lock : Script} (rpc : Jsonrpc) (until : ℕ) (chain : ℕ → BlockView)
    (known : lock_script c account ≡ ok lock) (serves : Serves inner rpc chain until) where
  pull_number-cells_at :
      (n : ℕ) (w : W)
      → n ≤ until
      → (w' : W) × (pull_number inner c maturity account rpc until n
            (cells_at maturity until lock chain n)
            w
          ≡ (ok (cells_at maturity until lock chain (n + 1)), w'))
  unfolding pull_number
  pull_number-cells_at n w le =
      let (w', answered) = serves w n le in
      (
        w',
        rw
            (
              answered,
              get_owned_utxos-found_in c account (chain n) known,
              pull_block-cells_at maturity until lock chain n,
              add-one,
            )
            refl,
      )

  -- The loop over `count` numbers from `start` plays these rounds.
  for_each-cells_at :
      (count start end : ℕ) (w : W)
      → start + count ≡ end
      → end ≤ suc until
      → (w' : W) × (for_each
            (range_from start count)
            (pull_number inner c maturity account rpc until)
            (cells_at maturity until lock chain start)
            w
          ≡ (ok (cells_at maturity until lock chain end), w'))
  unfolding for_each
  for_each-cells_at zero start end w e le =
      let same : start ≡ end = omega arith in (w, rw same refl)
  for_each-cells_at (suc count) start end w e le =
      let (w', stepped) = pull_number-cells_at start w (omega arith) in
      let (w'', rest) = for_each-cells_at count (start + 1) end w' (omega arith) le in
      (w'', rw stepped rest)

  pub pull_until-cells_at :
      (until_header : HeaderView) (w : W)
      → until_header.number ≡ until
      → (w' : W) × (pull_until inner c maturity account rpc until_header w
          ≡ (ok (cells_at maturity until lock chain (suc until)), w'))
  unfolding pull_until cells_at replay
  pull_until-cells_at until_header w e =
      rw e (for_each-cells_at (until + 1 - 0) 0 (suc until) w (omega arith) (omega arith))
