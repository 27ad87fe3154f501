-- ===== src/Account/PullFrom/Lookups.antt =====
-- What `pull_from_block_number` of tps-bench/src/account.rs leaves at each point, by the cells and
-- the inputs of the block alone.
use ckb_bench_archived.Base.Outcomes.{returned}
use ckb_bench_archived.Base.{
  ℕ, ◌+◌, ◌*◌, ◌<◌, ◌≡◌, refl, ◌∙◌, ap, List, [], ◌∷◌, map, Bool, true, false, Option, none, some,
  ok, ite, ltb, if◌then◌else◌, Returns, inl, inr, Bool-cases, Option-cases, ltb→lt, u64_mod, arith,
}
use ckb_bench_archived.Chain.{OutPoint, CellOutput, Script, BlockView, OutPoint-discrete}
use ckb_bench_archived.Crypto.{Crypto}
use ckb_bench_archived.HashMap.{
  HashMap, IterOrder, get, insert, remove, insert_all, remove_all, get-remove,
}
use ckb_bench_archived.Utxo.{Utxo}
use ckb_bench_archived.Rpc.{Inner, Jsonrpc, answer}
use ckb_bench_archived.Account.{Account, lock_script}
use ckb_bench_archived.Account.Maturity.{is_matured, is_matured_iff}
use ckb_bench_archived.Account.Owned.{Found}
use ckb_bench_archived.Account.Owned.Exact.{found_in}
use ckb_bench_archived.Account.Pull.{Cells, spent_points}
use ckb_bench_archived.Account.Pull.Entries.{entry, dated_entry}
use ckb_bench_archived.Account.PullFrom.{with_block, pull_from_block_number}
use ckb_bench_archived.Account.PullFrom.Promotion.{Moved}
use ckb_bench_archived.Account.PullFrom.Block.{
  IsWellFormed, FitsWord, with_block-eq, with_block-FitsWord, pull_from_block_number-Moved,
}

-- Whether a point is one of some points.
occurs : OutPoint → List OutPoint → Bool
occurs point [] = false
occurs point (p ∷ ps) = ite (OutPoint-discrete point p) true (occurs point ps)

abbrev unless : {A : Type 0} → Bool → Option A → Option A
unless true a = none
unless false a = a

abbrev or_else : {A : Type 0} → Option A → Option A → Option A
or_else (some a) b = some a
or_else none b = b

-- The last of the cells at a point.
created : OutPoint → List Utxo → Option CellOutput
created point [] = none
created point (u ∷ us) =
    or_else (created point us) (ite (OutPoint-discrete point u.out_point) (some u.output) none)

abbrev dated_as : ℕ → Option CellOutput → Option (ℕ × CellOutput)
dated_as number none = none
dated_as number (some output) = some (number, output)

-- A maturing cell that lies more epochs than the maturity below the block can be spent; else what
-- could be spent before can, and the cell goes on maturing.
settle :
    ℕ
    → ℕ
    → Option (ℕ × CellOutput)
    → Option CellOutput
    → Option CellOutput × Option (ℕ × CellOutput)
settle maturity number none kept = (kept, none)
settle maturity number (some (n, output)) kept =
    if ltb (n + 1800 * maturity) number then (some output, none) else (kept, some (n, output))

-- What is maturing at a point and what can be spent there, after the changes of the block itself: an
-- input of the block removes what was there, and what the block pays, but not what its cellbase pays.
module _ (number : ℕ) (block : BlockView) (found : Found) (cells : Cells) (point : OutPoint) where
  maturing : Option (ℕ × CellOutput)
  unfolding created occurs
  maturing = or_else (dated_as number (created point found.unmatured)) (
      unless (occurs point (spent_points block.transactions))
        (get OutPoint-discrete point cells.unmatureds))

  spendable : Option CellOutput
  unfolding created occurs
  spendable =
      unless (occurs point (spent_points block.transactions))
        (or_else (created point found.matured) (get OutPoint-discrete point cells.utxoset))

-- What a point holds in the two maps after a block.
unfoldable pub updated :
    ℕ → ℕ → BlockView → Found → Cells → OutPoint → Option CellOutput × Option (ℕ × CellOutput)
unfolding settle maturing spendable
updated maturity number block found cells point =
    settle maturity number (maturing number block found cells point)
      (spendable number block found cells point)

module _ {P A : Type 0} where
  unless-ite :
      (d : Dec P) (b : Bool) (a : Option A) → unless b (ite d none a) ≡ unless (ite d true b) a
  unless-ite (yes p) true a = refl
  unless-ite (yes p) false a = refl
  unless-ite (no p) b a = refl

  or_else-ite :
      (d : Dec P) (a r : Option A) (x : A)
      → or_else a (ite d (some x) (ite d none r)) ≡ or_else (or_else a (ite d (some x) none)) r
  or_else-ite (yes p) none r x = refl
  or_else-ite (no p) none r x = refl
  or_else-ite d (some a) r x = refl

dated_as-ite :
    {P : Type 0} (d : Dec P) (number : ℕ) (o : Option CellOutput) (x : CellOutput)
    → or_else (dated_as number o) (ite d (some (number, x)) none)
      ≡ dated_as number (or_else o (ite d (some x) none))
dated_as-ite (yes p) number none x = refl
dated_as-ite (no p) number none x = refl
dated_as-ite d number (some o) x = refl

module _ {V : Type 0} where
  get-remove_all :
      (point : OutPoint) (ps : List OutPoint) (m : HashMap OutPoint V)
      → get OutPoint-discrete point (remove_all OutPoint-discrete ps m)
        ≡ unless (occurs point ps) (get OutPoint-discrete point m)
  unfolding occurs
  get-remove_all point [] m = refl
  get-remove_all point (p ∷ ps) m =
      get-remove_all point ps (remove OutPoint-discrete p m)
      ∙ rw (get-remove OutPoint-discrete point p m)
          (unless-ite (OutPoint-discrete point p) (occurs point ps) _)

get-insert_paid :
    (point : OutPoint) (us : List Utxo) (m : HashMap OutPoint CellOutput)
    → get OutPoint-discrete point (insert_all OutPoint-discrete (map entry us) m)
      ≡ or_else (created point us) (get OutPoint-discrete point m)
unfolding created
get-insert_paid point [] m = refl
get-insert_paid point (u ∷ us) m =
    get-insert_paid point us (insert OutPoint-discrete u.out_point u.output m)
    ∙ rw (get-remove OutPoint-discrete point u.out_point m)
        (or_else-ite (OutPoint-discrete point u.out_point) (created point us) _ u.output)

get-insert_mined :
    (number : ℕ) (point : OutPoint) (us : List Utxo) (m : HashMap OutPoint (ℕ × CellOutput))
    → get OutPoint-discrete point (insert_all OutPoint-discrete (map (dated_entry number) us) m)
      ≡ or_else (dated_as number (created point us)) (get OutPoint-discrete point m)
unfolding created
get-insert_mined number point [] m = refl
get-insert_mined number point (u ∷ us) m =
    get-insert_mined number point us (insert OutPoint-discrete u.out_point (number, u.output) m)
    ∙ rw (get-remove OutPoint-discrete point u.out_point m) (
        or_else-ite (OutPoint-discrete point u.out_point) (dated_as number (created point us)) _
          (number, u.output)
        ∙ ap (λ o. or_else o (get OutPoint-discrete point m))
            (dated_as-ite (OutPoint-discrete point u.out_point) number (created point us) u.output))

module _ (number : ℕ) (block : BlockView) (found : Found) (cells : Cells) (point : OutPoint) where
  get-with_block :
      (get OutPoint-discrete point (with_block number block found cells).unmatureds
        ≡ maturing number block found cells point)
      × (get OutPoint-discrete point (with_block number block found cells).utxoset
          ≡ spendable number block found cells point)
  unfolding maturing spendable
  get-with_block =
      let spent = spent_points block.transactions in
      rw (with_block-eq number block found cells) (
        get-insert_mined number point found.unmatured
              (remove_all OutPoint-discrete spent cells.unmatureds)
            ∙ ap (or_else (dated_as number (created point found.unmatured)))
                (get-remove_all point spent cells.unmatureds),
        get-remove_all point spent
              (insert_all OutPoint-discrete (map entry found.matured) cells.utxoset)
            ∙ ap (unless (occurs point spent)) (get-insert_paid point found.matured cells.utxoset),
      )

-- The entries that have moved are those that `settle` moves.
Moved-settle :
    (maturity number : ℕ) (point : OutPoint) (before after : Cells)
    → FitsWord maturity before
    → Moved maturity number point before after
    → (get OutPoint-discrete point after.utxoset, get OutPoint-discrete point after.unmatureds)
      ≡ settle maturity number
          (get OutPoint-discrete point before.unmatureds)
          (get OutPoint-discrete point before.utxoset)
unfolding settle
Moved-settle maturity number point before after fits (old, young, other) =
    elim (Option-cases (get OutPoint-discrete point before.unmatureds)) [
      | inl absent ↦ let (a, b) = other absent in rw (absent, a, b) refl
      | inr ((n, output), there) ↦
          let iff = is_matured_iff maturity number n (fits point n output there) in
          elim (Bool-cases (ltb (n + 1800 * maturity) number)) [
            | inl less ↦
                let (a, b) = old n output there (iff.1 (ltb→lt _ _ less)) in
                rw (there, less, a, b) refl
            | inr more ↦
                let (a, b) =
                  young n output there (elim (Bool-cases (is_matured maturity number n)) [
                    | inl matured ↦ absurd (ground (arith, iff.0 matured, more))
                    | inr not_matured ↦ not_matured
                  ]) in
                rw (there, more, a, b) refl
          ]
    ]

module _ {W : Type 0} (inner : Inner W) (c : Crypto) (maturity : ℕ) (account : Account)
    (order : IterOrder OutPoint (ℕ × CellOutput)) (rpc : Jsonrpc) (rpcs : List Jsonrpc) (number : ℕ)
    (block : BlockView) (w w' : W) (cells : Cells) where
  -- If the first node has the block, no point has two entries in a map, and no sum of a number
  -- and the maturity wraps: the call returns, and the two maps then hold at each point what
  -- `updated` makes of the block, of its cells of the account and of the maps before. What the
  -- cellbase pays, or what was maturing and is no input of the block, can be spent if it lies
  -- more epochs than the maturity below the block, and else it is maturing; where no cell becomes
  -- spendable in this way, what the block pays or what could be spent before can be spent, if it
  -- is no input of the block.
  pub pull_from_block_number-updated :
      {lock : Script}
      → lock_script c account ≡ ok lock
      → inner.get_block_by_number rpc.uri number w ≡ (answer (some block), w')
      → IsWellFormed cells
      → FitsWord maturity cells
      → number + 1800 * maturity < u64_mod
      → Returns
          (pull_from_block_number inner c maturity account order
            (record { endpoints = rpc ∷ rpcs })
            number
            cells
            w).0
          (λ after.
            (point : OutPoint)
            → (
              get OutPoint-discrete point after.utxoset,
              get OutPoint-discrete point after.unmatureds,
            )
              ≡ updated maturity number block (found_in lock block.transactions) cells point)
  unfolding updated
  pull_from_block_number-updated {lock} known answered formed fits fit =
      let found = found_in lock block.transactions in
      let middle = with_block number block found cells in
      let fits' : FitsWord maturity middle =
        with_block-FitsWord maturity number block found cells fit fits in
      let (after, ran, (well, moved)) =
        returned
          {P = λ after.
            IsWellFormed after × ((point : OutPoint) → Moved maturity number point middle after)}
          (pull_from_block_number inner c maturity account order (record { endpoints = rpc ∷ rpcs })
            number cells w).0
          (pull_from_block_number-Moved inner c maturity account order rpc rpcs number block w w'
            cells known answered formed fits fit) in
      rw ran (λ point.
        let (a, b) = get-with_block number block found cells point in
        rw (← a, ← b) (Moved-settle maturity number point middle after fits' (moved point)))
