-- ===== src/Account/Pull/Live.antt =====
-- What `pull_until` returns, by the chain alone: the cells of the account that are not yet spent.
use ckb_bench_archived.Base.{
  ℕ, suc, ◌≤◌, ◌≡◌, refl, ap, ◌⊎◌, inl, inr, true, false, List, [], ◌∷◌, map, some, Bool-cases,
  Elem, Elem-append, Elem-append_left, Elem-append_right, get_elem?, arith,
}
use ckb_bench_archived.Chain.{
  OutPoint, CellOutput, Script, TransactionView, BlockView, OutPoint-discrete,
}
use ckb_bench_archived.HashMap.Replay.{ComeOnce}
use ckb_bench_archived.Utxo.{Utxo}
use ckb_bench_archived.Account.Maturity.{is_matured}
use ckb_bench_archived.Account.Owned.Exact.{IsOwnedIn, behind_cellbase, found_in-IsExact}
use ckb_bench_archived.Account.Pull.{spent_points}
use ckb_bench_archived.Account.Pull.Entries.{
  entry, Elem-entry, Elem-entry_inv, Elem-dated_entry, Elem-dated_entry_inv,
}
use ckb_bench_archived.Account.Pull.Rounds.{found_at, created_matured, created_unmatured, removed}

-- A block makes a cell in a transaction behind its cellbase, or in its cellbase.
abbrev pub IsPaidIn : Script → BlockView → Utxo → Type 0
IsPaidIn lock block utxo =
    (tx : TransactionView) × Elem tx (behind_cellbase block.transactions) × IsOwnedIn lock utxo tx

abbrev pub IsMinedIn : Script → BlockView → Utxo → Type 0
IsMinedIn lock block utxo =
    (tx : TransactionView) × (get_elem? block.transactions 0 ≡ some tx) × IsOwnedIn lock utxo tx

module _ (maturity until : ℕ) (lock : Script) (chain : ℕ → BlockView) where
  -- The cell was made in the block of that number, and no block from there up to the last spends it.
  pub record IsUnspent (number : ℕ) (point : OutPoint) : Type 0 where
    pub reached : number ≤ until
    pub unspent :
        (m : ℕ) → number ≤ m → m ≤ until → ¬ Elem point (spent_points (chain m).transactions)

  -- An unspent cell of the account that can be spent now: paid to it, or mined long enough ago.
  abbrev pub IsSpendable : OutPoint → CellOutput → Type 0
  IsSpendable point output =
      (number : ℕ) × IsUnspent number point
      × (IsPaidIn lock (chain number) (record { output = output; out_point = point })
          ⊎ ((is_matured maturity until number ≡ true)
              × IsMinedIn lock (chain number) (record { output = output; out_point = point })))

  -- An unspent cell of the account that was mined too recently.
  abbrev pub IsMaturing : OutPoint → ℕ → CellOutput → Type 0
  IsMaturing point block_number output =
      (number : ℕ) × IsUnspent number point
      × (block_number ≡ (chain number).number)
      × (is_matured maturity until number ≡ false)
      × IsMinedIn lock (chain number) (record { output = output; out_point = point })

  -- The hash of a transaction is unique: an out point is made in one block, and for one output.
  abbrev pub UniquePoints : Type 0
  UniquePoints =
      (n m : ℕ) (u v : Utxo) (s t : TransactionView)
      → n ≤ until
      → m ≤ until
      → Elem s (chain n).transactions
      → Elem t (chain m).transactions
      → IsOwnedIn lock u s
      → IsOwnedIn lock v t
      → u.out_point ≡ v.out_point
      → (n ≡ m) × (u.output ≡ v.output)

  Elem-behind_cellbase :
      (tx : TransactionView) (txs : List TransactionView)
      → Elem tx (behind_cellbase txs)
      → Elem tx txs
  Elem-behind_cellbase tx [] h = h
  Elem-behind_cellbase tx (cellbase ∷ txs) h = inr h

  Elem-cellbase :
      (tx : TransactionView) (txs : List TransactionView) → get_elem? txs 0 ≡ some tx → Elem tx txs
  Elem-cellbase tx [] h = cc
  Elem-cellbase tx (cellbase ∷ txs) h = inl (cc)

  abbrev pub cell : OutPoint → CellOutput → Utxo
  cell point output = record { output = output; out_point = point }

  pub created_matured_inv :
      (n : ℕ) (point : OutPoint) (output : CellOutput)
      → Elem (point, output) (created_matured maturity until lock chain n)
      → IsPaidIn lock (chain n) (cell point output)
        ⊎ ((is_matured maturity until n ≡ true) × IsMinedIn lock (chain n) (cell point output))
  unfolding created_matured
  created_matured_inv n point output h =
      let (paid, mined) =
        found_in-IsExact lock (chain n) (chain n).transactions (cell point output) in
      elim (Elem-append (point, output) (map entry (found_at maturity until lock chain n).matured) _
        h) [
          | inl here ↦ inl (paid.0 (Elem-entry_inv point output _ here))
          | inr later ↦ elim (Bool-cases (is_matured maturity until n)) [
            | inl old ↦ inr (old, mined.0 (Elem-entry_inv point output _ (rw old at later)))
            | inr young ↦ absurd (rw young at later)
          ]
        ]

  pub Elem-created_matured :
      (n : ℕ) (point : OutPoint) (output : CellOutput)
      → IsPaidIn lock (chain n) (cell point output)
        ⊎ ((is_matured maturity until n ≡ true) × IsMinedIn lock (chain n) (cell point output))
      → Elem (point, output) (created_matured maturity until lock chain n)
  unfolding created_matured
  Elem-created_matured n point output (inl paid) =
      Elem-append_left (point, output) (map entry (found_at maturity until lock chain n).matured) _
        (Elem-entry (cell point output) _
          ((found_in-IsExact lock (chain n) (chain n).transactions (cell point output)).0.1 paid))
  Elem-created_matured n point output (inr (old, mined)) =
      Elem-append_right (point, output) (map entry (found_at maturity until lock chain n).matured) _
        (rw old (
          Elem-entry (cell point output) _ (
            (found_in-IsExact lock (chain n) (chain n).transactions (cell point output)).1.1
              mined)))

  pub created_unmatured_inv :
      (n : ℕ) (point : OutPoint) (number : ℕ) (output : CellOutput)
      → Elem (point, (number, output)) (created_unmatured maturity until lock chain n)
      → (number ≡ (chain n).number)
        × (is_matured maturity until n ≡ false)
        × IsMinedIn lock (chain n) (cell point output)
  unfolding created_unmatured
  created_unmatured_inv n point number output h = elim (Bool-cases (is_matured maturity until n)) [
    | inl old ↦ absurd (rw old at h)
    | inr young ↦
        let (same, among) =
          Elem-dated_entry_inv (chain n).number number point output _ (rw young at h) in
        (
          same,
          young,
          (found_in-IsExact lock (chain n) (chain n).transactions (cell point output)).1.0 among,
        )
  ]

  pub Elem-created_unmatured :
      (n : ℕ) (point : OutPoint) (output : CellOutput)
      → is_matured maturity until n ≡ false
      → IsMinedIn lock (chain n) (cell point output)
      → Elem (point, ((chain n).number, output)) (created_unmatured maturity until lock chain n)
  unfolding created_unmatured
  Elem-created_unmatured n point output young mined = rw young (
      Elem-dated_entry (chain n).number (cell point output) _
        ((found_in-IsExact lock (chain n) (chain n).transactions (cell point output)).1.1 mined))

  -- Either way the cell is an output of one of the block's transactions.
  anywhere :
      (n : ℕ) (utxo : Utxo)
      → IsPaidIn lock (chain n) utxo
        ⊎ ((is_matured maturity until n ≡ true) × IsMinedIn lock (chain n) utxo)
      → (tx : TransactionView) × Elem tx (chain n).transactions × IsOwnedIn lock utxo tx
  anywhere n utxo (inl (tx, among, o)) =
      (tx, Elem-behind_cellbase tx (chain n).transactions among, o)
  anywhere n utxo (inr (old, (tx, first, o))) =
      (tx, Elem-cellbase tx (chain n).transactions first, o)

  pub matured-ComeOnce :
      UniquePoints
      → ComeOnce OutPoint-discrete
          (created_matured maturity until lock chain)
          (removed maturity until lock chain)
          (suc until)
  matured-ComeOnce unique n m point u v ln lm hu hv =
      let (s, among, o) = anywhere n (cell point u) (created_matured_inv n point u hu) in
      let (t, among', o') = anywhere m (cell point v) (created_matured_inv m point v hv) in
      unique n m (cell point u) (cell point v) s t (omega arith) (omega arith) among among' o o'
        refl

  pub unmatured-ComeOnce :
      UniquePoints
      → ComeOnce OutPoint-discrete
          (created_unmatured maturity until lock chain)
          (removed maturity until lock chain)
          (suc until)
  unmatured-ComeOnce unique n m point (i, u) (j, v) ln lm hu hv =
      let (at, young, (s, first, o)) = created_unmatured_inv n point i u hu in
      let (at', young', (t, first', o')) = created_unmatured_inv m point j v hv in
      let (same, equal) =
        unique n m (cell point u) (cell point v) s t (omega arith) (omega arith)
          (Elem-cellbase s (chain n).transactions first)
          (Elem-cellbase t (chain m).transactions first') o o' refl in
      (same, ground (arith, ap (λ k. (chain k).number) same))
