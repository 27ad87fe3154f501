-- ===== src/Account/Owned/Exact.antt =====
-- `get_owned_utxos` finds exactly the outputs of a block that carry the account's lock, and tells
-- those of the cellbase from the others.
use mathlib.Core.List.{append_assoc, append-nil}
use ckb_bench_archived.Base.{
  ℕ, zero, suc, ◌+◌, ◌≡◌, refl, ap, ◌↔◌, inl, inr, ite, if_pos, if_neg, List, [], ◌∷◌, ◌++◌, some,
  ok, Returns, get_elem?, Elem, Elem-append, Elem-append_left, Elem-append_right, arith,
}
use ckb_bench_archived.Chain.{
  Byte32, Script, OutPoint, CellOutput, TransactionView, BlockView, Script-discrete,
}
use ckb_bench_archived.Crypto.{Crypto}
use ckb_bench_archived.Utxo.{Utxo}
use ckb_bench_archived.Account.{Account, lock_script}
use ckb_bench_archived.Account.Owned.{
  Found, push_owned, scan_outputs, scan_transactions, get_owned_utxos,
}

-- The cells with the lock among the outputs from a place on.
owned : Script → Byte32 → ℕ → List CellOutput → List Utxo
owned lock tx_hash index [] = []
owned lock tx_hash index (output ∷ outputs) =
    ite (Script-discrete lock output.lock)
      (record { output = output; out_point = record { tx_hash = tx_hash; index = index } }
        ∷ owned lock tx_hash (index + 1) outputs)
      (owned lock tx_hash (index + 1) outputs)

owned_of : Script → List TransactionView → List Utxo
unfolding owned
owned_of lock [] = []
owned_of lock (tx ∷ txs) = owned lock tx.hash 0 tx.outputs ++ owned_of lock txs

-- A cell with the lock stands in a transaction, at the place that its out point names.
abbrev pub IsOwnedIn : Script → Utxo → TransactionView → Type 0
IsOwnedIn lock utxo tx =
    (utxo.out_point.tx_hash ≡ tx.hash)
    × (get_elem? tx.outputs utxo.out_point.index ≡ some utxo.output)
    × (utxo.output.lock ≡ lock)

scan_outputs-cellbase :
    (lock : Script) (tx_hash : Byte32) (index : ℕ) (outputs : List CellOutput) (found : Found)
    → scan_outputs lock 0 tx_hash index outputs found
      ≡ record found { unmatured = found.unmatured ++ owned lock tx_hash index outputs }
unfolding scan_outputs owned
scan_outputs-cellbase lock tx_hash index [] found = simp append-nil
scan_outputs-cellbase lock tx_hash index (output ∷ outputs) found =
    rw
      (scan_outputs-cellbase lock tx_hash (index + 1) outputs
        (push_owned lock 0 tx_hash index output found))
      (ground (
        arith,
        append_assoc found.unmatured
            (record { output = output; out_point = record { tx_hash = tx_hash; index = index } }
              ∷ [])
            (owned lock tx_hash (index + 1) outputs),
      ))

scan_outputs-other :
    (lock : Script) (n : ℕ) (tx_hash : Byte32) (index : ℕ) (outputs : List CellOutput)
    (found : Found)
    → scan_outputs lock (n + 1) tx_hash index outputs found
      ≡ record found { matured = found.matured ++ owned lock tx_hash index outputs }
unfolding scan_outputs owned
scan_outputs-other lock n tx_hash index [] found = simp append-nil
scan_outputs-other lock n tx_hash index (output ∷ outputs) found =
    rw
      (scan_outputs-other lock n tx_hash (index + 1) outputs
        (push_owned lock (n + 1) tx_hash index output found))
      (ground (
        arith,
        append_assoc found.matured
            (record { output = output; out_point = record { tx_hash = tx_hash; index = index } }
              ∷ [])
            (owned lock tx_hash (index + 1) outputs),
      ))

scan_transactions-other :
    (lock : Script) (n : ℕ) (txs : List TransactionView) (found : Found)
    → scan_transactions lock (n + 1) txs found
      ≡ record found { matured = found.matured ++ owned_of lock txs }
unfolding scan_transactions owned_of
scan_transactions-other lock n [] found = simp append-nil
scan_transactions-other lock n (tx ∷ txs) found =
    rw
      (
        scan_transactions-other lock (n + 1) txs
            (scan_outputs lock (n + 1) tx.hash 0 tx.outputs found),
        scan_outputs-other lock n tx.hash 0 tx.outputs found,
      )
      (simp append_assoc)

-- The outputs from place `index` on, each as the cell that it would be.
owned-IsOwnedIn :
    (lock : Script) (tx_hash : Byte32) (index : ℕ) (outputs : List CellOutput) (utxo : Utxo)
    → Elem utxo (owned lock tx_hash index outputs)
    → (j : ℕ) × (utxo.out_point ≡ record { tx_hash = tx_hash; index = index + j })
      × (get_elem? outputs j ≡ some utxo.output)
      × (utxo.output.lock ≡ lock)
unfolding owned
owned-IsOwnedIn lock tx_hash index [] utxo h = elim h [ ]
owned-IsOwnedIn lock tx_hash index (output ∷ outputs) utxo h =
    elim (Script-discrete lock output.lock) [
      | yes p ↦ elim (rw (if_pos (Script-discrete lock output.lock) p) at h) [
        | inl e ↦ (0, ground arith, ground arith, ground arith)
        | inr later ↦ step (owned-IsOwnedIn lock tx_hash (index + 1) outputs utxo later)
      ]
      | no p ↦ step (
          owned-IsOwnedIn lock tx_hash (index + 1) outputs utxo
            (rw (if_neg (Script-discrete lock output.lock) p) at h))
    ]
  where
    step :
        (j : ℕ) × (utxo.out_point ≡ record { tx_hash = tx_hash; index = index + 1 + j })
          × (get_elem? outputs j ≡ some utxo.output)
          × (utxo.output.lock ≡ lock)
        → (j : ℕ) × (utxo.out_point ≡ record { tx_hash = tx_hash; index = index + j })
          × (get_elem? (output ∷ outputs) j ≡ some utxo.output)
          × (utxo.output.lock ≡ lock)
    step (j, place, found, lock_eq) = (suc j, ground arith, found, lock_eq)

IsOwnedIn-owned :
    (lock : Script) (tx_hash : Byte32) (index j : ℕ) (outputs : List CellOutput) (utxo : Utxo)
    → utxo.out_point ≡ record { tx_hash = tx_hash; index = index + j }
    → get_elem? outputs j ≡ some utxo.output
    → utxo.output.lock ≡ lock
    → Elem utxo (owned lock tx_hash index outputs)
unfolding owned
IsOwnedIn-owned lock tx_hash index j [] utxo place found lock_eq = cc
IsOwnedIn-owned lock tx_hash index zero (output ∷ outputs) utxo place found lock_eq =
    rw (if_pos (Script-discrete lock output.lock) (ground arith)) (inl (ground arith))
IsOwnedIn-owned lock tx_hash index (suc j) (output ∷ outputs) utxo place found lock_eq =
    let later : Elem utxo (owned lock tx_hash (index + 1) outputs) =
      IsOwnedIn-owned lock tx_hash (index + 1) j outputs utxo (ground arith) found lock_eq in
    elim (Script-discrete lock output.lock) [
      | yes p ↦ rw (if_pos (Script-discrete lock output.lock) p) (inr later)
      | no p ↦ rw (if_neg (Script-discrete lock output.lock) p) later
    ]

Elem-owned_inv :
    (lock : Script) (tx : TransactionView) (utxo : Utxo)
    → Elem utxo (owned lock tx.hash 0 tx.outputs)
    → IsOwnedIn lock utxo tx
Elem-owned_inv lock tx utxo h =
    let (j, place, found, lock_eq) = owned-IsOwnedIn lock tx.hash 0 tx.outputs utxo h in
    let e : utxo.out_point.index ≡ j = ground arith in
    (ap (λ (p : OutPoint). p.tx_hash) place, rw e found, lock_eq)

Elem-owned_of_inv :
    (lock : Script) (txs : List TransactionView) (utxo : Utxo)
    → Elem utxo (owned_of lock txs)
    → (tx : TransactionView) × Elem tx txs × IsOwnedIn lock utxo tx
unfolding owned_of
Elem-owned_of_inv lock [] utxo h = elim h [ ]
Elem-owned_of_inv lock (tx ∷ txs) utxo h =
    elim (Elem-append utxo (owned lock tx.hash 0 tx.outputs) (owned_of lock txs) h) [
      | inl here ↦ (tx, inl refl, Elem-owned_inv lock tx utxo here)
      | inr later ↦ let (t, among, o) = Elem-owned_of_inv lock txs utxo later in (t, inr among, o)
    ]

Elem-owned :
    (lock : Script) (tx : TransactionView) (utxo : Utxo)
    → IsOwnedIn lock utxo tx
    → Elem utxo (owned lock tx.hash 0 tx.outputs)
Elem-owned lock tx utxo (hash_eq, found, lock_eq) =
    IsOwnedIn-owned lock tx.hash 0 utxo.out_point.index tx.outputs utxo (ground arith) found lock_eq

Elem-owned_of :
    (lock : Script) (txs : List TransactionView) (utxo : Utxo) (tx : TransactionView)
    → Elem tx txs
    → IsOwnedIn lock utxo tx
    → Elem utxo (owned_of lock txs)
unfolding owned_of
Elem-owned_of lock [] utxo tx h o = elim h [ ]
Elem-owned_of lock (t ∷ txs) utxo tx (inl e) o =
    Elem-append_left utxo (owned lock t.hash 0 t.outputs) (owned_of lock txs)
      (Elem-owned lock t utxo (rw e at o))
Elem-owned_of lock (t ∷ txs) utxo tx (inr h) o =
    Elem-append_right utxo (owned lock t.hash 0 t.outputs) (owned_of lock txs)
      (Elem-owned_of lock txs utxo tx h o)

-- What the loops compute, by the block's transactions.
pub found_in : Script → List TransactionView → Found
found_in lock [] = record { matured = []; unmatured = [] }
found_in lock (cellbase ∷ txs) = record {
  matured = owned_of lock txs;
  unmatured = owned lock cellbase.hash 0 cellbase.outputs;
}

scan_transactions-found_in :
    (lock : Script) (txs : List TransactionView)
    → scan_transactions lock 0 txs (record { matured = []; unmatured = [] }) ≡ found_in lock txs
unfolding scan_transactions found_in
scan_transactions-found_in lock [] = refl
scan_transactions-found_in lock (cellbase ∷ txs) =
    rw scan_outputs-cellbase (scan_transactions-other lock 0 txs _)

-- The transactions of a block behind its cellbase.
abbrev pub behind_cellbase : List TransactionView → List TransactionView
behind_cellbase [] = []
behind_cellbase (cellbase ∷ txs) = txs

-- A cell is reported as matured exactly if it is an output, with the lock, of a transaction behind
-- the cellbase, and as not matured exactly if it is one of the cellbase.
abbrev pub IsExact : Script → BlockView → Found → Type 0
IsExact lock block found =
    (utxo : Utxo)
    → (Elem utxo found.matured ↔ (
        (tx : TransactionView) × Elem tx (behind_cellbase block.transactions)
        × IsOwnedIn lock utxo tx))
      × (Elem utxo found.unmatured ↔ (
          (tx : TransactionView) × (get_elem? block.transactions 0 ≡ some tx)
          × IsOwnedIn lock utxo tx))

pub found_in-IsExact :
    (lock : Script) (block : BlockView) (txs : List TransactionView)
    → IsExact lock (record block { transactions = txs }) (found_in lock txs)
unfolding found_in
found_in-IsExact lock block [] utxo =
    ((λ h. elim h [ ], λ (tx, among, o). elim among [ ]), (λ h. elim h [ ], λ (tx, e, o). cc))
found_in-IsExact lock block (cellbase ∷ txs) utxo = (
  (Elem-owned_of_inv lock txs utxo, λ (tx, among, o). Elem-owned_of lock txs utxo tx among o),
  (
    λ h. (cellbase, refl, Elem-owned_inv lock cellbase utxo h),
    λ (tx, e, o). let e' : tx ≡ cellbase = cc in Elem-owned lock cellbase utxo (rw e' at o),
  ),
)

pub get_owned_utxos-found_in :
    (c : Crypto) (account : Account) {lock : Script} (block : BlockView)
    → lock_script c account ≡ ok lock
    → get_owned_utxos c account block ≡ ok (found_in lock block.transactions)
unfolding get_owned_utxos
get_owned_utxos-found_in c account {lock} block known =
    rw known (ap ok (scan_transactions-found_in lock block.transactions))

-- For an account with a lock the result is exact, and so for every block.
pub get_owned_utxos-IsExact :
    (c : Crypto) (account : Account) {lock : Script} (block : BlockView)
    → lock_script c account ≡ ok lock
    → Returns (get_owned_utxos c account block) (IsExact lock block)
get_owned_utxos-IsExact c account {lock} block known =
    rw (get_owned_utxos-found_in c account block known)
      (found_in-IsExact lock block block.transactions)
