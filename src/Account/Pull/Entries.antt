-- ===== src/Account/Pull/Entries.antt =====
-- Cells as entries of the two maps of `pull_until`.
use ckb_bench_archived.Base.{ℕ, ◌≡◌, ap, inl, inr, List, [], ◌∷◌, map, Elem, arith}
use ckb_bench_archived.Chain.{OutPoint, CellOutput}
use ckb_bench_archived.Utxo.{Utxo}

abbrev pub entry : Utxo → OutPoint × CellOutput
entry utxo = (utxo.out_point, utxo.output)

abbrev pub dated_entry : ℕ → Utxo → OutPoint × (ℕ × CellOutput)
dated_entry number utxo = (utxo.out_point, (number, utxo.output))

pub Elem-entry_inv :
    (point : OutPoint) (output : CellOutput) (utxos : List Utxo)
    → Elem (point, output) (map entry utxos)
    → Elem (record { output = output; out_point = point }) utxos
Elem-entry_inv point output [] h = h
Elem-entry_inv point output (u ∷ us) (inl e) = inl (ground arith)
Elem-entry_inv point output (u ∷ us) (inr h) = inr (Elem-entry_inv point output us h)

pub Elem-entry :
    (utxo : Utxo) (utxos : List Utxo) → Elem utxo utxos → Elem (entry utxo) (map entry utxos)
Elem-entry utxo (u ∷ us) (inl e) = inl (ap entry e)
Elem-entry utxo (u ∷ us) (inr h) = inr (Elem-entry utxo us h)
Elem-entry utxo [] h = h

pub Elem-dated_entry_inv :
    (number block_number : ℕ) (point : OutPoint) (output : CellOutput) (utxos : List Utxo)
    → Elem (point, (block_number, output)) (map (dated_entry number) utxos)
    → (block_number ≡ number) × Elem (record { output = output; out_point = point }) utxos
Elem-dated_entry_inv number block_number point output [] h = elim h [ ]
Elem-dated_entry_inv number block_number point output (u ∷ us) (inl e) =
    (ground arith, inl (ground arith))
Elem-dated_entry_inv number block_number point output (u ∷ us) (inr h) =
    let (same, later) = Elem-dated_entry_inv number block_number point output us h in
    (same, inr later)

pub Elem-dated_entry :
    (number : ℕ) (utxo : Utxo) (utxos : List Utxo)
    → Elem utxo utxos
    → Elem (dated_entry number utxo) (map (dated_entry number) utxos)
Elem-dated_entry number utxo (u ∷ us) (inl e) = inl (ap (dated_entry number) e)
Elem-dated_entry number utxo (u ∷ us) (inr h) = inr (Elem-dated_entry number utxo us h)
Elem-dated_entry number utxo [] h = h
