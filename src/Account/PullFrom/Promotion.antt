-- ===== src/Account/PullFrom/Promotion.antt =====
-- Which cells `pull_from_block_number` promotes: exactly those that have matured, in whatever order
-- the map is iterated.
use ckb_bench_archived.Base.{
  ℕ, ◌+◌, ◌*◌, ◌≤◌, ◌<◌, ◌≡◌, ◌≢◌, ◌∙◌, refl, ap, List, [], ◌∷◌, true, false, Option, some, none,
  inl, inr, ◌⊎◌, Elem, All, Bool-cases, u64_mod, arith, if_pos, if_neg,
}
use ckb_bench_archived.Base.Sorting.{IsSorted}
use ckb_bench_archived.Chain.{OutPoint, CellOutput, OutPoint-discrete}
use ckb_bench_archived.HashMap.{IterOrder, get, insert, remove, Distinct, get-insert, get-remove}
use ckb_bench_archived.Utxo.{Utxo}
use ckb_bench_archived.Account.Maturity.{is_matured, is_matured_iff}
use ckb_bench_archived.Account.Pull.{Cells}
use ckb_bench_archived.Account.PullFrom.Vectors.{
  All-Elem, sorted_by_number-IsSorted, sorted_by_number-get,
}
use ckb_bench_archived.Account.PullFrom.{sorted_by_number, promote, promote_matured}

-- The two lookups at a point before and after: a matured entry has moved, all else is as it was.
abbrev pub Moved : ℕ → ℕ → OutPoint → Cells → Cells → Type 0
Moved maturity block_number point before after =
    let unmatured = get OutPoint-discrete point before.unmatureds in
    ((number : ℕ) (output : CellOutput)
      → unmatured ≡ some (number, output)
      → is_matured maturity block_number number ≡ true
      → (get OutPoint-discrete point after.utxoset ≡ some output)
        × (get OutPoint-discrete point after.unmatureds ≡ none))
    × ((number : ℕ) (output : CellOutput)
        → unmatured ≡ some (number, output)
        → is_matured maturity block_number number ≡ false
        → (get OutPoint-discrete point after.utxoset ≡ get OutPoint-discrete point before.utxoset)
          × (get OutPoint-discrete point after.unmatureds ≡ some (number, output)))
    × (unmatured ≡ none
        → (get OutPoint-discrete point after.utxoset ≡ get OutPoint-discrete point before.utxoset)
          × (get OutPoint-discrete point after.unmatureds ≡ none))

module _ (maturity block_number : ℕ) where
  -- Where no sum wraps, what lies below a matured block is matured.
  pub is_matured_mono :
      (n m : ℕ)
      → n ≤ m
      → m + 1800 * maturity < u64_mod
      → is_matured maturity block_number m ≡ true
      → is_matured maturity block_number n ≡ true
  is_matured_mono n m le fits h =
      (is_matured_iff maturity block_number n (omega arith)).1
        (omega (arith, (is_matured_iff maturity block_number m fits).0 h))

  -- The entries of a vector that lie at a point.
  abbrev At : OutPoint → List (ℕ × Utxo) → Type 0
  At point vec =
      (number : ℕ) × (output : CellOutput) × Elem
        (number, record { output = output; out_point = point }) vec
      × (is_matured maturity block_number number ≡ true)

  -- A promotion of a sorted vector touches exactly the points of its matured entries.
  promote-other :
      (point : OutPoint) (vec : List (ℕ × Utxo)) (cells : Cells)
      → ¬ At point vec
      → (get OutPoint-discrete point (promote maturity block_number vec cells).utxoset
          ≡ get OutPoint-discrete point cells.utxoset)
        × (get OutPoint-discrete point (promote maturity block_number vec cells).unmatureds
            ≡ get OutPoint-discrete point cells.unmatureds)
  unfolding promote
  promote-other point [] cells h = (refl, refl)
  promote-other point ((n, u) ∷ rest) cells h =
      elim (Bool-cases (is_matured maturity block_number n)) [
        | inl old ↦
            let ne : point ≢ u.out_point = λ e. h (n, u.output, inl (ground arith), old) in
            let moved : Cells = record {
              utxoset = insert OutPoint-discrete u.out_point u.output cells.utxoset;
              unmatureds = remove OutPoint-discrete u.out_point cells.unmatureds;
            } in
            let (same, same') =
              promote-other point rest moved (λ (k, o, e, mat). h (k, o, inr e, mat)) in
            rw old (
              same
                  ∙ get-insert OutPoint-discrete point u.out_point u.output cells.utxoset
                  ∙ if_neg (OutPoint-discrete point u.out_point) ne _ _,
              same'
                  ∙ get-remove OutPoint-discrete point u.out_point cells.unmatureds
                  ∙ if_neg (OutPoint-discrete point u.out_point) ne _ _,
            )
        | inr young ↦ rw young (refl, refl)
      ]

  abbrev HasMoved : OutPoint → CellOutput → Cells → Type 0
  HasMoved point output cells =
      (get OutPoint-discrete point cells.utxoset ≡ some output)
      × (get OutPoint-discrete point cells.unmatureds ≡ none)

  -- Where the entries were sorted, an entry that is matured has all before it matured.
  head_is_matured :
      (m n : ℕ) (u v : Utxo) (rest : List (ℕ × Utxo))
      → All (λ e. m ≤ e.0) rest
      → All (λ e. e.0 + 1800 * maturity < u64_mod) rest
      → Elem (n, v) rest
      → is_matured maturity block_number n ≡ true
      → is_matured maturity block_number m ≡ true
  head_is_matured m n u v [] le fits h mat = elim h [ ]
  head_is_matured m n u v (e ∷ rest) le fits (inl here) mat =
      let same : n ≡ e.0 = ap (λ t. t.0) here in is_matured_mono m e.0 le.0 fits.0 (rw same at mat)
  head_is_matured m n u v (e ∷ rest) le fits (inr later) mat =
      head_is_matured m n u v rest le.1 fits.1 later mat

  promote-here :
      (point : OutPoint) (output : CellOutput) (vec : List (ℕ × Utxo)) (cells : Cells)
      → IsSorted (λ e. e.0) vec
      → All (λ e. e.0 + 1800 * maturity < u64_mod) vec
      → ((k : ℕ) (o : CellOutput)
          → Elem (k, record { output = o; out_point = point }) vec
          → o ≡ output)
      → At point vec ⊎ HasMoved point output cells
      → HasMoved point output (promote maturity block_number vec cells)
  unfolding promote
  promote-here point output [] cells sorted fits same (inl (k, o, e, mat)) = elim e [ ]
  promote-here point output [] cells sorted fits same (inr moved) = moved
  promote-here point output ((n, u) ∷ rest) cells sorted fits same h =
      elim (Bool-cases (is_matured maturity block_number n)) [
        | inl old ↦ rw old (
            promote-here point output rest _ sorted.1 fits.1 (λ k o e. same k o (inr e))
              (elim (OutPoint-discrete point u.out_point) [
                | yes p ↦ inr (
                  if_pos (OutPoint-discrete point u.out_point) p _ _
                      ∙ ap some (same n u.output (inl (ground arith))),
                  get-remove OutPoint-discrete point u.out_point cells.unmatureds
                      ∙ if_pos (OutPoint-discrete point u.out_point) p _ _,
                )
                | no p ↦ keep p h
              ]))
        | inr young ↦ rw young (stop young h)
      ]
    where
      keep :
          point ≢ u.out_point
          → At point ((n, u) ∷ rest) ⊎ HasMoved point output cells
          → At point rest
            ⊎ HasMoved point output (record {
              utxoset = insert OutPoint-discrete u.out_point u.output cells.utxoset;
              unmatureds = remove OutPoint-discrete u.out_point cells.unmatureds;
            })
      keep p (inl (k, o, inl here, mat)) = absurd (p (ap (λ t. t.1.out_point) here))
      keep p (inl (k, o, inr later, mat)) = inl (k, o, later, mat)
      keep p (inr (found, gone)) = inr (
        get-insert OutPoint-discrete point u.out_point u.output cells.utxoset
            ∙ if_neg (OutPoint-discrete point u.out_point) p _ _
            ∙ found,
        get-remove OutPoint-discrete point u.out_point cells.unmatureds
            ∙ if_neg (OutPoint-discrete point u.out_point) p _ _
            ∙ gone,
      )

      stop :
          is_matured maturity block_number n ≡ false
          → At point ((n, u) ∷ rest) ⊎ HasMoved point output cells
          → HasMoved point output cells
      stop young (inl (k, o, inl here, mat)) =
          let e : k ≡ n = ap (λ t. t.0) here in absurd (ground arith)
      stop young (inl (k, o, inr later, mat)) =
          let old : is_matured maturity block_number n ≡ true =
            head_is_matured n k u (record { output = o; out_point = point }) rest sorted.0 fits.1
              later mat in
          absurd (ground arith)
      stop young (inr moved) = moved

  -- After the promotion every matured entry has moved and all else is as it was.
  pub promote_matured-Moved :
      (order : IterOrder OutPoint (ℕ × CellOutput)) (cells : Cells) (point : OutPoint)
      → Distinct OutPoint-discrete cells.unmatureds
      → ((p : OutPoint) (n : ℕ) (o : CellOutput)
          → get OutPoint-discrete p cells.unmatureds ≡ some (n, o)
          → n + 1800 * maturity < u64_mod)
      → Moved maturity block_number point cells (promote_matured order maturity block_number cells)
  unfolding promote_matured
  promote_matured-Moved order cells point distinct fits =
      let vec = sorted_by_number order cells.unmatureds in
      let found = sorted_by_number-get order cells.unmatureds distinct in
      let fit : All (λ e. e.0 + 1800 * maturity < u64_mod) vec =
        All-Elem (λ e. e.0 + 1800 * maturity < u64_mod) vec
          (λ (n, u) e. fits u.out_point n u.output ((found n u).0 e)) in
      let untouched = promote-other point vec cells in
      (
        λ n o e mat.
            promote-here point o vec cells (sorted_by_number-IsSorted order cells.unmatureds) fit
              (λ k o' h. same_entry e ((found k (record { output = o'; out_point = point })).0 h))
              (inl (n, o, (found n (record { output = o; out_point = point })).1 e, mat)),
        λ n o e young.
            let (a, b) = untouched (λ (k, o', h, mat).
              clash e ((found k (record { output = o'; out_point = point })).0 h) mat young) in
            (a, b ∙ e),
        λ e.
            let (a, b) = untouched (λ (k, o', h, mat).
              missing e ((found k (record { output = o'; out_point = point })).0 h)) in
            (a, b ∙ e),
      )
    where
      same_entry :
          {n k : ℕ} {o o' : CellOutput} {r : Option (ℕ × CellOutput)}
          → r ≡ some (n, o)
          → r ≡ some (k, o')
          → o' ≡ o
      same_entry p q = cc

      clash :
          {n k : ℕ} {o o' : CellOutput} {r : Option (ℕ × CellOutput)}
          → r ≡ some (n, o)
          → r ≡ some (k, o')
          → is_matured maturity block_number k ≡ true
          → is_matured maturity block_number n ≡ false
          → ⊥
      clash p q mat young = ground arith

      missing :
          {k : ℕ} {o' : CellOutput} {r : Option (ℕ × CellOutput)} → r ≡ none → r ≡ some (k, o') → ⊥
      missing p q = cc
