-- ===== src/Account/PullFrom/Vectors.antt =====
-- The vectors that are made of the maps (`construct_utxo_vec`): they hold exactly what the maps hold,
-- whatever the order of the iteration.
use ckb_bench_archived.Base.{
  ℕ, ◌≡◌, refl, ap, ◌∙◌, ◌↔◌, List, [], ◌∷◌, map, some, inl, inr, Elem, All,
}
use ckb_bench_archived.Base.Sorting.{
  IsSorted, sort_by_key-IsSorted, Elem-sort_by_key, Elem-sort_by_key_inv,
}
use ckb_bench_archived.Chain.{OutPoint, CellOutput, OutPoint-discrete}
use ckb_bench_archived.HashMap.{HashMap, IterOrder, get, Distinct}
use ckb_bench_archived.HashMap.Entries.{get-Elem-iter, Elem-iter-get}
use ckb_bench_archived.Utxo.{Utxo}
use ckb_bench_archived.Account.Pull.{Cells}
use ckb_bench_archived.Account.PullFrom.{dated_utxo, sorted_by_number, construct_utxo_vec}

-- What holds of each element holds of all.
pub All-Elem : {A : Type 0} (P : A → Type 0) (xs : List A) → ((a : A) → Elem a xs → P a) → All P xs
All-Elem P [] h = tt
All-Elem P (x ∷ xs) h = (h x (inl refl), All-Elem P xs (λ a e. h a (inr e)))

abbrev utxo_of : OutPoint × CellOutput → Utxo
utxo_of (out_point, output) = record { output = output; out_point = out_point }

module _ {A B : Type 0} (f : A → B) where
  Elem-map : (a : A) (xs : List A) → Elem a xs → Elem (f a) (map f xs)
  Elem-map a [] h = h
  Elem-map a (x ∷ xs) (inl e) = inl (ap f e)
  Elem-map a (x ∷ xs) (inr h) = inr (Elem-map a xs h)

  -- If `f` has an inverse, what is in the image comes from its preimage.
  Elem-map_inv :
      (g : B → A) (b : B) (xs : List A)
      → ((a : A) → g (f a) ≡ a)
      → Elem b (map f xs)
      → Elem (g b) xs
  Elem-map_inv g b [] inv h = h
  Elem-map_inv g b (x ∷ xs) inv (inl e) = inl (ap g e ∙ inv x)
  Elem-map_inv g b (x ∷ xs) inv (inr h) = inr (Elem-map_inv g b xs inv h)

abbrev dated_entry_of : ℕ × Utxo → OutPoint × (ℕ × CellOutput)
dated_entry_of (number, utxo) = (utxo.out_point, (number, utxo.output))

module _ (order : IterOrder OutPoint (ℕ × CellOutput))
    (unmatureds : HashMap OutPoint (ℕ × CellOutput)) where
  pub sorted_by_number-IsSorted : IsSorted (λ e. e.0) (sorted_by_number order unmatureds)
  unfolding sorted_by_number
  sorted_by_number-IsSorted =
      sort_by_key-IsSorted (λ e. e.0) (map dated_utxo (order.iter unmatureds))

  pub sorted_by_number-get :
      Distinct OutPoint-discrete unmatureds
      → (number : ℕ) (utxo : Utxo)
      → Elem (number, utxo) (sorted_by_number order unmatureds)
        ↔ (get OutPoint-discrete utxo.out_point unmatureds ≡ some (number, utxo.output))
  unfolding sorted_by_number
  sorted_by_number-get distinct number utxo = (
    λ h.
        Elem-iter-get OutPoint-discrete order utxo.out_point (number, utxo.output) unmatureds
          distinct
          (Elem-map_inv dated_utxo dated_entry_of (number, utxo) (order.iter unmatureds) (λ a. refl)
            (Elem-sort_by_key_inv (λ e. e.0) (number, utxo) _ h)),
    λ h.
        Elem-sort_by_key (λ e. e.0) (number, utxo) _
          (Elem-map dated_utxo (utxo.out_point, (number, utxo.output)) (order.iter unmatureds)
            (get-Elem-iter OutPoint-discrete order utxo.out_point (number, utxo.output) unmatureds
              h)),
  )

-- The first vector holds exactly the cells of the one map; the second holds exactly those of the
-- other, with their numbers, in ascending order of these.
pub construct_utxo_vec-exact :
    (utxo_order : IterOrder OutPoint CellOutput) (order : IterOrder OutPoint (ℕ × CellOutput))
    (cells : Cells)
    → Distinct OutPoint-discrete cells.utxoset
    → Distinct OutPoint-discrete cells.unmatureds
    → let (matureds, unmatureds) = construct_utxo_vec utxo_order order cells in
      ((utxo : Utxo)
        → Elem utxo matureds
          ↔ (get OutPoint-discrete utxo.out_point cells.utxoset ≡ some utxo.output))
      × ((number : ℕ) (utxo : Utxo)
          → Elem (number, utxo) unmatureds
            ↔ (get OutPoint-discrete utxo.out_point cells.unmatureds ≡ some (number, utxo.output)))
      × IsSorted (λ e. e.0) unmatureds
unfolding construct_utxo_vec
construct_utxo_vec-exact utxo_order order cells d d' = (
  λ utxo. (
    λ h. Elem-iter-get OutPoint-discrete utxo_order utxo.out_point utxo.output cells.utxoset d (
        Elem-map_inv utxo_of (λ u. (u.out_point, u.output)) utxo (utxo_order.iter cells.utxoset)
          (λ a. refl) h),
    λ h.
        Elem-map utxo_of (utxo.out_point, utxo.output) (utxo_order.iter cells.utxoset)
          (get-Elem-iter OutPoint-discrete utxo_order utxo.out_point utxo.output cells.utxoset h),
  ),
  sorted_by_number-get order cells.unmatureds d',
  sorted_by_number-IsSorted order cells.unmatureds,
)
