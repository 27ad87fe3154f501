-- ===== src/HashMap/Entries.antt =====
-- The entries that an iteration visits, and what a lookup finds.
use mathlib.Core.List.{Permᴰ}
use mathlib.Core.List.Permᴰ
use ckb_bench_archived.Base.{
  ℕ, ◌≡◌, ◌∙◌, refl, ap, if_neg, inl, inr, List, [], ◌∷◌, map, some, none, Elem, sum, arith,
}
use ckb_bench_archived.HashMap.{HashMap, IterOrder, get, Distinct}

-- A permutation has the same elements, and its numbers the same sum.
pub Elem-perm : {A : Type 0} {xs ys : List A} (a : A) → Permᴰ xs ys → Elem a xs → Elem a ys
Elem-perm a Permᴰ.nil h = h
Elem-perm a (Permᴰ.cons e p) (inl here) = inl (here ∙ e)
Elem-perm a (Permᴰ.cons e p) (inr later) = inr (Elem-perm a p later)
Elem-perm a (Permᴰ.swap e f) (inl here) = inr (inl (here ∙ e))
Elem-perm a (Permᴰ.swap e f) (inr (inl here)) = inl (here ∙ f)
Elem-perm a (Permᴰ.swap e f) (inr (inr later)) = inr (inr later)
Elem-perm a (Permᴰ.trans p q) h = Elem-perm a q (Elem-perm a p h)

pub sum-map-perm :
    {A : Type 0} {xs ys : List A} (f : A → ℕ) → Permᴰ xs ys → sum (map f xs) ≡ sum (map f ys)
sum-map-perm f Permᴰ.nil = refl
sum-map-perm f (Permᴰ.cons e p) = omega (arith, ap f e, sum-map-perm f p)
sum-map-perm f (Permᴰ.swap e e') = omega (arith, ap f e, ap f e')
sum-map-perm f (Permᴰ.trans p q) = sum-map-perm f p ∙ sum-map-perm f q

module _ {K V : Type 0} (dec : Discrete K) where
  pub get-Elem : (k : K) (v : V) (m : HashMap K V) → get dec k m ≡ some v → Elem (k, v) m
  get-Elem k v [] h = cc
  get-Elem k v ((j, u) ∷ m) h = elim (dec k j) [
    | yes p ↦ inl (ground arith)
    | no p ↦ inr (get-Elem k v m (ground arith))
  ]

  absent : (k : K) (v : V) (m : HashMap K V) → get dec k m ≡ none → ¬ Elem (k, v) m
  absent k v [] h = λ e. e
  absent k v ((j, u) ∷ m) h = λ e. elim (dec k j) [
    | yes p ↦ absurd (ground arith)
    | no p ↦ elim e [
      | inl here ↦ p (ap (λ (t : K × V). t.0) here)
      | inr later ↦ absent k v m (ground arith) later
    ]
  ]

  pub Elem-get :
      (k : K) (v : V) (m : HashMap K V) → Distinct dec m → Elem (k, v) m → get dec k m ≡ some v
  Elem-get k v [] d e = elim e [ ]
  Elem-get k v ((j, u) ∷ m) d (inl here) = ground arith
  Elem-get k v ((j, u) ∷ m) d (inr later) = elim (dec k j) [
    | yes p ↦ absurd (absent k v m (rw p d.0) later)
    | no p ↦ if_neg (dec k j) p _ _ ∙ Elem-get k v m d.1 later
  ]

  module _ (order : IterOrder K V) where
    -- An iteration visits exactly the entries that a lookup finds.
    pub get-Elem-iter :
        (k : K) (v : V) (m : HashMap K V) → get dec k m ≡ some v → Elem (k, v) (order.iter m)
    get-Elem-iter k v m h = Elem-perm (k, v) (Permᴰ.symm (order.iter_perm m)) (get-Elem k v m h)

    pub Elem-iter-get :
        (k : K) (v : V) (m : HashMap K V)
        → Distinct dec m
        → Elem (k, v) (order.iter m)
        → get dec k m ≡ some v
    Elem-iter-get k v m d h = Elem-get k v m d (Elem-perm (k, v) (order.iter_perm m) h)
