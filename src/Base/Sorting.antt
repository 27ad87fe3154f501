-- ===== src/Base/Sorting.antt =====
-- `slice::sort_by_key` on keys that are numbers: a stable sort. The algorithm of the library is
-- another; what a stable sort returns is determined.
use Prim.Native.Nat.{ℕ, ◌≤◌}
use mathlib.Core.Path.{◌≡◌}
use mathlib.Core.Logic.{◌⊎◌, inl, inr}
use mathlib.Core.List.{List, [], ◌∷◌}
use native.Mathlib.Omega.{arith}
use ckb_bench_archived.Base.Tests.{leb, if◌then◌else◌, Bool-cases}
use ckb_bench_archived.Base.Lists.{All, Elem}

module _ {A : Type 0} (key : A → ℕ) where
  pub insert_by_key : A → List A → List A
  insert_by_key x [] = x ∷ []
  insert_by_key x (y ∷ ys) = if leb (key x) (key y) then x ∷ y ∷ ys else y ∷ insert_by_key x ys

  unfoldable pub sort_by_key : List A → List A
  unfolding insert_by_key
  sort_by_key [] = []
  sort_by_key (x ∷ xs) = insert_by_key x (sort_by_key xs)

  abbrev pub IsSorted : List A → Type 0
  IsSorted [] = Unit
  IsSorted (x ∷ xs) = All (λ y. key x ≤ key y) xs × IsSorted xs

  All-insert_by_key :
      (P : A → Type 0) (x : A) (ys : List A) → P x → All P ys → All P (insert_by_key x ys)
  unfolding insert_by_key
  All-insert_by_key P x [] p h = (p, tt)
  All-insert_by_key P x (y ∷ ys) p h = elim (Bool-cases (leb (key x) (key y))) [
    | inl le ↦ rw le (p, h)
    | inr gt ↦ rw gt (h.0, All-insert_by_key P x ys p h.1)
  ]

  All-le : (n m : ℕ) (ys : List A) → n ≤ m → All (λ y. m ≤ key y) ys → All (λ y. n ≤ key y) ys
  All-le n m [] le h = tt
  All-le n m (y ∷ ys) le h = (omega (arith, h.0), All-le n m ys le h.1)

  insert_by_key-IsSorted : (x : A) (ys : List A) → IsSorted ys → IsSorted (insert_by_key x ys)
  unfolding insert_by_key
  insert_by_key-IsSorted x [] h = (tt, tt)
  insert_by_key-IsSorted x (y ∷ ys) h = elim (Bool-cases (leb (key x) (key y))) [
    | inl le ↦ rw le ((ground arith, All-le (key x) (key y) ys (ground arith) h.0), h)
    | inr gt ↦ rw gt (
      All-insert_by_key (λ z. key y ≤ key z) x ys (ground arith) h.0,
      insert_by_key-IsSorted x ys h.1,
    )
  ]

  pub sort_by_key-IsSorted : (xs : List A) → IsSorted (sort_by_key xs)
  unfolding sort_by_key
  sort_by_key-IsSorted [] = tt
  sort_by_key-IsSorted (x ∷ xs) =
      insert_by_key-IsSorted x (sort_by_key xs) (sort_by_key-IsSorted xs)

  Elem-insert_by_key : (a x : A) (ys : List A) → (a ≡ x) ⊎ Elem a ys → Elem a (insert_by_key x ys)
  unfolding insert_by_key
  Elem-insert_by_key a x [] h = h
  Elem-insert_by_key a x (y ∷ ys) h = elim (Bool-cases (leb (key x) (key y))) [
    | inl le ↦ rw le h
    | inr gt ↦ rw gt (elim h [
      | inl e ↦ inr (Elem-insert_by_key a x ys (inl e))
      | inr m ↦ elim m [ inl e ↦ inl e | inr h' ↦ inr (Elem-insert_by_key a x ys (inr h')) ]
    ])
  ]

  Elem-insert_by_key_inv :
      (a x : A) (ys : List A) → Elem a (insert_by_key x ys) → (a ≡ x) ⊎ Elem a ys
  unfolding insert_by_key
  Elem-insert_by_key_inv a x [] h = h
  Elem-insert_by_key_inv a x (y ∷ ys) h = elim (Bool-cases (leb (key x) (key y))) [
    | inl le ↦ rw le at h
    | inr gt ↦ elim (rw gt at h) [
      | inl e ↦ inr (inl e)
      | inr l ↦ elim (Elem-insert_by_key_inv a x ys l) [ inl e ↦ inl e | inr m ↦ inr (inr m) ]
    ]
  ]

  -- A sort keeps exactly the elements.
  pub Elem-sort_by_key : (a : A) (xs : List A) → Elem a xs → Elem a (sort_by_key xs)
  unfolding sort_by_key
  Elem-sort_by_key a [] h = h
  Elem-sort_by_key a (x ∷ xs) (inl e) = Elem-insert_by_key a x (sort_by_key xs) (inl e)
  Elem-sort_by_key a (x ∷ xs) (inr h) =
      Elem-insert_by_key a x (sort_by_key xs) (inr (Elem-sort_by_key a xs h))

  pub Elem-sort_by_key_inv : (a : A) (xs : List A) → Elem a (sort_by_key xs) → Elem a xs
  unfolding sort_by_key
  Elem-sort_by_key_inv a [] h = h
  Elem-sort_by_key_inv a (x ∷ xs) h = elim (Elem-insert_by_key_inv a x (sort_by_key xs) h) [
    | inl e ↦ inl e
    | inr l ↦ inr (Elem-sort_by_key_inv a xs l)
  ]
