-- ===== src/HashMap.antt =====
-- What the sources use of std::collections::HashMap: lookup, insertion, removal and iteration. A
-- map is a list of its entries with no key twice. The order in which it is iterated is not
-- specified: a caller takes it as an argument, of which it knows that it permutes the entries.
pub mod Entries
pub mod Replay
use mathlib.Core.List.{Permᴰ}
use ckb_bench_archived.Base.{
  Option, none, some, List, [], ◌∷◌, ite, map, ◌≡◌, ◌≢◌, ◌⊎◌, inl, inr, refl, arith,
}

abbrev pub HashMap : Type 0 → Type 0 → Type 0
HashMap K V = List (K × V)

-- `iter`, `iter_mut` and `into_iter` of one run of the program
pub record IterOrder (K V : Type 0) : Type 0 where
  pub iter : HashMap K V → List (K × V)
  pub iter_perm : (m : HashMap K V) → Permᴰ (iter m) m

module _ {K V : Type 0} (dec : Discrete K) where
  abbrev pub get : K → HashMap K V → Option V
  get k [] = none
  get k ((j, v) ∷ m) = ite (dec k j) (some v) (get k m)

  abbrev pub remove : K → HashMap K V → HashMap K V
  remove k [] = []
  remove k ((j, v) ∷ m) = ite (dec k j) (remove k m) ((j, v) ∷ remove k m)

  -- A value that the key had is replaced.
  abbrev pub insert : K → V → HashMap K V → HashMap K V
  insert k v m = (k, v) ∷ remove k m

  -- No key has two entries.
  abbrev pub Distinct : HashMap K V → Type 0
  Distinct [] = Unit
  Distinct ((k, v) ∷ m) = (get k m ≡ none) × Distinct m

  pub get-remove : (j k : K) (m : HashMap K V) → get j (remove k m) ≡ ite (dec j k) none (get j m)
  get-remove j k [] = ground arith
  get-remove j k (e ∷ m) = ground (arith, get-remove j k m)

  pub get-insert :
      (j k : K) (v : V) (m : HashMap K V) → get j (insert k v m) ≡ ite (dec j k) (some v) (get j m)
  get-insert j k v m = ground (arith, get-remove j k m)

  pub remove-Distinct : (k : K) (m : HashMap K V) → Distinct m → Distinct (remove k m)
  remove-Distinct k [] h = tt
  remove-Distinct k (e ∷ m) h = ground (arith, remove-Distinct k m h.1, get-remove e.0 k m)

  pub insert-Distinct : (k : K) (v : V) (m : HashMap K V) → Distinct m → Distinct (insert k v m)
  insert-Distinct k v m h = ground (arith, remove-Distinct k m h, get-remove k k m)

  abbrev pub insert_all : List (K × V) → HashMap K V → HashMap K V
  insert_all [] m = m
  insert_all ((k, v) ∷ es) m = insert_all es (insert k v m)

  abbrev pub remove_all : List K → HashMap K V → HashMap K V
  remove_all [] m = m
  remove_all (k ∷ ks) m = remove_all ks (remove k m)
