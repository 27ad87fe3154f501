-- ===== src/Account/Forever/Growth.antt =====
-- `pull_forever` of tps-bench/src/account.rs on a chain that has grown: every cell of the new blocks
-- is sent or waits, exactly once.
use mathlib.Core.List.{Permᴰ, append_assoc}
use mathlib.Core.List.Permᴰ
use mathlib.Core.Path.{subst}
use ckb_bench_archived.Base.{ℕ, zero, suc, ◌+◌, ◌≡◌, refl, ap, List, [], ◌∷◌, ◌++◌, map}
use ckb_bench_archived.Chain.{Script, BlockView}
use ckb_bench_archived.Crypto.{Crypto}
use ckb_bench_archived.Utxo.{Utxo}
use ckb_bench_archived.Host.{Host}
use ckb_bench_archived.Account.{Account}
use ckb_bench_archived.Account.Owned.Exact.{found_in}
use ckb_bench_archived.Account.Forever.Sent.{cells_of}

-- The account's cells in the blocks behind a number, one block after the other.
unfoldable pub owned_behind : Script → (ℕ → BlockView) → ℕ → ℕ → List Utxo
owned_behind lock chain n zero = []
owned_behind lock chain n (suc k) =
    let found = found_in lock (chain (n + 1)).transactions in
    (found.matured ++ found.unmatured) ++ owned_behind lock chain (n + 1) k

module _ {A : Type 0} where
  moved_behind : (m q u : List A) → Permᴰ ((m ++ q) ++ u) (q ++ (m ++ u))
  moved_behind m q u =
      subst (λ l. Permᴰ ((m ++ q) ++ u) l) (append_assoc q m u)
        (Permᴰ.append_right u (Permᴰ.append_comm m q))

  -- What was there before, the promoted and the staying cells, and the new ones.
  pub regrouped :
      (b m p s u : List A) → Permᴰ (((b ++ m) ++ p) ++ (s ++ u)) ((b ++ (p ++ s)) ++ (m ++ u))
  regrouped b m p s u =
      let left : ((b ++ m) ++ p) ++ (s ++ u) ≡ b ++ ((m ++ (p ++ s)) ++ u) = simp append_assoc in
      let right : (b ++ (p ++ s)) ++ (m ++ u) ≡ b ++ ((p ++ s) ++ (m ++ u)) = simp append_assoc in
      rw (left, right) (Permᴰ.append_left b (moved_behind m (p ++ s) u))

pub cells_of-append : (xs ys : List (ℕ × Utxo)) → cells_of (xs ++ ys) ≡ cells_of xs ++ cells_of ys
cells_of-append [] ys = refl
cells_of-append (x ∷ xs) ys = ap (◌∷◌ x.1) (cells_of-append xs ys)

pub cells_of-dated : (n : ℕ) (us : List Utxo) → cells_of (map (λ u. (n, u)) us) ≡ us
cells_of-dated n [] = refl
cells_of-dated n (u ∷ us) = ap (◌∷◌ u) (cells_of-dated n us)
