-- ===== src/Account/Forever/Step.antt =====
-- A round of the loop of `pull_forever` of tps-bench/src/account.rs, where the nodes share a chain
-- that has grown.
use ckb_bench_archived.Base.{
  ℕ, ◌+◌, ◌*◌, ◌≤◌, ◌<◌, ◌≡◌, refl, ap, ◌∙◌, sym, List, [], ◌∷◌, true, false, some, ok, ◌==◌,
  u64_mod, add_u64, All, arith,
}
use ckb_bench_archived.Base.Sorting.{IsSorted}
use ckb_bench_archived.Chain.{Script, BlockView}
use ckb_bench_archived.Crypto.{Crypto}
use ckb_bench_archived.Utxo.{Utxo}
use ckb_bench_archived.Host.{Host}
use ckb_bench_archived.Rpc.{Inner, Jsonrpc, answer}
use ckb_bench_archived.Net.{first_endpoint}
use ckb_bench_archived.Net.Shared.{Share, get_fixed_header-shared}
use ckb_bench_archived.Account.{Account, lock_script}
use ckb_bench_archived.Account.Maturity.{is_matured}
use ckb_bench_archived.Account.Owned.Exact.{found_in, get_owned_utxos-found_in}
use ckb_bench_archived.Account.Forever.{Following, follow_header, follow}
use ckb_bench_archived.Account.Forever.Sent.{Receives, IsFollowed, follow_block-IsFollowed}

-- All nodes have the chain's headers up to the tip, the first one has the blocks, and each block
-- names the one below it. A call of a node sends no cell.
pub record Shares {W : Type 0} (inner : Inner W) (rpc : Jsonrpc) (rpcs : List Jsonrpc)
    (chain : ℕ → BlockView) (tip : ℕ) (sent : W → List Utxo) : Type 0 where
  pub headers : (n : ℕ) → n ≤ tip → Share inner sent (rpc ∷ rpcs) n (chain n).header
  pub blocks :
      (n : ℕ) (w : W)
      → n ≤ tip
      → (w' : W) × (inner.get_block rpc.uri (chain n).header.hash w ≡ (answer (some (chain n)), w'))
        × (sent w' ≡ sent w)
  pub numbered : (n : ℕ) → n ≤ tip → (chain n).header.number ≡ n
  pub linked : (n : ℕ) → n + 1 ≤ tip → (chain (n + 1)).header.parent_hash ≡ (chain n).header.hash

-- The loop has followed the chain up to a block: the waiting cells are in the order of their blocks,
-- none of which lies above that block, and none of them is matured.
pub record IsAt (maturity : ℕ) (chain : ℕ → BlockView) (n : ℕ) (following : Following)
    : Type 0 where
  pub current : following.current_header ≡ (chain n).header
  pub in_order : IsSorted (λ e. e.0) following.unmatureds
  pub not_above : All (λ e. e.0 ≤ n) following.unmatureds
  pub young : All (λ e. is_matured maturity n e.0 ≡ false) following.unmatureds

raised : (n : ℕ) (cells : List (ℕ × Utxo)) → All (λ e. e.0 ≤ n) cells → All (λ e. e.0 ≤ n + 1) cells
raised n [] low = tt
raised n (e ∷ cells) low = (omega (arith, low.0), raised n cells low.1)

module _ {W : Type 0} (inner : Inner W) (rpc : Jsonrpc) (rpcs : List Jsonrpc)
    (chain : ℕ → BlockView) (tip : ℕ) (sent : W → List Utxo)
    (shares : Shares inner rpc rpcs chain tip sent) where
  module _ (c : Crypto) (host : Host W) (maturity : ℕ) (account : Account) (lock : Script)
      (known : lock_script c account ≡ ok lock) (receives : Receives host sent)
      (fits : tip + 1800 * maturity < u64_mod) where
    small :
        (n : ℕ) (cells : List (ℕ × Utxo))
        → n ≤ tip
        → All (λ e. e.0 ≤ n) cells
        → All (λ e. e.0 + 1800 * maturity < u64_mod) cells
    small n [] le low = tt
    small n (e ∷ cells) le low = (omega (arith, low.0), small n cells le low.1)

    follow_header-shared :
        (n : ℕ) (following : Following) (w : W)
        → n + 1 ≤ tip
        → IsAt maturity chain n following
        → let block = chain (n + 1) in
          (next : Following) × (w' : W) × (follow_header inner c host maturity account
              (record { endpoints = rpc ∷ rpcs })
              block.header
              following
              w
            ≡ (ok (some next), w'))
          × IsFollowed maturity block.header block
              (found_in lock block.transactions)
              following.unmatureds
              (sent w)
              (sent w')
              next
    unfolding follow_header first_endpoint
    follow_header-shared n following w le at =
        let block = chain (n + 1) in
        let (w₁, has, same) = shares.blocks (n + 1) w le in
        let number : block.header.number ≡ n + 1 = shares.numbered (n + 1) le in
        let (next, w₂, ran, followed) =
          follow_block-IsFollowed host sent receives maturity block.header block
            (found_in lock block.transactions) following.unmatureds w₁ at.in_order
            (rw number (raised n following.unmatureds at.not_above))
            (small n following.unmatureds (omega arith) at.not_above) in
        (
          next,
          w₂,
          rw (has, get_owned_utxos-found_in c account block known, ran) refl,
          rw (← same) followed,
        )

    pub follow-shared :
        (n : ℕ) (following : Following) (w : W)
        → n + 1 ≤ tip
        → IsAt maturity chain n following
        → let block = chain (n + 1) in
          (next : Following) × (w' : W) × (follow inner c host maturity account
              (record { endpoints = rpc ∷ rpcs })
              following
              w
            ≡ (ok (some next), w'))
          × IsFollowed maturity block.header block
              (found_in lock block.transactions)
              following.unmatureds
              (sent w)
              (sent w')
              next
    unfolding follow
    follow-shared n following w le at =
        let (w₁, fixed, same) =
          get_fixed_header-shared inner sent (n + 1) (chain (n + 1)).header rpc rpcs w
            (shares.headers (n + 1) le) in
        let (next, w₂, ran, followed) = follow_header-shared n following w₁ le at in
        let number : following.current_header.number ≡ n =
          ap (λ h. h.number) at.current ∙ shares.numbered n (omega arith) in
        let above : add_u64 following.current_header.number 1 ≡ n + 1 = omega (arith, number) in
        let link : (chain (n + 1)).header.parent_hash ≡ following.current_header.hash =
          shares.linked n le ∙ sym (ap (λ h. h.hash) at.current) in
        let child : ((chain (n + 1)).header.parent_hash == following.current_header.hash) ≡ true =
          ground arith in
        (next, w₂, rw (above, fixed, child) ran, rw (← same) followed)
