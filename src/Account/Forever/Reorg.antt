-- ===== src/Account/Forever/Reorg.antt =====
-- `pull_forever` of tps-bench/src/account.rs after a re-organisation of the chain.
use mathlib.Core.List.{Permᴰ}
use mathlib.Core.Path.{subst}
use ckb_bench_archived.Base.{
  ℕ, suc, ◌+◌, ◌-◌, ◌≤◌, ◌<◌, ◌≡◌, ◌≢◌, refl, ◌∙◌, List, ◌∷◌, ◌++◌, false, ◌==◌, some, ok, inl,
  u64_mod, add_u64, arith,
}
use ckb_bench_archived.Chain.{Script, HeaderView, BlockView}
use ckb_bench_archived.Crypto.{Crypto}
use ckb_bench_archived.Utxo.{Utxo}
use ckb_bench_archived.Host.{Host}
use ckb_bench_archived.Rpc.{Inner, Jsonrpc, answer}
use ckb_bench_archived.Net.{first_endpoint, get_fixed_header}
use ckb_bench_archived.Net.Shared.{get_fixed_header-shared}
use ckb_bench_archived.Account.{Account, lock_script}
use ckb_bench_archived.Account.Forever.{Following, rollback_for_reorg, follow, pull_forever}
use ckb_bench_archived.Account.Forever.Sent.{Receives, cells_of}
use ckb_bench_archived.Account.Forever.Step.{Shares}
use ckb_bench_archived.Account.Forever.Growth.{owned_behind}
use ckb_bench_archived.Account.Forever.Conserved.{pull_forever-conserves}

module _ {W : Type 0} (inner : Inner W) (c : Crypto) (host : Host W) (maturity : ℕ)
    (account : Account) (rpc : Jsonrpc) (rpcs : List Jsonrpc) (chain : ℕ → BlockView) (tip : ℕ)
    (sent : W → List Utxo) where
  follow-orphan :
      (n : ℕ) (following : Following) (header back : HeaderView) (w w₁ w₂ : W)
      → add_u64 following.current_header.number 1 ≡ n + 1
      → get_fixed_header inner (record { endpoints = rpc ∷ rpcs }) (n + 1) w
        ≡ (ok (some header), w₁)
      → header.parent_hash ≢ following.current_header.hash
      → following.current_header.number ≡ n
      → inner.get_header_by_number rpc.uri (n - 1000) w₁ ≡ (answer (some back), w₂)
      → follow inner c host maturity account (record { endpoints = rpc ∷ rpcs }) following w
        ≡ (ok (some (record following { current_header = back })), w₂)
  unfolding follow rollback_for_reorg first_endpoint
  follow-orphan n following header back w w₁ w₂ above fixed orphan number has =
      let other : (header.parent_hash == following.current_header.hash) ≡ false = ground arith in
      rw (above, fixed, other, number, has) refl

  follow-rollback_for_reorg :
      Shares inner rpc rpcs chain tip sent
      → (n : ℕ) (following : Following) (w : W) → tip < u64_mod
      → following.current_header.number ≡ n
      → n + 1 ≤ tip
      → (chain (n + 1)).header.parent_hash ≢ following.current_header.hash
      → (w' : W) × (follow inner c host maturity account
            (record { endpoints = rpc ∷ rpcs })
            following
            w
          ≡ (ok (some (record following { current_header = (chain (n - 1000)).header })), w'))
        × (sent w' ≡ sent w)
  follow-rollback_for_reorg shares n following w small number le orphan =
      let (w₁, fixed, same₁) =
        get_fixed_header-shared inner sent (n + 1) (chain (n + 1)).header rpc rpcs w
          (shares.headers (n + 1) le) in
      let above : add_u64 following.current_header.number 1 ≡ n + 1 = omega (arith, number) in
      let (w₂, has, same₂) = shares.headers (n - 1000) (omega arith) rpc w₁ (inl refl) in
      (w₂, follow-orphan n following _ _ w w₁ w₂ above fixed orphan number has, same₂ ∙ same₁)

  -- With a receiver that takes every cell, and nodes that share a chain up to a tip that fits a
  -- `u64`, in which the next block is not the child of the block that the loop has come to, whichever
  -- cells wait: `pull_forever` goes back to the chain's block 1000 below, or to the genesis block, and
  -- follows any number of blocks from there up to the tip, one in each further round. What it has sent
  -- by then and the cells that wait are, up to their order, what was sent and what waited before, and
  -- all cells of the account in these blocks: those that it had come to already are there again.
  pub pull_forever-resends :
      {lock : Script}
      → lock_script c account ≡ ok lock
      → Receives host sent
      → Shares inner rpc rpcs chain tip sent
      → tip < u64_mod
      → (k rounds n : ℕ) (following : Following) (w : W) → following.current_header.number ≡ n
      → n + 1 ≤ tip
      → (chain (n + 1)).header.parent_hash ≢ following.current_header.hash
      → k + (n - 1000) ≤ tip
      → (next : Following) × (w' : W) × (pull_forever inner c host maturity account
            (record { endpoints = rpc ∷ rpcs })
            (suc (k + rounds))
            following
            w
          ≡ pull_forever inner c host maturity account
              (record { endpoints = rpc ∷ rpcs })
              rounds
              next
              w')
        × (next.current_header ≡ (chain (k + (n - 1000))).header)
        × Permᴰ
            (sent w' ++ cells_of next.unmatureds)
            ((sent w ++ cells_of following.unmatureds) ++ owned_behind lock chain (n - 1000) k)
  unfolding pull_forever
  pull_forever-resends {lock} known receives shares small k rounds n following w number le orphan
        up =
      let (w₁, back, same) =
        follow-rollback_for_reorg shares n following w small number le orphan in
      let (next, w₂, ran, conserved) =
        pull_forever-conserves inner c host maturity account rpc rpcs chain tip sent lock known
          receives shares small k (n - 1000) rounds
          (record following { current_header = (chain (n - 1000)).header }) w₁ up refl in
      (
        next,
        w₂,
        rw back ran,
        conserved.current,
        subst
            (λ b.
              Permᴰ (sent w₂ ++ cells_of next.unmatureds)
                ((b ++ cells_of following.unmatureds) ++ owned_behind lock chain (n - 1000) k))
            same conserved.conserves,
      )
