-- ===== src/Miner/Blocks.antt =====
-- What `generate_blocks` of tps-bench/src/miner.rs does to the chain.
use Prim.Native.String.{String}
use mathlib.Core.List.{append_assoc, append-nil}
use ckb_bench_archived.Base.{
  ℕ, zero, suc, ◌≡◌, ◌∙◌, refl, List, ◌∷◌, ◌++◌, [], none, some, ok, ap, sym, length, arith,
}
use ckb_bench_archived.Chain.{BlockView}
use ckb_bench_archived.Rpc.{Inner, Jsonrpc, BlockTemplate, answer}
use ckb_bench_archived.Net.{first_endpoint}
use ckb_bench_archived.Account.{Account}
use ckb_bench_archived.Miner.{generate_block, generate_blocks}

module _ {W : Type 0} (inner : Inner W) (to_string : ℕ → String) (chain : W → List BlockView) where
  -- A node that makes templates, and takes the block of its last template, with its identifier, to
  -- the end of the chain.
  pub record Extends (rpc : Jsonrpc) : Type 0 where
    pub grows :
        (w : W)
        → (template : BlockTemplate) × (w' : W) × (hash : ℕ) × (w'' : W) × (inner.get_block_template
              rpc.uri none none none w
            ≡ (answer template, w'))
          × (inner.submit_block rpc.uri (to_string template.work_id) template.block w'
              ≡ (answer (some hash), w''))
          × (chain w'' ≡ chain w ++ template.block ∷ [])

  -- With such a node at the head of the miner's net, `generate_blocks` returns, and the chain has
  -- grown by the given number of blocks, behind those that it had.
  pub generate_blocks-grows :
      (rpc : Jsonrpc) (rpcs : List Jsonrpc) (account : Account) (block_time : ℕ)
      → Extends rpc
      → (n : ℕ) (w : W)
      → (blocks : List BlockView) × (w' : W) × (generate_blocks inner to_string
            (record {
              net = record { endpoints = rpc ∷ rpcs };
              account = account;
              block_time = block_time;
            })
            n
            w
          ≡ (ok tt, w'))
        × (chain w' ≡ chain w ++ blocks)
        × (length blocks ≡ n)
  unfolding generate_blocks generate_block first_endpoint
  generate_blocks-grows rpc rpcs account block_time extends zero w =
      ([], w, refl, sym (append-nil (chain w)), refl)
  generate_blocks-grows rpc rpcs account block_time extends (suc n) w =
      let (template, w₁, hash, w₂, templated, submitted, one) = extends.grows w in
      let (blocks, w₃, ran, more, count) =
        generate_blocks-grows rpc rpcs account block_time extends n w₂ in
      (
        template.block ∷ blocks,
        w₃,
        rw (templated, submitted, ran) refl,
        more ∙ ap (λ l. l ++ blocks) one ∙ append_assoc (chain w) (template.block ∷ []) blocks,
        omega (arith, count),
      )
