-- ===== src/NetMonitor/Waiting/Pools.antt =====
-- `wait_network_txpool_empty` of tps-bench/src/net_monitor.rs, which a bench begins with.
use Prim.Native.String.{String}
use ckb_bench_archived.Base.{
  ℕ, zero, suc, ◌<◌, ◌≡◌, refl, ◌∙◌, sym, List, [], ◌∷◌, Bool, true, false, Outcome, ok, ltb,
  ltb→lt, ltb→ge, inl, inr, All, not, ◌||◌, ◌==◌, ◌↔◌, Bool-cases, arith,
}
use mathlib.Core.Bool.{true≢false}
use ckb_bench_archived.Chain.{TransactionView}
use ckb_bench_archived.Float.{Float}
use ckb_bench_archived.Host.{Host}
use ckb_bench_archived.Rpc.{Inner, Jsonrpc, TxPoolInfo, answer}
use ckb_bench_archived.NetMonitor.Waiting.{
  sleep, second, all_txpools_empty, wait_network_txpool_empty,
}

abbrev pub IsEmpty : TxPoolInfo → Type 0
IsEmpty pool = (pool.pending ≡ 0) × (pool.proposed ≡ 0)

-- Every node answers with its pool, which changes no pool; after `due` seconds all pools are empty.
pub record Settles {W : Type 0} (inner : Inner W) (host : Host W) (rpcs : List Jsonrpc)
    (pools : W → String → TxPoolInfo) (due : W → ℕ) : Type 0 where
  pub tells :
      (uri : String) (w : W)
      → (w' : W) × (inner.tx_pool_info uri w ≡ (answer (pools w uri), w'))
        × (pools w' ≡ pools w)
        × (due w' ≡ due w)
  pub nears : (w : W) → 0 < due w → due (host.sleep second w) < due w
  pub empty : (w : W) → due w ≡ 0 → All (λ rpc. IsEmpty (pools w rpc.uri)) rpcs

module _ {W F : Type 0} (inner : Inner W) (host : Host W) (float : Float F)
    (serialized_size : TransactionView → ℕ) (confirmation_blocks : ℕ) (rpcs : List Jsonrpc)
    (pools : W → String → TxPoolInfo) (due : W → ℕ)
    (settles : Settles inner host rpcs pools due) where
  abbrev all_empty : List Jsonrpc → W → Outcome Bool × W
  all_empty = all_txpools_empty inner host float serialized_size confirmation_blocks

  pools_are_read :
      (rs : List Jsonrpc) (w : W)
      → (answered : Bool) × (w' : W) × (all_empty rs w ≡ (ok answered, w'))
        × (pools w' ≡ pools w)
        × (due w' ≡ due w)
        × ((answered ≡ true) ↔ All (λ rpc. IsEmpty (pools w rpc.uri)) rs)
  unfolding all_txpools_empty
  pools_are_read [] w = (true, w, refl, refl, refl, (λ e. tt, λ e. refl))
  pools_are_read (rpc ∷ rs) w =
      let (w₁, told, same, same_due) = settles.tells rpc.uri w in
      let pool = pools w rpc.uri in
      elim (Bool-cases (not (pool.pending == 0) || not (pool.proposed == 0))) [
        | inl waits ↦ (
          false,
          w₁,
          rw (told, waits) refl,
          same,
          same_due,
          (λ e. cc, λ (first, rest). absurd (ground arith)),
        )
        | inr empty ↦
            let (answered, w₂, ran, same₂, same_due₂, (one, other)) = pools_are_read rs w₁ in
            (
              answered,
              w₂,
              rw (told, empty) ran,
              same₂ ∙ same,
              same_due₂ ∙ same_due,
              (λ e. (ground arith, rw same at (one e)), λ (first, rest). other (rw same rest)),
            )
      ]

  -- Where every node tells its pool, and all pools are empty after some seconds: given more rounds
  -- than seconds, the wait for empty pools returns, and then the pools of all nodes are empty.
  pub wait_network_txpool_empty-IsEmpty :
      (rounds : ℕ) (w : W)
      → due w < rounds
      → (w' : W) × (wait_network_txpool_empty inner host float serialized_size confirmation_blocks
            rounds
            (record { endpoints = rpcs })
            w
          ≡ (ok tt, w'))
        × All (λ rpc. IsEmpty (pools w' rpc.uri)) rpcs
  unfolding wait_network_txpool_empty sleep
  wait_network_txpool_empty-IsEmpty zero w enough = absurd (omega arith)
  wait_network_txpool_empty-IsEmpty (suc rounds) w enough =
      let (answered, w₁, ran, same, same_due, (one, other)) = pools_are_read rpcs w in
      elim (Bool-cases answered) [
        | inl done ↦ (w₁, rw (ran, done) refl, rw same (one done))
        | inr more ↦ elim (Bool-cases (ltb 0 (due w))) [
          | inl later ↦
              let (w₂, ran₂, empty) =
                wait_network_txpool_empty-IsEmpty rounds (host.sleep second w₁) (
                  omega (
                    arith,
                    settles.nears w₁ (omega (arith, ltb→lt _ _ later, same_due)),
                    same_due,
                  )) in
              (w₂, rw (ran, more) ran₂, empty)
          | inr now_ ↦
              absurd
                (true≢false (sym (other (settles.empty w (omega (arith, ltb→ge _ _ now_)))) ∙ more))
        ]
      ]
