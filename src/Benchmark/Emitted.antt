-- ===== src/Benchmark/Emitted.antt =====
-- The loop of an emitter in tps-bench/src/benchmark.rs while the pool of the node is full.
use Prim.Native.String.{String}
use ckb_bench_archived.Base.{
  ℕ, suc, ◌<◌, ◌≡◌, refl, List, [], ◌∷◌, ◌++◌, Bool, true, ok, ◌||◌, arith,
}
use ckb_bench_archived.Chain.{Byte32, TransactionView}
use ckb_bench_archived.Host.{Host}
use ckb_bench_archived.Rpc.{Inner, Jsonrpc, answer, failed}
use ckb_bench_archived.Rpc.Draining.{Drains, Drains-takes}
use ckb_bench_archived.Benchmark.{emit}

module _ {W : Type 0} (inner : Inner W) (host : Host W) (contains : String → String → Bool)
    (rpc : Jsonrpc) (full : W → ℕ) (log : W → List TransactionView) where
  emit-again :
      (tx : TransactionView) (rounds : ℕ) (error : String) (w w₁ : W)
      → inner.send_transaction rpc.uri tx w ≡ (failed error, w₁)
      → contains error "PoolIsFull" ≡ true
      → emit inner host contains rpc tx (suc rounds) w
        ≡ emit inner host contains rpc tx rounds (host.sleep 1_000_000 w₁)
  unfolding emit
  emit-again tx rounds error w w₁ refused known =
      let full_pool : (contains error "PoolIsFull" || contains error "TransactionPoolFull") ≡ true =
        ground arith in
      rw (emit, refused, refused, full_pool) refl

  emit-done :
      (tx : TransactionView) (rounds : ℕ) (hash : Byte32) (w w₁ : W)
      → inner.send_transaction rpc.uri tx w ≡ (answer hash, w₁)
      → emit inner host contains rpc tx (suc rounds) w ≡ (ok tt, w₁)
  unfolding emit
  emit-done tx rounds hash w w₁ took = rw (emit, took, took) refl

  -- Given a try for each second for which the pool stays full, and one more, the loop ends,
  -- and the node has taken the transaction once.
  pub emit-takes :
      Drains inner host contains rpc full log
      → (tx : TransactionView) (rounds : ℕ) (w : W) → full w < rounds
      → (w' : W) × (emit inner host contains rpc tx rounds w ≡ (ok tt, w'))
        × (log w' ≡ log w ++ tx ∷ [])
  emit-takes drains tx rounds w enough =
      Drains-takes inner host contains rpc full log tx (emit inner host contains rpc tx) _
        (emit-again tx) (emit-done tx) drains rounds w enough
