-- ===== src/Account/Forever/Retried.antt =====
-- `retry_send` of tps-bench/src/account.rs while the pool of the node is full.
use Prim.Native.String.{String}
use ckb_bench_archived.Base.{
  ℕ, suc, ◌<◌, ◌≡◌, refl, List, [], ◌∷◌, ◌++◌, Bool, true, none, ok, ◌||◌, arith,
}
use ckb_bench_archived.Chain.{Byte32, TransactionView}
use ckb_bench_archived.Host.{Host}
use ckb_bench_archived.Rpc.{Inner, Jsonrpc, answer, failed}
use ckb_bench_archived.Rpc.Draining.{Drains, Drains-takes}
use ckb_bench_archived.Account.Forever.{retry_send}

module _ {W : Type 0} (inner : Inner W) (host : Host W) (contains : String → String → Bool)
    (rpc : Jsonrpc) (full : W → ℕ) (log : W → List TransactionView) where
  retry_send-again :
      (tx : TransactionView) (rounds : ℕ) (error : String) (w w₁ : W)
      → inner.send_transaction rpc.uri tx w ≡ (failed error, w₁)
      → contains error "PoolIsFull" ≡ true
      → retry_send inner host contains rpc tx (suc rounds) w
        ≡ retry_send inner host contains rpc tx rounds (host.sleep 1_000_000 w₁)
  unfolding retry_send
  retry_send-again tx rounds error w w₁ refused known =
      let full_pool : (contains error "TransactionPoolFull" || contains error "PoolIsFull") ≡ true =
        ground arith in
      rw (retry_send, refused, refused, full_pool) refl

  retry_send-done :
      (tx : TransactionView) (rounds : ℕ) (hash : Byte32) (w w₁ : W)
      → inner.send_transaction rpc.uri tx w ≡ (answer hash, w₁)
      → retry_send inner host contains rpc tx (suc rounds) w ≡ (ok none, w₁)
  unfolding retry_send
  retry_send-done tx rounds hash w w₁ took = rw (retry_send, took, took) refl

  -- Given a try for each second for which the pool stays full, and one more, `retry_send` returns
  -- without an error, and the node has taken the transaction once.
  pub retry_send-takes :
      Drains inner host contains rpc full log
      → (tx : TransactionView) (rounds : ℕ) (w : W) → full w < rounds
      → (w' : W) × (retry_send inner host contains rpc tx rounds w ≡ (ok none, w'))
        × (log w' ≡ log w ++ tx ∷ [])
  retry_send-takes drains tx rounds w enough =
      Drains-takes inner host contains rpc full log tx (retry_send inner host contains rpc tx) _
        (retry_send-again tx) (retry_send-done tx) drains rounds w enough
