-- ===== src/Rpc/Draining.antt =====
-- A node whose pool of transactions is full for a while, as the loops that send a transaction again
-- meet it (`retry_send` of tps-bench/src/account.rs, `spawn_transaction_emitter` of benchmark.rs).
use Prim.Native.String.{String}
use ckb_bench_archived.Base.{
  ℕ, zero, suc, ◌<◌, ◌≡◌, ◌∙◌, ap, List, [], ◌∷◌, ◌++◌, Bool, true, ok, inl, inr, Action, ltb,
  ltb→lt, ltb→ge, Bool-cases, arith,
}
use ckb_bench_archived.Chain.{Byte32, TransactionView}
use ckb_bench_archived.Host.{Host}
use ckb_bench_archived.Rpc.{Inner, Jsonrpc, answer, failed}

-- `full` is the number of seconds for which the pool stays full, and `log` what the node has taken.
pub record Drains {W : Type 0} (inner : Inner W) (host : Host W) (contains : String → String → Bool)
    (rpc : Jsonrpc) (full : W → ℕ) (log : W → List TransactionView) : Type 0 where
  pub refuses :
      (tx : TransactionView) (w : W)
      → 0 < full w
      → (error : String) × (w' : W) × (inner.send_transaction rpc.uri tx w ≡ (failed error, w'))
        × (contains error "PoolIsFull" ≡ true)
        × (full w' ≡ full w)
        × (log w' ≡ log w)
  pub takes :
      (tx : TransactionView) (w : W)
      → full w ≡ 0
      → (hash : Byte32) × (w' : W) × (inner.send_transaction rpc.uri tx w ≡ (answer hash, w'))
        × (log w' ≡ log w ++ tx ∷ [])
  pub drains :
      (w : W)
      → 0 < full w
      → (full (host.sleep 1_000_000 w) < full w) × (log (host.sleep 1_000_000 w) ≡ log w)

module _ {W R : Type 0} (inner : Inner W) (host : Host W) (contains : String → String → Bool)
    (rpc : Jsonrpc) (full : W → ℕ) (log : W → List TransactionView) (tx : TransactionView)
    (run : ℕ → Action W R) (r : R)
    (again : (rounds : ℕ) (error : String) (w w₁ : W)
      → inner.send_transaction rpc.uri tx w ≡ (failed error, w₁)
      → contains error "PoolIsFull" ≡ true
      → run (suc rounds) w ≡ run rounds (host.sleep 1_000_000 w₁))
    (done : (rounds : ℕ) (hash : Byte32) (w w₁ : W)
      → inner.send_transaction rpc.uri tx w ≡ (answer hash, w₁)
      → run (suc rounds) w ≡ (ok r, w₁)) where
  -- A loop that sends again after a second ends, with a try for each second and one more.
  pub Drains-takes :
      Drains inner host contains rpc full log
      → (rounds : ℕ) (w : W) → full w < rounds
      → (w' : W) × (run rounds w ≡ (ok r, w')) × (log w' ≡ log w ++ tx ∷ [])
  Drains-takes drains zero w enough = absurd (omega arith)
  Drains-takes drains (suc rounds) w enough = elim (Bool-cases (ltb 0 (full w))) [
    | inl more ↦
        let (error, w₁, refused, known, same, logged) = drains.refuses tx w (ltb→lt _ _ more) in
        let (less, kept) = drains.drains w₁ (omega (arith, ltb→lt _ _ more, same)) in
        let (w₂, ran, taken) =
          Drains-takes drains rounds (host.sleep 1_000_000 w₁) (omega (arith, less, same)) in
        (
          w₂,
          again rounds error w w₁ refused known ∙ ran,
          taken ∙ ap (λ l. l ++ tx ∷ []) (kept ∙ logged),
        )
    | inr empty ↦
        let (hash, w₁, took, logged) = drains.takes tx w (omega (arith, ltb→ge _ _ empty)) in
        (w₁, done rounds hash w w₁ took, logged)
  ]
