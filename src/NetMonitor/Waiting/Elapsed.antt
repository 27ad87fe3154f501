-- ===== src/NetMonitor/Waiting/Elapsed.antt =====
-- `wait_custom_blocks_elapsed` of tps-bench/src/net_monitor.rs: which blocks are measured.
use ckb_bench_archived.Base.{
  ℕ, zero, suc, ◌≤◌, ◌<◌, ◌≡◌, refl, inl, inr, ok, ltb, ltb→lt, ltb→ge, Bool-cases, add_u64, arith,
}
use ckb_bench_archived.Chain.{TransactionView}
use ckb_bench_archived.Float.{Float}
use ckb_bench_archived.Host.{Host}
use ckb_bench_archived.Rpc.{Inner}
use ckb_bench_archived.Net.{Net, get_confirmed_tip_number}
use ckb_bench_archived.NetMonitor.{eval_blocks}
use ckb_bench_archived.NetMonitor.Waiting.{sleep, second, wait_for_tip, wait_custom_blocks_elapsed}

-- The chain goes on: `tip` is the confirmed tip number that is read in a state of the world, and
-- `due n` the number of seconds after which it has reached `n`.
pub record Advances {W : Type 0} (inner : Inner W) (host : Host W) (confirmation_blocks : ℕ)
    (net : Net) (tip : W → ℕ) (due : ℕ → W → ℕ) : Type 0 where
  pub reads :
      (w : W)
      → (w' : W) × (get_confirmed_tip_number inner confirmation_blocks net w ≡ (ok (tip w), w'))
        × (tip w' ≡ tip w)
        × ((n : ℕ) → due n w' ≡ due n w)
  pub nears : (n : ℕ) (w : W) → tip w < n → due n (host.sleep second w) < due n w

module _ {W F : Type 0} (inner : Inner W) (host : Host W) (float : Float F)
    (serialized_size : TransactionView → ℕ) (confirmation_blocks : ℕ) (net : Net) (tip : W → ℕ)
    (due : ℕ → W → ℕ) (advances : Advances inner host confirmation_blocks net tip due) where
  wait_for_tip-reaches :
      (rounds target : ℕ) (w : W)
      → due target w ≤ rounds
      → (w' : W) × (wait_for_tip inner host float serialized_size confirmation_blocks
            (suc rounds)
            net
            target
            w
          ≡ (ok tt, w'))
        × (target ≤ tip w')
  unfolding wait_for_tip sleep
  wait_for_tip-reaches zero target w soon =
      let (w₁, read, same, same_due) = advances.reads w in
      elim (Bool-cases (ltb (tip w) target)) [
        | inr there ↦ (w₁, rw (read, there) refl, omega (arith, ltb→ge _ _ there, same))
        | inl below ↦ absurd (omega (arith, advances.nears target w (ltb→lt _ _ below)))
      ]
  wait_for_tip-reaches (suc rounds) target w soon =
      let (w₁, read, same, same_due) = advances.reads w in
      elim (Bool-cases (ltb (tip w) target)) [
        | inr there ↦ (w₁, rw (read, there) refl, omega (arith, ltb→ge _ _ there, same))
        | inl below ↦
            let below₁ : tip w₁ < target = omega (arith, ltb→lt _ _ below, same) in
            let (w₂, ran, reached) =
              wait_for_tip-reaches rounds target (host.sleep second w₁)
                (omega (arith, advances.nears target w₁ below₁, same_due target)) in
            (w₂, rw (read, below) ran, reached)
      ]

  -- If the confirmed tip reaches each of the two numbers that are waited for within the given
  -- rounds, the metrics are those of the blocks from a confirmed tip that lies the warmup or more
  -- above the first one to the block that lies the window above it, which is confirmed by then.
  pub wait_custom_blocks_elapsed-measures :
      (rounds window warmup : ℕ) (w : W)
      → ((v : W) → due (add_u64 (tip v) warmup) v ≤ rounds)
      → ((v : W) → due (add_u64 (tip v) window) v ≤ rounds)
      → (current : ℕ) × (w' : W) × (wait_custom_blocks_elapsed inner host float serialized_size
            confirmation_blocks
            (suc rounds)
            net
            window
            warmup
            w
          ≡ eval_blocks inner float serialized_size net current (add_u64 current window) w')
        × (add_u64 (tip w) warmup ≤ current)
        × (add_u64 current window ≤ tip w')
  unfolding wait_custom_blocks_elapsed
  wait_custom_blocks_elapsed-measures rounds window warmup w warm soon =
      let (w₁, read₁, same₁, due₁) = advances.reads w in
      let (w₂, waited₂, reached₂) =
        wait_for_tip-reaches rounds (add_u64 (tip w) warmup) w₁
          (omega (arith, due₁ (add_u64 (tip w) warmup), warm w)) in
      let (w₃, read₃, same₃, due₃) = advances.reads w₂ in
      let (w₄, waited₄, reached₄) =
        wait_for_tip-reaches rounds (add_u64 (tip w₂) window) w₃
          (omega (arith, due₃ (add_u64 (tip w₂) window), soon w₂)) in
      (tip w₂, w₄, rw (read₁, waited₂, read₃, waited₄) refl, reached₂, reached₄)
