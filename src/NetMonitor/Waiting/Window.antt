-- ===== src/NetMonitor/Waiting/Window.antt =====
-- `wait_recent_blocktxns_nearly` of tps-bench/src/net_monitor.rs with a window of two blocks or less.
use ckb_bench_archived.Base.{
  ℕ, zero, suc, ◌≤◌, ◌<◌, ◌≡◌, ◌≢◌, List, [], ◌∷◌, ◌++◌, Bool, ok, unwrap, inl, inr, ltb, leb,
  Bool-cases, length, length-append, add_u64, arith,
}
use ckb_bench_archived.Base.Effects.{bind-ok, lift}
use ckb_bench_archived.Chain.{TransactionView, BlockView}
use ckb_bench_archived.Float.{Float}
use ckb_bench_archived.Host.{Host}
use ckb_bench_archived.Rpc.{Inner}
use ckb_bench_archived.Net.{Net, get_confirmed_tip_number, get_confirmed_tip_block}
use ckb_bench_archived.NetMonitor.{Metrics, block_at_number, eval_blocks}
use ckb_bench_archived.NetMonitor.Waiting.{
  trim, back, second, next_block, eval_window, recent_loop, wait_recent_blocktxns_nearly,
}

-- What is left of a queue that is shortened is shorter than the window.
trim_short :
    (window : ℕ) (queue left : List BlockView) → trim window queue ≡ ok left → length left < window
unfolding trim
trim_short window [] left h = ground arith
trim_short window (b ∷ queue) left h = elim (Bool-cases (leb window (length (b ∷ queue)))) [
  | inl long ↦ trim_short window queue left (rw long at h)
  | inr short ↦ let same : b ∷ queue ≡ left = cc (rw short at h) in rw (← same) (ground arith)
]

module _ {W F : Type 0} (inner : Inner W) (host : Host W) (float : Float F)
    (serialized_size : TransactionView → ℕ) (confirmation_blocks : ℕ) (net : Net) where
  next_block_short :
      (rounds window : ℕ) (queue longer : List BlockView) (w : W)
      → (next_block inner host float serialized_size confirmation_blocks rounds net window queue
          w).0
        ≡ ok longer
      → length longer ≤ window
  unfolding next_block
  next_block_short zero window queue longer w h = cc
  next_block_short (suc rounds) window queue longer w h =
      let (tip, _, h₁) =
        bind-ok (get_confirmed_tip_number inner confirmation_blocks net) _ w longer h in
      let (last, _, h₂) = bind-ok (lift (unwrap (back queue) "back")) _ _ longer h₁ in
      elim (Bool-cases (ltb last.number tip)) [
        | inl new ↦
            let (block, _, h₃) =
              bind-ok (block_at_number inner float serialized_size net (add_u64 last.number 1)) _ _
                longer (rw new at h₂) in
            let (trimmed, shortened, h₄) = bind-ok (lift (trim window queue)) _ _ longer h₃ in
            let same : trimmed ++ block ∷ [] ≡ longer = cc h₄ in
            rw (← same) (
              omega (
                arith,
                trim_short window queue trimmed shortened,
                length-append trimmed (block ∷ []),
              ))
        | inr old ↦
            next_block_short rounds window queue longer
              (host.sleep second (get_confirmed_tip_number inner confirmation_blocks net w).1)
              (rw old at h₂)
      ]

  -- Of two blocks or less, none is left between the first and the last.
  eval_window_panics :
      (margin : ℕ) (queue : List BlockView) (w : W) (r : Metrics × Bool × List BlockView)
      → length queue ≤ 2
      → (eval_window inner host float serialized_size confirmation_blocks net margin queue w).0
        ≢ ok r
  unfolding eval_window
  eval_window_panics margin [] w r short h = cc
  eval_window_panics margin (a ∷ []) w r short h = cc
  eval_window_panics margin (a ∷ b ∷ []) w r short h =
      let (metrics, _, h₁) =
        bind-ok (eval_blocks inner float serialized_size net a.number b.number) _ w r h in
      cc h₁
  eval_window_panics margin (a ∷ b ∷ c ∷ queue) w r short h = absurd (omega arith)

  recent_loop-ne-ok :
      (outer rounds window margin : ℕ) (queue : List BlockView) (w : W) (m : Metrics)
      → window ≤ 2
      → (recent_loop inner host float serialized_size confirmation_blocks outer rounds net window
          margin queue w).0
        ≢ ok m
  unfolding recent_loop
  recent_loop-ne-ok zero rounds window margin queue w m small h = cc
  recent_loop-ne-ok (suc outer) rounds window margin queue w m small h =
      let (queue', got, h₁) =
        bind-ok
          (next_block inner host float serialized_size confirmation_blocks rounds net window queue)
          _ w m h in
      let short = next_block_short rounds window queue queue' w got in
      elim (Bool-cases (leb window (length queue'))) [
        | inl full ↦
            let (r, evaluated, _) =
              bind-ok
                (eval_window inner host float serialized_size confirmation_blocks net margin queue')
                _ _ m (rw full at h₁) in
            eval_window_panics margin queue' _ r (omega arith) evaluated
        | inr more ↦ recent_loop-ne-ok outer rounds window margin queue' _ m small (rw more at h₁)
      ]

  -- With a window of two blocks or less, whatever the nodes answer and however long it goes on, the
  -- wait for blocks with nearly as many transactions never returns metrics: it panics or goes on.
  pub wait_recent_blocktxns_nearly-ne-ok :
      (outer rounds window margin : ℕ) (w : W) (m : Metrics)
      → window ≤ 2
      → (wait_recent_blocktxns_nearly inner host float serialized_size confirmation_blocks outer
          rounds net window margin w).0
        ≢ ok m
  unfolding wait_recent_blocktxns_nearly
  wait_recent_blocktxns_nearly-ne-ok outer rounds window margin w m small h =
      let (block, _, h₁) =
        bind-ok (get_confirmed_tip_block inner confirmation_blocks net) _ w m h in
      recent_loop-ne-ok outer rounds window margin (block ∷ []) _ m small h₁
