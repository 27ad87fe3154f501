-- ===== src/NetMonitor/Waiting/Timed.antt =====
-- `wait_duration_time_elapsed` of tps-bench/src/net_monitor.rs: which blocks are measured, and when.
use ckb_bench_archived.Base.{
  ℕ, zero, suc, ◌+◌, ◌-◌, ◌*◌, ◌≤◌, ◌<◌, ◌≡◌, refl, ok, false, inl, inr, leb, Bool-cases, arith,
}
use ckb_bench_archived.Chain.{TransactionView}
use ckb_bench_archived.Float.{Float}
use ckb_bench_archived.Host.{Host}
use ckb_bench_archived.Rpc.{Inner}
use ckb_bench_archived.Net.{Net, get_confirmed_tip_number}
use ckb_bench_archived.NetMonitor.{eval_blocks}
use ckb_bench_archived.NetMonitor.Waiting.{
  sleep, now, second, wait_until_elapsed, wait_duration_time_elapsed,
}

-- The clock shows `time`, and goes on in a sleep; `tip` is the confirmed tip number that is read.
pub record Ticks {W : Type 0} (inner : Inner W) (host : Host W) (confirmation_blocks : ℕ)
    (net : Net) (time tip : W → ℕ) : Type 0 where
  pub shows : (w : W) → (w' : W) × (host.now w ≡ (time w, w')) × (time w' ≡ time w)
  pub sleeps : (w : W) → time w < time (host.sleep second w)
  pub reads :
      (w : W)
      → (w' : W) × (get_confirmed_tip_number inner confirmation_blocks net w ≡ (ok (tip w), w'))
        × (time w' ≡ time w)

module _ {W F : Type 0} (inner : Inner W) (host : Host W) (float : Float F)
    (serialized_size : TransactionView → ℕ) (confirmation_blocks : ℕ) (net : Net) (time tip : W → ℕ)
    (ticks : Ticks inner host confirmation_blocks net time tip) where
  wait_until_elapsed-ends :
      (rounds start duration : ℕ) (w : W)
      → start ≤ time w
      → start + duration < time w + rounds
      → (w' : W) × (wait_until_elapsed inner host float serialized_size confirmation_blocks
            (suc rounds)
            start
            duration
            w
          ≡ (ok tt, w'))
        × (start + duration < time w')
  unfolding wait_until_elapsed sleep now
  wait_until_elapsed-ends zero start duration w late enough =
      let (w₁, shown, same) = ticks.shows w in
      let over : leb (time w - start) duration ≡ false = ground arith in
      (w₁, rw (shown, over) refl, omega (arith, same))
  wait_until_elapsed-ends (suc rounds) start duration w late enough =
      let (w₁, shown, same) = ticks.shows w in
      elim (Bool-cases (leb (time w - start) duration)) [
        | inl early ↦
            let tick = ticks.sleeps w₁ in
            let (w₂, ran, over) =
              wait_until_elapsed-ends rounds start duration (host.sleep second w₁)
                (omega (arith, tick, same)) (omega (arith, tick, same)) in
            (w₂, rw (shown, early) ran, over)
        | inr over ↦
            let gone : duration < time w - start = ground arith in
            (w₁, rw (shown, over) refl, omega (arith, gone, same))
      ]

  -- Where the clock goes on in a sleep, and the confirmed tip can be read: given two rounds more than
  -- there are microseconds in the duration, or even more, the metrics are those of the blocks from the
  -- confirmed tip before the wait to the one after it, which is read when more than the duration is
  -- over.
  pub wait_duration_time_elapsed-measures :
      (rounds duration_time : ℕ) (w : W)
      → duration_time * second + 1 < rounds
      → (v w' : W) × (wait_duration_time_elapsed inner host float serialized_size
            confirmation_blocks rounds net duration_time w
          ≡ eval_blocks inner float serialized_size net (tip w) (tip v) w')
        × (time w + duration_time * second < time v)
  unfolding wait_duration_time_elapsed now
  wait_duration_time_elapsed-measures zero duration_time w enough = absurd (omega arith)
  wait_duration_time_elapsed-measures (suc rounds) duration_time w enough =
      let (w₁, read, same) = ticks.reads w in
      let (w₂, shown, same₂) = ticks.shows w₁ in
      let (v, waited, over) =
        wait_until_elapsed-ends rounds (time w₁) (duration_time * second) w₂ (omega (arith, same₂))
          (omega (arith, same₂)) in
      let (w₃, read₃, same₃) = ticks.reads v in
      (v, w₃, rw (read, shown, waited, read₃) refl, omega (arith, over, same))
