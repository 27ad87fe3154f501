-- ===== src/Benchmark/Loop.antt =====
-- The loop of `BenchmarkConfig::bench` in tps-bench/src/benchmark.rs over the cells that it receives.
mod Tests
use mathlib.Core.List.{append_assoc, append-nil}
use ckb_bench_archived.Base.{
  ℕ, zero, suc, ◌+◌, ◌≤◌, ◌<◌, ◌≡◌, refl, sym, ◌∙◌, ap, List, [], ◌∷◌, ◌++◌, map, Bool, true, false,
  Option, some, none, Outcome, ok, inl, inr, length, length-append, Option-cases, arith,
}
use ckb_bench_archived.Chain.{Byte32, TransactionView}
use ckb_bench_archived.Crypto.{Crypto}
use ckb_bench_archived.Utxo.{Utxo}
use ckb_bench_archived.Host.{Host}
use ckb_bench_archived.Account.{Account}
use ckb_bench_archived.NetMonitor.{Metrics}
use ckb_bench_archived.Config.{TransactionType, outputs_count}
use ckb_bench_archived.Transfer.{construct_unsigned_transaction, sign_transaction}
use ckb_bench_archived.Benchmark.{
  BenchHost, Batch, no_batch, min_input_total_capacity, take_in, take_metrics, send_batch, recv,
  bench_loop,
}
use ckb_bench_archived.Benchmark.Batches.{gather}
use ckb_bench_archived.Benchmark.Emitters.{Emits, IsTaken, try_emitters-IsTaken}

-- The channel delivers the cells of `queue` in order and is then closed. The monitor has metrics
-- ready, or not, by the number of transactions that were taken so far.
pub record Feeds {W : Type 0} (host : Host W) (bench_host : BenchHost W) (queue : W → List Utxo)
    (log : W → List TransactionView) (notice : ℕ → Option Metrics) : Type 0 where
  pub closed :
      (w : W) → queue w ≡ [] → (w' : W) × (host.recv_utxo w ≡ (none, w')) × (log w' ≡ log w)
  pub next :
      (w : W) (utxo : Utxo) (utxos : List Utxo)
      → queue w ≡ utxo ∷ utxos
      → (w' : W) × (host.recv_utxo w ≡ (some utxo, w')) × (queue w' ≡ utxos) × (log w' ≡ log w)
  pub sleeps :
      (time : ℕ) (w : W) → (queue (host.sleep time w) ≡ queue w) × (log (host.sleep time w) ≡ log w)
  pub notices :
      (w : W)
      → (w' : W) × (bench_host.try_recv_metrics w ≡ (notice (length (log w)), w'))
        × (queue w' ≡ queue w)
        × (log w' ≡ log w)
  pub writes :
      (delay : ℕ) (kind : TransactionType) (m : Metrics) (w : W)
      → log (bench_host.write_metrics delay kind m w) ≡ log w

-- What a bench comes to, by the batches of cells, when some transactions have been taken before: the
-- throughput that it returns, and the transactions that it sends.
abbrev with_payment :
    Option Metrics → TransactionView → ℕ × List TransactionView → ℕ × List TransactionView
with_payment none tx (tps, txs) = (tps, tx ∷ txs)
with_payment (some m) tx rest = (m.tps, tx ∷ [])

pub benched :
    (ℕ → Option Metrics)
    → (List Utxo → TransactionView)
    → ℕ
    → List (List Utxo)
    → ℕ × List TransactionView
benched notice pay n [] = (0, [])
benched notice pay n (inputs ∷ batches) =
    with_payment (notice (n + 1)) (pay inputs) (benched notice pay (n + 1) batches)

module _ {W : Type 0} (c : Crypto) (host : Host W) (bench_host : BenchHost W)
    (dep_group_tx_hash : Outcome Byte32) (sender recipient : Account)
    (transaction_type : TransactionType) (emitters send_delay : ℕ) (busy : W → ℕ → Bool)
    (queue : W → List Utxo) (log : W → List TransactionView) (notice : ℕ → Option Metrics)
    (emits : Emits host emitters busy queue log) (feeds : Feeds host bench_host queue log notice)
    (pay : List Utxo → TransactionView)
    (pays : (inputs : List Utxo)
      → (raw : TransactionView) × (construct_unsigned_transaction c dep_group_tx_hash recipient
            inputs
            (outputs_count transaction_type)
          ≡ ok raw)
        × (sign_transaction c sender raw ≡ ok (pay inputs))) where
  take_metrics-notice :
      (w : W)
      → (w' : W) × (take_metrics c host bench_host dep_group_tx_hash sender recipient
            transaction_type emitters send_delay w
          ≡ (ok (notice (length (log w))), w'))
        × (notice (length (log w)) ≡ none → queue w' ≡ queue w)
        × (log w' ≡ log w)
  unfolding take_metrics
  take_metrics-notice w =
      let (w₁, received, queued, logged) = feeds.notices w in
      elim (Option-cases (notice (length (log w)))) [
        | inl nothing ↦
            (w₁, rw (take_metrics, received, nothing, received) refl, λ e. queued, logged)
        | inr (m, there) ↦ (
          bench_host.write_metrics send_delay transaction_type m w₁,
          rw (take_metrics, received, there, received) refl,
          λ e. absurd (cc (e, there)),
          feeds.writes send_delay transaction_type m w₁ ∙ logged,
        )
      ]

  send_batch-notice :
      (rounds : ℕ) (inputs : List Utxo) (cursor : ℕ) (w : W)
      → emitters ≤ rounds
      → cursor < emitters
      → (cursor' : ℕ) × (w' : W) × (send_batch c host bench_host dep_group_tx_hash sender recipient
            transaction_type emitters send_delay rounds inputs cursor w
          ≡ (ok (cursor', notice (length (log w) + 1)), w'))
        × (cursor' < emitters)
        × (notice (length (log w) + 1) ≡ none → queue w' ≡ queue w)
        × (log w' ≡ log w ++ pay inputs ∷ [])
  unfolding send_batch
  send_batch-notice rounds inputs cursor w enough low =
      let (raw, constructed, signed) = pays inputs in
      let (next, w₁, tried, below, (queued, logged)) =
        try_emitters-IsTaken host emitters busy queue log emits (pay inputs) rounds cursor w enough
          low in
      let w₂ = host.sleep send_delay w₁ in
      let (queued₂, logged₂) = feeds.sleeps send_delay w₁ in
      let (w₃, took, queued₃, logged₃) = take_metrics-notice w₂ in
      let count : length (log w₂) ≡ length (log w) + 1 =
        ap length (logged₂ ∙ logged) ∙ length-append (log w) (pay inputs ∷ []) in
      (
        next,
        w₃,
        rw (constructed, signed, tried, took, count) refl,
        below,
        λ e. queued₃ (ap notice count ∙ e) ∙ queued₂ ∙ queued,
        logged₃ ∙ logged₂ ∙ logged,
      )

  abbrev min_total : ℕ
  min_total = min_input_total_capacity (outputs_count transaction_type)

  abbrev run : ℕ → ℕ → ℕ → Batch → W → Outcome ℕ × W
  run =
      bench_loop c host bench_host dep_group_tx_hash sender recipient transaction_type emitters
        send_delay

  bench_loop-benched :
      (utxos : List Utxo) (cells n rounds cursor : ℕ) (batch : Batch) (w : W)
      → queue w ≡ utxos
      → length (log w) ≡ n
      → length utxos < cells
      → emitters ≤ rounds
      → cursor < emitters
      → let (tps, txs) = benched notice pay n (gather min_total utxos batch).0 in
        (w' : W) × (run cells rounds cursor batch w ≡ (ok tps, w')) × (log w' ≡ log w ++ txs)
  unfolding bench_loop recv benched
  bench_loop-benched utxos zero n rounds cursor batch w here count many enough low =
      absurd (omega arith)
  bench_loop-benched [] (suc cells) n rounds cursor batch w here count many enough low =
      let (w', closed, same) = feeds.closed w here in
      (w', rw closed refl, same ∙ sym (append-nil (log w)))
  bench_loop-benched (u ∷ us) (suc cells) n rounds cursor batch w here count many enough low =
      let (w₁, received, left, same) = feeds.next w u us here in
      let taken = take_in min_total u batch in
      let count₁ : length (log w₁) ≡ n = ap length same ∙ count in
      elim (Option-cases taken.0) [
        | inl few ↦
            let (w₂, ran, logged) =
              bench_loop-benched us cells n rounds cursor taken.1 w₁ left count₁ (omega arith)
                enough low in
            let txs = (benched notice pay n (gather min_total us taken.1).0).1 in
            (w₂, rw (received, few) ran, rw few (logged ∙ ap (λ l. l ++ txs) same))
        | inr (inputs, full) ↦
            let (cursor', w₂, sent, below, queued, logged) =
              send_batch-notice rounds inputs cursor w₁ enough low in
            elim (Option-cases (notice (n + 1))) [
              | inl nothing ↦
                  let at : notice (length (log w₁) + 1) ≡ none =
                    ap (λ k. notice (k + 1)) count₁ ∙ nothing in
                  let count₂ : length (log w₂) ≡ n + 1 =
                    omega
                      (arith, ap length logged, length-append (log w₁) (pay inputs ∷ []), count₁) in
                  let (w₃, ran, logged') =
                    bench_loop-benched us cells (n + 1) rounds cursor' taken.1 w₂ (queued at ∙ left)
                      count₂ (omega arith) enough below in
                  let txs = (benched notice pay (n + 1) (gather min_total us taken.1).0).1 in
                  (
                    w₃,
                    rw (received, full, sent, at, nothing) ran,
                    rw (full, nothing)
                        (logged'
                          ∙ ap (λ l. l ++ txs) (logged ∙ ap (λ l. l ++ pay inputs ∷ []) same)
                          ∙ append_assoc (log w) (pay inputs ∷ []) txs),
                  )
              | inr (m, there) ↦
                  let at : notice (length (log w₁) + 1) ≡ some m =
                    ap (λ k. notice (k + 1)) count₁ ∙ there in
                  (
                    w₂,
                    rw (received, full, sent, at, there) refl,
                    rw (full, there) (logged ∙ ap (λ l. l ++ pay inputs ∷ []) same),
                  )
            ]
      ]

  -- Where always one of the emitters is not busy, and every batch of inputs can be paid by a signed
  -- transaction: the loop of a bench returns, given more rounds than there are cells, and at least as
  -- many tries as emitters. The emitters have taken one transaction for each batch of the received
  -- cells, in order, up to the transaction at which metrics are there, and it returns the throughput
  -- of these; or one for every batch, and it returns 0.
  pub bench_loop-IsBenched :
      (cells rounds : ℕ) (w : W)
      → length (queue w) < cells
      → emitters ≤ rounds
      → let (tps, txs) =
          benched notice pay (length (log w)) (gather min_total (queue w) no_batch).0 in
        (w' : W) × (run cells rounds 0 no_batch w ≡ (ok tps, w')) × (log w' ≡ log w ++ txs)
  bench_loop-IsBenched cells rounds w many enough =
      let (i, there, free) = emits.free w in
      bench_loop-benched (queue w) cells (length (log w)) rounds 0 no_batch w refl refl many enough
        (omega (arith, there))
