-- ===== src/Benchmark/Emitters.antt =====
-- The loop of `BenchmarkConfig::bench` in tps-bench/src/benchmark.rs that looks for an emitter that
-- takes a transaction.
use ckb_bench_archived.Base.{
  ℕ, zero, suc, ◌+◌, ◌%◌, ◌≤◌, ◌<◌, ◌≡◌, refl, sym, ◌∙◌, ap, List, [], ◌∷◌, ◌++◌, Bool, true, false,
  ok, inl, inr, ◌⊎◌, ◌≢◌, ltb, ltb→lt, ltb→ge, Bool-cases, arith,
}
use native.Mathlib.Nat.{mod-eq_of_lt, mod_self}
use mathlib.Core.Bool.{true≢false}
use ckb_bench_archived.Chain.{TransactionView}
use ckb_bench_archived.Utxo.{Utxo}
use ckb_bench_archived.Host.{Host}
use ckb_bench_archived.Benchmark.{checked_rem, try_emitters}
use ckb_bench_archived.Benchmark.Batches.{checked_rem_pos}

-- An emitter takes a transaction unless it is busy. One that is busy changes nothing that is
-- observed; there is always one that is not.
pub record Emits {W : Type 0} (host : Host W) (emitters : ℕ) (busy : W → ℕ → Bool)
    (queue : W → List Utxo) (log : W → List TransactionView) : Type 0 where
  pub refuses :
      (i : ℕ) (tx : TransactionView) (w : W)
      → busy w i ≡ true
      → (w' : W) × (host.try_send_tx i tx w ≡ (false, w'))
        × ((j : ℕ) → busy w' j ≡ busy w j)
        × (queue w' ≡ queue w)
        × (log w' ≡ log w)
  pub takes :
      (i : ℕ) (tx : TransactionView) (w : W)
      → busy w i ≡ false
      → (w' : W) × (host.try_send_tx i tx w ≡ (true, w'))
        × (queue w' ≡ queue w)
        × (log w' ≡ log w ++ tx ∷ [])
  pub free : (w : W) → (i : ℕ) × (i < emitters) × (busy w i ≡ false)

next_below : (emitters cursor : ℕ) → cursor + 1 < emitters → (cursor + 1) % emitters ≡ cursor + 1
next_below emitters cursor lt = mod-eq_of_lt lt

next_last : (emitters cursor : ℕ) → cursor + 1 ≡ emitters → (cursor + 1) % emitters ≡ 0
next_last emitters cursor e = rw e (mod_self emitters)

module _ {W : Type 0} (host : Host W) (emitters : ℕ) (busy : W → ℕ → Bool) (queue : W → List Utxo)
    (log : W → List TransactionView) (emits : Emits host emitters busy queue log)
    (tx : TransactionView) where
  -- The transaction has been taken by the emitter at the cursor, once.
  abbrev pub IsTaken : W → W → Type 0
  IsTaken w w' = (queue w' ≡ queue w) × (log w' ≡ log w ++ tx ∷ [])

  -- The emitter lies behind the cursor, or before it in the next turn.
  abbrev Near : ℕ → ℕ → ℕ → Type 0
  Near i cursor rounds =
      ((cursor < i) × (i ≤ cursor + rounds)) ⊎ ((i ≤ cursor) × (emitters + i ≤ cursor + rounds))

  next-Near :
      (i rounds cursor : ℕ)
      → i < emitters
      → cursor < emitters
      → Near i cursor (suc rounds)
      → ((cursor + 1) % emitters < emitters)
        × (i ≢ (cursor + 1) % emitters → Near i ((cursor + 1) % emitters) rounds)
  next-Near i rounds cursor there low near = elim (Bool-cases (ltb (cursor + 1) emitters)) [
    | inl below ↦ rw (next_below emitters cursor (ltb→lt _ _ below)) (
      ltb→lt _ _ below,
      λ other. elim near [
        | inl (ahead, close) ↦ inl (omega arith, omega arith)
        | inr (behind, close) ↦ inr (omega arith, omega arith)
      ],
    )
    | inr last ↦
        let whole : cursor + 1 ≡ emitters = omega (arith, ltb→ge _ _ last) in
        rw (next_last emitters cursor whole) (
          omega arith,
          λ other. elim near [
            | inl (ahead, close) ↦ absurd (omega arith)
            | inr (behind, close) ↦ inl (omega arith, omega arith)
          ],
        )
  ]

  try_emitters-Near :
      (i rounds cursor : ℕ) (w : W)
      → i < emitters
      → cursor < emitters
      → busy w i ≡ false
      → Near i cursor rounds
      → (cursor' : ℕ) × (w' : W) × (try_emitters host emitters rounds tx cursor w
          ≡ (ok cursor', w'))
        × (cursor' < emitters)
        × IsTaken w w'
  unfolding try_emitters
  try_emitters-Near i zero cursor w there low free near = absurd (elim near [
    | inl ahead ↦ omega (arith, ahead.0, ahead.1)
    | inr behind ↦ omega (arith, behind.0, behind.1)
  ])
  try_emitters-Near i (suc rounds) cursor w there low free near =
      let next = (cursor + 1) % emitters in
      let turned : checked_rem (cursor + 1) emitters ≡ ok next =
        checked_rem_pos (cursor + 1) emitters (omega arith) in
      let (in_range, nearer) = next-Near i rounds cursor there low near in
      elim (Bool-cases (busy w next)) [
        | inl refused ↦
            let (w₁, tried, same, queued, logged) = emits.refuses next tx w refused in
            let (last, w₂, ran, below, (queued', logged')) =
              try_emitters-Near i rounds next w₁ there in_range (same i ∙ free)
                (nearer (λ e. true≢false (sym refused ∙ sym (ap (busy w) e) ∙ free))) in
            (
              last,
              w₂,
              rw (turned, tried) ran,
              below,
              (queued' ∙ queued, logged' ∙ ap (λ l. l ++ tx ∷ []) logged),
            )
        | inr free' ↦
            let (w₁, tried, queued, logged) = emits.takes next tx w free' in
            (next, w₁, rw (turned, tried) refl, in_range, (queued, logged))
      ]

  -- If always one of the emitters is not busy, then as many tries as there are emitters are enough:
  -- the transaction is handed to one of them, once.
  pub try_emitters-IsTaken :
      (rounds cursor : ℕ) (w : W)
      → emitters ≤ rounds
      → cursor < emitters
      → (cursor' : ℕ) × (w' : W) × (try_emitters host emitters rounds tx cursor w
          ≡ (ok cursor', w'))
        × (cursor' < emitters)
        × IsTaken w w'
  try_emitters-IsTaken rounds cursor w enough low =
      let (i, there, free) = emits.free w in
      try_emitters-Near i rounds cursor w there low free (elim (Bool-cases (ltb cursor i)) [
        | inl ahead ↦ inl (ltb→lt _ _ ahead, omega (arith, there))
        | inr behind ↦ inr (ltb→ge _ _ behind, omega (arith, ltb→ge _ _ behind))
      ])
