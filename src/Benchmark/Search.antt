-- ===== src/Benchmark/Search.antt =====
-- The search for the best delay (`BenchmarkConfig::find_best_bench` of tps-bench/src/benchmark.rs).
use native.Mathlib.Nat.{
  le-div_iff_mul-le, div-le_of_le-mul, pow-succ', mul-le-mul_left, mul-le-mul_right,
  div-mul-le_self, div-le_self,
}
use mathlib.Core.Path.{subst}
use ckb_bench_archived.Base.{
  ℕ, zero, suc, ◌+◌, ◌*◌, ◌/◌, ◌^◌, ◌≤◌, ◌<◌, ◌≡◌, refl, ◌⊎◌, ◌∙◌, List, [], ◌∷◌, ◌++◌, true, false,
  ok, inl, inr, if◌then◌else◌, ltb, ltb→ge, ltb→lt, ge→ltb, lt→ltb, ◌==◌, Bool-cases, Action,
  Returns, add_u64, sub_u64, u64_mod, sum, sum_u64, sum_u64-eq-sum, length, length-append, All,
  arith,
}
use ckb_bench_archived.NetMonitor.{checked_div}
use ckb_bench_archived.Benchmark.{Bounds, narrow, search, find_best}

positive-nonzero : (n : ℕ) → 0 < n → (n == 0) ≡ false
positive-nonzero n pos = ground arith

module _ (least most : ℕ) where
  -- Throughputs within the bounds of every bench.
  abbrev AreWithin : List ℕ → Type 0
  AreWithin = All (λ tps. (least ≤ tps) × (tps ≤ most))

  AreWithin-snoc :
      (xs : List ℕ) (x : ℕ) → AreWithin xs → least ≤ x → x ≤ most → AreWithin (xs ++ x ∷ [])
  AreWithin-snoc [] x h ge le = ((ge, le), tt)
  AreWithin-snoc (y ∷ xs) x h ge le = (h.0, AreWithin-snoc xs x h.1 ge le)

  sum-ge : (xs : List ℕ) → AreWithin xs → least * length xs ≤ sum xs
  sum-ge [] h = omega arith
  sum-ge (x ∷ xs) h = grind (arith, sum-ge xs h.1, h.0)

  sum-le : (xs : List ℕ) → AreWithin xs → sum xs ≤ length xs * most
  sum-le [] h = omega arith
  sum-le (x ∷ xs) h = grind (arith, sum-le xs h.1, h.0)

  -- A state of the search: the two delays do not cross, and `gap` bounds their distance.
  record IsSearching (gap : ℕ) (b : Bounds) : Type 0 where
    pub ordered : b.min_send_delay ≤ b.max_send_delay
    pub short : b.max_send_delay ≤ b.min_send_delay + gap
    pub small : b.max_send_delay ≤ 1_000_000
    pub positive : 0 < b.max_send_delay
    pub within : AreWithin b.nearly_send_delay_tps
    -- There is a sample, or there will be.
    pub sampled : (0 < length b.nearly_send_delay_tps) ⊎ (b.min_send_delay + 2 ≤ b.max_send_delay)

  -- The samples after the body has run.
  abbrev sampled_with : ℕ → Bounds → List ℕ
  sampled_with tps b =
      if ltb (sub_u64 b.max_send_delay b.min_send_delay) 200
      then b.nearly_send_delay_tps ++ tps ∷ []
      else b.nearly_send_delay_tps

  module _ (gap tps : ℕ) (b : Bounds) (s : IsSearching (2 * gap) b)
      (wide : b.min_send_delay + 2 ≤ b.max_send_delay) (ge : least ≤ tps) (le : tps ≤ most) where
    sampled_with-within : AreWithin (sampled_with tps b)
    sampled_with-within = elim (Bool-cases (ltb (sub_u64 b.max_send_delay b.min_send_delay) 200)) [
      | inl near ↦ rw near (AreWithin-snoc b.nearly_send_delay_tps tps s.within ge le)
      | inr far ↦ rw far s.within
    ]

    -- A sample is there, or the delays are still 200 apart.
    sampled_with-some :
        (0 < length (sampled_with tps b)) ⊎ (b.min_send_delay + 200 ≤ b.max_send_delay)
    sampled_with-some = elim (Bool-cases (ltb (sub_u64 b.max_send_delay b.min_send_delay) 200)) [
      | inl near ↦ rw near (inl (omega (arith, length-append b.nearly_send_delay_tps (tps ∷ []))))
      | inr far ↦ inr (
          omega
            (arith, ltb→ge (sub_u64 b.max_send_delay b.min_send_delay) 200 far, s.ordered, s.small))
    ]

    narrow-IsSearching :
        IsSearching gap (narrow (add_u64 b.min_send_delay b.max_send_delay / 2) tps b)
    unfolding narrow
    narrow-IsSearching =
        let mid : add_u64 b.min_send_delay b.max_send_delay / 2
            ≡ (b.min_send_delay + b.max_send_delay) / 2 =
          omega (arith, s.ordered, s.small) in
        elim (Bool-cases (ltb b.min_send_delay_tps b.max_send_delay_tps)) [
          | inl lower ↦
              rw (lower, mid)
                (record {
                  ordered = omega arith;
                  short = omega (arith, s.short);
                  small = s.small;
                  positive = s.positive;
                  within = sampled_with-within;
                  sampled = elim sampled_with-some [
                    | inl some ↦ inl some
                    | inr far ↦ inr (omega arith)
                  ];
                })
          | inr upper ↦
              rw (upper, mid)
                (record {
                  ordered = omega arith;
                  short = omega (arith, s.short);
                  small = omega (arith, s.small);
                  positive = omega arith;
                  within = sampled_with-within;
                  sampled = elim sampled_with-some [
                    | inl some ↦ inl some
                    | inr far ↦ inr (omega arith)
                  ];
                })
        ]

  module _ {W : Type 0} (bench : ℕ → Action W ℕ)
      -- Every bench returns, with a throughput within the bounds.
      (returns : (send_delay : ℕ) (w : W)
        → (tps : ℕ) × (w' : W) × (bench send_delay w ≡ (ok tps, w'))
          × (least ≤ tps)
          × (tps ≤ most)) where
    search-stop :
        (rounds : ℕ) (b : Bounds) (w : W)
        → 0 < b.max_send_delay
        → b.max_send_delay ≤ 1_000_000
        → b.max_send_delay ≤ b.min_send_delay + 1
        → search bench (suc rounds) b w ≡ (ok b.nearly_send_delay_tps, w)
    unfolding search
    search-stop rounds b w pos small le =
        let done : ltb b.min_send_delay (sub_u64 b.max_send_delay 1) ≡ false =
          ge→ltb b.min_send_delay (sub_u64 b.max_send_delay 1) (omega arith) in
        rw done refl

    search-step :
        (rounds tps : ℕ) (b : Bounds) (w w' : W)
        → b.min_send_delay + 2 ≤ b.max_send_delay
        → b.max_send_delay ≤ 1_000_000
        → bench (add_u64 b.min_send_delay b.max_send_delay / 2) w ≡ (ok tps, w')
        → search bench (suc rounds) b w
          ≡ search bench rounds (narrow (add_u64 b.min_send_delay b.max_send_delay / 2) tps b) w'
    unfolding search
    search-step rounds tps b w w' wide small benched =
        let on : ltb b.min_send_delay (sub_u64 b.max_send_delay 1) ≡ true =
          lt→ltb b.min_send_delay (sub_u64 b.max_send_delay 1) (omega arith) in
        rw (on, benched) refl

    length-narrow :
        (mid tps : ℕ) (b : Bounds)
        → length (narrow mid tps b).nearly_send_delay_tps ≤ length b.nearly_send_delay_tps + 1
    unfolding narrow
    length-narrow mid tps b =
        let more = length-append b.nearly_send_delay_tps (tps ∷ []) in ground (arith, more)

    -- What the search comes to with at most `k` more samples.
    abbrev Ends : ℕ → ℕ → Bounds → W → Type 0
    Ends rounds k b w =
        (samples : List ℕ) × (w' : W) × (search bench rounds b w ≡ (ok samples, w'))
        × AreWithin samples
        × (0 < length samples)
        × (length samples ≤ length b.nearly_send_delay_tps + k)

    stops :
        (k : ℕ) (b : Bounds) (w : W)
        → IsSearching (2 ^ k) b
        → b.max_send_delay ≤ b.min_send_delay + 1
        → Ends (suc k) k b w
    stops k b w s close = (
      b.nearly_send_delay_tps,
      w,
      search-stop k b w s.positive s.small close,
      s.within,
      elim s.sampled [ inl some ↦ some | inr far ↦ omega arith ],
      omega arith,
    )

    -- The distance of the delays is halved in each round, so that `k + 1` rounds are enough for
    -- 2 ^ k; at the end there is a sample.
    search-returns : (k : ℕ) (b : Bounds) (w : W) → IsSearching (2 ^ k) b → Ends (suc k) k b w
    search-returns zero b w s = stops zero b w s (omega (arith, s.short))
    search-returns (suc k) b w s = elim (Bool-cases (ltb (b.min_send_delay + 1) b.max_send_delay)) [
      | inr close ↦ stops (suc k) b w s (ltb→ge _ _ close)
      | inl far ↦
          let mid = add_u64 b.min_send_delay b.max_send_delay / 2 in
          let wide : b.min_send_delay + 2 ≤ b.max_send_delay = omega (arith, ltb→lt _ _ far) in
          let (tps, w', benched, ge, le) = returns mid w in
          let s' : IsSearching (2 * 2 ^ k) b = subst (λ gap. IsSearching gap b) (pow-succ' 2 k) s in
          let s'' = narrow-IsSearching (2 ^ k) tps b s' wide ge le in
          let (samples, w'', ended, within, some, few) =
            search-returns k (narrow mid tps b) w' s'' in
          (
            samples,
            w'',
            search-step (suc k) tps b w w' wide s.small benched ∙ ended,
            within,
            some,
            omega (arith, length-narrow mid tps b),
          )
    ]

    mean-within :
        (samples : List ℕ)
        → AreWithin samples
        → 0 < length samples
        → length samples ≤ 20
        → most * 20 < u64_mod
        → Returns
            (checked_div (sum_u64 samples) (length samples))
            (λ tps. (least ≤ tps) × (tps ≤ most))
    unfolding checked_div
    mean-within samples within some few fits =
        let total : sum_u64 samples ≡ sum samples =
          sum_u64-eq-sum samples
            (omega (arith, sum-le samples within, mul-le-mul_right most few)) in
        let nonzero : (length samples == 0) ≡ false = positive-nonzero (length samples) some in
        rw (total, nonzero)
          (
            (le-div_iff_mul-le {x = least} some).1 (sum-ge samples within),
            div-le_of_le-mul (length samples) (sum-le samples within),
          )

    -- A smaller throughput asks for a longer delay.
    div-antitone : (n tps : ℕ) → 0 < tps → tps ≤ most → n / most ≤ n / tps
    div-antitone n tps pos le =
        (le-div_iff_mul-le {x = n / most} pos).1
          (omega (arith, mul-le-mul_left (n / most) le, div-mul-le_self n most))

    -- If every bench returns, with a throughput within some bounds, and the delay that the first
    -- one asks for lies at least 2 above the configured one, then the search returns, within 21
    -- rounds, with a throughput within the bounds.
    pub find_best-IsWithin :
        (send_delay : ℕ) (w : W)
        → 0 < least
        → most * 20 < u64_mod
        → send_delay + 2 ≤ 1_000_000 / most
        → Returns (find_best bench 21 send_delay w).0 (λ tps. (least ≤ tps) × (tps ≤ most))
    unfolding find_best checked_div
    find_best-IsWithin send_delay w pos fits wide =
        let (first_tps, w₁, first, ge, le) = returns send_delay w in
        let max_delay = 1_000_000 / first_tps in
        let (max_tps, w₂, second, _, _) = returns max_delay w₁ in
        let start : Bounds = record {
          min_send_delay = send_delay;
          min_send_delay_tps = first_tps;
          max_send_delay = max_delay;
          max_send_delay_tps = max_tps;
          nearly_send_delay_tps = [];
        } in
        let apart : send_delay + 2 ≤ max_delay =
          omega (arith, wide, div-antitone 1_000_000 first_tps (omega arith) le) in
        let searching : IsSearching (2 ^ 20) start = record {
          ordered = omega arith;
          short = omega (arith, div-le_self 1_000_000 first_tps);
          small = div-le_self 1_000_000 first_tps;
          positive = omega arith;
          within = tt;
          sampled = inr apart;
        } in
        let (samples, w₃, ended, within, some, few) = search-returns 20 start w₂ searching in
        let nonzero : (first_tps == 0) ≡ false =
          positive-nonzero first_tps (omega (arith, pos, ge)) in
        rw (first, nonzero, second, ended) (mean-within samples within some few fits)
