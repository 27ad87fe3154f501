-- ===== src/NetMonitor/Measured.antt =====
-- What `Metrics::eval_blocks` of tps-bench/src/net_monitor.rs measures.
use Prim.Native.Nat.{max}
use ckb_bench_archived.Base.{
  ℕ, zero, suc, ◌+◌, ◌-◌, ◌*◌, ◌/◌, ◌^◌, ◌≤◌, ◌<◌, ◌≡◌, refl, false, List, ◌∷◌, map, ok, inl, inr,
  Returns, if◌then◌else◌, ◌==◌, Bool-cases, length, sum, range_from, add_u64, sub_u64, u64_mod,
  sum_u64-eq-sum, arith,
}
use ckb_bench_archived.Base.Effects.{for_each}
use ckb_bench_archived.Chain.{TransactionView, BlockView}
use ckb_bench_archived.Float.{Float, IsDouble}
use ckb_bench_archived.Rpc.{Inner, Jsonrpc, Json, answer}
use ckb_bench_archived.Rpc.Answers.{Serves}
use ckb_bench_archived.Net.{Net, first_endpoint, get_network_nodes, get_bench_nodes}
use ckb_bench_archived.NetMonitor.{
  Metrics, checked_div, eval_total_tx_size_in_block, block_at_number, add_block, eval_blocks,
}

module _ (serialized_size : TransactionView → ℕ) (chain : ℕ → BlockView) where
  -- The transactions, and their sizes, of `count` blocks from a number on.
  abbrev pub transactions_in : ℕ → ℕ → ℕ
  transactions_in start count =
      sum (map (λ n. length (chain n).transactions) (range_from start count))

  abbrev pub size_in : ℕ → ℕ → ℕ
  size_in start count =
      sum (map (λ n. sum (map serialized_size (chain n).transactions)) (range_from start count))

  -- The metrics of the blocks from `first` to `last`: the counts are sums over these blocks, the
  -- averages are per block, and the throughput is the number of transactions in a second between
  -- the time stamps of the last and the first block. If these are equal it is the greatest `u64`,
  -- or 0 without any transaction.
  pub record IsMeasured (first last : ℕ) (net : Net) (peers : List Json) (m : Metrics)
      : Type 0 where
    pub start_block : m.start_block_number ≡ first
    pub end_block : m.end_block_number ≡ last
    pub transactions :
        m.average_block_transactions ≡ transactions_in first (last + 1 - first) / (last + 1 - first)
    pub size : m.total_transactions_size ≡ size_in first (last + 1 - first)
    pub block_time :
        m.average_block_time_ms
        ≡ max 1 (((chain last).timestamp - (chain first).timestamp) / (last + 1 - first))
    pub throughput : m.tps ≡ (
        if (chain last).timestamp - (chain first).timestamp == 0
        then if transactions_in first (last + 1 - first) == 0 then 0 else 2 ^ 64 - 1
        else (transactions_in first (last + 1 - first)
            * 1000
            / ((chain last).timestamp - (chain first).timestamp)))
    pub network_nodes : m.network_nodes ≡ length peers + 1
    pub bench_nodes : m.bench_nodes ≡ length net.endpoints

tps-div :
    {F : Type 0} (f : Float F) (total elapsed : ℕ)
    → IsDouble f
    → total * 1000 < 2 ^ 53
    → elapsed < 2 ^ 53
    → f.to_u64 (f.div (f.mul (f.of_int total) (f.of_int 1000)) (f.of_int elapsed))
      ≡ (if elapsed == 0 then if total == 0 then 0 else 2 ^ 64 - 1 else (total * 1000 / elapsed))
tps-div f total elapsed law small short =
    rw (law.mul_exact total 1000 small) (elim (Bool-cases (elapsed == 0)) [
      | inl none_elapsed ↦
          let e : elapsed ≡ 0 = ground arith in rw (e, law.div_zero (total * 1000)) (ground arith)
      | inr some_elapsed ↦
          rw (some_elapsed, law.div_whole (total * 1000) elapsed small short (ground arith)) refl
    ])

module _ {W F : Type 0} (inner : Inner W) (float : Float F) (serialized_size : TransactionView → ℕ)
    (rpc : Jsonrpc) (rpcs : List Jsonrpc) (chain : ℕ → BlockView) (end_number : ℕ)
    (serves : Serves inner rpc chain end_number) where
  abbrev net : Net
  net = record { endpoints = rpc ∷ rpcs }

  block_at_number-chain :
      (n : ℕ) (w : W)
      → n ≤ end_number
      → (w' : W) × (block_at_number inner float serialized_size net n w ≡ (ok (chain n), w'))
  unfolding block_at_number first_endpoint
  block_at_number-chain n w le = let (w', served) = serves w n le in (w', rw served refl)

  abbrev txs_at : ℕ → ℕ
  txs_at n = length (chain n).transactions

  abbrev size_at : ℕ → ℕ
  size_at n = sum (map serialized_size (chain n).transactions)

  add_block-chain :
      (n a b : ℕ) (w : W)
      → n ≤ end_number
      → a + txs_at n < u64_mod
      → b + size_at n < u64_mod
      → (w' : W) × (add_block inner float serialized_size net n
            (record { transactions = a; size = b })
            w
          ≡ (ok (record { transactions = a + txs_at n; size = b + size_at n }), w'))
  unfolding add_block eval_total_tx_size_in_block
  add_block-chain n a b w le ha hb =
      let (w', got) = block_at_number-chain n w le in
      let fits : add_u64 a (txs_at n) ≡ a + txs_at n = omega arith in
      let fits' : add_u64 b (size_at n) ≡ b + size_at n = omega arith in
      (
        w',
        rw
            (
              got,
              fits,
              sum_u64-eq-sum (map serialized_size (chain n).transactions) (omega arith),
              fits',
            )
            refl,
      )

  totals-sum :
      (count start a b c d : ℕ) (w : W)
      → start + count ≤ suc end_number
      → a + transactions_in serialized_size chain start count ≡ c
      → b + size_in serialized_size chain start count ≡ d
      → c < u64_mod
      → d < u64_mod
      → (w' : W) × (for_each
            (range_from start count)
            (add_block inner float serialized_size net)
            (record { transactions = a; size = b })
            w
          ≡ (ok (record { transactions = c; size = d }), w'))
  unfolding for_each
  totals-sum zero start a b c d w le ea eb hc hd =
      let e : a ≡ c = omega arith in let e' : b ≡ d = omega arith in (w, rw (e, e') refl)
  totals-sum (suc count) start a b c d w le ea eb hc hd =
      let (w', stepped) = add_block-chain start a b w (omega arith) (omega arith) (omega arith) in
      let (w'', rest) =
        totals-sum count (start + 1) (a + txs_at start) (b + size_at start) c d w' (omega arith)
          (omega arith) (omega arith) hc hd in
      (w'', rw stepped rest)

  -- If the first node serves the blocks up to the last, and answers with its peers, then
  -- `eval_blocks` returns, with the metrics of these blocks. The number of transactions and the time
  -- between the blocks are taken to be exact as doubles, and the sizes to fit a `u64`.
  pub eval_blocks-IsMeasured :
      (first : ℕ) (peers : List Json) (w : W)
      → ((v : W) → (v' : W) × (inner.get_peers rpc.uri v ≡ (answer peers, v')))
      → IsDouble float
      → first ≤ end_number
      → end_number + 1 < u64_mod
      → transactions_in serialized_size chain first (end_number + 1 - first) * 1000 < 2 ^ 53
      → size_in serialized_size chain first (end_number + 1 - first) < u64_mod
      → (chain end_number).timestamp < 2 ^ 53
      → Returns
          (eval_blocks inner float serialized_size
            (record { endpoints = rpc ∷ rpcs })
            first
            end_number
            w).0
          (IsMeasured serialized_size chain first end_number
            (record { endpoints = rpc ∷ rpcs })
            peers)
  unfolding eval_blocks get_network_nodes get_bench_nodes first_endpoint checked_div
  eval_blocks-IsMeasured first peers w peered law le word few size late =
      let count = end_number + 1 - first in
      let (w₁, has_peers) = peered w in
      let (w₂, totals) =
        totals-sum count first 0 0 (transactions_in serialized_size chain first count)
          (size_in serialized_size chain first count) w₁ (omega arith) (omega arith) (omega arith)
          (omega arith) size in
      let counted : add_u64 (sub_u64 end_number first) 1 ≡ count = omega arith in
      let (w₃, front) = block_at_number-chain first w₂ le in
      let (w₄, last) = block_at_number-chain end_number w₃ (omega arith) in
      let positive : (count == 0) ≡ false = ground arith in
      rw (has_peers, totals, counted, front, last, positive)
        (record {
          start_block = refl;
          end_block = refl;
          transactions = refl;
          size = refl;
          block_time = refl;
          throughput = tps-div float _ _ law few (omega arith);
          network_nodes = refl;
          bench_nodes = refl;
        })
