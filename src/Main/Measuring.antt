-- ===== src/Main/Measuring.antt =====
-- What the metric mode of `main` in tps-bench/src/main.rs prints.
use Prim.Native.String.{String}
use ckb_bench_archived.Base.{
  ℕ, ◌+◌, ◌-◌, ◌*◌, ◌^◌, ◌≤◌, ◌<◌, ◌≡◌, refl, List, [], ◌∷◌, map, ok, u64_mod,
}
use ckb_bench_archived.Base.Outcomes.{returned}
use ckb_bench_archived.Chain.{BlockView}
use ckb_bench_archived.Float.{IsDouble}
use ckb_bench_archived.Rpc.{Jsonrpc, Json, accepted, answer}
use ckb_bench_archived.Rpc.Answers.{Serves}
use ckb_bench_archived.Net.{Net, connect_all, get_confirmed_tip_number}
use ckb_bench_archived.Net.Connected.{connect_all-uris}
use ckb_bench_archived.NetMonitor.{Metrics, eval_blocks}
use ckb_bench_archived.NetMonitor.Measured.{
  transactions_in, size_in, IsMeasured, eval_blocks-IsMeasured,
}
use ckb_bench_archived.Config.{Globals}
use ckb_bench_archived.Command.{metric_mode}
use ckb_bench_archived.Main.{Machine, measure, main}

module _ {W F Url : Type 0} (m : Machine W F Url) (chain : ℕ → BlockView) (tip : ℕ)
    (peers : List Json) where
  -- The node at a URI has the chain's blocks up to the tip, and the peers.
  pub record HasChain (uri : String) : Type 0 where
    pub serves : (rpc : Jsonrpc) → rpc.uri ≡ uri → Serves m.inner rpc chain tip
    pub peered :
        (rpc : Jsonrpc) (w : W)
        → rpc.uri ≡ uri
        → (w' : W) × (m.inner.get_peers rpc.uri w ≡ (answer peers, w'))

  eval_blocks-first :
      (uri : String) (uris : List String) (rpcs : List Jsonrpc) (w : W)
      → map (λ (r : Jsonrpc). r.uri) rpcs ≡ uri ∷ uris
      → HasChain uri
      → IsDouble m.float
      → 1 ≤ tip
      → tip + 1 < u64_mod
      → transactions_in m.serialized_size chain 1 (tip + 1 - 1) * 1000 < 2 ^ 53
      → size_in m.serialized_size chain 1 (tip + 1 - 1) < u64_mod
      → (chain tip).timestamp < 2 ^ 53
      → (metrics : Metrics) × ((eval_blocks m.inner m.float m.serialized_size
            (record { endpoints = rpcs })
            1
            tip
            w).0
          ≡ ok metrics)
        × IsMeasured m.serialized_size chain 1 tip (record { endpoints = rpcs }) peers metrics
  eval_blocks-first uri uris [] w named has law le word few size late = cc
  eval_blocks-first uri uris (rpc ∷ rpcs) w named has law le word few size late =
      let first : rpc.uri ≡ uri = cc in
      returned
        {P = IsMeasured m.serialized_size chain 1 tip (record { endpoints = rpc ∷ rpcs }) peers}
        (eval_blocks m.inner m.float m.serialized_size (record { endpoints = rpc ∷ rpcs }) 1 tip
          w).0
        (eval_blocks-IsMeasured m.inner m.float m.serialized_size rpc rpcs chain tip
          (has.serves rpc first) 1 peers w (λ v. has.peered rpc v first) law le word few size late)

  -- In metric mode, where all URIs are accepted, the confirmed tip is read as a number of 1 or more,
  -- and the first node has the chain's blocks up to there and its peers, and the numbers are exact
  -- as doubles or fit a `u64`: the program comes to its end, and has printed the metrics of the blocks
  -- from 1 to the tip.
  pub main-measures :
      (globals : Globals) (url : Url) (urls : List Url) (w : W)
      → ((uri : String) → m.handle uri ≡ accepted)
      → ((net : Net) (v : W)
          → connect_all m.handle m.user m.pass (map m.as_str (url ∷ urls)) ≡ ok net
          → (v' : W) × (get_confirmed_tip_number m.inner globals.confirmation_blocks net v
              ≡ (ok tip, v')))
      → HasChain (m.as_str url)
      → IsDouble m.float
      → 1 ≤ tip
      → tip + 1 < u64_mod
      → transactions_in m.serialized_size chain 1 (tip + 1 - 1) * 1000 < 2 ^ 53
      → size_in m.serialized_size chain 1 (tip + 1 - 1) < u64_mod
      → (chain tip).timestamp < 2 ^ 53
      → (net : Net) × (metrics : Metrics) × (w' : W) × (main m globals (metric_mode (url ∷ urls)) w
          ≡ (ok tt, m.println_metrics metrics w'))
        × (map (λ (r : Jsonrpc). r.uri) net.endpoints ≡ map m.as_str (url ∷ urls))
        × IsMeasured m.serialized_size chain 1 tip net peers metrics
  unfolding main measure
  main-measures globals url urls w fits reads has law le word few size late =
      let (net, connected, named) =
        connect_all-uris m.handle m.user m.pass (map m.as_str (url ∷ urls)) fits in
      let (w₁, read) = reads net w connected in
      let (metrics, evaluated, measured) =
        eval_blocks-first (m.as_str url) (map m.as_str urls) net.endpoints w₁ named has law le word
          few size late in
      (
        net,
        metrics,
        (eval_blocks m.inner m.float m.serialized_size net 1 tip w₁).1,
        rw (connected, read, evaluated) refl,
        named,
        measured,
      )
