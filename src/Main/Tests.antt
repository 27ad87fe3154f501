-- ===== src/Main/Tests.antt =====
-- Tests and witnesses of the modes of `main`.
use ckb_bench_archived.Base.{
  ℕ, ◌≡◌, ◌≢◌, refl, List, [], ◌∷◌, ◌++◌, Bool, true, ok, length, none, sym, ap, map, arith,
}
use ckb_bench_archived.Chain.{BlockView}
use ckb_bench_archived.Net.{
  Net, connect_all, connect_each, get_confirmed_tip_number, get_confirmed_tip_header,
  get_unconfirmed_fixed_tip_header, scan_down, get_fixed_header, first_endpoint,
}
use ckb_bench_archived.Net.Tests.{growing_node, growing_node-tip}
use ckb_bench_archived.Rpc
use ckb_bench_archived.Rpc.{Jsonrpc, Inner, answer}
use ckb_bench_archived.Config.{Config}
use ckb_bench_archived.Command.{mine_mode, metric_mode}
use ckb_bench_archived.Main.{Machine, main}
use ckb_bench_archived.Main.Modes.{Logs, HasGenesis, main-mines, main_metric_empty}
use ckb_bench_archived.Main.Measuring.{HasChain, main-measures}
use ckb_bench_archived.NetMonitor.{Metrics}
use ckb_bench_archived.NetMonitor.Measured.{IsMeasured}
use ckb_bench_archived.Float.{fractions-IsDouble}
use ckb_bench_archived.Miner.Blocks.{Extends}
use ckb_bench_archived.Samples.{
  chain_node, quiet_machine, mining_node, number_text, template_at, block_at, small_spec,
  globals_before,
}

abbrev mining : Machine (List BlockView) (ℕ × ℕ) Bool
mining = quiet_machine mining_node

abbrev config : Config Bool
config = record { spec = small_spec; rpc_urls = true ∷ [] }

abbrev genesis_only : List BlockView
genesis_only = block_at 0 ∷ []

mining-Logs : Logs mining (λ w. w)
mining-Logs = record {
  opens = λ path w. (w, refl, refl);
  inits = λ w. (w, refl, refl);
  canonicalizes = λ path w. (path, w, refl, refl);
}

mining-HasGenesis : HasGenesis mining (λ w. w) "http://a"
mining-HasGenesis = record { genesis = λ w. (block_at 0, w, refl, refl, refl) }

mining_node-Extends :
    (rpc : Jsonrpc) → rpc.uri ≡ "http://a" → Extends mining_node number_text (λ w. w) rpc
mining_node-Extends rpc named = record {
  grows = λ w. (template_at (length w), w, 1, w ++ block_at (length w) ∷ [], refl, refl, refl);
}

main-mines_example :
    (mined : List BlockView) × (w' : List BlockView) × (main mining globals_before
        (mine_mode config 2)
        genesis_only
      ≡ (ok tt, w'))
    × (w' ≡ genesis_only ++ mined)
    × (length mined ≡ 2)
main-mines_example =
    main-mines mining (λ w. w) globals_before config true [] (7 ∷ []) 2 genesis_only refl
      mining-Logs (λ uri. refl) mining-HasGenesis refl mining_node-Extends

abbrev measuring : Machine ℕ (ℕ × ℕ) Bool
measuring = quiet_machine growing_node

tip_is_zero :
    (net : Net)
    → connect_all measuring.handle measuring.user measuring.pass ("http://a" ∷ []) ≡ ok net
    → (get_confirmed_tip_number growing_node 0 net 0).0 ≡ ok 0
unfolding connect_all connect_each Rpc.connect
tip_is_zero net connected =
    let alone : record { endpoints = record { uri = "http://a"; authorization = none } ∷ [] }
        ≡ net =
      cc in
    rw (sym alone) (ap (λ p. p.0) (growing_node-tip _ 0))

main_metric_empty_example : (main measuring globals_before (metric_mode (true ∷ [])) 0).0 ≢ ok tt
main_metric_empty_example = main_metric_empty measuring globals_before (true ∷ []) 0 tip_is_zero

-- A node with the blocks up to 9, and two peers.
abbrev nine_blocks : Inner (Unit {0})
nine_blocks = record (chain_node 9) { get_peers = λ uri w. (answer ("" ∷ "" ∷ []), w) }

abbrev printing : Machine (Unit {0}) (ℕ × ℕ) Bool
printing = quiet_machine nine_blocks

nine_blocks-tip :
    (rpc : Jsonrpc) (w : Unit {0})
    → get_confirmed_tip_number nine_blocks 0 (record { endpoints = rpc ∷ [] }) w ≡ (ok 9, w)
unfolding get_confirmed_tip_number get_confirmed_tip_header get_unconfirmed_fixed_tip_header
    scan_down get_fixed_header first_endpoint
nine_blocks-tip rpc w = refl

tip_is_nine :
    (net : Net) (w : Unit {0})
    → connect_all printing.handle printing.user printing.pass ("http://a" ∷ []) ≡ ok net
    → (w' : Unit {0}) × (get_confirmed_tip_number nine_blocks 0 net w ≡ (ok 9, w'))
unfolding connect_all connect_each Rpc.connect
tip_is_nine net w connected =
    let alone : record { endpoints = record { uri = "http://a"; authorization = none } ∷ [] }
        ≡ net =
      cc in
    rw (sym alone) (w, nine_blocks-tip _ w)

printing-HasChain : HasChain printing block_at 9 ("" ∷ "" ∷ []) "http://a"
printing-HasChain = record {
  serves = λ rpc named w n le. (w, ground arith);
  peered = λ rpc w named. (w, refl);
}

main-measures_example :
    (net : Net) × (metrics : Metrics) × (w' : Unit {0}) × (main printing globals_before
        (metric_mode (true ∷ []))
        tt
      ≡ (ok tt, printing.println_metrics metrics w'))
    × (map (λ (r : Jsonrpc). r.uri) net.endpoints ≡ "http://a" ∷ [])
    × IsMeasured (λ tx. 200) block_at 1 9 net ("" ∷ "" ∷ []) metrics
main-measures_example =
    main-measures printing block_at 9 ("" ∷ "" ∷ []) globals_before true [] tt (λ uri. refl)
      tip_is_nine printing-HasChain fractions-IsDouble (omega arith) (omega arith) (omega arith)
      (omega arith) (omega arith)
