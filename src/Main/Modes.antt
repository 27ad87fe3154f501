-- ===== src/Main/Modes.antt =====
-- What the modes of `main` of tps-bench/src/main.rs do to the chain, and what they print.
use Prim.Native.String.{String}
use mathlib.Core.Path.{subst⁻¹}
use ckb_bench_archived.Base.{
  ℕ, ◌*◌, ◌≡◌, ◌≢◌, refl, sym, ap, ◌∙◌, List, [], ◌∷◌, ◌++◌, map, true, some, ok, length, arith,
}
use ckb_bench_archived.Base.Effects.{bind-ok, lift}
use ckb_bench_archived.Chain.{BlockView}
use ckb_bench_archived.Crypto.{Privkey}
use ckb_bench_archived.Rpc.{Jsonrpc, accepted, answer}
use ckb_bench_archived.Net.{Net, connect_all, get_confirmed_tip_number}
use ckb_bench_archived.Net.Connected.{connect-uri, connect_all-uris}
use ckb_bench_archived.NetMonitor.{Metrics, eval_blocks}
use ckb_bench_archived.NetMonitor.Empty.{eval_blocks-ne-ok}
use ckb_bench_archived.Config.{Config, Globals, url_texts, log_path}
use ckb_bench_archived.Command.{mine_mode, metric_mode}
use ckb_bench_archived.Account.{Account}
use ckb_bench_archived.Account
use ckb_bench_archived.GenesisInfo.{GenesisInfo, init_global_genesis_info}
use ckb_bench_archived.Miner.{Miner, generate_blocks}
use ckb_bench_archived.Miner
use ckb_bench_archived.Miner.Blocks.{Extends, generate_blocks-grows}
use ckb_bench_archived.Main.{Machine, init_logger, init_genesis, mine, measure, main}

ok-injective : {a b : ℕ} → ok a ≡ ok b → a ≡ b
ok-injective e = cc

module _ {W F Url : Type 0} (m : Machine W F Url) where
  no_metrics :
      (net : Net) (tip : ℕ) (w : W) (result : Metrics)
      → tip ≡ 0
      → (eval_blocks m.inner m.float m.serialized_size net 1 tip w).0 ≢ ok result
  no_metrics net tip w result zero =
      subst⁻¹ (λ n. (eval_blocks m.inner m.float m.serialized_size net 1 n w).0 ≢ ok result) zero
        (eval_blocks-ne-ok m.inner m.float m.serialized_size net 0 w result (omega arith))

  -- In metric mode, if the confirmed tip is 0 when it is read, the program never comes to the end of
  -- the mode, whatever else the nodes answer.
  pub main_metric_empty :
      (globals : Globals) (urls : List Url) (w : W)
      → ((net : Net)
          → connect_all m.handle m.user m.pass (map m.as_str urls) ≡ ok net
          → (get_confirmed_tip_number m.inner globals.confirmation_blocks net w).0 ≡ ok 0)
      → (main m globals (metric_mode urls) w).0 ≢ ok tt
  unfolding main measure
  main_metric_empty globals urls w empty h =
      let (net, connected, h₁) =
        bind-ok (lift (connect_all m.handle m.user m.pass (map m.as_str urls))) _ w tt h in
      let (tip, read, h₂) =
        bind-ok (get_confirmed_tip_number m.inner globals.confirmation_blocks net) _ w tt h₁ in
      let (result, evaluated, _) =
        bind-ok (eval_blocks m.inner m.float m.serialized_size net 1 tip) _ _ tt h₂ in
      let zero : tip ≡ 0 = ok-injective (sym read ∙ empty net connected) in
      no_metrics net tip _ result zero evaluated

  -- In every state of the world the log can be written, and this changes no chain.
  pub record Logs (chain : W → List BlockView) : Type 0 where
    pub opens :
        (path : String) (w : W)
        → (w' : W) × (m.open_append path w ≡ (true, w')) × (chain w' ≡ chain w)
    pub inits : (w : W) → (w' : W) × (m.init_combined_logger w ≡ (true, w')) × (chain w' ≡ chain w)
    pub canonicalizes :
        (path : String) (w : W)
        → (abs_path : String) × (w' : W) × (m.canonicalize path w ≡ (some abs_path, w'))
          × (chain w' ≡ chain w)

  -- The node at a URI answers with a genesis block, and this changes no chain.
  pub record HasGenesis (chain : W → List BlockView) (uri : String) : Type 0 where
    pub genesis :
        (w : W)
        → (block : BlockView) × (w' : W) × (m.inner.get_block_by_number uri 0 w
            ≡ (answer (some block), w'))
          × (block.number ≡ 0)
          × (chain w' ≡ chain w)

  init_logger-chain :
      (chain : W → List BlockView) (config : Config Url) (w : W)
      → Logs chain
      → (w' : W) × (init_logger m config w ≡ (ok tt, w')) × (chain w' ≡ chain w)
  unfolding init_logger
  init_logger-chain chain config w logs =
      let path = log_path m.join config.spec in
      let (w₁, opened, same₁) = logs.opens path w in
      let (w₂, inited, same₂) = logs.inits w₁ in
      let (abs_path, w₃, found, same₃) = logs.canonicalizes path w₂ in
      let (same_path, w₄, found', same₄) = logs.canonicalizes abs_path w₃ in
      (w₄, rw (opened, inited, found, found') refl, same₄ ∙ same₃ ∙ same₂ ∙ same₁)

  init_genesis-chain :
      (chain : W → List BlockView) (url : String) (urls : List String) (w : W)
      → m.handle url ≡ accepted
      → HasGenesis chain url
      → (info : GenesisInfo) × (w' : W) × (init_genesis m (url ∷ urls) w ≡ (ok info, w'))
        × (chain w' ≡ chain w)
  unfolding init_genesis init_global_genesis_info
  init_genesis-chain chain url urls w fits has =
      let (rpc, connected, named) = connect-uri m.handle m.user m.pass url fits in
      let (block, w₁, answered, zero, same) = has.genesis w in
      (record { block = block }, w₁, rw (connected, named, answered, zero) refl, same)

  first_connection :
      (rpcs : List Jsonrpc) (url : String) (urls : List String)
      → map (λ (r : Jsonrpc). r.uri) rpcs ≡ url ∷ urls
      → (first : Jsonrpc) × (rest : List Jsonrpc) × (rpcs ≡ first ∷ rest) × (first.uri ≡ url)
  first_connection [] url urls h = cc
  first_connection (rpc ∷ rpcs) url urls h = (rpc, rpcs, refl, cc)

  new_account :
      (text : String) (privkey : Privkey)
      → m.crypto.parse_privkey text ≡ some privkey
      → Account.new m.crypto text ≡ ok (record { privkey = privkey })
  unfolding Account.new
  new_account text privkey key = rw (Account.new, key) refl

  new_miner :
      (config : Config Url) (url : String) (urls : List String) (privkey : Privkey)
      → ((uri : String) → m.handle uri ≡ accepted)
      → m.crypto.parse_privkey config.miner.private_key ≡ some privkey
      → (rpc : Jsonrpc) × (rpcs : List Jsonrpc) × (Miner.new m.crypto m.handle m.user m.pass
            config.miner
            (url ∷ urls)
          ≡ ok (record {
            net = record { endpoints = rpc ∷ rpcs };
            account = record { privkey = privkey };
            block_time = config.miner.block_time * 1000;
          }))
        × (rpc.uri ≡ url)
  unfolding Miner.new
  new_miner config url urls privkey fits key =
      let (net, connected, named) = connect_all-uris m.handle m.user m.pass (url ∷ urls) fits in
      let (rpc, rpcs, same, uri) = first_connection net.endpoints url urls named in
      (
        rpc,
        rpcs,
        rw (connected, new_account config.miner.private_key privkey key)
            (ap
              (λ endpoints. ok (record {
                net = record { endpoints = endpoints };
                account = record { privkey = privkey };
                block_time = config.miner.block_time * 1000;
              }))
              same),
        uri,
      )

  texts :
      (config : Config Url) (url : Url) (urls : List Url)
      → config.rpc_urls ≡ url ∷ urls
      → url_texts m.as_str config ≡ m.as_str url ∷ map m.as_str urls
  unfolding url_texts
  texts config url urls given = ap (map m.as_str) given

  -- In mine mode, where the log can be written, all URIs are accepted, the miner's key is one, and the
  -- first node has a genesis block and takes the block of each of its templates to the end of the
  -- chain: the program comes to its end, and the chain has grown by the given number of blocks.
  pub main-mines :
      (chain : W → List BlockView) (globals : Globals) (config : Config Url) (url : Url)
      (urls : List Url) (privkey : Privkey) (blocks : ℕ) (w : W)
      → config.rpc_urls ≡ url ∷ urls
      → Logs chain
      → ((uri : String) → m.handle uri ≡ accepted)
      → HasGenesis chain (m.as_str url)
      → m.crypto.parse_privkey config.miner.private_key ≡ some privkey
      → ((rpc : Jsonrpc) → rpc.uri ≡ m.as_str url → Extends m.inner m.to_string chain rpc)
      → (mined : List BlockView) × (w' : W) × (main m globals (mine_mode config blocks) w
          ≡ (ok tt, w'))
        × (chain w' ≡ chain w ++ mined)
        × (length mined ≡ blocks)
  unfolding main mine
  main-mines chain globals config url urls privkey blocks w given logs fits has key extends =
      let (w₁, logged, same₁) = init_logger-chain chain config w logs in
      let (info, w₂, started, same₂) =
        init_genesis-chain chain (m.as_str url) (map m.as_str urls) w₁ (fits (m.as_str url)) has in
      let (rpc, rpcs, made, uri) =
        new_miner config (m.as_str url) (map m.as_str urls) privkey fits key in
      let (mined, w₃, ran, grown, count) =
        generate_blocks-grows m.inner m.to_string chain rpc rpcs (record { privkey = privkey })
          (config.miner.block_time * 1000) (extends rpc uri) blocks w₂ in
      (
        mined,
        w₃,
        rw (texts config url urls given, logged, started, made) ran,
        grown ∙ ap (λ before. before ++ mined) (same₂ ∙ same₁),
        count,
      )
