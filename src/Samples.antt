-- ===== src/Samples.antt =====
-- Values at which the tests and the witnesses run the code: a toy cryptography, accounts, cells and
-- blocks.
use Prim.Native.String.{String}
use ckb_bench_archived.Base.{
  ◌-◌, ◌*◌, if◌then◌else◌, leb, arith, ℕ, ◌+◌, List, [], ◌∷◌, ◌++◌, Bool, true, some, none, refl,
  ok, ◌≡◌, sum, length,
}
use ckb_bench_archived.NetMonitor.{default_method}
use ckb_bench_archived.Config.{Spec, Sources, Globals, loaded, failed as fails}
use ckb_bench_archived.Chain.{
  TransactionView, HeaderView, BlockView, Script, by_type, OutPoint, CellOutput,
}
use ckb_bench_archived.Float.{fractions}
use ckb_bench_archived.Host.{Host}
use ckb_bench_archived.Main.{Machine}
use ckb_bench_archived.Crypto.{Crypto, RecoversSigner}
use ckb_bench_archived.Global.{sighash_all_type_hash}
use mathlib.Core.List.Permᴰ
use ckb_bench_archived.HashMap.{IterOrder}
use ckb_bench_archived.Utxo.{Utxo}
use ckb_bench_archived.Rpc.{Inner, Jsonrpc, BlockTemplate, accepted, answer, failed}
use ckb_bench_archived.Account.{Account, lock_script}

-- A signature is the key itself, and a digest the text.
abbrev pub toy_crypto : Crypto
toy_crypto = record {
  parse_privkey = λ text. some (7 ∷ []);
  pubkey = λ key. some (1 ∷ key);
  sign_recoverable = λ key message. some key;
  recover = λ signature message. some (1 ∷ signature);
  blake2b_256 = λ text. text;
  script_hash = λ script. sum script.args;
  transaction_hash = λ raw. length raw.inputs + length raw.outputs;
  raw_data = λ hash. hash ∷ [];
  witness_bytes = λ w. 8 ∷ [];
}

pub toy_crypto-RecoversSigner : RecoversSigner toy_crypto
toy_crypto-RecoversSigner key message public signature p q = ground arith

abbrev pub alice : Account
alice = record { privkey = 7 ∷ [] }

abbrev pub alice_lock : Script
alice_lock = record { args = 1 ∷ 7 ∷ []; code_hash = sighash_all_type_hash; hash_type = by_type }

pub alice_lock_lem : lock_script toy_crypto alice ≡ ok alice_lock
unfolding lock_script
alice_lock_lem = refl

abbrev pub out_point : ℕ → ℕ → OutPoint
out_point tx_hash index = record { tx_hash = tx_hash; index = index }

abbrev pub alice_cell : ℕ → CellOutput
alice_cell capacity = record { capacity = capacity; lock = alice_lock; type_script = none }

abbrev pub alice_utxo : ℕ → ℕ → ℕ → Utxo
alice_utxo capacity tx_hash index = record {
  output = alice_cell capacity;
  out_point = out_point tx_hash index;
}

-- A node that answers every call by an error.
abbrev pub dead_node : {W : Type 0} → Inner W
dead_node = record {
  get_block = λ uri hash w. (failed "", w);
  get_block_by_number = λ uri number w. (failed "", w);
  get_transaction = λ uri hash w. (failed "", w);
  get_block_hash = λ uri number w. (failed "", w);
  get_tip_header = λ uri w. (failed "", w);
  get_header_by_number = λ uri number w. (failed "", w);
  get_cells_by_lock_hash = λ uri lock_hash from to w. (failed "", w);
  get_live_cell = λ uri point w. (failed "", w);
  get_tip_block_number = λ uri w. (failed "", w);
  local_node_info = λ uri w. (failed "", w);
  get_peers = λ uri w. (failed "", w);
  get_block_template = λ uri bytes_limit proposals_limit max_version w. (failed "", w);
  submit_block = λ uri work_id block w. (failed "", w);
  get_blockchain_info = λ uri w. (failed "", w);
  send_transaction = λ uri tx w. (failed "", w);
  broadcast_transaction = λ uri tx w. (failed "", w);
  tx_pool_info = λ uri w. (failed "", w);
  add_node = λ uri peer_id address w. (failed "", w);
  remove_node = λ uri peer_id w. (failed "", w);
  process_block_without_verify = λ uri block w. (failed "", w);
  get_peers_state = λ uri w. (failed "", w);
  compute_transaction_hash = λ uri tx w. (failed "", w);
  dry_run_transaction = λ uri tx w. (failed "", w);
}

abbrev pub local_rpc : Jsonrpc
local_rpc = record { uri = "http://localhost:8114"; authorization = none }

abbrev pub header_at : ℕ → HeaderView
header_at n = record { number = n; hash = n; parent_hash = n - 1; timestamp = 8000 * n }

-- A chain of one transaction a block: each pays alice, and spends what was paid two blocks before.
abbrev pub payment_at : ℕ → TransactionView
payment_at n = record {
  hash = n;
  raw = record {
    cell_deps = [];
    inputs = record { previous_output = out_point (n - 2) 0; since = 0 } ∷ [];
    outputs = alice_cell (100_0000_0000 + n) ∷ [];
    outputs_data = [] ∷ [];
  };
  witnesses = [];
}

abbrev pub block_at : ℕ → BlockView
block_at n = record { header = header_at n; transactions = payment_at n ∷ [] }

-- The node that serves this chain, up to a tip.
abbrev pub chain_node : {W : Type 0} → ℕ → Inner W
chain_node tip = record dead_node {
  get_block_by_number = λ uri n w. (answer (if leb n tip then some (block_at n) else none), w);
  get_header_by_number = λ uri n w. (answer (if leb n tip then some (header_at n) else none), w);
  get_block = λ uri hash w. (answer (if leb hash tip then some (block_at hash) else none), w);
  get_tip_block_number = λ uri w. (answer tip, w);
}

-- Maps are iterated in the order of their lists.
abbrev pub list_order : {K V : Type 0} → IterOrder K V
list_order = record { iter = λ m. m; iter_perm = Permᴰ.refl }

abbrev pub small_spec : Spec
small_spec = record {
  data_dir = "data";
  bencher_private_key = "7";
  miner = record { private_key = "8"; block_time = 3000 };
  benchmarks = [];
  metrics_url = none;
  consensus_cellbase_maturity = 4;
  confirmation_blocks = 2;
  ensure_matured_capacity_greater_than = 100;
  method_to_eval_network_stable = default_method;
}

abbrev pub sources : Sources
sources = record {
  staging_spec = "s";
  dev_spec = "d";
  release_spec = "r";
  from_str = λ text. loaded small_spec;
  read_to_string = λ path. fails "no such file";
  create_dir_all = λ path. true;
}

abbrev pub globals_before : Globals
globals_before = record {
  cellbase_maturity = 0;
  confirmation_blocks = 0;
  method_to_eval_net_stable = default_method;
}

abbrev pub template_at : ℕ → BlockTemplate
template_at n = record { work_id = n; number = n; cellbase = payment_at n; block = block_at n }

-- The world is the chain, and the node takes every block.
abbrev pub mining_node : Inner (List BlockView)
mining_node = record dead_node {
  get_block_by_number = λ uri number w. (answer (some (block_at number)), w);
  get_block_template =
      λ uri bytes_limit proposals_limit max_version w. (answer (template_at (length w)), w);
  submit_block = λ uri work_id block w. (answer (some 1), w ++ block ∷ []);
}

abbrev pub number_text : ℕ → String
number_text n = "work"

-- A machine on which everything succeeds and changes nothing.
abbrev pub quiet_host : {W : Type 0} → Host W
quiet_host = record {
  sleep = λ time w. w;
  now = λ w. (0, w);
  send_utxo = λ utxo w. (true, w);
  recv_utxo = λ w. (none, w);
  send_tx = λ i tx w. (true, w);
  try_send_tx = λ i tx w. (true, w);
}

abbrev pub quiet_machine : {W : Type 0} → Inner W → Machine W (ℕ × ℕ) Bool
quiet_machine inner = record {
  crypto = toy_crypto;
  inner = inner;
  hosts = λ channel. quiet_host;
  bench_host = record {
    spawn_monitor = λ net method w. w;
    spawn_transaction_emitters = λ net w. w;
    try_recv_metrics = λ w. (none, w);
    write_metrics = λ delay kind metrics w. w;
  };
  float = fractions;
  serialized_size = λ tx. 200;
  to_string = number_text;
  as_str = λ url. if url then "http://a" else "http://b";
  join = λ dir name. name;
  utxo_order = list_order;
  order = list_order;
  handle = λ uri. accepted;
  user = none;
  pass = none;
  spawn = λ thread w. w;
  open_append = λ path w. (true, w);
  canonicalize = λ path w. (some path, w);
  init_combined_logger = λ w. (true, w);
  set_metrics_recorder = λ path w. w;
  parse_address = λ text. some text;
  serve_metrics = λ address w. (true, w);
  println_tps = λ tps w. w;
  println_metrics = λ metrics w. w;
  rounds = 10;
}
