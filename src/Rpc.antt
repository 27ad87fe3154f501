-- ===== src/Rpc.antt =====
-- tps-bench/src/rpc.rs: the JSON-RPC client of one node. What a node answers is not the program's:
-- the transport is a record of functions over the world, and each call may change the world. Of the
-- lock that a call takes on the shared handle nothing is modelled: a call is one step.
pub mod Answers
pub mod Draining
use Prim.Native.String.{String}
use ckb_bench_archived.Base.{
  ℕ, Bool, true, false, not, ◌&&◌, Option, none, some, List, Outcome, ok, panic, Action,
  if◌then◌else◌,
}
use ckb_bench_archived.Chain.{Byte32, OutPoint, TransactionView, HeaderView, BlockView}

-- A value of which the program looks at nothing.
abbrev pub Json : Type 0
Json = String

-- A call's result: an answer, or the text of the error.
pub data Reply (A : Type 0) : Type 0 where
  answer : A → Reply A
  failed : String → Reply A

abbrev pub Call : Type 0 → Type 0 → Type 0
Call W A = W → Reply A × W

-- `block` is the block that the template converts to.
pub record BlockTemplate : Type 0 where
  pub work_id : ℕ
  pub number : ℕ
  pub cellbase : TransactionView
  pub block : BlockView

pub record TxPoolInfo : Type 0 where
  pub pending : ℕ
  pub proposed : ℕ

-- The methods that the macro `jsonrpc_client!` makes, each for the node at a URI.
pub record Inner (W : Type 0) : Type 0 where
  pub get_block : String → Byte32 → Call W (Option BlockView)
  pub get_block_by_number : String → ℕ → Call W (Option BlockView)
  pub get_transaction : String → Byte32 → Call W (Option Json)
  pub get_block_hash : String → ℕ → Call W (Option Byte32)
  pub get_tip_header : String → Call W HeaderView
  pub get_header_by_number : String → ℕ → Call W (Option HeaderView)
  pub get_cells_by_lock_hash : String → Byte32 → ℕ → ℕ → Call W (List Json)
  pub get_live_cell : String → OutPoint → Call W Json
  pub get_tip_block_number : String → Call W ℕ
  pub local_node_info : String → Call W Json
  pub get_peers : String → Call W (List Json)
  pub get_block_template : String → Option ℕ → Option ℕ → Option ℕ → Call W BlockTemplate
  pub submit_block : String → String → BlockView → Call W (Option Byte32)
  pub get_blockchain_info : String → Call W Json
  pub send_transaction : String → TransactionView → Call W Byte32
  pub broadcast_transaction : String → TransactionView → Call W Byte32
  pub tx_pool_info : String → Call W TxPoolInfo
  pub add_node : String → String → String → Call W (Unit {0})
  pub remove_node : String → String → Call W (Unit {0})
  pub process_block_without_verify : String → BlockView → Call W (Option Byte32)
  pub get_peers_state : String → Call W (List Json)
  pub compute_transaction_hash : String → TransactionView → Call W Byte32
  pub dry_run_transaction : String → TransactionView → Call W Json

-- What jsonrpc_client_http does for a connection: `HttpTransport::new().standalone()` fails, or
-- `handle` of that transport refuses the URI, or accepts it.
pub data Connection : Type 0 where
  standalone_failed refused accepted : Connection

abbrev pub Handle : Type 0
Handle = String → Connection

-- A connection: the URI and the credentials that each request carries, if any.
pub record Jsonrpc : Type 0 where
  pub uri : String
  pub authorization : Option (String × String)

is_empty : String → Bool
is_empty String.[] = true
is_empty (String.◌∷◌ c text) = false

-- `var(name).unwrap_or_else(|_| "".to_owned())`, of `username` and `password`
unwrap_or_empty : Option String → String
unwrap_or_empty (some text) = text
unwrap_or_empty none = ""

-- The outcome of the two calls of the transport: the connection, or their panics.
abbrev pub connected : Jsonrpc → Connection → Outcome Jsonrpc
connected rpc standalone_failed = panic "standalone"
connected rpc refused = panic "Jsonrpc::connect"
connected rpc accepted = ok rpc

-- `Jsonrpc::connect`; the two variables of the environment are arguments.
unfoldable pub connect : Handle → Option String → Option String → String → Outcome Jsonrpc
unfolding is_empty unwrap_or_empty
connect handle user pass uri =
    let username = unwrap_or_empty user in
    let password = unwrap_or_empty pass in
    let rpc : Jsonrpc = record {
      uri = uri;
      authorization =
          if not (is_empty username) && not (is_empty password)
          then some (username, password)
          else none;
    } in
    connected rpc (handle uri)

-- `.call().unwrap_or_else(|_| panic!(…))`
abbrev pub unwrap_reply : {A : Type 0} → String → Reply A → Outcome A
unwrap_reply method (answer a) = ok a
unwrap_reply method (failed error) = panic method

abbrev pub call_or_panic : {W A : Type 0} → String → Call W A → Action W A
call_or_panic method call w = let (reply, w') = call w in (unwrap_reply method reply, w')

module _ {W : Type 0} (inner : Inner W) (rpc : Jsonrpc) where
  -- `Jsonrpc::get_block`
  abbrev pub get_block : Byte32 → Action W (Option BlockView)
  get_block hash = call_or_panic "get_block" (inner.get_block rpc.uri hash)

  -- `Jsonrpc::get_block_by_number`
  abbrev pub get_block_by_number : ℕ → Action W (Option BlockView)
  get_block_by_number number =
      call_or_panic "get_block_by_number" (inner.get_block_by_number rpc.uri number)

  -- `Jsonrpc::get_transaction`
  abbrev pub get_transaction : Byte32 → Action W (Option Json)
  get_transaction hash = call_or_panic "get_transaction" (inner.get_transaction rpc.uri hash)

  -- `Jsonrpc::get_block_hash`
  abbrev pub get_block_hash : ℕ → Action W (Option Byte32)
  get_block_hash number = call_or_panic "get_block_hash" (inner.get_block_hash rpc.uri number)

  -- `Jsonrpc::get_tip_header`
  abbrev pub get_tip_header : Action W HeaderView
  get_tip_header = call_or_panic "get_tip_header" (inner.get_tip_header rpc.uri)

  -- `Jsonrpc::get_header_by_number`
  abbrev pub get_header_by_number : ℕ → Action W (Option HeaderView)
  get_header_by_number number =
      call_or_panic "get_header_by_number" (inner.get_header_by_number rpc.uri number)

  -- `Jsonrpc::get_cells_by_lock_hash`
  abbrev pub get_cells_by_lock_hash : Byte32 → ℕ → ℕ → Action W (List Json)
  get_cells_by_lock_hash lock_hash from to =
      call_or_panic "get_cells_by_lock_hash"
        (inner.get_cells_by_lock_hash rpc.uri lock_hash from to)

  -- `Jsonrpc::get_live_cell`
  abbrev pub get_live_cell : OutPoint → Action W Json
  get_live_cell out_point = call_or_panic "get_live_cell" (inner.get_live_cell rpc.uri out_point)

  -- `Jsonrpc::get_tip_block_number`
  abbrev pub get_tip_block_number : Action W ℕ
  get_tip_block_number = call_or_panic "get_tip_block_number" (inner.get_tip_block_number rpc.uri)

  -- `Jsonrpc::local_node_info`
  abbrev pub local_node_info : Action W Json
  local_node_info = call_or_panic "local_node_info" (inner.local_node_info rpc.uri)

  -- `Jsonrpc::get_peers`
  abbrev pub get_peers : Action W (List Json)
  get_peers = call_or_panic "get_peers" (inner.get_peers rpc.uri)

  -- `Jsonrpc::get_block_template`
  abbrev pub get_block_template : Option ℕ → Option ℕ → Option ℕ → Action W BlockTemplate
  get_block_template bytes_limit proposals_limit max_version =
      call_or_panic "get_block_template"
        (inner.get_block_template rpc.uri bytes_limit proposals_limit max_version)

  -- `Jsonrpc::submit_block`
  abbrev pub submit_block : String → BlockView → Action W (Option Byte32)
  submit_block work_id block =
      call_or_panic "submit_block" (inner.submit_block rpc.uri work_id block)

  -- `Jsonrpc::get_blockchain_info`
  abbrev pub get_blockchain_info : Action W Json
  get_blockchain_info = call_or_panic "get_blockchain_info" (inner.get_blockchain_info rpc.uri)

  -- `Jsonrpc::send_transaction`
  abbrev pub send_transaction : TransactionView → Action W Byte32
  send_transaction tx = call_or_panic "send_transaction" (inner.send_transaction rpc.uri tx)

  -- `Jsonrpc::broadcast_transaction`
  abbrev pub broadcast_transaction : TransactionView → Action W Byte32
  broadcast_transaction tx =
      call_or_panic "broadcast_transaction" (inner.broadcast_transaction rpc.uri tx)

  -- `Jsonrpc::tx_pool_info`
  abbrev pub tx_pool_info : Action W TxPoolInfo
  tx_pool_info = call_or_panic "tx_pool_info" (inner.tx_pool_info rpc.uri)

  -- `Jsonrpc::add_node`
  abbrev pub add_node : String → String → Action W (Unit {0})
  add_node peer_id address = call_or_panic "add_node" (inner.add_node rpc.uri peer_id address)

  -- `Jsonrpc::remove_node`
  abbrev pub remove_node : String → Action W (Unit {0})
  remove_node peer_id = call_or_panic "remove_node" (inner.remove_node rpc.uri peer_id)

  -- `Jsonrpc::process_block_without_verify`
  abbrev pub process_block_without_verify : BlockView → Action W (Option Byte32)
  process_block_without_verify block =
      call_or_panic "process_block_without_verify"
        (inner.process_block_without_verify rpc.uri block)

  -- `Jsonrpc::send_transaction_result` hands the error to its caller.
  abbrev pub send_transaction_result : TransactionView → Call W Byte32
  send_transaction_result tx = inner.send_transaction rpc.uri tx
