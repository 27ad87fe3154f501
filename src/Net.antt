-- ===== src/Net.antt =====
-- tps-bench/src/net.rs: a set of nodes as one. The global `CONFIRMATION_BLOCKS` is an argument.
pub mod Connected
pub mod Shared
pub mod Agreement
pub mod Confirmed
pub mod Tests
use Prim.Native.String.{String}
use ckb_bench_archived.Base.{
  ℕ, zero, suc, ◌+◌, ◌-◌, List, [], ◌∷◌, Bool, true, false, Option, none, some, Outcome, ok, panic,
  Action, unwrap, ite, if◌then◌else◌, length,
}
use ckb_bench_archived.Base.Outcomes.{◌>>=◌ as and_then}
use ckb_bench_archived.Base.Effects.{pure, lift, ◌>>=◌}
use ckb_bench_archived.Chain.{HeaderView, BlockView, HeaderView-discrete}
use ckb_bench_archived.Rpc
use ckb_bench_archived.Rpc.{Inner, Jsonrpc, Handle}

pub record Net : Type 0 where
  pub endpoints : List Jsonrpc

unfoldable pub connect_each :
    Handle → Option String → Option String → List String → Outcome (List Jsonrpc)
connect_each handle user pass [] = ok []
connect_each handle user pass (uri ∷ uris) =
    and_then (Rpc.connect handle user pass uri)
      (λ rpc. and_then (connect_each handle user pass uris) (λ rpcs. ok (rpc ∷ rpcs)))

-- `Net::connect_all`
unfoldable pub connect_all : Handle → Option String → Option String → List String → Outcome Net
unfolding connect_each
connect_all handle user pass uris =
    and_then (connect_each handle user pass uris) (λ rpcs. ok (record { endpoints = rpcs }))

abbrev first_of_list : {A : Type 0} → List A → Option A
first_of_list [] = none
first_of_list (a ∷ as_) = some a

abbrev rest_of_list : {A : Type 0} → List A → List A
rest_of_list [] = []
rest_of_list (a ∷ as_) = as_

-- `Deref for Net`, and `self.endpoints[0]`: there must be a node.
unfoldable pub first_endpoint : Net → Outcome Jsonrpc
first_endpoint net = unwrap (first_of_list net.endpoints) "endpoints"

-- `Net::get_bench_nodes`
unfoldable pub get_bench_nodes : Net → ℕ
get_bench_nodes net = length net.endpoints

-- Whether a node's answer is the header.
pub same_header : HeaderView → Option HeaderView → Bool
same_header header none = false
same_header header (some h) = ite (HeaderView-discrete h header) true false

module _ {W : Type 0} (inner : Inner W) where
  -- `.iter().all(|rpc| …)`, which asks no further node after one that differs.
  all_agree : ℕ → HeaderView → List Jsonrpc → Action W Bool
  unfolding same_header
  all_agree number header [] = pure true
  all_agree number header (rpc ∷ rpcs) = do
    reply ← Rpc.get_header_by_number inner rpc number
    if same_header header reply then all_agree number header rpcs else pure false

  confirm_with : ℕ → List Jsonrpc → Option HeaderView → Action W (Option HeaderView)
  unfolding all_agree
  confirm_with number others none = pure none
  confirm_with number others (some header) = do
    is_fixed ← all_agree number header others
    pure (if is_fixed then some header else none)

  -- `Net::get_fixed_header`
  unfoldable pub get_fixed_header : Net → ℕ → Action W (Option HeaderView)
  unfolding first_endpoint confirm_with
  get_fixed_header net number = do
    rpc ← lift (first_endpoint net)
    reply ← Rpc.get_header_by_number inner rpc number
    confirm_with number (rest_of_list net.endpoints) reply

  stop_at : (Unit {0} → Action W HeaderView) → Option HeaderView → Action W HeaderView
  stop_at next none = next tt
  stop_at next (some header) = pure header

  -- The loop of `get_unconfirmed_fixed_tip_header`, from a number down to 0; its body is that of
  -- `get_fixed_header`.
  unfoldable pub scan_down : Net → ℕ → Action W HeaderView
  unfolding stop_at
  scan_down net zero = do
    found ← get_fixed_header net zero
    stop_at (λ t. lift (panic "unreachable")) found
  scan_down net (suc number) = do
    found ← get_fixed_header net (suc number)
    stop_at (λ t. scan_down net number) found

  unfoldable pub get_unconfirmed_fixed_tip_header : Net → Action W HeaderView
  unfolding first_endpoint
  get_unconfirmed_fixed_tip_header net = do
    rpc ← lift (first_endpoint net)
    tip_number ← Rpc.get_tip_block_number inner rpc
    scan_down net tip_number

  -- `Net::get_confirmed_tip_header`; `saturating_sub` is the subtraction of ℕ.
  unfoldable pub get_confirmed_tip_header : ℕ → Net → Action W HeaderView
  unfolding first_endpoint
  get_confirmed_tip_header confirmation_blocks net = do
    unconfirmed ← get_unconfirmed_fixed_tip_header net
    let confirmed_number = unconfirmed.number - confirmation_blocks
    rpc ← lift (first_endpoint net)
    reply ← Rpc.get_header_by_number inner rpc confirmed_number
    lift (unwrap reply "rpc.get_header_by_number")

  -- `Net::get_confirmed_tip_number`
  unfoldable pub get_confirmed_tip_number : ℕ → Net → Action W ℕ
  get_confirmed_tip_number confirmation_blocks net = do
    header ← get_confirmed_tip_header confirmation_blocks net
    pure header.number

  -- `Net::get_confirmed_tip_block`
  pub get_confirmed_tip_block : ℕ → Net → Action W BlockView
  get_confirmed_tip_block confirmation_blocks net = do
    header ← get_confirmed_tip_header confirmation_blocks net
    rpc ← lift (first_endpoint net)
    reply ← Rpc.get_block inner rpc header.hash
    lift (unwrap reply "get_block")

  -- `Net::get_network_nodes`: the peers of the first node, and itself
  unfoldable pub get_network_nodes : Net → Action W ℕ
  get_network_nodes net = do
    rpc ← lift (first_endpoint net)
    peers ← Rpc.get_peers inner rpc
    pure (length peers + 1)
