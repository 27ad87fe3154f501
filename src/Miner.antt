-- ===== src/Miner.antt =====
-- tps-bench/src/miner.rs: blocks are made from the template of the first node and submitted to it.
-- The miner is also the account that the block rewards go to. Log lines are left out.
pub mod Blocks
pub mod Assembler
mod Tests
use Prim.Native.String.{String}
use ckb_bench_archived.Base.{
  ℕ, zero, suc, ◌*◌, List, [], ◌∷◌, Bool, true, false, Option, none, some, Outcome, ok, panic,
  running, Action, ite, if◌then◌else◌,
}
use ckb_bench_archived.Base.Effects.{pure, lift, ◌>>=◌, ◌>>◌}
use ckb_bench_archived.Base.Outcomes.{◌>>=◌ as and_then}
use ckb_bench_archived.Chain.{Script, CellOutput, Script-discrete}
use ckb_bench_archived.Crypto.{Crypto}
use ckb_bench_archived.Rpc.{Inner, Jsonrpc, Handle, BlockTemplate}
use ckb_bench_archived.Rpc
use ckb_bench_archived.Net.{Net, first_endpoint, connect_all}
use ckb_bench_archived.Account
use ckb_bench_archived.Account.{Account, lock_script}
use ckb_bench_archived.Config.{MinerConfig}

-- `block_time` is in microseconds.
pub record Miner : Type 0 where
  pub net : Net
  pub account : Account
  pub block_time : ℕ

-- `Miner::new`
unfoldable pub new :
    Crypto → Handle → Option String → Option String → MinerConfig → List String → Outcome Miner
new c handle user pass miner_config rpc_urls =
    and_then (connect_all handle user pass rpc_urls) (λ net.
      and_then (Account.new c miner_config.private_key) (λ account.
        ok (record { net = net; account = account; block_time = miner_config.block_time * 1000 })))

-- The first output of the template's cellbase.
abbrev first_output : List CellOutput → Option CellOutput
first_output [] = none
first_output (output ∷ outputs) = some output

module _ {W : Type 0} (inner : Inner W) (to_string : ℕ → String) where
  -- `Miner::generate_block`; `to_string` writes the identifier of the work.
  unfoldable pub generate_block : Miner → Action W (Option ℕ)
  generate_block miner = do
    rpc ← lift (first_endpoint miner.net)
    template ← Rpc.get_block_template inner rpc none none none
    block_hash ← Rpc.submit_block inner rpc (to_string template.work_id) template.block
    elim block_hash [ none ↦ pure none | some hash ↦ pure (some template.number) ]

  -- `Miner::generate_blocks`
  pub generate_blocks : Miner → ℕ → Action W (Unit {0})
  unfolding generate_block
  generate_blocks miner zero = pure tt
  generate_blocks miner (suc n) = generate_block miner >> generate_blocks miner n

  -- The loop of `assert_block_assembler`: blocks are made until a cellbase has an output.
  block_assembler_lock_script : ℕ → Miner → Action W Script
  block_assembler_lock_script zero miner = lift running
  block_assembler_lock_script (suc rounds) miner = do
    rpc ← lift (first_endpoint miner.net)
    template ← Rpc.get_block_template inner rpc none none none
    elim (first_output template.cellbase.outputs) [
      | some output ↦ pure output.lock
      | none ↦ generate_block miner >> block_assembler_lock_script rounds miner
    ]

  -- `Miner::assert_block_assembler`
  pub assert_block_assembler : Crypto → ℕ → Miner → Action W (Unit {0})
  unfolding block_assembler_lock_script
  assert_block_assembler c rounds miner = do
    configured ← lift (lock_script c miner.account)
    block_assembler ← block_assembler_lock_script rounds miner
    ite (Script-discrete configured block_assembler) (pure tt) (lift (panic "assertion failed"))
