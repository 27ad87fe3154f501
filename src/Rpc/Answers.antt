-- ===== src/Rpc/Answers.antt =====
-- What theorems suppose of the answers of a node (tps-bench/src/rpc.rs).
use ckb_bench_archived.Base.{ℕ, ◌≤◌, ◌≡◌, some}
use ckb_bench_archived.Chain.{BlockView}
use ckb_bench_archived.Rpc.{Inner, Jsonrpc, answer}

-- A node answers with the chain's blocks up to a number, in every state of the world.
abbrev pub Serves : {W : Type 0} → Inner W → Jsonrpc → (ℕ → BlockView) → ℕ → Type 0
Serves {W} inner rpc chain until =
    (w : W) (n : ℕ)
    → n ≤ until
    → (w' : W) × (inner.get_block_by_number rpc.uri n w ≡ (answer (some (chain n)), w'))
