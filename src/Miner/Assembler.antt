-- ===== src/Miner/Assembler.antt =====
-- What `assert_block_assembler` of tps-bench/src/miner.rs finds out about the node.
use Prim.Native.String.{String}
use ckb_bench_archived.Base.{
  ℕ, zero, suc, ◌<◌, ◌≡◌, ◌≢◌, refl, ap, List, [], ◌∷◌, Option, none, some, ok, Action, panic, inl,
  inr, if_pos, if_neg, ltb, ltb→lt, ltb→ge, Bool-cases, Option-cases, arith,
}
use ckb_bench_archived.Chain.{Script, CellOutput, Script-discrete}
use ckb_bench_archived.Crypto.{Crypto}
use ckb_bench_archived.Rpc.{Inner, Jsonrpc, BlockTemplate, answer}
use ckb_bench_archived.Net.{first_endpoint}
use ckb_bench_archived.Account.{Account, lock_script}
use ckb_bench_archived.Miner.{
  Miner, generate_block, block_assembler_lock_script, assert_block_assembler,
}

-- The cellbase of a template has no output before some more blocks are made, of which `due` is the
-- number; then its first output has the lock for which the node assembles.
pub record Assembles {W : Type 0} (inner : Inner W) (to_string : ℕ → String) (rpc : Jsonrpc)
    (due : W → ℕ) (lock : Script) : Type 0 where
  pub empty :
      (w : W)
      → 0 < due w
      → (template : BlockTemplate) × (w' : W) × (inner.get_block_template rpc.uri none none none w
          ≡ (answer template, w'))
        × (template.cellbase.outputs ≡ [])
        × (due w' ≡ due w)
  pub grows :
      (w : W)
      → 0 < due w
      → (template : BlockTemplate) × (w' : W) × (hash : Option ℕ) × (w'' : W)
        × (inner.get_block_template rpc.uri none none none w ≡ (answer template, w'))
        × (inner.submit_block rpc.uri (to_string template.work_id) template.block w'
            ≡ (answer hash, w''))
        × (due w'' < due w)
  pub pays :
      (w : W)
      → due w ≡ 0
      → (template : BlockTemplate) × (output : CellOutput) × (outputs : List CellOutput) × (w' : W)
        × (inner.get_block_template rpc.uri none none none w ≡ (answer template, w'))
        × (template.cellbase.outputs ≡ output ∷ outputs)
        × (output.lock ≡ lock)

module _ {W : Type 0} (inner : Inner W) (to_string : ℕ → String) (rpc : Jsonrpc)
    (rpcs : List Jsonrpc) (account : Account) (block_time : ℕ) (due : W → ℕ) (lock : Script)
    (assembles : Assembles inner to_string rpc due lock) where
  abbrev pub miner : Miner
  miner = record {
    net = record { endpoints = rpc ∷ rpcs };
    account = account;
    block_time = block_time;
  }

  generate_block-due :
      (w : W)
      → 0 < due w
      → (mined : Option ℕ) × (w' : W) × (generate_block inner to_string miner w ≡ (ok mined, w'))
        × (due w' < due w)
  unfolding generate_block first_endpoint
  generate_block-due w early =
      let (template, w₁, hash, w₂, templated, submitted, less) = assembles.grows w early in
      elim (Option-cases hash) [
        | inl refused ↦ (none, w₂, rw (templated, submitted, refused) refl, less)
        | inr (mined, taken) ↦
            (some template.number, w₂, rw (templated, submitted, taken) refl, less)
      ]

  block_assembler_lock_script-lock :
      (rounds : ℕ) (w : W)
      → due w < rounds
      → (w' : W) × (block_assembler_lock_script inner to_string rounds miner w ≡ (ok lock, w'))
  unfolding block_assembler_lock_script first_endpoint
  block_assembler_lock_script-lock zero w enough = absurd (omega arith)
  block_assembler_lock_script-lock (suc rounds) w enough = elim (Bool-cases (ltb 0 (due w))) [
    | inl early ↦
        let (template, w₁, templated, no_output, same) = assembles.empty w (ltb→lt _ _ early) in
        let (mined, w₂, made, less) =
          generate_block-due w₁ (omega (arith, ltb→lt _ _ early, same)) in
        let (w₃, ran) = block_assembler_lock_script-lock rounds w₂ (omega (arith, less, same)) in
        (w₃, rw (templated, no_output, made) ran)
    | inr late ↦
        let (template, output, outputs, w₁, templated, has, locked) =
          assembles.pays w (omega (arith, ltb→ge _ _ late)) in
        (w₁, rw (templated, has, locked) refl)
  ]

  -- Where the node makes templates, takes blocks, and pays a lock from some block on, and the miner's
  -- account has a lock: given more rounds than blocks are due, the call returns if these two are the
  -- same lock, and it panics if they are not.
  pub assert_block_assembler-decides :
      (c : Crypto) (rounds : ℕ) (configured : Script) (w : W)
      → lock_script c account ≡ ok configured
      → due w < rounds
      → (w' : W) × (configured ≡ lock
          → assert_block_assembler inner to_string c rounds miner w ≡ (ok tt, w'))
        × (configured ≢ lock
            → assert_block_assembler inner to_string c rounds miner w
              ≡ (panic "assertion failed", w'))
  unfolding assert_block_assembler
  assert_block_assembler-decides c rounds configured w known enough =
      let (w', ran) = block_assembler_lock_script-lock rounds w enough in
      (
        w',
        λ same.
            rw (known, ran)
              (ap (λ (a : Action W (Unit {0})). a w')
                (if_pos (Script-discrete configured lock) same _ _)),
        λ other.
            rw (known, ran)
              (ap (λ (a : Action W (Unit {0})). a w')
                (if_neg (Script-discrete configured lock) other _ _)),
      )
