-- ===== src/GenesisInfo/Cases.antt =====
-- The hash of the dependency group that is found in the genesis block (tps-bench/src/genesis_info.rs,
-- main.rs, global.rs): when it is there, and when the program panics.
use Prim.Native.String.{String}
use ckb_bench_archived.Base.{
  ◌⊎◌, ◌≡◌, refl, ap, ◌∙◌, Option, none, some, Outcome, ok, panic, Action, inl, inr, ◌==◌,
  get_elem?, List, [], ◌∷◌, Bool-cases, arith,
}
use ckb_bench_archived.Base.Effects.{lift, ◌>>=◌}
use ckb_bench_archived.Chain.{Byte32, BlockView, TransactionView}
use ckb_bench_archived.Rpc.{Inner, Jsonrpc, Reply, answer, failed}
use ckb_bench_archived.GenesisInfo.{
  assert_initialized, dep_group_tx_hash, from_block, sighash_all_dep_group_tx_hash,
  init_global_genesis_info,
}

answered :
    {a b : BlockView}
    → ◌≡◌ {A = Reply (Option BlockView)} (answer (some a)) (answer (some b))
    → a ≡ b
answered e = cc

-- The reply is a block with the number 0, whose second transaction has this hash.
abbrev pub HasGroup : Reply (Option BlockView) → Byte32 → Type 0
HasGroup reply hash =
    (block : BlockView) × (tx : TransactionView) × (reply ≡ answer (some block))
    × (block.number ≡ 0)
    × (get_elem? block.transactions 1 ≡ some tx)
    × (tx.hash ≡ hash)

-- A hash is that of the reply; a panic comes only where there is none.
abbrev pub Decides : Reply (Option BlockView) → Outcome Byte32 → Type 0
Decides reply (ok hash) = HasGroup reply hash
Decides reply (panic reason) = (hash : Byte32) → ¬ HasGroup reply hash
Decides reply _ = ⊥

no_second :
    (block : BlockView)
    → get_elem? block.transactions 1 ≡ none
    → (hash : Byte32) → ¬ HasGroup (answer (some block)) hash
no_second block missing hash (b, tx, same, first, there, e) =
    let here : get_elem? block.transactions 1 ≡ some tx =
      ap (λ x. get_elem? x.transactions 1) (answered same) ∙ there in
    cc

hash_of :
    (block : BlockView) (txs : List TransactionView)
    → block.transactions ≡ txs
    → ((reason : String) × (get_elem? txs 1 ≡ none)
        × (sighash_all_dep_group_tx_hash (record { block = block }) ≡ panic reason))
      ⊎ ((group : TransactionView) × (get_elem? txs 1 ≡ some group)
          × (sighash_all_dep_group_tx_hash (record { block = block }) ≡ ok group.hash))
unfolding sighash_all_dep_group_tx_hash assert_initialized dep_group_tx_hash
hash_of block [] e = inl ("assertion failed", refl, rw e refl)
hash_of block (tx ∷ []) e =
    inl ("genesis block should have transactions[DEP_GROUP_TRANSACTION_INDEX]", refl, rw e refl)
hash_of block (tx ∷ group ∷ txs) e = inr (group, refl, rw e refl)

hash-Decides :
    (block : BlockView)
    → block.number ≡ 0
    → Decides (answer (some block)) (sighash_all_dep_group_tx_hash (record { block = block }))
hash-Decides block first = elim (hash_of block block.transactions refl) [
  | inl (reason, missing, panics) ↦ rw panics (no_second block missing)
  | inr (group, there, found) ↦ rw found (block, group, refl, first, there, refl)
]

module _ {W : Type 0} (inner : Inner W) (rpc : Jsonrpc) where
  -- The initialisation, and the hash that is computed from it.
  abbrev pub group_hash : Action W Byte32
  group_hash =
      init_global_genesis_info inner rpc >>= λ info. lift (sighash_all_dep_group_tx_hash info)

  -- Whatever the node replies, the program has the hash of the second transaction of a block with
  -- the number 0, or panics; and it panics only if the reply is no such block.
  pub init_global_genesis_info-Decides :
      (reply : Reply (Option BlockView)) (w w' : W)
      → inner.get_block_by_number rpc.uri 0 w ≡ (reply, w')
      → Decides reply (group_hash w).0
  unfolding init_global_genesis_info from_block
  init_global_genesis_info-Decides (failed error) w w' replied = rw replied (λ hash h. cc)
  init_global_genesis_info-Decides (answer none) w w' replied = rw replied (λ hash h. cc)
  init_global_genesis_info-Decides (answer (some block)) w w' replied =
      elim (Bool-cases (block.number == 0)) [
        | inr other ↦
            rw (replied, other)
              (λ hash (b, tx, same, first, there, e).
                let number : block.number ≡ 0 = ap (λ x. x.number) (answered same) ∙ first in
                absurd (ground arith))
        | inl first ↦ rw (replied, first) (hash-Decides block (ground arith))
      ]
