-- ===== src/Account/Pull/Tests.antt =====
-- Tests and witnesses of the cells that an account pulls.
use ckb_bench_archived.Base.{
  ℕ, ◌+◌, ◌≡◌, refl, ap, sym, ◌∙◌, inl, inr, some, ok, [], ◌∷◌, Returns, get_elem?, arith,
}
use ckb_bench_archived.Base.Effects.{for_each}
use ckb_bench_archived.Chain.{OutPoint, CellOutput, OutPoint-discrete, Script-discrete}
use ckb_bench_archived.Account.{lock_script}
use ckb_bench_archived.Account.Maturity.{is_matured}
use ckb_bench_archived.Account.Owned.{get_owned_utxos}
use ckb_bench_archived.Account.Pull.{pull_number, pull_until}
use ckb_bench_archived.Account.Pull.Live.{UniquePoints}
use ckb_bench_archived.Account.Pull.Until.{IsPulled, pull_until-IsPulled}
use ckb_bench_archived.Utxo.{Utxo}
use ckb_bench_archived.Samples.{
  toy_crypto, alice, alice_lock, alice_lock_lem, alice_cell, out_point, local_rpc, header_at,
  block_at, chain_node,
}

-- Of four payments the first two are spent, the third can be spent, and the last is maturing.
pull_until-four : pull_until (chain_node 3) toy_crypto 0 alice local_rpc (header_at 3) tt ≡ (
  ok (record {
    utxoset = (out_point 2 0, alice_cell 100_0000_0002) ∷ [];
    unmatureds = (out_point 3 0, (3, alice_cell 100_0000_0003)) ∷ [];
  }),
  tt {0},
)
unfolding pull_until pull_number for_each get_owned_utxos lock_script is_matured OutPoint-discrete
    Script-discrete
pull_until-four = refl

same_output :
    (n i : ℕ) {u v : CellOutput}
    → get_elem? (alice_cell (100_0000_0000 + n) ∷ []) i ≡ some u
    → get_elem? (alice_cell (100_0000_0000 + n) ∷ []) i ≡ some v
    → u ≡ v
same_output n i p q = cc

one_output :
    (n m : ℕ) (u v : Utxo)
    → u.out_point.tx_hash ≡ n
    → v.out_point.tx_hash ≡ m
    → get_elem? (alice_cell (100_0000_0000 + n) ∷ []) u.out_point.index ≡ some u.output
    → get_elem? (alice_cell (100_0000_0000 + m) ∷ []) v.out_point.index ≡ some v.output
    → u.out_point ≡ v.out_point
    → (n ≡ m) × (u.output ≡ v.output)
one_output n m u v hu hv fu fv same =
    let e : n ≡ m = sym hu ∙ ap (λ (p : OutPoint). p.tx_hash) same ∙ hv in
    (e, same_output m v.out_point.index (rw (e, ap (λ (p : OutPoint). p.index) same) at fu) fv)

payments-UniquePoints : UniquePoints 0 3 alice_lock block_at
payments-UniquePoints n m u v s t ln lm (inl es) (inl et) (hu, fu, lu) (hv, fv, lv) same =
    one_output n m u v (rw es at hu) (rw et at hv) (rw es at fu) (rw et at fv) same
payments-UniquePoints n m u v s t ln lm (inr es) et ou ov same = elim es [ ]
payments-UniquePoints n m u v s t ln lm (inl es) (inr et) ou ov same = elim et [ ]

pull_until-IsPulled_example :
    Returns
      (pull_until (chain_node 3) toy_crypto 0 alice local_rpc (header_at 3) (tt {0})).0
      (IsPulled 0 3 alice_lock block_at)
pull_until-IsPulled_example =
    pull_until-IsPulled (chain_node 3) toy_crypto 0 alice local_rpc (header_at 3) block_at tt
      alice_lock_lem (λ w n le. (w, ground arith)) payments-UniquePoints
