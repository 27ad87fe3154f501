-- ===== src/Account/Forever.antt =====
-- `pull_forever` of tps-bench/src/account.rs, which sends the cells of new blocks to a channel as the
-- chain grows, with `rollback_for_reorg`; and `retry_send`, the loop of a sender of
-- `transfer_forever`. They take a number of rounds; where it runs out the outcome is `running`.
pub mod Sent
pub mod Step
pub mod Growth
pub mod Conserved
pub mod Reorg
pub mod Retried
pub mod Tests
use Prim.Native.String.{String}
use ckb_bench_archived.Base.{
  ℕ, zero, suc, ◌+◌, ◌-◌, ◌%◌, List, [], ◌∷◌, ◌++◌, map, Bool, true, false, Option, some, none,
  Outcome, ok, running, Action, unwrap, if◌then◌else◌, ltb, ◌==◌, ◌||◌, not, length, add_u64,
  mul_u64,
}
use ckb_bench_archived.Base.Effects.{pure, lift, ◌>>=◌, ◌>>◌}
use ckb_bench_archived.Chain.{Byte32, HeaderView, BlockView, TransactionView}
use ckb_bench_archived.Crypto.{Crypto}
use ckb_bench_archived.Utxo.{Utxo}
use ckb_bench_archived.Host.{Host}
use ckb_bench_archived.Rpc.{Inner, Jsonrpc, answer, failed}
use ckb_bench_archived.Rpc
use ckb_bench_archived.Net.{Net, first_endpoint, get_fixed_header}
use ckb_bench_archived.Account.{Account}
use ckb_bench_archived.Account.Maturity.{is_matured}
use ckb_bench_archived.Account.Owned.{Found, get_owned_utxos}

-- `current_header` and `unmatureds`
pub record Following : Type 0 where
  pub current_header : HeaderView
  pub unmatureds : List (ℕ × Utxo)

module _ {W : Type 0} (host : Host W) where
  send_one : Utxo → Action W Bool
  send_one utxo w = let (is_sent, w') = host.send_utxo utxo w in (ok is_sent, w')

  -- `for utxo in matured { if utxo_sender.send(utxo).is_err() { return } }`
  pub send_all : List Utxo → Action W Bool
  unfolding send_one
  send_all [] = pure true
  send_all (utxo ∷ utxos) = do
    is_sent ← send_one utxo
    if is_sent then send_all utxos else pure false

  -- `while let Some(true) = unmatureds.first().map(..)`: what stays, or none if the receiver is gone
  send_matured : ℕ → ℕ → List (ℕ × Utxo) → Action W (Option (List (ℕ × Utxo)))
  unfolding send_one
  send_matured maturity tip [] = pure (some [])
  send_matured maturity tip ((number, utxo) ∷ rest) =
      if is_matured maturity tip number
      then (do
        is_sent ← send_one utxo
        if is_sent then send_matured maturity tip rest else pure none)
      else pure (some ((number, utxo) ∷ rest))

  -- What `pull_forever` does with a new block: the next state, or none if the receiver is gone.
  pub follow_block :
      ℕ → HeaderView → BlockView → Found → List (ℕ × Utxo) → Action W (Option Following)
  unfolding send_all send_matured
  follow_block maturity header block found unmatureds = do
    is_sent ← send_all found.matured
    if is_sent
        then (do
          left ← send_matured maturity header.number unmatureds
          elim left [
            | none ↦ pure none
            | some stay ↦ pure (
                some (record {
                  current_header = header;
                  unmatureds = stay ++ map (λ utxo. (block.number, utxo)) found.unmatured;
                }))
          ])
        else pure none

-- `rollback_for_reorg`; `saturating_sub` is the subtraction of ℕ.
rollback_for_reorg : {W : Type 0} → Inner W → Net → HeaderView → Action W HeaderView
rollback_for_reorg inner net old_header = do
  rpc ← lift (first_endpoint net)
  reply ← Rpc.get_header_by_number inner rpc (old_header.number - 1000)
  lift (unwrap reply "rollback_for_org")

module _ {W : Type 0} (inner : Inner W) (c : Crypto) (host : Host W) (maturity : ℕ)
    (account : Account) (net : Net) where
  -- A header that follows the current one: its block may be gone in a re-organisation.
  pub follow_header : HeaderView → Following → Action W (Option Following)
  unfolding follow_block
  follow_header header following = do
    rpc ← lift (first_endpoint net)
    reply ← Rpc.get_block inner rpc header.hash
    elim reply [
      | none ↦ pure (some following)
      | some block ↦ lift (get_owned_utxos c account block) >>= λ found.
          follow_block host maturity header block found following.unmatureds
    ]

  -- The body of the loop of `pull_forever`; none where it returns.
  pub follow : Following → Action W (Option Following)
  unfolding follow_header rollback_for_reorg
  follow following = do
    found ← get_fixed_header inner net (add_u64 following.current_header.number 1)
    elim found [
      | none ↦ λ w. (ok (some following), host.sleep 500_000 w)
      | some header ↦
          if not (header.parent_hash == following.current_header.hash)
          then (do
            current_header ← rollback_for_reorg inner net following.current_header
            pure (some (record following { current_header = current_header })))
          else follow_header header following
    ]

  -- `Account::pull_forever`
  unfoldable pub pull_forever : ℕ → Following → Action W (Unit {0})
  unfolding follow
  pull_forever zero following = lift running
  pull_forever (suc rounds) following = do
    next ← follow following
    elim next [ none ↦ pure tt | some following' ↦ pull_forever rounds following' ]

-- `retry_send`: the transaction is sent again after a second as long as the pool is full; the
-- result is the text of another error. `contains` is `str::contains`.
pub retry_send :
    {W : Type 0}
    → Inner W
    → Host W
    → (String → String → Bool)
    → Jsonrpc
    → TransactionView
    → ℕ
    → Action W (Option String)
retry_send inner host contains rpc tx zero w = (running, w)
retry_send inner host contains rpc tx (suc rounds) w =
    let (reply, w') = Rpc.send_transaction_result inner rpc tx w in
    elim reply [
      | answer hash ↦ (ok none, w')
      | failed err ↦
          let again = retry_send inner host contains rpc tx rounds (host.sleep 1_000_000 w') in
          if contains err "TransactionPoolFull" || contains err "PoolIsFull"
          then again
          else (ok (some err), w')
    ]
