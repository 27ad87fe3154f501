-- ===== src/Account/Pull/Until.antt =====
-- `pull_until` returns exactly the unspent cells of the account.
use ckb_bench_archived.Base.{ℕ, suc, ◌≡◌, refl, ◌↔◌, some, ok, Returns, arith}
use ckb_bench_archived.Chain.{
  OutPoint, CellOutput, Script, HeaderView, BlockView, OutPoint-discrete,
}
use ckb_bench_archived.Crypto.{Crypto}
use ckb_bench_archived.HashMap.{get}
use ckb_bench_archived.HashMap.Replay.{replay-IsLive, IsLive-replay}
use ckb_bench_archived.Rpc.Answers.{Serves}
use ckb_bench_archived.Rpc.{Inner, Jsonrpc}
use ckb_bench_archived.Account.{Account, lock_script}
use ckb_bench_archived.Account.Pull.{Cells, pull_until}
use ckb_bench_archived.Account.Pull.Rounds.{
  created_matured, created_unmatured, removed, cells_at, pull_until-cells_at,
}
use ckb_bench_archived.Account.Pull.Live.{
  IsSpendable, IsMaturing, UniquePoints, created_matured_inv, Elem-created_matured,
  created_unmatured_inv, Elem-created_unmatured, matured-ComeOnce, unmatured-ComeOnce,
}

module _ (maturity until : ℕ) (lock : Script) (chain : ℕ → BlockView) where
  -- Exactly the cells that can be spent are in the one map, exactly those that are maturing in the
  -- other, with the numbers of their blocks.
  pub record IsPulled (cells : Cells) : Type 0 where
    pub spendable :
        (point : OutPoint) (output : CellOutput)
        → (get OutPoint-discrete point cells.utxoset ≡ some output)
          ↔ IsSpendable maturity until lock chain point output
    pub maturing :
        (point : OutPoint) (number : ℕ) (output : CellOutput)
        → (get OutPoint-discrete point cells.unmatureds ≡ some (number, output))
          ↔ IsMaturing maturity until lock chain point number output

  cells_at-IsPulled :
      UniquePoints maturity until lock chain
      → IsPulled (cells_at maturity until lock chain (suc until))
  unfolding cells_at
  cells_at-IsPulled unique = record {
    spendable = λ point output. (
      λ h.
          let l =
            replay-IsLive OutPoint-discrete (created_matured maturity until lock chain)
              (removed maturity until lock chain) (suc until) point output h in
          (
            l.round,
            record {
              reached = omega (arith, l.done);
              unspent = λ m le lt. l.stayed m le (omega arith);
            },
            created_matured_inv maturity until lock chain l.round point output l.came,
          ),
      λ (n, u, made).
          IsLive-replay OutPoint-discrete (created_matured maturity until lock chain)
            (removed maturity until lock chain) (suc until) point output
            (matured-ComeOnce maturity until lock chain unique)
            (record {
              round = n;
              done = omega (arith, u.reached);
              came = Elem-created_matured maturity until lock chain n point output made;
              stayed = λ m le lt. u.unspent m le (omega arith);
            }),
    );
    maturing = λ point number output. (
      λ h.
          let l =
            replay-IsLive OutPoint-discrete (created_unmatured maturity until lock chain)
              (removed maturity until lock chain) (suc until) point (number, output) h in
          let (at, young, mined) =
            created_unmatured_inv maturity until lock chain l.round point number output l.came in
          (
            l.round,
            record {
              reached = omega (arith, l.done);
              unspent = λ m le lt. l.stayed m le (omega arith);
            },
            at,
            young,
            mined,
          ),
      λ (n, u, at, young, mined).
          IsLive-replay OutPoint-discrete (created_unmatured maturity until lock chain)
            (removed maturity until lock chain) (suc until) point (number, output)
            (unmatured-ComeOnce maturity until lock chain unique)
            (record {
              round = n;
              done = omega (arith, u.reached);
              came =
                  rw at
                    (Elem-created_unmatured maturity until lock chain n point output young mined);
              stayed = λ m le lt. u.unspent m le (omega arith);
            }),
    );
  }

-- If the node answers with the chain's blocks up to the header's number, and no out point is made
-- twice in them, then `pull_until` returns, with exactly the unspent cells of the account: those
-- that can be spent at that number, and those that are maturing.
pub pull_until-IsPulled :
    {W : Type 0} (inner : Inner W) (c : Crypto) (maturity : ℕ) (account : Account) {lock : Script}
    (rpc : Jsonrpc) (until_header : HeaderView) (chain : ℕ → BlockView) (w : W)
    → lock_script c account ≡ ok lock
    → Serves inner rpc chain until_header.number
    → UniquePoints maturity until_header.number lock chain
    → Returns
        (pull_until inner c maturity account rpc until_header w).0
        (IsPulled maturity until_header.number lock chain)
pull_until-IsPulled inner c maturity account {lock} rpc until_header chain w known serves unique =
    let until = until_header.number in
    let (w', ran) =
      pull_until-cells_at inner c maturity account rpc until chain known serves until_header w
        refl in
    rw ran (cells_at-IsPulled maturity until lock chain unique)
