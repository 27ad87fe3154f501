-- ===== src/Account/Forever/Conserved.antt =====
-- The loop of `pull_forever` of tps-bench/src/account.rs from any waiting cells, in whatever order
-- they are: a round neither loses a cell nor adds one that is not in the block.
use mathlib.Core.List.{Permᴰ, append_assoc, append-nil}
use mathlib.Core.List.Permᴰ
use mathlib.Core.Path.{subst}
use ckb_bench_archived.Base.{
  ℕ, zero, suc, ◌+◌, ◌≤◌, ◌<◌, ◌≡◌, refl, ap, ◌∙◌, sym, List, [], ◌∷◌, ◌++◌, map, true, inl, inr,
  some, ok, ◌==◌, Bool-cases, u64_mod, add_u64, arith,
}
use ckb_bench_archived.Chain.{Script, HeaderView, BlockView}
use ckb_bench_archived.Crypto.{Crypto}
use ckb_bench_archived.Utxo.{Utxo}
use ckb_bench_archived.Host.{Host}
use ckb_bench_archived.Rpc.{Inner, Jsonrpc}
use ckb_bench_archived.Net.{first_endpoint}
use ckb_bench_archived.Net.Shared.{get_fixed_header-shared}
use ckb_bench_archived.Account.{Account, lock_script}
use ckb_bench_archived.Account.Maturity.{is_matured}
use ckb_bench_archived.Account.Owned.{Found}
use ckb_bench_archived.Account.Owned.Exact.{found_in, get_owned_utxos-found_in}
use ckb_bench_archived.Account.Forever.{
  Following, send_one, send_matured, follow_block, follow_header, follow, pull_forever,
}
use ckb_bench_archived.Account.Forever.Sent.{Receives, cells_of, send_all-sent}
use ckb_bench_archived.Account.Forever.Step.{Shares}
use ckb_bench_archived.Account.Forever.Growth.{
  owned_behind, regrouped, cells_of-append, cells_of-dated,
}

-- After a round: the header that it has come to, and the cells, sent or waiting, which are those
-- from before and the new ones.
pub record IsConserved (header : HeaderView) (before new after : List Utxo)
    (waits : List (ℕ × Utxo)) (next : Following) : Type 0 where
  pub current : next.current_header ≡ header
  pub conserves : Permᴰ (after ++ cells_of next.unmatureds) ((before ++ cells_of waits) ++ new)

module _ {W : Type 0} (host : Host W) (sent : W → List Utxo) (receives : Receives host sent)
    (maturity : ℕ) where
  send_matured-splits :
      (tip : ℕ) (waits : List (ℕ × Utxo)) (w : W)
      → (promoted stay : List (ℕ × Utxo)) × (w' : W) × (send_matured host maturity tip waits w
          ≡ (ok (some stay), w'))
        × (promoted ++ stay ≡ waits)
        × (sent w' ≡ sent w ++ cells_of promoted)
  unfolding send_matured send_one
  send_matured-splits tip [] w = ([], [], w, refl, refl, sym (append-nil (sent w)))
  send_matured-splits tip (e ∷ rest) w = elim (Bool-cases (is_matured maturity tip e.0)) [
    | inl old ↦
        let (w₁, took, one) = receives.takes e.1 w in
        let (promoted, stay, w₂, ran, split, log) = send_matured-splits tip rest w₁ in
        (
          e ∷ promoted,
          stay,
          w₂,
          rw (old, took, ran) refl,
          ap (◌∷◌ e) split,
          log
              ∙ ap (λ l. l ++ cells_of promoted) one
              ∙ append_assoc (sent w) (e.1 ∷ []) (cells_of promoted),
        )
    | inr young ↦ ([], e ∷ rest, w, rw young refl, refl, sym (append-nil (sent w)))
  ]

  -- The cells that are promoted, that stay and that are new, up to their order.
  kept_perm :
      (n : ℕ) (found : Found) (promoted stay waits : List (ℕ × Utxo)) (before after : List Utxo)
      → promoted ++ stay ≡ waits
      → after ≡ (before ++ found.matured) ++ cells_of promoted
      → Permᴰ
          (after ++ cells_of (stay ++ map (λ u. (n, u)) found.unmatured))
          ((before ++ cells_of waits) ++ (found.matured ++ found.unmatured))
  kept_perm n found promoted stay waits before after split log =
      let waiting : cells_of (stay ++ map (λ u. (n, u)) found.unmatured)
          ≡ cells_of stay ++ found.unmatured =
        cells_of-append stay _ ∙ ap (λ l. cells_of stay ++ l) (cells_of-dated n found.unmatured) in
      let waited : cells_of waits ≡ cells_of promoted ++ cells_of stay =
        ap cells_of (sym split) ∙ cells_of-append promoted stay in
      rw (waiting, waited, log)
        (regrouped before found.matured (cells_of promoted) (cells_of stay) found.unmatured)

  follow_block-conserves :
      (header : HeaderView) (block : BlockView) (found : Found) (waits : List (ℕ × Utxo)) (w : W)
      → (next : Following) × (w' : W) × (follow_block host maturity header block found waits w
          ≡ (ok (some next), w'))
        × IsConserved header (sent w) (found.matured ++ found.unmatured) (sent w') waits next
  unfolding follow_block
  follow_block-conserves header block found waits w =
      let (w₁, ran, log) = send_all-sent host sent receives found.matured w in
      let (promoted, stay, w₂, ran', split, log') = send_matured-splits header.number waits w₁ in
      (
        record {
          current_header = header;
          unmatureds = stay ++ map (λ u. (block.number, u)) found.unmatured;
        },
        w₂,
        rw (ran, ran') refl,
        record {
          current = refl;
          conserves =
              kept_perm block.number found promoted stay waits (sent w) (sent w₂) split
                (log' ∙ ap (λ l. l ++ cells_of promoted) log);
        },
      )

module _ {W : Type 0} (inner : Inner W) (c : Crypto) (host : Host W) (maturity : ℕ)
    (account : Account) (rpc : Jsonrpc) (rpcs : List Jsonrpc) (chain : ℕ → BlockView) (tip : ℕ)
    (sent : W → List Utxo) (lock : Script) (known : lock_script c account ≡ ok lock)
    (receives : Receives host sent) (shares : Shares inner rpc rpcs chain tip sent)
    (fits : tip < u64_mod) where
  -- The cells of the account in a block.
  abbrev owned_in : ℕ → List Utxo
  owned_in n = let found = found_in lock (chain n).transactions in found.matured ++ found.unmatured

  follow_header-conserves :
      (n : ℕ) (following : Following) (w : W)
      → n ≤ tip
      → (next : Following) × (w' : W) × (follow_header inner c host maturity account
            (record { endpoints = rpc ∷ rpcs })
            (chain n).header
            following
            w
          ≡ (ok (some next), w'))
        × IsConserved (chain n).header (sent w) (owned_in n) (sent w') following.unmatureds next
  unfolding follow_header first_endpoint
  follow_header-conserves n following w le =
      let (w₁, has, same) = shares.blocks n w le in
      let (next, w₂, ran, conserved) =
        follow_block-conserves host sent receives maturity (chain n).header (chain n)
          (found_in lock (chain n).transactions) following.unmatureds w₁ in
      (
        next,
        w₂,
        rw (has, get_owned_utxos-found_in c account (chain n) known, ran) refl,
        rw (← same) conserved,
      )

  follow-conserves :
      (n : ℕ) (following : Following) (w : W)
      → n + 1 ≤ tip
      → following.current_header ≡ (chain n).header
      → (next : Following) × (w' : W) × (follow inner c host maturity account
            (record { endpoints = rpc ∷ rpcs })
            following
            w
          ≡ (ok (some next), w'))
        × IsConserved
            (chain (n + 1)).header
            (sent w)
            (owned_in (n + 1))
            (sent w')
            following.unmatureds
            next
  unfolding follow
  follow-conserves n following w le at =
      let (w₁, fixed, same) =
        get_fixed_header-shared inner sent (n + 1) (chain (n + 1)).header rpc rpcs w
          (shares.headers (n + 1) le) in
      let (next, w₂, ran, conserved) = follow_header-conserves (n + 1) following w₁ le in
      let number : following.current_header.number ≡ n =
        ap (λ h. h.number) at ∙ shares.numbered n (omega arith) in
      let above : add_u64 following.current_header.number 1 ≡ n + 1 = omega (arith, number) in
      let link : (chain (n + 1)).header.parent_hash ≡ following.current_header.hash =
        shares.linked n le ∙ sym (ap (λ h. h.hash) at) in
      let child : ((chain (n + 1)).header.parent_hash == following.current_header.hash) ≡ true =
        ground arith in
      (next, w₂, rw (above, fixed, child) ran, rw (← same) conserved)

  -- Whatever waits: `pull_forever` follows any number of blocks up to the tip, one in each round,
  -- and no cell is lost or added.
  pub pull_forever-conserves :
      (k n rounds : ℕ) (following : Following) (w : W)
      → k + n ≤ tip
      → following.current_header ≡ (chain n).header
      → (next : Following) × (w' : W) × (pull_forever inner c host maturity account
            (record { endpoints = rpc ∷ rpcs })
            (k + rounds)
            following
            w
          ≡ pull_forever inner c host maturity account
              (record { endpoints = rpc ∷ rpcs })
              rounds
              next
              w')
        × IsConserved
            (chain (k + n)).header
            (sent w)
            (owned_behind lock chain n k)
            (sent w')
            following.unmatureds
            next
  unfolding pull_forever owned_behind
  pull_forever-conserves zero n rounds following w le at =
      let none : 0 + rounds ≡ rounds = omega arith in
      let here : 0 + n ≡ n = omega arith in
      (
        following,
        w,
        rw none refl,
        record { current = rw here at; conserves = rw append-nil (Permᴰ.refl _) },
      )
  pull_forever-conserves (suc k) n rounds following w le at =
      let (next, w₁, ran, one) = follow-conserves n following w (omega arith) at in
      let (last, w₂, ran₂, more) =
        pull_forever-conserves k (n + 1) rounds next w₁ (omega arith) one.current in
      let there : k + (n + 1) ≡ suc k + n = omega arith in
      let step : suc k + rounds ≡ suc (k + rounds) = omega arith in
      let rest = owned_behind lock chain (n + 1) k in
      (
        last,
        w₂,
        rw (step, ran) ran₂,
        record {
          current = subst (λ m. last.current_header ≡ (chain m).header) there more.current;
          conserves =
              subst (Permᴰ (sent w₂ ++ cells_of last.unmatureds))
                (append_assoc (sent w ++ cells_of following.unmatureds) (owned_in (n + 1)) rest)
                (Permᴰ.trans more.conserves (Permᴰ.append_right rest one.conserves));
        },
      )
