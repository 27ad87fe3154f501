-- ===== src/Account/Forever/Sent.antt =====
-- What `pull_forever` of tps-bench/src/account.rs sends for a new block, and what it keeps.
use ckb_bench_archived.Base.{
  ℕ, ◌+◌, ◌*◌, ◌≤◌, ◌<◌, ◌≡◌, refl, ap, ◌∙◌, sym, List, [], ◌∷◌, ◌++◌, map, true, false, some, inl,
  inr, ok, Bool-cases, u64_mod, All, arith,
}
use mathlib.Core.List.{append_assoc, append-nil}
use mathlib.Core.Path.{subst⁻¹}
use mathlib.Core.Bool.{true≢false}
use ckb_bench_archived.Base.Sorting.{IsSorted}
use ckb_bench_archived.Chain.{HeaderView, BlockView}
use ckb_bench_archived.Utxo.{Utxo}
use ckb_bench_archived.Host.{Host}
use ckb_bench_archived.Account.Maturity.{is_matured}
use ckb_bench_archived.Account.Owned.{Found}
use ckb_bench_archived.Account.PullFrom.Promotion.{is_matured_mono}
use ckb_bench_archived.Account.Forever.{Following, send_one, send_all, send_matured, follow_block}

-- The receiver is there, and takes every cell: `sent` is what it has taken so far.
pub record Receives {W : Type 0} (host : Host W) (sent : W → List Utxo) : Type 0 where
  pub takes :
      (utxo : Utxo) (w : W)
      → (w' : W) × (host.send_utxo utxo w ≡ (true, w')) × (sent w' ≡ sent w ++ utxo ∷ [])

abbrev pub cells_of : List (ℕ × Utxo) → List Utxo
cells_of = map (λ e. e.1)

-- The state and the channel after a block: `promoted` are the first of the cells that waited, all
-- matured, and none of the cells that stay is matured. The waiting cells are in the order of their
-- blocks, none of which lies above the block.
pub record IsFollowed (maturity : ℕ) (header : HeaderView) (block : BlockView) (found : Found)
    (unmatureds : List (ℕ × Utxo)) (before after : List Utxo) (next : Following) : Type 0 where
  pub promoted : List (ℕ × Utxo)
  pub stay : List (ℕ × Utxo)
  pub split : promoted ++ stay ≡ unmatureds
  pub sent : after ≡ (before ++ found.matured) ++ cells_of promoted
  pub matured : All (λ e. is_matured maturity header.number e.0 ≡ true) promoted
  pub not_matured : All (λ e. is_matured maturity header.number e.0 ≡ false) stay
  pub kept : next.unmatureds ≡ stay ++ map (λ utxo. (block.number, utxo)) found.unmatured
  pub in_order : IsSorted (λ e. e.0) next.unmatureds
  pub not_above : All (λ e. e.0 ≤ block.number) next.unmatureds
  pub current : next.current_header ≡ header

module _ {A : Type 0} where
  All-append_right : (P : A → Type 0) (xs ys : List A) → All P (xs ++ ys) → All P ys
  All-append_right P [] ys h = h
  All-append_right P (x ∷ xs) ys h = All-append_right P xs ys h.1

  pub All-append : (P : A → Type 0) (xs ys : List A) → All P xs → All P ys → All P (xs ++ ys)
  All-append P [] ys h h' = h'
  All-append P (x ∷ xs) ys h h' = (h.0, All-append P xs ys h.1 h')

  IsSorted-append_right : (key : A → ℕ) (xs ys : List A) → IsSorted key (xs ++ ys) → IsSorted key ys
  IsSorted-append_right key [] ys h = h
  IsSorted-append_right key (x ∷ xs) ys h = IsSorted-append_right key xs ys h.1

  IsSorted-append :
      (key : A → ℕ) (n : ℕ) (xs ys : List A)
      → IsSorted key xs
      → All (λ x. key x ≤ n) xs
      → IsSorted key ys
      → All (λ y. n ≤ key y) ys
      → IsSorted key (xs ++ ys)
  IsSorted-append key n [] ys h low h' high = h'
  IsSorted-append key n (x ∷ xs) ys h low h' high = (
    All-append (λ y. key x ≤ key y) xs ys h.0 (raise ys high),
    IsSorted-append key n xs ys h.1 low.1 h' high,
  )
    where
      raise : (zs : List A) → All (λ y. n ≤ key y) zs → All (λ y. key x ≤ key y) zs
      raise [] up = tt
      raise (z ∷ zs) up = (omega (arith, low.0, up.0), raise zs up.1)

-- Cells of one block are in order.
dated : ℕ → List Utxo → List (ℕ × Utxo)
dated n = map (λ utxo. (n, utxo))

dated-IsSorted :
    (n : ℕ) (us : List Utxo)
    → IsSorted (λ e. e.0) (dated n us)
      × All (λ e. n ≤ e.0) (dated n us)
      × All (λ e. e.0 ≤ n) (dated n us)
unfolding dated
dated-IsSorted n [] = (tt, tt, tt)
dated-IsSorted n (u ∷ us) =
    let (sorted, above, below) = dated-IsSorted n us in
    ((above, sorted), (omega arith, above), (omega arith, below))

module _ {W : Type 0} (host : Host W) (sent : W → List Utxo) (receives : Receives host sent) where
  pub send_all-sent :
      (utxos : List Utxo) (w : W)
      → (w' : W) × (send_all host utxos w ≡ (ok true, w')) × (sent w' ≡ sent w ++ utxos)
  unfolding send_all send_one
  send_all-sent [] w = (w, refl, sym (append-nil (sent w)))
  send_all-sent (u ∷ us) w =
      let (w₁, took, one) = receives.takes u w in
      let (w₂, took_all, rest) = send_all-sent us w₁ in
      (
        w₂,
        rw (took, took_all) refl,
        rest ∙ ap (λ l. l ++ us) one ∙ append_assoc (sent w) (u ∷ []) us,
      )

  module _ (maturity tip : ℕ) where
    abbrev IsOld : ℕ × Utxo → Type 0
    IsOld e = is_matured maturity tip e.0 ≡ true

    abbrev IsYoung : ℕ × Utxo → Type 0
    IsYoung e = is_matured maturity tip e.0 ≡ false

    -- Behind a cell that is not matured none is.
    none_matured :
        (n : ℕ) (rest : List (ℕ × Utxo))
        → is_matured maturity tip n ≡ false
        → All (λ e. n ≤ e.0) rest
        → All (λ e. e.0 + 1800 * maturity < u64_mod) rest
        → All IsYoung rest
    none_matured n [] young le fits = tt
    none_matured n (e ∷ rest) young le fits = (
      elim (Bool-cases (is_matured maturity tip e.0)) [
        | inl old ↦
            absurd (true≢false (sym (is_matured_mono maturity tip n e.0 le.0 fits.0 old) ∙ young))
        | inr new ↦ new
      ],
      none_matured n rest young le.1 fits.1,
    )

    send_matured-sent :
        (unmatureds : List (ℕ × Utxo)) (w : W)
        → IsSorted (λ e. e.0) unmatureds
        → All (λ e. e.0 + 1800 * maturity < u64_mod) unmatureds
        → (promoted stay : List (ℕ × Utxo)) × (w' : W) × (send_matured host maturity tip unmatureds
              w
            ≡ (ok (some stay), w'))
          × (promoted ++ stay ≡ unmatureds)
          × (sent w' ≡ sent w ++ cells_of promoted)
          × All IsOld promoted
          × All IsYoung stay
    unfolding send_matured send_one
    send_matured-sent [] w sorted fits = ([], [], w, refl, refl, sym (append-nil (sent w)), tt, tt)
    send_matured-sent (e ∷ rest) w sorted fits = elim (Bool-cases (is_matured maturity tip e.0)) [
      | inl old ↦
          let (w₁, took, one) = receives.takes e.1 w in
          let (promoted, stay, w₂, ran, split, log, olds, youngs) =
            send_matured-sent rest w₁ sorted.1 fits.1 in
          (
            e ∷ promoted,
            stay,
            w₂,
            rw (old, took, ran) refl,
            ap (◌∷◌ e) split,
            log
                ∙ ap (λ l. l ++ cells_of promoted) one
                ∙ append_assoc (sent w) (e.1 ∷ []) (cells_of promoted),
            (old, olds),
            youngs,
          )
      | inr young ↦ (
        [],
        e ∷ rest,
        w,
        rw young refl,
        refl,
        sym (append-nil (sent w)),
        tt,
        (young, none_matured e.0 rest young sorted.0 fits.1),
      )
    ]

  -- If the receiver takes every cell, the waiting cells are in the order of their blocks, none of
  -- which lies above the new block, and their numbers and the maturity do not leave a `u64`, then
  -- for a new block the cells that can be spent are sent, followed by all waiting cells that have
  -- matured; the others wait on, with the block's cells of the cellbase behind them, in order.
  pub follow_block-IsFollowed :
      (maturity : ℕ) (header : HeaderView) (block : BlockView) (found : Found)
      (unmatureds : List (ℕ × Utxo)) (w : W)
      → IsSorted (λ e. e.0) unmatureds
      → All (λ e. e.0 ≤ block.number) unmatureds
      → All (λ e. e.0 + 1800 * maturity < u64_mod) unmatureds
      → (next : Following) × (w' : W) × (follow_block host maturity header block found unmatureds w
          ≡ (ok (some next), w'))
        × IsFollowed maturity header block found unmatureds (sent w) (sent w') next
  unfolding follow_block dated
  follow_block-IsFollowed maturity header block found unmatureds w sorted low fits =
      let (w₁, ran, log) = send_all-sent found.matured w in
      let (promoted, stay, w₂, ran', split, log', olds, youngs) =
        send_matured-sent maturity header.number unmatureds w₁ sorted fits in
      let new = dated block.number found.unmatured in
      let (new_sorted, above, below) = dated-IsSorted block.number found.unmatured in
      let stay_low =
        All-append_right (λ e. e.0 ≤ block.number) promoted stay
          (subst⁻¹ (All (λ e. e.0 ≤ block.number)) split low) in
      let stay_sorted =
        IsSorted-append_right (λ e. e.0) promoted stay
          (subst⁻¹ (IsSorted (λ e. e.0)) split sorted) in
      (
        record { current_header = header; unmatureds = stay ++ new },
        w₂,
        rw (ran, ran') refl,
        record {
          promoted = promoted;
          stay = stay;
          split = split;
          sent = log' ∙ ap (λ l. l ++ cells_of promoted) log;
          matured = olds;
          not_matured = youngs;
          kept = refl;
          in_order =
              IsSorted-append (λ e. e.0) block.number stay new stay_sorted stay_low new_sorted
                above;
          not_above = All-append (λ e. e.0 ≤ block.number) stay new stay_low below;
          current = refl;
        },
      )
