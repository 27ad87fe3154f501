-- ===== src/Net/Confirmed.antt =====
-- The tip of tps-bench/src/net.rs: the highest block on which all nodes agree, and the block that
-- lies the confirmation blocks below it.
use Prim.Native.String.{String}
use ckb_bench_archived.Base.{
  ℕ, zero, suc, ◌-◌, ◌≤◌, ◌<◌, List, ◌∷◌, some, ok, ◌≡◌, refl, inl, inr, Returns, Option-cases,
  arith,
}
use mathlib.Core.Path.{sym, subst}
use native.Mathlib.Decide.{ℕ_discrete}
use ckb_bench_archived.Chain.{HeaderView}
use ckb_bench_archived.Rpc.{Inner, Jsonrpc, answer}
use ckb_bench_archived.Net.{
  Net, first_endpoint, scan_down, get_unconfirmed_fixed_tip_header, get_confirmed_tip_header,
}
use ckb_bench_archived.Net.Agreement.{
  Views, Shows, AllHave, fixed_at, fixed_at-AllHave, get_fixed_header-fixed_at,
}

module _ (views : Views) (rpcs : List Jsonrpc) where
  -- The highest number up to a tip at which all nodes have the same header.
  pub record IsHighest (tip number : ℕ) (header : HeaderView) : Type 0 where
    pub reached : number ≤ tip
    pub agreed : AllHave views number header rpcs
    pub highest : (m : ℕ) (h : HeaderView) → number < m → m ≤ tip → ¬ AllHave views m h rpcs

  higher_tip :
      {tip number : ℕ} {header : HeaderView}
      → ((h : HeaderView) → ¬ AllHave views (suc tip) h rpcs)
      → IsHighest tip number header
      → IsHighest (suc tip) number header
  higher_tip {tip} none_above i = record {
    reached = omega (arith, i.reached);
    agreed = i.agreed;
    highest = λ m h lt le. elim (ℕ_discrete m (suc tip)) [
      | yes e ↦ rw e (none_above h)
      | no ne ↦ i.highest m h lt (omega arith)
    ];
  }

  AllHave-subst :
      (header : HeaderView) {k n : ℕ}
      → k ≡ n
      → AllHave views n header rpcs
      → AllHave views k header rpcs
  AllHave-subst header e h = subst (λ i. AllHave views i header rpcs) (sym e) h

  -- What the nodes have in common: each header carries its number, and as a header commits to its
  -- parent, nodes that agree at a number agree below it; they have the same genesis block.
  pub record IsConsistent : Type 0 where
    pub genesis : HeaderView
    pub genesis_agreed : AllHave views 0 genesis rpcs
    pub numbered :
        (uri : String) (number : ℕ) (header : HeaderView)
        → views uri number ≡ some header
        → header.number ≡ number
    pub ancestors :
        (n m : ℕ) (header : HeaderView)
        → m ≤ n
        → AllHave views n header rpcs
        → (h : HeaderView) × AllHave views m h rpcs

  -- A header on which all nodes agree, the confirmation blocks below the highest such header.
  pub record IsConfirmed (tip confirmation_blocks : ℕ) (header : HeaderView) : Type 0 where
    pub fixed : HeaderView
    pub fixed_number : ℕ
    pub is_highest : IsHighest tip fixed_number fixed
    pub number : header.number ≡ fixed_number - confirmation_blocks
    pub agreed : AllHave views header.number header rpcs

module _ {W : Type 0} (inner : Inner W) (views : Views) (shows : Shows inner views) (rpc : Jsonrpc)
    (rpcs : List Jsonrpc) where
  abbrev net : Net
  net = record { endpoints = rpc ∷ rpcs }

  scan_down-IsHighest :
      {genesis : HeaderView} (tip : ℕ) (w : W)
      → AllHave views 0 genesis (rpc ∷ rpcs)
      → (w' : W) × (header : HeaderView) × (number : ℕ) × (scan_down inner net tip w
          ≡ (ok header, w'))
        × IsHighest views (rpc ∷ rpcs) tip number header
  unfolding scan_down
  scan_down-IsHighest {genesis} zero w common =
      let (w', ran) = get_fixed_header-fixed_at inner views shows zero rpc rpcs w in
      let found : fixed_at views 0 rpc rpcs ≡ some genesis =
        (fixed_at-AllHave views 0 rpc rpcs genesis).1 common in
      (
        w',
        genesis,
        0,
        rw (ran, found) refl,
        record {
          reached = omega arith;
          agreed = common;
          highest = λ m h lt le. absurd (omega arith);
        },
      )
  scan_down-IsHighest (suc tip) w common =
      let (w', ran) = get_fixed_header-fixed_at inner views shows (suc tip) rpc rpcs w in
      elim (Option-cases (fixed_at views (suc tip) rpc rpcs)) [
        | inl missing ↦
            let (w'', header, number, rest, is_highest) = scan_down-IsHighest tip w' common in
            (
              w'',
              header,
              number,
              rw (ran, missing) rest,
              higher_tip views (rpc ∷ rpcs)
                  (λ h all.
                    absurd (ground (arith, (fixed_at-AllHave views (suc tip) rpc rpcs h).1 all)))
                  is_highest,
            )
        | inr (header, found) ↦ (
          w',
          header,
          suc tip,
          rw (ran, found) refl,
          record {
            reached = omega arith;
            agreed = (fixed_at-AllHave views (suc tip) rpc rpcs header).0 found;
            highest = λ m h lt le. absurd (omega arith);
          },
        )
      ]

  -- With consistent nodes that keep their headers, and a tip number of the first node that stays,
  -- the call returns a confirmed header.
  pub get_confirmed_tip_header-IsConfirmed :
      (confirmation_blocks tip : ℕ) (w : W)
      → IsConsistent views (rpc ∷ rpcs)
      → ((v : W) → (v' : W) × (inner.get_tip_block_number rpc.uri v ≡ (answer tip, v')))
      → Returns
          (get_confirmed_tip_header inner confirmation_blocks
            (record { endpoints = rpc ∷ rpcs })
            w).0
          (IsConfirmed views (rpc ∷ rpcs) tip confirmation_blocks)
  unfolding get_confirmed_tip_header get_unconfirmed_fixed_tip_header first_endpoint
  get_confirmed_tip_header-IsConfirmed confirmation_blocks tip w same tip_answer =
      let (w₁, tip_is) = tip_answer w in
      let (w₂, fixed, fixed_number, scanned, is_highest) =
        scan_down-IsHighest tip w₁ same.genesis_agreed in
      let fixed_is : fixed.number ≡ fixed_number =
        same.numbered rpc.uri fixed_number fixed (is_highest.agreed.0) in
      let n = fixed_number - confirmation_blocks in
      let (header, agreed) = same.ancestors fixed_number n fixed (omega arith) is_highest.agreed in
      let header_is : header.number ≡ n = same.numbered rpc.uri n header (agreed.0) in
      let (w₃, shown) = shows w₂ rpc.uri n in
      rw (tip_is, scanned, fixed_is, shown, agreed.0)
        (record {
          fixed = fixed;
          fixed_number = fixed_number;
          is_highest = is_highest;
          number = header_is;
          agreed = AllHave-subst views (rpc ∷ rpcs) header header_is agreed;
        })
