-- ===== src/Net/Shared.antt =====
-- `get_fixed_header` of tps-bench/src/net.rs at a number at which all nodes have the same header.
use ckb_bench_archived.Base.{ℕ, ◌≡◌, refl, ◌∙◌, List, [], ◌∷◌, true, some, ok, inl, inr, Elem}
use ckb_bench_archived.Chain.{HeaderView}
use ckb_bench_archived.Rpc.{Inner, Jsonrpc, answer}
use ckb_bench_archived.Net.{first_endpoint, all_agree, confirm_with, get_fixed_header}
use ckb_bench_archived.Net.Agreement.{same_header_self}

-- Every one of the nodes answers with this header, which changes nothing that is observed.
abbrev pub Share : {W O : Type 0} → Inner W → (W → O) → List Jsonrpc → ℕ → HeaderView → Type 0
Share {W} inner seen rpcs number header =
    (rpc : Jsonrpc) (w : W)
    → Elem rpc rpcs
    → (w' : W) × (inner.get_header_by_number rpc.uri number w ≡ (answer (some header), w'))
      × (seen w' ≡ seen w)

module _ {W O : Type 0} (inner : Inner W) (seen : W → O) (number : ℕ) (header : HeaderView) where
  all_agree-shared :
      (rpcs : List Jsonrpc) (w : W)
      → Share inner seen rpcs number header
      → (w' : W) × (all_agree inner number header rpcs w ≡ (ok true, w')) × (seen w' ≡ seen w)
  unfolding all_agree
  all_agree-shared [] w share = (w, refl, refl)
  all_agree-shared (rpc ∷ rpcs) w share =
      let (w₁, has, same₁) = share rpc w (inl refl) in
      let (w₂, agree, same₂) = all_agree-shared rpcs w₁ (λ r v here. share r v (inr here)) in
      (w₂, rw (has, same_header_self header, agree) refl, same₂ ∙ same₁)

  pub get_fixed_header-shared :
      (rpc : Jsonrpc) (rpcs : List Jsonrpc) (w : W)
      → Share inner seen (rpc ∷ rpcs) number header
      → (w' : W) × (get_fixed_header inner (record { endpoints = rpc ∷ rpcs }) number w
          ≡ (ok (some header), w'))
        × (seen w' ≡ seen w)
  unfolding get_fixed_header first_endpoint confirm_with
  get_fixed_header-shared rpc rpcs w share =
      let (w₁, has, same₁) = share rpc w (inl refl) in
      let (w₂, agree, same₂) = all_agree-shared rpcs w₁ (λ r v here. share r v (inr here)) in
      (w₂, rw (has, agree) refl, same₂ ∙ same₁)
