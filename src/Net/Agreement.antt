-- ===== src/Net/Agreement.antt =====
-- `get_fixed_header` of tps-bench/src/net.rs finds the headers on which all nodes agree.
use Prim.Native.String.{String}
use ckb_bench_archived.Base.{
  ℕ, List, [], ◌∷◌, Bool, true, false, Option, none, some, ok, ◌≡◌, refl, ap, ◌∙◌, ◌↔◌, inl, inr,
  Returns, Option-cases, Bool-cases, All, arith, if◌then◌else◌,
}
use ckb_bench_archived.Chain.{HeaderView}
use ckb_bench_archived.Rpc.{Inner, Jsonrpc, answer}
use ckb_bench_archived.Net.{first_endpoint, same_header, all_agree, confirm_with, get_fixed_header}

-- The headers that the nodes have, by URI and number.
abbrev pub Views : Type 0
Views = String → ℕ → Option HeaderView

-- Every node answers with its headers, in every state of the world.
abbrev pub Shows : {W : Type 0} → Inner W → Views → Type 0
Shows {W} inner views =
    (w : W) (uri : String) (number : ℕ)
    → (w' : W) × (inner.get_header_by_number uri number w ≡ (answer (views uri number), w'))

-- All of the nodes have this header at the number.
abbrev pub AllHave : Views → ℕ → HeaderView → List Jsonrpc → Type 0
AllHave views number header = All (λ rpc. views rpc.uri number ≡ some header)

agree : Views → ℕ → HeaderView → List Jsonrpc → Bool
unfolding same_header
agree views number header [] = true
agree views number header (rpc ∷ rpcs) =
    if same_header header (views rpc.uri number) then agree views number header rpcs else false

same_header-some : (h header : HeaderView) → same_header header (some h) ≡ true → h ≡ header
unfolding same_header
same_header-some h header e = ground arith

pub same_header_self : (header : HeaderView) → same_header header (some header) ≡ true
unfolding same_header
same_header_self header = ground arith

same_header_inv :
    (header : HeaderView) (o : Option HeaderView) → same_header header o ≡ true → o ≡ some header
same_header_inv header none e = absurd (unfold same_header in cc)
same_header_inv header (some h) e = ap some (same_header-some h header e)

agree-AllHave :
    (views : Views) (number : ℕ) (header : HeaderView) (rpcs : List Jsonrpc)
    → agree views number header rpcs ≡ true
    → AllHave views number header rpcs
unfolding agree
agree-AllHave views number header [] h = tt
agree-AllHave views number header (rpc ∷ rpcs) h =
    elim (Bool-cases (same_header header (views rpc.uri number))) [
      | inl same ↦
          (same_header_inv header _ same, agree-AllHave views number header rpcs (rw same at h))
      | inr differs ↦ absurd (ground arith)
    ]

AllHave-agree :
    (views : Views) (number : ℕ) (header : HeaderView) (rpcs : List Jsonrpc)
    → AllHave views number header rpcs
    → agree views number header rpcs ≡ true
unfolding agree
AllHave-agree views number header [] h = refl
AllHave-agree views number header (rpc ∷ rpcs) h =
    rw (h.0, same_header_self header) (AllHave-agree views number header rpcs h.1)

confirm : Views → ℕ → List Jsonrpc → Option HeaderView → Option HeaderView
confirm views number rpcs none = none
confirm views number rpcs (some header) =
    if agree views number header rpcs then some header else none

-- What `get_fixed_header` returns, by the nodes' headers.
pub fixed_at : Views → ℕ → Jsonrpc → List Jsonrpc → Option HeaderView
unfolding confirm
fixed_at views number rpc rpcs = confirm views number rpcs (views rpc.uri number)

pub fixed_at-AllHave :
    (views : Views) (number : ℕ) (rpc : Jsonrpc) (rpcs : List Jsonrpc) (header : HeaderView)
    → (fixed_at views number rpc rpcs ≡ some header) ↔ AllHave views number header (rpc ∷ rpcs)
unfolding fixed_at
fixed_at-AllHave views number rpc rpcs header = (
  λ h. elim (Option-cases (views rpc.uri number)) [
    | inl missing ↦ absurd (ground arith)
    | inr (first, e) ↦ elim (Bool-cases (agree views number first rpcs)) [
      | inl all ↦
          let same : first ≡ header = ground arith in
          (e ∙ ap some same, rw same at (agree-AllHave views number first rpcs all))
      | inr differ ↦ absurd (ground arith)
    ]
  ],
  λ (first, rest). ground (arith, AllHave-agree views number header rpcs rest),
)

module _ {W : Type 0} (inner : Inner W) (views : Views) (shows : Shows inner views) where
  all_agree-agree :
      (number : ℕ) (header : HeaderView) (rpcs : List Jsonrpc) (w : W)
      → (w' : W) × (all_agree inner number header rpcs w
          ≡ (ok (agree views number header rpcs), w'))
  unfolding all_agree agree
  all_agree-agree number header [] w = (w, refl)
  all_agree-agree number header (rpc ∷ rpcs) w =
      let (w', shown) = shows w rpc.uri number in
      elim (Bool-cases (same_header header (views rpc.uri number))) [
        | inl same ↦
            let (w'', rest) = all_agree-agree number header rpcs w' in (w'', rw (shown, same) rest)
        | inr differs ↦ (w', rw (shown, differs) refl)
      ]

  pub get_fixed_header-fixed_at :
      (number : ℕ) (rpc : Jsonrpc) (rpcs : List Jsonrpc) (w : W)
      → (w' : W) × (get_fixed_header inner (record { endpoints = rpc ∷ rpcs }) number w
          ≡ (ok (fixed_at views number rpc rpcs), w'))
  unfolding get_fixed_header first_endpoint confirm_with fixed_at
  get_fixed_header-fixed_at number rpc rpcs w =
      let (w', shown) = shows w rpc.uri number in
      elim (Option-cases (views rpc.uri number)) [
        | inl missing ↦ (w', rw (shown, missing) refl)
        | inr (header, e) ↦
            let (w'', agreed) = all_agree-agree number header rpcs w' in
            (w'', rw (shown, e, agreed) refl)
      ]

  -- With nodes that keep their headers, the call returns; it returns a header exactly if all nodes
  -- have that header at the number.
  pub get_fixed_header-AllHave :
      (number : ℕ) (rpc : Jsonrpc) (rpcs : List Jsonrpc) (w : W)
      → Returns (get_fixed_header inner (record { endpoints = rpc ∷ rpcs }) number w).0 (λ found.
        (header : HeaderView) → (found ≡ some header) ↔ AllHave views number header (rpc ∷ rpcs))
  get_fixed_header-AllHave number rpc rpcs w =
      let (w', ran) = get_fixed_header-fixed_at number rpc rpcs w in
      rw ran (fixed_at-AllHave views number rpc rpcs)
