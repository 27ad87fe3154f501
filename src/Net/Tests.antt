-- ===== src/Net/Tests.antt =====
-- Tests and witnesses of the module `Net`.
use Prim.Native.String.{String}
use text.Mathlib.Text.{◌==◌ as str_eq}
use ckb_bench_archived.Base.{
  ℕ, zero, suc, ◌-◌, List, ◌∷◌, [], map, some, none, ok, ◌⊎◌, All, ◌≡◌, ◌↔◌, refl, Returns, leb,
  if◌then◌else◌, arith,
}
use ckb_bench_archived.Chain.{HeaderView, HeaderView-discrete}
use ckb_bench_archived.Rpc.{Inner, Jsonrpc, Handle, accepted, refused, answer}
use ckb_bench_archived.Net.{
  Net, connect_all, get_confirmed_tip_number, stop_at, confirm_with, all_agree, first_endpoint,
  get_fixed_header, scan_down, get_unconfirmed_fixed_tip_header, get_confirmed_tip_header,
}
use ckb_bench_archived.Net.Connected.{IsStopped, connect_all-cases}
use ckb_bench_archived.Net.Agreement.{Views, Shows, AllHave, get_fixed_header-AllHave}
use ckb_bench_archived.Net.Confirmed.{
  IsConsistent, IsConfirmed, get_confirmed_tip_header-IsConfirmed,
}
use ckb_bench_archived.Samples.{dead_node, chain_node, local_rpc, header_at}

-- The nodes have the blocks up to 3, while the first reports a tip of 5.
abbrev nodes : {W : Type 0} → Inner W
nodes = record (chain_node 3) { get_tip_block_number = λ uri w. (answer 5, w) }

abbrev other_rpc : Jsonrpc
other_rpc = record local_rpc { uri = "http://localhost:8115" }

abbrev two_nodes : List Jsonrpc
two_nodes = local_rpc ∷ other_rpc ∷ []

abbrev views : Views
views uri n = if leb n 3 then some (header_at n) else none

nodes-Shows : Shows {W = Unit {0}} nodes views
nodes-Shows w uri n = (w, refl)

nodes-IsConsistent : IsConsistent views two_nodes
nodes-IsConsistent = record {
  genesis = header_at 0;
  genesis_agreed = (refl, (refl, tt));
  numbered = λ uri n header h. ground arith;
  ancestors = λ n m header le all. (header_at m, (ground arith, (ground arith, tt)));
}

get_confirmed_tip_header-two :
    get_confirmed_tip_header nodes 2 (record { endpoints = two_nodes }) (tt {0})
    ≡ (ok (header_at 1), tt)
unfolding get_confirmed_tip_header get_unconfirmed_fixed_tip_header scan_down get_fixed_header
    HeaderView-discrete
get_confirmed_tip_header-two = refl

get_fixed_header-AllHave_example :
    Returns
      (get_fixed_header nodes (record { endpoints = two_nodes }) 2 (tt {0})).0
      (λ found. (header : HeaderView) → (found ≡ some header) ↔ AllHave views 2 header two_nodes)
get_fixed_header-AllHave_example =
    get_fixed_header-AllHave nodes views nodes-Shows 2 local_rpc (other_rpc ∷ []) tt

get_confirmed_tip_header-IsConfirmed_example :
    Returns
      (get_confirmed_tip_header nodes 2 (record { endpoints = two_nodes }) (tt {0})).0
      (IsConfirmed views two_nodes 5 2)
get_confirmed_tip_header-IsConfirmed_example =
    get_confirmed_tip_header-IsConfirmed nodes views nodes-Shows local_rpc (other_rpc ∷ []) 2 5 tt
      nodes-IsConsistent (λ v. (v, refl))

-- A node whose tip is the world, and that answers with a header at every number.
abbrev pub growing_node : Inner ℕ
growing_node = record dead_node {
  get_header_by_number = λ uri number w. (answer (some (header_at number)), w);
  get_tip_block_number = λ uri w. (answer w, w);
}

pub growing_node-tip :
    (rpc : Jsonrpc)
    → (w : ℕ)
    → get_confirmed_tip_number growing_node 0 (record { endpoints = rpc ∷ [] }) w ≡ (ok w, w)
unfolding get_confirmed_tip_number get_confirmed_tip_header get_unconfirmed_fixed_tip_header
    scan_down stop_at get_fixed_header confirm_with all_agree first_endpoint
growing_node-tip rpc zero = refl
growing_node-tip rpc (suc w) = let all : suc w - 0 ≡ suc w = omega arith in rw all refl

abbrev only_local : Handle
only_local uri = if str_eq uri "http://localhost:8114" then accepted else refused

abbrev uris : List String
uris = "http://localhost:8114" ∷ "ftp://localhost" ∷ []

connect_all-cases_example :
    ((net : Net) × (connect_all only_local none none uris ≡ ok net)
      × All (λ uri. only_local uri ≡ accepted) uris
      × (map (λ (r : Jsonrpc). r.uri) net.endpoints ≡ uris))
    ⊎ IsStopped only_local uris (connect_all only_local none none uris)
connect_all-cases_example = connect_all-cases only_local none none uris
