-- ===== src/Config/Tests.antt =====
-- Tests and witnesses of the module `Config`.
use native.Mathlib.Decide.{ℕ_discrete}
use ckb_bench_archived.Base.{ℕ, ◌≡◌, ◌↔◌, ◌≤◌, refl, List, [], ◌∷◌, ok, Elem, arith}
use ckb_bench_archived.Base.Sorting.{
  sort_by_key, sort_by_key-IsSorted, IsSorted, Elem-sort_by_key, Elem-sort_by_key_inv,
}
use ckb_bench_archived.Samples.{small_spec, sources, globals_before}
use ckb_bench_archived.Config.{
  loaded, failed, load, spec_of, apply_spec, new, outputs_count, in3_out3,
}
use ckb_bench_archived.Config.Urls.{IsSort, IsDistinct, IsAscending, new-IsDistinct}

load-dev : load sources "dev" globals_before ≡ (
  ok (loaded small_spec),
  record globals_before { cellbase_maturity = 4; confirmation_blocks = 2 },
)
unfolding load spec_of apply_spec
load-dev = refl

load-unknown : load sources "other" globals_before ≡ (ok (failed "no such file"), globals_before)
unfolding load spec_of apply_spec
load-unknown = refl

outputs_count-in3_out3 : outputs_count in3_out3 ≡ 3
unfolding outputs_count
outputs_count-in3_out3 = refl

IsAscending-IsSorted : (urls : List ℕ) → IsSorted (λ n. n) urls → IsAscending ◌≤◌ urls
IsAscending-IsSorted [] h = tt
IsAscending-IsSorted (a ∷ urls) h = (h.0, IsAscending-IsSorted urls h.1)

-- URLs are numbers here.
sort_by_key-IsSort : IsSort ◌≤◌ (sort_by_key (λ n. n))
sort_by_key-IsSort = record {
  antisym = λ a b p q. omega arith;
  ascending = λ urls. IsAscending-IsSorted _ (sort_by_key-IsSorted (λ n. n) urls);
  same = λ a urls. (Elem-sort_by_key_inv (λ n. n) a urls, Elem-sort_by_key (λ n. n) a urls);
}

abbrev given : List ℕ
given = 5 ∷ 3 ∷ 5 ∷ 3 ∷ 4 ∷ []

new-IsDistinct_example :
    IsDistinct (new ℕ_discrete (sort_by_key (λ n. n)) small_spec given).rpc_urls
    × ((x : ℕ)
        → Elem x (new ℕ_discrete (sort_by_key (λ n. n)) small_spec given).rpc_urls ↔ Elem x given)
new-IsDistinct_example =
    new-IsDistinct ℕ_discrete ◌≤◌ (sort_by_key (λ n. n)) sort_by_key-IsSort small_spec given
