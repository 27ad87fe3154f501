-- ===== src/Config.antt =====
-- tps-bench/src/config.rs: the configuration, its node URLs, and the globals that a spec sets. The
-- TOML parser, the file system and the order of URLs are arguments.
pub mod Urls
pub mod Loading
mod Tests
use Prim.Native.String.{String}
use text.Mathlib.Text.{◌==◌ as str_eq}
use ckb_bench_archived.Base.{
  ℕ, List, [], ◌∷◌, map, Bool, true, false, Option, some, none, Outcome, ok, panic, Action, ite,
  if◌then◌else◌,
}
use ckb_bench_archived.NetMonitor.{MethodToEvalNetStable}

pub data TransactionType : Type 0 where
  in1_out1 in2_out2 in3_out3 : TransactionType

-- `TransactionType::outputs_count`
unfoldable pub outputs_count : TransactionType → ℕ
outputs_count in1_out1 = 1
outputs_count in2_out2 = 2
outputs_count in3_out3 = 3

-- `MinerConfig` of tps-bench/src/miner.rs; `block_time` is in milliseconds.
pub record MinerConfig : Type 0 where
  pub private_key : String
  pub block_time : ℕ

-- The fields of `BenchmarkConfig` of tps-bench/src/benchmark.rs; `send_delay` is in microseconds.
pub record BenchmarkConfig : Type 0 where
  pub transaction_type : TransactionType
  pub send_delay : ℕ
  pub method_to_eval_net_stable : Option MethodToEvalNetStable

pub record Spec : Type 0 where
  pub data_dir : String
  pub bencher_private_key : String
  pub miner : MinerConfig
  pub benchmarks : List BenchmarkConfig
  pub metrics_url : Option String
  pub consensus_cellbase_maturity : ℕ
  pub confirmation_blocks : ℕ
  pub ensure_matured_capacity_greater_than : ℕ
  pub method_to_eval_network_stable : MethodToEvalNetStable

-- `Vec::dedup`: of each run of equal elements the first stays.
module _ {Url : Type 0} (eq : Discrete Url) where
  dedup_behind : Url → List Url → List Url
  dedup_behind a [] = []
  dedup_behind a (b ∷ urls) = ite (eq b a) (dedup_behind a urls) (b ∷ dedup_behind b urls)

  unfoldable pub dedup : List Url → List Url
  unfolding dedup_behind
  dedup [] = []
  dedup (a ∷ urls) = a ∷ dedup_behind a urls

pub record Config (Url : Type 0) : Type 0 where
  pub spec : Spec
  pub open spec use *
  pub rpc_urls : List Url

-- `Config::new`; `sort` is `Vec::sort` by the derived order of `Url`.
unfoldable pub new :
    {Url : Type 0} → Discrete Url → (List Url → List Url) → Spec → List Url → Config Url
new eq sort spec rpc_urls = record { spec = spec; rpc_urls = dedup eq (sort rpc_urls) }

-- `Config::rpc_urls`; `as_str` is that of a URL.
unfoldable pub url_texts : {Url : Type 0} → (Url → String) → Config Url → List String
url_texts as_str config = map as_str config.rpc_urls

-- `Spec::log_path` and `Spec::metrics_path`; `join` is `PathBuf::join`.
module _ (join : String → String → String) (spec : Spec) where
  pub log_path : String
  log_path = join spec.data_dir "bench.log"

  pub metrics_path : String
  metrics_path = join spec.data_dir "metrics.json"

-- The globals of tps-bench/src/global.rs that a spec sets.
pub record Globals : Type 0 where
  pub cellbase_maturity : ℕ
  pub confirmation_blocks : ℕ
  pub method_to_eval_net_stable : MethodToEvalNetStable

-- A `Result` whose error is a text.
pub data Loaded (A : Type 0) : Type 0 where
  loaded : A → Loaded A
  failed : String → Loaded A

-- The three specs that are part of the binary, `toml::from_str`, `read_to_string`, and whether
-- `create_dir_all` makes a directory.
pub record Sources : Type 0 where
  pub staging_spec : String
  pub dev_spec : String
  pub release_spec : String
  pub from_str : String → Loaded Spec
  pub read_to_string : String → Loaded String
  pub create_dir_all : String → Bool

abbrev and_then : {A B : Type 0} → Loaded A → (A → Loaded B) → Loaded B
and_then (loaded a) f = f a
and_then (failed error) f = failed error

-- The `match` of `Spec::load`.
unfoldable pub spec_of : Sources → String → Loaded Spec
spec_of s filepath =
    if str_eq filepath "staging"
    then s.from_str s.staging_spec
    else if str_eq filepath "dev"
    then s.from_str s.dev_spec
    else if str_eq filepath "release"
    then s.from_str s.release_spec
    else and_then (s.read_to_string filepath) s.from_str

apply_spec : Sources → Loaded Spec → Action Globals (Loaded Spec)
apply_spec s (failed error) globals = (ok (failed error), globals)
apply_spec s (loaded spec) globals =
    if s.create_dir_all spec.data_dir
    then (
      ok (loaded spec),
      record {
        cellbase_maturity = spec.consensus_cellbase_maturity;
        confirmation_blocks = spec.confirmation_blocks;
        method_to_eval_net_stable = spec.method_to_eval_network_stable;
      },
    )
    else (panic "create_dir_all", globals)

-- `Spec::load`
pub load : Sources → String → Action Globals (Loaded Spec)
unfolding apply_spec
load s filepath = apply_spec s (spec_of s filepath)
