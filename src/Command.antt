-- ===== src/Command.antt =====
-- tps-bench/src/command.rs: the command line. clap itself is not modelled: `app` holds the arguments
-- that the program declares, with their validators, and `Matches` is what clap returns.
pub mod Modes
mod Tests
use Prim.Native.String.{String}
use text.Mathlib.Text.{◌==◌ as str_eq}
use ckb_bench_archived.Base.{
  ℕ, List, [], ◌∷◌, Bool, true, false, Option, none, some, Outcome, ok, exit, Action, unwrap,
  if◌then◌else◌,
}
use ckb_bench_archived.Base.Effects.{pure, lift, ◌>>=◌}
use ckb_bench_archived.Base.Outcomes.{◌>>=◌ as and_then}
use ckb_bench_archived.Config.{Config, Spec, Sources, Globals, Loaded, loaded, failed, load, new}

abbrev pub mine_subcommand : String
mine_subcommand = "mine"

abbrev pub bench_subcommand : String
bench_subcommand = "bench"

abbrev pub metrics_subcommand : String
metrics_subcommand = "metric"

pub data CommandLine (Url : Type 0) : Type 0 where
  mine_mode : Config Url → ℕ → CommandLine Url
  bench_mode : Config Url → Bool → CommandLine Url
  metric_mode : List Url → CommandLine Url

-- `clap::Arg`: its name, whether it is required, and its validator.
pub record Arg : Type 0 where
  pub name : String
  pub required : Bool
  pub validator : String → Bool

-- `ArgMatches` of a subcommand.
pub record Options : Type 0 where
  pub value_of : String → Option String
  pub values_of : String → Option (List String)
  pub is_present : String → Bool

-- `matches.subcommand()`
abbrev pub Matches : Type 0
Matches = String × Option Options

-- `url::Url::parse` and `str::parse::<u64>`.
pub record Parsers (Url : Type 0) : Type 0 where
  pub parse_url : String → Option Url
  pub parse_u64 : String → Option ℕ

abbrev pub is_some : {A : Type 0} → Option A → Bool
is_some none = false
is_some (some a) = true

module _ {Url : Type 0} (parsers : Parsers Url) where
  -- `<FILE>` in a usage makes the argument a required one.
  abbrev pub spec_arg : Arg
  spec_arg = record { name = "spec"; required = true; validator = λ s. true }

  abbrev pub rpc_urls_arg : Arg
  rpc_urls_arg = record {
    name = "rpc-urls";
    required = true;
    validator = λ s. is_some (parsers.parse_url s);
  }

  abbrev pub blocks_arg : Arg
  blocks_arg = record {
    name = "blocks";
    required = true;
    validator = λ s. is_some (parsers.parse_u64 s);
  }

  abbrev pub skip_arg : Arg
  skip_arg = record { name = "skip-best-tps-caculation"; required = false; validator = λ s. true }

  -- The subcommands of the app, each with its arguments.
  abbrev pub app : List (String × List Arg)
  app =
      (mine_subcommand, spec_arg ∷ rpc_urls_arg ∷ blocks_arg ∷ [])
      ∷ (bench_subcommand, spec_arg ∷ rpc_urls_arg ∷ skip_arg ∷ [])
      ∷ (metrics_subcommand, rpc_urls_arg ∷ [])
      ∷ []

  -- `.map(|str| Url::parse(str).expect(..))`
  parse_urls : List String → Outcome (List Url)
  parse_urls [] = ok []
  parse_urls (text ∷ texts) =
      and_then (unwrap (parsers.parse_url text) "clap arg option `validator` checked")
        (λ url. and_then (parse_urls texts) (λ urls. ok (url ∷ urls)))

  -- The block that reads `rpc-urls`.
  pub read_urls : Options → Outcome (List Url)
  unfolding parse_urls
  read_urls options =
      and_then (unwrap (options.values_of "rpc-urls") "clap arg option `required(true)` checked")
        parse_urls

  -- The block that reads `spec`: an error of `Spec::load` ends the process.
  pub read_spec : Sources → Options → Action Globals Spec
  read_spec sources options = do
    filepath ← lift (unwrap (options.value_of "spec") "clap arg option `required(true)` checked")
    result ← load sources filepath
    elim result [ loaded spec ↦ pure spec | failed err ↦ lift (exit 1) ]

  -- The block that reads `blocks`.
  pub read_blocks : Options → Outcome ℕ
  read_blocks options =
      and_then (unwrap (options.value_of "blocks") "clap arg option `required(true)` checked")
        (λ text. unwrap (parsers.parse_u64 text) "clap arg option `validator` checked")

  module _ (eq : Discrete Url) (sort : List Url → List Url) (sources : Sources) where
    read_mine : Options → Action Globals (CommandLine Url)
    unfolding read_spec read_urls read_blocks
    read_mine options = do
      spec ← read_spec sources options
      rpc_urls ← lift (read_urls options)
      blocks ← lift (read_blocks options)
      pure (mine_mode (new eq sort spec rpc_urls) blocks)

    read_bench : Options → Action Globals (CommandLine Url)
    unfolding read_spec read_urls
    read_bench options = do
      spec ← read_spec sources options
      rpc_urls ← lift (read_urls options)
      pure (bench_mode (new eq sort spec rpc_urls) (options.is_present "skip-best-tps-caculation"))

    read_metric : Options → Action Globals (CommandLine Url)
    unfolding read_urls
    read_metric options = do rpc_urls ← lift (read_urls options); pure (metric_mode rpc_urls)

    -- `commandline`, from what clap returns
    pub commandline : Matches → Action Globals (CommandLine Url)
    unfolding read_mine read_bench read_metric
    commandline (subcommand, none) = lift (exit 1)
    commandline (subcommand, some options) =
        if str_eq subcommand mine_subcommand
        then read_mine options
        else if str_eq subcommand bench_subcommand
        then read_bench options
        else if str_eq subcommand metrics_subcommand
        then read_metric options
        else lift (exit 1)
