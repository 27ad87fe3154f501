-- ===== src/Command/Modes.antt =====
-- What `commandline` of tps-bench/src/command.rs returns for a command line that clap has checked.
use Prim.Native.String.{String}
use text.Mathlib.Text.{◌==◌ as str_eq}
use mathlib.Core.Path.{subst⁻¹}
use mathlib.Core.Bool.{true≢false}
use text.Mathlib.TextEquality.{eq_iff}
use ckb_bench_archived.Config.Loading.{globals_of, load-cases}
use ckb_bench_archived.Base.{
  ℕ, List, [], ◌∷◌, true, false, Option, none, some, Outcome, ok, exit, ◌≡◌, ◌≢◌, refl, sym, ◌∙◌,
  ◌⊎◌, inl, inr, All, Bool-cases,
}
use ckb_bench_archived.Config.{Config, Spec, Sources, Globals, loaded, failed, spec_of, new}
use ckb_bench_archived.Command.{
  is_some, CommandLine, mine_mode, bench_mode, metric_mode, Arg, Options, Matches, Parsers, app,
  spec_arg, rpc_urls_arg, blocks_arg, mine_subcommand, bench_subcommand, metrics_subcommand,
  parse_urls, read_urls, read_spec, read_blocks, read_mine, read_bench, read_metric, commandline,
}

-- What clap checks of an argument: a required one is given, and its validator holds for what is given.
pub record Passes (arg : Arg) (o : Options) : Type 0 where
  pub given : arg.required ≡ true → (v : String) × (o.value_of arg.name ≡ some v)
  pub several : arg.required ≡ true → (vs : List String) × (o.values_of arg.name ≡ some vs)
  pub valid : (v : String) → o.value_of arg.name ≡ some v → arg.validator v ≡ true
  pub all_valid :
      (vs : List String) → o.values_of arg.name ≡ some vs → All (λ v. arg.validator v ≡ true) vs

is_some-some : {A : Type 0} (o : Option A) → is_some o ≡ true → (a : A) × (o ≡ some a)
is_some-some none h = cc
is_some-some (some a) h = (a, refl)

pub differs : {s t : String} → str_eq s t ≡ false → s ≢ t
differs {s} {t} h e = true≢false (sym ((eq_iff s t).1 e) ∙ h)

module _ {Url : Type 0} (parsers : Parsers Url) where
  -- The options of a subcommand of the app pass the checks of its arguments.
  abbrev pub IsChecked : Matches → Type 0
  IsChecked (subcommand, none) = Unit {0}
  IsChecked (subcommand, some o) =
      All (λ (d : String × List Arg). subcommand ≡ d.0 → All (λ arg. Passes arg o) d.1)
        (app parsers)

  -- Each text is parsed to the URL at its place.
  abbrev pub ParseTo : List String → List Url → Type 0
  ParseTo [] [] = Unit {0}
  ParseTo (text ∷ texts) (url ∷ urls) = (parsers.parse_url text ≡ some url) × ParseTo texts urls
  ParseTo _ _ = ⊥

  pub record HasUrls (o : Options) (urls : List Url) : Type 0 where
    pub texts : List String
    pub values : o.values_of "rpc-urls" ≡ some texts
    pub parse : ParseTo texts urls

  parse_urls-ParseTo :
      (texts : List String)
      → All (λ v. (rpc_urls_arg parsers).validator v ≡ true) texts
      → (urls : List Url) × (parse_urls parsers texts ≡ ok urls) × ParseTo texts urls
  unfolding parse_urls
  parse_urls-ParseTo [] valid = ([], refl, tt)
  parse_urls-ParseTo (text ∷ texts) valid =
      let (urls, parsed, rest) = parse_urls-ParseTo texts valid.1 in
      let (url, found) = is_some-some (parsers.parse_url text) valid.0 in
      (url ∷ urls, rw (found, parsed) refl, (found, rest))

  read_urls-HasUrls :
      (o : Options)
      → Passes (rpc_urls_arg parsers) o
      → (urls : List Url) × (read_urls parsers o ≡ ok urls) × HasUrls o urls
  unfolding read_urls
  read_urls-HasUrls o passes =
      let (texts, values) = passes.several refl in
      let (urls, parsed, parse) = parse_urls-ParseTo texts (passes.all_valid texts values) in
      (urls, rw (values, parsed) refl, record { texts = texts; values = values; parse = parse })

  pub record HasBlocks (o : Options) (blocks : ℕ) : Type 0 where
    pub text : String
    pub value : o.value_of "blocks" ≡ some text
    pub parse : parsers.parse_u64 text ≡ some blocks

  read_blocks-HasBlocks :
      (o : Options)
      → Passes (blocks_arg parsers) o
      → (blocks : ℕ) × (read_blocks parsers o ≡ ok blocks) × HasBlocks o blocks
  unfolding read_blocks
  read_blocks-HasBlocks o passes =
      let (text, value) = passes.given refl in
      let (blocks, found) = is_some-some (parsers.parse_u64 text) (passes.valid text value) in
      (blocks, rw (value, found) refl, record { text = text; value = value; parse = found })

  module _ (eq : Discrete Url) (sort : List Url → List Url) (sources : Sources) where
    -- The spec is the one at the path that is given, it has set the globals, and the configuration
    -- is made of it and of the URLs that are given.
    pub record HasConfig (o : Options) (config : Config Url) (globals : Globals) : Type 0 where
      pub filepath : String
      pub value : o.value_of "spec" ≡ some filepath
      pub loads : spec_of sources filepath ≡ loaded config.spec
      pub set : globals ≡ globals_of config.spec
      pub urls : List Url
      pub has_urls : HasUrls o urls
      pub made : config ≡ new eq sort config.spec urls

    -- The mode is that of the subcommand, with its values read from the options.
    abbrev pub IsRead : String → Options → Globals → Globals → CommandLine Url → Type 0
    IsRead subcommand o before after (mine_mode config blocks) =
        (subcommand ≡ mine_subcommand) × HasConfig o config after × HasBlocks o blocks
    IsRead subcommand o before after (bench_mode config skip) =
        (subcommand ≡ bench_subcommand)
        × HasConfig o config after
        × (skip ≡ o.is_present "skip-best-tps-caculation")
    IsRead subcommand o before after (metric_mode urls) =
        (subcommand ≡ metrics_subcommand) × HasUrls o urls × (after ≡ before)

    -- Why the process may end: the subcommand is none of the app's, or the spec has an error.
    abbrev pub IsRejected : Matches → Type 0
    IsRejected (subcommand, none) = Unit {0}
    IsRejected (subcommand, some o) =
        ((filepath : String) × (err : String) × (o.value_of "spec" ≡ some filepath)
          × (spec_of sources filepath ≡ failed err))
        ⊎ ((subcommand ≢ mine_subcommand)
            × (subcommand ≢ bench_subcommand)
            × (subcommand ≢ metrics_subcommand))

    abbrev pub HasMode : Matches → Globals → Globals → CommandLine Url → Type 0
    HasMode (subcommand, none) before after mode = ⊥
    HasMode (subcommand, some o) before after mode = IsRead subcommand o before after mode

    abbrev pub Ends : Matches → Globals → Outcome (CommandLine Url) × Globals → Type 0
    Ends matches before (ok mode, after) = HasMode matches before after mode
    Ends matches before (exit status, after) = (status ≡ 1) × (after ≡ before) × IsRejected matches
    Ends matches before _ = ⊥

    new-HasConfig :
        (o : Options) (filepath : String) (spec : Spec) (urls : List Url)
        → o.value_of "spec" ≡ some filepath
        → spec_of sources filepath ≡ loaded spec
        → HasUrls o urls
        → HasConfig o (new eq sort spec urls) (globals_of spec)
    unfolding new
    new-HasConfig o filepath spec urls value at has_urls = record {
      filepath = filepath;
      value = value;
      loads = at;
      set = refl;
      urls = urls;
      has_urls = has_urls;
      made = refl;
    }

    read_mine-Ends :
        (o : Options) (globals : Globals)
        → ((dir : String) → sources.create_dir_all dir ≡ true)
        → All
            (λ arg. Passes arg o)
            (spec_arg parsers ∷ rpc_urls_arg parsers ∷ blocks_arg parsers ∷ [])
        → Ends (mine_subcommand, some o) globals (read_mine parsers eq sort sources o globals)
    unfolding read_mine read_spec
    read_mine-Ends o globals makes (spec_passes, (urls_pass, (blocks_pass, _))) =
        let (filepath, value) = spec_passes.given refl in
        let (urls, read, has_urls) = read_urls-HasUrls o urls_pass in
        let (blocks, read', has_blocks) = read_blocks-HasBlocks o blocks_pass in
        elim (load-cases sources filepath globals makes) [
          | inl found ↦
              let (spec, at, ran) = found in
              rw (value, ran, read, read')
                (refl, new-HasConfig o filepath spec urls value at has_urls, has_blocks)
          | inr bad ↦
              let (err, at, ran) = bad in
              rw (value, ran) (refl, refl, inl (filepath, err, value, at))
        ]

    read_bench-Ends :
        (o : Options) (globals : Globals)
        → ((dir : String) → sources.create_dir_all dir ≡ true)
        → Passes (spec_arg parsers) o
        → Passes (rpc_urls_arg parsers) o
        → Ends (bench_subcommand, some o) globals (read_bench parsers eq sort sources o globals)
    unfolding read_bench read_spec
    read_bench-Ends o globals makes spec_passes urls_pass =
        let (filepath, value) = spec_passes.given refl in
        let (urls, read, has_urls) = read_urls-HasUrls o urls_pass in
        elim (load-cases sources filepath globals makes) [
          | inl found ↦
              let (spec, at, ran) = found in
              rw (value, ran, read)
                (refl, new-HasConfig o filepath spec urls value at has_urls, refl)
          | inr bad ↦
              let (err, at, ran) = bad in
              rw (value, ran) (refl, refl, inl (filepath, err, value, at))
        ]

    read_metric-Ends :
        (o : Options) (globals : Globals)
        → Passes (rpc_urls_arg parsers) o
        → Ends (metrics_subcommand, some o) globals (read_metric parsers eq sort sources o globals)
    unfolding read_metric
    read_metric-Ends o globals urls_pass =
        let (urls, read, has_urls) = read_urls-HasUrls o urls_pass in rw read (refl, has_urls, refl)

  -- If clap has checked the arguments that the app declares, and the directory of the data can be
  -- made, then `commandline` never panics: it returns the mode of the subcommand, made of the values
  -- that the options hold, with the globals of the spec set; or it ends the process with code 1 and
  -- the globals as they were, and then the spec has an error or the subcommand is unknown.
  pub commandline-Ends :
      (eq : Discrete Url) (sort : List Url → List Url) (sources : Sources) (matches : Matches)
      (globals : Globals)
      → ((dir : String) → sources.create_dir_all dir ≡ true)
      → IsChecked matches
      → Ends eq sort sources matches globals (commandline parsers eq sort sources matches globals)
  unfolding commandline
  commandline-Ends eq sort sources (subcommand, none) globals makes checked = (refl, refl, tt)
  commandline-Ends eq sort sources (subcommand, some o) globals makes (mine, (bench, (metric, _))) =
      elim (Bool-cases (str_eq subcommand mine_subcommand)) [
        | inl is ↦
            let e = (eq_iff subcommand mine_subcommand).0 is in
            rw is (
              subst⁻¹
                (λ s.
                  Ends eq sort sources (s, some o) globals
                    (read_mine parsers eq sort sources o globals))
                e (read_mine-Ends eq sort sources o globals makes (mine e)))
        | inr not_mine ↦ elim (Bool-cases (str_eq subcommand bench_subcommand)) [
          | inl is ↦
              let e = (eq_iff subcommand bench_subcommand).0 is in
              rw (not_mine, is)
                (subst⁻¹
                  (λ s.
                    Ends eq sort sources (s, some o) globals
                      (read_bench parsers eq sort sources o globals))
                  e (read_bench-Ends eq sort sources o globals makes (bench e).0 (bench e).1.0))
          | inr not_bench ↦ elim (Bool-cases (str_eq subcommand metrics_subcommand)) [
            | inl is ↦
                let e = (eq_iff subcommand metrics_subcommand).0 is in
                rw (not_mine, not_bench, is)
                  (subst⁻¹
                    (λ s.
                      Ends eq sort sources (s, some o) globals
                        (read_metric parsers eq sort sources o globals))
                    e (read_metric-Ends eq sort sources o globals (metric e).0))
            | inr not_metric ↦
                rw (not_mine, not_bench, not_metric)
                  (refl, refl, inr (differs not_mine, differs not_bench, differs not_metric))
          ]
        ]
      ]
