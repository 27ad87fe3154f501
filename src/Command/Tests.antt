-- ===== src/Command/Tests.antt =====
-- Tests and witnesses of the module `Command`. There are two URLs, and numbers are counted by strokes.
use Prim.Native.String.{String}
use text.Mathlib.Text.{◌==◌ as str_eq}
use ckb_bench_archived.Base.{
  ℕ, zero, suc, List, [], ◌∷◌, Bool, true, false, Option, none, some, ◌≡◌, refl, sym, ◌∙◌, All,
  if◌then◌else◌,
}
use mathlib.Core.Path.{subst}
use ckb_bench_archived.Samples.{sources, globals_before}
use ckb_bench_archived.Command.{
  Arg, Options, Parsers, spec_arg, rpc_urls_arg, blocks_arg, mine_subcommand, commandline,
}
use ckb_bench_archived.Command.Modes.{Passes, IsChecked, Ends, commandline-Ends, differs}

abbrev count : String → ℕ
count String.[] = zero
count (String.◌∷◌ c text) = suc (count text)

abbrev parsers : Parsers Bool
parsers = record {
  parse_url = λ text.
      if str_eq text "http://a"
      then some true
      else if str_eq text "http://b"
      then some false
      else none;
  parse_u64 = λ text. some (count text);
}

-- `mine -s dev --rpc-urls http://a http://b -b |||`
abbrev values : String → Option (List String)
values name =
    if str_eq name "spec"
    then some ("dev" ∷ [])
    else if str_eq name "rpc-urls"
    then some ("http://a" ∷ "http://b" ∷ [])
    else if str_eq name "blocks"
    then some ("|||" ∷ [])
    else none

abbrev first_of : Option (List String) → Option String
first_of none = none
first_of (some []) = none
first_of (some (text ∷ texts)) = some text

abbrev eq : Discrete Bool
eq = hlevel

abbrev same_order : List Bool → List Bool
same_order urls = urls

abbrev options : Options
options = record {
  value_of = λ name. first_of (values name);
  values_of = values;
  is_present = λ name. false;
}

some-injective : {A : Type 0} {a b : A} → some a ≡ some b → a ≡ b
some-injective e = cc

-- An argument with these values, each of which its validator takes.
passes :
    (arg : Arg) (v : String) (vs : List String)
    → options.values_of arg.name ≡ some (v ∷ vs)
    → options.value_of arg.name ≡ some v
    → All (λ v. arg.validator v ≡ true) (v ∷ vs)
    → Passes arg options
passes arg v vs several given valid = record {
  given = λ required. (v, given);
  several = λ required. (v ∷ vs, several);
  valid = λ v' e. subst (λ t. arg.validator t ≡ true) (some-injective (sym given ∙ e)) valid.0;
  all_valid =
      λ vs' e. subst (All (λ t. arg.validator t ≡ true)) (some-injective (sym several ∙ e)) valid;
}

options-IsChecked : IsChecked parsers (mine_subcommand, some options)
options-IsChecked = (
  (λ e. (
    passes (spec_arg parsers) "dev" [] refl refl (refl, tt),
    (
      passes (rpc_urls_arg parsers) "http://a" ("http://b" ∷ []) refl refl (refl, (refl, tt)),
      (passes (blocks_arg parsers) "|||" [] refl refl (refl, tt), tt),
    ),
  )),
  ((λ e. absurd (differs refl e)), ((λ e. absurd (differs refl e)), tt)),
)

commandline-Ends_example :
    Ends parsers eq same_order sources
      (mine_subcommand, some options)
      globals_before
      (commandline parsers eq same_order sources (mine_subcommand, some options) globals_before)
commandline-Ends_example =
    commandline-Ends parsers eq same_order sources (mine_subcommand, some options) globals_before
      (λ dir. refl) options-IsChecked
