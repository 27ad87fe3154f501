-- ===== src/Config/Loading.antt =====
-- How `Spec::load` of tps-bench/src/config.rs ends, and what it does to the globals.
use Prim.Native.String.{String}
use ckb_bench_archived.Base.{true, ◌≡◌, refl, ◌⊎◌, inl, inr, ok}
use ckb_bench_archived.Config.{
  Spec, Sources, Globals, Loaded, loaded, failed, spec_of, apply_spec, load,
}

-- The globals that a spec sets.
abbrev pub globals_of : Spec → Globals
globals_of spec = record {
  cellbase_maturity = spec.consensus_cellbase_maturity;
  confirmation_blocks = spec.confirmation_blocks;
  method_to_eval_net_stable = spec.method_to_eval_network_stable;
}

Loaded-cases :
    {A : Type 0} (r : Loaded A) → ((a : A) × (r ≡ loaded a)) ⊎ ((err : String) × (r ≡ failed err))
Loaded-cases (loaded a) = inl (a, refl)
Loaded-cases (failed err) = inr (err, refl)

-- Where the directory can be made, a spec that is found is returned, and sets the globals; an error
-- is handed on, and the globals are as they were.
pub load-cases :
    (s : Sources) (filepath : String) (globals : Globals)
    → ((dir : String) → s.create_dir_all dir ≡ true)
    → ((spec : Spec) × (spec_of s filepath ≡ loaded spec)
        × (load s filepath globals ≡ (ok (loaded spec), globals_of spec)))
      ⊎ ((err : String) × (spec_of s filepath ≡ failed err)
          × (load s filepath globals ≡ (ok (failed err), globals)))
unfolding load apply_spec
load-cases s filepath globals makes = elim (Loaded-cases (spec_of s filepath)) [
  | inl found ↦ inl (found.0, found.1, rw (found.1, makes found.0.data_dir) refl)
  | inr bad ↦ inr (bad.0, bad.1, rw bad.1 refl)
]
