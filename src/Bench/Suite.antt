-- ===== src/Bench/Suite.antt =====
-- `main` of c_dispatch/benchmark_suite.c, from the collection of the hybrid suites to the export:
-- every suite in every mode, with `run_affinity_verification` behind each suite.
use hybrid_pqc_benchmarking.Prelude.{
  ℕ, zero, suc, ◌*◌, ◌≡◌, Bool, true, false, Option, String, List, [], ◌∷◌, ◌++◌, ltb, ◌⊎◌,
  if◌then◌else◌, length,
}
use hybrid_pqc_benchmarking.External.{Openssl, Liboqs}
use hybrid_pqc_benchmarking.Algo.{AlgoCombo, algorithm_combos, is_hybrid}
use hybrid_pqc_benchmarking.Host.{HostProfile}
use hybrid_pqc_benchmarking.Engine.{
  SharedCryptoResult, EngineState, Worlds, role_server, execute_parallel_optimized,
}
use hybrid_pqc_benchmarking.Bench.{
  Double, Timespec, LatencyStats, BenchMode, mode_strict_sequential, mode_strict_parallel,
  mode_adaptive_switch, mode_name, Measured, run_bench, compute_stats,
}

unfoldable pub collect_hybrids : List AlgoCombo → List AlgoCombo
collect_hybrids [] = []
collect_hybrids (combo ∷ combos) =
    let rest = collect_hybrids combos in if is_hybrid combo.profile then combo ∷ rest else rest

-- `stats` is `none` where a percentile is read out of range.
pub record BenchResult (W : Type 0) : Type 0 where
  pub combo_label : String
  pub mode_label : String
  pub stats : Option (LatencyStats W)

pub record SuiteState (ssl : Openssl) (oqs : Liboqs) (W : Type 0) : Type 0 where
  pub all_results : List (BenchResult W)
  pub engine : EngineState
  pub worlds : Worlds ssl oqs

module _ (ssl : Openssl) (oqs : Liboqs) (hp : HostProfile) (W : Type 0) ⦃d : Double W⦄ where
  abbrev Suite : Type 0
  Suite = SuiteState ssl oqs W

  module _ (result : SharedCryptoResult) (n_iter : ℕ)
      (clock : AlgoCombo → BenchMode → ℕ → Timespec × Timespec) where
    abbrev save_result : ℕ → BenchResult W → List (BenchResult W) → List (BenchResult W)
    save_result max_results r results =
        if ltb (length results) max_results then results ++ (r ∷ []) else results

    abbrev record_run :
        ℕ → AlgoCombo → BenchMode → Suite → Measured ssl oqs hp role_server W → Suite
    record_run max_results combo mode s (true, samples, st, w) = record {
      all_results =
          save_result max_results
            (record {
              combo_label = combo.label;
              mode_label = mode_name mode;
              stats = (compute_stats samples n_iter).1;
            })
            s.all_results;
      engine = st;
      worlds = w;
    }
    record_run max_results combo mode s (false, samples, st, w) = record s {
      engine = st;
      worlds = w;
    }

    unfoldable pub suite_mode : ℕ → AlgoCombo → BenchMode → Suite → Suite
    suite_mode max_results combo mode s = record_run max_results combo mode s (
        run_bench ssl oqs hp role_server combo mode result (clock combo mode) n_iter s.engine
          s.worlds)

    abbrev after_parallel : Suite → Bool × SharedCryptoResult × EngineState × Worlds ssl oqs → Suite
    after_parallel s (rc, r, st, w) = record s { engine = st; worlds = w }

    -- The executions in front of the probe, which only reads; their codes are not looked at.
    unfoldable pub run_affinity_verification : ℕ → AlgoCombo → Suite → Suite
    run_affinity_verification zero combo s = s
    run_affinity_verification (suc n) combo s = run_affinity_verification n combo (
        after_parallel s
          (execute_parallel_optimized ssl oqs s.engine combo role_server result s.worlds))

    unfoldable pub suite_combo : ℕ → AlgoCombo → Suite → Suite
    suite_combo max_results combo s = run_affinity_verification 5 combo (
        suite_mode max_results combo mode_adaptive_switch (
          suite_mode max_results combo mode_strict_parallel
            (suite_mode max_results combo mode_strict_sequential s)))

    unfoldable pub suite_loop : ℕ → List AlgoCombo → Suite → Suite
    suite_loop max_results [] s = s
    suite_loop max_results (combo ∷ combos) s =
        suite_loop max_results combos (suite_combo max_results combo s)

    -- The two allocations are taken to succeed; that of the results is not tested.
    unfoldable pub bench_suite : EngineState → Worlds ssl oqs → Suite
    bench_suite st w =
        let hybrids = collect_hybrids algorithm_combos in
        suite_loop (length hybrids * 3) hybrids
          (record { all_results = []; engine = st; worlds = w })

    abbrev run :
        AlgoCombo → BenchMode → EngineState → Worlds ssl oqs → Measured ssl oqs hp role_server W
    run combo mode = run_bench ssl oqs hp role_server combo mode result (clock combo mode) n_iter

    -- A run of this suite in this mode went through, and gave this result.
    pub record Done (combo : AlgoCombo) (mode : BenchMode) (r : BenchResult W) : Type 0 where
      pub st : EngineState
      pub w : Worlds ssl oqs
      pub goes_through : (run combo mode st w).0 ≡ true
      pub result_of_run : r ≡ record {
        combo_label = combo.label;
        mode_label = mode_name mode;
        stats = (compute_stats (run combo mode st w).1 n_iter).1;
      }

    -- A run of this suite in this mode failed.
    pub record Failed (combo : AlgoCombo) (mode : BenchMode) : Type 0 where
      pub st : EngineState
      pub w : Worlds ssl oqs
      pub fails : (run combo mode st w).0 ≡ false

    -- The results are those of these runs, in their order: one for each run that went through, none
    -- for one that failed.
    abbrev pub Covers : List (AlgoCombo × BenchMode) → List (BenchResult W) → Type 0
    Covers [] results = results ≡ []
    Covers ((combo, mode) ∷ runs) results =
        (Failed combo mode × Covers runs results)
        ⊎ ((r : BenchResult W) × (rest : List (BenchResult W)) × (results ≡ r ∷ rest)
            × Done combo mode r
            × Covers runs rest)

    -- The three runs of a suite, in order.
    abbrev modes_of : AlgoCombo → List (AlgoCombo × BenchMode)
    modes_of combo =
        (combo, mode_strict_sequential)
        ∷ (combo, mode_strict_parallel)
        ∷ (combo, mode_adaptive_switch)
        ∷ []

    -- Every suite in every mode.
    abbrev pub planned : List AlgoCombo → List (AlgoCombo × BenchMode)
    planned [] = []
    planned (combo ∷ combos) = modes_of combo ++ planned combos
