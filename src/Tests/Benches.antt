-- ===== src/Tests/Benches.antt =====
-- The benchmark suite over the concrete libraries, with whole numbers for a `double`.
use hybrid_pqc_benchmarking.Prelude.{
  ℕ, ◌+◌, ◌*◌, ◌/◌, ◌≡◌, refl, true, some, List, [], ◌∷◌, arith, ltb, length,
}
use hybrid_pqc_benchmarking.Prelude.Int.{ℤ, pos, negsuc}
use hybrid_pqc_benchmarking.Algo.Table.{IsConsistent}
use hybrid_pqc_benchmarking.Engine.{role_server, zero_result, EngineState, Worlds}
use hybrid_pqc_benchmarking.Engine.Lifecycle.{zero_pool}
use hybrid_pqc_benchmarking.Bench.{
  Double, IsLawfulDouble, sum_from, Timespec, mode_strict_sequential, mode_adaptive_switch,
  LatencyStats, compute_stats, run_bench,
}
use hybrid_pqc_benchmarking.Bench.Sort.{AllNumbers}
use hybrid_pqc_benchmarking.Bench.Stats.{IsSummary, compute_stats-IsSummary}
use hybrid_pqc_benchmarking.Bench.Modes.{run_bench-Alike}
use hybrid_pqc_benchmarking.Metrics.{
  metrics_min, max_from, metrics_max, metrics_mean, metrics_stable_cost,
}
use hybrid_pqc_benchmarking.Metrics.Range.{IsLeast, IsGreatest, metrics-range}
use hybrid_pqc_benchmarking.Tests.{toy_ssl, toy_oqs}
use hybrid_pqc_benchmarking.Tests.Hosts.{p256_combo, laptop}

abbrev whole : ℤ → ℕ
whole (pos n) = n
whole (negsuc n) = 0

-- The second factor of a product is in per cent.
instance abbrev whole_double : Double ℕ
whole_double = record {
  nought = 0;
  k1000 = 100000;
  k1e6 = 1000000;
  c50 = 50;
  c95 = 95;
  c99 = 99;
  lt = ltb;
  add = λ x y. x + y;
  mul = λ x y. x * y / 100;
  div = λ x y. x / y;
  of_long = whole;
  to_int = λ x. x;
}

whole-IsLawfulDouble : IsLawfulDouble ℕ
whole-IsLawfulDouble = record {
  is_number = λ x. true;
  lt_asymm = λ x y h. ground arith;
  lt_split = λ x y z n h. ground arith;
  rank_c50 = λ n. omega arith;
  rank_c95 = λ n. omega arith;
  rank_c99 = λ n. omega arith;
}

abbrev four_samples : List ℕ
four_samples = 5 ∷ 2 ∷ 9 ∷ 2 ∷ []

four_samples-AllNumbers : AllNumbers whole-IsLawfulDouble four_samples
unfolding whole-IsLawfulDouble
four_samples-AllNumbers = λ x m. refl

compute_stats-IsSummary_example :
    (s : LatencyStats ℕ) × ((compute_stats four_samples 4).1 ≡ some s)
    × IsSummary four_samples (compute_stats four_samples 4).0 s
compute_stats-IsSummary_example =
    compute_stats-IsSummary whole-IsLawfulDouble four_samples 4 refl (omega arith)
      four_samples-AllNumbers

metrics-range_example :
    IsLeast whole-IsLawfulDouble (metrics_min four_samples) four_samples
    × IsGreatest whole-IsLawfulDouble (metrics_max four_samples) four_samples
metrics-range_example =
    metrics-range whole-IsLawfulDouble four_samples (omega arith) four_samples-AllNumbers

four_samples-max : metrics_max four_samples ≡ 9
unfolding metrics_max max_from
four_samples-max = refl

four_samples-stable_cost : metrics_stable_cost four_samples ≡ 4
unfolding metrics_stable_cost metrics_mean sum_from
four_samples-stable_cost = refl

abbrev worlds : Worlds toy_ssl toy_oqs
worlds = record { ec = record { fresh_key = 11; own = 0; peer = 0 }; kem = 3 }

abbrev engine : EngineState
engine = record { pool = zero_pool; initialized = true }

p256-IsConsistent : IsConsistent p256_combo
p256-IsConsistent = record { curve = refl; pqc = refl; name = refl }

abbrev clock : ℕ → Timespec × Timespec
clock i = (record { tv_sec = i; tv_nsec = 0 }, record { tv_sec = i; tv_nsec = 5000000 })

run_bench-Alike_example :
    let b =
      run_bench toy_ssl toy_oqs laptop role_server {W = ℕ} p256_combo mode_adaptive_switch
        zero_result clock 2 engine worlds in
    let s =
      run_bench toy_ssl toy_oqs laptop role_server {W = ℕ} p256_combo mode_strict_sequential
        zero_result clock 2 engine worlds in
    (b.0 ≡ s.0) × (s.0 ≡ true → (length b.1 ≡ 2) × (length s.1 ≡ 2) × (b.3 ≡ s.3))
run_bench-Alike_example =
    run_bench-Alike toy_ssl toy_oqs laptop role_server p256_combo zero_result p256-IsConsistent ℕ
      clock mode_adaptive_switch mode_strict_sequential 2 engine engine worlds refl refl
