-- ===== src/Bench.antt =====
-- c_dispatch/benchmark_suite.c: the three modes, the loop that measures one of them, the statistics
-- of a loop's samples, and the runs over the hybrid cipher suites.
mod Floats
pub mod Modes
pub mod Sort
pub mod Stats
pub mod Suite
pub use Floats.*
use hybrid_pqc_benchmarking.Prelude.{
  ℕ, zero, suc, ◌-◌, Bool, true, false, Option, none, some, String, List, [], ◌∷◌, ltb, leb,
  if◌then◌else◌, length,
}
use hybrid_pqc_benchmarking.Prelude.Int.{ℤ, pos, negsuc, leb_ℤ}
use hybrid_pqc_benchmarking.External.{Openssl, Liboqs}
use hybrid_pqc_benchmarking.Algo.{AlgoCombo}
use hybrid_pqc_benchmarking.Host.{HostProfile}
use hybrid_pqc_benchmarking.Engine.{
  HandshakeRole, SharedCryptoResult, EngineState, Worlds, execute_sequential,
  execute_parallel_optimized,
}
use hybrid_pqc_benchmarking.Dispatch.Execute.{dispatch_execute}

pub data BenchMode : Type 0 where
  mode_strict_sequential mode_strict_parallel mode_adaptive_switch : BenchMode

unfoldable pub mode_name : BenchMode → String
mode_name mode_strict_sequential = "Strict_Sequential"
mode_name mode_strict_parallel = "Strict_Parallel"
mode_name mode_adaptive_switch = "Adaptive_Switch"

pub record Timespec : Type 0 where
  pub tv_sec : ℕ
  pub tv_nsec : ℕ

abbrev pub difference : ℕ → ℕ → ℤ
difference a b = if leb b a then pos (a - b) else negsuc (b - a - 1)

pub record LatencyStats (W : Type 0) : Type 0 where
  pub mean_ms : W
  pub p50_ms : W
  pub p95_ms : W
  pub p99_ms : W

module _ {W : Type 0} where
  -- `qsort` of the C library, which leaves open how it works: here by insertion.
  unfoldable pub insert : (W → W → ℤ) → W → List W → List W
  insert cmp x [] = x ∷ []
  insert cmp x (y ∷ ys) =
      let rest = insert cmp x ys in if leb_ℤ (cmp x y) (pos 0) then x ∷ y ∷ ys else y ∷ rest

  unfoldable pub qsort : (W → W → ℤ) → List W → List W
  unfolding insert
  qsort cmp [] = []
  qsort cmp (x ∷ xs) = insert cmp x (qsort cmp xs)

  unfoldable pub get_elem? : List W → ℕ → Option W
  get_elem? [] i = none
  get_elem? (x ∷ xs) zero = some x
  get_elem? (x ∷ xs) (suc i) = get_elem? xs i

module _ {W : Type 0} ⦃d : Double W⦄ where
  unfoldable pub timespec_diff_ms : Timespec → Timespec → W
  timespec_diff_ms t0 t1 =
      d.add (d.mul (d.of_long (difference t1.tv_sec t0.tv_sec)) d.k1000)
        (d.div (d.of_long (difference t1.tv_nsec t0.tv_nsec)) d.k1e6)

  unfoldable pub cmp_double : W → W → ℤ
  cmp_double a b = if d.lt a b then negsuc 0 else if d.lt b a then pos 1 else pos 0

  unfoldable pub sum_from : W → List W → W
  sum_from total [] = total
  sum_from total (x ∷ xs) = sum_from (d.add total x) xs

  -- `(int)((n - 1) * c)`
  unfoldable pub rank : ℕ → W → ℕ
  rank n c = d.to_int (d.mul (d.of_long (difference n 1)) c)

  -- `none` where a read is out of range.
  abbrev stats_of : W → Option W → Option W → Option W → Option (LatencyStats W)
  stats_of mean (some p50) (some p95) (some p99) =
      some (record { mean_ms = mean; p50_ms = p50; p95_ms = p95; p99_ms = p99 })
  stats_of mean _ _ _ = none

  -- The samples as `qsort` leaves them, and the numbers.
  unfoldable pub compute_stats : List W → ℕ → List W × Option (LatencyStats W)
  unfolding qsort sum_from get_elem? rank
  compute_stats samples n =
      let sorted = qsort cmp_double samples in
      (
        sorted,
        stats_of (d.div (sum_from d.nought sorted) (d.of_long (pos n)))
            (get_elem? sorted (rank n d.c50)) (get_elem? sorted (rank n d.c95))
            (get_elem? sorted (rank n d.c99)),
      )

module _ (ssl : Openssl) (oqs : Liboqs) (hp : HostProfile) (role : HandshakeRole) where
  abbrev pub Called : Type 0
  Called = Bool × SharedCryptoResult × EngineState × Worlds ssl oqs

  -- The code, the samples written, and the states that the calls leave.
  abbrev pub Measured : Type 0 → Type 0
  Measured W = Bool × List W × EngineState × Worlds ssl oqs

  -- One call in the loop; `result` is what the uninitialized local holds.
  unfoldable pub bench_call :
      BenchMode → EngineState → AlgoCombo → SharedCryptoResult → Worlds ssl oqs → Called
  bench_call mode_strict_sequential st combo result w =
      let (rc, r, w') = execute_sequential ssl oqs combo role w in (rc, r, st, w')
  bench_call mode_strict_parallel st combo result w =
      execute_parallel_optimized ssl oqs st combo role result w
  bench_call mode_adaptive_switch st combo result w =
      dispatch_execute ssl oqs hp st combo role result w

  module _ {W : Type 0} where
    abbrev pub add_sample : W → Measured W → Measured W
    add_sample x (ok, samples, st, w) = (ok, x ∷ samples, st, w)

    -- After a failure the loop returns.
    abbrev pub unless_failed : W → (EngineState → Worlds ssl oqs → Measured W) → Called → Measured W
    unless_failed x rest (true, r, st, w) = add_sample x (rest st w)
    unless_failed x rest (false, r, st, w) = (false, [], st, w)

  module _ {W : Type 0} ⦃d : Double W⦄ (combo : AlgoCombo) (mode : BenchMode)
      (result : SharedCryptoResult) (clock : ℕ → Timespec × Timespec) where
    -- Iteration `i` and those behind it; `clock i` is what the clock shows before and after.
    unfoldable pub bench_loop : ℕ → ℕ → EngineState → Worlds ssl oqs → Measured W
    bench_loop zero i st w = (true, [], st, w)
    bench_loop (suc n) i st w =
        unless_failed (timespec_diff_ms (clock i).0 (clock i).1) (bench_loop n (suc i))
          (bench_call mode st combo result w)

    unfoldable pub run_bench : ℕ → EngineState → Worlds ssl oqs → Measured W
    unfolding bench_loop bench_call timespec_diff_ms
    run_bench n_iter st w = bench_loop n_iter 0 st w
