-- ===== src/Bench/Stats.antt =====
-- `compute_stats` (c_dispatch/benchmark_suite.c): percentiles in their order, read inside the array.
use mathlib.Core.List.{Mem, Perm}
use mathlib.Core.List.Perm
use hybrid_pqc_benchmarking.Prelude.{ℕ, zero, suc, ◌≤◌, ◌<◌, ◌≡◌, refl, some, List, arith, length}
use hybrid_pqc_benchmarking.Prelude.Int.{pos}
use hybrid_pqc_benchmarking.Bench.{
  Double, IsLawfulDouble, cmp_double, qsort, rank, sum_from, LatencyStats, compute_stats,
}
use hybrid_pqc_benchmarking.Bench.Sort.{
  ◌≼◌, IsSorted, AllNumbers, length-qsort, qsort-perm, qsort-IsSorted, get_elem?-Mem,
  get_elem?-IsSorted,
}

module _ {W : Type 0} ⦃d : Double W⦄ where
  -- What the numbers of some samples are to them.
  pub record IsSummary (samples sorted : List W) (s : LatencyStats W) : Type 0 where
    pub permuted : Perm sorted samples
    pub ascending : IsSorted sorted
    pub p50_of : Mem s.p50_ms samples
    pub p99_of : Mem s.p99_ms samples
    pub p50_le : s.p50_ms ≼ s.p95_ms
    pub p95_le : s.p95_ms ≼ s.p99_ms
    pub p95_of : Mem s.p95_ms samples

  module _ (L : IsLawfulDouble W) where
    rank_bound :
        (n : ℕ)
        → 0 < n
        → (rank n d.c50 ≤ rank n d.c95) × (rank n d.c95 ≤ rank n d.c99) × (rank n d.c99 < n)
    unfolding rank
    rank_bound zero h = absurd (omega arith)
    rank_bound (suc n) h = ground (arith, L.rank_c50 n, L.rank_c95 n, L.rank_c99 n)

    -- For one sample or more, none of them a NaN, every read of `compute_stats` is inside the
    -- array. The array ends as an ascending permutation of the samples, the three percentiles are
    -- samples, and they stand in their order.
    pub compute_stats-IsSummary :
        (samples : List W) (n : ℕ)
        → length samples ≡ n
        → 0 < n
        → AllNumbers L samples
        → (s : LatencyStats W) × ((compute_stats samples n).1 ≡ some s)
          × IsSummary samples (compute_stats samples n).0 s
    unfolding compute_stats
    compute_stats-IsSummary samples n e h numbers =
        let perm = qsort-perm cmp_double samples in
        let sorted = qsort-IsSorted L samples numbers in
        let len = length-qsort cmp_double samples in
        let (r1, r2, r3) = rank_bound n h in
        let (x, ex, mx) = get_elem?-Mem (qsort cmp_double samples) (rank n d.c50) (omega arith) in
        let (y, ey, my) = get_elem?-Mem (qsort cmp_double samples) (rank n d.c95) (omega arith) in
        let (z, ez, mz) = get_elem?-Mem (qsort cmp_double samples) (rank n d.c99) (omega arith) in
        let mean = d.div (sum_from d.nought (qsort cmp_double samples)) (d.of_long (pos n)) in
        (
          record { mean_ms = mean; p50_ms = x; p95_ms = y; p99_ms = z },
          rw (ex, ey, ez) refl,
          record {
            permuted = perm;
            ascending = sorted;
            p50_of = (Perm.mem_iff perm).0 mx;
            p95_of = (Perm.mem_iff perm).0 my;
            p99_of = (Perm.mem_iff perm).0 mz;
            p50_le = get_elem?-IsSorted L _ _ _ x y sorted r1 ex ey;
            p95_le = get_elem?-IsSorted L _ _ _ y z sorted r2 ey ez;
          },
        )
