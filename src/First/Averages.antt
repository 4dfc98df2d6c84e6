-- ===== src/First/Averages.antt =====
-- c/bench_hybrid.c: what the averages of the counters are averages of.
use native.Mathlib.Nat.{le-div_iff_mul-le, div-lt_iff_lt-mul, mod-eq_of_lt, mul-le-mul_left}
use hybrid_pqc_benchmarking.Prelude.{
  ℕ, zero, suc, ◌+◌, ◌-◌, ◌*◌, ◌/◌, ◌^◌, ◌≤◌, ◌<◌, ◌≡◌, refl, ap, ◌∙◌, true, false, ◌==◌, lt→ltb,
  [], ◌∷◌, length, length-append, if-cases, arith,
}
use hybrid_pqc_benchmarking.Bench.{Double}
use hybrid_pqc_benchmarking.HwTelemetry.{HwTelemetryResult}
use hybrid_pqc_benchmarking.First.Track.{
  Totals, zero_totals, plus, add_counts, avg, averages, Track, add_run, track_runs, run_track,
}

pub data Counter : Type 0 where
  cycles instr l1 l2 csw mig pgf : Counter

abbrev pub count : Counter → HwTelemetryResult → ℕ
count cycles tr = tr.cpu_cycles
count instr tr = tr.instructions
count l1 tr = tr.l1_cache_misses
count l2 tr = tr.l2_cache_misses
count csw tr = tr.context_switches
count mig tr = tr.cpu_migrations
count pgf tr = tr.page_faults

abbrev total : Counter → Totals → ℕ
total cycles t = t.tot_cycles
total instr t = t.tot_instr
total l1 t = t.tot_l1
total l2 t = t.tot_l2
total csw t = t.tot_csw
total mig t = t.tot_mig
total pgf t = t.tot_pgf

total-add_counts :
    (k : Counter) (t : Totals) (tr : HwTelemetryResult)
    → total k (add_counts t tr) ≡ plus (total k t) (count k tr)
unfolding add_counts
total-add_counts cycles t tr = refl
total-add_counts instr t tr = refl
total-add_counts l1 t tr = refl
total-add_counts l2 t tr = refl
total-add_counts csw t tr = refl
total-add_counts mig t tr = refl
total-add_counts pgf t tr = refl

count-averages : (k : Counter) (t : Totals) → count k (averages t) ≡ avg t (total k t)
unfolding averages
count-averages cycles t = refl
count-averages instr t = refl
count-averages l1 t = refl
count-averages l2 t = refl
count-averages csw t = refl
count-averages mig t = refl
count-averages pgf t = refl

samples-add_counts :
    (t : Totals) (tr : HwTelemetryResult) → (add_counts t tr).telem_samples ≡ t.telem_samples + 1
unfolding add_counts
samples-add_counts t tr = refl

total-zero : (k : Counter) → total k zero_totals ≡ 0
total-zero cycles = refl
total-zero instr = refl
total-zero l1 = refl
total-zero l2 = refl
total-zero csw = refl
total-zero mig = refl
total-zero pgf = refl

quotient-between : (lo hi s n : ℕ) → 0 < s → lo * s ≤ n → n ≤ hi * s → (lo ≤ n / s) × (n / s ≤ hi)
quotient-between lo hi s n some_samples low high = (
  ((le-div_iff_mul-le {k = s} {x = lo} {y = n} some_samples).1 low),
  omega (arith, (div-lt_iff_lt-mul {k = s} {x = n} {y = hi + 1} some_samples).1 (omega arith)),
)

times_pred : (a j : ℕ) → a * (suc j - 1) ≡ a * j
times_pred a j = ap (λ z. a * z) (omega arith)

times_pred_add : (a j : ℕ) → a * (suc j + 1 - 1) ≡ a * suc j
times_pred_add a j = ap (λ z. a * z) (omega arith)

times_suc : (lo j s c : ℕ) → lo * j ≤ s → lo ≤ c → lo * suc j ≤ s + c
times_suc lo j s c h i = omega arith

suc_times : (hi j s c : ℕ) → s ≤ hi * j → c ≤ hi → s + c ≤ hi * suc j
suc_times hi j s c h i = omega arith

smaller : (hi r m : ℕ) → r ≤ m → hi * m < 2 ^ 64 → hi * r < 2 ^ 64
smaller hi r m h fits = omega (arith, mul-le-mul_left hi h, fits)

module _ {W : Type 0} ⦃d : Double W⦄ (handshake : ℕ → W × HwTelemetryResult) (k : Counter)
    (lo hi : ℕ) where
  -- After `r` runs the total of the counter is that of `r - 1` samples between the bounds.
  record Sound (r : ℕ) (t : Track W) : Type 0 where
    runs : length t.run_buf ≡ r
    samples : t.totals.telem_samples ≡ r - 1
    low : lo * (r - 1) ≤ total k t.totals
    high : total k t.totals ≤ hi * (r - 1)

  totals-add_run :
      (j : ℕ) (t : Track W)
      → (add_run handshake true (suc j) t).totals ≡ add_counts t.totals (handshake (suc j)).1
  unfolding add_run
  totals-add_run j t = rw (lt→ltb 0 (suc j) (omega arith)) refl

  add_run-Sound :
      (r : ℕ) (t : Track W)
      → (0 < r → (lo ≤ count k (handshake r).1) × (count k (handshake r).1 ≤ hi))
      → hi * r < 2 ^ 64
      → Sound r t
      → Sound (r + 1) (add_run handshake true r t)
  unfolding add_run
  add_run-Sound zero t between fits h = record {
    runs = omega (arith, length-append t.run_buf ((handshake 0).0 ∷ []), h.runs);
    samples = h.samples;
    low = h.low;
    high = h.high;
  }
  add_run-Sound (suc j) t between fits h =
      let (above, below) = between (omega arith) in
      let low_sum : lo * j ≤ total k t.totals = omega (arith, times_pred lo j, h.low) in
      let high_sum : total k t.totals ≤ hi * j = omega (arith, times_pred hi j, h.high) in
      let sum =
        total-add_counts k t.totals (handshake (suc j)).1
        ∙ mod-eq_of_lt (omega (arith, high_sum, below, fits)) in
      record {
        runs = omega (arith, length-append t.run_buf ((handshake (suc j)).0 ∷ []), h.runs);
        samples =
            rw (totals-add_run j t, samples-add_counts t.totals (handshake (suc j)).1)
              (omega (arith, h.samples));
        low =
            rw (totals-add_run j t, sum, times_pred_add lo j)
              (times_suc lo j (total k t.totals) (count k (handshake (suc j)).1) low_sum above);
        high =
            rw (totals-add_run j t, sum, times_pred_add hi j)
              (suc_times hi j (total k t.totals) (count k (handshake (suc j)).1) high_sum below);
      }

  length-add_run :
      (r : ℕ) (t : Track W) → length (add_run handshake true r t).run_buf ≡ length t.run_buf + 1
  unfolding add_run
  length-add_run r t = length-append t.run_buf ((handshake r).0 ∷ [])

  length-track_runs :
      (n r : ℕ) (t : Track W) → length t.run_buf ≤ length (track_runs handshake true n r t).run_buf
  unfolding track_runs
  length-track_runs zero r t = omega arith
  length-track_runs (suc n) r t =
      if-cases (λ (z : Track W). length t.run_buf ≤ length z.run_buf)
        (d.lt (handshake r).0 d.nought) (λ _. omega arith)
        (λ _.
          omega
            (arith, length-add_run r t, length-track_runs n (r + 1) (add_run handshake true r t)))

  -- Every counted run among the first `ok` has the counter between the bounds.
  Between : ℕ → Type 0
  Between ok =
      (r : ℕ) → 0 < r → r < ok → (lo ≤ count k (handshake r).1) × (count k (handshake r).1 ≤ hi)

  track_runs-Sound :
      (n r : ℕ) (t : Track W)
      → Between (length (track_runs handshake true n r t).run_buf)
      → hi * (length (track_runs handshake true n r t).run_buf - 1) < 2 ^ 64
      → Sound r t
      → Sound (length (track_runs handshake true n r t).run_buf) (track_runs handshake true n r t)
  unfolding track_runs Between
  track_runs-Sound zero r t between fits h = rw h.runs h
  track_runs-Sound (suc n) r t between fits h =
      if-cases
        (λ (z : Track W).
          Between (length z.run_buf)
          → hi * (length z.run_buf - 1) < 2 ^ 64
          → Sound (length z.run_buf) z)
        (d.lt (handshake r).0 d.nought) (λ _ _ _. rw h.runs h)
        (λ _ within fits_all.
          let longer = length-track_runs n (r + 1) (add_run handshake true r t) in
          let run = length-add_run r t in
          track_runs-Sound n (r + 1) (add_run handshake true r t) within fits_all (
            add_run-Sound r t (λ counted. within r counted (omega (arith, longer, run, h.runs)))
              (smaller hi r
                (length (track_runs handshake true n (r + 1) (add_run handshake true r t)).run_buf
                  - 1)
                (omega (arith, longer, run, h.runs)) fits_all)
              h))
        between fits

  -- Where the counters are open, two runs or more went through, and an upper bound of a counter's
  -- samples times their number is below 2 ^ 64, every run but the warm-up is a sample, and the
  -- counter's average is between the lower and the upper bound. The warm-up run need not be.
  pub averages-bounds :
      (num_runs : ℕ)
      → 2 ≤ length (run_track handshake true num_runs).run_buf
      → ((r : ℕ)
          → 0 < r
          → r < length (run_track handshake true num_runs).run_buf
          → (lo ≤ count k (handshake r).1) × (count k (handshake r).1 ≤ hi))
      → hi * (length (run_track handshake true num_runs).run_buf - 1) < 2 ^ 64
      → ((run_track handshake true num_runs).totals.telem_samples
          ≡ length (run_track handshake true num_runs).run_buf - 1)
        × (lo ≤ count k (averages (run_track handshake true num_runs).totals))
        × (count k (averages (run_track handshake true num_runs).totals) ≤ hi)
  unfolding run_track Between
  averages-bounds num_runs enough between fits =
      let start : Track W = record { run_buf = []; totals = zero_totals } in
      let end = track_runs handshake true num_runs 0 start in
      let sound = track_runs-Sound num_runs 0 start between fits (record {
        runs = refl;
        samples = refl;
        low = rw (total-zero k) (omega arith);
        high = rw (total-zero k) (omega arith);
      }) in
      let ok = length end.run_buf - 1 in
      let (low, high) =
        quotient-between lo hi ok (total k end.totals) (omega arith) sound.low sound.high in
      let not_zero : (ok == 0) ≡ false = ground arith in
      (
        sound.samples,
        rw (count-averages k end.totals, sound.samples, not_zero) low,
        rw (count-averages k end.totals, sound.samples, not_zero) high,
      )
