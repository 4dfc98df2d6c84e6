-- ===== src/First/Track.antt =====
-- c/bench_hybrid.c: the runs of `run_hybrid_track` for one combination, and the counters' averages.
use hybrid_pqc_benchmarking.Prelude.{
  ℕ, zero, suc, ◌+◌, ◌/◌, ◌%◌, ◌^◌, Bool, ◌&&◌, ◌==◌, ltb, none, some, List, [], ◌∷◌, ◌++◌,
  if◌then◌else◌,
}
use hybrid_pqc_benchmarking.Bench.{Double}
use hybrid_pqc_benchmarking.HwTelemetry.{HwTelemetryResult}

pub record Totals : Type 0 where
  pub tot_cycles : ℕ
  pub tot_instr : ℕ
  pub tot_l1 : ℕ
  pub tot_l2 : ℕ
  pub tot_csw : ℕ
  pub tot_mig : ℕ
  pub tot_pgf : ℕ
  pub telem_samples : ℕ

abbrev pub zero_totals : Totals
zero_totals = record {
  tot_cycles = 0;
  tot_instr = 0;
  tot_l1 = 0;
  tot_l2 = 0;
  tot_csw = 0;
  tot_mig = 0;
  tot_pgf = 0;
  telem_samples = 0;
}

-- `uint64_t` addition.
abbrev pub plus : ℕ → ℕ → ℕ
plus a b = (a + b) % 2 ^ 64

unfoldable pub add_counts : Totals → HwTelemetryResult → Totals
add_counts t tr = record {
  tot_cycles = plus t.tot_cycles tr.cpu_cycles;
  tot_instr = plus t.tot_instr tr.instructions;
  tot_l1 = plus t.tot_l1 tr.l1_cache_misses;
  tot_l2 = plus t.tot_l2 tr.l2_cache_misses;
  tot_csw = plus t.tot_csw tr.context_switches;
  tot_mig = plus t.tot_mig tr.cpu_migrations;
  tot_pgf = plus t.tot_pgf tr.page_faults;
  telem_samples = t.telem_samples + 1;
}

-- The average of one counter: 0 without a sample.
abbrev pub avg : Totals → ℕ → ℕ
avg t total = if t.telem_samples == 0 then 0 else total / t.telem_samples

-- The row of averages; `ipc` is a quotient, where there were cycles.
unfoldable pub averages : Totals → HwTelemetryResult
averages t =
    let cycles = avg t t.tot_cycles in
    let instr = avg t t.tot_instr in
    record {
      cpu_cycles = cycles;
      instructions = instr;
      ipc = if ltb 0 cycles then some (instr, cycles) else none;
      l1_cache_misses = avg t t.tot_l1;
      l2_cache_misses = avg t t.tot_l2;
      context_switches = avg t t.tot_csw;
      cpu_migrations = avg t t.tot_mig;
      page_faults = avg t t.tot_pgf;
    }

-- The first `ok` entries of `run_buf`, and the totals.
pub record Track (W : Type 0) : Type 0 where
  pub run_buf : List W
  pub totals : Totals

module _ {W : Type 0} ⦃d : Double W⦄ (handshake : ℕ → W × HwTelemetryResult) (telem_ok : Bool) where
  -- Run `r` went through.
  unfoldable pub add_run : ℕ → Track W → Track W
  unfolding add_counts
  add_run r t = record {
    run_buf = t.run_buf ++ ((handshake r).0 ∷ []);
    totals = if ltb 0 r && telem_ok then add_counts t.totals (handshake r).1 else t.totals;
  }

  -- From run `r` on, with `n` to go.
  unfoldable pub track_runs : ℕ → ℕ → Track W → Track W
  unfolding add_run
  track_runs zero r t = t
  track_runs (suc n) r t =
      let rest = track_runs n (r + 1) (add_run r t) in
      if d.lt (handshake r).0 d.nought then t else rest

  unfoldable pub run_track : ℕ → Track W
  unfolding track_runs
  run_track num_runs = track_runs num_runs 0 (record { run_buf = []; totals = zero_totals })
