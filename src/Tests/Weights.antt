-- ===== src/Tests/Weights.antt =====
-- Concrete runs of the first framework's benchmarks: weights written and read back, and averages.
use mathlib.Core.Option.{some-injective}
use hybrid_pqc_benchmarking.Prelude.{
  ℕ, ◌+◌, ◌*◌, ◌/◌, ◌≡◌, refl, ap, sym, ◌∙◌, ◌==◌, Option, none, some, String, List, [], ◌∷◌, map,
  codes, if◌then◌else◌, ◌-◌, ◌<◌, ◌≤◌, length, arith, true,
}
use hybrid_pqc_benchmarking.Prelude.Int.{pos, negsuc}
use hybrid_pqc_benchmarking.Algo.{AlgoCombo}
use hybrid_pqc_benchmarking.Bench.{Double, sum_from}
use hybrid_pqc_benchmarking.Handshake.Json.{bytes_eq}
use hybrid_pqc_benchmarking.HwTelemetry.{HwTelemetryResult}
use hybrid_pqc_benchmarking.Metrics.{metrics_mean, metrics_stable_cost}
use hybrid_pqc_benchmarking.First.Table.{first_combos}
use hybrid_pqc_benchmarking.First.Costs.{
  CjsonTree, CostModel, lower, stable, profile_runs, weights_from,
}
use hybrid_pqc_benchmarking.First.Weights.{IsLawfulTree}
use hybrid_pqc_benchmarking.First.Track.{averages, run_track, track_runs, add_run, add_counts}
use hybrid_pqc_benchmarking.First.Averages.{count, cycles, averages-bounds}
use hybrid_pqc_benchmarking.First.Trained.{trained}
use hybrid_pqc_benchmarking.Tests.Lines.{Members, print_all, read_all, read-print, bytes_eq_refl}

-- Whole numbers; 999 stands for the negative number of a handshake that failed.
instance abbrev marked_double : Double ℕ
marked_double = record {
  nought = 0;
  k1000 = 1000;
  k1e6 = 1000000;
  c50 = 50;
  c95 = 95;
  c99 = 99;
  lt = λ x y. x == 999;
  add = λ x y. x + y;
  mul = λ x y. x * y;
  div = λ x y. x / y;
  of_long = λ i. elim i [ pos n ↦ n | negsuc n ↦ 0 ];
  to_int = λ x. x;
}

abbrev found : Members → String → Option (List ℕ)
found [] name = none
found (k ∷ []) name = none
found (k ∷ v ∷ o) name =
    let rest = found o name in
    if bytes_eq (map lower k) (map lower (codes name)) then some v else rest

abbrev first_of : Option (List ℕ) → Option ℕ
first_of (some (x ∷ l)) = some x
first_of _ = none

abbrev inner : Option (List ℕ) → Option Members
inner none = none
inner (some v) = some (read_all v)

-- A value is a text, a number alone, or an object's text.
abbrev tree : CjsonTree ℕ
tree = record {
  Object = Members;
  create_object = [];
  add_string = λ o name text. codes name ∷ codes text ∷ o;
  add_number = λ o name x. codes name ∷ (x ∷ []) ∷ o;
  add_item = λ o name i. codes name ∷ print_all i ∷ o;
  get_item = λ o name. inner (found o name);
  get_number = λ o name. first_of (found o name);
  print = λ o. some (print_all o);
  parse = λ text. some (read_all text);
}

reads_back :
    (o o' : Members) (text : List ℕ)
    → some (print_all o) ≡ some text
    → some (read_all text) ≡ some o'
    → o ≡ o'
reads_back o o' text printed parsed =
    sym (read-print o) ∙ ap read_all (some-injective _ _ printed) ∙ some-injective _ _ parsed

tree-lawful : IsLawfulTree tree
tree-lawful = record {
  reread = λ x. x;
  get-create = λ name. refl;
  get-add_item = λ o i name h. rw (bytes_eq_refl (map lower (codes name))) (ap some (read-print i));
  get-add_item_other = λ o i name other h. rw h refl;
  get-add_number = λ label profile x. refl;
  parses = λ o text printed. (read_all text, refl);
  parse-print_missing =
      λ o o' text name printed parsed h. rw (← reads_back o o' text printed parsed) h;
  parse-print_number = λ o o' i text name member x printed parsed e f.
      (i, rw (← reads_back o o' text printed parsed) e, f);
}

-- Runs of 10 times the identifier, after a cold start; the second run of P-256 fails.
abbrev runs : AlgoCombo → ℕ → ℕ
runs c r = if c.id == 5 then (if r == 1 then 999 else 50) else if r == 0 then 500 else c.id * 10

abbrev written : Members
written = weights_from tree runs 3 [] first_combos

trained_model : CostModel ℕ
trained_model = record {
  x25519_cost = 40;
  p256_cost = 0;
  p384_cost = 80;
  mlkem768_cost = 60;
  mlkem1024_cost = 70;
  sha256_kdf_cost = 0;
  blake3_kdf_cost = 0;
}

runs-trained : trained tree tree-lawful runs 3 ≡ trained_model
unfolding trained_model tree-lawful stable profile_runs metrics_stable_cost metrics_mean sum_from
runs-trained = refl

-- Four runs: the warm-up, two samples, and one that fails.
abbrev counted_run : ℕ → ℕ × HwTelemetryResult
counted_run r = (
  if r == 3 then 999 else 20,
  record {
    cpu_cycles = if r == 0 then 9000 else 100 * r;
    instructions = 300;
    ipc = none;
    l1_cache_misses = 7;
    l2_cache_misses = 1;
    context_switches = 0;
    cpu_migrations = 0;
    page_faults = 2;
  },
)

three_runs : length (run_track counted_run true 4).run_buf ≡ 3
unfolding run_track track_runs add_run
three_runs = refl

cycles-averages : count cycles (averages (run_track counted_run true 4).totals) ≡ 150
unfolding run_track track_runs add_run add_counts averages
cycles-averages = refl

counted_run-between :
    (r : ℕ)
    → 0 < r
    → r < 3
    → (100 ≤ count cycles (counted_run r).1) × (count cycles (counted_run r).1 ≤ 200)
counted_run-between r h k = (ground arith, ground arith)

averages-bounds_example :
    ((run_track counted_run true 4).totals.telem_samples
      ≡ length (run_track counted_run true 4).run_buf - 1)
    × (100 ≤ count cycles (averages (run_track counted_run true 4).totals))
    × (count cycles (averages (run_track counted_run true 4).totals) ≤ 200)
averages-bounds_example =
    averages-bounds counted_run cycles 100 200 4 (omega (arith, three_runs))
      (λ r some_runs h. counted_run-between r some_runs (omega (arith, three_runs, h)))
      (rw three_runs (omega arith))
