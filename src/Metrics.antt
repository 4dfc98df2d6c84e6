-- ===== src/Metrics.antt =====
-- c/src/metrics.c: the statistics of the first framework. An array and its count are one list.
pub mod Range
use hybrid_pqc_benchmarking.Prelude.{ℕ, ◌-◌, List, [], ◌∷◌, if◌then◌else◌, length}
use hybrid_pqc_benchmarking.Prelude.Int.{pos}
use hybrid_pqc_benchmarking.Bench.{Double, sum_from}

module _ {W : Type 0} ⦃d : Double W⦄ where
  unfoldable pub metrics_mean : List W → W
  metrics_mean [] = d.nought
  metrics_mean (x ∷ l) = d.div (sum_from d.nought (x ∷ l)) (d.of_long (pos (length (x ∷ l))))

  -- The first sample is the cold start, and it is skipped where there is another one.
  unfoldable pub metrics_stable_cost : List W → W
  metrics_stable_cost [] = metrics_mean []
  metrics_stable_cost (x ∷ []) = metrics_mean (x ∷ [])
  metrics_stable_cost (x ∷ y ∷ l) = metrics_mean (y ∷ l)

  unfoldable pub min_from : W → List W → W
  min_from m [] = m
  min_from m (x ∷ l) = min_from (if d.lt x m then x else m) l

  unfoldable pub metrics_min : List W → W
  metrics_min [] = d.nought
  metrics_min (x ∷ l) = min_from x l

  unfoldable pub max_from : W → List W → W
  max_from m [] = m
  max_from m (x ∷ l) = max_from (if d.lt m x then x else m) l

  unfoldable pub metrics_max : List W → W
  metrics_max [] = d.nought
  metrics_max (x ∷ l) = max_from x l

  module _ (sub : W → W → W) (sqrt : W → W) where
    unfoldable pub squares_from : W → W → List W → W
    squares_from mean variance [] = variance
    squares_from mean variance (x ∷ l) =
        squares_from mean (d.add variance (d.mul (sub x mean) (sub x mean))) l

    unfoldable pub metrics_stddev : List W → W
    metrics_stddev [] = d.nought
    metrics_stddev (x ∷ []) = d.nought
    metrics_stddev (x ∷ y ∷ l) =
        let vals = x ∷ y ∷ l in
        sqrt (
          d.div (squares_from (metrics_mean vals) d.nought vals)
            (d.of_long (pos (length vals - 1))))
