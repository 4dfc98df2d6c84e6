-- ===== src/First/Trained.antt =====
-- The weights that c/bench_baselines.c writes, as c/bench_hybrid.c reads them.
use hybrid_pqc_benchmarking.Prelude.{ℕ, Option, none, some}
use hybrid_pqc_benchmarking.Algo.{AlgoCombo}
use hybrid_pqc_benchmarking.Bench.{Double}
use hybrid_pqc_benchmarking.First.Table.{
  first_combos, x25519_alone, p256_alone, p384_alone, mlkem_768_alone, mlkem_1024_alone,
}
use hybrid_pqc_benchmarking.First.Costs.{CjsonTree, CostModel, stable, weights_from, zero_model}
use hybrid_pqc_benchmarking.First.Weights.{IsLawfulTree}

module _ {W : Type 0} ⦃d : Double W⦄ (json : CjsonTree W) (J : IsLawfulTree json)
    (handshake : AlgoCombo → ℕ → W) (num_runs : ℕ) where
  abbrev weights : json.Object
  weights = weights_from json handshake num_runs json.create_object first_combos

  -- A cost as its digits give it back, and 0 for a profile that failed.
  abbrev pub as_read : Option W → W
  as_read none = d.nought
  as_read (some x) = J.reread x

  -- The cost model of the stable costs; those of the key derivations are measured later.
  abbrev pub trained : CostModel W
  trained =
      let cost = λ (c : AlgoCombo). as_read (stable handshake num_runs c) in
      record zero_model {
        x25519_cost = cost x25519_alone;
        p256_cost = cost p256_alone;
        p384_cost = cost p384_alone;
        mlkem768_cost = cost mlkem_768_alone;
        mlkem1024_cost = cost mlkem_1024_alone;
      }
