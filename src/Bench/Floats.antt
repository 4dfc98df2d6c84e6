-- ===== src/Bench/Floats.antt =====
-- All that benchmark_suite.c does with a `double`.
use hybrid_pqc_benchmarking.Prelude.{ℕ, ◌≤◌, ◌≡◌, ◌⊎◌, Bool, true, false}
use hybrid_pqc_benchmarking.Prelude.Int.{ℤ, pos}

-- The constants are 0.0, 1000.0, 1e6, 0.50, 0.95 and 0.99. `to_int` is the conversion to `int`.
pub record Double (W : Type 0) : Type 0 where
  pub nought : W
  pub k1000 : W
  pub k1e6 : W
  pub c50 : W
  pub c95 : W
  pub c99 : W
  pub lt : W → W → Bool
  pub add : W → W → W
  pub mul : W → W → W
  pub div : W → W → W
  pub of_long : ℤ → W
  pub to_int : W → ℕ

-- What IEEE 754 says of `<`, with `is_number` false for a NaN only, and of a product with
-- constants below 1 that is rounded and then truncated.
pub record IsLawfulDouble (W : Type 0) ⦃d : Double W⦄ : Type 0 where
  pub is_number : W → Bool
  pub lt_asymm : (x y : W) → d.lt x y ≡ true → d.lt y x ≡ false
  pub lt_split :
      (x y z : W) → is_number y ≡ true → d.lt x z ≡ true → (d.lt x y ≡ true) ⊎ (d.lt y z ≡ true)
  pub rank_c50 :
      (n : ℕ)
      → d.to_int (d.mul (d.of_long (pos n)) d.c50) ≤ d.to_int (d.mul (d.of_long (pos n)) d.c95)
  pub rank_c95 :
      (n : ℕ)
      → d.to_int (d.mul (d.of_long (pos n)) d.c95) ≤ d.to_int (d.mul (d.of_long (pos n)) d.c99)
  pub rank_c99 : (n : ℕ) → d.to_int (d.mul (d.of_long (pos n)) d.c99) ≤ n
