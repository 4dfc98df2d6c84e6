-- ===== src/First/Costs.antt =====
-- c/bench_baselines.c: the baselines and the file of weights that they make; c/bench_hybrid.c: the
-- cost model that is read from the file, and its predictions.
use hybrid_pqc_benchmarking.Prelude.{
  ℕ, zero, suc, ◌+◌, leb, ◌&&◌, ◌||◌, Bool, Option, none, some, String, List, [], ◌∷◌, map, codes,
  str_eq, if◌then◌else◌,
}
use hybrid_pqc_benchmarking.Algo.{
  AlgoCombo, Curve, x25519, p256, p384, Pqc, mlkem_768, mlkem_1024, is_pure_classical,
  is_pure_quantum, curve_name_str,
}
use hybrid_pqc_benchmarking.Bench.{Double}
use hybrid_pqc_benchmarking.Handshake.Json.{bytes_eq}
use hybrid_pqc_benchmarking.Metrics.{metrics_stable_cost}

-- cJSON with nested objects and numbers. `get_item` ignores the case of a name.
pub record CjsonTree (W : Type 0) : Type 1 where
  pub Object : Type 0
  pub create_object : Object
  pub add_string : Object → String → String → Object
  pub add_number : Object → String → W → Object
  pub add_item : Object → String → Object → Object
  pub get_item : Object → String → Option Object
  pub get_number : Object → String → Option W
  pub print : Object → Option (List ℕ)
  pub parse : List ℕ → Option Object

abbrev pub lower : ℕ → ℕ
lower c = if leb b'A' c && leb c b'Z' then c + 32 else c

-- `strcasecmp(a, b) == 0`
abbrev pub same_name : String → String → Bool
same_name a b = bytes_eq (map lower (codes a)) (map lower (codes b))

pub record CostModel (W : Type 0) : Type 0 where
  pub x25519_cost : W
  pub p256_cost : W
  pub p384_cost : W
  pub mlkem768_cost : W
  pub mlkem1024_cost : W
  pub sha256_kdf_cost : W
  pub blake3_kdf_cost : W

module _ {W : Type 0} ⦃d : Double W⦄ where
  unfoldable pub get_classical_cost : CostModel W → Curve → W
  get_classical_cost m x25519 = m.x25519_cost
  get_classical_cost m p256 = m.p256_cost
  get_classical_cost m p384 = m.p384_cost
  get_classical_cost m _ = d.nought

  unfoldable pub get_pqc_cost : CostModel W → Pqc → W
  get_pqc_cost m mlkem_768 = m.mlkem768_cost
  get_pqc_cost m mlkem_1024 = m.mlkem1024_cost
  get_pqc_cost m _ = d.nought

  unfoldable pub get_kdf_cost : CostModel W → String → W
  get_kdf_cost m kdf = if str_eq kdf "blake3" then m.blake3_kdf_cost else m.sha256_kdf_cost

  unfoldable pub seq_pred : CostModel W → AlgoCombo → String → W
  unfolding get_classical_cost get_pqc_cost get_kdf_cost
  seq_pred m combo kdf =
      d.add (d.add (get_classical_cost m combo.classical_curve) (get_pqc_cost m combo.pqc_alg))
        (get_kdf_cost m kdf)

  -- `fmax` is that of the C library.
  unfoldable pub par_pred : (W → W → W) → CostModel W → AlgoCombo → String → W
  unfolding get_classical_cost get_pqc_cost get_kdf_cost
  par_pred fmax m combo kdf =
      d.add (fmax (get_classical_cost m combo.classical_curve) (get_pqc_cost m combo.pqc_alg))
        (get_kdf_cost m kdf)

  -- The runs of one profile, from run `r` on with `n` to go: their times, or a run that failed.
  unfoldable pub profile_runs : (ℕ → W) → ℕ → ℕ → Option (List W)
  profile_runs handshake zero r = some []
  profile_runs handshake (suc n) r =
      let rest = profile_runs handshake n (r + 1) in
      if d.lt (handshake r) d.nought
      then none
      else elim rest [ none ↦ none | some run_buf ↦ some (handshake r ∷ run_buf) ]

  abbrev cost_of : Option (List W) → Option W
  cost_of none = none
  cost_of (some run_buf) = some (metrics_stable_cost run_buf)

  -- The cost of a profile that went through; `goto next_combo` for the others.
  unfoldable pub stable : (AlgoCombo → ℕ → W) → ℕ → AlgoCombo → Option W
  unfolding profile_runs
  stable handshake num_runs combo = cost_of (profile_runs (handshake combo) num_runs 0)

  module _ (json : CjsonTree W) where
    abbrev name_of : Option String → String
    name_of none = ""
    name_of (some name) = name

    unfoldable pub algo_key : AlgoCombo → String
    unfolding curve_name_str
    algo_key combo =
        if is_pure_classical combo.profile
        then curve_name_str combo.classical_curve
        else name_of combo.pqc_name

    unfoldable pub weight_entry : AlgoCombo → W → json.Object
    weight_entry combo cost =
        let profile =
          if is_pure_classical combo.profile then "pure_classical" else "pure_quantum" in
        json.add_number
          (json.add_string (json.add_string json.create_object "label" combo.label) "profile"
            profile)
          "stable_cost_ms" cost

    abbrev pub with_cost : json.Object → AlgoCombo → Option W → json.Object
    with_cost weights combo none = weights
    with_cost weights combo (some cost) =
        json.add_item weights (algo_key combo) (weight_entry combo cost)

    -- One round of the loop; the hybrid profiles are skipped.
    unfoldable pub add_baseline : (AlgoCombo → ℕ → W) → ℕ → json.Object → AlgoCombo → json.Object
    add_baseline handshake num_runs weights combo =
        if is_pure_classical combo.profile || is_pure_quantum combo.profile
        then with_cost weights combo (stable handshake num_runs combo)
        else weights

    unfoldable pub weights_from :
        (AlgoCombo → ℕ → W) → ℕ → json.Object → List AlgoCombo → json.Object
    weights_from handshake num_runs weights [] = weights
    weights_from handshake num_runs weights (c ∷ cs) =
        weights_from handshake num_runs (add_baseline handshake num_runs weights c) cs

    -- One of the reads of `load_weights`. An item without the member makes the program read
    -- through a NULL pointer, and no model results.
    unfoldable pub read_cost : json.Object → String → W → Option W
    read_cost root name old = elim (json.get_item root name) [
      | none ↦ some old
      | some item ↦ json.get_number item "stable_cost_ms"
    ]

    infixl 5 ◌>>=◌
    abbrev ◌>>=◌ : {A B : Type 0} → Option A → (A → Option B) → Option B
    none >>= f = none
    some a >>= f = f a

    unfoldable pub read_costs : json.Object → CostModel W → Option (CostModel W)
    read_costs root m = do
      a ← read_cost root "X25519" m.x25519_cost
      b ← read_cost root "P256" m.p256_cost
      c ← read_cost root "P384" m.p384_cost
      e ← read_cost root "ML-KEM-768" m.mlkem768_cost
      f ← read_cost root "ML-KEM-1024" m.mlkem1024_cost
      some (record m {
        x25519_cost = a;
        p256_cost = b;
        p384_cost = c;
        mlkem768_cost = e;
        mlkem1024_cost = f;
      })

    -- The file's text, if there is a file; `none` is -1.
    unfoldable pub load_weights : Option (List ℕ) → CostModel W → Option (CostModel W)
    load_weights file m = do buf ← file; root ← json.parse buf; read_costs root m

  abbrev pub zero_model : CostModel W
  zero_model = record {
    x25519_cost = d.nought;
    p256_cost = d.nought;
    p384_cost = d.nought;
    mlkem768_cost = d.nought;
    mlkem1024_cost = d.nought;
    sha256_kdf_cost = d.nought;
    blake3_kdf_cost = d.nought;
  }
