-- ===== src/Algo.antt =====
-- c_dispatch/include/algo_config.h: the table of algorithm combinations and its lookup.
pub mod Table
use hybrid_pqc_benchmarking.Prelude.{
  ℕ, String, Bool, true, false, Option, none, some, List, [], ◌∷◌, if◌then◌else◌,
}
use hybrid_pqc_benchmarking.Prelude.Int.{ℤ, pos, eqb_ℤ}

-- `PROFILE_*`
pub data Profile : Type 0 where
  hybrid pure_classical pure_quantum : Profile

-- `CURVE_*`
pub data Curve : Type 0 where
  curve_none x25519 p256 p384 : Curve

-- `PQC_*`
pub data Pqc : Type 0 where
  pqc_none mlkem_768 mlkem_1024 frodokem_1344 bike_l5 : Pqc

-- `pqc_name` is NULL where the combination has no post-quantum part.
pub record AlgoCombo : Type 0 where
  pub id : ℕ
  pub label : String
  pub profile : Profile
  pub classical_curve : Curve
  pub pqc_alg : Pqc
  pub pqc_name : Option String
  pub info : String

abbrev pub is_hybrid : Profile → Bool
is_hybrid hybrid = true
is_hybrid _ = false

abbrev pub is_pure_classical : Profile → Bool
is_pure_classical pure_classical = true
is_pure_classical _ = false

abbrev pub is_pure_quantum : Profile → Bool
is_pure_quantum pure_quantum = true
is_pure_quantum _ = false

abbrev pub is_curve_none : Curve → Bool
is_curve_none curve_none = true
is_curve_none _ = false

abbrev pub is_x25519 : Curve → Bool
is_x25519 x25519 = true
is_x25519 _ = false

abbrev pub is_p256 : Curve → Bool
is_p256 p256 = true
is_p256 _ = false

abbrev pub is_pqc_none : Pqc → Bool
is_pqc_none pqc_none = true
is_pqc_none _ = false

abbrev pub is_mlkem_768 : Pqc → Bool
is_mlkem_768 mlkem_768 = true
is_mlkem_768 _ = false

abbrev pub combo : ℕ → String → Profile → Curve → Pqc → Option String → String → AlgoCombo
combo i l p c q n f = record {
  id = i;
  label = l;
  profile = p;
  classical_curve = c;
  pqc_alg = q;
  pqc_name = n;
  info = f;
}

abbrev pub algorithm_combos : List AlgoCombo
algorithm_combos =
    combo 1 "Hybrid: X25519 + ML-KEM-768" hybrid x25519 mlkem_768 (some "ML-KEM-768")
      "Hybrid-X25519-MLKEM768-v1"
    ∷ combo 2 "Hybrid: SecP256r1 + ML-KEM-768" hybrid p256 mlkem_768 (some "ML-KEM-768")
        "Hybrid-P256-MLKEM768-v1"
    ∷ combo 3 "Hybrid: SecP384r1 + ML-KEM-1024" hybrid p384 mlkem_1024 (some "ML-KEM-1024")
        "Hybrid-P384-MLKEM1024-v1"
    ∷ combo 9 "Hybrid: SecP384r1 + FrodoKEM-1344" hybrid p384 frodokem_1344
        (some "FrodoKEM-1344-AES") "Hybrid-P384-Frodo1344-v1"
    ∷ combo 10 "Hybrid: SecP384r1 + BIKE-L5" hybrid p384 bike_l5 (some "BIKE-L5")
        "Hybrid-P384-BIKEL5-v1"
    ∷ combo 4 "Pure Classical: X25519" pure_classical x25519 pqc_none none
        "Pure-Classical-X25519-v1"
    ∷ combo 5 "Pure Classical: SecP256r1" pure_classical p256 pqc_none none "Pure-Classical-P256-v1"
    ∷ combo 8 "Pure Classical: SecP384r1" pure_classical p384 pqc_none none "Pure-Classical-P384-v1"
    ∷ combo 6 "Pure Quantum: ML-KEM-768" pure_quantum curve_none mlkem_768 (some "ML-KEM-768")
        "Pure-Quantum-MLKEM768-v1"
    ∷ combo 7 "Pure Quantum: ML-KEM-1024" pure_quantum curve_none mlkem_1024 (some "ML-KEM-1024")
        "Pure-Quantum-MLKEM1024-v1"
    ∷ []

-- The loop over the table.
unfoldable pub find_combo : List AlgoCombo → ℤ → Option AlgoCombo
find_combo [] combo_id = none
find_combo (c ∷ cs) combo_id =
    let rest = find_combo cs combo_id in if eqb_ℤ (pos c.id) combo_id then some c else rest

unfoldable pub get_combo_by_id : ℤ → Option AlgoCombo
unfolding find_combo
get_combo_by_id = find_combo algorithm_combos

unfoldable pub curve_name_str : Curve → String
curve_name_str x25519 = "X25519"
curve_name_str p256 = "P256"
curve_name_str p384 = "P384"
curve_name_str _ = "NONE"
