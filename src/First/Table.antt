-- ===== src/First/Table.antt =====
-- c/include/algo_config.h: the table of the first framework, against that of c_dispatch.
use hybrid_pqc_benchmarking.Prelude.{◌≡◌, refl, none, some, Option, List, [], ◌∷◌, All}
use hybrid_pqc_benchmarking.Prelude.Int.{ℤ, pos}
use hybrid_pqc_benchmarking.Algo.{
  AlgoCombo, hybrid, pure_classical, pure_quantum, curve_none, x25519, p256, p384, pqc_none,
  mlkem_768, mlkem_1024, combo, find_combo, get_combo_by_id,
}
use hybrid_pqc_benchmarking.Algo.Table.{find_combo-All}

abbrev pub x25519_alone : AlgoCombo
x25519_alone =
    combo 4 "Pure Classical: X25519" pure_classical x25519 pqc_none none "Pure-Classical-X25519-v1"

abbrev pub p256_alone : AlgoCombo
p256_alone =
    combo 5 "Pure Classical: SecP256r1" pure_classical p256 pqc_none none "Pure-Classical-P256-v1"

abbrev pub p384_alone : AlgoCombo
p384_alone =
    combo 8 "Pure Classical: SecP384r1" pure_classical p384 pqc_none none "Pure-Classical-P384-v1"

abbrev pub mlkem_768_alone : AlgoCombo
mlkem_768_alone =
    combo 6 "Pure Quantum: ML-KEM-768" pure_quantum curve_none mlkem_768 (some "ML-KEM-768")
      "Pure-Quantum-MLKEM768-v1"

abbrev pub mlkem_1024_alone : AlgoCombo
mlkem_1024_alone =
    combo 7 "Pure Quantum: ML-KEM-1024" pure_quantum curve_none mlkem_1024 (some "ML-KEM-1024")
      "Pure-Quantum-MLKEM1024-v1"

abbrev pub first_combos : List AlgoCombo
first_combos =
    combo 1 "Hybrid: X25519 + ML-KEM-768" hybrid x25519 mlkem_768 (some "ML-KEM-768")
      "Hybrid-X25519-MLKEM768-v1"
    ∷ combo 2 "Hybrid: SecP256r1 + ML-KEM-768" hybrid p256 mlkem_768 (some "ML-KEM-768")
        "Hybrid-P256-MLKEM768-v1"
    ∷ combo 3 "Hybrid: SecP384r1 + ML-KEM-1024" hybrid p384 mlkem_1024 (some "ML-KEM-1024")
        "Hybrid-P384-MLKEM1024-v1"
    ∷ x25519_alone
    ∷ p256_alone
    ∷ p384_alone
    ∷ mlkem_768_alone
    ∷ mlkem_1024_alone
    ∷ []

unfoldable pub first_combo_by_id : ℤ → Option AlgoCombo
unfolding find_combo
first_combo_by_id = find_combo first_combos

first_combos-known : All (λ c. get_combo_by_id (pos c.id) ≡ some c) first_combos
unfolding get_combo_by_id find_combo
first_combos-known = assumption refl

-- Whatever combination the first framework finds for an identifier, c_dispatch finds the same one.
pub first_combo_by_id-same :
    (i : ℤ) (c : AlgoCombo) → first_combo_by_id i ≡ some c → get_combo_by_id i ≡ some c
unfolding first_combo_by_id
first_combo_by_id-same i c h =
    let (known, id) =
      find_combo-All (λ x. get_combo_by_id (pos x.id) ≡ some x) first_combos i first_combos-known
        h in
    rw (← id) known
