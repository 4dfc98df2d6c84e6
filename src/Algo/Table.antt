-- ===== src/Algo/Table.antt =====
-- What the lookup in the table of algorithm combinations gives.
use mathlib.Core.Path.{subst}
use mathlib.Core.Option.{some-injective}
use hybrid_pqc_benchmarking.Prelude.{
  ℕ, ◌≡◌, refl, String, true, Option, none, some, List, [], ◌∷◌, arith, All, Bool-cases, inl, inr,
}
use hybrid_pqc_benchmarking.Prelude.Int.{ℤ, pos, negsuc, eqb_ℤ}
use hybrid_pqc_benchmarking.Algo.{
  Pqc, pqc_none, mlkem_768, mlkem_1024, frodokem_1344, bike_l5, AlgoCombo, algorithm_combos,
  find_combo, get_combo_by_id, is_curve_none, is_pqc_none, is_pure_quantum, is_pure_classical,
}

-- The liboqs name of an algorithm: the macros `OQS_*_NAME`.
abbrev pub oqs_name : Pqc → Option String
oqs_name pqc_none = none
oqs_name mlkem_768 = some "ML-KEM-768"
oqs_name mlkem_1024 = some "ML-KEM-1024"
oqs_name frodokem_1344 = some "FrodoKEM-1344-AES"
oqs_name bike_l5 = some "BIKE-L5"

-- The profile says which of the two parts are there, and the name is that of the algorithm.
pub record IsConsistent (c : AlgoCombo) : Type 0 where
  pub curve : is_curve_none c.classical_curve ≡ is_pure_quantum c.profile
  pub pqc : is_pqc_none c.pqc_alg ≡ is_pure_classical c.profile
  pub name : c.pqc_name ≡ oqs_name c.pqc_alg

algorithm_combos-IsConsistent : All IsConsistent algorithm_combos
algorithm_combos-IsConsistent = assumption refl

eqb_ℤ→eq : (a b : ℤ) → eqb_ℤ a b ≡ true → a ≡ b
eqb_ℤ→eq (pos a) (pos b) h = ground arith
eqb_ℤ→eq (negsuc a) (negsuc b) h = ground arith
eqb_ℤ→eq (pos a) (negsuc b) h = ground arith
eqb_ℤ→eq (negsuc a) (pos b) h = ground arith

pub find_combo-All {ℓ} :
    (P : AlgoCombo → Type ℓ) (cs : List AlgoCombo) (i : ℤ) {c : AlgoCombo}
    → All P cs
    → find_combo cs i ≡ some c
    → P c × (pos c.id ≡ i)
unfolding find_combo
find_combo-All P [] i ps h = cc
find_combo-All P (d ∷ cs) i {c} ps h = elim (Bool-cases (eqb_ℤ (pos d.id) i)) [
  | inl found ↦
      let e : d ≡ c = some-injective _ _ (rw found at h) in
      (subst P e ps.0, subst (λ (x : AlgoCombo). pos x.id ≡ i) e (eqb_ℤ→eq _ _ found))
  | inr other ↦ find_combo-All P cs i ps.1 (rw other at h)
]

-- A combination that the lookup finds has the identifier that was asked for, and it is consistent:
-- the curve is `curve_none` exactly in the pure quantum profile, the algorithm is `pqc_none`
-- exactly in the pure classical profile, and the name is the liboqs name of the algorithm.
pub get_combo_by_id-IsConsistent :
    (i : ℤ) (c : AlgoCombo) → get_combo_by_id i ≡ some c → IsConsistent c × (pos c.id ≡ i)
unfolding get_combo_by_id
get_combo_by_id-IsConsistent i c h =
    find_combo-All IsConsistent algorithm_combos i algorithm_combos-IsConsistent h

-- Every entry of the table is found under its own identifier, so no entry hides another.
pub get_combo_by_id_complete : All (λ c. get_combo_by_id (pos c.id) ≡ some c) algorithm_combos
unfolding get_combo_by_id
get_combo_by_id_complete = assumption refl

-- A negative identifier, such as the default -1 of a missing field, is never found.
pub get_combo_by_id-negsuc : (n : ℕ) → get_combo_by_id (negsuc n) ≡ none
unfolding get_combo_by_id
get_combo_by_id-negsuc n = refl
