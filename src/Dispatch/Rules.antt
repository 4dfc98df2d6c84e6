-- ===== src/Dispatch/Rules.antt =====
-- When the router chooses the parallel engine.
use hybrid_pqc_benchmarking.Prelude.{ℕ, ◌≤◌, ◌≡◌, ◌≢◌, ◌↔◌, Bool, true, false, arith}
use hybrid_pqc_benchmarking.Prelude.Int.{pos, AtLeast}
use hybrid_pqc_benchmarking.Algo.{AlgoCombo, hybrid, curve_none, x25519, pqc_none, mlkem_768}
use hybrid_pqc_benchmarking.Host.{HostProfile}
use hybrid_pqc_benchmarking.Dispatch.{route_parallel, adaptive_dispatch}

-- The cores that a host needs before a second thread pays.
abbrev pub min_cores : Bool → ℕ
min_cores true = 3
min_cores false = 2

-- The conditions under which the two parts of a handshake are worth two threads.
pub record IsParallel (combo : AlgoCombo) (hp : HostProfile) : Type 0 where
  pub is_hybrid_profile : combo.profile ≡ hybrid
  pub has_curve : combo.classical_curve ≢ curve_none
  pub has_pqc : combo.pqc_alg ≢ pqc_none
  pub heavy : ¬ ((combo.classical_curve ≡ x25519) × (combo.pqc_alg ≡ mlkem_768))
  pub cores : AtLeast (min_cores hp.is_virtualized) hp.logical_cores

-- The route is parallel exactly for a hybrid combination with both parts, other than X25519 with
-- ML-KEM-768, on a host with at least two cores, or three if it is virtualized.
pub adaptive_dispatch_iff :
    (combo : AlgoCombo) (hp : HostProfile)
    → (adaptive_dispatch combo hp ≡ route_parallel) ↔ IsParallel combo hp
unfolding adaptive_dispatch
adaptive_dispatch_iff combo hp = (λ h. ground arith, λ p. ground arith)

-- A wider host never turns a parallel route back into a sequential one.
adaptive_dispatch_mono :
    (combo : AlgoCombo) (hp : HostProfile) (m n : ℕ)
    → m ≤ n
    → adaptive_dispatch combo (record hp { logical_cores = pos m }) ≡ route_parallel
    → adaptive_dispatch combo (record hp { logical_cores = pos n }) ≡ route_parallel
unfolding adaptive_dispatch
adaptive_dispatch_mono combo hp m n h p = ground arith
