-- ===== src/Dispatch.antt =====
-- c_dispatch/src/dispatcher.c: the routing decision, a function of the combination and the host.
pub mod Rules
pub mod Execute
use hybrid_pqc_benchmarking.Prelude.{String, true, false, ◌&&◌, ◌||◌, not, if◌then◌else◌}
use hybrid_pqc_benchmarking.Prelude.Int.{pos, leb_ℤ}
use hybrid_pqc_benchmarking.Algo.{
  AlgoCombo, is_hybrid, is_pqc_none, is_curve_none, is_x25519, is_mlkem_768,
}
use hybrid_pqc_benchmarking.Host.{HostProfile}

pub data DispatchRoute : Type 0 where
  route_sequential route_parallel : DispatchRoute

-- The global profile that the source reads is the second argument.
unfoldable pub adaptive_dispatch : AlgoCombo → HostProfile → DispatchRoute
adaptive_dispatch combo hp =
    if not (is_hybrid combo.profile)
      || is_pqc_none combo.pqc_alg
      || is_curve_none combo.classical_curve
    then route_sequential
    else if leb_ℤ hp.logical_cores (pos 1)
    then route_sequential
    else if hp.is_virtualized && leb_ℤ hp.logical_cores (pos 2)
    then route_sequential
    else if is_x25519 combo.classical_curve && is_mlkem_768 combo.pqc_alg
    then route_sequential
    else if leb_ℤ (pos 2) hp.logical_cores
    then route_parallel
    else route_sequential

unfoldable pub route_name : DispatchRoute → String
route_name route_sequential = "Sequential"
route_name route_parallel = "Parallel"
