-- ===== src/Dispatch/Execute.antt =====
-- `dispatch_execute` of c_dispatch/src/dispatcher.c: the routing decision, then the engine.
use hybrid_pqc_benchmarking.Prelude.{◌≡◌, refl, Bool, true}
use hybrid_pqc_benchmarking.External.{Openssl, Liboqs}
use hybrid_pqc_benchmarking.Algo.{AlgoCombo}
use hybrid_pqc_benchmarking.Algo.Table.{IsConsistent}
use hybrid_pqc_benchmarking.Host.{HostProfile}
use hybrid_pqc_benchmarking.Engine.{
  HandshakeRole, SharedCryptoResult, EngineState, Worlds, execute_sequential,
  execute_parallel_optimized,
}
use hybrid_pqc_benchmarking.Engine.Modes.{execute_parallel-sequential}
use hybrid_pqc_benchmarking.Dispatch.{
  DispatchRoute, route_sequential, route_parallel, adaptive_dispatch,
}

module _ (ssl : Openssl) (oqs : Liboqs) where
  unfoldable pub execute_route :
      DispatchRoute
      → EngineState
      → AlgoCombo
      → HandshakeRole
      → SharedCryptoResult
      → Worlds ssl oqs
      → Bool × SharedCryptoResult × EngineState × Worlds ssl oqs
  execute_route route_parallel st combo role result w =
      execute_parallel_optimized ssl oqs st combo role result w
  execute_route route_sequential st combo role result w =
      let (rc, r, w') = execute_sequential ssl oqs combo role w in (rc, r, st, w')

  unfoldable pub dispatch_execute :
      HostProfile
      → EngineState
      → AlgoCombo
      → HandshakeRole
      → SharedCryptoResult
      → Worlds ssl oqs
      → Bool × SharedCryptoResult × EngineState × Worlds ssl oqs
  unfolding execute_route
  dispatch_execute hp st combo role result w =
      execute_route (adaptive_dispatch combo hp) st combo role result w

  execute_route-sequential :
      (route : DispatchRoute) (st : EngineState) (combo : AlgoCombo) (role : HandshakeRole)
      (result : SharedCryptoResult) (w : Worlds ssl oqs)
      → IsConsistent combo
      → st.initialized ≡ true
      → let d = execute_route route st combo role result w in
        let s = execute_sequential ssl oqs combo role w in
        (d.0 ≡ s.0) × (s.0 ≡ true → (d.1 ≡ s.1) × (d.3 ≡ s.2))
  unfolding execute_route
  execute_route-sequential route_parallel st combo role result w c ready =
      execute_parallel-sequential ssl oqs st combo role result w c ready
  execute_route-sequential route_sequential st combo role result w c ready =
      (refl, λ _. (refl, refl))

  -- Routing is transparent: on an initialized engine and for every combination of the table, what
  -- the router chooses for the host makes no difference to the success of the key exchange, and
  -- none to the secrets and the libraries' states where it succeeds.
  pub dispatch_execute-sequential :
      (hp : HostProfile) (st : EngineState) (combo : AlgoCombo) (role : HandshakeRole)
      (result : SharedCryptoResult) (w : Worlds ssl oqs)
      → IsConsistent combo
      → st.initialized ≡ true
      → let d = dispatch_execute hp st combo role result w in
        let s = execute_sequential ssl oqs combo role w in
        (d.0 ≡ s.0) × (s.0 ≡ true → (d.1 ≡ s.1) × (d.3 ≡ s.2))
  unfolding dispatch_execute
  dispatch_execute-sequential hp st combo role result w c ready =
      execute_route-sequential (adaptive_dispatch combo hp) st combo role result w c ready
