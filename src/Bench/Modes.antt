-- ===== src/Bench/Modes.antt =====
-- The three modes of `run_bench` (c_dispatch/benchmark_suite.c) against each other.
use hybrid_pqc_benchmarking.Prelude.{
  ℕ, zero, suc, ◌≡◌, refl, ap, ◌∙◌, sym, true, false, arith, length,
}
use hybrid_pqc_benchmarking.External.{Openssl, Liboqs}
use hybrid_pqc_benchmarking.Algo.{AlgoCombo}
use hybrid_pqc_benchmarking.Algo.Table.{IsConsistent}
use hybrid_pqc_benchmarking.Host.{HostProfile}
use hybrid_pqc_benchmarking.Engine.{
  HandshakeRole, SharedCryptoResult, EngineState, Worlds, execute_sequential, parallel_rounds,
  execute_parallel_optimized,
}
use hybrid_pqc_benchmarking.Engine.Modes.{execute_parallel-sequential}
use hybrid_pqc_benchmarking.Dispatch.{
  DispatchRoute, route_sequential, route_parallel, adaptive_dispatch,
}
use hybrid_pqc_benchmarking.Dispatch.Execute.{
  execute_route, dispatch_execute, dispatch_execute-sequential,
}
use hybrid_pqc_benchmarking.Bench.{
  Double, Timespec, timespec_diff_ms, BenchMode, mode_strict_sequential, mode_strict_parallel,
  mode_adaptive_switch, Called, Measured, add_sample, unless_failed, bench_call, bench_loop,
  run_bench,
}

module _ (ssl : Openssl) (oqs : Liboqs) (hp : HostProfile) (role : HandshakeRole)
    (combo : AlgoCombo) (result : SharedCryptoResult) where
  -- No execution initializes the engine or shuts it down.
  execute_parallel-initialized :
      (st : EngineState) (w : Worlds ssl oqs)
      → (execute_parallel_optimized ssl oqs st combo role result w).2.initialized ≡ st.initialized
  unfolding execute_parallel_optimized parallel_rounds
  execute_parallel-initialized st w = ground arith

  execute_route-initialized :
      (route : DispatchRoute) (st : EngineState) (w : Worlds ssl oqs)
      → (execute_route ssl oqs route st combo role result w).2.initialized ≡ st.initialized
  unfolding execute_route
  execute_route-initialized route_parallel st w = execute_parallel-initialized st w
  execute_route-initialized route_sequential st w = refl

  bench_call-initialized :
      (mode : BenchMode) (st : EngineState) (w : Worlds ssl oqs)
      → (bench_call ssl oqs hp role mode st combo result w).2.initialized ≡ st.initialized
  unfolding bench_call dispatch_execute
  bench_call-initialized mode_strict_sequential st w = refl
  bench_call-initialized mode_strict_parallel st w = execute_parallel-initialized st w
  bench_call-initialized mode_adaptive_switch st w =
      execute_route-initialized (adaptive_dispatch combo hp) st w

  module _ (c : IsConsistent combo) where
    bench_call-sequential :
        (mode : BenchMode) (st : EngineState) (w : Worlds ssl oqs)
        → st.initialized ≡ true
        → let b = bench_call ssl oqs hp role mode st combo result w in
          let s = execute_sequential ssl oqs combo role w in (b.0 ≡ s.0) × (s.0 ≡ true → b.3 ≡ s.2)
    unfolding bench_call
    bench_call-sequential mode_strict_sequential st w ready = (refl, λ _. refl)
    bench_call-sequential mode_strict_parallel st w ready =
        let (e, k) = execute_parallel-sequential ssl oqs st combo role result w c ready in
        (e, λ ok. (k ok).1)
    bench_call-sequential mode_adaptive_switch st w ready =
        let (e, k) = dispatch_execute-sequential ssl oqs hp st combo role result w c ready in
        (e, λ ok. (k ok).1)

    module _ {W : Type 0} where
      -- Two loops end alike: the code, and after a success as many samples and equal libraries.
      abbrev Alike : ℕ → Measured ssl oqs hp role W → Measured ssl oqs hp role W → Type 0
      Alike n b s = (b.0 ≡ s.0) × (s.0 ≡ true → (length b.1 ≡ n) × (length s.1 ≡ n) × (b.3 ≡ s.3))

      add_sample-Alike :
          (n : ℕ) (x : W) (b s : Measured ssl oqs hp role W)
          → Alike n b s
          → Alike (suc n) (add_sample ssl oqs hp role x b) (add_sample ssl oqs hp role x s)
      add_sample-Alike n x (o, l, st, w) (o', l', st', w') (e, k) =
          (e, λ ok. (ap suc (k ok).0, ap suc (k ok).1, (k ok).2))

      unless_failed-Alike :
          (n : ℕ) (x : W) (f g : EngineState → Worlds ssl oqs → Measured ssl oqs hp role W)
          (b s : Called ssl oqs hp role)
          → b.0 ≡ s.0
          → (s.0 ≡ true → b.3 ≡ s.3)
          → ((v : Worlds ssl oqs) → Alike n (f b.2 v) (g s.2 v))
          → Alike
              (suc n)
              (unless_failed ssl oqs hp role x f b)
              (unless_failed ssl oqs hp role x g s)
      unless_failed-Alike n x f g (true, r, st, w) (true, r', st', w') e k h =
          rw (k refl) (add_sample-Alike n x (f st w') (g st' w') (h w'))
      unless_failed-Alike n x f g (false, r, st, w) (false, r', st', w') e k h =
          (refl, λ ok. absurd (ground arith))
      unless_failed-Alike n x f g (true, r, st, w) (false, r', st', w') e k h =
          absurd (ground arith)
      unless_failed-Alike n x f g (false, r, st, w) (true, r', st', w') e k h =
          absurd (ground arith)

    module _ (W : Type 0) ⦃d : Double W⦄ (clock : ℕ → Timespec × Timespec) where
      bench_loop-Alike :
          (mode mode' : BenchMode) (n i : ℕ) (st st' : EngineState) (w : Worlds ssl oqs)
          → st.initialized ≡ true
          → st'.initialized ≡ true
          → Alike {W = W} n
              (bench_loop ssl oqs hp role combo mode result clock n i st w)
              (bench_loop ssl oqs hp role combo mode' result clock n i st' w)
      unfolding bench_loop
      bench_loop-Alike mode mode' zero i st st' w h h' = (refl, λ _. (refl, refl, refl))
      bench_loop-Alike mode mode' (suc n) i st st' w h h' =
          let (e, k) = bench_call-sequential mode st w h in
          let (e', k') = bench_call-sequential mode' st' w h' in
          unless_failed-Alike {W = W} n (timespec_diff_ms (clock i).0 (clock i).1)
            (bench_loop ssl oqs hp role combo mode result clock n (suc i))
            (bench_loop ssl oqs hp role combo mode' result clock n (suc i))
            (bench_call ssl oqs hp role mode st combo result w)
            (bench_call ssl oqs hp role mode' st' combo result w) (e ∙ sym e')
            (λ ok. k (sym e' ∙ ok) ∙ sym (k' (sym e' ∙ ok)))
            (λ v.
              bench_loop-Alike mode mode' n (suc i) _ _ v (bench_call-initialized mode st w ∙ h)
                (bench_call-initialized mode' st' w ∙ h'))

      -- On an initialized engine and for a combination of the table, any two modes measure the
      -- same work: both loops succeed or both fail, and where they succeed each has taken one
      -- sample an iteration and left the libraries in the same state.
      pub run_bench-Alike :
          (mode mode' : BenchMode) (n_iter : ℕ) (st st' : EngineState) (w : Worlds ssl oqs)
          → st.initialized ≡ true
          → st'.initialized ≡ true
          → let b = run_bench ssl oqs hp role {W = W} combo mode result clock n_iter st w in
            let s = run_bench ssl oqs hp role {W = W} combo mode' result clock n_iter st' w in
            (b.0 ≡ s.0) × (s.0 ≡ true → (length b.1 ≡ n_iter) × (length s.1 ≡ n_iter) × (b.3 ≡ s.3))
      unfolding run_bench
      run_bench-Alike mode mode' n_iter st st' w h h' =
          bench_loop-Alike mode mode' n_iter 0 st st' w h h'
