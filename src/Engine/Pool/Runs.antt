-- ===== src/Engine/Pool/Runs.antt =====
-- Every interleaving of a call of `execute_parallel_optimized` (c_dispatch/src/engine.c) ends, with
-- the result of the function that models the call.
use hybrid_pqc_benchmarking.Prelude.{
  ℕ, ◌≤◌, ◌≡◌, refl, ap, true, false, Option, none, some, List, ◌⊎◌,
}
use hybrid_pqc_benchmarking.External.{Openssl, Liboqs}
use hybrid_pqc_benchmarking.Algo.{AlgoCombo}
use hybrid_pqc_benchmarking.Engine.{
  HandshakeRole, zero_result, WorkerPool, EngineState, Worlds, store_kem, worker_kem,
  perform_kem_operation, ecdh_part, post_work, publish_work, parallel_rounds,
}
use hybrid_pqc_benchmarking.Engine.Pool.{Mine, engine_rendezvous, enter}
use hybrid_pqc_benchmarking.Rendezvous.{
  returned, asleep, Rendezvous, IsLawfulRendezvous, System, Step, Reach,
}
use hybrid_pqc_benchmarking.Rendezvous.Runs

module _ (ssl : Openssl) (oqs : Liboqs) (combo : AlgoCombo) (role : HandshakeRole) where
  abbrev R : Rendezvous WorkerPool (Mine ssl oqs combo role) oqs.World
  R = engine_rendezvous ssl oqs combo role

  abbrev Sys : Type 0
  Sys = System WorkerPool (Mine ssl oqs combo role) oqs.World

  store_kem-flags :
      (p : WorkerPool) (x : Option (List ℕ) × oqs.World)
      → (store_kem oqs p x).0.work_done ≡ p.work_done
  store_kem-flags p (none, k) = refl
  store_kem-flags p (some ss, k) = refl

  pub engine_rendezvous-lawful : IsLawfulRendezvous R
  unfolding post_work perform_kem_operation publish_work
  engine_rendezvous-lawful = record {
    has_work-post = λ p. refl;
    work_done-post = λ p. refl;
    work_done-compute = λ p k.
        store_kem-flags (record p { kem_ok = false; kem_shared_secret_len = 0 })
          (worker_kem oqs p k);
    has_work-publish = λ p. refl;
    work_done-publish = λ p. refl;
  }

  -- A call from a pool without work.
  module _ (pool : WorkerPool) (w : Worlds ssl oqs) (quiet : pool.has_work ≡ false) where
    abbrev start : Sys
    start = enter ssl oqs combo role pool w

    abbrev engine : EngineState
    engine = record { pool = pool; initialized = true }

    -- What the call leaves behind: the result, the pool, the states of the libraries, and a worker
    -- that is asleep with nothing to do.
    pub record Returned (s : Sys) : Type 0 where
      pub final_result : s.mine.0 ≡ (parallel_rounds ssl oqs engine combo role w).1
      pub final_pool : s.box ≡ (parallel_rounds ssl oqs engine combo role w).2.pool
      pub final_ec : s.mine.1 ≡ (parallel_rounds ssl oqs engine combo role w).3.ec
      pub final_kem : s.theirs ≡ (parallel_rounds ssl oqs engine combo role w).3.kem
      pub idle_worker : s.worker ≡ asleep
      pub no_work : s.box.has_work ≡ false

    -- In every interleaving of the two threads, when the main thread has returned, the result, the
    -- pool and the libraries' states are those of the function `parallel_rounds`, and the worker is
    -- asleep again with no work, so that the next call may begin.
    pub Reach-Returned : (s : Sys) → Reach R start s → s.main ≡ returned → Returned s
    unfolding parallel_rounds ecdh_part publish_work
    Reach-Returned s r done =
        let e =
          Runs.Reach-last_state R engine_rendezvous-lawful pool (zero_result, w.ec) w.kem quiet s r
            done in
        record {
          final_result = ap (λ (x : Sys). x.mine.0) e;
          final_pool = ap (λ (x : Sys). x.box) e;
          final_ec = ap (λ (x : Sys). x.mine.1) e;
          final_kem = ap (λ (x : Sys). x.theirs) e;
          idle_worker = ap (λ (x : Sys). x.worker) e;
          no_work = ap (λ (x : Sys). x.box.has_work) e;
        }

    pub steps : {s : Sys} → Reach R start s → ℕ
    steps r = Runs.steps R engine_rendezvous-lawful pool (zero_result, w.ec) w.kem quiet r

    -- The call neither deadlocks nor runs on, where a thread that waits sleeps until it is signalled:
    -- in every reachable state the main thread has returned or some thread can take a step, and no
    -- run has more than seven steps. Wake-ups without a signal are left out.
    pub Reach-progress :
        (s : Sys) (r : Reach R start s)
        → ((s.main ≡ returned) ⊎ ((t : Sys) × Step R s t)) × (steps r ≤ 7)
    unfolding steps
    Reach-progress s r =
        Runs.Reach-progress R engine_rendezvous-lawful pool (zero_result, w.ec) w.kem quiet s r
