-- ===== src/Tests/Workers.antt =====
-- The client's worker pool over the concrete libraries: a call in which the worker takes its turns
-- before the ECDH, and a history of the pool.
use hybrid_pqc_benchmarking.Prelude.{ℕ, ◌≤◌, ◌≡◌, refl, true, none, some, [], ◌∷◌, ◌⊎◌}
use hybrid_pqc_benchmarking.Wire.{little}
use hybrid_pqc_benchmarking.Dispatch.{route_parallel}
use hybrid_pqc_benchmarking.Handshake.{Party}
use hybrid_pqc_benchmarking.Handshake.Client.{ServerKeys}
use hybrid_pqc_benchmarking.Handshake.Worker.{
  ClientWorkerPool, ClientWorker, Mine, idle_pool, client_worker_init, client_worker_shutdown,
  pqc_dispatched, post_encaps, run_encaps, report_encaps, client_rendezvous,
}
use hybrid_pqc_benchmarking.Handshake.Worker.Runs.{
  SecretsReturned, steps, Reach-hybrid_secrets, Reach-encaps_progress,
}
use hybrid_pqc_benchmarking.Handshake.Worker.Lifecycle.{
  zero_worker, IsIdle, born, lives_init, lives_shutdown, Lives-IsIdle,
}
use hybrid_pqc_benchmarking.Rendezvous.{
  Rendezvous, System, returned, Step, step_post, step_share, step_join, step_wake, step_compute,
  step_publish, do_post, do_share, do_join, do_wake, do_compute, do_publish, Reach, here, next,
  begin,
}
use hybrid_pqc_benchmarking.Tests.{toy_ssl, toy_oqs}
use hybrid_pqc_benchmarking.Tests.Hosts.{p256_combo}
use hybrid_pqc_benchmarking.Tests.Handshakes.{toy_b3, start}

abbrev keys : ServerKeys
keys = record { srv_pub = 11 ∷ []; pqc_pk = some (3 ∷ 3 ∷ 3 ∷ []) }

abbrev caller : Party toy_ssl toy_oqs
caller = record {
  sock = record { inbox = []; outbox = []; reads = []; writes = [] };
  ec = start;
  kem = 3;
}

abbrev R : Rendezvous ClientWorkerPool (Mine toy_ssl toy_oqs p256_combo 5 keys) ℕ
R = client_rendezvous toy_ssl toy_oqs p256_combo 5 keys

abbrev Sys : Type 0
Sys = System ClientWorkerPool (Mine toy_ssl toy_oqs p256_combo 5 keys) ℕ

abbrev s0 : Sys
s0 = begin R idle_pool (none, start) 3

abbrev s6 : Sys
s6 = do_join R (do_publish R (do_share R (do_compute R (do_wake R (do_post R s0)))))

run : Reach R s0 s6
unfolding begin post_encaps run_encaps report_encaps
run =
    next
      (next
        (next
          (next (next (next here (step_post refl refl)) (step_wake refl refl refl))
            (step_compute refl refl))
          (step_share refl refl))
        (step_publish refl refl))
      (step_join refl refl refl)

Reach-hybrid_secrets_example :
    SecretsReturned toy_ssl toy_oqs toy_b3 little p256_combo 5 keys idle_pool caller refl s6
Reach-hybrid_secrets_example =
    Reach-hybrid_secrets toy_ssl toy_oqs toy_b3 little p256_combo 5 keys idle_pool caller refl s6
      run refl

Reach-encaps_progress_example :
    ((s6.main ≡ returned) ⊎ ((t : Sys) × Step R s6 t))
    × (steps toy_ssl toy_oqs toy_b3 little p256_combo 5 keys idle_pool caller refl run ≤ 7)
Reach-encaps_progress_example =
    Reach-encaps_progress toy_ssl toy_oqs toy_b3 little p256_combo 5 keys idle_pool caller refl s6
      run

-- Initialized, shut down, then initialized again by the handshake itself.
abbrev worker : ClientWorker
worker = client_worker_shutdown (client_worker_init true zero_worker).1

handed : (pqc_dispatched true route_parallel worker).0 ≡ true
unfolding pqc_dispatched client_worker_shutdown client_worker_init
handed = refl

Lives-IsIdle_example :
    ((pqc_dispatched true route_parallel worker).1.initialized ≡ true)
    × IsIdle (pqc_dispatched true route_parallel worker).1.pool
Lives-IsIdle_example =
    Lives-IsIdle toy_ssl toy_oqs toy_b3 little worker true route_parallel
      (lives_shutdown (lives_init true born)) handed
