-- ===== src/Tests/Engines.antt =====
-- The engine and the router over the concrete libraries.
use hybrid_pqc_benchmarking.Prelude.{ℕ, ◌≤◌, ◌≡◌, refl, true, false, ◌&&◌, ◌||◌, ◌⊎◌, zeros, take}
use hybrid_pqc_benchmarking.Algo.{is_pure_quantum, is_pure_classical}
use hybrid_pqc_benchmarking.Algo.Table.{IsConsistent}
use hybrid_pqc_benchmarking.Crypto.{crypto_derive_ecdh_secret}
use hybrid_pqc_benchmarking.Crypto.Secret.{crypto_derive_ecdh_secret-agree}
use hybrid_pqc_benchmarking.Engine.{
  role_client, role_server, zero_result, EngineState, WorkerPool, Worlds, execute_sequential,
  execute_parallel_optimized, post_work, publish_work,
}
use hybrid_pqc_benchmarking.Engine.Modes.{
  execute_parallel-sequential, execute_sequential-rc, execute_sequential-InBounds, InBounds,
}
use hybrid_pqc_benchmarking.Engine.Lifecycle.{zero_pool, IsQuiet, execute_parallel-IsQuiet}
use hybrid_pqc_benchmarking.Engine.Pool.{Mine, engine_rendezvous, enter}
use hybrid_pqc_benchmarking.Engine.Pool.Runs.{Returned, steps, Reach-Returned, Reach-progress}
use hybrid_pqc_benchmarking.Rendezvous.{
  Rendezvous, System, returned, Step, step_post, step_share, step_join, step_wake, step_compute,
  step_publish, do_post, do_share, do_join, do_wake, do_compute, do_publish, Reach, here, next,
  begin,
}
use hybrid_pqc_benchmarking.Dispatch.Execute.{dispatch_execute, dispatch_execute-sequential}
use hybrid_pqc_benchmarking.Tests.{ToyState, toy_ssl, toy_ssl-lawful, toy_oqs}
use hybrid_pqc_benchmarking.Tests.Hosts.{p256_combo, laptop}

abbrev worlds : Worlds toy_ssl toy_oqs
worlds = record { ec = record { fresh_key = 11; own = 0; peer = 0 }; kem = 3 }

abbrev engine : EngineState
engine = record { pool = zero_pool; initialized = true }

p256-IsConsistent : IsConsistent p256_combo
p256-IsConsistent = record { curve = refl; pqc = refl; name = refl }

dispatch_execute-sequential_example :
    let d =
      dispatch_execute toy_ssl toy_oqs laptop engine p256_combo role_client zero_result worlds in
    let s = execute_sequential toy_ssl toy_oqs p256_combo role_client worlds in
    (d.0 ≡ s.0) × (s.0 ≡ true → (d.1 ≡ s.1) × (d.3 ≡ s.2))
dispatch_execute-sequential_example =
    dispatch_execute-sequential toy_ssl toy_oqs laptop engine p256_combo role_client zero_result
      worlds p256-IsConsistent refl

execute_parallel-sequential_example :
    let p =
      execute_parallel_optimized toy_ssl toy_oqs engine p256_combo role_server zero_result worlds in
    let s = execute_sequential toy_ssl toy_oqs p256_combo role_server worlds in
    (p.0 ≡ s.0) × (s.0 ≡ true → (p.1 ≡ s.1) × (p.3 ≡ s.2))
execute_parallel-sequential_example =
    execute_parallel-sequential toy_ssl toy_oqs engine p256_combo role_server zero_result worlds
      p256-IsConsistent refl

execute_sequential-rc_example :
    let s = execute_sequential toy_ssl toy_oqs p256_combo role_client worlds in
    (s.0 ≡ (
      (is_pure_quantum p256_combo.profile || s.1.ecdh_ok)
      && (is_pure_classical p256_combo.profile || s.1.kem_ok)))
    × (is_pure_quantum p256_combo.profile ≡ true → s.1.ecdh_ok ≡ false)
    × (is_pure_classical p256_combo.profile ≡ true → s.1.kem_ok ≡ false)
execute_sequential-rc_example =
    execute_sequential-rc toy_ssl toy_oqs p256_combo role_client worlds p256-IsConsistent

execute_sequential-InBounds_example :
    InBounds toy_ssl toy_oqs (execute_sequential toy_ssl toy_oqs p256_combo role_client worlds).1
execute_sequential-InBounds_example =
    execute_sequential-InBounds toy_ssl toy_oqs toy_ssl-lawful p256_combo role_client worlds

engine-IsQuiet : IsQuiet engine
engine-IsQuiet = record { idle = refl; room = refl }

execute_parallel-IsQuiet_example :
    let p =
      execute_parallel_optimized toy_ssl toy_oqs engine p256_combo role_server zero_result worlds in
    IsQuiet p.2 × InBounds toy_ssl toy_oqs p.1
execute_parallel-IsQuiet_example =
    execute_parallel-IsQuiet toy_ssl toy_oqs toy_ssl-lawful engine p256_combo role_server
      zero_result worlds refl engine-IsQuiet

abbrev keys : ToyState
keys = worlds.ec

derived : (crypto_derive_ecdh_secret toy_ssl 4 6 (zeros 48) 0 keys).0.is_ok ≡ true
unfolding crypto_derive_ecdh_secret
derived = refl

derived_back : (crypto_derive_ecdh_secret toy_ssl 6 4 (zeros 64) 64 keys).0.is_ok ≡ true
unfolding crypto_derive_ecdh_secret
derived_back = refl

crypto_derive_ecdh_secret-agree_example :
    let d = (crypto_derive_ecdh_secret toy_ssl 4 6 (zeros 48) 0 keys).0 in
    let d' = (crypto_derive_ecdh_secret toy_ssl 6 4 (zeros 64) 64 keys).0 in
    take d.secret_len d.secret ≡ take d'.secret_len d'.secret
unfolding toy_ssl-lawful
crypto_derive_ecdh_secret-agree_example =
    crypto_derive_ecdh_secret-agree toy_ssl toy_ssl-lawful 4 6 (zeros 48) (zeros 64) 0 64 keys keys
      derived derived_back

-- The worker takes its turns before the ECDH, between it and the wait.
abbrev R : Rendezvous WorkerPool (Mine toy_ssl toy_oqs p256_combo role_client) ℕ
R = engine_rendezvous toy_ssl toy_oqs p256_combo role_client

abbrev Sys : Type 0
Sys = System WorkerPool (Mine toy_ssl toy_oqs p256_combo role_client) ℕ

abbrev s0 : Sys
s0 = enter toy_ssl toy_oqs p256_combo role_client zero_pool worlds

abbrev s6 : Sys
s6 = do_join R (do_publish R (do_share R (do_compute R (do_wake R (do_post R s0)))))

run : Reach R s0 s6
unfolding begin post_work publish_work
run =
    next
      (next
        (next
          (next (next (next here (step_post refl refl)) (step_wake refl refl refl))
            (step_compute refl refl))
          (step_share refl refl))
        (step_publish refl refl))
      (step_join refl refl refl)

Reach-Returned_example : Returned toy_ssl toy_oqs p256_combo role_client zero_pool worlds refl s6
Reach-Returned_example =
    Reach-Returned toy_ssl toy_oqs p256_combo role_client zero_pool worlds refl s6 run refl

Reach-progress_example :
    ((s6.main ≡ returned) ⊎ ((t : Sys) × Step R s6 t))
    × (steps toy_ssl toy_oqs p256_combo role_client zero_pool worlds refl run ≤ 7)
Reach-progress_example =
    Reach-progress toy_ssl toy_oqs p256_combo role_client zero_pool worlds refl s6 run
