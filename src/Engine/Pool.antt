-- ===== src/Engine/Pool.antt =====
-- The two threads of `execute_parallel_optimized` in c_dispatch/src/engine.c: one call of the main
-- thread beside the worker, in any interleaving.
pub mod Runs
use hybrid_pqc_benchmarking.External.{Openssl, Liboqs}
use hybrid_pqc_benchmarking.Algo.{AlgoCombo}
use hybrid_pqc_benchmarking.Engine.{
  HandshakeRole, SharedCryptoResult, zero_result, WorkerPool, Worlds, perform_kem_operation,
  ecdh_result, post_work, publish_work, join_results,
}
use hybrid_pqc_benchmarking.Rendezvous.{Rendezvous, System, begin}

module _ (ssl : Openssl) (oqs : Liboqs) (combo : AlgoCombo) (role : HandshakeRole) where
  -- What the main thread alone uses: the result and OpenSSL. The worker alone uses liboqs.
  abbrev pub Mine : Type 0
  Mine = SharedCryptoResult × ssl.World

  abbrev pub own_ecdh : Mine → Mine
  own_ecdh (r, ec) = ecdh_result ssl oqs combo r ec

  abbrev pub joined : WorkerPool → Mine → Mine
  joined pool (r, ec) = (join_results ssl oqs pool r, ec)

  abbrev pub engine_rendezvous : Rendezvous WorkerPool Mine oqs.World
  engine_rendezvous = record {
    has_work = λ pool. pool.has_work;
    work_done = λ pool. pool.work_done;
    post = post_work ssl oqs combo role;
    own_share = own_ecdh;
    join = joined;
    compute = perform_kem_operation oqs;
    publish = publish_work ssl oqs;
  }

  -- A call begins with the result zeroed and the worker asleep.
  abbrev pub enter : WorkerPool → Worlds ssl oqs → System WorkerPool Mine oqs.World
  enter pool w = begin engine_rendezvous pool (zero_result, w.ec) w.kem
