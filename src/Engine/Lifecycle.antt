-- ===== src/Engine/Lifecycle.antt =====
-- `engine_init` and `engine_shutdown` of c_dispatch/src/engine.c, and what holds between calls.
use hybrid_pqc_benchmarking.Prelude.{
  ℕ, ◌≤◌, ◌≡◌, refl, ◌∙◌, Bool, true, false, Option, none, some, List, arith, if◌then◌else◌, length,
  zeros, length-memcpy, length-take,
}
use hybrid_pqc_benchmarking.External.{Openssl, IsLawfulOpenssl, Liboqs}
use hybrid_pqc_benchmarking.Algo.{AlgoCombo}
use hybrid_pqc_benchmarking.Engine.{
  HandshakeRole, role_client, SharedCryptoResult, WorkerPool, EngineState, Worlds, store_kem,
  perform_kem_local, perform_kem_operation, ecdh_part, post_work, publish_work, join_results,
  parallel_rounds, execute_parallel_optimized, zero_result,
}
use hybrid_pqc_benchmarking.Engine.Modes.{
  InBounds, length-perform_kem_local, posted_round, ecdh_part-InBounds, zero_result-InBounds,
  execute_sequential-InBounds,
}

-- The pool after `memset`: the role 0 is that of the client.
abbrev pub zero_pool : WorkerPool
zero_pool = record {
  kem_alg_name = none;
  role = role_client;
  kem_shared_secret = zeros 64;
  kem_shared_secret_len = 0;
  kem_ok = false;
  has_work = false;
  work_done = false;
}

-- `created` says whether `pthread_create` succeeded. The result is `true` for 0.
unfoldable pub engine_init : Bool → EngineState → Bool × EngineState
engine_init created st =
    if st.initialized
    then (true, st)
    else (created, record { pool = zero_pool; initialized = created })

-- The worker has ended when this returns.
unfoldable pub engine_shutdown : EngineState → EngineState
engine_shutdown st = if st.initialized then record st { initialized = false } else st

-- Between calls the worker has no work, and its buffer has its size.
pub record IsQuiet (st : EngineState) : Type 0 where
  pub idle : st.pool.has_work ≡ false
  pub room : length st.pool.kem_shared_secret ≡ 64

-- The engine is initialized exactly where `engine_init` reports success, and a second
-- initialization changes nothing.
engine_init-idempotent :
    (created created' : Bool) (st : EngineState)
    → ((engine_init created st).0 ≡ (engine_init created st).1.initialized)
      × ((engine_init created st).0 ≡ true
          → engine_init created' (engine_init created st).1 ≡ (true, (engine_init created st).1))
unfolding engine_init
engine_init-idempotent created created' st = ground arith

module _ (ssl : Openssl) (oqs : Liboqs) (L : IsLawfulOpenssl ssl) where
  -- The worker's store: the flags stay, the buffer keeps its size, the length is within it.
  store_kem-fits :
      (p : WorkerPool) (x : Option (List ℕ) × oqs.World)
      → length p.kem_shared_secret ≡ 64
      → p.kem_shared_secret_len ≤ 64
      → ((k : oqs.World) (ss : List ℕ) → x ≡ (some ss, k) → length ss ≤ 64)
      → (length (store_kem oqs p x).0.kem_shared_secret ≡ 64)
        × ((store_kem oqs p x).0.kem_shared_secret_len ≤ 64)
  store_kem-fits p (none, k) h l s = (h, l)
  store_kem-fits p (some ss, k) h l s =
      (length-memcpy p.kem_shared_secret ss (omega (arith, s k ss refl, h)) ∙ h, s k ss refl)

  posted-fits :
      (combo : AlgoCombo) (role : HandshakeRole) (pool : WorkerPool) (k : oqs.World)
      → length pool.kem_shared_secret ≡ 64
      → let p = (perform_kem_operation oqs (post_work ssl oqs combo role pool) k).0 in
        (length p.kem_shared_secret ≡ 64) × (p.kem_shared_secret_len ≤ 64)
  unfolding post_work
  posted-fits combo role pool k h = rw (posted_round ssl oqs combo role pool k) (
      store_kem-fits (post_work ssl oqs combo role pool)
        (perform_kem_local oqs combo.pqc_name role k) h (omega arith)
        (λ k' ss e. length-perform_kem_local ssl oqs combo.pqc_name role k k' ss e))

  parallel_rounds-IsQuiet :
      (st : EngineState) (combo : AlgoCombo) (role : HandshakeRole) (w : Worlds ssl oqs)
      → IsQuiet st
      → IsQuiet (parallel_rounds ssl oqs st combo role w).2
        × InBounds ssl oqs (parallel_rounds ssl oqs st combo role w).1
  unfolding parallel_rounds publish_work join_results
  parallel_rounds-IsQuiet st combo role w q =
      let r = ecdh_part-InBounds ssl oqs L combo zero_result w (zero_result-InBounds ssl oqs) in
      let (room, short) =
        posted-fits combo role st.pool (ecdh_part ssl oqs combo zero_result w).1.kem q.room in
      (
        record { idle = refl; room = room },
        record {
          ecdh = r.ecdh;
          kem =
              length-memcpy (ecdh_part ssl oqs combo zero_result w).0.kem_shared_secret _
                (omega (arith, r.kem, short, room, length-take {0}))
              ∙ r.kem;
          kem_len = short;
        },
      )

  -- With a lawful OpenSSL, whose ECDH secrets are of at most 48 bytes, and whatever liboqs answers, a
  -- parallel execution on an initialized engine leaves the worker without work and its buffer at its
  -- size, and it writes inside the two buffers of its result.
  pub execute_parallel-IsQuiet :
      (st : EngineState) (combo : AlgoCombo) (role : HandshakeRole) (result : SharedCryptoResult)
      (w : Worlds ssl oqs)
      → st.initialized ≡ true
      → IsQuiet st
      → IsQuiet (execute_parallel_optimized ssl oqs st combo role result w).2
        × InBounds ssl oqs (execute_parallel_optimized ssl oqs st combo role result w).1
  unfolding execute_parallel_optimized
  execute_parallel-IsQuiet st combo role result w ready q = ground (
    arith,
    execute_sequential-InBounds ssl oqs L combo role w,
    parallel_rounds-IsQuiet st combo role w q,
  )
