-- ===== src/Engine.antt =====
-- c_dispatch/src/engine.c: the two execution strategies of a hybrid key exchange. This file has the
-- strategies as functions; `Engine.Pool` has the two threads of the parallel one, step by step.
pub mod Modes
pub mod Lifecycle
pub mod Pool
use hybrid_pqc_benchmarking.Prelude.{
  ℕ, min, String, Bool, true, false, not, ◌&&◌, ◌||◌, Option, none, some, List, [], ◌∷◌, ◌++◌,
  if◌then◌else◌, length, take, memcpy, zeros,
}
use hybrid_pqc_benchmarking.Act.{Act, ◌>>=◌, ◌>>◌, pure}
use hybrid_pqc_benchmarking.External.{Openssl, Liboqs, OqsKem}
use hybrid_pqc_benchmarking.Algo.{
  AlgoCombo, Curve, is_pure_classical, is_pure_quantum, is_pqc_none, is_curve_none,
}
use hybrid_pqc_benchmarking.Crypto.{Derived, crypto_generate_keypair, crypto_derive_ecdh_secret}

pub data HandshakeRole : Type 0 where
  role_client role_server : HandshakeRole

-- The buffers have 48 and 64 bytes.
pub record SharedCryptoResult : Type 0 where
  pub ecdh_secret : List ℕ
  pub ecdh_secret_len : ℕ
  pub kem_shared_secret : List ℕ
  pub kem_shared_secret_len : ℕ
  pub ecdh_ok : Bool
  pub kem_ok : Bool

-- After `memset(result, 0, sizeof(*result))`.
abbrev pub zero_result : SharedCryptoResult
zero_result = record {
  ecdh_secret = zeros 48;
  ecdh_secret_len = 0;
  kem_shared_secret = zeros 64;
  kem_shared_secret_len = 0;
  ecdh_ok = false;
  kem_ok = false;
}

-- The work descriptor, the KEM result and the control flags of the worker pool.
pub record WorkerPool : Type 0 where
  pub kem_alg_name : Option String
  pub role : HandshakeRole
  pub kem_shared_secret : List ℕ
  pub kem_shared_secret_len : ℕ
  pub kem_ok : Bool
  pub has_work : Bool
  pub work_done : Bool

-- `g_pool` and `g_engine_initialized`.
pub record EngineState : Type 0 where
  pub pool : WorkerPool
  pub initialized : Bool

-- The states of the two libraries: the threads of the engine use one each.
pub record Worlds (ssl : Openssl) (oqs : Liboqs) : Type 0 where
  pub ec : ssl.World
  pub kem : oqs.World

module _ (oqs : Liboqs) where
  open oqs use {World}

  abbrev both : Option (Unit {0}) → Option (Unit {0}) × World → Option (Unit {0}) × World
  both (some _) r = r
  both none (_, w) = (none, w)

  -- Several `malloc` calls, all made before the results are tested.
  unfoldable pub malloc_each : List ℕ → Act World (Unit {0})
  malloc_each [] w = (some tt, w)
  malloc_each (n ∷ ns) w = both (oqs.malloc n w).0 (malloc_each ns (oqs.malloc n w).1)

  abbrev pub kem_buffers : OqsKem → List ℕ
  kem_buffers kem =
      kem.length_public_key ∷ kem.length_secret_key ∷ kem.length_ciphertext
      ∷ kem.length_shared_secret ∷ []

  -- Encapsulation on the server; on the client an encapsulation that stands for the server's, and
  -- the decapsulation of its ciphertext.
  unfoldable pub kem_secret : HandshakeRole → OqsKem → List ℕ → List ℕ → Act World (List ℕ)
  kem_secret role_server kem pk sk = do (ct, ss) ← oqs.encaps kem pk; pure ss
  kem_secret role_client kem pk sk = do
    oqs.malloc kem.length_shared_secret
    (ct, ss_tmp) ← oqs.encaps kem pk
    oqs.decaps kem ct sk

  -- At most 64 bytes of the secret are copied out.
  unfoldable pub perform_kem_local : Option String → HandshakeRole → Act World (List ℕ)
  unfolding malloc_each kem_secret
  perform_kem_local kem_name role = do
    kem ← oqs.kem_new kem_name
    malloc_each (kem_buffers kem)
    (pk, sk) ← oqs.keypair kem
    ss ← kem_secret role kem pk sk
    pure (take (min kem.length_shared_secret 64) ss)

  -- The same in the worker, up to the label `cleanup`.
  unfoldable pub worker_kem : WorkerPool → Act World (List ℕ)
  unfolding malloc_each kem_secret
  worker_kem pool = do
    kem ← oqs.kem_new pool.kem_alg_name
    malloc_each (kem_buffers kem)
    (pk, sk) ← oqs.keypair kem
    ss ← kem_secret pool.role kem pk sk
    pure (take (min kem.length_shared_secret 64) ss)

  abbrev store_kem : WorkerPool → Option (List ℕ) × World → WorkerPool × World
  store_kem pool (none, w) = (pool, w)
  store_kem pool (some ss, w) = (
    record pool {
      kem_shared_secret = memcpy pool.kem_shared_secret ss;
      kem_shared_secret_len = length ss;
      kem_ok = true;
    },
    w,
  )

  unfoldable pub perform_kem_operation : WorkerPool → World → WorkerPool × World
  unfolding worker_kem
  perform_kem_operation pool w =
      store_kem (record pool { kem_ok = false; kem_shared_secret_len = 0 }) (worker_kem pool w)

module _ (ssl : Openssl) where
  open ssl use {World, Pkey}

  -- With a key missing the other one is freed, and the outputs stay as they are.
  unfoldable pub ecdh_with : List ℕ → ℕ → Option Pkey → Option Pkey → World → Derived × World
  ecdh_with secret len (some our_key) (some peer_key) w =
      crypto_derive_ecdh_secret ssl our_key peer_key secret len w
  ecdh_with secret len _ _ w = (record { is_ok = false; secret = secret; secret_len = len }, w)

  unfoldable pub perform_ecdh : Curve → List ℕ → ℕ → World → Derived × World
  unfolding ecdh_with
  perform_ecdh curve secret len w =
      let (our_key, w1) = crypto_generate_keypair ssl curve w in
      let (peer_key, w2) = crypto_generate_keypair ssl curve w1 in
      ecdh_with secret len our_key peer_key w2

module _ (ssl : Openssl) (oqs : Liboqs) where
  abbrev State : Type 0
  State = Worlds ssl oqs

  -- `result->ecdh_ok = (perform_ecdh(…) == 0)`
  abbrev pub ecdh_result :
      AlgoCombo → SharedCryptoResult → ssl.World → SharedCryptoResult × ssl.World
  ecdh_result combo r ec =
      let (d, ec') = perform_ecdh ssl combo.classical_curve r.ecdh_secret r.ecdh_secret_len ec in
      (record r { ecdh_secret = d.secret; ecdh_secret_len = d.secret_len; ecdh_ok = d.is_ok }, ec')

  -- It neither reads nor changes the state of liboqs.
  unfoldable pub ecdh_part : AlgoCombo → SharedCryptoResult → State → SharedCryptoResult × State
  ecdh_part combo r w = let (r', ec') = ecdh_result combo r w.ec in (r', record w { ec = ec' })

  abbrev store_local :
      SharedCryptoResult → State → Option (List ℕ) × oqs.World → SharedCryptoResult × State
  store_local r w (none, kem') = (record r { kem_ok = false }, record w { kem = kem' })
  store_local r w (some ss, kem') = (
    record r {
      kem_shared_secret = memcpy r.kem_shared_secret ss;
      kem_shared_secret_len = length ss;
      kem_ok = true;
    },
    record w { kem = kem' },
  )

  -- `result->kem_ok = (perform_kem_local(…) == 0)`
  unfoldable pub kem_part :
      AlgoCombo → HandshakeRole → SharedCryptoResult → State → SharedCryptoResult × State
  kem_part combo role r w = store_local r w (perform_kem_local oqs combo.pqc_name role w.kem)

  -- Each strategy returns its code (`true` for 0), the result and the libraries' states.
  unfoldable pub sequential_classical : AlgoCombo → State → Bool × SharedCryptoResult × State
  sequential_classical combo w = let (r, w') = ecdh_part combo zero_result w in (r.ecdh_ok, r, w')

  unfoldable pub sequential_quantum :
      AlgoCombo → HandshakeRole → State → Bool × SharedCryptoResult × State
  sequential_quantum combo role w =
      let (r, w') = kem_part combo role zero_result w in (r.kem_ok, r, w')

  -- Without the ECDH secret the KEM is not run.
  unfoldable pub sequential_hybrid :
      AlgoCombo → HandshakeRole → State → Bool × SharedCryptoResult × State
  sequential_hybrid combo role w =
      let (r1, w1) = ecdh_part combo zero_result w in
      let (r2, w2) = kem_part combo role r1 w1 in
      if r1.ecdh_ok then (r2.ecdh_ok && r2.kem_ok, r2, w2) else (false, r1, w1)

  unfoldable pub execute_sequential :
      AlgoCombo → HandshakeRole → State → Bool × SharedCryptoResult × State
  execute_sequential combo role w =
      if is_pure_classical combo.profile || is_pqc_none combo.pqc_alg
      then sequential_classical combo w
      else if is_pure_quantum combo.profile || is_curve_none combo.classical_curve
      then sequential_quantum combo role w
      else sequential_hybrid combo role w

  -- The block that hands the work to the worker.
  unfoldable pub post_work : AlgoCombo → HandshakeRole → WorkerPool → WorkerPool
  post_work combo role pool = record pool {
    kem_alg_name = combo.pqc_name;
    role = role;
    kem_ok = false;
    kem_shared_secret_len = 0;
    work_done = false;
    has_work = true;
  }

  -- The block of the worker that reports completion.
  unfoldable pub publish_work : WorkerPool → WorkerPool
  publish_work pool = record pool { work_done = true; has_work = false }

  -- The first `kem_shared_secret_len` bytes of the pool's buffer are copied.
  unfoldable pub join_results : WorkerPool → SharedCryptoResult → SharedCryptoResult
  join_results pool r = record r {
    kem_shared_secret =
        memcpy r.kem_shared_secret (take pool.kem_shared_secret_len pool.kem_shared_secret);
    kem_shared_secret_len = pool.kem_shared_secret_len;
    kem_ok = pool.kem_ok;
  }

  -- What the two threads have done when the call returns; `Engine.Pool` shows that every
  -- interleaving ends so.
  unfoldable pub parallel_rounds :
      EngineState
      → AlgoCombo
      → HandshakeRole
      → State
      → Bool × SharedCryptoResult × EngineState × State
  parallel_rounds st combo role w =
      let (r1, w1) = ecdh_part combo zero_result w in
      let (pool1, kem') = perform_kem_operation oqs (post_work combo role st.pool) w1.kem in
      let pool2 = publish_work pool1 in
      let r2 = join_results pool2 r1 in
      (r2.ecdh_ok && r2.kem_ok, r2, record st { pool = pool2 }, record w1 { kem = kem' })

  -- Before `engine_init` the caller's `result` is not touched.
  unfoldable pub execute_parallel_optimized :
      EngineState
      → AlgoCombo
      → HandshakeRole
      → SharedCryptoResult
      → State
      → Bool × SharedCryptoResult × EngineState × State
  execute_parallel_optimized st combo role result w =
      if not st.initialized
      then (false, result, st, w)
      else if is_pqc_none combo.pqc_alg || is_curve_none combo.classical_curve
      then (let (rc, r, w') = execute_sequential combo role w in (rc, r, st, w'))
      else parallel_rounds st combo role w
