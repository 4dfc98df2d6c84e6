-- ===== src/Engine/Modes.antt =====
-- The two strategies against each other, and against the sizes of their buffers.
use mathlib.Core.Option.{some-injective}
use hybrid_pqc_benchmarking.Prelude.{
  ℕ, String, inl, inr, ◌≤◌, min, ◌≡◌, refl, ap, ◌∙◌, true, false, ◌&&◌, ◌||◌, Option, none, some,
  List, arith, length, take, drop, memcpy, length-memcpy, length-take, take-append, Bool-cases,
}
use hybrid_pqc_benchmarking.Act.{>>=-eq-some}
use hybrid_pqc_benchmarking.External.{Openssl, IsLawfulOpenssl, Liboqs}
use hybrid_pqc_benchmarking.Algo.{AlgoCombo, is_pure_classical, is_pure_quantum}
use hybrid_pqc_benchmarking.Algo.Table.{IsConsistent}
use hybrid_pqc_benchmarking.Crypto.{crypto_derive_ecdh_secret}
use hybrid_pqc_benchmarking.Crypto.Secret.{
  crypto_derive_ecdh_secret-ok, crypto_derive_ecdh_secret-failed,
}
use hybrid_pqc_benchmarking.Engine.{
  HandshakeRole, SharedCryptoResult, zero_result, WorkerPool, malloc_each, kem_buffers, kem_secret,
  EngineState, Worlds, worker_kem, perform_kem_local, perform_kem_operation, store_kem, store_local,
  ecdh_with, perform_ecdh, ecdh_part, kem_part, sequential_classical, sequential_quantum,
  sequential_hybrid, execute_sequential, post_work, publish_work, join_results, parallel_rounds,
  execute_parallel_optimized,
}

-- The worker's copy of the KEM code does what the calling thread's does.
worker_kem-perform_kem_local :
    (oqs : Liboqs) (pool : WorkerPool) (w : oqs.World)
    → worker_kem oqs pool w ≡ perform_kem_local oqs pool.kem_alg_name pool.role w
unfolding worker_kem perform_kem_local
worker_kem-perform_kem_local oqs pool w = refl

module _ (ssl : Openssl) (oqs : Liboqs) where
  -- The worker's result, joined, against the result stored by the calling thread.
  join_results-store_kem :
      (pool : WorkerPool) (r : SharedCryptoResult) (w : Worlds ssl oqs)
      (x : Option (List ℕ) × oqs.World)
      → pool.kem_ok ≡ false
      → let joined = join_results ssl oqs (publish_work ssl oqs (store_kem oqs pool x).0) r in
        let stored = (store_local ssl oqs r w x).0 in
        (joined.ecdh_ok ≡ r.ecdh_ok)
        × (stored.ecdh_ok ≡ r.ecdh_ok)
        × (joined.kem_ok ≡ stored.kem_ok)
        × (stored.kem_ok ≡ true → joined ≡ stored)
        × ((store_kem oqs pool x).1 ≡ (store_local ssl oqs r w x).1.kem)
        × ((store_local ssl oqs r w x).1.ec ≡ w.ec)
  unfolding join_results publish_work
  join_results-store_kem pool r w (none, k) h = (refl, refl, h, λ e. cc, refl, refl)
  join_results-store_kem pool r w (some ss, k) h = (
    refl,
    refl,
    refl,
    λ _.
        ap
          (λ t. record r {
            kem_shared_secret = memcpy r.kem_shared_secret t;
            kem_shared_secret_len = length ss;
            kem_ok = true;
          })
          (take-append ss (drop (length ss) pool.kem_shared_secret)),
    refl,
    refl,
  )

  -- The worker's round from a posted pool, as a store of the calling thread's KEM.
  pub posted_round :
      (combo : AlgoCombo) (role : HandshakeRole) (pool : WorkerPool) (k : oqs.World)
      → perform_kem_operation oqs (post_work ssl oqs combo role pool) k
        ≡ store_kem oqs
            (post_work ssl oqs combo role pool)
            (perform_kem_local oqs combo.pqc_name role k)
  unfolding perform_kem_operation perform_kem_local post_work
  posted_round combo role pool k = refl

  post_work-kem_ok :
      (combo : AlgoCombo) (role : HandshakeRole) (pool : WorkerPool)
      → (post_work ssl oqs combo role pool).kem_ok ≡ false
  unfolding post_work
  post_work-kem_ok combo role pool = refl

  parallel_rounds-sequential :
      (st : EngineState) (combo : AlgoCombo) (role : HandshakeRole) (w : Worlds ssl oqs)
      → let p = parallel_rounds ssl oqs st combo role w in
        let s = sequential_hybrid ssl oqs combo role w in
        (p.0 ≡ s.0) × (s.0 ≡ true → (p.1 ≡ s.1) × (p.3 ≡ s.2))
  unfolding parallel_rounds sequential_hybrid kem_part
  parallel_rounds-sequential st combo role w = rw posted_round (
      ground (
        arith,
        join_results-store_kem (post_work ssl oqs combo role st.pool)
            (ecdh_part ssl oqs combo zero_result w).0 (ecdh_part ssl oqs combo zero_result w).1
            (perform_kem_local oqs combo.pqc_name role
              (ecdh_part ssl oqs combo zero_result w).1.kem)
            (post_work-kem_ok combo role st.pool),
      ))

  -- On an initialized engine the parallel strategy returns success exactly if the sequential one
  -- does from the same state of the libraries, and where they succeed it returns the same result
  -- and leaves the libraries in the same state, for every combination of the table.
  pub execute_parallel-sequential :
      (st : EngineState) (combo : AlgoCombo) (role : HandshakeRole) (result : SharedCryptoResult)
      (w : Worlds ssl oqs)
      → IsConsistent combo
      → st.initialized ≡ true
      → let p = execute_parallel_optimized ssl oqs st combo role result w in
        let s = execute_sequential ssl oqs combo role w in
        (p.0 ≡ s.0) × (s.0 ≡ true → (p.1 ≡ s.1) × (p.3 ≡ s.2))
  unfolding execute_parallel_optimized execute_sequential
  execute_parallel-sequential st combo role result w c ready =
      ground (arith, parallel_rounds-sequential st combo role w)

  kem_part-ecdh :
      (combo : AlgoCombo) (role : HandshakeRole) (r : SharedCryptoResult) (w : Worlds ssl oqs)
      → ((kem_part ssl oqs combo role r w).0.ecdh_ok ≡ r.ecdh_ok)
        × ((kem_part ssl oqs combo role r w).0.ecdh_secret ≡ r.ecdh_secret)
        × ((kem_part ssl oqs combo role r w).0.ecdh_secret_len ≡ r.ecdh_secret_len)
  unfolding kem_part
  kem_part-ecdh combo role r w = stored (perform_kem_local oqs combo.pqc_name role w.kem)
    where
      stored :
          (x : Option (List ℕ) × oqs.World)
          → ((store_local ssl oqs r w x).0.ecdh_ok ≡ r.ecdh_ok)
            × ((store_local ssl oqs r w x).0.ecdh_secret ≡ r.ecdh_secret)
            × ((store_local ssl oqs r w x).0.ecdh_secret_len ≡ r.ecdh_secret_len)
      stored (none, k) = (refl, refl, refl)
      stored (some ss, k) = (refl, refl, refl)

  ecdh_part-kem :
      (combo : AlgoCombo) (r : SharedCryptoResult) (w : Worlds ssl oqs)
      → ((ecdh_part ssl oqs combo r w).0.kem_ok ≡ r.kem_ok)
        × ((ecdh_part ssl oqs combo r w).0.kem_shared_secret ≡ r.kem_shared_secret)
        × ((ecdh_part ssl oqs combo r w).1.kem ≡ w.kem)
  unfolding ecdh_part
  ecdh_part-kem combo r w = (refl, refl, refl)

  -- For a combination of the table the sequential strategy returns success exactly if each part
  -- that the profile asks for succeeded: ECDH unless it is pure quantum, the KEM unless it is pure
  -- classical. A part that the profile does not ask for is not marked as done.
  pub execute_sequential-rc :
      (combo : AlgoCombo) (role : HandshakeRole) (w : Worlds ssl oqs)
      → IsConsistent combo
      → let s = execute_sequential ssl oqs combo role w in
        (s.0 ≡ (
          (is_pure_quantum combo.profile || s.1.ecdh_ok)
          && (is_pure_classical combo.profile || s.1.kem_ok)))
        × (is_pure_quantum combo.profile ≡ true → s.1.ecdh_ok ≡ false)
        × (is_pure_classical combo.profile ≡ true → s.1.kem_ok ≡ false)
  unfolding execute_sequential sequential_classical sequential_quantum sequential_hybrid
  execute_sequential-rc combo role w c = ground (
    arith,
    kem_part-ecdh combo role zero_result w,
    ecdh_part-kem combo zero_result w,
    kem_part-ecdh combo role (ecdh_part ssl oqs combo zero_result w).0
        (ecdh_part ssl oqs combo zero_result w).1,
  )

  -- The buffers keep their sizes, so no copy leaves them.
  pub record InBounds (r : SharedCryptoResult) : Type 0 where
    pub ecdh : length r.ecdh_secret ≡ 48
    pub kem : length r.kem_shared_secret ≡ 64
    pub kem_len : r.kem_shared_secret_len ≤ 64

  pub length-perform_kem_local :
      (name : Option String) (role : HandshakeRole) (k k' : oqs.World) (ss : List ℕ)
      → perform_kem_local oqs name role k ≡ (some ss, k')
      → length ss ≤ 64
  unfolding perform_kem_local
  length-perform_kem_local name role k k' ss h =
      let (kem, w1, _e, h1) = >>=-eq-some (oqs.kem_new name) _ k h in
      let (_u, w2, _e, h2) = >>=-eq-some (malloc_each oqs (kem_buffers oqs kem)) _ w1 h1 in
      let (keys, w3, _e, h3) = >>=-eq-some (oqs.keypair kem) _ w2 h2 in
      let (s, w4, _e, h4) = >>=-eq-some (kem_secret oqs role kem keys.0 keys.1) _ w3 h3 in
      copied (min kem.length_shared_secret 64) s w4 ss k' h4 (omega arith)
    where
      copied :
          (n : ℕ) (s : List ℕ) (w4 : oqs.World) (ss : List ℕ) (k' : oqs.World)
          → ◌≡◌ {A = Option (List ℕ) × oqs.World} (some (take n s), w4) (some ss, k')
          → n ≤ 64
          → length ss ≤ 64
      copied n s w4 ss k' h b =
          omega (arith, ap length (some-injective (take n s) ss (ap (λ r. r.0) h)), length-take n s)

  -- Either the buffer is left alone, or it starts with a secret of at most 48 bytes.
  length-derive :
      IsLawfulOpenssl ssl
      → (p q : ssl.Pkey) (buf : List ℕ) (len : ℕ) (w : ssl.World) → length buf ≡ 48
      → length (crypto_derive_ecdh_secret ssl p q buf len w).0.secret ≡ 48
  length-derive L p q buf len w h =
      elim (Bool-cases (crypto_derive_ecdh_secret ssl p q buf len w).0.is_ok) [
        | inl ok ↦
            rw (crypto_derive_ecdh_secret-ok ssl L p q buf len w ok).0
              (length-memcpy buf (L.agreed p q) (omega (arith, (L.length-agreed p q).1)) ∙ h)
        | inr failed ↦ rw (crypto_derive_ecdh_secret-failed ssl p q buf len w failed) h
      ]

  length-ecdh_with :
      IsLawfulOpenssl ssl
      → (p q : Option ssl.Pkey) (buf : List ℕ) (len : ℕ) (w : ssl.World) → length buf ≡ 48
      → length (ecdh_with ssl buf len p q w).0.secret ≡ 48
  unfolding ecdh_with
  length-ecdh_with L (some p) (some q) buf len w h = length-derive L p q buf len w h
  length-ecdh_with L none q buf len w h = h
  length-ecdh_with L (some p) none buf len w h = h

  pub ecdh_part-InBounds :
      IsLawfulOpenssl ssl
      → (combo : AlgoCombo) (r : SharedCryptoResult) (w : Worlds ssl oqs) → InBounds r
      → InBounds (ecdh_part ssl oqs combo r w).0
  unfolding ecdh_part perform_ecdh
  ecdh_part-InBounds L combo r w b = record {
    ecdh = length-ecdh_with L _ _ r.ecdh_secret r.ecdh_secret_len _ b.ecdh;
    kem = b.kem;
    kem_len = b.kem_len;
  }

  kem_part-InBounds :
      (combo : AlgoCombo) (role : HandshakeRole) (r : SharedCryptoResult) (w : Worlds ssl oqs)
      → InBounds r
      → InBounds (kem_part ssl oqs combo role r w).0
  unfolding kem_part
  kem_part-InBounds combo role r w b = stored (perform_kem_local oqs combo.pqc_name role w.kem) refl
    where
      stored :
          (x : Option (List ℕ) × oqs.World)
          → perform_kem_local oqs combo.pqc_name role w.kem ≡ x
          → InBounds (store_local ssl oqs r w x).0
      stored (none, k) e = record { ecdh = b.ecdh; kem = b.kem; kem_len = b.kem_len }
      stored (some ss, k) e =
          let short = length-perform_kem_local combo.pqc_name role w.kem k ss e in
          record {
            ecdh = b.ecdh;
            kem = length-memcpy r.kem_shared_secret ss (omega (arith, short, b.kem)) ∙ b.kem;
            kem_len = short;
          }

  pub zero_result-InBounds : InBounds zero_result
  zero_result-InBounds = record { ecdh = refl; kem = refl; kem_len = omega arith }

  -- With a lawful OpenSSL, whose ECDH secrets are of at most 48 bytes, and whatever liboqs answers,
  -- the sequential strategy writes inside the two buffers of its result, and the KEM length that it
  -- reports is at most the size of the KEM buffer.
  pub execute_sequential-InBounds :
      IsLawfulOpenssl ssl
      → (combo : AlgoCombo) (role : HandshakeRole) (w : Worlds ssl oqs)
      → InBounds (execute_sequential ssl oqs combo role w).1
  unfolding execute_sequential sequential_classical sequential_quantum sequential_hybrid
  execute_sequential-InBounds L combo role w =
      let first = ecdh_part-InBounds L combo zero_result w zero_result-InBounds in
      ground (
        arith,
        first,
        kem_part-InBounds combo role zero_result w zero_result-InBounds,
        kem_part-InBounds combo role (ecdh_part ssl oqs combo zero_result w).0
            (ecdh_part ssl oqs combo zero_result w).1 first,
      )
