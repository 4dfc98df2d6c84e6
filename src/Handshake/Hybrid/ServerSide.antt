-- ===== src/Handshake/Hybrid/ServerSide.antt =====
-- The steps of a successful `handle_client_binary` (c_dispatch/server.c) in the hybrid profile.
use mathlib.Core.Path.{subst}
use hybrid_pqc_benchmarking.Prelude.{
  ℕ, ◌≡◌, refl, sym, true, ◌==◌, Bool-cases, inl, inr, Option, none, some, String, List, [], ◌∷◌,
  arith, length,
}
use hybrid_pqc_benchmarking.Act.{Act, ◌>>◌, >>=-cases, caught-eq-some, attempt}
use hybrid_pqc_benchmarking.External.{Openssl, Liboqs, Blake3}
use hybrid_pqc_benchmarking.Engine.{malloc_each}
use hybrid_pqc_benchmarking.Algo.{AlgoCombo, is_hybrid}
use hybrid_pqc_benchmarking.Crypto.{crypto_generate_keypair}
use hybrid_pqc_benchmarking.Wire.{Endian}
use hybrid_pqc_benchmarking.Handshake.{
  Secret, no_secret, Party, on_ec, on_kem, export_pub, classical_secret,
}
use hybrid_pqc_benchmarking.Handshake.Encaps.{PqcKeys, pqc_keygen_worker, stored_secret}
use hybrid_pqc_benchmarking.Handshake.Server.{
  Classical, server_keygen, server_classical, decaps_secret, decapsulated,
}
use hybrid_pqc_benchmarking.Handshake.Streams.{on_ec-eq-some, on_kem-eq-some, some_fst}

module _ (ssl : Openssl) (oqs : Liboqs) where
  abbrev P : Type 0
  P = Party ssl oqs

  -- A key pair of the algorithm with this name.
  pub record Generated (name : Option String) (k : PqcKeys) : Type 0 where
    pub w0 : oqs.World
    pub w1 : oqs.World
    pub u0 : oqs.World
    pub u1 : oqs.World
    pub new : oqs.kem_new name w0 ≡ (some k.kem, w1)
    pub pair : oqs.keypair k.kem u0 ≡ (some (k.q_pk, k.q_sk), u1)

  pub pqc_keygen_worker-Generated :
      (name : Option String) (k : PqcKeys) (w w' : oqs.World)
      → pqc_keygen_worker ssl oqs name w ≡ (some k, w')
      → Generated name k
  unfolding pqc_keygen_worker
  pqc_keygen_worker-Generated name k w w' h = >>=-cases (oqs.kem_new name) _ w h λ kem w1 e1 f1.
      >>=-cases (malloc_each oqs (kem.length_public_key ∷ kem.length_secret_key ∷ [])) _ w1 f1
        λ _u w2 e2 f2. >>=-cases (oqs.keypair kem) _ w2 f2 λ pair w3 e3 f3.
          subst (Generated name) (some_fst _ k w3 w' f3).0
            (record { w0 = w; w1 = w1; u0 = w2; u1 = w3; new = e1; pair = e3 })

  pub server_keygen-Generated :
      (combo : AlgoCombo) (p p' : P) (keys : Option PqcKeys)
      → is_hybrid combo.profile ≡ true
      → server_keygen ssl oqs combo p ≡ (some keys, p')
      → (k : PqcKeys) × (keys ≡ some k) × Generated combo.pqc_name k
  unfolding server_keygen
  server_keygen-Generated combo p p' keys hy h =
      >>=-cases (on_kem ssl oqs (pqc_keygen_worker ssl oqs combo.pqc_name)) _ p (rw hy at h)
        λ k p1 e1 f1. (
          k,
          sym (some_fst (some k) keys p1 p' f1).0,
          pqc_keygen_worker-Generated combo.pqc_name k p.kem p1.kem
              (on_kem-eq-some ssl oqs (pqc_keygen_worker ssl oqs combo.pqc_name) p p1 k e1).0,
        )

  -- The server's own ECDH key, what it sends of it, and what it derives.
  pub record Exchanged (combo : AlgoCombo) (cli_pub : List ℕ) (c : Classical) : Type 0 where
    pub own : ssl.Pkey
    pub v0 : ssl.World
    pub v1 : ssl.World
    pub exported : c.srv_pub ≡ export_pub ssl combo.classical_curve own
    pub derived : classical_secret ssl combo.classical_curve own cli_pub v0 ≡ (some c.secret, v1)

  pub server_classical-Exchanged :
      (combo : AlgoCombo) (cli_pub : List ℕ) (p p' : P) (c : Classical)
      → is_hybrid combo.profile ≡ true
      → server_classical ssl oqs combo cli_pub p ≡ (some c, p')
      → Exchanged combo cli_pub c
  unfolding server_classical
  server_classical-Exchanged combo cli_pub p p' c hy h =
      let curve = combo.classical_curve in
      >>=-cases (on_ec ssl oqs (crypto_generate_keypair ssl curve)) _ p (rw hy at h) λ k p1 e1 f1.
        >>=-cases (on_ec ssl oqs (classical_secret ssl curve k cli_pub)) _ p1 f1 λ s p2 e2 f2.
          subst (Exchanged combo cli_pub) (some_fst _ c p2 p' f2).0 (record {
            own = k;
            v0 = p1.ec;
            v1 = p2.ec;
            exported = refl;
            derived = (on_ec-eq-some ssl oqs (classical_secret ssl curve k cli_pub) p1 p2 s e2).0;
          })

  module _ (b3 : Blake3) (e : Endian) where
    -- The ciphertext that was decapsulated.
    pub record Opened (k : PqcKeys) (ct : List ℕ) (q : Secret) : Type 0 where
      pub ss : List ℕ
      pub u0 : oqs.World
      pub u1 : oqs.World
      pub opened : oqs.decaps k.kem ct k.q_sk u0 ≡ (some ss, u1)
      pub secret : q ≡ stored_secret ss k.kem.length_shared_secret

    decapsulated-Opened :
        (k : PqcKeys) (ct : List ℕ) (r : Option (List ℕ)) (p p1 : P) (q : Secret)
        → on_kem ssl oqs (do oqs.malloc k.kem.length_shared_secret; oqs.decaps k.kem ct k.q_sk) p
          ≡ (r, p1)
        → decapsulated ssl oqs b3 e k.kem r ≡ q
        → q.is_ok ≡ true
        → Opened k ct q
    decapsulated-Opened k ct none p p1 q h d ok = absurd (ground arith)
    decapsulated-Opened k ct (some ss) p p1 q h d ok =
        let m : Act oqs.World (List ℕ) = (do
          oqs.malloc k.kem.length_shared_secret
          oqs.decaps k.kem ct k.q_sk) in
        >>=-cases (oqs.malloc k.kem.length_shared_secret) (λ _. oqs.decaps k.kem ct k.q_sk) p.kem
          (on_kem-eq-some ssl oqs m p p1 ss h).0
          λ _u w1 e1 f1. record { ss = ss; u0 = w1; u1 = p1.kem; opened = f1; secret = sym d }

    pub decaps_secret-Opened :
        (k : PqcKeys) (ct : List ℕ) (p p' : P) (q : Secret)
        → decaps_secret ssl oqs b3 e k ct p ≡ (some q, p')
        → q.is_ok ≡ true
        → Opened k ct q
    decaps_secret-Opened k ct p p' q h ok =
        elim (Bool-cases (length ct == k.kem.length_ciphertext)) [
          | inl same ↦
              let m : Act oqs.World (List ℕ) = (do
                oqs.malloc k.kem.length_shared_secret
                oqs.decaps k.kem ct k.q_sk) in
              >>=-cases (attempt (on_kem ssl oqs m)) _ p (rw same at h) λ r p1 e1 f1.
                decapsulated-Opened k ct r p p1 q (caught-eq-some (on_kem ssl oqs m p) e1)
                  (some_fst _ q p1 p' f1).0 ok
          | inr other ↦ absurd (not_ok q p p' (rw other at h) ok)
        ]
      where
        not_ok :
            (q : Secret) (p p' : P)
            → ◌≡◌ {A = Option Secret × P} (some no_secret, p) (some q, p')
            → ¬ (q.is_ok ≡ true)
        not_ok q p p' h ok = ground arith
