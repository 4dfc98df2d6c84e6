-- ===== src/Handshake/JsonParts.antt =====
-- What the parts of the JSON protocol (`handle_client` of c_dispatch/server.c) make their secrets
-- from.
use mathlib.Core.Path.{subst}
use hybrid_pqc_benchmarking.Prelude.{
  ℕ, ◌≡◌, refl, ap, sym, Bool, true, false, ltb, ◌==◌, ◌||◌, Bool-cases, inl, inr, ◌⊎◌, Option,
  none, some, List, [], length,
}
use hybrid_pqc_benchmarking.Act.{
  Act, >>=-cases, require-eq-some, guard-eq-some, caught-eq-some, require, guard, attempt,
}
use hybrid_pqc_benchmarking.External.{Openssl, Liboqs, Blake3, Cjson}
use hybrid_pqc_benchmarking.Algo.{AlgoCombo, is_hybrid, is_pure_classical}
use hybrid_pqc_benchmarking.Crypto.{crypto_generate_keypair}
use hybrid_pqc_benchmarking.Handshake.{
  Secret, no_secret, Party, max_pub_key_bytes, on_ec, on_kem, classical_secret,
}
use hybrid_pqc_benchmarking.Handshake.Encaps.{PqcKeys, b64_decode, stored_secret}
use hybrid_pqc_benchmarking.Handshake.Server.{Classical}
use hybrid_pqc_benchmarking.Handshake.Streams.{on_ec-eq-some, some_fst}
use hybrid_pqc_benchmarking.Handshake.Hybrid.ServerSide.{Exchanged}
use hybrid_pqc_benchmarking.Handshake.Json.{
  json_get_str, recv_json, send_json, decaps_buffer, json_classical, json_decaps, json_quantum,
  quantum_reply, classical_reply,
}

module _ (ssl : Openssl) (oqs : Liboqs) (b3 : Blake3) (json : Cjson) (freed : List ℕ → List ℕ)
    (realloc_ok : ℕ → Bool) (elapsed_ms : json.Number) where
  abbrev P : Type 0
  P = Party ssl oqs

  abbrev receive : Act P json.Object
  receive = recv_json ssl oqs json realloc_ok

  -- The classical part: an ECDH exchange with the key of a line that was read, or nothing in the
  -- pure quantum profile.
  pub data JsonClassical (combo : AlgoCombo) (c : Classical) : Type 0 where
    ecdh :
        (p p' : P) (hello : json.Object) (cli_pub : List ℕ)
        → (is_hybrid combo.profile || is_pure_classical combo.profile) ≡ true
        → receive p ≡ (some hello, p')
        → b64_decode ssl (json_get_str json hello "c_pub") max_pub_key_bytes ≡ some cli_pub
        → ltb 0 (length cli_pub) ≡ true
        → Exchanged ssl oqs combo cli_pub c
        → JsonClassical combo c
    no_ecdh :
        (is_hybrid combo.profile || is_pure_classical combo.profile) ≡ false
        → c.srv_pub ≡ []
        → c.secret ≡ no_secret
        → JsonClassical combo c

  pub json_classical-JsonClassical :
      (combo : AlgoCombo) (p p' : P) (c : Classical)
      → json_classical ssl oqs b3 json freed realloc_ok elapsed_ms combo p ≡ (some c, p')
      → JsonClassical combo c
  unfolding json_classical
  json_classical-JsonClassical combo p p' c h =
      let curve = combo.classical_curve in
      elim (Bool-cases (is_hybrid combo.profile || is_pure_classical combo.profile)) [
        | inl y ↦ >>=-cases receive _ p (rw y at h) λ hello p1 e1 f1.
            let found = b64_decode ssl (json_get_str json hello "c_pub") max_pub_key_bytes in
            >>=-cases (require found) _ p1 f1 λ cli_pub p2 e2 f2.
              >>=-cases (guard (ltb 0 (length cli_pub))) _ p2 f2 λ u p3 e3 f3.
                >>=-cases (on_ec ssl oqs (crypto_generate_keypair ssl curve)) _ p3 f3 λ k p4 e4 f4.
                  >>=-cases (on_ec ssl oqs (classical_secret ssl curve k cli_pub)) _ p4 f4
                    λ s p5 e5 f5.
                      ecdh p p1 hello cli_pub y e1 (require-eq-some found p1 e2).0
                        (guard-eq-some (ltb 0 (length cli_pub)) p2 e3).0
                        (subst (Exchanged ssl oqs combo cli_pub) (some_fst _ c p5 p' f5).0 (record {
                          own = k;
                          v0 = p4.ec;
                          v1 = p5.ec;
                          exported = refl;
                          derived =
                              (on_ec-eq-some ssl oqs (classical_secret ssl curve k cli_pub) p4 p5 s
                                e5).0;
                        }))
        | inr n ↦
            let same = (some_fst _ c p p' (rw n at h)).0 in
            no_ecdh n (ap (λ (z : Classical). z.srv_pub) (sym same))
              (ap (λ (z : Classical). z.secret) (sym same))
      ]

  -- The secret is what `OQS_KEM_decaps` left in its buffer for this ciphertext.
  pub record Decapsulated (k : PqcKeys) (ct : List ℕ) (q : Secret) : Type 0 where
    pub whole : (length ct == k.kem.length_ciphertext) ≡ true
    pub p : P
    pub p' : P
    pub answer : Option (List ℕ)
    pub decaps : on_kem ssl oqs (oqs.decaps k.kem ct k.q_sk) p ≡ (answer, p')
    pub secret : q ≡ stored_secret (decaps_buffer oqs k.kem answer) k.kem.length_shared_secret

  json_decaps-Decapsulated :
      (k : PqcKeys) (o : Option (List ℕ)) (p p' : P) (q : Secret)
      → json_decaps ssl oqs b3 json freed realloc_ok elapsed_ms k o p ≡ (some q, p')
      → (q ≡ no_secret) ⊎ ((ct : List ℕ) × (o ≡ some ct) × Decapsulated k ct q)
  json_decaps-Decapsulated k none p p' q h = inl (sym (some_fst no_secret q p p' h).0)
  json_decaps-Decapsulated k (some ct) p p' q h =
      elim (Bool-cases (length ct == k.kem.length_ciphertext)) [
        | inl w ↦
            >>=-cases (attempt (on_kem ssl oqs (oqs.malloc k.kem.length_shared_secret))) _ p
              (rw w at h)
              λ m p1 e1 f1.
                >>=-cases (attempt (on_kem ssl oqs (oqs.decaps k.kem ct k.q_sk))) _ p1 f1
                  λ r p2 e2 f2. inr (
                    ct,
                    refl,
                    record {
                      whole = w;
                      p = p1;
                      p' = p2;
                      answer = r;
                      decaps = caught-eq-some (on_kem ssl oqs (oqs.decaps k.kem ct k.q_sk) p1) e2;
                      secret = sym (some_fst _ q p2 p' f2).0;
                    },
                  )
        | inr n ↦ inl (sym (some_fst no_secret q p p' (rw n at h)).0)
      ]

  -- The quantum part: nothing without keys; with keys a line is read, and its ciphertext is
  -- decapsulated with the secret key, or there is no secret.
  pub data JsonQuantum (keys : Option PqcKeys) (q : Secret) : Type 0 where
    no_keys : keys ≡ none → q ≡ no_secret → JsonQuantum keys q
    ciphertext :
        (k : PqcKeys) (p p' : P) (ct_msg : json.Object)
        → keys ≡ some k
        → receive p ≡ (some ct_msg, p')
        → (q ≡ no_secret)
          ⊎ ((ct : List ℕ) × (b64_decode ssl (json_get_str json ct_msg "ct") k.kem.length_ciphertext
                ≡ some ct)
              × Decapsulated k ct q)
        → JsonQuantum keys q

  pub json_quantum-JsonQuantum :
      (srv_pub : List ℕ) (keys : Option PqcKeys) (p p' : P) (q : Secret)
      → json_quantum ssl oqs b3 json freed realloc_ok elapsed_ms srv_pub keys p ≡ (some q, p')
      → JsonQuantum keys q
  unfolding json_quantum
  json_quantum-JsonQuantum srv_pub none p p' q h =
      >>=-cases
        (attempt (
          send_json ssl oqs json realloc_ok
            (classical_reply ssl oqs b3 json freed realloc_ok elapsed_ms srv_pub)))
        _ p h λ r p1 e1 f1. no_keys refl (sym (some_fst no_secret q p1 p' f1).0)
  json_quantum-JsonQuantum srv_pub (some k) p p' q h =
      >>=-cases
        (attempt (
          send_json ssl oqs json realloc_ok
            (quantum_reply ssl oqs b3 json freed realloc_ok elapsed_ms srv_pub k)))
        _ p h
        λ r p1 e1 f1. >>=-cases receive _ p1 f1 λ ct_msg p2 e2 f2.
          >>=-cases (attempt (on_kem ssl oqs (oqs.malloc k.kem.length_ciphertext))) _ p2 f2
            λ m p3 e3 f3. ciphertext k p1 p2 ct_msg refl e2 (
              json_decaps-Decapsulated k
                (b64_decode ssl (json_get_str json ct_msg "ct") k.kem.length_ciphertext) p3 p' q f3)
