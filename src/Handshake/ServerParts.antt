-- ===== src/Handshake/ServerParts.antt =====
-- What the parts of `handle_client_binary` (c_dispatch/server.c) make their secrets from.
use mathlib.Core.Path.{subst}
use hybrid_pqc_benchmarking.Prelude.{
  ℕ, ◌≡◌, refl, ap, sym, ◌∙◌, true, false, ◌||◌, Bool-cases, inl, inr, ◌⊎◌, Option, none, some,
  List, [], ◌++◌, length,
}
use hybrid_pqc_benchmarking.Act.{>>=-cases}
use hybrid_pqc_benchmarking.External.{Openssl, Liboqs, Blake3}
use hybrid_pqc_benchmarking.Algo.{AlgoCombo, is_hybrid, is_pure_classical}
use hybrid_pqc_benchmarking.Crypto.{crypto_generate_keypair}
use hybrid_pqc_benchmarking.Wire.{Endian, WireHeader, decode_header, wire_magic, msg_pqc_ciphertext}
use hybrid_pqc_benchmarking.Handshake.{
  Secret, no_secret, Party, on_ec, on_kem, recv, recv_header, classical_secret,
}
use hybrid_pqc_benchmarking.Handshake.Encaps.{PqcKeys}
use hybrid_pqc_benchmarking.Handshake.Server.{Classical, server_classical, server_quantum}
use hybrid_pqc_benchmarking.Handshake.Streams.{
  Io, Io-refl, Io-trans, Io-quiet, on_ec-eq-some, on_kem-eq-some, recv-Io, recv_header-Io, some_fst,
}
use hybrid_pqc_benchmarking.Handshake.ServerSteps.{pure-sock, decaps_secret-quiet}
use hybrid_pqc_benchmarking.Handshake.Hybrid.ServerSide.{Exchanged, Opened, decaps_secret-Opened}

module _ (ssl : Openssl) (oqs : Liboqs) where
  abbrev P : Type 0
  P = Party ssl oqs

  -- The classical part: an ECDH exchange with the client's key, or nothing in the pure quantum
  -- profile.
  pub data ClassicalPart (combo : AlgoCombo) (cli_pub : List ℕ) (c : Classical) : Type 0 where
    ecdh :
        (is_hybrid combo.profile || is_pure_classical combo.profile) ≡ true
        → Exchanged ssl oqs combo cli_pub c
        → ClassicalPart combo cli_pub c
    no_ecdh :
        (is_hybrid combo.profile || is_pure_classical combo.profile) ≡ false
        → c.srv_pub ≡ []
        → c.secret ≡ no_secret
        → ClassicalPart combo cli_pub c

  pub server_classical-ClassicalPart :
      (combo : AlgoCombo) (cli_pub : List ℕ) (p p' : P) (c : Classical)
      → server_classical ssl oqs combo cli_pub p ≡ (some c, p')
      → ClassicalPart combo cli_pub c
  unfolding server_classical
  server_classical-ClassicalPart combo cli_pub p p' c h =
      let curve = combo.classical_curve in
      elim (Bool-cases (is_hybrid combo.profile || is_pure_classical combo.profile)) [
        | inl y ↦
            >>=-cases (on_ec ssl oqs (crypto_generate_keypair ssl curve)) _ p (rw y at h)
              λ k p1 e1 f1.
                >>=-cases (on_ec ssl oqs (classical_secret ssl curve k cli_pub)) _ p1 f1
                  λ s p2 e2 f2. ecdh y (
                    subst (Exchanged ssl oqs combo cli_pub) (some_fst _ c p2 p' f2).0 (record {
                      own = k;
                      v0 = p1.ec;
                      v1 = p2.ec;
                      exported = refl;
                      derived =
                          (on_ec-eq-some ssl oqs (classical_secret ssl curve k cli_pub) p1 p2 s
                            e2).0;
                    }))
        | inr n ↦
            let same = (some_fst _ c p p' (rw n at h)).0 in
            no_ecdh n (ap (λ (z : Classical). z.srv_pub) (sym same))
              (ap (λ (z : Classical). z.secret) (sym same))
      ]

  module _ (b3 : Blake3) (e : Endian) where
    -- The quantum part: without keys nothing is read; with keys a frame of the ciphertext's type is
    -- read whole, and what it carries is decapsulated with the secret key, or the secret is marked
    -- as failed.
    pub data QuantumPart (keys : Option PqcKeys) (frame : List ℕ) (q : Secret) : Type 0 where
      no_keys : keys ≡ none → frame ≡ [] → q ≡ no_secret → QuantumPart keys frame q
      ciphertext :
          (k : PqcKeys) (hd : WireHeader) (hb ct : List ℕ)
          → keys ≡ some k
          → frame ≡ hb ++ ct
          → length hb ≡ 12
          → decode_header hb ≡ some hd
          → hd.magic ≡ wire_magic
          → hd.msg_type ≡ msg_pqc_ciphertext
          → length ct ≡ hd.payload_len
          → (q.is_ok ≡ false) ⊎ Opened ssl oqs b3 e k ct q
          → QuantumPart keys frame q

    pub server_quantum-QuantumPart :
        (keys : Option PqcKeys) (p p' : P) (q : Secret)
        → server_quantum ssl oqs b3 e keys p ≡ (some q, p')
        → (frame : List ℕ) × Io p.sock frame [] p'.sock × QuantumPart keys frame q
    unfolding server_quantum
    server_quantum-QuantumPart none p p' q h = (
      [],
      Io-quiet (pure-sock ssl oqs no_secret q p p' h) (Io-refl p'.sock),
      no_keys refl refl (sym (some_fst no_secret q p p' h).0),
    )
    server_quantum-QuantumPart (some keys) p p' q h =
        >>=-cases (recv_header ssl oqs msg_pqc_ciphertext) _ p h λ hd p1 e1 f1.
          >>=-cases (on_kem ssl oqs (oqs.malloc hd.payload_len)) _ p1 f1 λ _u p2 e2 f2.
            >>=-cases (recv ssl oqs hd.payload_len) _ p2 f2 λ ct p3 e3 f3.
              let (hb, io, twelve, dec, magic, type) =
                recv_header-Io ssl oqs msg_pqc_ciphertext p p1 hd e1 in
              let (io3, whole) = recv-Io ssl oqs hd.payload_len p2 p3 ct e3 in
              (
                hb ++ ct,
                subst (λ z. Io p.sock (hb ++ ct) [] z)
                    (sym (decaps_secret-quiet ssl oqs b3 e keys ct p3 p' q f3))
                    (Io-trans io (
                      Io-quiet (on_kem-eq-some ssl oqs (oqs.malloc hd.payload_len) p1 p2 tt e2).1
                        io3)),
                ciphertext keys hd hb ct refl refl twelve dec magic type whole
                    (elim (Bool-cases q.is_ok) [
                      | inl ok ↦ inr (decaps_secret-Opened ssl oqs b3 e keys ct p3 p' q f3 ok)
                      | inr bad ↦ inl bad
                    ]),
              )

    pub QuantumPart-no_keys :
        (keys : Option PqcKeys) (frame : List ℕ) (q : Secret)
        → QuantumPart keys frame q
        → keys ≡ none
        → (q ≡ no_secret) × (frame ≡ [])
    QuantumPart-no_keys keys frame q (no_keys n f s) e = (s, f)
    QuantumPart-no_keys keys frame q (ciphertext k hd hb ct y f l d m t w o) e =
        absurd (clash (sym y ∙ e))
      where
        clash : ¬ (◌≡◌ {A = Option PqcKeys} (some k) none)
        clash h = cc
