-- ===== src/Handshake/ServerSteps.antt =====
-- What each step of `handle_client_binary` (c_dispatch/server.c) does to the connection.
use mathlib.Core.Path.{subst}
use hybrid_pqc_benchmarking.Prelude.{
  ℕ, ◌+◌, ◌≡◌, refl, ap, sym, ◌∙◌, Bool, true, ◌||◌, ◌==◌, Bool-cases, inl, inr, Option, none, some,
  List, [], ◌++◌, arith, length,
}
use hybrid_pqc_benchmarking.Act.{Act, ◌>>◌, >>=-cases, attempt, pure}
use hybrid_pqc_benchmarking.External.{Openssl, Liboqs, Blake3}
use hybrid_pqc_benchmarking.Algo.{
  AlgoCombo, Profile, hybrid, pure_classical, pure_quantum, is_hybrid, is_pure_classical,
  is_pure_quantum,
}
use hybrid_pqc_benchmarking.Crypto.{crypto_generate_keypair}
use hybrid_pqc_benchmarking.Wire.{Endian, msg_pqc_ciphertext}
use hybrid_pqc_benchmarking.Handshake.{
  Secret, no_secret, Session, Party, on_ec, on_kem, recv, recv_header, classical_secret,
  key_material, derive_session_key, finish_session,
}
use hybrid_pqc_benchmarking.Handshake.Encaps.{PqcKeys, pqc_keygen_worker}
use hybrid_pqc_benchmarking.Handshake.Server.{
  Classical, pk_len, pk_bytes, server_keygen, server_classical, server_hello_packet,
  send_server_hello, server_quantum, decaps_secret, decapsulated,
}
use hybrid_pqc_benchmarking.Handshake.Streams.{
  Io, Io-refl, Io-trans, Io-quiet, on_ec-eq-some, on_kem-eq-some, attempt-on_kem-quiet, recv-Io,
  send-Io, recv_header-Io, some_fst,
}

no_kem_profile :
    (profile : Profile)
    → is_pure_classical profile ≡ true
    → ¬ ((is_hybrid profile || is_pure_quantum profile) ≡ true)
no_kem_profile hybrid h k = ground arith
no_kem_profile pure_classical h k = ground arith
no_kem_profile pure_quantum h k = ground arith

pub no_ecdh_profile :
    (profile : Profile)
    → is_pure_quantum profile ≡ true
    → ¬ ((is_hybrid profile || is_pure_classical profile) ≡ true)
no_ecdh_profile hybrid h k = ground arith
no_ecdh_profile pure_classical h k = ground arith
no_ecdh_profile pure_quantum h k = ground arith

module _ (ssl : Openssl) (oqs : Liboqs) where
  abbrev P : Type 0
  P = Party ssl oqs

  pub sock_eq : {p q : P} → p ≡ q → p.sock ≡ q.sock
  sock_eq = ap (λ (z : P). z.sock)

  pub pure-sock : {A : Type 0} (a b : A) (p p' : P) → pure a p ≡ (some b, p') → p'.sock ≡ p.sock
  pure-sock a b p p' h = ap (λ (z : P). z.sock) (sym (some_fst a b p p' h).1)

  pub server_keygen-quiet :
      (combo : AlgoCombo) (p p' : P) (keys : Option PqcKeys)
      → server_keygen ssl oqs combo p ≡ (some keys, p')
      → (p'.sock ≡ p.sock) × (is_pure_classical combo.profile ≡ true → keys ≡ none)
  unfolding server_keygen
  server_keygen-quiet combo p p' keys h =
      elim (Bool-cases (is_hybrid combo.profile || is_pure_quantum combo.profile)) [
        | inl e ↦
            >>=-cases (on_kem ssl oqs (pqc_keygen_worker ssl oqs combo.pqc_name)) _ p (rw e at h)
              λ k p1 e1 f1. (
                pure-sock (some k) keys p1 p' f1
                    ∙ (on_kem-eq-some ssl oqs (pqc_keygen_worker ssl oqs combo.pqc_name) p p1 k
                        e1).1,
                λ c. absurd (no_kem_profile combo.profile c e),
              )
        | inr e ↦
            (pure-sock none keys p p' (rw e at h), λ c. sym (some_fst none keys p p' (rw e at h)).0)
      ]

  pub server_classical-quiet :
      (combo : AlgoCombo) (cli_pub : List ℕ) (p p' : P) (c : Classical)
      → server_classical ssl oqs combo cli_pub p ≡ (some c, p')
      → (p'.sock ≡ p.sock) × (is_pure_quantum combo.profile ≡ true → c.secret ≡ no_secret)
  unfolding server_classical
  server_classical-quiet combo cli_pub p p' c h =
      elim (Bool-cases (is_hybrid combo.profile || is_pure_classical combo.profile)) [
        | inl e ↦
            >>=-cases (on_ec ssl oqs (crypto_generate_keypair ssl combo.classical_curve)) _ p
              (rw e at h)
              λ k p1 e1 f1.
                >>=-cases (on_ec ssl oqs (classical_secret ssl combo.classical_curve k cli_pub)) _
                  p1 f1
                  λ s p2 e2 f2. (
                    ap (λ (z : P). z.sock) (sym (some_fst _ c p2 p' f2).1)
                        ∙ ((on_ec-eq-some ssl oqs
                              (classical_secret ssl combo.classical_curve k cli_pub) p1 p2 s e2).1
                            ∙ (on_ec-eq-some ssl oqs
                                (crypto_generate_keypair ssl combo.classical_curve) p p1 k e1).1),
                    λ q. absurd (no_ecdh_profile combo.profile q e),
                  )
        | inr e ↦ (
          pure-sock _ c p p' (rw e at h),
          λ q. ap (λ (z : Classical). z.secret) (sym (some_fst _ c p p' (rw e at h)).0),
        )
      ]

  module _ (b3 : Blake3) (e : Endian) where
    pub send_server_hello-Io :
        (combo : AlgoCombo) (srv_pub : List ℕ) (keys : Option PqcKeys) (p p' : P)
        → send_server_hello ssl oqs b3 e combo srv_pub keys p ≡ (some tt, p')
        → Io p.sock []
            (server_hello_packet ssl oqs b3 e combo srv_pub (pk_len keys) (pk_bytes keys))
            p'.sock
    unfolding send_server_hello
    send_server_hello-Io combo srv_pub keys p p' h =
        >>=-cases (on_kem ssl oqs (oqs.malloc (12 + 8 + length srv_pub + pk_len keys))) _ p h
          λ _u p1 e1 f1.
            Io-quiet
              (on_kem-eq-some ssl oqs (oqs.malloc (12 + 8 + length srv_pub + pk_len keys)) p p1 tt
                e1).1
              (send-Io ssl oqs _ p1 p' f1)

    pub decaps_secret-quiet :
        (keys : PqcKeys) (ct : List ℕ) (p p' : P) (q : Secret)
        → decaps_secret ssl oqs b3 e keys ct p ≡ (some q, p')
        → p'.sock ≡ p.sock
    decaps_secret-quiet keys ct p p' q h =
        elim (Bool-cases (length ct == keys.kem.length_ciphertext)) [
          | inl same ↦
              let m : Act oqs.World (List ℕ) = (do
                oqs.malloc keys.kem.length_shared_secret
                oqs.decaps keys.kem ct keys.q_sk) in
              >>=-cases (attempt (on_kem ssl oqs m)) _ p (rw same at h) λ r p1 e1 f1.
                pure-sock (decapsulated ssl oqs b3 e keys.kem r) q p1 p' f1
                ∙ attempt-on_kem-quiet ssl oqs m p p1 r e1
          | inr other ↦ pure-sock no_secret q p p' (rw other at h)
        ]

    pub server_quantum-Io :
        (keys : Option PqcKeys) (p p' : P) (q : Secret)
        → server_quantum ssl oqs b3 e keys p ≡ (some q, p')
        → (frame : List ℕ) × Io p.sock frame [] p'.sock
          × (keys ≡ none → (q ≡ no_secret) × (frame ≡ []))
    unfolding server_quantum
    server_quantum-Io none p p' q h = (
      [],
      Io-quiet (pure-sock no_secret q p p' h) (Io-refl p'.sock),
      λ _n. (sym (some_fst no_secret q p p' h).0, refl),
    )
    server_quantum-Io (some keys) p p' q h =
        >>=-cases (recv_header ssl oqs msg_pqc_ciphertext) _ p h λ hd p1 e1 f1.
          >>=-cases (on_kem ssl oqs (oqs.malloc hd.payload_len)) _ p1 f1 λ _u p2 e2 f2.
            >>=-cases (recv ssl oqs hd.payload_len) _ p2 f2 λ ct p3 e3 f3.
              let (hb, io, _l, _d, _m, _t) = recv_header-Io ssl oqs msg_pqc_ciphertext p p1 hd e1 in
              let io3 = (recv-Io ssl oqs hd.payload_len p2 p3 ct e3).0 in
              (
                hb ++ ct,
                subst (λ z. Io p.sock (hb ++ ct) [] z)
                    (sym (decaps_secret-quiet keys ct p3 p' q f3))
                    (Io-trans io (
                      Io-quiet (on_kem-eq-some ssl oqs (oqs.malloc hd.payload_len) p1 p2 tt e2).1
                        io3)),
                λ n. absurd (ground arith),
              )

    pub finish_session-parts :
        (combo : AlgoCombo) (is_blake3 : Bool) (c q : Secret) (w w' : ssl.World) (s : Session)
        → finish_session ssl b3 combo is_blake3 c q w ≡ (some s, w')
        → (s.combo ≡ combo) × (s.classical ≡ c) × (s.quantum ≡ q) × (s.ikm ≡ key_material ssl c q)
    unfolding finish_session
    finish_session-parts combo is_blake3 c q w w' s h =
        >>=-cases (derive_session_key ssl b3 combo is_blake3 (key_material ssl c q)) _ w h
          λ k w1 e1 f1.
            let same = (some_fst _ s w1 w' f1).0 in
            (
              ap (λ (z : Session). z.combo) (sym same),
              ap (λ (z : Session). z.classical) (sym same),
              ap (λ (z : Session). z.quantum) (sym same),
              ap (λ (z : Session). z.ikm) (sym same),
            )
