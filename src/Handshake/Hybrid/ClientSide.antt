-- ===== src/Handshake/Hybrid/ClientSide.antt =====
-- The steps of a successful `execute_dispatch_handshake` (c_dispatch/client.c) in the hybrid
-- profile.
use mathlib.Core.Path.{subst}
use hybrid_pqc_benchmarking.Prelude.{
  ℕ, ◌+◌, ◌≡◌, refl, ap, sym, ◌∙◌, true, false, ◌==◌, ==_iff, ltb, Bool-cases, inl, inr, Option,
  none, some, String, List, [], ◌∷◌, ◌++◌, arith, length,
}
use hybrid_pqc_benchmarking.Act.{>>=-cases, require-eq-some, require}
use hybrid_pqc_benchmarking.External.{Openssl, Liboqs, Blake3, OqsKem}
use hybrid_pqc_benchmarking.Engine.{malloc_each}
use hybrid_pqc_benchmarking.Algo.{
  AlgoCombo, Profile, hybrid, pure_classical, pure_quantum, is_hybrid,
}
use hybrid_pqc_benchmarking.Crypto.{crypto_generate_keypair}
use hybrid_pqc_benchmarking.Wire.{Endian, ServerHelloMeta, decode_server_meta, msg_server_hello}
use hybrid_pqc_benchmarking.Handshake.{Party, on_ec, on_kem, recv, recv_header, recv_pub}
use hybrid_pqc_benchmarking.Handshake.Encaps.{Encapsulated, client_pqc_encaps_worker, choose_key}
use hybrid_pqc_benchmarking.Handshake.Client.{
  ServerKeys, client_keypair, client_hello_packet, send_client_hello, recv_pqc_pk,
  recv_server_hello,
}
use hybrid_pqc_benchmarking.Handshake.Streams.{
  Io, Io-refl, Io-trans, Io-quiet, on_ec-eq-some, on_kem-eq-some, recv-Io, send-Io, recv_header-Io,
  recv_pub-Io, some_fst, none-some,
}

pub hybrid_of : (profile : Profile) → is_hybrid profile ≡ true → profile ≡ hybrid
hybrid_of hybrid h = refl
hybrid_of pure_classical h = cc
hybrid_of pure_quantum h = cc

module _ (ssl : Openssl) (oqs : Liboqs) where
  abbrev P : Type 0
  P = Party ssl oqs

  pub sock_eq : {p q : P} → p ≡ q → p.sock ≡ q.sock
  sock_eq = ap (λ (z : P). z.sock)

  -- An encapsulation for the key that the server sent.
  pub record Sealed (name : Option String) (pk : Option (List ℕ)) (m : Encapsulated) : Type 0 where
    pub kem : OqsKem
    pub raw : List ℕ
    pub w0 : oqs.World
    pub w1 : oqs.World
    pub u0 : oqs.World
    pub u1 : oqs.World
    pub new : oqs.kem_new name w0 ≡ (some kem, w1)
    pub sent : pk ≡ some raw
    pub enough : length raw ≡ kem.length_public_key
    pub sealed : oqs.encaps kem raw u0 ≡ (some (m.ct, m.ss), u1)
    pub ct_size : m.ct_len ≡ kem.length_ciphertext
    pub ss_size : m.q_secret_len ≡ kem.length_shared_secret

  choose_key-sent :
      (kem : OqsKem) (pk : Option (List ℕ)) (w w' : oqs.World) (raw : List ℕ)
      → choose_key ssl oqs kem pk none w ≡ (some raw, w')
      → (pk ≡ some raw) × (length raw ≡ kem.length_public_key) × (w' ≡ w)
  choose_key-sent kem none w w' raw h = absurd (none-some w w' raw h)
  choose_key-sent kem (some r) w w' raw h = elim (Bool-cases (length r == kem.length_public_key)) [
    | inl fits ↦
        let (same, s) = some_fst r raw w w' (rw fits at h) in
        (
          ap some same,
          ap length (sym same) ∙ (==_iff (length r) kem.length_public_key).0 fits,
          sym s,
        )
    | inr other ↦ absurd (none-some w w' raw (rw other at h))
  ]

  pub client_pqc_encaps_worker-Sealed :
      (name : Option String) (pk : Option (List ℕ)) (w w' : oqs.World) (m : Encapsulated)
      → client_pqc_encaps_worker ssl oqs name none pk w ≡ (some m, w')
      → Sealed name pk m
  unfolding client_pqc_encaps_worker
  client_pqc_encaps_worker-Sealed name pk w w' m h =
      >>=-cases (oqs.kem_new name) _ w h λ kem w1 e1 f1.
        >>=-cases (malloc_each oqs (kem.length_ciphertext ∷ kem.length_shared_secret ∷ [])) _ w1 f1
          λ _u w2 e2 f2. >>=-cases (choose_key ssl oqs kem pk none) _ w2 f2 λ raw w3 e3 f3.
            >>=-cases (oqs.encaps kem raw) _ w3 f3 λ made w4 e4 f4.
              let (sent, enough, _s) = choose_key-sent kem pk w2 w3 raw e3 in
              subst (Sealed name pk) (some_fst _ m w4 w' f4).0 (record {
                kem = kem;
                raw = raw;
                w0 = w;
                w1 = w1;
                u0 = w3;
                u1 = w4;
                new = e1;
                sent = sent;
                enough = enough;
                sealed = e4;
                ct_size = refl;
                ss_size = refl;
              })

  module _ (b3 : Blake3) (e : Endian) where
    pub client_keypair-made :
        (combo : AlgoCombo) (p p' : P) (c_priv : Option ssl.Pkey)
        → is_hybrid combo.profile ≡ true
        → client_keypair ssl oqs b3 e combo p ≡ (some c_priv, p')
        → (k : ssl.Pkey) × (c_priv ≡ some k) × (p'.sock ≡ p.sock)
    unfolding client_keypair
    client_keypair-made combo p p' c_priv hy h =
        >>=-cases (on_ec ssl oqs (crypto_generate_keypair ssl combo.classical_curve)) _ p
          (rw hy at h)
          λ k p1 e1 f1.
            let (same, s) = some_fst (some k) c_priv p1 p' f1 in
            (
              k,
              sym same,
              sock_eq (sym s)
                  ∙ (on_ec-eq-some ssl oqs (crypto_generate_keypair ssl combo.classical_curve) p p1
                      k e1).1,
            )

    pub send_client_hello-Io :
        (combo : AlgoCombo) (kdf dmode : ℕ) (bytes : List ℕ) (p p' : P)
        → send_client_hello ssl oqs b3 e combo kdf dmode bytes p ≡ (some tt, p')
        → Io p.sock [] (client_hello_packet ssl oqs b3 e combo kdf dmode bytes) p'.sock
    unfolding send_client_hello
    send_client_hello-Io combo kdf dmode bytes p p' h =
        >>=-cases (on_kem ssl oqs (oqs.malloc (12 + 4 + length bytes))) _ p h λ _u p1 e1 f1.
          Io-quiet (on_kem-eq-some ssl oqs (oqs.malloc (12 + 4 + length bytes)) p p1 tt e1).1
            (send-Io ssl oqs _ p1 p' f1)

    -- The key of the KEM, where one is announced.
    recv_pqc_pk-Io :
        (len : ℕ) (p p' : P) (pk : Option (List ℕ))
        → recv_pqc_pk ssl oqs b3 e len p ≡ (some pk, p')
        → (bytes : List ℕ) × Io p.sock bytes [] p'.sock
          × (length bytes ≡ len)
          × ((raw : List ℕ) → pk ≡ some raw → raw ≡ bytes)
    unfolding recv_pqc_pk
    recv_pqc_pk-Io len p p' pk h = elim (Bool-cases (ltb 0 len)) [
      | inl announced ↦
          >>=-cases (on_kem ssl oqs (oqs.malloc len)) _ p (rw announced at h) λ _u p1 e1 f1.
            >>=-cases (recv ssl oqs len) _ p1 f1 λ bytes p2 e2 f2.
              let (io, size) = recv-Io ssl oqs len p1 p2 bytes e2 in
              let (same, s) = some_fst (some bytes) pk p2 p' f2 in
              (
                bytes,
                Io-quiet (on_kem-eq-some ssl oqs (oqs.malloc len) p p1 tt e1).1
                    (subst (λ z. Io p1.sock bytes [] z) (sock_eq s) io),
                size,
                λ raw r. sym (some_inj bytes raw (same ∙ r)),
              )
      | inr missing ↦
          let (same, s) = some_fst none pk p p' (rw missing at h) in
          (
            [],
            Io-quiet (sock_eq (sym s)) (Io-refl p'.sock),
            zero_length len missing,
            λ raw r. absurd (no_key raw (same ∙ r)),
          )
    ]
      where
        some_inj : (a b : List ℕ) → some a ≡ some b → a ≡ b
        some_inj a b h = ground arith

        no_key : (raw : List ℕ) → ¬ (◌≡◌ {A = Option (List ℕ)} none (some raw))
        no_key raw h = ground arith

        zero_length : (n : ℕ) → ltb 0 n ≡ false → 0 ≡ n
        zero_length n h = ground arith

    -- The server's first frame, in order.
    pub record Answer (p : P) (keys : ServerKeys) (p' : P) : Type 0 where
      pub hb : List ℕ
      pub mb : List ℕ
      pub meta : ServerHelloMeta
      pub pk : List ℕ
      pub twelve : length hb ≡ 12
      pub eight : length mb ≡ 8
      pub decoded : decode_server_meta e mb ≡ some meta
      pub pub_size : length keys.srv_pub ≡ meta.srv_pub_len
      pub pk_size : length pk ≡ meta.pqc_pk_len
      pub raw_key : (raw : List ℕ) → keys.pqc_pk ≡ some raw → raw ≡ pk
      pub io : Io p.sock (hb ++ (mb ++ (keys.srv_pub ++ pk))) [] p'.sock

    pub recv_server_hello-Answer :
        (p p' : P) (keys : ServerKeys)
        → recv_server_hello ssl oqs b3 e p ≡ (some keys, p')
        → Answer p keys p'
    unfolding recv_server_hello
    recv_server_hello-Answer p p' keys h =
        >>=-cases (recv_header ssl oqs msg_server_hello) _ p h λ hd p1 e1 f1.
          >>=-cases (recv ssl oqs 8) _ p1 f1 λ mb p2 e2 f2.
            >>=-cases (require (decode_server_meta e mb)) _ p2 f2 λ meta p3 e3 f3.
              >>=-cases (recv_pub ssl oqs meta.srv_pub_len) _ p3 f3 λ srv_pub p4 e4 f4.
                >>=-cases (recv_pqc_pk ssl oqs b3 e meta.pqc_pk_len) _ p4 f4 λ pqc_pk p5 e5 f5.
                  let (hb, io1, twelve, _d, _m, _t) =
                    recv_header-Io ssl oqs msg_server_hello p p1 hd e1 in
                  let (io2, eight) = recv-Io ssl oqs 8 p1 p2 mb e2 in
                  let (dec, s3) = require-eq-some (decode_server_meta e mb) p2 e3 in
                  let (io4, pub_size) = recv_pub-Io ssl oqs meta.srv_pub_len p3 p4 srv_pub e4 in
                  let (pk, io5, pk_size, raw_key) =
                    recv_pqc_pk-Io meta.pqc_pk_len p4 p5 pqc_pk e5 in
                  let (same, s6) = some_fst _ keys p5 p' f5 in
                  subst (λ z. Answer p z p') same
                    (record {
                      hb = hb;
                      mb = mb;
                      meta = meta;
                      pk = pk;
                      twelve = twelve;
                      eight = eight;
                      decoded = dec;
                      pub_size = pub_size;
                      pk_size = pk_size;
                      raw_key = raw_key;
                      io = Io-trans io1 (
                          Io-trans io2 (
                            Io-quiet (sock_eq s3)
                              (Io-trans io4 (subst (λ z. Io p4.sock pk [] z) (sock_eq s6) io5))));
                    })
