-- ===== src/Handshake/Hybrid/Connected.antt =====
-- A whole run of the client in the hybrid profile.
use mathlib.Core.Path.{subst}
use hybrid_pqc_benchmarking.Prelude.{
  ℕ, ◌+◌, ◌≡◌, refl, ap, sym, ◌∙◌, Bool, true, false, ◌&&◌, ◌==◌, str_eq, ltb, Option, none, some,
  String, List, [], ◌++◌,
}
use hybrid_pqc_benchmarking.Act.{
  Act, after, ◌>>=◌, >>=-cases, caught, caught-eq-some, require-eq-some, guard-eq-some, attempt,
  require, guard,
}
use hybrid_pqc_benchmarking.External.{Openssl, Liboqs, Blake3}
use hybrid_pqc_benchmarking.Algo.{AlgoCombo, is_hybrid}
use hybrid_pqc_benchmarking.Wire.{Endian, decode_header, msg_server_finished, wire_magic}
use hybrid_pqc_benchmarking.Handshake.{
  put_kem, Secret, Session, Party, on_ec, on_kem, recv, send, recv_header, export_pub,
  classical_secret, finish_session,
}
use hybrid_pqc_benchmarking.Handshake.Encaps.{Encapsulated, client_pqc_encaps_worker, stored_secret}
use hybrid_pqc_benchmarking.Handshake.Client.{
  ServerKeys, Secrets, client_keypair, client_hello_packet, send_client_hello, recv_server_hello,
  ciphertext_packet, send_ciphertext, hybrid_secrets, client_secrets,
}
use hybrid_pqc_benchmarking.Handshake.Streams.{
  Io, Io-refl, Io-trans, Io-answer, Io-quiet, on_ec-eq-some, on_kem-eq-some, attempt-send-Io,
  some_fst,
}
use hybrid_pqc_benchmarking.Net.Recv.{recv_all-outbox}
use hybrid_pqc_benchmarking.Handshake.Client.{
  await_finished, execute_dispatch_handshake, kdf_code, dmode_code, own_pub,
}
use hybrid_pqc_benchmarking.Handshake.Hybrid.ClientSide.{
  sock_eq, hybrid_of, Sealed, client_pqc_encaps_worker-Sealed, client_keypair-made,
  send_client_hello-Io, Answer, recv_server_hello-Answer,
}

module _ (ssl : Openssl) (oqs : Liboqs) where
  abbrev P : Type 0
  P = Party ssl oqs

  -- A call that writes nothing, whether it succeeds or not.
  abbrev Silent : {A : Type 0} → Act P A → Type 0
  Silent m = (p : P) → (m p).1.sock.outbox ≡ p.sock.outbox

  after-Silent :
      {A B : Type 0} (r : Option A × P) (f : A → Act P B)
      → ((a : A) → Silent (f a))
      → (after r f).1.sock.outbox ≡ r.1.sock.outbox
  after-Silent (none, p) f h = refl
  after-Silent (some a, p) f h = h a p

  >>=-Silent :
      {A B : Type 0} (m : Act P A) (f : A → Act P B)
      → Silent m
      → ((a : A) → Silent (f a))
      → Silent (m >>= f)
  >>=-Silent m f h k p = after-Silent (m p) f k ∙ h p

  require-Silent : {A : Type 0} (o : Option A) → Silent (require o)
  require-Silent none p = refl
  require-Silent (some a) p = refl

  guard-Silent : (b : Bool) → Silent (guard b)
  guard-Silent true p = refl
  guard-Silent false p = refl

  caught-snd : {A : Type 0} (r : Option A × P) → (caught r).1 ≡ r.1
  caught-snd (o, p) = refl

  attempt-Silent : {A : Type 0} (m : Act P A) → Silent m → Silent (attempt m)
  attempt-Silent m h p = ap (λ (z : P). z.sock.outbox) (caught-snd (m p)) ∙ h p

  recv-Silent : (n : ℕ) → Silent (recv ssl oqs n)
  unfolding recv
  recv-Silent n p = recv_all-outbox n p.sock

  recv_header-Silent : (msg_type : ℕ) → Silent (recv_header ssl oqs msg_type)
  unfolding recv_header
  recv_header-Silent msg_type = >>=-Silent (recv ssl oqs 12) _ (recv-Silent 12) λ bytes.
      >>=-Silent (require (decode_header bytes)) _ (require-Silent (decode_header bytes)) λ h.
        >>=-Silent (guard (h.magic == wire_magic && h.msg_type == msg_type)) _
          (guard-Silent (h.magic == wire_magic && h.msg_type == msg_type)) λ _u p. refl

  module _ (b3 : Blake3) (e : Endian) where
    await_finished-Silent : Silent (await_finished ssl oqs b3 e)
    unfolding await_finished
    await_finished-Silent =
        attempt-Silent (recv_header ssl oqs msg_server_finished >>= λ _hdr. recv ssl oqs 1) (
          >>=-Silent (recv_header ssl oqs msg_server_finished) (λ _hdr. recv ssl oqs 1)
            (recv_header-Silent msg_server_finished) (λ _hdr. recv-Silent 1))

    -- What went out of the frame with the ciphertext: a front.
    sent_after :
        (bytes : List ℕ) (o : Option (Unit {0}) × oqs.World) (p p' : P) (r : Option (Unit {0}))
        → after (put_kem ssl oqs p o) (λ _. send ssl oqs bytes) ≡ (r, p')
        → (front : List ℕ) × (back : List ℕ) × (bytes ≡ front ++ back) × Io p.sock [] front p'.sock
    sent_after bytes (none, w) p p' r h = (
      [],
      bytes,
      refl,
      Io-quiet (ap (λ (z : Option (Unit {0}) × P). z.1.sock) (sym h)) (Io-refl p'.sock),
    )
    sent_after bytes (some tt, w) p p' r h =
        attempt-send-Io ssl oqs bytes (record p { kem = w }) p' r (ap caught h)

    send_ciphertext-front :
        (combo : AlgoCombo) (ct : List ℕ) (ct_len : ℕ) (p p' : P) (r : Option (Unit {0}))
        → send_ciphertext ssl oqs b3 e combo ct ct_len p ≡ (some r, p')
        → (front : List ℕ) × (back : List ℕ) × (ciphertext_packet ssl oqs b3 e combo ct ct_len
            ≡ front ++ back)
          × Io p.sock [] front p'.sock
    unfolding send_ciphertext
    send_ciphertext-front combo ct ct_len p p' r h =
        sent_after (ciphertext_packet ssl oqs b3 e combo ct ct_len) (oqs.malloc (12 + ct_len) p.kem)
          p p' r (caught-eq-some _ h)

    -- What a run of `hybrid_secrets` has made, and what it sent.
    record Sent (combo : AlgoCombo) (own : ssl.Pkey) (keys : ServerKeys) (p : P) (s : Secrets)
        (p' : P) : Type 0 where
      made : Encapsulated
      sealed : Sealed ssl oqs combo.pqc_name keys.pqc_pk made
      v0 : ssl.World
      v1 : ssl.World
      derived :
          classical_secret ssl combo.classical_curve own keys.srv_pub v0 ≡ (some s.classical, v1)
      quantum : s.quantum ≡ stored_secret made.ss made.q_secret_len
      front : List ℕ
      back : List ℕ
      packet : ciphertext_packet ssl oqs b3 e combo made.ct made.ct_len ≡ front ++ back
      io : Io p.sock [] front p'.sock

    hybrid_secrets-Sent :
        (combo : AlgoCombo) (own : ssl.Pkey) (keys : ServerKeys) (p p' : P) (s : Secrets)
        → hybrid_secrets ssl oqs b3 e combo own keys p ≡ (some s, p')
        → Sent combo own keys p s p'
    unfolding hybrid_secrets
    hybrid_secrets-Sent combo own keys p p' s h =
        let worker = client_pqc_encaps_worker ssl oqs combo.pqc_name none keys.pqc_pk in
        let ecdh = classical_secret ssl combo.classical_curve own keys.srv_pub in
        >>=-cases (attempt (on_kem ssl oqs worker)) _ p h λ enc p1 e1 f1.
          >>=-cases (on_ec ssl oqs ecdh) _ p1 f1 λ c p2 e2 f2.
            >>=-cases (require enc) _ p2 f2 λ made p3 e3 f3.
              >>=-cases (guard (ltb 0 c.len)) _ p3 f3 λ _u p4 e4 f4.
                >>=-cases (send_ciphertext ssl oqs b3 e combo made.ct made.ct_len) _ p4 f4
                  λ r p5 e5 f5.
                    let (enc_made, s3) = require-eq-some enc p2 e3 in
                    let (_pos, s4) = guard-eq-some (ltb 0 c.len) p3 e4 in
                    let run =
                      on_kem-eq-some ssl oqs worker p p1 made (
                        caught-eq-some (on_kem ssl oqs worker p) e1 ∙ ap (λ o. (o, p1)) enc_made) in
                    let (derived, s2) = on_ec-eq-some ssl oqs ecdh p1 p2 c e2 in
                    let (front, back, packet, io) =
                      send_ciphertext-front combo made.ct made.ct_len p4 p5 r e5 in
                    let (same, s6) = some_fst _ s p5 p' f5 in
                    subst (λ z. Sent combo own keys p z p') same
                      (record {
                        made = made;
                        sealed =
                            client_pqc_encaps_worker-Sealed ssl oqs combo.pqc_name keys.pqc_pk p.kem
                              p1.kem made run.0;
                        v0 = p1.ec;
                        v1 = p2.ec;
                        derived = derived;
                        quantum = refl;
                        front = front;
                        back = back;
                        packet = packet;
                        io = Io-quiet run.1 (
                            Io-quiet s2 (
                              Io-quiet (sock_eq ssl oqs s3) (
                                Io-quiet (sock_eq ssl oqs s4)
                                  (subst (λ z. Io p4.sock [] front z) (sock_eq ssl oqs s6) io))));
                      })

    client_secrets-Sent :
        (combo : AlgoCombo) (own : ssl.Pkey) (keys : ServerKeys) (p p' : P) (s : Secrets)
        → client_secrets ssl oqs b3 e combo (some own) keys p ≡ (some s, p')
        → is_hybrid combo.profile ≡ true
        → Sent combo own keys p s p'
    unfolding client_secrets
    client_secrets-Sent combo own keys p p' s h hy =
        hybrid_secrets-Sent combo own keys p p' s
          (rw (hybrid_of combo.profile hy, client_secrets) at h)

    -- A run that ends with a session.
    pub record Connected (combo : AlgoCombo) (kdf_type mode : String) (p : P) (session : Session)
        (p' : P) : Type 0 where
      pub own : ssl.Pkey
      pub keys : ServerKeys
      pub p1 : P
      pub p2 : P
      pub answer : Answer ssl oqs b3 e p1 keys p2
      pub made : Encapsulated
      pub sealed : Sealed ssl oqs combo.pqc_name keys.pqc_pk made
      pub classical : Secret
      pub v0 : ssl.World
      pub v1 : ssl.World
      pub derived :
          classical_secret ssl combo.classical_curve own keys.srv_pub v0 ≡ (some classical, v1)
      pub w0 : ssl.World
      pub w1 : ssl.World
      pub finished :
          finish_session ssl b3 combo
            (str_eq kdf_type "blake3")
            classical
            (stored_secret made.ss made.q_secret_len)
            w0
          ≡ (some session, w1)
      pub front : List ℕ
      pub back : List ℕ
      pub packet : ciphertext_packet ssl oqs b3 e combo made.ct made.ct_len ≡ front ++ back
      pub inbox : p.sock.inbox ≡ p1.sock.inbox
      pub outbox :
          p'.sock.outbox
          ≡ p.sock.outbox
            ++ (client_hello_packet ssl oqs b3 e combo
                  (kdf_code kdf_type)
                  (dmode_code mode)
                  (export_pub ssl combo.classical_curve own)
                ++ front)

    pub execute_dispatch_handshake-Connected :
        (connected : Bool) (combo : AlgoCombo) (kdf_type mode : String) (p p' : P)
        (session : Session)
        → execute_dispatch_handshake ssl oqs b3 e connected combo kdf_type mode p
          ≡ (some session, p')
        → is_hybrid combo.profile ≡ true
        → Connected combo kdf_type mode p session p'
    unfolding execute_dispatch_handshake
    execute_dispatch_handshake-Connected connected combo kdf_type mode p p' session h hy =
        >>=-cases (guard connected) _ p h λ _u p0 e0 f0.
          >>=-cases (client_keypair ssl oqs b3 e combo) _ p0 f0 λ c_priv p1 e1 f1.
            let hello_for = own_pub ssl oqs b3 e combo in
            >>=-cases
              (send_client_hello ssl oqs b3 e combo (kdf_code kdf_type) (dmode_code mode)
                (hello_for c_priv))
              _ p1 f1
              λ _v p2 e2 f2. >>=-cases (recv_server_hello ssl oqs b3 e) _ p2 f2 λ keys p3 e3 f3.
                >>=-cases (client_secrets ssl oqs b3 e combo c_priv keys) _ p3 f3 λ s p4 e4 f4.
                  >>=-cases
                    (on_ec ssl oqs (
                      finish_session ssl b3 combo (str_eq kdf_type "blake3") s.classical s.quantum))
                    _ p4 f4
                    λ made p5 e5 f5. >>=-cases (await_finished ssl oqs b3 e) _ p5 f5 λ r p6 e6 f6.
                      let (own, key, s1) =
                        client_keypair-made ssl oqs b3 e combo p0 p1 c_priv hy e1 in
                      let s0 = (guard-eq-some connected p e0).1 in
                      let kdf = kdf_code kdf_type in
                      let io2 =
                        send_client_hello-Io ssl oqs b3 e combo kdf (dmode_code mode)
                          (hello_for (some own)) p1 p2
                          (subst
                            (λ z.
                              send_client_hello ssl oqs b3 e combo kdf (dmode_code mode)
                                (hello_for z) p1
                              ≡ (some tt, p2))
                            key e2) in
                      let answer = recv_server_hello-Answer ssl oqs b3 e p2 p3 keys e3 in
                      let sent =
                        client_secrets-Sent combo own keys p3 p4 s
                          (subst (λ z. client_secrets ssl oqs b3 e combo z keys p3 ≡ (some s, p4))
                            key e4)
                          hy in
                      let (run, s5) =
                        on_ec-eq-some ssl oqs
                          (finish_session ssl b3 combo (str_eq kdf_type "blake3") s.classical
                            s.quantum)
                          p4 p5 made e5 in
                      let (same, s7) = some_fst made session p6 p' f6 in
                      let before = Io-quiet (sock_eq ssl oqs s0) (Io-quiet s1 io2) in
                      let whole = Io-trans before (Io-answer answer.io sent.io) in
                      record {
                        own = own;
                        keys = keys;
                        p1 = p2;
                        p2 = p3;
                        answer = answer;
                        made = sent.made;
                        sealed = sent.sealed;
                        classical = s.classical;
                        v0 = sent.v0;
                        v1 = sent.v1;
                        derived = sent.derived;
                        w0 = p4.ec;
                        w1 = p5.ec;
                        finished =
                            subst
                              (λ z.
                                finish_session ssl b3 combo (str_eq kdf_type "blake3") s.classical
                                  (stored_secret sent.made.ss sent.made.q_secret_len) p4.ec
                                ≡ (some z, p5.ec))
                              same
                              (subst
                                (λ z.
                                  finish_session ssl b3 combo (str_eq kdf_type "blake3") s.classical
                                    z p4.ec
                                  ≡ (some made, p5.ec))
                                sent.quantum run);
                        front = sent.front;
                        back = sent.back;
                        packet = sent.packet;
                        inbox = before.inbox;
                        outbox =
                            ap (λ (z : P). z.sock.outbox) (sym s7)
                            ∙ (ap (λ z. z.1.sock.outbox) (sym e6)
                                ∙ (await_finished-Silent p5
                                    ∙ (ap (λ z. z.outbox) s5 ∙ whole.outbox)));
                      }
