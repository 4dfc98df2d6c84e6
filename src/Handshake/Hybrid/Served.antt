-- ===== src/Handshake/Hybrid/Served.antt =====
-- A whole run of the server in the hybrid profile, from the client's header on.
use mathlib.Core.Path.{subst}
use hybrid_pqc_benchmarking.Prelude.{ℕ, ◌≡◌, ap, sym, ◌∙◌, true, ◌==◌, some, List, [], ◌++◌, length}
use hybrid_pqc_benchmarking.Prelude.Int.{pos}
use hybrid_pqc_benchmarking.Act.{Act, >>=-cases, require-eq-some, attempt, require}
use hybrid_pqc_benchmarking.External.{Openssl, Liboqs, Blake3}
use hybrid_pqc_benchmarking.Algo.{AlgoCombo, get_combo_by_id, is_hybrid}
use hybrid_pqc_benchmarking.Wire.{
  Endian, WireHeader, ClientHelloMeta, decode_header, decode_client_meta, msg_pqc_ciphertext,
}
use hybrid_pqc_benchmarking.Handshake.{
  Secret, Session, Party, on_ec, on_kem, recv, send, recv_header, recv_pub, finish_session,
}
use hybrid_pqc_benchmarking.Handshake.Encaps.{PqcKeys}
use hybrid_pqc_benchmarking.Handshake.Server.{
  Classical, server_keygen, server_classical, server_hello_packet, send_server_hello,
  server_quantum, finished_packet, handle_client_binary, handle_client, is_binary,
}
use hybrid_pqc_benchmarking.Handshake.Streams.{
  Io, Io-trans, Io-answer, Io-quiet, on_ec-eq-some, on_kem-eq-some, recv-Io, attempt-send-Io,
  recv_header-Io, recv_pub-Io, some_fst,
}
use hybrid_pqc_benchmarking.Handshake.ServerSteps.{
  sock_eq, server_keygen-quiet, server_classical-quiet, send_server_hello-Io, decaps_secret-quiet,
  finish_session-parts,
}
use hybrid_pqc_benchmarking.Handshake.Hybrid.ServerSide.{
  Generated, Exchanged, Opened, server_keygen-Generated, server_classical-Exchanged,
  decaps_secret-Opened,
}

module _ (ssl : Openssl) (oqs : Liboqs) (b3 : Blake3) (e : Endian) where
  abbrev P : Type 0
  P = Party ssl oqs

  -- The frame with the ciphertext.
  record Frame (k : PqcKeys) (p : P) (q : Secret) (p' : P) : Type 0 where
    hb : List ℕ
    hd : WireHeader
    ct : List ℕ
    io : Io p.sock (hb ++ ct) [] p'.sock
    twelve : length hb ≡ 12
    decoded : decode_header hb ≡ some hd
    size : length ct ≡ hd.payload_len
    opened : Opened ssl oqs b3 e k ct q

  server_quantum-Frame :
      (k : PqcKeys) (p p' : P) (q : Secret)
      → server_quantum ssl oqs b3 e (some k) p ≡ (some q, p')
      → q.is_ok ≡ true
      → Frame k p q p'
  unfolding server_quantum
  server_quantum-Frame k p p' q h ok =
      >>=-cases (recv_header ssl oqs msg_pqc_ciphertext) _ p h λ hd p1 e1 f1.
        >>=-cases (on_kem ssl oqs (oqs.malloc hd.payload_len)) _ p1 f1 λ _u p2 e2 f2.
          >>=-cases (recv ssl oqs hd.payload_len) _ p2 f2 λ ct p3 e3 f3.
            let (hb, io, twelve, dec, _m, _t) =
              recv_header-Io ssl oqs msg_pqc_ciphertext p p1 hd e1 in
            let (io3, size) = recv-Io ssl oqs hd.payload_len p2 p3 ct e3 in
            record {
              hb = hb;
              hd = hd;
              ct = ct;
              io =
                  subst (λ z. Io p.sock (hb ++ ct) [] z)
                    (sym (decaps_secret-quiet ssl oqs b3 e k ct p3 p' q f3))
                    (Io-trans io (
                      Io-quiet (on_kem-eq-some ssl oqs (oqs.malloc hd.payload_len) p1 p2 tt e2).1
                        io3));
              twelve = twelve;
              decoded = dec;
              size = size;
              opened = decaps_secret-Opened ssl oqs b3 e k ct p3 p' q f3 ok;
            }

  -- A run that ends with a session: what was read, in order, what was made of it, and what was
  -- written, of the last frame a front.
  pub record Served (p : P) (session : Session) (p' : P) : Type 0 where
    pub hello : List ℕ
    pub hdr : WireHeader
    pub combo : AlgoCombo
    pub meta : List ℕ
    pub fields : ClientHelloMeta
    pub cli_pub : List ℕ
    pub keys : PqcKeys
    pub classical : Classical
    pub quantum : Secret
    pub hb : List ℕ
    pub hd : WireHeader
    pub ct : List ℕ
    pub last : List ℕ
    pub w0 : ssl.World
    pub w1 : ssl.World
    pub hello_twelve : length hello ≡ 12
    pub hello_decoded : decode_header hello ≡ some hdr
    pub known : get_combo_by_id (pos hdr.combo_id) ≡ some combo
    pub meta_four : length meta ≡ 4
    pub meta_decoded : decode_client_meta e meta ≡ some fields
    pub announced : length cli_pub ≡ fields.c_pub_len
    pub generated : Generated ssl oqs combo.pqc_name keys
    pub exchanged : Exchanged ssl oqs combo cli_pub classical
    pub twelve : length hb ≡ 12
    pub decoded : decode_header hb ≡ some hd
    pub size : length ct ≡ hd.payload_len
    pub opened : Opened ssl oqs b3 e keys ct quantum
    pub finished :
        finish_session ssl b3 combo (fields.kdf_type == 1) classical.secret quantum w0
        ≡ (some session, w1)
    pub inbox : p.sock.inbox ≡ (hello ++ (meta ++ (cli_pub ++ (hb ++ ct)))) ++ p'.sock.inbox
    pub outbox :
        p'.sock.outbox
        ≡ p.sock.outbox
          ++ (server_hello_packet ssl oqs b3 e combo classical.srv_pub keys.kem.length_public_key
                keys.q_pk
              ++ last)

  -- The part after the header was read.
  handle_client_binary-Served :
      (p0 p p' : P) (hello : List ℕ) (hdr : WireHeader) (session : Session)
      → Io p0.sock hello [] p.sock
      → length hello ≡ 12
      → decode_header hello ≡ some hdr
      → handle_client_binary ssl oqs b3 e hdr p ≡ (some session, p')
      → is_hybrid session.combo.profile ≡ true
      → session.quantum.is_ok ≡ true
      → Served p0 session p'
  unfolding handle_client_binary
  handle_client_binary-Served p0 p p' hello hdr session io0 twelve dec0 h hy ok =
      >>=-cases (require (get_combo_by_id (pos hdr.combo_id))) _ p h λ combo p1 e1 f1.
        >>=-cases (recv ssl oqs 4) _ p1 f1 λ meta p2 e2 f2.
          >>=-cases (require (decode_client_meta e meta)) _ p2 f2 λ fields p3 e3 f3.
            >>=-cases (recv_pub ssl oqs fields.c_pub_len) _ p3 f3 λ cli_pub p4 e4 f4.
              >>=-cases (server_keygen ssl oqs combo) _ p4 f4 λ keys p5 e5 f5.
                >>=-cases (server_classical ssl oqs combo cli_pub) _ p5 f5 λ c p6 e6 f6.
                  >>=-cases (send_server_hello ssl oqs b3 e combo c.srv_pub keys) _ p6 f6
                    λ _u p7 e7 f7.
                      >>=-cases (server_quantum ssl oqs b3 e keys) _ p7 f7 λ q p8 e8 f8.
                        >>=-cases
                          (on_ec ssl oqs
                            (finish_session ssl b3 combo (fields.kdf_type == 1) c.secret q))
                          _ p8 f8
                          λ s p9 e9 f9.
                            >>=-cases (attempt (send ssl oqs (finished_packet ssl oqs b3 e combo)))
                              _ p9 f9
                              λ r p10 e10 f10.
                                let (run, s9) =
                                  on_ec-eq-some ssl oqs
                                    (finish_session ssl b3 combo (fields.kdf_type == 1) c.secret q)
                                    p8 p9 s e9 in
                                let (sc, sk, sq, si) =
                                  finish_session-parts ssl oqs b3 e combo (fields.kdf_type == 1)
                                    c.secret q p8.ec p9.ec s run in
                                let (same, s11) = some_fst s session p10 p' f10 in
                                let hyb : is_hybrid combo.profile ≡ true =
                                  ap (λ (z : AlgoCombo). is_hybrid z.profile) (sym sc)
                                  ∙ (ap (λ (z : Session). is_hybrid z.combo.profile) same ∙ hy) in
                                let q_ok : q.is_ok ≡ true =
                                  ap (λ (z : Secret). z.is_ok) (sym sq)
                                  ∙ (ap (λ (z : Session). z.quantum.is_ok) same ∙ ok) in
                                let (k, made, gen) =
                                  server_keygen-Generated ssl oqs combo p4 p5 keys hyb e5 in
                                let frame =
                                  server_quantum-Frame k p7 p8 q
                                    (subst (λ z. server_quantum ssl oqs b3 e z p7 ≡ (some q, p8))
                                      made e8)
                                    q_ok in
                                let (known, s1) =
                                  require-eq-some (get_combo_by_id (pos hdr.combo_id)) p e1 in
                                let (io2, four) = recv-Io ssl oqs 4 p1 p2 meta e2 in
                                let (dec, s3) = require-eq-some (decode_client_meta e meta) p2 e3 in
                                let (io4, ann) =
                                  recv_pub-Io ssl oqs fields.c_pub_len p3 p4 cli_pub e4 in
                                let s5 = (server_keygen-quiet ssl oqs combo p4 p5 keys e5).0 in
                                let s6 =
                                  (server_classical-quiet ssl oqs combo cli_pub p5 p6 c e6).0 in
                                let io7 =
                                  send_server_hello-Io ssl oqs b3 e combo c.srv_pub (some k) p6 p7 (
                                    subst
                                      (λ z.
                                        send_server_hello ssl oqs b3 e combo c.srv_pub z p6
                                        ≡ (some tt, p7))
                                      made e7) in
                                let (last, _unsent, _fin, io10) =
                                  attempt-send-Io ssl oqs (finished_packet ssl oqs b3 e combo) p9
                                    p10 r e10 in
                                let io : Io p0.sock
                                    (hello ++ (meta ++ (cli_pub ++ (frame.hb ++ frame.ct))))
                                    (server_hello_packet ssl oqs b3 e combo c.srv_pub
                                        k.kem.length_public_key k.q_pk
                                      ++ last)
                                    p'.sock =
                                  Io-trans io0 (
                                    Io-quiet (sock_eq ssl oqs s1) (
                                      Io-trans io2 (
                                        Io-quiet (sock_eq ssl oqs s3) (
                                          Io-trans io4 (
                                            Io-quiet s5 (
                                              Io-quiet s6 (
                                                Io-trans io7 (
                                                  Io-answer frame.io (
                                                    Io-quiet s9 (
                                                      subst (λ z. Io p9.sock [] last z)
                                                        (sock_eq ssl oqs s11) io10)))))))))) in
                                record {
                                  hello = hello;
                                  hdr = hdr;
                                  combo = combo;
                                  meta = meta;
                                  fields = fields;
                                  cli_pub = cli_pub;
                                  keys = k;
                                  classical = c;
                                  quantum = q;
                                  hb = frame.hb;
                                  hd = frame.hd;
                                  ct = frame.ct;
                                  last = last;
                                  w0 = p8.ec;
                                  w1 = p9.ec;
                                  hello_twelve = twelve;
                                  hello_decoded = dec0;
                                  known = known;
                                  meta_four = four;
                                  meta_decoded = dec;
                                  announced = ann;
                                  generated = gen;
                                  exchanged =
                                      server_classical-Exchanged ssl oqs combo cli_pub p5 p6 c hyb
                                        e6;
                                  twelve = frame.twelve;
                                  decoded = frame.decoded;
                                  size = frame.size;
                                  opened = frame.opened;
                                  finished =
                                      subst
                                        (λ z.
                                          finish_session ssl b3 combo (fields.kdf_type == 1)
                                            c.secret q p8.ec
                                          ≡ (some z, p9.ec))
                                        same run;
                                  inbox = io.inbox;
                                  outbox = io.outbox;
                                }

  -- Where the peek has seen the binary protocol, a header is read first.
  pub handle_client-binary :
      (legacy : Act P Session) (p p' : P) (session : Session)
      → is_binary ssl oqs b3 e p.sock ≡ true
      → handle_client ssl oqs b3 e legacy p ≡ (some session, p')
      → (hello : List ℕ) × (hdr : WireHeader) × (p1 : P) × Io p.sock hello [] p1.sock
        × (length hello ≡ 12)
        × (decode_header hello ≡ some hdr)
        × (handle_client_binary ssl oqs b3 e hdr p1 ≡ (some session, p'))
  unfolding handle_client
  handle_client-binary legacy p p' session binary h =
      >>=-cases (recv ssl oqs 12) _ p (rw binary at h) λ hello p1 e1 f1.
        >>=-cases (require (decode_header hello)) _ p1 f1 λ hdr p2 e2 f2.
          let (io, twelve) = recv-Io ssl oqs 12 p p1 hello e1 in
          let (dec, s2) = require-eq-some (decode_header hello) p1 e2 in
          (
            hello,
            hdr,
            p2,
            subst (λ z. Io p.sock hello [] z) (sym (sock_eq ssl oqs s2)) io,
            twelve,
            dec,
            f2,
          )

  -- The same for `handle_client`, where the peek has seen the binary protocol.
  pub handle_client-Served :
      (legacy : Act P Session) (p p' : P) (session : Session)
      → is_binary ssl oqs b3 e p.sock ≡ true
      → handle_client ssl oqs b3 e legacy p ≡ (some session, p')
      → is_hybrid session.combo.profile ≡ true
      → session.quantum.is_ok ≡ true
      → Served p session p'
  handle_client-Served legacy p p' session binary h hy ok =
      let (hello, hdr, p1, io, twelve, dec, run) =
        handle_client-binary legacy p p' session binary h in
      handle_client_binary-Served p p1 p' hello hdr session io twelve dec run hy ok
