-- ===== src/Handshake/ServerRun.antt =====
-- What a successful run of `handle_client_binary` (c_dispatch/server.c) has read and written.
use mathlib.Core.Path.{subst}
use hybrid_pqc_benchmarking.Prelude.{
  ℕ, ◌≡◌, ap, sym, ◌∙◌, true, ◌==◌, Option, none, some, List, [], ◌++◌, length,
}
use hybrid_pqc_benchmarking.Prelude.Int.{pos}
use hybrid_pqc_benchmarking.Act.{>>=-cases, require-eq-some, attempt, require}
use hybrid_pqc_benchmarking.External.{Openssl, Liboqs, Blake3}
use hybrid_pqc_benchmarking.Algo.{AlgoCombo, get_combo_by_id, is_pure_classical, is_pure_quantum}
use hybrid_pqc_benchmarking.Net.{Socket}
use hybrid_pqc_benchmarking.Wire.{Endian, WireHeader, ClientHelloMeta, decode_client_meta}
use hybrid_pqc_benchmarking.Handshake.{
  no_secret, static_salt, Session, Party, on_ec, recv, send, recv_pub, key_material, finish_session,
}
use hybrid_pqc_benchmarking.Handshake.Encaps.{PqcKeys}
use hybrid_pqc_benchmarking.Handshake.Server.{
  pk_len, pk_bytes, server_keygen, server_classical, server_hello_packet, send_server_hello,
  server_quantum, finished_packet, handle_client_binary,
}
use hybrid_pqc_benchmarking.Handshake.Streams.{
  Io, Io-trans, Io-answer, Io-quiet, on_ec-eq-some, recv-Io, attempt-send-Io, recv_pub-Io, some_fst,
}
use hybrid_pqc_benchmarking.Handshake.ServerSteps.{
  sock_eq, server_keygen-quiet, server_classical-quiet, send_server_hello-Io, finish_session-parts,
}
use hybrid_pqc_benchmarking.Handshake.KeyDerivation.{DerivedKey, finish_session-DerivedKey}
use hybrid_pqc_benchmarking.Handshake.ServerParts.{
  ClassicalPart, server_classical-ClassicalPart, QuantumPart, server_quantum-QuantumPart,
  QuantumPart-no_keys,
}

module _ (ssl : Openssl) (oqs : Liboqs) (b3 : Blake3) (e : Endian) where
  abbrev P : Type 0
  P = Party ssl oqs

  -- The parts of a run, in the order of the connection: the client's fields and its key, the
  -- server's first frame, the frame with the ciphertext, and what went out of the last frame.
  pub record Transcript (hdr : WireHeader) (s : Socket) (session : Session) (s' : Socket)
      : Type 0 where
    pub known : get_combo_by_id (pos hdr.combo_id) ≡ some session.combo
    pub meta : List ℕ
    pub fields : ClientHelloMeta
    pub cli_pub : List ℕ
    pub srv_pub : List ℕ
    pub keys : Option PqcKeys
    pub frame : List ℕ
    pub last : List ℕ
    pub unsent : List ℕ
    pub four : length meta ≡ 4
    pub decoded : decode_client_meta e meta ≡ some fields
    pub announced : length cli_pub ≡ fields.c_pub_len
    pub finished : finished_packet ssl oqs b3 e session.combo ≡ last ++ unsent
    pub io :
        Io s
          (meta ++ (cli_pub ++ frame))
          (server_hello_packet ssl oqs b3 e session.combo srv_pub (pk_len keys) (pk_bytes keys)
            ++ last)
          s'
    pub no_kem :
        is_pure_classical session.combo.profile ≡ true
        → (keys ≡ none) × (session.quantum ≡ no_secret) × (frame ≡ [])
    pub no_ecdh : is_pure_quantum session.combo.profile ≡ true → session.classical ≡ no_secret
    pub classical_part :
        ClassicalPart ssl oqs session.combo cli_pub
          (record { srv_pub = srv_pub; secret = session.classical })
    pub quantum_part : QuantumPart ssl oqs b3 e keys frame session.quantum
    pub key :
        DerivedKey ssl b3 session.combo
          (some static_salt)
          (key_material ssl session.classical session.quantum)
          (fields.kdf_type == 1)
          session.session_key

  -- A run of the binary handler that ends with a session has looked up the announced combination,
  -- read exactly the client's four bytes of fields, the key that they announce and, where it has KEM
  -- keys, a whole frame of the ciphertext's type, and written exactly its first frame and a front of
  -- its last one. Its classical secret is that of an ECDH exchange with the key that it read, its
  -- quantum secret is decapsulated from that frame or marked as failed, in a pure profile the other
  -- secret is empty, and the session key is derived from both secrets, by BLAKE3 if the fields say
  -- 1 and by HKDF with SHA-256 otherwise.
  pub handle_client_binary-Transcript :
      (hdr : WireHeader) (p p' : P) (session : Session)
      → handle_client_binary ssl oqs b3 e hdr p ≡ (some session, p')
      → Transcript hdr p.sock session p'.sock
  unfolding handle_client_binary
  handle_client_binary-Transcript hdr p p' session h =
      >>=-cases (require (get_combo_by_id (pos hdr.combo_id))) _ p h λ combo p0 e0 f0.
        >>=-cases (recv ssl oqs 4) _ p0 f0 λ meta p1 e1 f1.
          >>=-cases (require (decode_client_meta e meta)) _ p1 f1 λ fields p2 e2 f2.
            >>=-cases (recv_pub ssl oqs fields.c_pub_len) _ p2 f2 λ cli_pub p3 e3 f3.
              >>=-cases (server_keygen ssl oqs combo) _ p3 f3 λ keys p4 e4 f4.
                >>=-cases (server_classical ssl oqs combo cli_pub) _ p4 f4 λ c p5 e5 f5.
                  >>=-cases (send_server_hello ssl oqs b3 e combo c.srv_pub keys) _ p5 f5
                    λ _u p6 e6 f6.
                      >>=-cases (server_quantum ssl oqs b3 e keys) _ p6 f6 λ q p7 e7 f7.
                        >>=-cases
                          (on_ec ssl oqs
                            (finish_session ssl b3 combo (fields.kdf_type == 1) c.secret q))
                          _ p7 f7
                          λ s p8 e8 f8.
                            >>=-cases (attempt (send ssl oqs (finished_packet ssl oqs b3 e combo)))
                              _ p8 f8
                              λ r p9 e9 f9.
                                let (known, s0) =
                                  require-eq-some (get_combo_by_id (pos hdr.combo_id)) p e0 in
                                let (io1, four) = recv-Io ssl oqs 4 p0 p1 meta e1 in
                                let (dec, s2) = require-eq-some (decode_client_meta e meta) p1 e2 in
                                let (io3, ann) =
                                  recv_pub-Io ssl oqs fields.c_pub_len p2 p3 cli_pub e3 in
                                let (s4, no_kem) =
                                  server_keygen-quiet ssl oqs combo p3 p4 keys e4 in
                                let part =
                                  server_classical-ClassicalPart ssl oqs combo cli_pub p4 p5 c e5 in
                                let (s5, no_ecdh) =
                                  server_classical-quiet ssl oqs combo cli_pub p4 p5 c e5 in
                                let io6 =
                                  send_server_hello-Io ssl oqs b3 e combo c.srv_pub keys p5 p6 e6 in
                                let (frame, io7, quantum) =
                                  server_quantum-QuantumPart ssl oqs b3 e keys p6 p7 q e7 in
                                let (run, s8) =
                                  on_ec-eq-some ssl oqs
                                    (finish_session ssl b3 combo (fields.kdf_type == 1) c.secret q)
                                    p7 p8 s e8 in
                                let (sc, sk, sq, si) =
                                  finish_session-parts ssl oqs b3 e combo (fields.kdf_type == 1)
                                    c.secret q p7.ec p8.ec s run in
                                let (last, unsent, fin, io9) =
                                  attempt-send-Io ssl oqs (finished_packet ssl oqs b3 e combo) p8 p9
                                    r e9 in
                                let (same, s10) = some_fst s session p9 p' f9 in
                                subst (λ z. Transcript hdr p.sock z p'.sock) same
                                  (record {
                                    known = known ∙ ap some (sym sc);
                                    meta = meta;
                                    fields = fields;
                                    cli_pub = cli_pub;
                                    srv_pub = c.srv_pub;
                                    keys = keys;
                                    frame = frame;
                                    last = last;
                                    unsent = unsent;
                                    four = four;
                                    decoded = dec;
                                    announced = ann;
                                    finished = ap (finished_packet ssl oqs b3 e) sc ∙ fin;
                                    io =
                                        subst
                                          (λ z.
                                            Io p.sock (meta ++ (cli_pub ++ frame))
                                              (server_hello_packet ssl oqs b3 e z c.srv_pub
                                                  (pk_len keys) (pk_bytes keys)
                                                ++ last)
                                              p'.sock)
                                          (sym sc)
                                          (Io-quiet (sock_eq ssl oqs s0) (
                                            Io-trans io1 (
                                              Io-quiet (sock_eq ssl oqs s2) (
                                                Io-trans io3 (
                                                  Io-quiet s4 (
                                                    Io-quiet s5 (
                                                      Io-trans io6 (
                                                        Io-answer io7 (
                                                          Io-quiet s8 (
                                                            subst (λ z. Io p8.sock [] last z)
                                                            (sock_eq ssl oqs s10) io9))))))))));
                                    no_kem = λ pc.
                                        let none_made = no_kem (
                                          ap (λ (z : AlgoCombo). is_pure_classical z.profile)
                                            (sym sc)
                                          ∙ pc) in
                                        let (no_secret_made, no_frame) =
                                          QuantumPart-no_keys ssl oqs b3 e keys frame q quantum
                                            none_made in
                                        (none_made, sq ∙ no_secret_made, no_frame);
                                    no_ecdh = λ pq.
                                        sk
                                        ∙ no_ecdh (
                                            ap (λ (z : AlgoCombo). is_pure_quantum z.profile)
                                              (sym sc)
                                            ∙ pq);
                                    classical_part = rw (sc, sk) part;
                                    quantum_part = rw sq quantum;
                                    key =
                                        rw (sc, sk, sq)
                                          (finish_session-DerivedKey ssl b3 combo
                                            (fields.kdf_type == 1) c.secret q p7.ec p8.ec s run);
                                  })
