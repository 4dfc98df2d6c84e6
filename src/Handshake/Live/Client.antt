-- ===== src/Handshake/Live/Client.antt =====
-- `execute_dispatch_handshake` (c_dispatch/client.c) completes a hybrid handshake with every server
-- whose first frame arrives whole.
use hybrid_pqc_benchmarking.Prelude.{
  ℕ, ◌≤◌, ◌<◌, ◌≡◌, refl, true, String, str_eq, Option, some, List, ◌++◌, arith, length,
}
use hybrid_pqc_benchmarking.Act.{◌>>=◌, pure}
use hybrid_pqc_benchmarking.External.{Openssl, IsLawfulOpenssl, Liboqs, Blake3, OqsKem}
use hybrid_pqc_benchmarking.Algo.{AlgoCombo, hybrid}
use hybrid_pqc_benchmarking.Wire.{
  Endian, WireHeader, wire_magic, ServerHelloMeta, msg_server_hello, encode_header,
  encode_server_meta,
}
use hybrid_pqc_benchmarking.Wire.Codec.{HeaderFits, ServerMetaFits}
use hybrid_pqc_benchmarking.Handshake.{
  Session, Party, on_ec, load_pub, finish_session, max_pub_key_bytes,
}
use hybrid_pqc_benchmarking.Handshake.Client.{
  client_keypair, own_pub, send_client_hello, recv_server_hello, client_secrets, kdf_code,
  dmode_code, await_finished, execute_dispatch_handshake,
}
use hybrid_pqc_benchmarking.Handshake.Live.Libraries.{finish_session-Total}
use hybrid_pqc_benchmarking.Handshake.Live.{
  Total, IsUpOpenssl, IsUpLiboqs, Holds, Gets, Gets->>=, Gets-on_ec,
}
use hybrid_pqc_benchmarking.Handshake.Live.ClientSteps.{
  IsDeriving, Yields, client_keypair-Gets, send_client_hello-Gets, recv_server_hello-Gets,
  client_secrets-Gets,
}

module _ (ssl : Openssl) (L : IsLawfulOpenssl ssl) (oqs : Liboqs) (up : IsUpOpenssl ssl)
    (dup : IsDeriving ssl) (oup : IsUpLiboqs oqs) where
  abbrev P : Type 0
  P = Party ssl oqs

  -- A server's first frame whose fields fit, with keys that load and have their length.
  module _ (b3 : Blake3) (en : Endian) (combo : AlgoCombo) (hdr : WireHeader)
      (fields : ServerHelloMeta) (srv_pub pk : List ℕ) (peer : ssl.Pkey) (kem : OqsKem)
      (is : combo.profile ≡ hybrid) (hf : HeaderFits hdr) (magic : hdr.magic ≡ wire_magic)
      (kind : hdr.msg_type ≡ msg_server_hello) (mf : ServerMetaFits fields)
      (l : length srv_pub ≡ fields.srv_pub_len) (l0 : 0 < fields.srv_pub_len)
      (small : fields.srv_pub_len ≤ max_pub_key_bytes) (lk : length pk ≡ fields.pqc_pk_len)
      (k0 : 0 < fields.pqc_pk_len)
      (loads : Yields (load_pub ssl combo.classical_curve srv_pub) peer)
      (new : Yields (oqs.kem_new combo.pqc_name) kem) (lp : length pk ≡ kem.length_public_key)
      (enc : Total (oqs.encaps kem pk)) where
    abbrev frame : List ℕ → List ℕ
    frame ys = encode_header hdr ++ (encode_server_meta en fields ++ (srv_pub ++ (pk ++ ys)))

    -- From the server's first frame on.
    exchange-Gets :
        (kdf_type : String) (key : Option ssl.Pkey) (priv : ssl.Pkey) (ys : List ℕ) (p : P)
        → key ≡ some priv
        → Holds (frame ys) p.sock
        → Gets ssl oqs
            (recv_server_hello ssl oqs b3 en >>= λ keys.
              client_secrets ssl oqs b3 en combo key keys >>= λ s.
              on_ec ssl oqs
                (finish_session ssl b3 combo (str_eq kdf_type "blake3") s.classical s.quantum)
              >>= λ session. await_finished ssl oqs b3 en >>= λ _status. pure session)
            p
            (λ _s s. Unit {0})
    unfolding await_finished
    exchange-Gets kdf_type key priv ys p made h =
        Gets->>= ssl oqs (recv_server_hello ssl oqs b3 en) _ p
          (recv_server_hello-Gets ssl L oqs up dup oup b3 en hdr fields srv_pub pk ys p hf magic
            kind mf l small lk k0 h)
          λ keys p1 same.
            let secrets : Gets ssl oqs (client_secrets ssl oqs b3 en combo key keys) p1
                (λ _s s. Unit {0}) =
              rw (made, same)
                (client_secrets-Gets ssl L oqs up dup oup b3 en combo priv peer kem srv_pub pk p1 is
                  (omega arith) loads new lp enc) in
            Gets->>= ssl oqs (client_secrets ssl oqs b3 en combo key keys) _ p1 secrets λ s p2 _q.
              let finish =
                finish_session ssl b3 combo (str_eq kdf_type "blake3") s.classical s.quantum in
              Gets->>= ssl oqs (on_ec ssl oqs finish) _ p2
                (Gets-on_ec ssl oqs finish p2 (
                  finish_session-Total ssl oqs up oup b3 combo (str_eq kdf_type "blake3")
                    s.classical s.quantum))
                λ session p3 _q3. record {
                  value = session;
                  party = _;
                  runs = refl;
                  then_holds = tt;
                }

    opening-Gets :
        (kdf_type dispatch_mode : String) (ys : List ℕ) (p : P)
        → Holds (frame ys) p.sock
        → Gets ssl oqs
            (client_keypair ssl oqs b3 en combo >>= λ key.
              send_client_hello ssl oqs b3 en combo
                (kdf_code kdf_type)
                (dmode_code dispatch_mode)
                (own_pub ssl oqs b3 en combo key)
              >>= λ _u. recv_server_hello ssl oqs b3 en >>= λ keys.
                  client_secrets ssl oqs b3 en combo key keys >>= λ s.
                  on_ec ssl oqs
                    (finish_session ssl b3 combo (str_eq kdf_type "blake3") s.classical s.quantum)
                  >>= λ session. await_finished ssl oqs b3 en >>= λ _status. pure session)
            p
            (λ _s s. Unit {0})
    opening-Gets kdf_type dispatch_mode ys p h =
        Gets->>= ssl oqs (client_keypair ssl oqs b3 en combo) _ p
          (client_keypair-Gets ssl L oqs up dup oup b3 en combo _ p is h)
          λ key p1 (h1, priv, made).
            Gets->>= ssl oqs
              (send_client_hello ssl oqs b3 en combo (kdf_code kdf_type) (dmode_code dispatch_mode)
                (own_pub ssl oqs b3 en combo key))
              _ p1 (send_client_hello-Gets ssl L oqs up dup oup b3 en combo _ _ _ _ p1 h1)
              λ _u p2 h2. exchange-Gets kdf_type key priv ys p2 made h2

    -- The client completes a hybrid handshake with every server whose first frame arrives whole.
    -- Where that frame is a server's first frame whose fields fit, the server's keys load and have
    -- their length, the algorithm is there, the libraries' calls do not fail, and no call on the
    -- connection fails, the client returns a session, however the kernel cuts up the reads and the
    -- writes, and whether or not the last frame comes.
    pub execute_dispatch_handshake-completes :
        (kdf_type dispatch_mode : String) (ys : List ℕ) (p : P)
        → Holds
            (encode_header hdr ++ (encode_server_meta en fields ++ (srv_pub ++ (pk ++ ys))))
            p.sock
        → (session : Session) × (p' : P) × (execute_dispatch_handshake ssl oqs b3 en true combo
              kdf_type dispatch_mode p
            ≡ (some session, p'))
    unfolding execute_dispatch_handshake
    execute_dispatch_handshake-completes kdf_type dispatch_mode ys p h =
        let g = opening-Gets kdf_type dispatch_mode ys p h in (g.value, g.party, g.runs)
