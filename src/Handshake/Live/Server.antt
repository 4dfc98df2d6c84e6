-- ===== src/Handshake/Live/Server.antt =====
-- `handle_client_binary` (c_dispatch/server.c) serves every client whose frames arrive whole.
use mathlib.Core.Path.{subst}
use hybrid_pqc_benchmarking.Prelude.{
  ℕ, ◌^◌, ◌≤◌, ◌<◌, ◌≡◌, refl, ap, ◌∙◌, sym, Bool, true, ◌||◌, ◌==◌, Bool-cases, inl, inr, ◌⊎◌,
  Option, none, some, List, ◌++◌, arith, length,
}
use hybrid_pqc_benchmarking.Prelude.Int.{pos}
use hybrid_pqc_benchmarking.Act.{Act, ◌>>=◌, pure, attempt, require}
use hybrid_pqc_benchmarking.External.{Openssl, Liboqs, Blake3}
use hybrid_pqc_benchmarking.Algo.{
  AlgoCombo, get_combo_by_id, is_hybrid, is_pure_classical, is_pure_quantum,
}
use hybrid_pqc_benchmarking.Crypto.{crypto_generate_keypair}
use hybrid_pqc_benchmarking.Wire.{
  Endian, WireHeader, ClientHelloMeta, msg_pqc_ciphertext, encode_header, encode_client_meta,
  decode_client_meta,
}
use hybrid_pqc_benchmarking.Wire.Codec.{
  ClientMetaFits, decode_client_meta-encode_client_meta, length-encode_client_meta,
}
use hybrid_pqc_benchmarking.Handshake.{
  Session, Party, on_ec, on_kem, recv, send, recv_header, recv_pub, header, classical_secret,
  finish_session, max_pub_key_bytes,
}
use hybrid_pqc_benchmarking.Handshake.Encaps.{PqcKeys, pqc_keygen_worker}
use hybrid_pqc_benchmarking.Handshake.Server.{
  server_keygen, server_classical, send_server_hello, decaps_secret, server_quantum,
  finished_packet, handle_client_binary,
}
use hybrid_pqc_benchmarking.Handshake.Live.Libraries.{
  crypto_generate_keypair-Total, pqc_keygen_worker-Total, classical_secret-Total,
  finish_session-Total,
}
use hybrid_pqc_benchmarking.Handshake.Live.{
  Total, IsUpOpenssl, IsUpLiboqs, Flows, Holds, Gets, bind_at, Gets-pure, Gets-recv_header,
  Gets->>=, Gets-imp, Gets-on_ec, Gets-on_kem, Gets-recv, Gets-send, Gets-recv_pub,
}

-- The profiles with a KEM.
abbrev pub has_kem : AlgoCombo → Bool
has_kem combo = is_hybrid combo.profile || is_pure_quantum combo.profile

-- What a client with a KEM sends behind its first frame.
pub record CiphertextFrame (combo : AlgoCombo) (bytes : List ℕ) : Type 0 where
  pub ct : List ℕ
  pub rest : List ℕ
  pub short_ct : length ct < 2 ^ 32
  pub short_id : combo.id < 2 ^ 16
  pub frame : bytes ≡ encode_header (header msg_pqc_ciphertext combo (length ct)) ++ (ct ++ rest)

module _ (ssl : Openssl) (oqs : Liboqs) (up : IsUpOpenssl ssl) (oup : IsUpLiboqs oqs) where
  abbrev P : Type 0
  P = Party ssl oqs

  -- The connection is left alone by a step whose value is not looked at.
  abbrev Quiet : {A : Type 0} → Act P A → P → Type 0
  Quiet m p = Gets ssl oqs m p (λ a s. s ≡ p.sock)

  Gets-server_keygen :
      (combo : AlgoCombo) (p : P)
      → (has_kem combo ≡ true → Total (oqs.kem_new combo.pqc_name))
      → Gets ssl oqs
          (server_keygen ssl oqs combo)
          p
          (λ keys s. (s ≡ p.sock) × ((keys ≡ none) ⊎ (has_kem combo ≡ true)))
  unfolding server_keygen
  Gets-server_keygen combo p new = elim (Bool-cases (has_kem combo)) [
    | inl e ↦ rw e (
        Gets->>= ssl oqs (on_kem ssl oqs (pqc_keygen_worker ssl oqs combo.pqc_name)) _ p
          (Gets-on_kem ssl oqs (pqc_keygen_worker ssl oqs combo.pqc_name) p
            (pqc_keygen_worker-Total ssl oqs up oup combo.pqc_name (new e)))
          λ keys p1 q1. Gets-pure ssl oqs (some keys) p1 (q1, inr refl))
    | inr e ↦ rw e (Gets-pure ssl oqs none p (refl, inl refl))
  ]

  Quiet-server_classical :
      (combo : AlgoCombo) (cli_pub : List ℕ) (p : P)
      → Quiet (server_classical ssl oqs combo cli_pub) p
  unfolding server_classical
  Quiet-server_classical combo cli_pub p =
      elim (Bool-cases (is_hybrid combo.profile || is_pure_classical combo.profile)) [
        | inl e ↦ rw e (
            Gets->>= ssl oqs (on_ec ssl oqs (crypto_generate_keypair ssl combo.classical_curve)) _ p
              (Gets-on_ec ssl oqs (crypto_generate_keypair ssl combo.classical_curve) p
                (crypto_generate_keypair-Total ssl oqs up oup combo.classical_curve))
              λ priv p1 q1.
                Gets->>= ssl oqs
                  (on_ec ssl oqs (classical_secret ssl combo.classical_curve priv cli_pub)) _ p1
                  (Gets-on_ec ssl oqs (classical_secret ssl combo.classical_curve priv cli_pub) p1
                    (classical_secret-Total ssl oqs up oup combo.classical_curve priv cli_pub))
                  λ c p2 q2. Gets-pure ssl oqs _ p2 (q2 ∙ q1))
        | inr e ↦ rw e (Gets-pure ssl oqs _ p refl)
      ]

  module _ (b3 : Blake3) (en : Endian) where
    Gets-send_server_hello :
        (combo : AlgoCombo) (srv_pub : List ℕ) (keys : Option PqcKeys) (ys : List ℕ) (p : P)
        → Holds ys p.sock
        → Gets ssl oqs (send_server_hello ssl oqs b3 en combo srv_pub keys) p (λ _u s. Holds ys s)
    unfolding send_server_hello
    Gets-send_server_hello combo srv_pub keys ys p h =
        Gets->>= ssl oqs (on_kem ssl oqs (oqs.malloc _)) _ p
          (Gets-on_kem ssl oqs (oqs.malloc _) p (oup.malloc _))
          λ _u p1 q1. Gets-send ssl oqs _ ys p1 (subst (Holds ys) (sym q1) h)

    Quiet-decaps_secret :
        (keys : PqcKeys) (ct : List ℕ) (p : P) → Quiet (decaps_secret ssl oqs b3 en keys ct) p
    Quiet-decaps_secret keys ct p = elim (Bool-cases (length ct == keys.kem.length_ciphertext)) [
      | inl e ↦ rw e (record { value = _; party = _; runs = refl; then_holds = refl })
      | inr e ↦ rw e (Gets-pure ssl oqs _ p refl)
    ]

    -- A server with a KEM gets its ciphertext, one without waits for nothing.
    Gets-server_quantum :
        (combo : AlgoCombo) (keys : Option PqcKeys) (tail : List ℕ) (p : P)
        → (keys ≡ none) ⊎ (has_kem combo ≡ true)
        → (has_kem combo ≡ true → CiphertextFrame combo tail)
        → Holds tail p.sock
        → Gets ssl oqs (server_quantum ssl oqs b3 en keys) p (λ q s. Flows s)
    unfolding server_quantum
    Gets-server_quantum combo none tail p k f h = Gets-pure ssl oqs _ p h.1
    Gets-server_quantum combo (some keys) tail p (inl k) f h = absurd (ground arith)
    Gets-server_quantum combo (some keys) tail p (inr k) f h =
        let c = f k in
        Gets->>= ssl oqs (recv_header ssl oqs msg_pqc_ciphertext) _ p
          (Gets-recv_header ssl oqs msg_pqc_ciphertext
            (header msg_pqc_ciphertext combo (length c.ct)) (c.ct ++ c.rest) p
            (record {
              magic = omega arith;
              msg_type = omega arith;
              combo_id = c.short_id;
              payload_len = c.short_ct;
            })
            refl refl (subst (λ t. Holds t p.sock) c.frame h))
          λ hdr p1 (same, left).
            Gets->>= ssl oqs (on_kem ssl oqs (oqs.malloc hdr.payload_len)) _ p1
              (Gets-on_kem ssl oqs (oqs.malloc hdr.payload_len) p1 (oup.malloc _))
              λ _u p2 q2.
                Gets->>= ssl oqs (recv ssl oqs hdr.payload_len) _ p2
                  (Gets-recv ssl oqs hdr.payload_len c.ct c.rest p2
                    (ap (λ (z : WireHeader). z.payload_len) same)
                    (subst (Holds (c.ct ++ c.rest)) (sym q2) left))
                  λ ct p3 (_same, left3).
                    Gets-imp ssl oqs (decaps_secret ssl oqs b3 en keys ct) p3
                      (Quiet-decaps_secret keys ct p3) λ q s q4. subst Flows (sym q4) left3.1

    -- From the key exchange on.
    Gets-answer :
        (combo : AlgoCombo) (fields : ClientHelloMeta) (cli_pub : List ℕ) (keys : Option PqcKeys)
        (tail : List ℕ) (p : P)
        → (keys ≡ none) ⊎ (has_kem combo ≡ true)
        → (has_kem combo ≡ true → CiphertextFrame combo tail)
        → Holds tail p.sock
        → Gets ssl oqs
            (server_classical ssl oqs combo cli_pub >>= λ classical.
              send_server_hello ssl oqs b3 en combo classical.srv_pub keys >>= λ _u.
              server_quantum ssl oqs b3 en keys >>= λ quantum.
              on_ec ssl oqs
                (finish_session ssl b3 combo (fields.kdf_type == 1) classical.secret quantum)
              >>= λ session.
                  attempt (send ssl oqs (finished_packet ssl oqs b3 en combo)) >>= λ _sent.
                  pure session)
            p
            (λ _s s. Unit {0})
    Gets-answer combo fields cli_pub keys tail p k f h =
        Gets->>= ssl oqs (server_classical ssl oqs combo cli_pub) _ p
          (Quiet-server_classical combo cli_pub p)
          λ c p1 q1.
            Gets->>= ssl oqs (send_server_hello ssl oqs b3 en combo c.srv_pub keys) _ p1
              (Gets-send_server_hello combo c.srv_pub keys tail p1 (subst (Holds tail) (sym q1) h))
              λ _u p2 h2.
                Gets->>= ssl oqs (server_quantum ssl oqs b3 en keys) _ p2
                  (Gets-server_quantum combo keys tail p2 k f h2)
                  λ q p3 _flows.
                    Gets->>= ssl oqs
                      (on_ec ssl oqs
                        (finish_session ssl b3 combo (fields.kdf_type == 1) c.secret q))
                      _ p3
                      (Gets-on_ec ssl oqs
                        (finish_session ssl b3 combo (fields.kdf_type == 1) c.secret q) p3
                        (finish_session-Total ssl oqs up oup b3 combo (fields.kdf_type == 1)
                          c.secret q))
                      λ session p4 _q4. record {
                        value = session;
                        party = _;
                        runs = refl;
                        then_holds = tt;
                      }

    -- The server completes the handshake with every client whose frames arrive whole. Where the
    -- combination is in the table, the client's fields fit their frame, its key is within the
    -- buffer, its ciphertext frame follows in the profiles with a KEM, keys can be made and the
    -- algorithm is there, and no call on the connection fails, the handler returns a session,
    -- however the kernel cuts up the reads and the writes, and whatever key and ciphertext the
    -- client sent.
    pub handle_client_binary-completes :
        (hdr : WireHeader) (combo : AlgoCombo) (fields : ClientHelloMeta) (cli_pub tail : List ℕ)
        (p : P)
        → get_combo_by_id (pos hdr.combo_id) ≡ some combo
        → ClientMetaFits fields
        → length cli_pub ≡ fields.c_pub_len
        → fields.c_pub_len ≤ max_pub_key_bytes
        → (has_kem combo ≡ true → Total (oqs.kem_new combo.pqc_name))
        → (has_kem combo ≡ true → CiphertextFrame combo tail)
        → Holds (encode_client_meta en fields ++ (cli_pub ++ tail)) p.sock
        → (session : Session) × (p' : P) × (handle_client_binary ssl oqs b3 en hdr p
            ≡ (some session, p'))
    unfolding handle_client_binary
    handle_client_binary-completes hdr combo fields cli_pub tail p found fits l small new frame h =
        let g : Gets ssl oqs (handle_client_binary ssl oqs b3 en hdr) p (λ _s s. Unit {0}) =
          bind_at ssl oqs (require (get_combo_by_id (pos hdr.combo_id))) _ p combo p
            (ap (λ (o : Option AlgoCombo). require o p) found)
            (Gets->>= ssl oqs (recv ssl oqs 4) _ p
              (Gets-recv ssl oqs 4 (encode_client_meta en fields) (cli_pub ++ tail) p
                (length-encode_client_meta en fields) h)
              λ meta p1 (same, h1).
                bind_at ssl oqs (require (decode_client_meta en meta)) _ p1 fields p1
                  (ap (λ (o : Option ClientHelloMeta). require o p1)
                    (ap (decode_client_meta en) (sym same)
                      ∙ decode_client_meta-encode_client_meta en fields fits))
                  (Gets->>= ssl oqs (recv_pub ssl oqs fields.c_pub_len) _ p1
                    (Gets-recv_pub ssl oqs fields.c_pub_len cli_pub tail p1 l small h1)
                    λ pub_bytes p2 (_same, h2).
                      Gets->>= ssl oqs (server_keygen ssl oqs combo) _ p2
                        (Gets-server_keygen combo p2 new)
                        λ keys p3 (q3, with_kem).
                          Gets-answer combo fields pub_bytes keys tail p3 with_kem frame
                            (subst (Holds tail) (sym q3) h2))) in
        (g.value, g.party, g.runs)
